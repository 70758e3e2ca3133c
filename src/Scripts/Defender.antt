-- ===== src/Scripts/Defender.antt =====
-- scripts/utils/defender-helper.ts: calls of the OpenZeppelin Defender service.
use Prim.Native.String.{String}
use usdx_v.Base.{ℕ, Option, none, some, List, [], ◌∷◌}
use usdx_v.Scripts.Script.{
  Script, ◌>>=◌, ◌>>◌, pure, throw, perform, get_env, Value, text, Param, param, ContractRef,
  ProposalParams, Effect,
}
use usdx_v.Scripts.Script

-- `getEnvVar`: the message of the error repeats the value, which is undefined, not the name.
unfoldable pub get_env_var : Option String → Script String
get_env_var none = throw "undefined is undefined"
get_env_var (some value) = pure value

-- `getClient`: the client itself keeps the two keys.
unfoldable pub get_client : Script (String × String)
unfolding get_env_var
get_client = do
  api_key ← get_env_var (← get_env "ADMIN_API_KEY")
  api_secret ← get_env_var (← get_env "ADMIN_API_SECRET")
  pure (api_key, api_secret)

-- `addContract`
unfoldable pub add_contract :
    (network : String) (contract : ℕ) (name abi : String) → Script (Unit {0})
unfolding get_client
add_contract network contract name abi = do
  get_client
  perform (Effect.add_contract network contract name abi)

-- `listContracts`
unfoldable pub list_contracts : Script (Unit {0})
unfolding get_client
list_contracts = do get_client; perform Effect.list_contracts

-- `deleteContract`
unfoldable pub delete_contract : (name : String) → Script (Unit {0})
unfolding get_client
delete_contract name = do get_client; perform (Effect.delete_contract name)

-- `AccessControlRequest`
pub record AccessControlRequest : Type 0 where
  pub params : ProposalParams
  pub contract : ContractRef
  pub role : Value
  pub account : Value

-- `ProposeFunctionCallRequest`
pub record ProposeFunctionCallRequest : Type 0 where
  pub contract : ContractRef
  pub params : ProposalParams
  pub function_name : String
  pub function_interface : List Param
  pub function_inputs : List Value

-- `ProposeTokenDeployRequest`
pub record ProposeTokenDeployRequest : Type 0 where
  pub params : ProposalParams
  pub contract : ContractRef
  pub name : String
  pub ticker : String
  pub function_name : String

-- `ProposeTokenDeployWithRegistryRequest`
pub record ProposeTokenDeployWithRegistryRequest : Type 0 where
  pub params : ProposalParams
  pub contract : ContractRef
  pub name : String
  pub ticker : String
  pub registry : Value
  pub kyc_requirement_group : String
  pub function_name : String

-- `ProposeAssignRoleToKYCGroupRequest`
pub record ProposeAssignRoleToKycGroupRequest : Type 0 where
  pub params : ProposalParams
  pub contract : ContractRef
  pub kyc_requirement_group : String
  pub role : String
  pub function_name : String

-- `ProposeKYCAddressUpdateRequest`
pub record ProposeKycAddressUpdateRequest : Type 0 where
  pub params : ProposalParams
  pub contract : ContractRef
  pub addresses : Script.Values
  pub kyc_requirement_group : String
  pub function_name : String

-- `proposeGrantRole`
unfoldable pub propose_grant_role : AccessControlRequest → Script (Unit {0})
unfolding get_client
propose_grant_role request = do
  get_client
  perform (Effect.propose_grant_role request.params request.contract request.role request.account)

-- `proposeRevokeRole`
unfoldable pub propose_revoke_role : AccessControlRequest → Script (Unit {0})
unfolding get_client
propose_revoke_role request = do
  get_client
  perform (Effect.propose_revoke_role request.params request.contract request.role request.account)

-- The template `${value}` of an optional text.
abbrev pub template : Option String → String
template none = "undefined"
template (some s) = s

-- `proposeFunctionCall`
unfoldable pub propose_function_call : ProposeFunctionCallRequest → Script (Unit {0})
unfolding get_client
propose_function_call request = do
  get_client
  perform (
      Effect.create_proposal (record {
        contract = request.contract;
        title = template request.params.title;
        description = template request.params.description;
        function_name = request.function_name;
        function_interface = request.function_interface;
        function_inputs = request.function_inputs;
        via = request.params.via;
        via_type = request.params.via_type;
      }))

-- `proposeDeploy`
unfoldable pub propose_deploy : ProposeTokenDeployRequest → Script (Unit {0})
unfolding propose_function_call
propose_deploy request = propose_function_call (record {
  contract = request.contract;
  params = request.params;
  function_name = request.function_name;
  function_interface = param "name" "string" ∷ param "ticker" "string" ∷ [];
  function_inputs = text request.name ∷ text request.ticker ∷ [];
})

-- `proposeDeployWithRegistry`
unfoldable pub propose_deploy_with_registry :
    ProposeTokenDeployWithRegistryRequest → Script (Unit {0})
unfolding propose_function_call
propose_deploy_with_registry request = propose_function_call (record {
  contract = request.contract;
  params = request.params;
  function_name = request.function_name;
  function_interface =
      param "name" "string"
      ∷ param "ticker" "string"
      ∷ param "registry" "address"
      ∷ param "kycRequirementGroup" "uint256"
      ∷ [];
  function_inputs =
      text request.name
      ∷ text request.ticker
      ∷ request.registry
      ∷ text request.kyc_requirement_group
      ∷ [];
})

-- `proposeKYCAddressUpdate`
unfoldable pub propose_kyc_address_update : ProposeKycAddressUpdateRequest → Script (Unit {0})
unfolding propose_function_call
propose_kyc_address_update request = propose_function_call (record {
  contract = request.contract;
  params = request.params;
  function_name = request.function_name;
  function_interface = param "kycRequirementGroup" "uint256" ∷ param "addresses" "address[]" ∷ [];
  function_inputs = text request.kyc_requirement_group ∷ Value.tuple request.addresses ∷ [];
})

-- `ProposeAssignRoleToKYCGroup`
unfoldable pub propose_assign_role_to_kyc_group :
    ProposeAssignRoleToKycGroupRequest → Script (Unit {0})
unfolding propose_function_call
propose_assign_role_to_kyc_group request = propose_function_call (record {
  contract = request.contract;
  params = request.params;
  function_name = request.function_name;
  function_interface = param "kycRequirementGroup" "uint256" ∷ param "role" "bytes32" ∷ [];
  function_inputs = text request.kyc_requirement_group ∷ text request.role ∷ [];
})
