-- ===== src/Scripts/Xmmf/Propose.antt =====
-- scripts/xmmf/1-xmmf-prod.ts and 3-wxmmf-prod.ts: the proposals to deploy from the factories.
use usdx_v.Base.{none, some, [], ◌∷◌}
use usdx_v.Scripts.Script.{
  Script, ◌>>=◌, ◌>>◌, log, get_contract, get_current_network, get_deployed_contract_abi, address,
  text, param, ContractRef, ProposalParams,
}
use usdx_v.Scripts.Constants.{prod_guardian_xmmf, prod_xmmf_kyc_group, prod_kyc_registry}
use usdx_v.Scripts.Defender.{add_contract, propose_function_call}

abbrev pub unnamed_params : ProposalParams
unnamed_params = record {
  title = none;
  description = none;
  via = prod_guardian_xmmf;
  via_type = "Gnosis Safe";
}

-- The task "1-XMMF-prod".
unfoldable pub xmmf_prod : Script (Unit {0})
unfolding add_contract propose_function_call
xmmf_prod = do
  factory ← get_contract "XMMFFactory"
  network ← get_current_network
  abi ← get_deployed_contract_abi "XMMFFactory"
  let contract : ContractRef = record { network = network; contract_address = factory }
  add_contract network factory "XMMFFactory" abi
  log "✔ Added Cash Factory to Defender"
  let params = record unnamed_params {
    title = some "Deploy XMMF";
    description = some "Deploy XMMF token from factory";
  }
  propose_function_call (record {
    contract = contract;
    params = params;
    function_name = "deployXMMF";
    function_interface = param "registry" "address" ∷ param "requirementGroup" "uint256" ∷ [];
    function_inputs = address prod_kyc_registry ∷ prod_xmmf_kyc_group ∷ [];
  })
  log "✔ Proposed XMMF Deployment from factory"

-- The task "3-wXMMF-prod".
unfoldable pub wxmmf_prod : Script (Unit {0})
unfolding add_contract propose_function_call
wxmmf_prod = do
  factory ← get_contract "WXMMFFactory"
  network ← get_current_network
  abi ← get_deployed_contract_abi "WXMMFFactory"
  let contract : ContractRef = record { network = network; contract_address = factory }
  xmmf ← get_contract "XMMF"
  add_contract network factory "WXMMFFactory" abi
  log "✔ Added Cash Factory to Defender"
  let params = record unnamed_params {
    title = some "Deploy WXMMF";
    description = some "Deploy WXMMF token from factory";
  }
  propose_function_call (record {
    contract = contract;
    params = params;
    function_name = "deployWXMMF";
    function_interface =
        param "name" "string"
        ∷ param "ticker" "string"
        ∷ param "XMMFAddress" "address"
        ∷ param "registry" "address"
        ∷ param "requirementGroup" "uint256"
        ∷ [];
    function_inputs =
        text "Wrapped XMMF"
        ∷ text "WXMMF"
        ∷ address xmmf
        ∷ address prod_kyc_registry
        ∷ prod_xmmf_kyc_group
        ∷ [];
  })
  log "✔ Proposed WXMMF Deployment from factory"
