-- ===== src/Scripts/Usdx/Manager.antt =====
-- scripts/usdx/5-usdxManager-prod.ts: the proposals that give USDXManager its roles and its pricer.
use Prim.Native.String.{String}
use usdx_v.Base.{ℕ, some, [], ◌∷◌}
use usdx_v.Roles.{
  minter_role, pauser_role, price_id_setter_role, timestamp_setter_role, list_configurer_role,
  relayer_role,
}
use usdx_v.Scripts.Script.{
  Script, ◌>>=◌, ◌>>◌, log, get_contract, get_current_network, get_deployed_contract_abi, Value,
  address, bytes32, param, ContractRef,
}
use usdx_v.Scripts.Constants.{prod_manager_admin_usdx, prod_pauser_usdx}
use usdx_v.Scripts.Defender.{add_contract, propose_grant_role, propose_function_call}
use usdx_v.Scripts.Usdx.Propose.{unnamed_params}

-- `params.title = …; params.description = …; await proposeGrantRole({ … })`
abbrev pub grant :
    (title description : String) → ContractRef → (role : ℕ) (account : Value) → Script (Unit {0})
grant title description contract role account = propose_grant_role (record {
  params = record unnamed_params { title = some title; description = some description };
  contract = contract;
  role = bytes32 role;
  account = account;
})

-- The task "5-USDXManager-prod".
unfoldable pub manager_prod : Script (Unit {0})
unfolding add_contract propose_function_call propose_grant_role
manager_prod = do
  manager ← get_contract "USDXManager"
  pricer ← get_contract "USDX_Pricer"
  network ← get_current_network
  abi ← get_deployed_contract_abi "USDXManager"
  pricer_abi ← get_deployed_contract_abi "USDX_Pricer"
  add_contract network manager "USDXManager" abi
  log "✔ Added USDXManager to defender"
  add_contract network pricer "USDX_Pricer" pricer_abi
  log "✔ Added pricer to defender"
  usdx ← get_contract "USDX"
  let usdx_contract : ContractRef = record { network = network; contract_address = usdx }
  grant "Grant MINTER_ROLE to USDXManager on USDX" "Grant MINTER_ROLE to USDXManager" usdx_contract
      minter_role (address manager)
  log "✔ Grant MINTER_ROLE to CM Proposal submitted to defender"
  grant "Grant PAUSER_ROLE to pauser on USDX" "Grant PAUSER_ROLE for USDX" usdx_contract pauser_role
      (address prod_pauser_usdx)
  log "✔ Grant PAUSER_ROLE to pauser Proposal submitted to defender"
  let manager_contract : ContractRef = record { network = network; contract_address = manager }
  propose_function_call (record {
    contract = manager_contract;
    params = record unnamed_params {
      title = some "Set Pricer in USDXManager";
      description = some "Set pricer in USDXManager";
    };
    function_name = "setPricer";
    function_interface = param "newPricer" "address" ∷ [];
    function_inputs = address pricer ∷ [];
  })
  log "✔ SetPricer Proposal submitted to Defender"
  grant "Grant Manager Admin PRICE_ID_SETTER_ROLE" "Grant Role to managerAdmin" manager_contract
      price_id_setter_role (address prod_manager_admin_usdx)
  log "✔ Grant PRICE_ID_SETTER_ROLE proposed in Defender"
  grant "Grant Manager Admin TIMESTAMP_SETTER_ROLE" "Grant Role to managerAdmin" manager_contract
      timestamp_setter_role (address prod_manager_admin_usdx)
  log "✔ Grant TIMESTAMP_SETTER_ROLE proposed in Defender"
  grant "Grant Manager Admin PAUSER_ROLE" "Grant Role to managerAdmin" manager_contract pauser_role
      (address prod_pauser_usdx)
  log "✔ Grant PAUSER_ROLE proposed in Defender"
  grant "Grant Manager Admin LIST_CONFIGURER_ROLE" "Grant Role to managerAdmin" manager_contract
      list_configurer_role (address prod_manager_admin_usdx)
  log "✔ Grant LIST_CONFIGURER_ROLE proposed in Defender"
  grant "Grant Manager Admin RELAYER_ROLE" "Grant Role to managerAdmin" manager_contract
      relayer_role (address prod_manager_admin_usdx)
  log "✔ Grant RELAYER_ROLE proposed in Defender"
