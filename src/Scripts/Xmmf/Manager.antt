-- ===== src/Scripts/Xmmf/Manager.antt =====
-- scripts/xmmf/5-xmmfManager-prod.ts: the proposals that give XMMFManager its roles and its pricer.
use usdx_v.Base.{some, [], ◌∷◌}
use usdx_v.Roles.{minter_role, price_id_setter_role}
use usdx_v.Scripts.Script.{
  Script, ◌>>=◌, ◌>>◌, log, get_contract, get_current_network, get_deployed_contract_abi, address,
  bytes32, param, ContractRef,
}
use usdx_v.Scripts.Constants.{prod_manager_admin_xmmf}
use usdx_v.Scripts.Defender.{add_contract, propose_grant_role, propose_function_call}
use usdx_v.Scripts.Xmmf.Propose.{unnamed_params}

-- The task "5-XMMFManager-prod".
unfoldable pub xmmf_manager_prod : Script (Unit {0})
unfolding add_contract propose_function_call propose_grant_role
xmmf_manager_prod = do
  manager ← get_contract "XMMFManager"
  network ← get_current_network
  abi ← get_deployed_contract_abi "XMMFManager"
  add_contract network manager "XMMFManager" abi
  log "✔ Added XMMFManager to Defender"
  xmmf ← get_contract "XMMF"
  let xmmf_contract : ContractRef = record { network = network; contract_address = xmmf }
  propose_grant_role (record {
    params = record unnamed_params {
      title = some "Grant MINTER_ROLE to XMMFManager on XMMF";
      description = some "Grant MINTER_ROLE to XMMFManager on XMMF";
    };
    contract = xmmf_contract;
    role = bytes32 minter_role;
    account = address manager;
  })
  log "✔ Grant XMMFManager Proposal submitted to Defender"
  pricer ← get_contract "Pricer"
  let manager_contract : ContractRef = record { network = network; contract_address = manager }
  propose_function_call (record {
    contract = manager_contract;
    params = record unnamed_params {
      title = some "Set Pricer";
      description = some "Set pricer in XMMF Manager";
    };
    function_name = "setPricer";
    function_interface = param "newPricer" "address" ∷ [];
    function_inputs = address pricer ∷ [];
  })
  log "✔ SetPricer Proposal submitted to Defender"
  propose_grant_role (record {
    params = record unnamed_params {
      title = some "Grant Manager Admin PRICE_ID_SETTER_ROLE";
      description = some "Grant Role to managerAdmin";
    };
    contract = manager_contract;
    role = bytes32 price_id_setter_role;
    account = prod_manager_admin_xmmf;
  })
  log "✔ Grant PRICE_ID_SETTER_ROLE proposed in Defender"
