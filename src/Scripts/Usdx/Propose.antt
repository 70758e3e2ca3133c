-- ===== src/Scripts/Usdx/Propose.antt =====
-- scripts/usdx/1-allowlist-prod.ts and 3-usdx-prod.ts: the proposals to deploy from the factories.
use usdx_v.Base.{none, some, [], ◌∷◌}
use usdx_v.Scripts.Script.{
  Script, ◌>>=◌, ◌>>◌, log, get_contract, get_current_network, get_deployed_contract_abi, nil, cons,
  address, text, tuple, param, tuple_param, ContractRef, ProposalParams,
}
use usdx_v.Scripts.Constants.{prod_guardian_usdx, sanction_address}
use usdx_v.Scripts.Defender.{add_contract, propose_function_call}

abbrev pub unnamed_params : ProposalParams
unnamed_params = record {
  title = none;
  description = none;
  via = address prod_guardian_usdx;
  via_type = "Gnosis Safe";
}

-- The task "1-USDX-prod".
unfoldable pub allowlist_prod : Script (Unit {0})
unfolding add_contract propose_function_call
allowlist_prod = do
  factory ← get_contract "AllowlistFactory"
  network ← get_current_network
  abi ← get_deployed_contract_abi "AllowlistFactory"
  let contract : ContractRef = record { network = network; contract_address = factory }
  add_contract network factory "AllowlistFactory" abi
  log "✔ Added Allowlist Factory to Defender"
  let params = record unnamed_params {
    title = some "Deploy Allowlist";
    description = some "Deploy Allowlist from factory";
  }
  propose_function_call (record {
    contract = contract;
    params = params;
    function_name = "deployAllowlist";
    function_interface = param "admin" "address" ∷ param "setter" "address" ∷ [];
    function_inputs = address prod_guardian_usdx ∷ address prod_guardian_usdx ∷ [];
  })
  log "✔ Propose Allowlist deploy from factory"

-- The task "3-USDX-prod".
unfoldable pub usdx_prod : Script (Unit {0})
unfolding add_contract propose_function_call
usdx_prod = do
  factory ← get_contract "USDXFactory"
  blocklist ← get_contract "Blocklist"
  allowlist ← get_contract "Allowlist"
  network ← get_current_network
  abi ← get_deployed_contract_abi "USDXFactory"
  let contract : ContractRef = record { network = network; contract_address = factory }
  add_contract network factory "USDXFactory" abi
  log "✔ Added USDX Factory to Defender"
  let params = record unnamed_params {
    title = some "Deploy USDX";
    description = some "Deploy USDX token from factory";
  }
  let list_data =
      tuple
        (cons (address blocklist) (cons (address allowlist) (cons (address sanction_address) nil)))
  propose_function_call (record {
    contract = contract;
    params = params;
    function_name = "deployUSDX";
    function_interface =
        param "name" "string"
        ∷ param "ticker" "string"
        ∷ tuple_param "listData" (
            ("blocklist", "address") ∷ ("allowlist", "address") ∷ ("sanctionsList", "address") ∷ [])
        ∷ [];
    function_inputs = text "Ondo U.S. Dollar Yield" ∷ text "USDX" ∷ list_data ∷ [];
  })
  log "✔ Proposed USDX Deployment from factory"
