-- ===== src/Tests/Scripts.antt =====
-- The scripts in a concrete world.
use package.text.Mathlib.Text.{◌==◌ as str_eq}
use usdx_v.Base.{◌≡◌, ◌↔◌, refl, arith, All, some, true, false, List, [], ◌∷◌, if◌then◌else◌}
use usdx_v.Evm.{ok, revert, uint_mod}
use usdx_v.Scripts.Script.{World, Effect, returned, print, number, address, deploy}
use usdx_v.Scripts.Defender.{add_contract, propose_function_call, get_client, get_env_var}
use usdx_v.Scripts.Defender
use usdx_v.Scripts.Constants.{
  usdc_mainnet, prod_manager_admin_usdx, prod_pauser_usdx, prod_guardian_usdx,
  prod_asset_sender_usdx, prod_fee_recipient_usdx, sanction_address,
}
use usdx_v.Scripts.Verify.Config.{
  usdx_proxy, usdx_roles, usdx_storage, manager_roles, manager_storage, usdx_manager_address,
  usdx_proxy_address, blocklist_address, usdx_pricer_address,
}
use usdx_v.Scripts.Verify.Agreement.{RolesAgree, StorageAgrees}
use usdx_v.Scripts.Verify.Verdict.{
  IsProxyConfig, ProxyAgrees, check_proxy_silent, check_usdx_manager_silent,
}
use usdx_v.Scripts.Verify.Completion.{IsUp, Completes, tasks-Completes}
use usdx_v.Scripts.Verify.Tasks.{
  check_proxy, check_usdx, check_allowlist, check_blocklist, check_usdx_manager, check_usdx_pricer,
}
use usdx_v.Scripts.Usdx.Manager.{manager_prod}
use usdx_v.Scripts.Usdx.Rollout.{grants_on, enact, manager_prod-roles}
use usdx_v.Scripts.Verify.Helpers.{loosely_equal}
use usdx_v.Scripts.Deploy.Production.{deploy_usdx_manager}
use usdx_v.Scripts.Deploy.Arguments.{created, getters, deploy_usdx_manager-configured}
use usdx_v.Hub.Admin.{set_pricer}
use usdx_v.Hub.Deploy.{Args, deploy_manager, initial_roles}
use usdx_v.Hub.State.{Hub, no_depositor, no_redeemer}
use usdx_v.Tests.Chain.{table_access, Ledger, ledger_peers}

-- The manager is saved at 30, its pricer at 31 and any other contract at 2. Getters answer 0.
abbrev pub world : World
world = record {
  contract = λ h name.
      some (if str_eq name "USDXManager" then 30 else if str_eq name "USDX_Pricer" then 31 else 2);
  view = λ h c getter args. some (number 0);
  storage_at = λ h c slot. 0;
  accepts = λ h e. true;
  env = λ name. some "key";
  network = "mainnet";
  abi = λ h name. "[]";
  signer = λ i. i;
  answer = λ h. false;
  timestamp = λ h. 100;
}

world-IsUp : IsUp world
world-IsUp = record { answers = λ h c getter args. (number 0, refl); prints = λ h s. refl }

check_proxy_silent_example :
    (check_proxy usdx_proxy usdx_roles usdx_storage world [] ≡ (print "mainnet" ∷ [], returned tt))
    ↔ ProxyAgrees usdx_proxy usdx_roles usdx_storage world (print "mainnet" ∷ [])
unfolding IsProxyConfig
check_proxy_silent_example =
    check_proxy_silent usdx_proxy usdx_roles usdx_storage world []
      (ground arith, ground arith, ground arith, ground arith) refl

check_usdx_manager_silent_example :
    (check_usdx_manager world [] ≡ (print "mainnet" ∷ [], returned tt)) ↔ (
      RolesAgree usdx_manager_address manager_roles world (print "mainnet" ∷ [])
      × StorageAgrees usdx_manager_address manager_storage world (print "mainnet" ∷ []))
check_usdx_manager_silent_example = check_usdx_manager_silent world [] refl

tasks-Completes_example :
    Completes world check_usdx
    × Completes world check_allowlist
    × Completes world check_blocklist
    × Completes world check_usdx_manager
    × Completes world check_usdx_pricer
tasks-Completes_example = tasks-Completes world world-IsUp

abbrev pub effects : List Effect
unfolding manager_prod add_contract propose_function_call get_client get_env_var
    Defender.propose_grant_role
effects = (manager_prod world []).0

pub manager_prod_returns : manager_prod world [] ≡ (effects, returned tt)
unfolding manager_prod add_contract propose_function_call get_client get_env_var
    Defender.propose_grant_role
manager_prod_returns = refl

abbrev ledger : Ledger
ledger = record { balances = λ t a. 0; blocked = λ a. false; price_of = λ i. 0 }

abbrev args : Args
args = record {
  collateral = 1;
  rwa = 2;
  manager_admin = prod_manager_admin_usdx;
  pauser = prod_pauser_usdx;
  asset_sender = 4;
  fee_recipient = 5;
  minimum_deposit_amount = 500000000;
  minimum_redemption_amount = 500000000000000000000;
  blocklist = 20;
  sanctions_list = 21;
}

abbrev State : Type 0
State = Hub table_access.Roles ledger_peers.World

-- A manager before its deployment, with nothing set.
abbrev blank : State
blank = record {
  world = ledger;
  log = [];
  self = 0;
  roles = table_access.no_roles;
  rwa = 0;
  pricer = 0;
  asset_sender = 0;
  fee_recipient = 0;
  deposits = λ i. no_depositor;
  redemptions = λ i. no_redeemer;
  minimum_deposit_amount = 0;
  minimum_redemption_amount = 0;
  mint_fee = 0;
  redemption_fee = 0;
  collateral = 0;
  decimals_multiplier = 0;
  subscription_request_counter = 0;
  redemption_request_counter = 0;
  redemption_paused = false;
  subscription_paused = false;
  off_chain_redemption_paused = false;
  minimum_off_chain_redemption_amount = 0;
  blocklist = 0;
  sanctions_list = 0;
  claimable_timestamps = λ i. 0;
}

abbrev hub : State
unfolding deploy_manager initial_roles uint_mod
hub = elim (deploy_manager 30 args ledger) [ ok h ↦ h | revert x ↦ blank ]

manager_deploys : deploy_manager 30 args ledger ≡ ok hub
unfolding deploy_manager initial_roles uint_mod
manager_deploys = refl

manager_prod-roles_example :
    (roles : table_access.Roles) × (enact prod_guardian_usdx (grants_on 30 effects) hub.roles
      ≡ ok roles)
    × All (λ r. table_access.members roles r.role ≡ r.members) manager_roles
manager_prod-roles_example =
    manager_prod-roles 30 world effects args ledger hub manager_deploys refl refl
      manager_prod_returns refl (λ h. ground arith)

-- The world of the configuration: its blocklist, and its USDX from the factory.
abbrev deployed_world : World
deployed_world = record world {
  view = λ h c getter args. some (address usdx_proxy_address);
  contract = λ h name. some blocklist_address;
}

abbrev deployment : Effect
deployment = deploy "USDXManager" "USDXManager" (
    address usdc_mainnet
    ∷ address usdx_proxy_address
    ∷ address prod_manager_admin_usdx
    ∷ address prod_pauser_usdx
    ∷ address prod_asset_sender_usdx
    ∷ address prod_fee_recipient_usdx
    ∷ number 500000000
    ∷ number 500000000000000000000
    ∷ address blocklist_address
    ∷ address sanction_address
    ∷ [])

manager_is_deployed : deploy_usdx_manager deployed_world [] ≡ (deployment ∷ [], returned tt)
unfolding deploy_usdx_manager loosely_equal
manager_is_deployed = refl

abbrev deployed_hub : Hub table_access.Roles ledger_peers.World
unfolding deploy_manager initial_roles uint_mod
deployed_hub = elim (created 30 (deployment ∷ []) ledger) [ ok h ↦ h | revert x ↦ hub ]

hub_is_created : created 30 (deployment ∷ []) ledger ≡ ok deployed_hub
unfolding deploy_manager initial_roles uint_mod deployed_hub
hub_is_created = refl

deploy_usdx_manager-configured_example :
    (hub' : Hub table_access.Roles ledger_peers.World) × (set_pricer prod_manager_admin_usdx
        usdx_pricer_address deployed_hub
      ≡ ok hub')
    × (getters hub' ≡ manager_storage)
deploy_usdx_manager-configured_example =
    deploy_usdx_manager-configured deployed_world [] (deployment ∷ []) 30 ledger deployed_hub
      manager_is_deployed (λ f. refl) refl hub_is_created
