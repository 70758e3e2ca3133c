-- ===== src/Tests/Factory.antt =====
-- The factory of USDX at concrete inputs, and the roles after the rollout.
use Prim.Native.String.{String}
use usdx_v.Base.{ℕ, ◌≡◌, refl, arith, List, [], ◌∷◌}
use usdx_v.Evm.{Result, ok, revert, external}
use usdx_v.Evm
use usdx_v.Roles.{default_admin_role, minter_role, pauser_role, burner_role, list_configurer_role}
use usdx_v.Compliance.Token.{Token}
use usdx_v.Compliance.Factory.{
  ListData, Created, Factory, Deployment, ExCall, deploy_factory, deploy_usdx, deploy_allowlist,
  only_guardian, initialize_usdx, hand_roles, hand_over, call_each, multiexcall,
}
use usdx_v.Compliance.Handover.{preset_roles, IsHandedOver, deploy_usdx-IsHandedOver}
use usdx_v.Scripts.Constants.{prod_guardian_usdx, prod_pauser_usdx}
use usdx_v.Scripts.Usdx.Rollout.{grants_on, enact}
use usdx_v.Scripts.Usdx.TokenRoles.{usdx-roles}
use usdx_v.Tests.Chain.{table_access}
use usdx_v.Tests.Compliance.{rules}
use usdx_v.Tests.Scripts.{world, effects, manager_prod_returns}

abbrev preset : String → String → ℕ → table_access.Roles
preset name symbol deployer = preset_roles deployer

abbrev lists : ListData
lists = record { blocklist = 20; allowlist = 22; sanctions_list = 21 }

abbrev created : Created
created = record { proxy = 2; proxy_admin = 3; implementation = 4 }

abbrev factory : Factory
unfolding deploy_factory
factory = deploy_factory prod_guardian_usdx

-- The factory stands at 60.
abbrev Deployed : Type 0
Deployed = Factory × Deployment (Token table_access.Roles rules.World)

deploy_usdx-IsHandedOver_example :
    (r : Deployed) × (deploy_usdx ⦃p = rules⦄ preset 60 prod_guardian_usdx "USDX" "USDX" lists
        created factory 0
      ≡ ok r)
    × (r.0.latest ≡ created)
    × IsHandedOver prod_guardian_usdx lists r.1
unfolding factory deploy_factory
deploy_usdx-IsHandedOver_example =
    deploy_usdx-IsHandedOver ⦃p = rules⦄ preset 60 "USDX" "USDX" lists created factory 0 refl
      (ground arith) (ground arith) (ground arith) (ground arith) (ground arith)

abbrev nothing_deployed : Deployed
nothing_deployed = (
  factory,
  record {
    contract = record {
      world = 0;
      log = [];
      roles = table_access.no_roles;
      blocklist = 0;
      allowlist = 0;
      sanctions_list = 0;
    };
    proxy_admin_owner = 0;
  },
)

abbrev deployed : Deployed
unfolding deploy_usdx only_guardian initialize_usdx hand_roles hand_over factory deploy_factory
deployed =
    elim (deploy_usdx ⦃p = rules⦄ preset 60 prod_guardian_usdx "USDX" "USDX" lists created factory
      0) [ ok r ↦ r | revert e ↦ nothing_deployed ]

usdx_deploys :
    deploy_usdx ⦃p = rules⦄ preset 60 prod_guardian_usdx "USDX" "USDX" lists created factory 0
    ≡ ok deployed
unfolding deploy_usdx only_guardian initialize_usdx hand_roles hand_over deployed factory
    deploy_factory
usdx_deploys = refl

usdx-roles_example :
    (roles : table_access.Roles) × (enact prod_guardian_usdx
        (grants_on 2 effects)
        deployed.1.contract.roles
      ≡ ok roles)
    × (table_access.members roles default_admin_role ≡ prod_guardian_usdx ∷ [])
    × (table_access.members roles minter_role ≡ 30 ∷ [])
    × (table_access.members roles pauser_role ≡ prod_guardian_usdx ∷ prod_pauser_usdx ∷ [])
    × (table_access.members roles burner_role ≡ [])
    × (table_access.members roles list_configurer_role ≡ [])
unfolding factory deploy_factory
usdx-roles_example =
    usdx-roles ⦃p = rules⦄ preset 60 "USDX" "USDX" lists created factory 0 deployed world 30 2
      effects refl refl (ground arith) usdx_deploys manager_prod_returns refl (λ h. refl)
      (ground arith)

-- A stranger deploys nothing.
stranger_is_refused : deploy_allowlist 60 8 9 10 created factory ≡ revert Evm.missing_role
unfolding deploy_allowlist only_guardian factory deploy_factory
stranger_is_refused = refl

-- A batch answers in its order, and a call that fails takes the whole batch back.
abbrev echo : ExCall → ℕ → Result (List ℕ × ℕ)
echo c w = ok (c.payload, c.target)

batch_answers :
    multiexcall prod_guardian_usdx echo
      (record { target = 5; payload = 1 ∷ []; value = 0 }
        ∷ record { target = 6; payload = 2 ∷ []; value = 0 }
        ∷ [])
      factory
      0
    ≡ ok ((1 ∷ []) ∷ (2 ∷ []) ∷ [], 6)
unfolding multiexcall only_guardian call_each factory deploy_factory
batch_answers = refl

batch_fails :
    multiexcall {W = ℕ} prod_guardian_usdx
      (λ c w. revert external)
      (record { target = 5; payload = []; value = 0 } ∷ [])
      factory
      0
    ≡ revert external
unfolding multiexcall only_guardian call_each factory deploy_factory
batch_fails = refl
