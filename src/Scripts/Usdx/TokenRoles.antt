-- ===== src/Scripts/Usdx/TokenRoles.antt =====
-- Who has which role on USDX once USDXFactory has deployed it and the proposals of
-- scripts/usdx/5-usdxManager-prod.ts are executed.
use Prim.Native.String.{String}
use usdx_v.Base.{ℕ, ◌≡◌, ◌≢◌, arith, some, List, [], ◌∷◌}
use usdx_v.Evm.{ok}
use usdx_v.Access.{AccessControl}
use usdx_v.Roles.{default_admin_role, minter_role, pauser_role, burner_role, list_configurer_role}
use usdx_v.Compliance.Token.{Rules, Token}
use usdx_v.Compliance.Factory.{ListData, Created, Factory, Deployment, deploy_usdx}
use usdx_v.Compliance.Handover.{
  members-handed, members-handed_other, handed_lacks, handed_admin, role_admin-handed, preset_roles,
  handed, deploy_usdx-handed,
}
use usdx_v.Scripts.Script.{World, Effect, returned, Value, address, bytes32}
use usdx_v.Scripts.Constants.{prod_pauser_usdx, prod_guardian_usdx}
use usdx_v.Scripts.Defender.{get_env_var, get_client, add_contract, propose_function_call}
use usdx_v.Scripts.Defender
use usdx_v.Scripts.Usdx.Manager.{manager_prod}
use usdx_v.Scripts.Usdx.Rollout.{grants_on, enact, manager_prod_finds, before_usdx}

abbrev usdx_grants : (manager : ℕ) → List (Value × Value)
usdx_grants manager =
    (bytes32 minter_role, address manager) ∷ (bytes32 pauser_role, address prod_pauser_usdx) ∷ []

proposes_on_usdx :
    (m p u : ℕ) (w : World) (h' : List Effect)
    → manager_prod w [] ≡ (h', returned tt)
    → w.contract [] "USDXManager" ≡ some m
    → w.contract [] "USDX_Pricer" ≡ some p
    → w.contract (before_usdx w m p) "USDX" ≡ some u
    → u ≢ m
    → grants_on u h' ≡ usdx_grants m
unfolding manager_prod add_contract propose_function_call get_client get_env_var
    Defender.propose_grant_role grants_on
proposes_on_usdx m p u w h' e em ep eu ne = ground arith

module _ ⦃ac : AccessControl⦄ where
  abbrev granted : (self manager : ℕ) → ac.Roles
  granted self manager =
      ac.grant pauser_role prod_pauser_usdx
        (ac.grant minter_role manager (handed self prod_guardian_usdx))

  enact_usdx :
      (self manager : ℕ)
      → self ≢ prod_guardian_usdx
      → enact prod_guardian_usdx (usdx_grants manager) (handed self prod_guardian_usdx)
        ≡ ok (granted self manager)
  unfolding enact
  enact_usdx self manager ne = simp (
    ac.has_role-grant,
    ac.role_admin-grant,
    role_admin-handed,
    handed_admin self prod_guardian_usdx ne,
  )

  members_granted :
      (self manager : ℕ)
      → self ≢ prod_guardian_usdx
      → (ac.members (granted self manager) default_admin_role ≡ prod_guardian_usdx ∷ [])
        × (ac.members (granted self manager) minter_role ≡ manager ∷ [])
        × (ac.members (granted self manager) pauser_role
            ≡ prod_guardian_usdx ∷ prod_pauser_usdx ∷ [])
        × (ac.members (granted self manager) burner_role ≡ [])
        × (ac.members (granted self manager) list_configurer_role ≡ [])
  members_granted self manager ne =
      let (admins, pausers, minters) = members-handed self prod_guardian_usdx ne in
      let no_minter =
        handed_lacks self prod_guardian_usdx minter_role manager ne (λ (r, a). ground arith) in
      let no_pauser =
        handed_lacks self prod_guardian_usdx pauser_role prod_pauser_usdx ne
          (λ (r, a). ground arith) in
      (
        simp (ac.members-grant, admins),
        simp (ac.members-grant, no_minter, minters),
        simp (ac.members-grant, ac.has_role-grant, no_pauser, pausers),
        simp (
          ac.members-grant,
          members-handed_other self prod_guardian_usdx burner_role (ground arith) (ground arith)
              (ground arith),
        ),
        simp (
          ac.members-grant,
          members-handed_other self prod_guardian_usdx list_configurer_role (ground arith)
              (ground arith) (ground arith),
        ),
      )

module _ ⦃ac : AccessControl⦄ ⦃p : Rules⦄ where
  -- USDX that the factory has deployed for the guardian of the constants, once the guardian has sent the
  -- grants that the task proposes on it, in their order: they all go through; then the guardian alone
  -- has the admin role, the manager alone the minter role, the guardian and the pauser the pauser role,
  -- in this order, and nobody can burn or configure the lists, which check-USDX expects of the guardian. The task has returned, and USDX is
  -- another contract than the manager, and the factory another one than the guardian.
  pub usdx-roles :
      (preset : String → String → ℕ → ac.Roles) (self : ℕ) (name ticker : String) (lists : ListData)
      (c : Created) (f : Factory) (pw : p.World) (r : Factory × Deployment (Token ac.Roles p.World))
      (w : World) (m u : ℕ) (h' : List Effect)
      → preset name ticker self ≡ preset_roles self
      → f.guardian ≡ prod_guardian_usdx
      → self ≢ prod_guardian_usdx
      → deploy_usdx preset self prod_guardian_usdx name ticker lists c f pw ≡ ok r
      → manager_prod w [] ≡ (h', returned tt)
      → w.contract [] "USDXManager" ≡ some m
      → ((h : List Effect) → w.contract h "USDX" ≡ some u)
      → u ≢ m
      → (roles : ac.Roles) × (enact prod_guardian_usdx (grants_on u h') r.1.contract.roles
          ≡ ok roles)
        × (ac.members roles default_admin_role ≡ prod_guardian_usdx ∷ [])
        × (ac.members roles minter_role ≡ m ∷ [])
        × (ac.members roles pauser_role ≡ prod_guardian_usdx ∷ prod_pauser_usdx ∷ [])
        × (ac.members roles burner_role ≡ [])
        × (ac.members roles list_configurer_role ≡ [])
  usdx-roles preset self name ticker lists c f pw r w m u h' law eg ne d e em eu um =
      let (m', q, u', fm, fp, fu) = manager_prod_finds w h' e in
      let same : m' ≡ m = ground arith in
      let proposed : grants_on u h' ≡ usdx_grants m =
        proposes_on_usdx m q u w h' e em fp (eu (before_usdx w m q)) um in
      let initial : r.1.contract.roles ≡ handed self prod_guardian_usdx = rw eg at (
        deploy_usdx-handed preset self prod_guardian_usdx name ticker lists c f pw r law (rw eg ne)
          d) in
      let (admins, minters, pausers, burners, configurers) = members_granted self m ne in
      (
        granted self m,
        rw (proposed, initial) (enact_usdx self m ne),
        admins,
        minters,
        pausers,
        burners,
        configurers,
      )
