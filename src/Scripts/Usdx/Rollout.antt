-- ===== src/Scripts/Usdx/Rollout.antt =====
-- What comes out of the proposals of scripts/usdx/5-usdxManager-prod.ts once they are executed on a
-- manager that deploy/usdx/production/4_deploy_usdxManager.ts has deployed.
use usdx_v.Base.{
  Option-cases, ℕ, ◌≡◌, ◌≢◌, arith, inl, inr, some, All, List, [], ◌∷◌, ◌++◌, ◌==◌, if◌then◌else◌,
}
use usdx_v.Evm.{Result, ok, revert, external, ◌>>=◌}
use usdx_v.Roles.{
  pauser_role, price_id_setter_role, timestamp_setter_role, list_configurer_role, relayer_role,
}
use usdx_v.Scripts.Script.{
  World, Effect, returned, Value, address, bytes32, print, propose_grant_role,
}
use usdx_v.Scripts.Constants.{prod_manager_admin_usdx, prod_pauser_usdx, prod_guardian_usdx}
use usdx_v.Scripts.Defender.{get_env_var, get_client, add_contract, propose_function_call}
use usdx_v.Scripts.Defender
use usdx_v.Access.{AccessControl, grant_role}
use usdx_v.Hub.Peers.{Peers}
use usdx_v.Hub.State.{Hub}
use usdx_v.Hub.Deploy.{Args, initial_roles, deploy_manager}
use usdx_v.Scripts.Verify.Config.{manager_roles}
use usdx_v.Scripts.Usdx.Manager.{manager_prod}

-- The roles that are proposed to be granted on a contract, with their accounts, in the order of the
-- proposals; the latest effect stands first.
unfoldable pub grants_on : ℕ → List Effect → List (Value × Value)
grants_on c [] = []
grants_on c (propose_grant_role params contract role account ∷ rest) =
    if contract.contract_address == c
    then grants_on c rest ++ (role, account) ∷ []
    else grants_on c rest
grants_on c (_ ∷ rest) = grants_on c rest

abbrev manager_grants : List (Value × Value)
manager_grants =
    (bytes32 price_id_setter_role, address prod_manager_admin_usdx)
    ∷ (bytes32 timestamp_setter_role, address prod_manager_admin_usdx)
    ∷ (bytes32 pauser_role, address prod_pauser_usdx)
    ∷ (bytes32 list_configurer_role, address prod_manager_admin_usdx)
    ∷ (bytes32 relayer_role, address prod_manager_admin_usdx)
    ∷ []

-- What the script has done when it looks for USDX.
abbrev pub before_usdx : World → (m p : ℕ) → List Effect
before_usdx w m p =
    print "✔ Added pricer to defender"
    ∷ Effect.add_contract w.network p "USDX_Pricer" (w.abi [] "USDX_Pricer")
    ∷ print "✔ Added USDXManager to defender"
    ∷ Effect.add_contract w.network m "USDXManager" (w.abi [] "USDXManager")
    ∷ []

pub manager_prod_finds :
    (w : World) (h' : List Effect)
    → manager_prod w [] ≡ (h', returned tt)
    → (m : ℕ) × (p : ℕ) × (u : ℕ) × (w.contract [] "USDXManager" ≡ some m)
      × (w.contract [] "USDX_Pricer" ≡ some p)
      × (w.contract (before_usdx w m p) "USDX" ≡ some u)
unfolding manager_prod add_contract propose_function_call get_client get_env_var
    Defender.propose_grant_role
manager_prod_finds w h' e = elim (Option-cases (w.contract [] "USDXManager")) [
  | inr z ↦ absurd (ground arith)
  | inl (m, em) ↦ elim (Option-cases (w.contract [] "USDX_Pricer")) [
    | inr z ↦ absurd (ground arith)
    | inl (p, ep) ↦ elim (Option-cases (w.contract (before_usdx w m p) "USDX")) [
      | inr z ↦ absurd (ground arith)
      | inl (u, eu) ↦ (m, p, u, em, ep, eu)
    ]
  ]
]

manager_prod_proposes :
    (m p u : ℕ) (w : World) (h' : List Effect)
    → manager_prod w [] ≡ (h', returned tt)
    → w.contract [] "USDXManager" ≡ some m
    → w.contract [] "USDX_Pricer" ≡ some p
    → w.contract (before_usdx w m p) "USDX" ≡ some u
    → u ≢ m
    → grants_on m h' ≡ manager_grants
unfolding manager_prod add_contract propose_function_call get_client get_env_var
    Defender.propose_grant_role grants_on
manager_prod_proposes m p u w h' e em ep eu ne = ground arith

-- A proposed grant of a role to an address, as the executor of the proposals sends it.
unfoldable pub enact :
    ⦃ac : AccessControl⦄ → (sender : ℕ) → List (Value × Value) → ac.Roles → Result ac.Roles
enact sender [] s = ok s
enact sender ((bytes32 role, address account) ∷ rest) s =
    grant_role sender role account s >>= enact sender rest
enact sender (_ ∷ rest) s = revert external

abbrev final_roles : ⦃ac : AccessControl⦄ → ac.Roles → ac.Roles
final_roles ⦃ac⦄ s = ac.grant relayer_role prod_manager_admin_usdx (
    ac.grant list_configurer_role prod_manager_admin_usdx (
      ac.grant pauser_role prod_pauser_usdx (
        ac.grant timestamp_setter_role prod_manager_admin_usdx
          (ac.grant price_id_setter_role prod_manager_admin_usdx s))))

module _ ⦃ac : AccessControl⦄ where
  enact_grants :
      (a : Args)
      → a.manager_admin ≡ prod_manager_admin_usdx
      → enact prod_guardian_usdx manager_grants (initial_roles a)
        ≡ ok (final_roles (initial_roles a))
  unfolding enact initial_roles
  enact_grants a e = simp (
    e, ac.has_role-grant, ac.has_role-set_role_admin, ac.role_admin-grant,
    ac.role_admin-set_role_admin, ac.role_admin-no_roles,
  )

  members_final :
      (a : Args)
      → a.manager_admin ≡ prod_manager_admin_usdx
      → a.pauser ≡ prod_pauser_usdx
      → All (λ r. ac.members (final_roles (initial_roles a)) r.role ≡ r.members) manager_roles
  unfolding initial_roles
  members_final a e q = (
    simp (
      e, q, ac.members-grant, ac.members-set_role_admin, ac.members-no_roles, ac.has_role-no_roles,
    ),
    (
      simp (
        e, q, ac.members-grant, ac.members-set_role_admin, ac.members-no_roles, ac.has_role-grant,
        ac.has_role-no_roles,
      ),
      (
        simp (
          e, q, ac.members-grant, ac.members-set_role_admin, ac.members-no_roles, ac.has_role-grant,
          ac.has_role-no_roles,
        ),
        (
          simp (
            e, q, ac.members-grant, ac.members-set_role_admin, ac.members-no_roles,
            ac.has_role-grant, ac.has_role-set_role_admin, ac.has_role-no_roles,
          ),
          (
            simp (
              e, q, ac.members-grant, ac.members-set_role_admin, ac.members-no_roles,
              ac.has_role-grant, ac.has_role-set_role_admin, ac.has_role-no_roles,
            ),
            (
              simp (
                e, q, ac.members-grant, ac.members-set_role_admin, ac.members-no_roles,
                ac.has_role-grant, ac.has_role-set_role_admin, ac.has_role-no_roles,
              ),
              tt,
            ),
          ),
        ),
      ),
    ),
  )

module _ ⦃ac : AccessControl⦄ ⦃p : Peers⦄ where
  -- On a manager that is deployed with the admin and the pauser of the constants, the grants that the
  -- script proposes on it are all executed when the guardian sends them in their order, and then each
  -- role that check-USDX-manager looks at has exactly the members that it expects, in order. The
  -- script has returned, and USDX is another contract than the manager.
  pub manager_prod-roles :
      (m : ℕ) (w : World) (h' : List Effect) (a : Args) (pw : p.World) (hub : Hub ac.Roles p.World)
      → deploy_manager m a pw ≡ ok hub
      → a.manager_admin ≡ prod_manager_admin_usdx
      → a.pauser ≡ prod_pauser_usdx
      → manager_prod w [] ≡ (h', returned tt)
      → w.contract [] "USDXManager" ≡ some m
      → ((h : List Effect) → w.contract h "USDX" ≢ some m)
      → (roles : ac.Roles) × (enact prod_guardian_usdx (grants_on m h') hub.roles ≡ ok roles)
        × All (λ r. ac.members roles r.role ≡ r.members) manager_roles
  unfolding deploy_manager
  manager_prod-roles m w h' a pw hub d ea ep e em eu =
      let (m', q, u, fm, fp, fu) = manager_prod_finds w h' e in
      let same : m' ≡ m = ground arith in
      let proposed : grants_on m h' ≡ manager_grants =
        manager_prod_proposes m q u w h' e em fp (rw same at fu)
          (λ k. eu (before_usdx w m q) (rw (same, k) at fu)) in
      let initial : hub.roles ≡ initial_roles a = ground arith in
      (
        final_roles (initial_roles a),
        rw (proposed, initial) (enact_grants a ea),
        members_final a ea ep,
      )
