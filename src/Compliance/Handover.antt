-- ===== src/Compliance/Handover.antt =====
-- Who has which role on USDX once USDXFactory.deployUSDX has returned.
use Prim.Native.String.{String}
use usdx_v.Base.{
  ℕ, ◌≡◌, ◌≢◌, ◌↔◌, ◌⊎◌, inl, inr, sym, refl, arith, [], ◌∷◌, true, false, Bool-cases, ◌&&◌, ◌==◌,
  if◌then◌else◌,
}
use usdx_v.Evm.{ok}
use usdx_v.Access.{AccessControl}
use usdx_v.Roles.{default_admin_role, minter_role, pauser_role}
use usdx_v.Compliance.Token.{Rules, Token, blocklist_set, allowlist_set, sanctions_list_set}
use usdx_v.Compliance.Factory.{
  usdx_deployed, hand_roles, ListData, Created, Factory, Deployment, deploy_usdx, only_guardian,
  initialize_usdx, hand_over,
}

pub eq_self : (n : ℕ) → (n == n) ≡ true
eq_self n = ground arith

pub eq_other : (n m : ℕ) → n ≢ m → (n == m) ≡ false
eq_other n m h = ground arith

module _ ⦃ac : AccessControl⦄ where
  -- The documentation of ERC20PresetMinterPauser: the deployer has the three roles.
  abbrev pub preset_roles : (deployer : ℕ) → ac.Roles
  preset_roles deployer =
      ac.grant pauser_role deployer
        (ac.grant minter_role deployer (ac.grant default_admin_role deployer ac.no_roles))

  -- The roles after the grants and the revocations of the factory.
  unfoldable pub handed : (self guardian : ℕ) → ac.Roles
  handed self guardian = ac.revoke default_admin_role self (
      ac.revoke pauser_role self (
        ac.revoke minter_role self (
          ac.grant pauser_role guardian
            (ac.grant default_admin_role guardian (preset_roles self)))))

  pub hand_roles_lem :
      (self guardian : ℕ)
      → self ≢ guardian
      → hand_roles self guardian (preset_roles self) ≡ ok (handed self guardian)
  unfolding hand_roles handed
  hand_roles_lem self guardian ne = simp (
    eq_other self guardian ne,
    eq_self,
    ac.has_role-grant,
    ac.has_role-revoke,
    ac.role_admin-grant,
    ac.role_admin-revoke,
    ac.role_admin-no_roles,
  )

  pub members-handed :
      (self guardian : ℕ)
      → self ≢ guardian
      → (ac.members (handed self guardian) default_admin_role ≡ guardian ∷ [])
        × (ac.members (handed self guardian) pauser_role ≡ guardian ∷ [])
        × (ac.members (handed self guardian) minter_role ≡ [])
  unfolding handed
  members-handed self guardian ne =
      let other = eq_other guardian self (λ k. ne (sym k)) in
      (
        simp (
          other, eq_self, ac.members-grant, ac.members-revoke, ac.members-no_roles,
          ac.has_role-grant, ac.has_role-no_roles,
        ),
        simp (
          other, eq_self, ac.members-grant, ac.members-revoke, ac.members-no_roles,
          ac.has_role-grant, ac.has_role-no_roles,
        ),
        simp (
          eq_self, ac.members-grant, ac.members-revoke, ac.members-no_roles, ac.has_role-grant,
          ac.has_role-no_roles,
        ),
      )

  pub has_role-handed :
      (self guardian r a : ℕ)
      → self ≢ guardian
      → (ac.has_role (handed self guardian) r a ≡ true)
        ↔ (((r ≡ default_admin_role) ⊎ (r ≡ pauser_role)) × (a ≡ guardian))
  unfolding handed
  has_role-handed self guardian r a ne =
      let chain : ac.has_role (handed self guardian) r a ≡ (
          if r == default_admin_role && a == self
          then false
          else if r == pauser_role && a == self
          then false
          else if r == minter_role && a == self
          then false
          else if r == pauser_role && a == guardian
          then true
          else if r == default_admin_role && a == guardian
          then true
          else if r == pauser_role && a == self
          then true
          else if r == minter_role && a == self
          then true
          else if r == default_admin_role && a == self
          then true
          else false) =
        simp (ac.has_role-grant, ac.has_role-revoke, ac.has_role-no_roles) in
      (λ e. (ground (arith, chain), ground (arith, chain)), λ e. ground (arith, chain))

  pub handed_lacks :
      (self guardian r a : ℕ)
      → self ≢ guardian
      → ¬ (((r ≡ default_admin_role) ⊎ (r ≡ pauser_role)) × (a ≡ guardian))
      → ac.has_role (handed self guardian) r a ≡ false
  handed_lacks self guardian r a ne n = elim (Bool-cases (ac.has_role (handed self guardian) r a)) [
    | inl has ↦ absurd (n ((has_role-handed self guardian r a ne).0 has))
    | inr lacks ↦ lacks
  ]

  pub handed_admin :
      (self guardian : ℕ)
      → self ≢ guardian
      → ac.has_role (handed self guardian) default_admin_role guardian ≡ true
  handed_admin self guardian ne = (has_role-handed self guardian _ _ ne).1 (inl refl, refl)

  pub role_admin-handed : (self guardian r : ℕ) → ac.role_admin (handed self guardian) r ≡ 0
  unfolding handed
  role_admin-handed self guardian r =
      simp (ac.role_admin-grant, ac.role_admin-revoke, ac.role_admin-no_roles)

  pub members-handed_other :
      (self guardian r : ℕ)
      → r ≢ default_admin_role
      → r ≢ pauser_role
      → r ≢ minter_role
      → ac.members (handed self guardian) r ≡ []
  unfolding handed
  members-handed_other self guardian r na np nm = simp (
    eq_other r default_admin_role na,
    eq_other r pauser_role np,
    eq_other r minter_role nm,
    ac.members-grant,
    ac.members-revoke,
    ac.members-no_roles,
  )

module _ ⦃ac : AccessControl⦄ ⦃p : Rules⦄ where
  -- What the guardian gets: the owner of the proxy admin is the guardian, who alone has the admin role and
  -- the pauser role, and nobody has another role. The lists are those asked for.
  pub record IsHandedOver (guardian : ℕ) (lists : ListData)
      (d : Deployment (Token ac.Roles p.World)) : Type 0 where
    pub owned : d.proxy_admin_owner ≡ guardian
    pub admins : ac.members d.contract.roles default_admin_role ≡ guardian ∷ []
    pub pausers : ac.members d.contract.roles pauser_role ≡ guardian ∷ []
    pub minters : ac.members d.contract.roles minter_role ≡ []
    pub has_roles :
        (r a : ℕ)
        → (ac.has_role d.contract.roles r a ≡ true)
          ↔ (((r ≡ default_admin_role) ⊎ (r ≡ pauser_role)) × (a ≡ guardian))
    pub same_blocklist : d.contract.blocklist ≡ lists.blocklist
    pub same_allowlist : d.contract.allowlist ≡ lists.allowlist
    pub same_sanctions_list : d.contract.sanctions_list ≡ lists.sanctions_list

  pub deploy_usdx-IsHandedOver :
      (preset : String → String → ℕ → ac.Roles) (self : ℕ) (name ticker : String) (lists : ListData)
      (c : Created) (f : Factory) (w : p.World)
      → preset name ticker self ≡ preset_roles self
      → self ≢ f.guardian
      → f.guardian ≢ 0
      → lists.blocklist ≢ 0
      → lists.allowlist ≢ 0
      → lists.sanctions_list ≢ 0
      → (r : Factory × Deployment (Token ac.Roles p.World)) × (deploy_usdx preset self f.guardian
            name ticker lists c f w
          ≡ ok r)
        × (r.0.latest ≡ c)
        × IsHandedOver f.guardian lists r.1
  unfolding deploy_usdx only_guardian initialize_usdx hand_over
  deploy_usdx-IsHandedOver preset self name ticker lists c f w law ne nz nb na ns =
      let roles = hand_roles_lem self f.guardian ne in
      let (admins, pausers, minters) = members-handed self f.guardian ne in
      let t : Token ac.Roles p.World = record {
        world = w;
        log =
            sanctions_list_set 0 lists.sanctions_list
            ∷ allowlist_set 0 lists.allowlist
            ∷ blocklist_set 0 lists.blocklist
            ∷ [];
        roles = handed self f.guardian;
        blocklist = lists.blocklist;
        allowlist = lists.allowlist;
        sanctions_list = lists.sanctions_list;
      } in
      (
        (
          record f { log = usdx_deployed c name ticker lists ∷ f.log; latest = c },
          record { contract = t; proxy_admin_owner = f.guardian },
        ),
        ground (arith, roles, law),
        refl,
        record {
          owned = refl;
          admins = admins;
          pausers = pausers;
          minters = minters;
          has_roles = λ r a. has_role-handed self f.guardian r a ne;
          same_blocklist = refl;
          same_allowlist = refl;
          same_sanctions_list = refl;
        },
      )

  -- The roles after any deployment that returns.
  pub deploy_usdx-handed :
      (preset : String → String → ℕ → ac.Roles) (self sender : ℕ) (name ticker : String)
      (lists : ListData) (c : Created) (f : Factory) (w : p.World)
      (r : Factory × Deployment (Token ac.Roles p.World))
      → preset name ticker self ≡ preset_roles self
      → self ≢ f.guardian
      → deploy_usdx preset self sender name ticker lists c f w ≡ ok r
      → r.1.contract.roles ≡ handed self f.guardian
  unfolding deploy_usdx only_guardian initialize_usdx hand_over
  deploy_usdx-handed preset self sender name ticker lists c f w r law ne e =
      ground (arith, hand_roles_lem self f.guardian ne)
