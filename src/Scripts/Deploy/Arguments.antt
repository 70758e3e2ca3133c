-- ===== src/Scripts/Deploy/Arguments.antt =====
-- The deployment of deploy/usdx/production/4_deploy_usdxManager.ts, carried out by the constructor of
-- USDXManager, and held against the configuration that check-USDX-manager reads.
use Prim.Native.String.{String}
use usdx_v.Base.{
  ℕ, ◌≡◌, refl, inl, inr, arith, Option, none, some, Option-cases, true, List, [], ◌∷◌,
}
use usdx_v.Evm.{Result, ok, revert, external}
use usdx_v.Access.{AccessControl}
use usdx_v.Roles.{
  default_admin_role, manager_admin, pauser_admin, price_id_setter_role, relayer_role,
  timestamp_setter_role,
}
use usdx_v.Hub.Peers.{Peers}
use usdx_v.Hub.State.{Hub, bps_denominator, asset_recipient, emit, new_pricer_set}
use usdx_v.Hub.Deploy.{Args, deploy_manager, initial_roles}
use usdx_v.Hub.Admin.{set_pricer}
use usdx_v.Scripts.Script.{World, Effect, returned, Value, address, number, bytes32, deploy}
use usdx_v.Scripts.Constants.{
  usdc_mainnet, prod_manager_admin_usdx, prod_pauser_usdx, prod_asset_sender_usdx,
  prod_fee_recipient_usdx, sanction_address,
}
use usdx_v.Scripts.Deploy.Production.{deploy_usdx_manager}
use usdx_v.Scripts.Verify.Config.{
  manager_storage, usdx_proxy_address, blocklist_address, usdx_pricer_address,
}
use usdx_v.Scripts.Verify.Helpers.{loosely_equal}

-- The parameters of the constructor, read off a list of values.
abbrev pub read_args : List Value → Option Args
read_args
      (address c
        ∷ address r
        ∷ address m
        ∷ address p
        ∷ address s
        ∷ address f
        ∷ number d
        ∷ number b
        ∷ address bl
        ∷ address sl
        ∷ []) =
    some (record {
      collateral = c;
      rwa = r;
      manager_admin = m;
      pauser = p;
      asset_sender = s;
      fee_recipient = f;
      minimum_deposit_amount = d;
      minimum_redemption_amount = b;
      blocklist = bl;
      sanctions_list = sl;
    })
read_args _ = none

module _ ⦃ac : AccessControl⦄ ⦃p : Peers⦄ where
  -- The manager that the last effect of a history creates at the address `m`.
  abbrev pub created : (m : ℕ) → List Effect → p.World → Result (Hub ac.Roles p.World)
  created m (deploy name contract values ∷ h) pw = elim (read_args values) [
    | some a ↦ deploy_manager m a pw
    | none ↦ revert external
  ]
  created m _ pw = revert external

module _ {R W : Type 0} where
  -- What the public getters of USDXManager answer, under their names.
  abbrev pub getters : Hub R W → List (String × Value)
  getters h =
      ("BPS_DENOMINATOR", number bps_denominator)
      ∷ ("DEFAULT_ADMIN_ROLE", bytes32 default_admin_role)
      ∷ ("MANAGER_ADMIN", bytes32 manager_admin)
      ∷ ("PAUSER_ADMIN", bytes32 pauser_admin)
      ∷ ("PRICE_ID_SETTER_ROLE", bytes32 price_id_setter_role)
      ∷ ("RELAYER_ROLE", bytes32 relayer_role)
      ∷ ("TIMESTAMP_SETTER_ROLE", bytes32 timestamp_setter_role)
      ∷ ("assetRecipient", address asset_recipient)
      ∷ ("assetSender", address h.asset_sender)
      ∷ ("feeRecipient", address h.fee_recipient)
      ∷ ("blocklist", address h.blocklist)
      ∷ ("collateral", address h.collateral)
      ∷ ("rwa", address h.rwa)
      ∷ ("minimumDepositAmount", number h.minimum_deposit_amount)
      ∷ ("minimumOffChainRedemptionAmount", number h.minimum_off_chain_redemption_amount)
      ∷ ("minimumRedemptionAmount", number h.minimum_redemption_amount)
      ∷ ("mintFee", number h.mint_fee)
      ∷ ("pricer", address h.pricer)
      ∷ ("redemptionFee", number h.redemption_fee)
      ∷ ("sanctionsList", address h.sanctions_list)
      ∷ []

-- The script deploys with these arguments.
deploy_usdx_manager_args :
    (w : World) (h h' : List Effect) (usdx blocklist : ℕ)
    → deploy_usdx_manager w h ≡ (h', returned tt)
    → ((factory : ℕ) → w.view h factory "USDXProxy" [] ≡ some (address usdx))
    → w.contract h "Blocklist" ≡ some blocklist
    → h'
      ≡ deploy "USDXManager" "USDXManager" (
          address usdc_mainnet
          ∷ address usdx
          ∷ address prod_manager_admin_usdx
          ∷ address prod_pauser_usdx
          ∷ address prod_asset_sender_usdx
          ∷ address prod_fee_recipient_usdx
          ∷ number 500000000
          ∷ number 500000000000000000000
          ∷ address blocklist
          ∷ address sanction_address
          ∷ [])
        ∷ h
unfolding deploy_usdx_manager loosely_equal
deploy_usdx_manager_args w h h' usdx blocklist e answers listed =
    elim (Option-cases (w.contract h "USDXFactory")) [
      | inr z ↦ absurd (ground arith)
      | inl (f, ef) ↦ ground (arith, answers f)
    ]

module _ ⦃ac : AccessControl⦄ ⦃p : Peers⦄ where
  -- What the constructor stores.
  record Stores (a : Args) (hub : Hub ac.Roles p.World) : Type 0 where
    roles : hub.roles ≡ initial_roles a
    asset_sender : hub.asset_sender ≡ a.asset_sender
    fee_recipient : hub.fee_recipient ≡ a.fee_recipient
    blocklist : hub.blocklist ≡ a.blocklist
    sanctions_list : hub.sanctions_list ≡ a.sanctions_list
    collateral : hub.collateral ≡ a.collateral
    rwa : hub.rwa ≡ a.rwa
    minimum_deposit : hub.minimum_deposit_amount ≡ a.minimum_deposit_amount
    minimum_redemption : hub.minimum_redemption_amount ≡ a.minimum_redemption_amount
    minimum_off_chain : hub.minimum_off_chain_redemption_amount ≡ a.minimum_redemption_amount
    mint_fee : hub.mint_fee ≡ 0
    redemption_fee : hub.redemption_fee ≡ 0

  deploy_manager-Stores :
      (m : ℕ) (a : Args) (pw : p.World) (hub : Hub ac.Roles p.World)
      → deploy_manager m a pw ≡ ok hub
      → Stores a hub
  unfolding deploy_manager
  deploy_manager-Stores m a pw hub e = ground arith

  initial_admin :
      (a : Args)
      → a.manager_admin ≡ prod_manager_admin_usdx
      → ac.has_role (initial_roles a) manager_admin prod_manager_admin_usdx ≡ true
  unfolding initial_roles
  initial_admin a e = simp (e, ac.has_role-set_role_admin, ac.has_role-grant)

  -- Where the production script of the manager returns and its deployment is carried out, with USDX and
  -- the blocklist of the configuration, the manager admin can set the pricer of the configuration,
  -- and then every getter that check-USDX-manager looks at answers with the value that the
  -- configuration expects.
  pub deploy_usdx_manager-configured :
      (w : World) (h h' : List Effect) (m : ℕ) (pw : p.World) (hub : Hub ac.Roles p.World)
      → deploy_usdx_manager w h ≡ (h', returned tt)
      → ((factory : ℕ) → w.view h factory "USDXProxy" [] ≡ some (address usdx_proxy_address))
      → w.contract h "Blocklist" ≡ some blocklist_address
      → created m h' pw ≡ ok hub
      → (hub' : Hub ac.Roles p.World) × (set_pricer prod_manager_admin_usdx usdx_pricer_address hub
          ≡ ok hub')
        × (getters hub' ≡ manager_storage)
  unfolding set_pricer
  deploy_usdx_manager-configured w h h' m pw hub e answers listed c =
      let is =
        deploy_usdx_manager_args w h h' usdx_proxy_address blocklist_address e answers listed in
      let a : Args = record {
        collateral = usdc_mainnet;
        rwa = usdx_proxy_address;
        manager_admin = prod_manager_admin_usdx;
        pauser = prod_pauser_usdx;
        asset_sender = prod_asset_sender_usdx;
        fee_recipient = prod_fee_recipient_usdx;
        minimum_deposit_amount = 500000000;
        minimum_redemption_amount = 500000000000000000000;
        blocklist = blocklist_address;
        sanctions_list = sanction_address;
      } in
      let t = deploy_manager-Stores m a pw hub (rw is at c) in
      let set =
        emit (new_pricer_set hub.pricer usdx_pricer_address)
          (record hub { pricer = usdx_pricer_address }) in
      (
        set,
        ground (arith, t.roles, initial_admin a refl),
        rw
            (
              t.asset_sender, t.fee_recipient, t.blocklist, t.sanctions_list, t.collateral, t.rwa,
              t.minimum_deposit, t.minimum_redemption, t.minimum_off_chain, t.mint_fee,
              t.redemption_fee,
            )
            refl,
      )
