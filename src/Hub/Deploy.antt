-- ===== src/Hub/Deploy.antt =====
-- The constructor of usdx/USDXManager.sol, with those of RWAHubOffChainRedemptions, RWAHub,
-- BlocklistClient and SanctionsListClient that it calls.
use usdx_v.Base.{ℕ, ◌^◌, false, [], ◌∷◌, ◌==◌}
use usdx_v.Evm.{
  Result, ok, ◌>>=◌, ◌>>◌, revert_if, sub, checked, collateral_cannot_be_zero, rwa_cannot_be_zero,
  asset_sender_cannot_be_zero, fee_recipient_cannot_be_zero, blocklist_zero_address,
  sanctions_list_zero_address,
}
use usdx_v.Access.{AccessControl}
use usdx_v.Roles.{
  default_admin_role, manager_admin, pauser_admin, price_id_setter_role, relayer_role,
}
use usdx_v.Hub.Peers.{Peers}
use usdx_v.Hub.State.{Hub, no_depositor, no_redeemer, blocklist_set, sanctions_list_set}

-- The arguments of the constructor, in order.
pub record Args : Type 0 where
  pub collateral : ℕ
  pub rwa : ℕ
  pub manager_admin : ℕ
  pub pauser : ℕ
  pub asset_sender : ℕ
  pub fee_recipient : ℕ
  pub minimum_deposit_amount : ℕ
  pub minimum_redemption_amount : ℕ
  pub blocklist : ℕ
  pub sanctions_list : ℕ

module _ ⦃ac : AccessControl⦄ where
  -- The roles that the constructor of RWAHub grants, and their admins.
  unfoldable pub initial_roles : Args → ac.Roles
  initial_roles a = ac.set_role_admin relayer_role manager_admin (
      ac.set_role_admin price_id_setter_role manager_admin (
        ac.set_role_admin pauser_admin manager_admin (
          ac.grant pauser_admin a.pauser (
            ac.grant manager_admin a.manager_admin
              (ac.grant default_admin_role a.manager_admin ac.no_roles)))))

module _ ⦃ac : AccessControl⦄ ⦃p : Peers⦄ where
  -- `new USDXManager(args)` at the address `self`.
  unfoldable pub deploy_manager : (self : ℕ) → Args → p.World → Result (Hub ac.Roles p.World)
  deploy_manager self a w = do
    revert_if (a.collateral == 0) collateral_cannot_be_zero
    revert_if (a.rwa == 0) rwa_cannot_be_zero
    revert_if (a.asset_sender == 0) asset_sender_cannot_be_zero
    revert_if (a.fee_recipient == 0) fee_recipient_cannot_be_zero
    rwa_decimals ← p.decimals w a.rwa
    collateral_decimals ← p.decimals w a.collateral
    exponent ← sub rwa_decimals collateral_decimals
    multiplier ← checked (10 ^ exponent)
    revert_if (a.blocklist == 0) blocklist_zero_address
    revert_if (a.sanctions_list == 0) sanctions_list_zero_address
    ok (record {
      world = w;
      log = sanctions_list_set 0 a.sanctions_list ∷ blocklist_set 0 a.blocklist ∷ [];
      self = self;
      roles = initial_roles a;
      rwa = a.rwa;
      pricer = 0;
      asset_sender = a.asset_sender;
      fee_recipient = a.fee_recipient;
      deposits = λ _. no_depositor;
      redemptions = λ _. no_redeemer;
      minimum_deposit_amount = a.minimum_deposit_amount;
      minimum_redemption_amount = a.minimum_redemption_amount;
      mint_fee = 0;
      redemption_fee = 0;
      collateral = a.collateral;
      decimals_multiplier = multiplier;
      subscription_request_counter = 1;
      redemption_request_counter = 1;
      redemption_paused = false;
      subscription_paused = false;
      off_chain_redemption_paused = false;
      minimum_off_chain_redemption_amount = a.minimum_redemption_amount;
      blocklist = a.blocklist;
      sanctions_list = a.sanctions_list;
      claimable_timestamps = λ _. 0;
    })
