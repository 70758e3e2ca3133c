-- ===== src/Hub/Calls.antt =====
-- A call of an external function of USDXManager that changes its storage, and its dispatch.
use usdx_v.Base.{ℕ, List}
use usdx_v.Evm.{Result, ok, ◌>>=◌}
use usdx_v.Access
use usdx_v.Access.{AccessControl}
use usdx_v.Hub.Peers.{Peers}
use usdx_v.Hub.State.{Hub}
use usdx_v.Hub.Subscribe
use usdx_v.Hub.Redeem
use usdx_v.Hub.Prices
use usdx_v.Hub.Admin

pub data Call : Type 0 where
  request_subscription request_redemption : (amount : ℕ) → Call
  claim_mint claim_redemption : List ℕ → Call
  request_redemption_serviced_off_chain : (amount destination : ℕ) → Call
  add_proof : (tx_hash user after_fee fee_amount timestamp : ℕ) → Call
  set_price_id_for_deposits set_price_id_for_redemptions : (ids price_ids : List ℕ) → Call
  set_claimable_timestamp : (timestamp : ℕ) → List ℕ → Call
  overwrite_depositor overwrite_redeemer : (id user amount price_id : ℕ) → Call
  set_minimum_redemption_amount set_minimum_deposit_amount : ℕ → Call
  set_off_chain_redemption_minimum set_mint_fee set_redemption_fee : ℕ → Call
  set_pricer set_fee_recipient set_asset_sender set_blocklist set_sanctions_list : ℕ → Call
  pause_subscription unpause_subscription pause_redemption unpause_redemption : Call
  pause_off_chain_redemption unpause_off_chain_redemption : Call
  grant_role revoke_role renounce_role : (role account : ℕ) → Call

module _ ⦃ac : AccessControl⦄ ⦃p : Peers⦄ where
  -- The call by `sender` in a block of the time `now`.
  unfoldable pub exec :
      (sender now : ℕ) → Call → Hub ac.Roles p.World → Result (Hub ac.Roles p.World)
  exec sender now (Call.request_subscription a) h = Subscribe.request_subscription sender a h
  exec sender now (Call.claim_mint ids) h = Subscribe.claim_mint now ids h
  exec sender now (Call.add_proof a b c d e) h = Subscribe.add_proof sender a b c d e h
  exec sender now (Call.request_redemption a) h = Redeem.request_redemption sender a h
  exec sender now (Call.claim_redemption ids) h = Redeem.claim_redemption ids h
  exec sender now (Call.request_redemption_serviced_off_chain a b) h =
      Redeem.request_redemption_serviced_off_chain sender a b h
  exec sender now (Call.set_price_id_for_deposits ids price_ids) h =
      Prices.set_price_id_for_deposits sender ids price_ids h
  exec sender now (Call.set_price_id_for_redemptions ids price_ids) h =
      Prices.set_price_id_for_redemptions sender ids price_ids h
  exec sender now (Call.set_claimable_timestamp a ids) h =
      Prices.set_claimable_timestamp sender now a ids h
  exec sender now (Call.overwrite_depositor a b c d) h = Admin.overwrite_depositor sender a b c d h
  exec sender now (Call.overwrite_redeemer a b c d) h = Admin.overwrite_redeemer sender a b c d h
  exec sender now (Call.set_minimum_redemption_amount a) h =
      Admin.set_minimum_redemption_amount sender a h
  exec sender now (Call.set_minimum_deposit_amount a) h =
      Admin.set_minimum_deposit_amount sender a h
  exec sender now (Call.set_off_chain_redemption_minimum a) h =
      Admin.set_off_chain_redemption_minimum sender a h
  exec sender now (Call.set_mint_fee a) h = Admin.set_mint_fee sender a h
  exec sender now (Call.set_redemption_fee a) h = Admin.set_redemption_fee sender a h
  exec sender now (Call.set_pricer a) h = Admin.set_pricer sender a h
  exec sender now (Call.set_fee_recipient a) h = Admin.set_fee_recipient sender a h
  exec sender now (Call.set_asset_sender a) h = Admin.set_asset_sender sender a h
  exec sender now (Call.set_blocklist a) h = Admin.set_blocklist sender a h
  exec sender now (Call.set_sanctions_list a) h = Admin.set_sanctions_list sender a h
  exec sender now Call.pause_subscription h = Admin.pause_subscription sender h
  exec sender now Call.unpause_subscription h = Admin.unpause_subscription sender h
  exec sender now Call.pause_redemption h = Admin.pause_redemption sender h
  exec sender now Call.unpause_redemption h = Admin.unpause_redemption sender h
  exec sender now Call.pause_off_chain_redemption h = Admin.pause_off_chain_redemption sender h
  exec sender now Call.unpause_off_chain_redemption h = Admin.unpause_off_chain_redemption sender h
  exec sender now (Call.grant_role role account) h = do
    roles ← Access.grant_role sender role account h.roles
    ok (record h { roles = roles })
  exec sender now (Call.revoke_role role account) h = do
    roles ← Access.revoke_role sender role account h.roles
    ok (record h { roles = roles })
  exec sender now (Call.renounce_role role account) h = do
    roles ← Access.renounce_role sender role account h.roles
    ok (record h { roles = roles })
