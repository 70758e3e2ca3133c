-- ===== src/Hub/Admin.antt =====
-- The admin functions of contracts/RWAHub.sol, RWAHubOffChainRedemptions.sol and
-- usdx/USDXManager.sol: overwrites, limits, fees, addresses, pauses, lists.
use usdx_v.Base.{ℕ, true, false, ltb, ◌==◌, update}
use usdx_v.Evm.{
  Result, ok, ◌>>◌, revert_if, amount_too_small, fee_too_large, blocklist_zero_address,
  sanctions_list_zero_address,
}
use usdx_v.Access.{AccessControl, only_role}
use usdx_v.Roles.{manager_admin, pauser_admin}
use usdx_v.Hub.Peers.{Peers}
use usdx_v.Hub.State.{
  Hub, Depositor, Redeemer, emit, bps_denominator, depositor_overwritten, redeemer_overwritten,
  minimum_redemption_amount_set, minimum_deposit_amount_set, off_chain_redemption_minimum_set,
  mint_fee_set, redemption_fee_set, new_pricer_set, fee_recipient_set, asset_sender_set,
  blocklist_set, sanctions_list_set, subscription_paused_by, subscription_unpaused_by,
  redemption_paused_by, redemption_unpaused_by, off_chain_redemption_paused_by,
  off_chain_redemption_unpaused_by,
}
use usdx_v.Hub.Subscribe.{check_restrictions}

module _ ⦃ac : AccessControl⦄ ⦃p : Peers⦄ where
  -- `overwriteDepositor`
  unfoldable pub overwrite_depositor :
      (sender deposit_id user after_fee price_id : ℕ)
      → Hub ac.Roles p.World
      → Result (Hub ac.Roles p.World)
  overwrite_depositor sender deposit_id user after_fee price_id h = do
    only_role h.roles manager_admin sender
    check_restrictions h user
    let old = h.deposits deposit_id
    let entry : Depositor = record {
      user = user;
      amount_deposited_minus_fees = after_fee;
      price_id = price_id;
    }
    let h₁ = record h { deposits = update h.deposits deposit_id entry }
    ok (
        emit
          (depositor_overwritten deposit_id old.user user old.price_id price_id
            old.amount_deposited_minus_fees after_fee)
          h₁)

  -- `overwriteRedeemer`
  unfoldable pub overwrite_redeemer :
      (sender redemption_id user burned price_id : ℕ)
      → Hub ac.Roles p.World
      → Result (Hub ac.Roles p.World)
  overwrite_redeemer sender redemption_id user burned price_id h = do
    only_role h.roles manager_admin sender
    check_restrictions h user
    let old = h.redemptions redemption_id
    let entry : Redeemer = record {
      user = user;
      amount_rwa_token_burned = burned;
      price_id = price_id;
    }
    let h₁ = record h { redemptions = update h.redemptions redemption_id entry }
    ok (
        emit
          (redeemer_overwritten redemption_id old.user user old.price_id price_id
            old.amount_rwa_token_burned burned)
          h₁)

module _ ⦃ac : AccessControl⦄ {W : Type 0} where
  -- `setMinimumRedemptionAmount`
  unfoldable pub set_minimum_redemption_amount :
      (sender amount : ℕ) → Hub ac.Roles W → Result (Hub ac.Roles W)
  set_minimum_redemption_amount sender amount h = do
    only_role h.roles manager_admin sender
    revert_if (ltb amount bps_denominator) amount_too_small
    ok (
        emit (minimum_redemption_amount_set h.minimum_redemption_amount amount)
          (record h { minimum_redemption_amount = amount }))

  -- `setMinimumDepositAmount`
  unfoldable pub set_minimum_deposit_amount :
      (sender amount : ℕ) → Hub ac.Roles W → Result (Hub ac.Roles W)
  set_minimum_deposit_amount sender amount h = do
    only_role h.roles manager_admin sender
    revert_if (ltb amount bps_denominator) amount_too_small
    ok (
        emit (minimum_deposit_amount_set h.minimum_deposit_amount amount)
          (record h { minimum_deposit_amount = amount }))

  -- `setMintFee`
  unfoldable pub set_mint_fee : (sender fee : ℕ) → Hub ac.Roles W → Result (Hub ac.Roles W)
  set_mint_fee sender fee h = do
    only_role h.roles manager_admin sender
    revert_if (ltb bps_denominator fee) fee_too_large
    ok (emit (mint_fee_set h.mint_fee fee) (record h { mint_fee = fee }))

  -- `setRedemptionFee`
  unfoldable pub set_redemption_fee : (sender fee : ℕ) → Hub ac.Roles W → Result (Hub ac.Roles W)
  set_redemption_fee sender fee h = do
    only_role h.roles manager_admin sender
    revert_if (ltb bps_denominator fee) fee_too_large
    ok (emit (redemption_fee_set h.redemption_fee fee) (record h { redemption_fee = fee }))

  -- `setPricer`
  unfoldable pub set_pricer : (sender new_pricer : ℕ) → Hub ac.Roles W → Result (Hub ac.Roles W)
  set_pricer sender new_pricer h = do
    only_role h.roles manager_admin sender
    ok (emit (new_pricer_set h.pricer new_pricer) (record h { pricer = new_pricer }))

  -- `setFeeRecipient`
  unfoldable pub set_fee_recipient :
      (sender new_recipient : ℕ) → Hub ac.Roles W → Result (Hub ac.Roles W)
  set_fee_recipient sender new_recipient h = do
    only_role h.roles manager_admin sender
    ok (
        emit (fee_recipient_set h.fee_recipient new_recipient)
          (record h { fee_recipient = new_recipient }))

  -- `setAssetSender`
  unfoldable pub set_asset_sender :
      (sender new_sender : ℕ) → Hub ac.Roles W → Result (Hub ac.Roles W)
  set_asset_sender sender new_sender h = do
    only_role h.roles manager_admin sender
    ok (emit (asset_sender_set h.asset_sender new_sender) (record h { asset_sender = new_sender }))

  -- `setOffChainRedemptionMinimum`
  unfoldable pub set_off_chain_redemption_minimum :
      (sender amount : ℕ) → Hub ac.Roles W → Result (Hub ac.Roles W)
  set_off_chain_redemption_minimum sender amount h = do
    only_role h.roles manager_admin sender
    ok (
        emit (off_chain_redemption_minimum_set h.minimum_off_chain_redemption_amount amount)
          (record h { minimum_off_chain_redemption_amount = amount }))

  -- `setBlocklist` of USDXManager, with `_setBlocklist`
  unfoldable pub set_blocklist : (sender list : ℕ) → Hub ac.Roles W → Result (Hub ac.Roles W)
  set_blocklist sender list h = do
    only_role h.roles manager_admin sender
    revert_if (list == 0) blocklist_zero_address
    ok (emit (blocklist_set h.blocklist list) (record h { blocklist = list }))

  -- `setSanctionsList` of USDXManager, with `_setSanctionsList`
  unfoldable pub set_sanctions_list : (sender list : ℕ) → Hub ac.Roles W → Result (Hub ac.Roles W)
  set_sanctions_list sender list h = do
    only_role h.roles manager_admin sender
    revert_if (list == 0) sanctions_list_zero_address
    ok (emit (sanctions_list_set h.sanctions_list list) (record h { sanctions_list = list }))

  -- `pauseSubscription`
  unfoldable pub pause_subscription : (sender : ℕ) → Hub ac.Roles W → Result (Hub ac.Roles W)
  pause_subscription sender h = do
    only_role h.roles pauser_admin sender
    ok (emit (subscription_paused_by sender) (record h { subscription_paused = true }))

  -- `unpauseSubscription`
  unfoldable pub unpause_subscription : (sender : ℕ) → Hub ac.Roles W → Result (Hub ac.Roles W)
  unpause_subscription sender h = do
    only_role h.roles manager_admin sender
    ok (emit (subscription_unpaused_by sender) (record h { subscription_paused = false }))

  -- `pauseRedemption`
  unfoldable pub pause_redemption : (sender : ℕ) → Hub ac.Roles W → Result (Hub ac.Roles W)
  pause_redemption sender h = do
    only_role h.roles pauser_admin sender
    ok (emit (redemption_paused_by sender) (record h { redemption_paused = true }))

  -- `unpauseRedemption`
  unfoldable pub unpause_redemption : (sender : ℕ) → Hub ac.Roles W → Result (Hub ac.Roles W)
  unpause_redemption sender h = do
    only_role h.roles manager_admin sender
    ok (emit (redemption_unpaused_by sender) (record h { redemption_paused = false }))

  -- `pauseOffChainRedemption`
  unfoldable pub pause_off_chain_redemption :
      (sender : ℕ) → Hub ac.Roles W → Result (Hub ac.Roles W)
  pause_off_chain_redemption sender h = do
    only_role h.roles pauser_admin sender
    ok (
        emit (off_chain_redemption_paused_by sender)
          (record h { off_chain_redemption_paused = true }))

  -- `unpauseOffChainRedemption`
  unfoldable pub unpause_off_chain_redemption :
      (sender : ℕ) → Hub ac.Roles W → Result (Hub ac.Roles W)
  unpause_off_chain_redemption sender h = do
    only_role h.roles manager_admin sender
    ok (
        emit (off_chain_redemption_unpaused_by sender)
          (record h { off_chain_redemption_paused = false }))
