-- ===== src/Hub/Redeem.antt =====
-- Redemptions in contracts/RWAHub.sol and RWAHubOffChainRedemptions.sol: the two requests and the
-- claim.
use usdx_v.Base.{ℕ, List, [], ◌∷◌, ltb, ◌==◌, update}
use usdx_v.Evm.{
  Result, ok, ◌>>=◌, ◌>>◌, revert_if, add, sub, redemption_too_small, price_id_not_set,
  feature_paused,
}
use usdx_v.Hub.Peers.{Peers}
use usdx_v.Hub.State.{
  Hub, Redeemer, no_redeemer, redemption_requested, redemption_completed,
  redemption_requested_serviced_off_chain, emit,
}
use usdx_v.Hub.Amounts.{redemption_fees, redemption_amount_for_rwa}
use usdx_v.Hub.Subscribe.{check_restrictions, pull_collateral, pull_fees}

module _ {R : Type 0} ⦃p : Peers⦄ where
  -- `rwa.burnFrom(from, amount)`
  unfoldable pub burn_rwa : (from amount : ℕ) → Hub R p.World → Result (Hub R p.World)
  burn_rwa from amount h = do
    w ← p.burn_from h.rwa h.self from amount h.world
    ok (record h { world = w })

  -- `requestRedemption`
  unfoldable pub request_redemption : (sender amount : ℕ) → Hub R p.World → Result (Hub R p.World)
  request_redemption sender amount h = do
    revert_if h.redemption_paused feature_paused
    revert_if (ltb amount h.minimum_redemption_amount) redemption_too_small
    next ← add h.redemption_request_counter 1
    let entry : Redeemer = record { user = sender; amount_rwa_token_burned = amount; price_id = 0 }
    let h₁ = record h {
      redemptions = update h.redemptions h.redemption_request_counter entry;
      redemption_request_counter = next;
    }
    h₂ ← burn_rwa sender amount h₁
    ok (emit (redemption_requested sender h.redemption_request_counter amount) h₂)

  -- `requestRedemptionServicedOffchain`
  unfoldable pub request_redemption_serviced_off_chain :
      (sender amount destination : ℕ) → Hub R p.World → Result (Hub R p.World)
  request_redemption_serviced_off_chain sender amount destination h = do
    revert_if h.off_chain_redemption_paused feature_paused
    revert_if (ltb amount h.minimum_off_chain_redemption_amount) redemption_too_small
    next ← add h.redemption_request_counter 1
    h₁ ← burn_rwa sender amount (record h { redemption_request_counter = next })
    ok (
        emit
          (redemption_requested_serviced_off_chain sender h.redemption_request_counter amount
            destination)
          h₁)

  -- One round of the loop of `claimRedemption`: the fee of the round, and the state after it.
  unfoldable pub redeem_one : (redemption_id : ℕ) → Hub R p.World → Result (ℕ × Hub R p.World)
  redeem_one redemption_id h = do
    let member = h.redemptions redemption_id
    check_restrictions h member.user
    revert_if (member.price_id == 0) price_id_not_set
    price ← p.get_price h.world h.pricer member.price_id
    due ← redemption_amount_for_rwa h.decimals_multiplier member.amount_rwa_token_burned price
    fee ← redemption_fees h due
    post_fees ← sub due fee
    let h₁ = record h { redemptions = update h.redemptions redemption_id no_redeemer }
    h₂ ← pull_collateral h.asset_sender member.user post_fees h₁
    ok (
      fee,
      emit
          (redemption_completed member.user redemption_id member.amount_rwa_token_burned post_fees
            price)
          h₂,
    )

  -- The loop of `claimRedemption`, from the fees summed so far.
  unfoldable pub redeem_each : (fees : ℕ) → List ℕ → Hub R p.World → Result (ℕ × Hub R p.World)
  redeem_each fees [] h = ok (fees, h)
  redeem_each fees (id ∷ ids) h = do
    r ← redeem_one id h
    sum ← add fees r.0
    redeem_each sum ids r.1

  -- `claimRedemption`
  unfoldable pub claim_redemption : List ℕ → Hub R p.World → Result (Hub R p.World)
  claim_redemption ids h = do
    revert_if h.redemption_paused feature_paused
    r ← redeem_each 0 ids h
    pull_fees r.1.asset_sender r.0 r.1
