-- ===== src/Hub/Invariant.antt =====
-- What every call of USDXManager keeps: fees of at most 100%, counters that start at 1 and never go
-- back, a blocklist and a sanctions list, and the values that the constructor fixes.
use usdx_v.Base.{ℕ, ◌≤◌, ◌≡◌, ◌≢◌, arith, List, [], ◌∷◌}
use usdx_v.Evm.{Result, ok, ◌>>=◌, >>=-eq-ok, add, revert_if, feature_paused}
use usdx_v.Access.{AccessControl}
use usdx_v.Hub.Peers.{Peers}
use usdx_v.Hub.State.{Hub, bps_denominator}
use usdx_v.Hub.Subscribe.{
  request_subscription, record_deposit, pull_fees, pull_collateral, hub_claim_mint, claim_one,
  claim_each, claim_mint, add_proof,
}
use usdx_v.Hub.Redeem.{
  burn_rwa, request_redemption, request_redemption_serviced_off_chain, redeem_one, redeem_each,
  claim_redemption,
}
use usdx_v.Hub.Prices.{
  for_each_pair, set_deposit_price_id, set_redemption_price_id, set_timestamp, set_timestamps,
  set_price_id_for_deposits, set_price_id_for_redemptions, set_claimable_timestamp,
}
use usdx_v.Hub.Admin.{
  overwrite_depositor, overwrite_redeemer, set_minimum_redemption_amount,
  set_minimum_deposit_amount, set_mint_fee, set_redemption_fee, set_pricer, set_fee_recipient,
  set_asset_sender, set_off_chain_redemption_minimum, set_blocklist, set_sanctions_list,
  pause_subscription, unpause_subscription, pause_redemption, unpause_redemption,
  pause_off_chain_redemption, unpause_off_chain_redemption,
}
use usdx_v.Hub.Calls.{Call, exec}

module _ {R W : Type 0} where
  pub record IsSound (h : Hub R W) : Type 0 where
    pub mint_fee_capped : h.mint_fee ≤ bps_denominator
    pub redemption_fee_capped : h.redemption_fee ≤ bps_denominator
    pub subscription_counted : 1 ≤ h.subscription_request_counter
    pub redemption_counted : 1 ≤ h.redemption_request_counter
    pub has_blocklist : h.blocklist ≢ 0
    pub has_sanctions_list : h.sanctions_list ≢ 0

  -- Nothing that the constructor fixes has changed, and no counter has gone back.
  pub record Extends (h h' : Hub R W) : Type 0 where
    pub same_self : h'.self ≡ h.self
    pub same_rwa : h'.rwa ≡ h.rwa
    pub same_collateral : h'.collateral ≡ h.collateral
    pub same_multiplier : h'.decimals_multiplier ≡ h.decimals_multiplier
    pub subscriptions_grow : h.subscription_request_counter ≤ h'.subscription_request_counter
    pub redemptions_grow : h.redemption_request_counter ≤ h'.redemption_request_counter

  -- What a call does to a sound state.
  abbrev pub Keeps : Hub R W → Hub R W → Type 0
  Keeps h h' = IsSound h → IsSound h' × Extends h h'

  for_each_pair-Keeps :
      (step : ℕ → ℕ → Hub R W → Result (Hub R W))
      → ((a b : ℕ) (h h' : Hub R W) → step a b h ≡ ok h' → Keeps h h')
      → (ids price_ids : List ℕ) (h h' : Hub R W) → for_each_pair step ids price_ids h ≡ ok h'
      → Keeps h h'
  unfolding for_each_pair
  for_each_pair-Keeps step each [] _ h h' e s = ground arith
  for_each_pair-Keeps step each (id ∷ ids) [] h h' e s = cc
  for_each_pair-Keeps step each (id ∷ ids) (q ∷ qs) h h' e s =
      let (h₁, e₁, e₂) = >>=-eq-ok (step id q h) (for_each_pair step ids qs) e in
      ground (arith, each id q h h₁ e₁ s, for_each_pair-Keeps step each ids qs h₁ h' e₂)

  set_deposit_price_id-Keeps :
      (a b : ℕ) (h h' : Hub R W) → set_deposit_price_id a b h ≡ ok h' → Keeps h h'
  unfolding set_deposit_price_id
  set_deposit_price_id-Keeps a b h h' e s = ground arith

  set_redemption_price_id-Keeps :
      (a b : ℕ) (h h' : Hub R W) → set_redemption_price_id a b h ≡ ok h' → Keeps h h'
  unfolding set_redemption_price_id
  set_redemption_price_id-Keeps a b h h' e s = ground arith

  set_timestamp-Keeps : (t id : ℕ) (h : Hub R W) → Keeps h (set_timestamp t id h)
  unfolding set_timestamp
  set_timestamp-Keeps t id h s = ground arith

  set_timestamps-Keeps : (t : ℕ) (ids : List ℕ) (h : Hub R W) → Keeps h (set_timestamps t ids h)
  unfolding set_timestamps
  set_timestamps-Keeps t [] h s = ground arith
  set_timestamps-Keeps t (id ∷ ids) h s =
      ground
        (arith, set_timestamp-Keeps t id h s, set_timestamps-Keeps t ids (set_timestamp t id h))

module _ {R : Type 0} ⦃p : Peers⦄ where
  claim_one-Keeps : (now id : ℕ) (h h' : Hub R p.World) → claim_one now id h ≡ ok h' → Keeps h h'
  unfolding claim_one hub_claim_mint
  claim_one-Keeps now id h h' e s = ground arith

  claim_each-Keeps :
      (now : ℕ) (ids : List ℕ) (h h' : Hub R p.World) → claim_each now ids h ≡ ok h' → Keeps h h'
  unfolding claim_each
  claim_each-Keeps now [] h h' e s = ground arith
  claim_each-Keeps now (id ∷ ids) h h' e s =
      let (h₁, e₁, e₂) = >>=-eq-ok (claim_one now id h) (claim_each now ids) e in
      ground (arith, claim_one-Keeps now id h h₁ e₁ s, claim_each-Keeps now ids h₁ h' e₂)

  redeem_one-Keeps :
      (id : ℕ) (h : Hub R p.World) (r : ℕ × Hub R p.World) → redeem_one id h ≡ ok r → Keeps h r.1
  unfolding redeem_one pull_collateral
  redeem_one-Keeps id h r e s = ground arith

  redeem_each-Keeps :
      (fees : ℕ) (ids : List ℕ) (h : Hub R p.World) (r : ℕ × Hub R p.World)
      → redeem_each fees ids h ≡ ok r
      → Keeps h r.1
  unfolding redeem_each
  redeem_each-Keeps fees [] h r e s = ground arith
  redeem_each-Keeps fees (id ∷ ids) h r e s =
      let (q, e₁, e₂) =
        >>=-eq-ok (redeem_one id h) (λ q. add fees q.0 >>= λ sum. redeem_each sum ids q.1) e in
      let (sum, e₃, e₄) = >>=-eq-ok (add fees q.0) (λ sum. redeem_each sum ids q.1) e₂ in
      ground (arith, redeem_one-Keeps id h q e₁ s, redeem_each-Keeps sum ids q.1 r e₄)

  pull_fees-Keeps :
      (from fees : ℕ) (h h' : Hub R p.World) → pull_fees from fees h ≡ ok h' → Keeps h h'
  unfolding pull_fees pull_collateral
  pull_fees-Keeps from fees h h' e s = ground arith

  claim_redemption-Keeps :
      (ids : List ℕ) (h h' : Hub R p.World) → claim_redemption ids h ≡ ok h' → Keeps h h'
  unfolding claim_redemption
  claim_redemption-Keeps ids h h' e s =
      let (u, e₀, e₁) =
        >>=-eq-ok (revert_if h.redemption_paused feature_paused)
          (λ _. redeem_each 0 ids h >>= λ r. pull_fees r.1.asset_sender r.0 r.1) e in
      let (r, e₂, e₃) =
        >>=-eq-ok (redeem_each 0 ids h) (λ r. pull_fees r.1.asset_sender r.0 r.1) e₁ in
      ground
        (arith, redeem_each-Keeps 0 ids h r e₂ s, pull_fees-Keeps r.1.asset_sender r.0 r.1 h' e₃)

module _ ⦃ac : AccessControl⦄ ⦃p : Peers⦄ where
  -- A call that returns keeps every limit, changes nothing that the constructor fixed, and moves no
  -- counter back.
  pub exec-IsSound :
      (sender now : ℕ) (c : Call) (h h' : Hub ac.Roles p.World)
      → exec sender now c h ≡ ok h'
      → IsSound h
      → IsSound h' × Extends h h'
  unfolding exec request_subscription record_deposit pull_fees pull_collateral claim_mint add_proof
      request_redemption request_redemption_serviced_off_chain burn_rwa claim_redemption
      set_price_id_for_deposits set_price_id_for_redemptions set_claimable_timestamp
      overwrite_depositor overwrite_redeemer set_minimum_redemption_amount
      set_minimum_deposit_amount set_mint_fee set_redemption_fee set_pricer set_fee_recipient
      set_asset_sender set_off_chain_redemption_minimum set_blocklist set_sanctions_list
      pause_subscription unpause_subscription pause_redemption unpause_redemption
      pause_off_chain_redemption unpause_off_chain_redemption
  exec-IsSound sender now (Call.claim_mint ids) h h' e s =
      ground (arith, claim_each-Keeps now ids h h')
  exec-IsSound sender now (Call.claim_redemption ids) h h' e s = claim_redemption-Keeps ids h h' e s
  exec-IsSound sender now (Call.set_price_id_for_deposits ids qs) h h' e s =
      ground
        (arith, for_each_pair-Keeps set_deposit_price_id set_deposit_price_id-Keeps ids qs h h')
  exec-IsSound sender now (Call.set_price_id_for_redemptions ids qs) h h' e s =
      ground (
        arith,
        for_each_pair-Keeps set_redemption_price_id set_redemption_price_id-Keeps ids qs h h',
      )
  exec-IsSound sender now (Call.set_claimable_timestamp t ids) h h' e s =
      ground (arith, set_timestamps-Keeps t ids h)
  exec-IsSound sender now c h h' e s = ground arith
