-- ===== src/Hub/Deposits.antt =====
-- Which calls change a deposit, by whom, and how.
use usdx_v.Base.{
  ℕ, ◌≤◌, ◌<◌, ◌≡◌, ◌≢◌, ◌⊎◌, inl, inr, arith, true, List, [], ◌∷◌, contains, Bool-cases, ◌==◌,
}
use usdx_v.Evm.{ok, ◌>>=◌, >>=-eq-ok, add, revert_if, feature_paused}
use usdx_v.Access.{AccessControl}
use usdx_v.Roles.{manager_admin, price_id_setter_role, relayer_role}
use usdx_v.Hub.Peers.{Peers}
use usdx_v.Hub.State.{Hub, no_depositor}
use usdx_v.Hub.Subscribe.{
  request_subscription, record_deposit, pull_fees, pull_collateral, add_proof,
}
use usdx_v.Hub.Redeem.{
  request_redemption, request_redemption_serviced_off_chain, burn_rwa, redeem_one, redeem_each,
  claim_redemption,
}
use usdx_v.Hub.Prices.{
  set_price_id_for_deposits, set_price_id_for_redemptions, set_claimable_timestamp,
}
use usdx_v.Hub.Admin.{
  overwrite_depositor, overwrite_redeemer, set_minimum_redemption_amount,
  set_minimum_deposit_amount, set_mint_fee, set_redemption_fee, set_pricer, set_fee_recipient,
  set_asset_sender, set_off_chain_redemption_minimum, set_blocklist, set_sanctions_list,
  pause_subscription, unpause_subscription, pause_redemption, unpause_redemption,
  pause_off_chain_redemption, unpause_off_chain_redemption,
}
use usdx_v.Hub.Calls.{Call, exec}
use usdx_v.Hub.Pricing.{
  IsPriced, set_each_price, set_each_redemption_price-deposits, set_timestamps-deposits,
}
use usdx_v.Hub.Claiming.{claim_mint-IsBatchClaimed}
use usdx_v.Hub.Redeeming.{redeem_one-IsRedeemed}

module _ {R : Type 0} ⦃p : Peers⦄ where
  redeem_each-deposits :
      (id fees : ℕ) (ids : List ℕ) (h : Hub R p.World) (r : ℕ × Hub R p.World)
      → redeem_each fees ids h ≡ ok r
      → r.1.deposits id ≡ h.deposits id
  unfolding redeem_each
  redeem_each-deposits id fees [] h r e = ground arith
  redeem_each-deposits id fees (k ∷ ids) h r e =
      let (q, e₁, e₂) =
        >>=-eq-ok (redeem_one k h) (λ q. add fees q.0 >>= λ sum. redeem_each sum ids q.1) e in
      let (sum, e₃, e₄) = >>=-eq-ok (add fees q.0) (λ sum. redeem_each sum ids q.1) e₂ in
      ground (
        arith,
        redeem_each-deposits id sum ids q.1 r e₄,
        (redeem_one-IsRedeemed k h q e₁).same_deposits id,
      )

  claim_redemption-deposits :
      (id : ℕ) (ids : List ℕ) (h h' : Hub R p.World)
      → claim_redemption ids h ≡ ok h'
      → h'.deposits id ≡ h.deposits id
  unfolding claim_redemption pull_fees pull_collateral
  claim_redemption-deposits id ids h h' e =
      let (u, e₀, e₁) =
        >>=-eq-ok (revert_if h.redemption_paused feature_paused)
          (λ _. redeem_each 0 ids h >>= λ r. pull_fees r.1.asset_sender r.0 r.1) e in
      let (r, e₂, e₃) =
        >>=-eq-ok (redeem_each 0 ids h) (λ r. pull_fees r.1.asset_sender r.0 r.1) e₁ in
      ground (arith, redeem_each-deposits id 0 ids h r e₂)

module _ ⦃ac : AccessControl⦄ ⦃p : Peers⦄ where
  -- How a call by `sender` at the time `now` may change the deposit `id`.
  abbrev pub Changes : (sender now id : ℕ) → Call → (h h' : Hub ac.Roles p.World) → Type 0
  Changes sender now id (Call.request_subscription amount) h h' =
      (id ≡ h.subscription_request_counter)
      × ((h'.deposits id).user ≡ sender)
      × ((h'.deposits id).price_id ≡ 0)
  Changes sender now id (Call.add_proof tx_hash user after_fee fee_amount timestamp) h h' =
      (id ≡ tx_hash)
      × (ac.has_role h.roles relayer_role sender ≡ true)
      × ((h.deposits id).user ≡ 0)
      × (h'.deposits id
          ≡ record { user = user; amount_deposited_minus_fees = after_fee; price_id = 0 })
  Changes sender now id (Call.set_price_id_for_deposits ids price_ids) h h' =
      (ac.has_role h.roles price_id_setter_role sender ≡ true) × IsPriced ids price_ids id h h'
  Changes sender now id (Call.claim_mint ids) h h' =
      (contains id ids ≡ true)
      × ((h.deposits id).price_id ≢ 0)
      × (0 < h.claimable_timestamps id)
      × (h.claimable_timestamps id ≤ now)
      × (h'.deposits id ≡ no_depositor)
  Changes sender now id (Call.overwrite_depositor deposit_id user after_fee price_id) h h' =
      (id ≡ deposit_id)
      × (ac.has_role h.roles manager_admin sender ≡ true)
      × (h'.deposits id
          ≡ record { user = user; amount_deposited_minus_fees = after_fee; price_id = price_id })
  Changes sender now id _ h h' = ⊥

  -- A call that returns leaves a deposit as it is, or it is one of five. A request books the deposit at
  -- the counter for the sender, with no price id. A proof by a relayer books one that has no user. The
  -- price ids by their setter go to listed deposits with a user and no price id, and keep the user and
  -- the amount. A claim deletes listed deposits that have a price id and are due. The manager admin
  -- overwrites a deposit with what the call says.
  pub exec-Changes :
      (sender now id : ℕ) (c : Call) (h h' : Hub ac.Roles p.World)
      → exec sender now c h ≡ ok h'
      → (h'.deposits id ≡ h.deposits id) ⊎ Changes sender now id c h h'
  unfolding exec request_subscription record_deposit pull_fees pull_collateral add_proof
      request_redemption request_redemption_serviced_off_chain burn_rwa set_price_id_for_deposits
      set_price_id_for_redemptions set_claimable_timestamp overwrite_depositor overwrite_redeemer
      set_minimum_redemption_amount set_minimum_deposit_amount set_mint_fee set_redemption_fee
      set_pricer set_fee_recipient set_asset_sender set_off_chain_redemption_minimum set_blocklist
      set_sanctions_list pause_subscription unpause_subscription pause_redemption unpause_redemption
      pause_off_chain_redemption unpause_off_chain_redemption
  exec-Changes sender now id (Call.request_subscription amount) h h' e =
      elim (Bool-cases (id == h.subscription_request_counter)) [
        | inl at ↦ inr (ground arith, ground arith, ground arith)
        | inr other ↦ inl (ground arith)
      ]
  exec-Changes sender now id (Call.add_proof tx user a b t) h h' e = elim (Bool-cases (id == tx)) [
    | inl at ↦ inr (ground arith, ground arith, ground arith, ground arith)
    | inr other ↦ inl (ground arith)
  ]
  exec-Changes sender now id (Call.overwrite_depositor i user a q) h h' e =
      elim (Bool-cases (id == i)) [
        | inl at ↦ inr (ground arith, ground arith, ground arith)
        | inr other ↦ inl (ground arith)
      ]
  exec-Changes sender now id (Call.claim_mint ids) h h' e =
      let (open_, b) = claim_mint-IsBatchClaimed now ids h h' e in
      elim (Bool-cases (contains id ids)) [
        | inl at ↦ let (q, t, d, z, u) = b.claimed id at in inr (at, q, t, d, z)
        | inr other ↦ inl (b.others id other).0
      ]
  exec-Changes sender now id (Call.set_price_id_for_deposits ids qs) h h' e =
      elim (set_each_price ids qs id h h' (ground arith)) [
        | inl same ↦ inl same
        | inr priced ↦ inr (ground arith, priced)
      ]
  exec-Changes sender now id (Call.set_price_id_for_redemptions ids qs) h h' e =
      inl (ground (arith, set_each_redemption_price-deposits ids qs h h'))
  exec-Changes sender now id (Call.set_claimable_timestamp t ids) h h' e =
      inl (ground (arith, set_timestamps-deposits t ids h))
  exec-Changes sender now id (Call.claim_redemption ids) h h' e =
      inl (claim_redemption-deposits id ids h h' e)
  exec-Changes sender now id c h h' e = inl (ground arith)
