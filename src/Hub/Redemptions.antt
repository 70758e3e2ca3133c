-- ===== src/Hub/Redemptions.antt =====
-- What each call of USDXManager leaves of the redemptions: the loops, and the calls that are not about
-- redemptions.
use usdx_v.Base.{
  ℕ, ◌≡◌, ◌≢◌, refl, arith, true, false, List, [], ◌∷◌, contains, Bool-cases, inl, inr, ◌==◌,
}
use usdx_v.Evm.{ok, ◌>>=◌, >>=-eq-ok, add, revert_if, feature_paused}
use usdx_v.Hub.Peers.{Peers}
use usdx_v.Hub.State.{Hub, no_redeemer}
use usdx_v.Hub.Subscribe.{claim_one, claim_each, claim_mint, pull_fees, pull_collateral}
use usdx_v.Hub.Redeem.{redeem_one, redeem_each, claim_redemption}
use usdx_v.Hub.Prices.{
  for_each_pair, set_deposit_price_id, set_redemption_price_id, set_timestamp, set_timestamps,
}
use usdx_v.Hub.Claiming.{claim_one-IsClaimed}
use usdx_v.Hub.Redeeming.{redeem_one-IsRedeemed, redeem_each_priced}

module _ {R W : Type 0} where
  pub set_each_price-redemptions :
      (ids price_ids : List ℕ) (h h' : Hub R W)
      → for_each_pair set_deposit_price_id ids price_ids h ≡ ok h'
      → h'.redemptions ≡ h.redemptions
  unfolding for_each_pair set_deposit_price_id
  set_each_price-redemptions [] qs h h' e = ground arith
  set_each_price-redemptions (k ∷ ks) [] h h' e = absurd (ground arith)
  set_each_price-redemptions (k ∷ ks) (q ∷ qs) h h' e =
      let (h₁, e₁, e₂) =
        >>=-eq-ok (set_deposit_price_id k q h) (for_each_pair set_deposit_price_id ks qs) e in
      ground (arith, set_each_price-redemptions ks qs h₁ h' e₂)

  pub set_timestamps-redemptions :
      (t : ℕ) (ids : List ℕ) (h : Hub R W) → (set_timestamps t ids h).redemptions ≡ h.redemptions
  unfolding set_timestamps set_timestamp
  set_timestamps-redemptions t [] h = refl
  set_timestamps-redemptions t (id ∷ ids) h =
      set_timestamps-redemptions t ids (set_timestamp t id h)

  -- A batch of price ids keeps the amount of every redemption, and all of one that is not listed.
  pub set_each_redemption_price :
      (ids price_ids : List ℕ) (id : ℕ) (h h' : Hub R W)
      → for_each_pair set_redemption_price_id ids price_ids h ≡ ok h'
      → ((h'.redemptions id).amount_rwa_token_burned ≡ (h.redemptions id).amount_rwa_token_burned)
        × (contains id ids ≡ false → h'.redemptions id ≡ h.redemptions id)
  unfolding for_each_pair set_redemption_price_id
  set_each_redemption_price [] qs id h h' e = ground arith
  set_each_redemption_price (k ∷ ks) [] id h h' e = absurd (ground arith)
  set_each_redemption_price (k ∷ ks) (q ∷ qs) id h h' e =
      let (h₁, e₁, e₂) =
        >>=-eq-ok (set_redemption_price_id k q h) (for_each_pair set_redemption_price_id ks qs) e in
      let (amount, unlisted) = set_each_redemption_price ks qs id h₁ h' e₂ in
      elim (Bool-cases (id == k)) [
        | inl at ↦ (ground arith, λ m. absurd (ground arith))
        | inr other ↦ (ground arith, λ m. ground (arith, unlisted (ground arith)))
      ]

module _ {R : Type 0} ⦃p : Peers⦄ where
  claim_each-redemptions :
      (now id : ℕ) (ids : List ℕ) (h h' : Hub R p.World)
      → claim_each now ids h ≡ ok h'
      → h'.redemptions id ≡ h.redemptions id
  unfolding claim_each
  claim_each-redemptions now id [] h h' e = ground arith
  claim_each-redemptions now id (k ∷ ids) h h' e =
      let (h₁, e₁, e₂) = >>=-eq-ok (claim_one now k h) (claim_each now ids) e in
      ground (
        arith,
        claim_each-redemptions now id ids h₁ h' e₂,
        (claim_one-IsClaimed now k h h₁ e₁).same_redemptions id,
      )

  pub claim_mint-redemptions :
      (now id : ℕ) (ids : List ℕ) (h h' : Hub R p.World)
      → claim_mint now ids h ≡ ok h'
      → h'.redemptions id ≡ h.redemptions id
  unfolding claim_mint
  claim_mint-redemptions now id ids h h' e = ground (arith, claim_each-redemptions now id ids h h')

  redeem_each-redemptions :
      (id fees : ℕ) (ids : List ℕ) (h : Hub R p.World) (r : ℕ × Hub R p.World)
      → redeem_each fees ids h ≡ ok r
      → (contains id ids ≡ true
          → ((h.redemptions id).price_id ≢ 0) × (r.1.redemptions id ≡ no_redeemer))
        × (contains id ids ≡ false → r.1.redemptions id ≡ h.redemptions id)
  unfolding redeem_each
  redeem_each-redemptions id fees [] h r e = ground arith
  redeem_each-redemptions id fees (k ∷ ids) h r e =
      let (q, e₁, e₂) =
        >>=-eq-ok (redeem_one k h) (λ q. add fees q.0 >>= λ sum. redeem_each sum ids q.1) e in
      let (sum, e₃, e₄) = >>=-eq-ok (add fees q.0) (λ sum. redeem_each sum ids q.1) e₂ in
      let c = redeem_one-IsRedeemed k h q e₁ in
      let (listed, unlisted) = redeem_each-redemptions id sum ids q.1 r e₄ in
      elim (Bool-cases (id == k)) [
        | inl at ↦
            let gone : q.1.redemptions id ≡ no_redeemer = ground (arith, c.is_deleted) in
            let fresh = redeem_each_priced sum id ids q.1 r e₄ (ground arith) in
            (
              λ m. (ground (arith, c.was_priced), ground (arith, unlisted fresh)),
              λ m. absurd (ground arith),
            )
        | inr other ↦
            let same = c.others id (ground arith) in
            (
              λ m. ground (arith, listed (ground arith)),
              λ m. ground (arith, unlisted (ground arith)),
            )
      ]

  -- A batch of claims deletes its redemptions, which were priced, and keeps all others.
  pub claim_redemption-redemptions :
      (id : ℕ) (ids : List ℕ) (h h' : Hub R p.World)
      → claim_redemption ids h ≡ ok h'
      → (contains id ids ≡ true
          → ((h.redemptions id).price_id ≢ 0) × (h'.redemptions id ≡ no_redeemer))
        × (contains id ids ≡ false → h'.redemptions id ≡ h.redemptions id)
  unfolding claim_redemption pull_fees pull_collateral
  claim_redemption-redemptions id ids h h' e =
      let (u, e₀, e₁) =
        >>=-eq-ok (revert_if h.redemption_paused feature_paused)
          (λ _. redeem_each 0 ids h >>= λ r. pull_fees r.1.asset_sender r.0 r.1) e in
      let (r, e₂, e₃) =
        >>=-eq-ok (redeem_each 0 ids h) (λ r. pull_fees r.1.asset_sender r.0 r.1) e₁ in
      let (listed, unlisted) = redeem_each-redemptions id 0 ids h r e₂ in
      let same : h'.redemptions id ≡ r.1.redemptions id = ground arith in
      (λ m. ground (arith, listed m), λ m. ground (arith, unlisted m))
