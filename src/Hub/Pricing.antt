-- ===== src/Hub/Pricing.antt =====
-- What the loops of `setPriceIdForDeposits`, `setPriceIdForRedemptions` and `setClaimableTimestamp` leave
-- of a deposit.
use usdx_v.Base.{
  ℕ, ◌≡◌, ◌≢◌, ◌⊎◌, inl, inr, refl, arith, true, List, [], ◌∷◌, contains, Bool-cases, ◌==◌,
}
use usdx_v.Evm.{ok, >>=-eq-ok}
use usdx_v.Hub.State.{Hub}
use usdx_v.Hub.Prices.{
  for_each_pair, set_deposit_price_id, set_redemption_price_id, set_timestamp, set_timestamps,
}

module _ {R W : Type 0} where
  -- What a batch of price ids leaves of a deposit that it changes.
  pub record IsPriced (ids price_ids : List ℕ) (id : ℕ) (h h' : Hub R W) : Type 0 where
    pub listed : contains id ids ≡ true
    pub was_booked : (h.deposits id).user ≢ 0
    pub was_unpriced : (h.deposits id).price_id ≡ 0
    pub same_user : (h'.deposits id).user ≡ (h.deposits id).user
    pub same_amount :
        (h'.deposits id).amount_deposited_minus_fees ≡ (h.deposits id).amount_deposited_minus_fees
    pub given : contains (h'.deposits id).price_id price_ids ≡ true

  set_deposit_price_id-steps :
      (k q id : ℕ) (h h₁ : Hub R W)
      → set_deposit_price_id k q h ≡ ok h₁
      → ((k ≢ id) × (h₁.deposits id ≡ h.deposits id))
        ⊎ ((k ≡ id)
            × ((h.deposits id).user ≢ 0)
            × ((h.deposits id).price_id ≡ 0)
            × (h₁.deposits id ≡ record (h.deposits id) { price_id = q }))
  unfolding set_deposit_price_id
  set_deposit_price_id-steps k q id h h₁ e = elim (Bool-cases (id == k)) [
    | inl at ↦ inr (ground arith, ground arith, ground arith, ground arith)
    | inr other ↦ inl (ground arith, ground arith)
  ]

  pub set_each_price :
      (ids price_ids : List ℕ) (id : ℕ) (h h' : Hub R W)
      → for_each_pair set_deposit_price_id ids price_ids h ≡ ok h'
      → (h'.deposits id ≡ h.deposits id) ⊎ IsPriced ids price_ids id h h'
  unfolding for_each_pair
  set_each_price [] qs id h h' e = inl (ground arith)
  set_each_price (k ∷ ks) [] id h h' e = absurd (ground arith)
  set_each_price (k ∷ ks) (q ∷ qs) id h h' e =
      let (h₁, e₁, e₂) =
        >>=-eq-ok (set_deposit_price_id k q h) (for_each_pair set_deposit_price_id ks qs) e in
      let rest = set_each_price ks qs id h₁ h' e₂ in
      let step = set_deposit_price_id-steps k q id h h₁ e₁ in
      elim step [
        | inl (other, same) ↦ elim rest [
          | inl stays ↦ inl (ground arith)
          | inr c ↦ inr (record {
            listed = ground (arith, c.listed);
            was_booked = ground (arith, c.was_booked);
            was_unpriced = ground (arith, c.was_unpriced);
            same_user = ground (arith, c.same_user);
            same_amount = ground (arith, c.same_amount);
            given = ground (arith, c.given);
          })
        ]
        | inr (at, booked, unpriced, priced) ↦ elim rest [
          | inl stays ↦ inr (record {
            listed = ground arith;
            was_booked = booked;
            was_unpriced = unpriced;
            same_user = ground arith;
            same_amount = ground arith;
            given = ground arith;
          })
          | inr c ↦ inr (record {
            listed = ground arith;
            was_booked = booked;
            was_unpriced = unpriced;
            same_user = ground (arith, c.same_user);
            same_amount = ground (arith, c.same_amount);
            given = ground (arith, c.given);
          })
        ]
      ]

  pub set_each_redemption_price-deposits :
      (ids price_ids : List ℕ) (h h' : Hub R W)
      → for_each_pair set_redemption_price_id ids price_ids h ≡ ok h'
      → h'.deposits ≡ h.deposits
  unfolding for_each_pair set_redemption_price_id
  set_each_redemption_price-deposits [] qs h h' e = ground arith
  set_each_redemption_price-deposits (k ∷ ks) [] h h' e = absurd (ground arith)
  set_each_redemption_price-deposits (k ∷ ks) (q ∷ qs) h h' e =
      let (h₁, e₁, e₂) =
        >>=-eq-ok (set_redemption_price_id k q h) (for_each_pair set_redemption_price_id ks qs) e in
      ground (arith, set_each_redemption_price-deposits ks qs h₁ h' e₂)

  pub set_timestamps-deposits :
      (t : ℕ) (ids : List ℕ) (h : Hub R W) → (set_timestamps t ids h).deposits ≡ h.deposits
  unfolding set_timestamps set_timestamp
  set_timestamps-deposits t [] h = refl
  set_timestamps-deposits t (id ∷ ids) h = set_timestamps-deposits t ids (set_timestamp t id h)
