-- ===== src/Oracle/Acceptance.antt =====
-- Exactly when `setPrice` of RWAOracleRateCheck.sol accepts a price, and what it leaves.
use usdx_v.Base.{◌∷◌, refl, ℕ, ◌+◌, ◌*◌, ◌≤◌, ◌<◌, ◌≡◌, ◌≢◌, ◌↔◌, arith, true}
use usdx_v.Base.Int.{ℤ, pos, negsuc, leb_ℤ}
use usdx_v.Evm.{ok, revert, uint_mod, invalid_price}
use usdx_v.Evm.Words.{int_max, checked_int}
use usdx_v.Roles.{setter_role}
use usdx_v.Access.{AccessControl}
use usdx_v.Oracle.RateCheck.{
  Oracle, rwa_price_set, price_change_bps, set_price, bps_denominator, max_change_diff_bps,
  min_price_update_window,
}
use usdx_v.Oracle.Drift.{gap, set_price-IsUpdated, price_change_bps_ok, price_change_bps_defined}

module _ ⦃ac : AccessControl⦄ where
  -- The conditions on a new price `n` after the price `a`, in exact numbers.
  pub record IsAcceptable (sender now a n : ℕ) (s : Oracle ac.Roles) : Type 0 where
    pub setter : ac.has_role s.roles setter_role sender ≡ true
    pub positive : 0 < n
    pub window : s.price_timestamp + min_price_update_window ≤ now
    pub fits : gap a n * bps_denominator < uint_mod
    pub bounded : gap a n * bps_denominator ≤ max_change_diff_bps * a

  -- The oracle with the price `n` of the time `now`, and the event of the change.
  abbrev pub updated : (now n : ℕ) → Oracle ac.Roles → Oracle ac.Roles
  updated now n s = record s {
    log = rwa_price_set s.rwa_price (pos n) now ∷ s.log;
    rwa_price = pos n;
    price_timestamp = now;
  }

  set_price_pos :
      (sender now a n : ℕ) (s s' : Oracle ac.Roles)
      → s.rwa_price ≡ pos a
      → 0 < a
      → a < int_max
      → n < int_max
      → (set_price sender now (pos n) s ≡ ok s')
        ↔ (IsAcceptable sender now a n s × (s' ≡ updated now n s))
  unfolding set_price
  set_price_pos sender now a n s s' ea ha hi hn = (
    λ e.
        (let d = set_price-IsUpdated sender now a n s s' ea ha hi hn e in
          (
            record {
              setter = ground arith;
              positive = d.positive;
              window = d.window;
              fits = d.fits;
              bounded = d.bounded;
            },
            ground arith,
          )),
    λ (g, same).
        (let (c, f) = price_change_bps_defined a n ha hi hn g.fits in
          let within : c ≤ max_change_diff_bps =
            (price_change_bps_ok a n c ha hi hn f).1.1 g.bounded in
          let f' : price_change_bps s.rwa_price (pos n) ≡ ok c = rw ea f in
          ground (arith, g.setter, g.positive, g.window)),
  )

  -- A setter's price of 0 or below is refused as such.
  set_price_invalid :
      (sender now : ℕ) (new : ℤ) (s : Oracle ac.Roles)
      → ac.has_role s.roles setter_role sender ≡ true
      → leb_ℤ new (pos 0) ≡ true
      → set_price sender now new s ≡ revert invalid_price
  unfolding set_price
  set_price_invalid sender now new s h z = ground arith

  set_price_neg :
      (sender now k : ℕ) (s s' : Oracle ac.Roles) → set_price sender now (negsuc k) s ≢ ok s'
  unfolding set_price
  set_price_neg sender now k s s' e = ground arith

  -- From a price above 0 in int256, `setPrice` returns a state for a price in int256 exactly if the
  -- sender is a setter, the new price is above 0, at least 23 hours have passed, the product of the
  -- change and 10000 fits in a word, and the change is at most 1% of the old price in exact numbers,
  -- and if the state is the old one with the new price, the time and the event. A setter's price
  -- of 0 or below reverts with InvalidPrice.
  pub set_price_iff :
      (sender now a : ℕ) (new : ℤ) (s s' : Oracle ac.Roles)
      → s.rwa_price ≡ pos a
      → 0 < a
      → a < int_max
      → checked_int new ≡ ok new
      → ((set_price sender now new s ≡ ok s')
          ↔ ((n : ℕ) × (new ≡ pos n) × IsAcceptable sender now a n s × (s' ≡ updated now n s)))
        × (ac.has_role s.roles setter_role sender ≡ true
            → leb_ℤ new (pos 0) ≡ true
            → set_price sender now new s ≡ revert invalid_price)
  set_price_iff sender now a (pos n) s s' ea ha hi hn = (
    (
      λ e.
          let (g, same) = (set_price_pos sender now a n s s' ea ha hi (ground arith)).0 e in
          (n, refl, g, same),
      λ (m, at, g, same).
          (let both : n ≡ m = ground arith in
            rw both ((set_price_pos sender now a m s s' ea ha hi (ground arith)).1 (g, same))),
    ),
    set_price_invalid sender now (pos n) s,
  )
  set_price_iff sender now a (negsuc k) s s' ea ha hi hn = (
    (λ e. absurd (set_price_neg sender now k s s' e), λ (m, at, g, same). absurd (ground arith)),
    set_price_invalid sender now (negsuc k) s,
  )
