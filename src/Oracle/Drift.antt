-- ===== src/Oracle/Drift.antt =====
-- When `setPrice` of RWAOracleRateCheck.sol accepts a price, and how far prices drift over many
-- updates.
use native.Mathlib.Nat.{mul-le-mul_right, pow-suc, lt_of_mul-lt-mul_right}
use usdx_v.Base.{inl, inr, ℕ, suc, ◌+◌, ◌-◌, ◌*◌, ◌^◌, ◌≤◌, ◌<◌, ◌≡◌, ◌↔◌, arith}
use usdx_v.Base.Int.{pos}
use usdx_v.Evm.{ok, uint_mod, Result-cases}
use usdx_v.Evm.Words.{int_max}
use usdx_v.Access.{AccessControl}
use usdx_v.Oracle.RateCheck.{
  Oracle, mul_div_up, price_change_bps, set_price, bps_denominator, max_change_diff_bps,
  min_price_update_window,
}
use usdx_v.Oracle.RateBound.{mul_div_up_iff, mul_div_up_fits}

-- |a - b|
abbrev pub gap : ℕ → ℕ → ℕ
gap a b = (a - b) + (b - a)

small_word : bps_denominator < uint_mod
unfolding uint_mod
small_word = omega arith

int_le_uint : int_max ≤ uint_mod
unfolding int_max uint_mod
int_le_uint = omega arith

-- The change in basis points, rounded up, is at most `c` exactly where the exact change is.
pub price_change_bps_ok :
    (a n c : ℕ)
    → 0 < a
    → a < int_max
    → n < int_max
    → price_change_bps (pos a) (pos n) ≡ ok c
    → (gap a n * bps_denominator < uint_mod)
      × ((c ≤ max_change_diff_bps) ↔ (gap a n * bps_denominator ≤ max_change_diff_bps * a))
unfolding price_change_bps
price_change_bps_ok a n c ha hi hn e =
    let m = mul_div_up_iff (gap a n) bps_denominator a c small_word (omega (arith, int_le_uint)) in
    let (d, fits, lo, up) = m.0 (ground arith) in
    (
      fits,
      (
        λ h. omega (arith, lo, mul-le-mul_right a h),
        λ h.
            (let l : c < 101 = lt_of_mul-lt-mul_right a (omega (arith, up, h)) in omega (arith, l)),
      ),
    )

pub price_change_bps_defined :
    (a n : ℕ)
    → 0 < a
    → a < int_max
    → n < int_max
    → gap a n * bps_denominator < uint_mod
    → (c : ℕ) × (price_change_bps (pos a) (pos n) ≡ ok c)
unfolding price_change_bps
price_change_bps_defined a n ha hi hn fits =
    let m =
      mul_div_up_fits (gap a n) bps_denominator a small_word (omega (arith, int_le_uint)) fits in
    elim (Result-cases (mul_div_up (gap a n) bps_denominator a)) [
      | inl (c, f) ↦ (c, ground arith)
      | inr (x, f) ↦ absurd (ground arith)
    ]

chain_le : (n p a u v U V : ℕ) → n * u ≤ p * v → p * U ≤ a * V → n * (U * u) ≤ a * (V * v)
chain_le n p a u v U V h k = omega (arith, mul-le-mul_right U h, mul-le-mul_right v k)

chain_ge : (a p n u v U V : ℕ) → a * U ≤ p * V → p * u ≤ n * v → a * (U * u) ≤ n * (V * v)
chain_ge a p n u v U V h k = omega (arith, mul-le-mul_right u h, mul-le-mul_right V k)

module _ ⦃ac : AccessControl⦄ where
  -- What an accepted update means: a price above 0, the window kept, and a change of at most 1%.
  pub record IsUpdated (now a n : ℕ) (s s' : Oracle ac.Roles) : Type 0 where
    pub window : s.price_timestamp + min_price_update_window ≤ now
    pub positive : 0 < n
    pub fits : gap a n * bps_denominator < uint_mod
    pub bounded : gap a n * bps_denominator ≤ max_change_diff_bps * a
    pub price : s'.rwa_price ≡ pos n
    pub timestamp : s'.price_timestamp ≡ now

  -- From a price above 0, an update that is accepted comes at least 23 hours after the last one and
  -- changes the price by at most 1% of the old price, in exact numbers; it sets the price and the time.
  pub set_price-IsUpdated :
      (sender now a n : ℕ) (s s' : Oracle ac.Roles)
      → s.rwa_price ≡ pos a
      → 0 < a
      → a < int_max
      → n < int_max
      → set_price sender now (pos n) s ≡ ok s'
      → IsUpdated now a n s s'
  unfolding set_price
  set_price-IsUpdated sender now a n s s' ea ha hi hn e =
      elim (Result-cases (price_change_bps s.rwa_price (pos n))) [
        | inr (x, f) ↦ absurd (ground arith)
        | inl (c, f) ↦
            let within = price_change_bps_ok a n c ha hi hn (rw ea at f) in
            record {
              window = ground arith;
              positive = ground arith;
              fits = within.0;
              bounded = ground (arith, within.1.0 (ground arith));
              price = ground arith;
              timestamp = ground arith;
            }
      ]

  -- A number of accepted updates, one after the other, with any changes of the roles in between.
  pub data Updates (s₀ : Oracle ac.Roles) : ℕ → Oracle ac.Roles → Type 0 where
    here : Updates s₀ 0 s₀
    next :
        {k : ℕ} {s : Oracle ac.Roles} (sender now n : ℕ) (s' : Oracle ac.Roles)
        → Updates s₀ k s
        → n < int_max
        → set_price sender now (pos n) s ≡ ok s'
        → Updates s₀ (suc k) s'
    roles_move :
        {k : ℕ} {s : Oracle ac.Roles} (roles : ac.Roles)
        → Updates s₀ k s
        → Updates s₀ k (record s { roles = roles })

  -- Where the price is after some updates, from the price `a` at the time `t`.
  pub record IsDrift (k a t : ℕ) (s : Oracle ac.Roles) : Type 0 where
    pub now_price : ℕ
    pub is_price : s.rwa_price ≡ pos now_price
    pub is_positive : 0 < now_price
    pub is_word : now_price < int_max
    pub at_most : now_price * 100 ^ k ≤ a * 101 ^ k
    pub at_least : a * 99 ^ k ≤ now_price * 100 ^ k
    pub elapsed : t + k * min_price_update_window ≤ s.price_timestamp

  -- After k accepted updates with prices that are not negative, from a price above 0 and with any changes
  -- of the roles in between, at least k times 23 hours have passed, and the price lies between 0.99 and
  -- 1.01 to the power k times the first price.
  pub Updates-IsDrift :
      (s₀ : Oracle ac.Roles) (a k : ℕ) (s : Oracle ac.Roles)
      → s₀.rwa_price ≡ pos a
      → 0 < a
      → a < int_max
      → Updates s₀ k s
      → IsDrift k a s₀.price_timestamp s
  Updates-IsDrift s₀ a _ _ ea ha hi here = record {
    now_price = a;
    is_price = ea;
    is_positive = ha;
    is_word = hi;
    at_most = omega arith;
    at_least = omega arith;
    elapsed = omega arith;
  }
  Updates-IsDrift s₀ a _ _ ea ha hi (roles_move {k} {s} roles r) =
      let d = Updates-IsDrift s₀ a k s ea ha hi r in
      record {
        now_price = d.now_price;
        is_price = d.is_price;
        is_positive = d.is_positive;
        is_word = d.is_word;
        at_most = d.at_most;
        at_least = d.at_least;
        elapsed = d.elapsed;
      }
  Updates-IsDrift s₀ a _ _ ea ha hi (next {k} {s} sender now n s' r hn e) =
      let d = Updates-IsDrift s₀ a k s ea ha hi r in
      let u =
        set_price-IsUpdated sender now d.now_price n s s' d.is_price d.is_positive d.is_word hn e in
      record {
        now_price = n;
        is_price = u.price;
        is_positive = u.positive;
        is_word = hn;
        at_most =
            rw (pow-suc 100 k, pow-suc 101 k)
              (chain_le n d.now_price a 100 101 (100 ^ k) (101 ^ k) (omega (arith, u.bounded))
                d.at_most);
        at_least =
            rw (pow-suc 99 k, pow-suc 100 k)
              (chain_ge a d.now_price n 99 100 (99 ^ k) (100 ^ k) d.at_least
                (omega (arith, u.bounded)));
        elapsed = omega (arith, d.elapsed, u.window, u.timestamp);
      }
