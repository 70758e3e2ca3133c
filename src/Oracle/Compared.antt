-- ===== src/Oracle/Compared.antt =====
-- What an accepted price of RWAOracleExternalComparisonCheck.sol means, and where none is accepted.
use native.Mathlib.Nat.{lt-div-mul-add, mul-le-mul_right}
use usdx_v.Base.{ℕ, ◌+◌, ◌*◌, ◌/◌, ◌≤◌, ◌<◌, ◌≡◌, ◌≢◌, ap, refl, arith}
use usdx_v.Base.Int.{ℤ, ◌-ℤ◌, magnitude, pos, negsuc}
use usdx_v.Evm.{Result, ok}
use usdx_v.Access.{AccessControl}
use usdx_v.Oracle.Drift.{gap}
use usdx_v.Oracle.Comparison.{
  Comparison, Round, latest_round, signed_change_bps, store_price, set_compared_price,
  max_cl_window, min_price_update_window,
}
use usdx_v.Oracle.Comparing.{
  change_size, basis_points, change_exact, size_exact, answer_pos, price_pos, compare_close,
  compare_frame, timing_lem, set_compared_price_steps,
}

module _ ⦃ac : AccessControl⦄ where
  -- Once the stored Chainlink answer is 0, no price is set from that state, whatever the sender, the
  -- time, the price and the answer of the Chainlink oracle are.
  pub zero_answer_blocks :
      (sender now : ℕ) (answered : Result Round) (new : ℤ) (s s' : Comparison ac.Roles)
      → s.last_set_round.answer ≡ pos 0
      → set_compared_price sender now answered new s ≢ ok s'
  zero_answer_blocks sender now answered new s s' z e =
      let k = set_compared_price_steps sender now answered new s s' e in
      compare_frame k.change_bps k.round s k.compared k.comparison z

  -- From a price that is not negative, a price that is set, of any int256, is above zero, comes at
  -- least 23 hours after the last one, with a new Chainlink round that was updated in the last 25 hours
  -- and not later than now, and differs from the last price by less than 2.01% of it, in exact numbers.
  -- The price, the time and the round are stored.
  pub set_compared_price_bounds :
      (sender now a : ℕ) (answered : Result Round) (new : ℤ) (s s' : Comparison ac.Roles)
      → s.rwa_price ≡ pos a
      → set_compared_price sender now answered new s ≡ ok s'
      → (round : Round) × (n : ℕ) × (answered ≡ ok round)
        × (new ≡ pos n)
        × (0 < n)
        × (s.price_timestamp + min_price_update_window ≤ now)
        × (round.round_id ≢ s.last_set_round.round_id)
        × (round.updated_at ≤ now)
        × (now ≤ round.updated_at + max_cl_window)
        × (gap a n * 10000 < 201 * a)
        × (s'.rwa_price ≡ pos n)
        × (s'.price_timestamp ≡ now)
        × (s'.last_set_round ≡ round)
  unfolding latest_round store_price
  set_compared_price_bounds sender now a answered (negsuc m) s s' ea e =
      let k = set_compared_price_steps sender now answered (negsuc m) s s' e in
      absurd (ground (arith, k.positive))
  set_compared_price_bounds sender now a answered (pos n) s s' ea e =
      let k = set_compared_price_steps sender now answered (pos n) s s' e in
      let changed : signed_change_bps (pos a) (pos n) ≡ ok k.change_bps = rw ea at k.changed in
      let (ha, exact) = change_size a n k.size k.change_bps changed k.sized in
      let (fresh, new_round, window) = timing_lem now k.round s k.timely in
      let near = lt-div-mul-add {a = gap a n * 10000} ha in
      let capped = mul-le-mul_right a (rw exact at k.small) in
      (
        k.round,
        n,
        ground (arith, k.sane),
        refl,
        ground (arith, k.positive),
        window,
        new_round,
        ground (arith, k.sane),
        fresh,
        omega (arith, near, capped, exact),
        ap (λ q. q.rwa_price) k.stored,
        ap (λ q. q.price_timestamp) k.stored,
        ap (λ q. q.last_set_round) k.stored,
      )

  -- From a price `a` and a stored Chainlink answer `x` that are not negative, a price `n` is set only
  -- with a Chainlink answer `y` that is not negative, where `a` and `x` are above zero, and where the
  -- change from `a` to `n` is at most 200 basis points of `a`, rounded towards zero; and unless the
  -- change from `x` to `y` is above 274 basis points of `x`, the two signed changes are at most 74 basis
  -- points apart.
  pub set_compared_price_follows :
      (sender now a x : ℕ) (answered : Result Round) (new : ℤ) (s s' : Comparison ac.Roles)
      → s.rwa_price ≡ pos a
      → s.last_set_round.answer ≡ pos x
      → set_compared_price sender now answered new s ≡ ok s'
      → (n : ℕ) × (y : ℕ) × (new ≡ pos n)
        × (s'.last_set_round.answer ≡ pos y)
        × (0 < a)
        × (0 < x)
        × (gap a n * 10000 / a ≤ 200)
        × (gap x y * 10000 / x ≤ 274 → magnitude (basis_points a n -ℤ basis_points x y) ≤ 74)
  unfolding store_price
  set_compared_price_follows sender now a x answered new s s' ea ex e =
      let k = set_compared_price_steps sender now answered new s s' e in
      let (n, en) = price_pos new k.positive in
      let (y, ey) = answer_pos now answered k.round k.sane in
      let (c, f, close) = compare_close k.change_bps k.round s k.compared k.comparison in
      let changed : signed_change_bps (pos a) (pos n) ≡ ok k.change_bps =
        rw (ea, en) at k.changed in
      let (ha, eb) = change_exact a n k.change_bps changed in
      let (hx, ec) = change_exact x y c (rw (ex, ey) at f) in
      let exact = (change_size a n k.size k.change_bps changed k.sized).1 in
      (
        n,
        y,
        en,
        rw (ap (λ q. q.last_set_round) k.stored) ey,
        ha,
        hx,
        rw exact at k.small,
        λ near. (rw (ec, eb) at close) (rw (size_exact x y) near),
      )
