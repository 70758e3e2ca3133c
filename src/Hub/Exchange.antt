-- ===== src/Hub/Exchange.antt =====
-- The exchange between collateral and RWA tokens: what a deposit is worth after the way there and back
-- at one price (`_getMintAmountForPrice`, `_getRedemptionAmountForRwa`).
use native.Mathlib.Nat.{
  le_of_mul-le-mul_right, lt_of_mul-lt-mul_right, div-mul-le_self, lt-div-mul-add, div-le_of_le-mul,
  mul_comm,
}
use usdx_v.Base.{ℕ, ◌+◌, ◌*◌, ◌/◌, ◌≤◌, ◌<◌, ◌≡◌, arith}
use usdx_v.Evm.{ok}
use usdx_v.Hub.Amounts.{mint_amount_for_price, redemption_amount_for_rwa, scale_up, scale_down, e18}

-- The arithmetic of the way there and back, for any scale `s`.
back_le : (d m s q : ℕ) → 0 < s → d * m * s / q * q / s / m ≤ d
back_le d m s q hs =
    let t = d * m * s / q in
    let a : t * q ≤ d * m * s = div-mul-le_self (d * m * s) q in
    let u = t * q / s in
    let b : u * s ≤ t * q = div-mul-le_self (t * q) s in
    let c : u ≤ d * m = le_of_mul-le-mul_right {k = s} (omega (arith, a, b)) hs in
    div-le_of_le-mul m (rw (mul_comm m d) c)

back_ge : (d m s q : ℕ) → 0 < s → 0 < m → 0 < q → q ≤ m * s → d ≤ d * m * s / q * q / s / m + 1
back_ge d m s q hs hm hq cap_q =
    let t = d * m * s / q in
    let a : d * m * s < t * q + q = lt-div-mul-add hq in
    let u = t * q / s in
    let b : t * q < u * s + s = lt-div-mul-add hs in
    let c = u / m in
    let e : u < c * m + m = lt-div-mul-add hm in
    let f : d * m * s < (u + 1 + m) * s = omega (arith, a, b, cap_q) in
    let g : d * m < u + 1 + m = lt_of_mul-lt-mul_right s f in
    let k : d * m < (c + 2) * m = omega (arith, e, g) in
    let l : d < c + 2 = lt_of_mul-lt-mul_right m k in omega (arith, l)

-- Tokens minted for a deposit and redeemed at the same price give back no more than the deposit. If
-- the price is at most that at which one unit of collateral buys one unit of the token, they give back
-- the deposit or one unit less.
pub redeem-mint :
    (multiplier deposit price minted back : ℕ)
    → mint_amount_for_price multiplier deposit price ≡ ok minted
    → redemption_amount_for_rwa multiplier minted price ≡ ok back
    → (back ≤ deposit) × (price ≤ multiplier * e18 → deposit ≤ back + 1)
unfolding mint_amount_for_price redemption_amount_for_rwa scale_up scale_down
redeem-mint multiplier deposit price minted back e f =
    let lo = back_le deposit multiplier e18 price (omega arith) in
    let hi = back_ge deposit multiplier e18 price (omega arith) in
    (ground arith, λ le. ground (arith, hi (ground arith) (ground arith) le))
