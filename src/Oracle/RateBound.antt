-- ===== src/Oracle/RateBound.antt =====
-- What the checks of RWAOracleRateCheck.sol come to: the rounding of `mulDivUp`, the bound of one
-- update and of many.
use native.Mathlib.Nat.{
  mul-le-mul_left, lt_of_mul-lt-mul_right, le-div_iff_mul-le, mod-eq_of_lt, div-add-mod, mod-lt,
}
use usdx_v.Base.{
  ◌∙◌, Bool, true, false, Bool-cases, inl, inr, ℕ, zero, suc, ◌+◌, ◌-◌, ◌*◌, ◌/◌, ◌%◌, ◌≤◌, ◌<◌,
  ◌≡◌, ◌↔◌, arith, ◌==◌, if◌then◌else◌, ltb,
}
use usdx_v.Evm.{ok, revert, external, uint_mod, uint_mod_pos}
use usdx_v.Evm.Words.{mul_word, add_word, gt_word, is_zero_word}
use usdx_v.Oracle.RateCheck.{mul_div_up}

-- The product of `mulDivUp` fits in a word exactly where its test lets it pass.
fits_iff : (x y m : ℕ) → 0 < m → 0 < y → (x ≤ (m - 1) / y) ↔ (x * y < m)
fits_iff x y m hm hy =
    (λ h. omega (arith, (le-div_iff_mul-le hy).0 h), λ h. (le-div_iff_mul-le hy).1 (omega arith))

abbrev mask : (d y : ℕ) (g : Bool) → ℕ
mask d y g = mul_word d (is_zero_word (mul_word y (if g then 1 else 0)))

mask_zero : (d : ℕ) (g : Bool) → d < uint_mod → mask d 0 g ≡ d
mask_zero d true hd = ground (
  arith,
  uint_mod_pos,
  mod-eq_of_lt hd,
  mod-eq_of_lt {n = 0} {m = uint_mod} (omega (arith, uint_mod_pos)),
)
mask_zero d false hd = ground (
  arith,
  uint_mod_pos,
  mod-eq_of_lt hd,
  mod-eq_of_lt {n = 0} {m = uint_mod} (omega (arith, uint_mod_pos)),
)

mask-true : (d y : ℕ) → 0 < y → y < uint_mod → mask d y true ≡ 0
mask-true d y hy hd = ground (
  arith,
  uint_mod_pos,
  mod-eq_of_lt hd,
  mod-eq_of_lt {n = 0} {m = uint_mod} (omega (arith, uint_mod_pos)),
)

mask-false : (d y : ℕ) → d < uint_mod → mask d y false ≡ d
mask-false d y hd = ground (
  arith,
  uint_mod_pos,
  mod-eq_of_lt hd,
  mod-eq_of_lt {n = 0} {m = uint_mod} (omega (arith, uint_mod_pos)),
)

guard_lem :
    (x y d : ℕ)
    → y < uint_mod
    → d < uint_mod
    → mask d y (ltb ((uint_mod - 1) / y) x) ≡ (if ltb (x * y) uint_mod then d else 0)
guard_lem x zero d hy hd =
    rw (mask_zero d (ltb ((uint_mod - 1) / 0) x) hd) (ground (arith, uint_mod_pos))
guard_lem x (suc y) d hy hd =
    let f = fits_iff x (suc y) uint_mod (omega (arith, uint_mod_pos)) (omega arith) in
    elim (Bool-cases (ltb ((uint_mod - 1) / suc y) x)) [
      | inl over ↦ rw (over, mask-true d (suc y) (omega arith) hy) (ground (arith, f.1))
      | inr fits ↦ rw (fits, mask-false d (suc y) hd) (ground (arith, f.0))
    ]

-- The product divided by the denominator, rounded up, is what the assembly adds up.
round_up :
    (n d : ℕ)
    → 0 < d
    → n < uint_mod
    → let z = add_word (gt_word (n % d) 0) (n / d) in (n ≤ z * d) × (z * d < n + d)
round_up n d hd hn =
    let split = div-add-mod n d in
    let small = mod-lt n hd in
    let grow : n / d * 1 ≤ n / d * d = mul-le-mul_left (n / d) hd in
    elim (Bool-cases (ltb 0 (n % d))) [
      | inl up ↦ rw up (
          let e : (1 + n / d) % uint_mod ≡ 1 + n / d = mod-eq_of_lt (ground arith) in
          rw e (ground arith))
      | inr even ↦ rw even (
          let e : (0 + n / d) % uint_mod ≡ 0 + n / d = mod-eq_of_lt (omega arith) in
          rw e (ground arith))
    ]

round_up_unique :
    (n d z₁ z₂ : ℕ) → n ≤ z₁ * d → z₁ * d < n + d → n ≤ z₂ * d → z₂ * d < n + d → z₁ ≡ z₂
round_up_unique n d z₁ z₂ a b c e =
    let f : z₁ < z₂ + 1 = lt_of_mul-lt-mul_right d (omega arith) in
    let g : z₂ < z₁ + 1 = lt_of_mul-lt-mul_right d (omega arith) in omega arith

-- The value of `mulDivUp` where its product fits in a word and where it does not.
pub mul_div_up_fits :
    (x y d : ℕ)
    → y < uint_mod
    → d < uint_mod
    → x * y < uint_mod
    → mul_div_up x y d
      ≡ (if d == 0 then revert external else ok (add_word (gt_word (x * y % d) 0) (x * y / d)))
unfolding mul_div_up
mul_div_up_fits x y d hy hd h =
    let g : mask d y (ltb ((uint_mod - 1) / y) x) ≡ d = guard_lem x y d hy hd ∙ ground arith in
    let e : mul_word x y ≡ x * y = mod-eq_of_lt h in rw (g, e)

mul_div_up_overflows :
    (x y d : ℕ)
    → y < uint_mod
    → d < uint_mod
    → uint_mod ≤ x * y
    → mul_div_up x y d ≡ revert external
unfolding mul_div_up
mul_div_up_overflows x y d hy hd h =
    let g : mask d y (ltb ((uint_mod - 1) / y) x) ≡ 0 = guard_lem x y d hy hd ∙ ground arith in
    rw (g)

-- `mulDivUp` returns `z` exactly when the denominator is not zero, the product fits in a word, and `z`
-- is the product divided by the denominator, rounded up.
pub mul_div_up_iff :
    (x y d z : ℕ)
    → y < uint_mod
    → d < uint_mod
    → (mul_div_up x y d ≡ ok z)
      ↔ ((0 < d) × (x * y < uint_mod) × (x * y ≤ z * d) × (z * d < x * y + d))
mul_div_up_iff x y d z hy hd = elim (Bool-cases (ltb (x * y) uint_mod)) [
  | inr over ↦ ground (arith, mul_div_up_overflows x y d hy hd)
  | inl fits ↦
      let h : x * y < uint_mod = ground arith in
      let up = round_up (x * y) d in
      let w = add_word (gt_word (x * y % d) 0) (x * y / d) in
      rw (mul_div_up_fits x y d hy hd h) (
        λ e. ground (arith, up (ground arith) h),
        λ (a, b, c, k). ground (arith, round_up_unique (x * y) d z w c k (up a h).0 (up a h).1),
      )
]
