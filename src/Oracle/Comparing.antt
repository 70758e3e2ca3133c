-- ===== src/Oracle/Comparing.antt =====
-- What the checks of `setPrice` of RWAOracleExternalComparisonCheck.sol compute, and what a call that
-- returns has passed.
use usdx_v.Base.{
  ℕ, ◌+◌, ◌*◌, ◌/◌, ◌≤◌, ◌<◌, ◌≡◌, ◌≢◌, inl, inr, sym, refl, arith, true, false, ◌-◌, ◌⊎◌, ltb,
  if◌then◌else◌,
}
use usdx_v.Base.Int.{ℤ, ◌-ℤ◌, magnitude, leb_ℤ, pos, negsuc, sub_ℕ}
use usdx_v.Evm.{Result, ok, Result-cases}
use usdx_v.Evm.Words.{sub_int, checked_int}
use usdx_v.Access.{AccessControl}
use usdx_v.Roles.{setter_role}
use usdx_v.Oracle.Drift.{gap}
use usdx_v.Oracle.Comparison.{
  Comparison, Round, latest_round, signed_change_bps, abs_unsigned, check_timing, compare_change,
  store_price, set_compared_price, max_cl_window, min_price_update_window, max_absolute_diff_bps,
  max_change_diff_bps,
}

-- No change from a price of zero can be computed.
change_from_zero : (new b : ℤ) → signed_change_bps (pos 0) new ≢ ok b
unfolding signed_change_bps
change_from_zero new b e = ground arith

-- The size of a computed change is the exact change in basis points, rounded down.
pub change_size :
    (a n size : ℕ) (b : ℤ)
    → signed_change_bps (pos a) (pos n) ≡ ok b
    → abs_unsigned b ≡ ok size
    → (0 < a) × (size ≡ gap a n * 10000 / a)
unfolding signed_change_bps abs_unsigned
change_size a n size b e f = ground arith

abs_lem : (x : ℤ) (size : ℕ) → abs_unsigned x ≡ ok size → size ≡ magnitude x
unfolding abs_unsigned
abs_lem x size e = ground arith

checked_int_lem : (x y : ℤ) → checked_int x ≡ ok y → y ≡ x
checked_int_lem (pos n) y e = ground arith
checked_int_lem (negsuc n) y e = ground arith

sub_int_lem : (a b c : ℤ) → sub_int a b ≡ ok c → c ≡ a -ℤ b
sub_int_lem a b c e = checked_int_lem (a -ℤ b) c e

ℤ-cases : (z : ℤ) → ((n : ℕ) × (z ≡ pos n)) ⊎ ((m : ℕ) × (z ≡ negsuc m))
ℤ-cases (pos n) = inl (n, refl)
ℤ-cases (negsuc m) = inr (m, refl)

-- The change from `a` to `n` in basis points of `a`, rounded towards zero, with its sign.
abbrev pub basis_points : ℕ → ℕ → ℤ
basis_points a n = if ltb n a then sub_ℕ 0 ((a - n) * 10000 / a) else pos ((n - a) * 10000 / a)

pub change_exact :
    (a n : ℕ) (b : ℤ) → signed_change_bps (pos a) (pos n) ≡ ok b → (0 < a) × (b ≡ basis_points a n)
unfolding signed_change_bps
change_exact a n b e = ground arith

pub size_exact : (a n : ℕ) → magnitude (basis_points a n) ≡ gap a n * 10000 / a
size_exact a n = ground arith

-- The Chainlink answer of a round that `latest_round` lets through is not negative.
pub answer_pos :
    (now : ℕ) (answered : Result Round) (round : Round)
    → latest_round now answered ≡ ok round
    → (y : ℕ) × (round.answer ≡ pos y)
unfolding latest_round
answer_pos now answered round e = elim (ℤ-cases round.answer) [
  | inl (y, at) ↦ (y, at)
  | inr (m, at) ↦ absurd (ground arith)
]

pub price_pos : (new : ℤ) → leb_ℤ new (pos 0) ≡ false → (n : ℕ) × (new ≡ pos n)
price_pos (pos n) e = (n, refl)
price_pos (negsuc m) e = absurd (ground arith)

module _ {R : Type 0} where
  -- The comparison passes only if the Chainlink price moved by more than 274 basis points, or the two
  -- changes are at most 74 basis points apart.
  pub compare_close :
      (b : ℤ) (round : Round) (s s' : Comparison R)
      → compare_change b round s ≡ ok s'
      → (c : ℤ) × (signed_change_bps s.last_set_round.answer round.answer ≡ ok c)
        × (magnitude c ≤ max_absolute_diff_bps + max_change_diff_bps
            → magnitude (b -ℤ c) ≤ max_change_diff_bps)
  unfolding compare_change
  compare_close b round s s' e =
      elim (Result-cases (signed_change_bps s.last_set_round.answer round.answer)) [
        | inr (x, f) ↦ absurd (ground arith)
        | inl (c, f) ↦ elim (Result-cases (abs_unsigned c)) [
          | inr (x, g) ↦ absurd (ground arith)
          | inl (z, g) ↦ (
            c,
            f,
            λ le.
                (let size = abs_lem c z g in
                  elim (Result-cases (sub_int b c)) [
                    | inr (x, k) ↦ absurd (ground arith)
                    | inl (gap_bps, k) ↦ elim (Result-cases (abs_unsigned gap_bps)) [
                      | inr (x, m) ↦ absurd (ground arith)
                      | inl (d, m) ↦
                          (let near : d ≤ max_change_diff_bps = ground arith in
                            let same : d ≡ magnitude gap_bps = abs_lem gap_bps d m in
                            let exact : gap_bps ≡ b -ℤ c = sub_int_lem b c gap_bps k in
                            rw (sym exact, sym same) near)
                    ]
                  ]),
          )
        ]
      ]

  pub compare_frame :
      (b : ℤ) (round : Round) (s s' : Comparison R)
      → compare_change b round s ≡ ok s'
      → s.last_set_round.answer ≢ pos 0
  unfolding compare_change
  compare_frame b round s s' e z =
      elim (Result-cases (signed_change_bps s.last_set_round.answer round.answer)) [
        | inl (c, f) ↦ change_from_zero round.answer c (rw z at f)
        | inr (x, f) ↦ ground arith
      ]

  pub timing_lem :
      (now : ℕ) (round : Round) (s : Comparison R)
      → check_timing now round s ≡ ok tt
      → (now ≤ round.updated_at + max_cl_window)
        × (round.round_id ≢ s.last_set_round.round_id)
        × (s.price_timestamp + min_price_update_window ≤ now)
  unfolding check_timing
  timing_lem now round s e = ground arith

module _ ⦃ac : AccessControl⦄ where
  -- What a price that was set has passed.
  pub record IsCompared (sender now : ℕ) (answered : Result Round) (new : ℤ)
      (s s' : Comparison ac.Roles) : Type 0 where
    pub round : Round
    pub change_bps : ℤ
    pub size : ℕ
    pub compared : Comparison ac.Roles
    pub role : ac.has_role s.roles setter_role sender ≡ true
    pub positive : leb_ℤ new (pos 0) ≡ false
    pub sane : latest_round now answered ≡ ok round
    pub timely : check_timing now round s ≡ ok tt
    pub changed : signed_change_bps s.rwa_price new ≡ ok change_bps
    pub sized : abs_unsigned change_bps ≡ ok size
    pub small : size ≤ max_absolute_diff_bps
    pub comparison : compare_change change_bps round s ≡ ok compared
    pub stored : s' ≡ store_price s now new round compared

  pub set_compared_price_steps :
      (sender now : ℕ) (answered : Result Round) (new : ℤ) (s s' : Comparison ac.Roles)
      → set_compared_price sender now answered new s ≡ ok s'
      → IsCompared sender now answered new s s'
  unfolding set_compared_price
  set_compared_price_steps sender now answered new s s' e =
      elim (Result-cases (latest_round now answered)) [
        | inr (x, f) ↦ absurd (ground arith)
        | inl (round, f₁) ↦ elim (Result-cases (signed_change_bps s.rwa_price new)) [
          | inr (x, f) ↦ absurd (ground arith)
          | inl (b, f₂) ↦ elim (Result-cases (abs_unsigned b)) [
            | inr (x, f) ↦ absurd (ground arith)
            | inl (size, f₃) ↦ elim (Result-cases (compare_change b round s)) [
              | inr (x, f) ↦ absurd (ground arith)
              | inl (s₁, f₄) ↦ record {
                round = round;
                change_bps = b;
                size = size;
                compared = s₁;
                role = ground arith;
                positive = ground arith;
                sane = f₁;
                timely = ground arith;
                changed = f₂;
                sized = f₃;
                small = ground arith;
                comparison = f₄;
                stored = ground arith;
              }
            ]
          ]
        ]
      ]
