-- ===== src/Tests/Oracle.antt =====
-- RWAOracleRateCheck at concrete inputs.
use usdx_v.Base.{ℕ, true, ◌+◌, ◌*◌, ◌≤◌, ◌<◌, ◌≡◌, ◌↔◌, refl, arith, []}
use usdx_v.Base.Int.{pos, negsuc, leb_ℤ}
use usdx_v.Evm.{Result, ok, revert, uint_mod, invalid_price}
use usdx_v.Evm.Words.{int_max}
use usdx_v.Roles.{setter_role}
use usdx_v.Oracle.RateCheck.{Oracle, mul_div_up, price_change_bps, set_price}
use usdx_v.Oracle.RateBound.{mul_div_up_iff}
use usdx_v.Oracle.Acceptance.{IsAcceptable, updated, set_price_iff}
use usdx_v.Oracle.Drift.{here, next, IsDrift, Updates-IsDrift}
use usdx_v.Tests.Chain.{table_access}

abbrev State : Type 0
State = Oracle table_access.Roles

abbrev left_by : Result State → State → State
left_by r s = elim r [ ok s' ↦ s' | revert x ↦ s ]

-- A price of 1 at the time 1000, which the account 8 sets to 1.009 a day later.
abbrev oracle : State
oracle = record {
  log = [];
  roles = table_access.grant setter_role 8 table_access.no_roles;
  rwa_price = pos 1000000000000000000;
  price_timestamp = 1000;
}

abbrev raised : State
unfolding set_price price_change_bps mul_div_up uint_mod int_max
raised = left_by (set_price 8 87400 (pos 1009000000000000000) oracle) oracle

oracle_raises : set_price 8 87400 (pos 1009000000000000000) oracle ≡ ok raised
unfolding set_price price_change_bps mul_div_up uint_mod int_max raised
oracle_raises = refl

mul_div_up_iff_example :
    (mul_div_up 7 10000 3 ≡ ok 23334)
    ↔ ((0 < 3) × (7 * 10000 < uint_mod) × (7 * 10000 ≤ 23334 * 3) × (23334 * 3 < 7 * 10000 + 3))
unfolding uint_mod
mul_div_up_iff_example = mul_div_up_iff 7 10000 3 23334 (ground arith) (ground arith)

set_price_iff_example :
    ((set_price 8 87400 (pos 1009000000000000000) oracle ≡ ok raised) ↔ (
      (n : ℕ) × (pos 1009000000000000000 ≡ pos n)
      × IsAcceptable 8 87400 1000000000000000000 n oracle
      × (raised ≡ updated 87400 n oracle)))
    × (table_access.has_role oracle.roles setter_role 8 ≡ true
        → leb_ℤ (pos 1009000000000000000) (pos 0) ≡ true
        → set_price 8 87400 (pos 1009000000000000000) oracle ≡ revert invalid_price)
unfolding int_max
set_price_iff_example =
    set_price_iff 8 87400 1000000000000000000 (pos 1009000000000000000) oracle raised refl
      (ground arith) (ground arith) refl

-- The same at a price of -1, which is refused.
set_price_refused : set_price 8 87400 (negsuc 0) oracle ≡ revert invalid_price
unfolding set_price
set_price_refused = refl

Updates-IsDrift_example : IsDrift 1 1000000000000000000 1000 raised
unfolding int_max
Updates-IsDrift_example =
    Updates-IsDrift oracle 1000000000000000000 1 raised refl (ground arith) (ground arith)
      (next 8 87400 1009000000000000000 raised here (ground arith) oracle_raises)
