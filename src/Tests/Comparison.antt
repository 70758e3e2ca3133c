-- ===== src/Tests/Comparison.antt =====
-- RWAOracleExternalComparisonCheck at concrete inputs.
use usdx_v.Base.{ℕ, ◌+◌, ◌*◌, ◌/◌, ◌≤◌, ◌<◌, ◌≡◌, ◌≢◌, refl, []}
use usdx_v.Base.Int.{◌-ℤ◌, magnitude, pos}
use usdx_v.Evm.{ok, revert, uint_mod}
use usdx_v.Evm.Words.{int_max}
use usdx_v.Roles.{setter_role}
use usdx_v.Oracle.Drift.{gap}
use usdx_v.Oracle.Comparison.{
  Comparison, Round, latest_round, signed_change_bps, abs_unsigned, check_timing, compare_change,
  store_price, set_compared_price, get_compared_price_data,
}
use usdx_v.Oracle.Comparing.{basis_points}
use usdx_v.Oracle.Compared.{
  zero_answer_blocks, set_compared_price_bounds, set_compared_price_follows,
}
use usdx_v.Tests.Chain.{table_access}

abbrev State : Type 0
State = Comparison table_access.Roles

-- The stored round of Chainlink, and a later one with an answer 0.3% higher.
abbrev old_round : Round
old_round = record {
  round_id = 1;
  answer = pos 11000000000;
  started_at = 900;
  updated_at = 900;
  answered_in_round = 1;
}

abbrev later_round : Round
later_round = record {
  round_id = 2;
  answer = pos 11033000000;
  started_at = 90000;
  updated_at = 90000;
  answered_in_round = 2;
}

abbrev oracle : State
oracle = record {
  log = [];
  roles = table_access.grant setter_role 8 table_access.no_roles;
  rwa_price = pos 1000000000000000000;
  price_timestamp = 1000;
  last_set_round = old_round;
}

-- The price is raised by 0.5%.
abbrev raised : State
unfolding set_compared_price latest_round signed_change_bps abs_unsigned check_timing compare_change
    store_price int_max uint_mod
raised = elim (set_compared_price 8 90500 (ok later_round) (pos 1005000000000000000) oracle) [
  | ok s ↦ s
  | revert x ↦ oracle
]

oracle_raises :
    set_compared_price 8 90500 (ok later_round) (pos 1005000000000000000) oracle ≡ ok raised
unfolding set_compared_price latest_round signed_change_bps abs_unsigned check_timing compare_change
    store_price int_max uint_mod raised
oracle_raises = refl

set_compared_price_bounds_example :
    (round : Round) × (n : ℕ) × (ok later_round ≡ ok round)
    × (pos 1005000000000000000 ≡ pos n)
    × (0 < n)
    × (oracle.price_timestamp + 82800 ≤ 90500)
    × (round.round_id ≢ oracle.last_set_round.round_id)
    × (round.updated_at ≤ 90500)
    × (90500 ≤ round.updated_at + 90000)
    × (gap 1000000000000000000 n * 10000 < 201 * 1000000000000000000)
    × (raised.rwa_price ≡ pos n)
    × (raised.price_timestamp ≡ 90500)
    × (raised.last_set_round ≡ round)
set_compared_price_bounds_example =
    set_compared_price_bounds 8 90500 1000000000000000000 (ok later_round) (pos 1005000000000000000)
      oracle raised refl oracle_raises

set_compared_price_follows_example :
    (n : ℕ) × (y : ℕ) × (pos 1005000000000000000 ≡ pos n)
    × (raised.last_set_round.answer ≡ pos y)
    × (0 < 1000000000000000000)
    × (0 < 11000000000)
    × (gap 1000000000000000000 n * 10000 / 1000000000000000000 ≤ 200)
    × (gap 11000000000 y * 10000 / 11000000000 ≤ 274
        → magnitude (basis_points 1000000000000000000 n -ℤ basis_points 11000000000 y) ≤ 74)
set_compared_price_follows_example =
    set_compared_price_follows 8 90500 1000000000000000000 11000000000 (ok later_round)
      (pos 1005000000000000000) oracle raised refl refl oracle_raises

raised_data : get_compared_price_data raised ≡ (1005000000000000000, 90500)
unfolding set_compared_price latest_round signed_change_bps abs_unsigned check_timing compare_change
    store_price int_max uint_mod raised get_compared_price_data
raised_data = refl

-- A round of Chainlink with the answer 0, with which the price is set once.
abbrev zero_round : Round
zero_round = record later_round { answer = pos 0 }

abbrev stuck : State
unfolding set_compared_price latest_round signed_change_bps abs_unsigned check_timing compare_change
    store_price int_max uint_mod
stuck = elim (set_compared_price 8 90500 (ok zero_round) (pos 1005000000000000000) oracle) [
  | ok s ↦ s
  | revert x ↦ oracle
]

oracle_takes_zero :
    set_compared_price 8 90500 (ok zero_round) (pos 1005000000000000000) oracle ≡ ok stuck
unfolding set_compared_price latest_round signed_change_bps abs_unsigned check_timing compare_change
    store_price int_max uint_mod stuck
oracle_takes_zero = refl

stuck_at_zero : stuck.last_set_round.answer ≡ pos 0
unfolding set_compared_price latest_round signed_change_bps abs_unsigned check_timing compare_change
    store_price int_max uint_mod stuck
stuck_at_zero = refl

-- A day later Chainlink has recovered.
abbrev next_round : Round
next_round = record {
  round_id = 3;
  answer = pos 11033000000;
  started_at = 180000;
  updated_at = 180000;
  answered_in_round = 3;
}

zero_answer_blocks_example :
    set_compared_price 8 180500 (ok next_round) (pos 1005000000000000000) stuck ≢ ok raised
zero_answer_blocks_example =
    zero_answer_blocks 8 180500 (ok next_round) (pos 1005000000000000000) stuck raised stuck_at_zero
