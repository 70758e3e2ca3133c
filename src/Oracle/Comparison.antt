-- ===== src/Oracle/Comparison.antt =====
-- contracts/rwaOracles/RWAOracleExternalComparisonCheck.sol: a price whose changes are held against
-- those of a Chainlink oracle. `sender` is msg.sender and `now` is block.timestamp.
use usdx_v.Base.{ℕ, ◌+◌, not, ◌||◌, List, [], ◌∷◌, ltb, ◌==◌, if◌then◌else◌}
use usdx_v.Base.Int.{ℤ, pos, ltb_ℤ, leb_ℤ}
use usdx_v.Evm.{
  Result, ok, ◌>>=◌, ◌>>◌, revert_if, add, invalid_address, invalid_rwa_price,
  corrupted_chainlink_response, chainlink_oracle_price_stale, chainlink_round_not_updated,
  price_update_window_violation, absolute_difference_constraint_violated,
  delta_difference_constraint_violation,
}
use usdx_v.Evm.Words.{sub_int, mul_int, div_int, to_uint}
use usdx_v.Access.{AccessControl, only_role}
use usdx_v.Roles.{default_admin_role, setter_role}

-- `MAX_CL_WINDOW`, 25 hours
abbrev pub max_cl_window : ℕ
max_cl_window = 90000

-- `BPS_DENOMINATOR`
abbrev pub bps_denominator : ℤ
bps_denominator = pos 10000

-- `MAX_CHANGE_DIFF_BPS`
abbrev pub max_change_diff_bps : ℕ
max_change_diff_bps = 74

-- `MAX_ABSOLUTE_DIFF_BPS`
abbrev pub max_absolute_diff_bps : ℕ
max_absolute_diff_bps = 200

-- `MIN_PRICE_UPDATE_WINDOW`, 23 hours
abbrev pub min_price_update_window : ℕ
min_price_update_window = 82800

-- `struct ChainlinkRoundData`
pub record Round : Type 0 where
  pub round_id : ℕ
  pub answer : ℤ
  pub started_at : ℕ
  pub updated_at : ℕ
  pub answered_in_round : ℕ

pub data Event : Type 0 where
  chainlink_price_ignored :
      (old_answer : ℤ) (old_round_id : ℕ) (new_answer : ℤ) (new_round_id : ℕ) → Event
  external_comparison_check_price_set :
      (old_answer : ℤ) (old_round_id : ℕ) (new_answer : ℤ) (new_round_id : ℕ)
      (old_price new_price : ℤ)
      → Event

pub record Comparison (R : Type 0) : Type 0 where
  pub log : List Event
  pub roles : R
  pub rwa_price : ℤ
  pub price_timestamp : ℕ
  pub last_set_round : Round

-- `_getLatestChainlinkRoundData`, where `answered` is what `chainlinkOracle.latestRoundData()` does.
unfoldable pub latest_round : (now : ℕ) (answered : Result Round) → Result Round
latest_round now answered = do
  round ← answered
  revert_if
      (ltb_ℤ round.answer (pos 0)
        || not (round.round_id == round.answered_in_round)
        || round.round_id == 0
        || round.updated_at == 0
        || ltb now round.updated_at)
      corrupted_chainlink_response
  ok round

-- `_getPriceChangeBps`
unfoldable pub signed_change_bps : (previous new : ℤ) → Result ℤ
signed_change_bps previous new = do
  change ← sub_int new previous
  product ← mul_int change bps_denominator
  div_int product previous

-- `_abs_unsigned`; the negation reverts on the least int256.
unfoldable pub abs_unsigned : ℤ → Result ℕ
abs_unsigned x =
    if leb_ℤ (pos 0) x then ok (to_uint x) else do negated ← sub_int (pos 0) x; ok (to_uint negated)

module _ {R : Type 0} where
  -- The checks of `setPrice` on the round and on the time.
  unfoldable pub check_timing : (now : ℕ) (round : Round) → Comparison R → Result (Unit {0})
  check_timing now round s = do
    fresh_until ← add round.updated_at max_cl_window
    revert_if (ltb fresh_until now) chainlink_oracle_price_stale
    revert_if (round.round_id == s.last_set_round.round_id) chainlink_round_not_updated
    open_from ← add s.price_timestamp min_price_update_window
    revert_if (ltb now open_from) price_update_window_violation

  -- The end of `setPrice`: the event, with the values of the state `s` before, and the new values.
  unfoldable pub store_price :
      (s : Comparison R) (now : ℕ) (new_price : ℤ) (round : Round) → Comparison R → Comparison R
  store_price s now new_price round s₁ = record s₁ {
    log =
        external_comparison_check_price_set s.last_set_round.answer s.last_set_round.round_id
          round.answer round.round_id s.rwa_price new_price
        ∷ s₁.log;
    rwa_price = new_price;
    price_timestamp = now;
    last_set_round = round;
  }

  -- `getPriceData`
  unfoldable pub get_compared_price_data : Comparison R → ℕ × ℕ
  get_compared_price_data s = (to_uint s.rwa_price, s.price_timestamp)

  -- The last check of `setPrice`, against the change of the Chainlink price; it returns the state with
  -- the event that the Chainlink price was ignored, where it was.
  unfoldable pub compare_change :
      (change_bps : ℤ) (round : Round) → Comparison R → Result (Comparison R)
  unfolding signed_change_bps abs_unsigned
  compare_change change_bps round s = do
    chainlink_change_bps ← signed_change_bps s.last_set_round.answer round.answer
    size ← abs_unsigned chainlink_change_bps
    if not (ltb (max_absolute_diff_bps + max_change_diff_bps) size)
        then (do
          gap ← sub_int change_bps chainlink_change_bps
          difference ← abs_unsigned gap
          revert_if (ltb max_change_diff_bps difference) delta_difference_constraint_violation
          ok s)
        else ok (record s {
          log =
              chainlink_price_ignored s.last_set_round.answer s.last_set_round.round_id round.answer
                round.round_id
              ∷ s.log;
        })

module _ ⦃ac : AccessControl⦄ where
  -- The constructor; `decimals` and `answered` are what the Chainlink oracle answers.
  unfoldable pub deploy_comparison :
      (now : ℕ) (decimals : Result ℕ) (answered : Result Round) (initial_price : ℤ)
      (admin setter : ℕ)
      → Result (Comparison ac.Roles)
  unfolding latest_round
  deploy_comparison now decimals answered initial_price admin setter = do
    revert_if (admin == 0 || setter == 0) invalid_address
    d ← decimals
    revert_if (not (d == 8)) corrupted_chainlink_response
    round ← latest_round now answered
    fresh_until ← add round.updated_at max_cl_window
    revert_if (ltb fresh_until now) chainlink_oracle_price_stale
    ok (record {
      log = [];
      roles = ac.grant setter_role setter (ac.grant default_admin_role admin ac.no_roles);
      rwa_price = initial_price;
      price_timestamp = now;
      last_set_round = round;
    })

  -- `setPrice`
  unfoldable pub set_compared_price :
      (sender now : ℕ) (answered : Result Round) (new_price : ℤ)
      → Comparison ac.Roles
      → Result (Comparison ac.Roles)
  unfolding latest_round signed_change_bps abs_unsigned compare_change
  set_compared_price sender now answered new_price s = do
    only_role s.roles setter_role sender
    revert_if (leb_ℤ new_price (pos 0)) invalid_rwa_price
    round ← latest_round now answered
    check_timing now round s
    change_bps ← signed_change_bps s.rwa_price new_price
    size ← abs_unsigned change_bps
    revert_if (ltb max_absolute_diff_bps size) absolute_difference_constraint_violated
    s₁ ← compare_change change_bps round s
    ok (store_price s now new_price round s₁)
