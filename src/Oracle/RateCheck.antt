-- ===== src/Oracle/RateCheck.antt =====
-- contracts/rwaOracles/RWAOracleRateCheck.sol: a price that moves by at most 1% every 23 hours.
use usdx_v.Base.{ℕ, ◌-◌, ◌/◌, ◌%◌, List, [], ◌∷◌, ltb, ◌==◌, if◌then◌else◌}
use usdx_v.Base.Int.{ℤ, pos, ltb_ℤ, leb_ℤ}
use usdx_v.Evm.{
  Result, ok, revert, ◌>>=◌, ◌>>◌, revert_if, sub, uint_mod, external, invalid_price,
  price_update_window_violation, delta_difference_constraint_violation,
}
use usdx_v.Evm.Words.{sub_int, to_uint, mul_word, add_word, gt_word, is_zero_word}
use usdx_v.Access.{AccessControl, only_role}
use usdx_v.Roles.{default_admin_role, setter_role}

-- `MIN_PRICE_UPDATE_WINDOW`, 23 hours
abbrev pub min_price_update_window : ℕ
min_price_update_window = 82800

-- `BPS_DENOMINATOR`
abbrev pub bps_denominator : ℕ
bps_denominator = 10000

-- `MAX_CHANGE_DIFF_BPS`
abbrev pub max_change_diff_bps : ℕ
max_change_diff_bps = 100

pub data Event : Type 0 where
  rwa_price_set : (old_price new_price : ℤ) (timestamp : ℕ) → Event

pub record Oracle (R : Type 0) : Type 0 where
  pub log : List Event
  pub roles : R
  pub rwa_price : ℤ
  pub price_timestamp : ℕ

-- `mulDivUp`: the assembly, whose `revert(0, 0)` carries no error.
unfoldable pub mul_div_up : (x y denominator : ℕ) → Result ℕ
mul_div_up x y denominator =
    if mul_word denominator (is_zero_word (mul_word y (gt_word x ((uint_mod - 1) / y)))) == 0
    then revert external
    else ok (add_word (gt_word (mul_word x y % denominator) 0) (mul_word x y / denominator))

-- `_getPriceChangeBps`
unfoldable pub price_change_bps : (previous new : ℤ) → Result ℕ
price_change_bps previous new = do
  change ← if ltb_ℤ previous new then sub_int new previous else sub_int previous new
  mul_div_up (to_uint change) bps_denominator (to_uint previous)

module _ ⦃ac : AccessControl⦄ where
  -- The constructor, in a block of the time `now`.
  unfoldable pub deploy_oracle :
      (now admin setter : ℕ) (initial_price : ℤ) → Result (Oracle ac.Roles)
  deploy_oracle now admin setter initial_price = do
    revert_if (leb_ℤ initial_price (pos 0)) invalid_price
    ok (record {
      log = rwa_price_set (pos 0) initial_price now ∷ [];
      roles = ac.grant setter_role setter (ac.grant default_admin_role admin ac.no_roles);
      rwa_price = initial_price;
      price_timestamp = now;
    })

  -- `setPrice`
  unfoldable pub set_price :
      (sender now : ℕ) (new_price : ℤ) → Oracle ac.Roles → Result (Oracle ac.Roles)
  set_price sender now new_price s = do
    only_role s.roles setter_role sender
    revert_if (leb_ℤ new_price (pos 0)) invalid_price
    elapsed ← sub now s.price_timestamp
    revert_if (ltb elapsed min_price_update_window) price_update_window_violation
    change_bps ← price_change_bps s.rwa_price new_price
    revert_if (ltb max_change_diff_bps change_bps) delta_difference_constraint_violation
    ok (record s {
      log = rwa_price_set s.rwa_price new_price now ∷ s.log;
      rwa_price = new_price;
      price_timestamp = now;
    })

-- `getPriceData`
module _ {R : Type 0} where
  unfoldable pub get_price_data : Oracle R → ℕ × ℕ
  get_price_data s = (to_uint s.rwa_price, s.price_timestamp)
