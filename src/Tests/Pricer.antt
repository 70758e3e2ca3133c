-- ===== src/Tests/Pricer.antt =====
-- Pricer at concrete inputs.
use usdx_v.Base.{ℕ, ◌<◌, ◌≡◌, ◌↔◌, refl}
use usdx_v.Evm.{Result, ok, revert, uint_mod}
use usdx_v.Pricer.State.{Pricer, deploy_pricer, add_price, push_price, get_latest_price}
use usdx_v.Pricer.Latest.{Reach, deployed, added, get_latest_price_pos}
use usdx_v.Tests.Chain.{table_access}

abbrev State : Type 0
State = Pricer table_access.Roles

abbrev left_by : Result State → State → State
left_by r s = elim r [ ok s' ↦ s' | revert x ↦ s ]

-- The account 8 adds a price of the time 100 and then an earlier one.
abbrev new_pricer : State
unfolding deploy_pricer
new_pricer = deploy_pricer 9 8

abbrev one_price : State
unfolding add_price push_price uint_mod new_pricer deploy_pricer
one_price = left_by (add_price 8 1050000000000000000 100 new_pricer) new_pricer

abbrev two_prices : State
unfolding add_price push_price uint_mod one_price new_pricer deploy_pricer
two_prices = left_by (add_price 8 1040000000000000000 90 one_price) one_price

first_added : add_price 8 1050000000000000000 100 (deploy_pricer 9 8) ≡ ok one_price
unfolding add_price push_price uint_mod one_price new_pricer deploy_pricer
first_added = refl

second_added : add_price 8 1040000000000000000 90 one_price ≡ ok two_prices
unfolding add_price push_price uint_mod two_prices one_price new_pricer deploy_pricer
second_added = refl

two_prices_reached : Reach two_prices
two_prices_reached =
    added 8 1040000000000000000 90 two_prices
      (added 8 1050000000000000000 100 one_price (deployed 9 8) first_added) second_added

get_latest_price_pos_example :
    (0 < get_latest_price two_prices) ↔ ((i : ℕ) × (0 < (two_prices.prices i).timestamp))
get_latest_price_pos_example = get_latest_price_pos two_prices two_prices_reached
