-- ===== src/Tests/Order.antt =====
-- Two orders of a batch of price ids.
use mathlib.Core.List.Permᴰ.{swap}
use usdx_v.Base.{◌≡◌, refl, [], ◌∷◌}
use usdx_v.Evm.{ok}
use usdx_v.Roles.{price_id_setter_role}
use usdx_v.Hub.Prices.{for_each_pair, set_deposit_price_id, set_price_id_for_deposits}
use usdx_v.Hub.Order.{events, set_price_id_for_deposits-order}
use usdx_v.Tests.Chain.{table_access, ledger_peers}
use usdx_v.Tests.Hub.{State, left_by, manager}

-- Every deposit is of the account 7 and has no price id; the account 12 sets them.
abbrev unpriced : State
unpriced = record manager {
  roles = table_access.grant price_id_setter_role 12 table_access.no_roles;
  deposits = λ i. record { user = 7; amount_deposited_minus_fees = 100; price_id = 0 };
}

abbrev one_way : State
unfolding set_price_id_for_deposits for_each_pair set_deposit_price_id
one_way = left_by (set_price_id_for_deposits 12 (4 ∷ 5 ∷ []) (1 ∷ 2 ∷ []) unpriced) unpriced

prices_one_way : set_price_id_for_deposits 12 (4 ∷ 5 ∷ []) (1 ∷ 2 ∷ []) unpriced ≡ ok one_way
unfolding set_price_id_for_deposits for_each_pair set_deposit_price_id one_way
prices_one_way = refl

set_price_id_for_deposits-order_example :
    set_price_id_for_deposits 12 (5 ∷ 4 ∷ []) (2 ∷ 1 ∷ []) unpriced
    ≡ ok (record one_way { log = events ((5, 2) ∷ (4, 1) ∷ []) unpriced.log })
set_price_id_for_deposits-order_example =
    set_price_id_for_deposits-order 12 ((4, 1) ∷ (5, 2) ∷ []) ((5, 2) ∷ (4, 1) ∷ []) unpriced
      one_way (swap refl refl) refl prices_one_way
