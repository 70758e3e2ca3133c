-- ===== src/Tests/Completing.antt =====
-- A subscription that is requested, priced, timed and claimed.
use usdx_v.Base.{◌-◌, ◌≡◌, refl, arith, [], ◌∷◌}
use usdx_v.Evm.{ok, revert, uint_mod}
use usdx_v.Roles.{price_id_setter_role, timestamp_setter_role}
use usdx_v.Hub.Amounts.{fee_of, mint_fees, mint_amount_for_price, scale_up}
use usdx_v.Hub.Subscribe.{
  request_subscription, check_restrictions, record_deposit, pull_fees, pull_collateral, claim_mint,
}
use usdx_v.Hub.Prices.{set_price_id_for_deposits, set_claimable_timestamp}
use usdx_v.Hub.Completing.{subscription_completes}
use usdx_v.Tests.Chain.{table_access, Ledger, ledger_peers}
use usdx_v.Tests.Hub.{State, left_by, manager, ledger}

-- The account 12 sets price ids, and 13 timestamps.
abbrev staffed : State
staffed = record manager {
  roles =
      table_access.grant timestamp_setter_role 13
        (table_access.grant price_id_setter_role 12 table_access.no_roles);
}

abbrev asked : State
unfolding request_subscription check_restrictions record_deposit pull_fees pull_collateral mint_fees
    fee_of uint_mod
asked = left_by (request_subscription 7 2000000 staffed) staffed

staffed_asks : request_subscription 7 2000000 staffed ≡ ok asked
unfolding request_subscription check_restrictions record_deposit pull_fees pull_collateral mint_fees
    fee_of uint_mod asked
staffed_asks = refl

abbrev minted : Ledger
unfolding asked request_subscription check_restrictions record_deposit pull_fees pull_collateral
    mint_fees fee_of uint_mod
minted = elim (ledger_peers.mint 2 30 7 1990000000000000000 asked.world) [
  | ok w ↦ w
  | revert x ↦ ledger
]

asked_mints : ledger_peers.mint 2 30 7 1990000000000000000 asked.world ≡ ok minted
unfolding asked request_subscription check_restrictions record_deposit pull_fees pull_collateral
    mint_fees fee_of uint_mod minted
asked_mints = refl

asked_price : ledger_peers.get_price asked.world 3 1 ≡ ok 1000000000000000000
unfolding asked request_subscription check_restrictions record_deposit pull_fees pull_collateral
    mint_fees fee_of uint_mod
asked_price = refl

staffed_fees : mint_fees staffed 2000000 ≡ ok 10000
unfolding mint_fees fee_of uint_mod
staffed_fees = refl

asked_amount :
    mint_amount_for_price 1000000000000 (2000000 - 10000) 1000000000000000000
    ≡ ok 1990000000000000000
unfolding mint_amount_for_price scale_up uint_mod
asked_amount = refl

subscription_completes_example :
    (h₂ : State) × (h₃ : State) × (h₄ : State) × (set_price_id_for_deposits 12
        (2 ∷ [])
        (1 ∷ [])
        asked
      ≡ ok h₂)
    × (set_claimable_timestamp 13 100 150 (2 ∷ []) h₂ ≡ ok h₃)
    × (claim_mint 200 (2 ∷ []) h₃ ≡ ok h₄)
    × (h₄.world ≡ minted)
subscription_completes_example =
    subscription_completes 7 2000000 10000 12 13 1 100 150 200 1000000000000000000
      1990000000000000000 staffed asked minted staffed_asks staffed_fees (ground arith) refl refl
      (ground arith) (ground arith) (ground arith) (ground arith) asked_price asked_amount
      asked_mints
