-- ===== src/Pricer/WithOracle.antt =====
-- contracts/PricerWithOracle.sol: a pricer that moves an oracle with its latest price. The oracle is
-- another contract, `rwaOracle`, behind an interface.
use usdx_v.Base.{ℕ, ◌&&◌, not, ltb, ◌==◌, if◌then◌else◌}
use usdx_v.Base.Int.{ℤ}
use usdx_v.Evm.{
  Result, ok, ◌>>=◌, ◌>>◌, revert_if, invalid_price, latest_price_mismatch, prices_already_match,
}
use usdx_v.Evm.Words.{to_int}
use usdx_v.Access.{AccessControl, only_role}
use usdx_v.Roles.{price_update_role}
use usdx_v.Pricer.State.{Pricer, price_added, emit, push_price, deploy_pricer, update_price}

-- The oracle that the pricer calls: `getPriceData` and `setPrice`.
pub record PriceOracle : Type 1 where
  pub World : Type 0
  pub get_price_data : World → Result (ℕ × ℕ)
  pub set_price : ℤ → World → Result World

-- The pricer, and the oracle as it stands.
pub record Linked (R W : Type 0) : Type 0 where
  pub pricer : Pricer R
  pub world : W

module _ ⦃o : PriceOracle⦄ where
  -- `_updateOraclePrice`, at the price of the latest price id.
  unfoldable pub update_oracle_price : (price latest_price : ℕ) → o.World → Result o.World
  update_oracle_price price latest_price w = do
    data_ ← o.get_price_data w
    revert_if (not (latest_price == data_.0)) latest_price_mismatch
    o.set_price (to_int price) w

module _ ⦃ac : AccessControl⦄ ⦃o : PriceOracle⦄ where
  -- The constructor.
  unfoldable pub deploy_linked : (admin pricer : ℕ) → o.World → Result (Linked ac.Roles o.World)
  unfolding deploy_pricer push_price
  deploy_linked admin pricer w = do
    data_ ← o.get_price_data w
    s ← push_price data_.0 data_.1 (deploy_pricer admin pricer)
    ok (record {
      pricer =
          emit (price_added s.current_price_id data_.0 data_.1)
            (record s { latest_price_id = s.current_price_id });
      world = w;
    })

  -- `addPrice`
  unfoldable pub add_linked_price :
      (sender price timestamp : ℕ) → Linked ac.Roles o.World → Result (Linked ac.Roles o.World)
  unfolding push_price update_oracle_price
  add_linked_price sender price timestamp l = do
    only_role l.pricer.roles price_update_role sender
    revert_if (price == 0) invalid_price
    s ← push_price price timestamp l.pricer
    let later = ltb (s.prices s.latest_price_id).timestamp timestamp
    w ←
        if later
        then update_oracle_price price (s.prices s.latest_price_id).price l.world
        else ok l.world
    let latest = if later then s.current_price_id else s.latest_price_id
    ok (record {
      pricer =
          emit (price_added s.current_price_id price timestamp)
            (record s { latest_price_id = latest });
      world = w;
    })

  -- `addLatestOraclePrice`
  unfoldable pub add_latest_oracle_price :
      (sender : ℕ) → Linked ac.Roles o.World → Result (Linked ac.Roles o.World)
  unfolding push_price
  add_latest_oracle_price sender l = do
    only_role l.pricer.roles price_update_role sender
    data_ ← o.get_price_data l.world
    let latest = l.pricer.prices l.pricer.latest_price_id
    revert_if (latest.price == data_.0 && latest.timestamp == data_.1) prices_already_match
    s ← push_price data_.0 data_.1 l.pricer
    ok (record {
      pricer =
          emit (price_added s.current_price_id data_.0 data_.1)
            (record s { latest_price_id = s.current_price_id });
      world = l.world;
    })

  -- The inherited `updatePrice`, which leaves the oracle as it is.
  unfoldable pub update_linked_price :
      (sender price_id price : ℕ) → Linked ac.Roles o.World → Result (Linked ac.Roles o.World)
  unfolding update_price
  update_linked_price sender price_id price l = do
    s ← update_price sender price_id price l.pricer
    ok (record { pricer = s; world = l.world })
