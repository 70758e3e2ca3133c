-- ===== src/Pricer/Synced.antt =====
-- The price of the oracle and the latest price of PricerWithOracle.sol stay the same, as long as nobody
-- else sets the oracle and the latest price is not updated.
use usdx_v.Base.{ℕ, ◌≤◌, ◌<◌, ◌≡◌, ◌≢◌, inl, inr, arith, Bool-cases, ltb}
use usdx_v.Base.Int.{pos}
use usdx_v.Evm.{ok, Result-cases}
use usdx_v.Evm.Words.{int_max}
use usdx_v.Access.{AccessControl}
use usdx_v.Pricer.State.{deploy_pricer, push_price, update_price}
use usdx_v.Pricer.WithOracle.{
  PriceOracle, Linked, update_oracle_price, deploy_linked, add_linked_price,
  add_latest_oracle_price, update_linked_price,
}

-- An oracle that shows the price that was set last, as RWAOracleRateCheck does.
pub record OracleLaws (o : PriceOracle) : Type 1 where
  pub set_then_get :
      (n : ℕ) (w w' : o.World)
      → o.set_price (pos n) w ≡ ok w'
      → (t : ℕ) × (o.get_price_data w' ≡ ok (n, t))

module _ ⦃ac : AccessControl⦄ ⦃o : PriceOracle⦄ where
  pub record IsSynced (l : Linked ac.Roles o.World) : Type 0 where
    pub bounded : l.pricer.latest_price_id ≤ l.pricer.current_price_id
    pub shown_at : ℕ
    pub shown :
        o.get_price_data l.world ≡ ok ((l.pricer.prices l.pricer.latest_price_id).price, shown_at)

  -- The states that the calls of the pricer lead to; an update is of another price than the latest one.
  pub data Reach : Linked ac.Roles o.World → Type 0 where
    deployed :
        (admin pricer : ℕ) (w : o.World) (l : Linked ac.Roles o.World)
        → deploy_linked admin pricer w ≡ ok l
        → Reach l
    added :
        {l : Linked ac.Roles o.World} (sender price timestamp : ℕ) (l' : Linked ac.Roles o.World)
        → Reach l
        → price < int_max
        → add_linked_price sender price timestamp l ≡ ok l'
        → Reach l'
    caught_up :
        {l : Linked ac.Roles o.World} (sender : ℕ) (l' : Linked ac.Roles o.World)
        → Reach l
        → add_latest_oracle_price sender l ≡ ok l'
        → Reach l'
    updated :
        {l : Linked ac.Roles o.World} (sender price_id price : ℕ) (l' : Linked ac.Roles o.World)
        → Reach l
        → price_id ≢ l.pricer.latest_price_id
        → update_linked_price sender price_id price l ≡ ok l'
        → Reach l'

  pub deploy_linked-IsSynced :
      (admin pricer : ℕ) (w : o.World) (l : Linked ac.Roles o.World)
      → deploy_linked admin pricer w ≡ ok l
      → IsSynced l
  unfolding deploy_linked deploy_pricer push_price
  deploy_linked-IsSynced admin pricer w l e = elim (Result-cases (o.get_price_data w)) [
    | inr (x, f) ↦ absurd (ground arith)
    | inl (d, f) ↦ record { bounded = ground arith; shown_at = d.1; shown = ground arith }
  ]

  pub add_latest_oracle_price-IsSynced :
      (sender : ℕ) (l l' : Linked ac.Roles o.World)
      → add_latest_oracle_price sender l ≡ ok l'
      → IsSynced l'
  unfolding add_latest_oracle_price push_price
  add_latest_oracle_price-IsSynced sender l l' e = elim (Result-cases (o.get_price_data l.world)) [
    | inr (x, f) ↦ absurd (ground arith)
    | inl (d, f) ↦ record { bounded = ground arith; shown_at = d.1; shown = ground arith }
  ]

  pub update_linked_price-IsSynced :
      (sender price_id price : ℕ) (l l' : Linked ac.Roles o.World)
      → IsSynced l
      → price_id ≢ l.pricer.latest_price_id
      → update_linked_price sender price_id price l ≡ ok l'
      → IsSynced l'
  unfolding update_linked_price update_price
  update_linked_price-IsSynced sender price_id price l l' v ne e = record {
    bounded = ground (arith, v.bounded);
    shown_at = v.shown_at;
    shown = ground (arith, v.shown);
  }

  module _ (laws : OracleLaws o) where
    -- The oracle shows the price that it was moved to.
    update_oracle_price_lem :
        (price latest : ℕ) (w w' : o.World)
        → price < int_max
        → update_oracle_price price latest w ≡ ok w'
        → (t : ℕ) × (o.get_price_data w' ≡ ok (price, t))
    unfolding update_oracle_price
    update_oracle_price_lem price latest w w' h e = laws.set_then_get price w w' (ground arith)

    pub add_linked_price-IsSynced :
        (sender price timestamp : ℕ) (l l' : Linked ac.Roles o.World)
        → IsSynced l
        → price < int_max
        → add_linked_price sender price timestamp l ≡ ok l'
        → IsSynced l'
    unfolding add_linked_price push_price
    add_linked_price-IsSynced sender price timestamp l l' v h e =
        let old = l.pricer.prices l.pricer.latest_price_id in
        elim (Bool-cases (ltb old.timestamp timestamp)) [
          | inr earlier ↦ record {
            bounded = ground (arith, v.bounded);
            shown_at = v.shown_at;
            shown = ground (arith, v.shown, v.bounded);
          }
          | inl later ↦ elim (Result-cases (update_oracle_price price old.price l.world)) [
            | inr (x, f) ↦ absurd (ground (arith, v.bounded))
            | inl (w, f) ↦
                let (t, g) = update_oracle_price_lem price old.price l.world w h f in
                record {
                  bounded = ground (arith, v.bounded);
                  shown_at = t;
                  shown = ground (arith, g, v.bounded);
                }
          ]
        ]

    -- In every state that the calls of the pricer lead to from its deployment, the oracle shows the
    -- latest price of the pricer. In between nobody else sets the oracle, prices are below 2 ^ 255, the
    -- latest price is not updated, and the oracle shows the price that was set last.
    pub Reach-IsSynced : (l : Linked ac.Roles o.World) → Reach l → IsSynced l
    Reach-IsSynced _ (deployed admin pricer w l e) = deploy_linked-IsSynced admin pricer w l e
    Reach-IsSynced _ (added {l} sender price timestamp l' r h e) =
        add_linked_price-IsSynced sender price timestamp l l' (Reach-IsSynced l r) h e
    Reach-IsSynced _ (caught_up {l} sender l' r e) = add_latest_oracle_price-IsSynced sender l l' e
    Reach-IsSynced _ (updated {l} sender price_id price l' r ne e) =
        update_linked_price-IsSynced sender price_id price l l' (Reach-IsSynced l r) ne e
