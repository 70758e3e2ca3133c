-- ===== src/System/Paced.antt =====
-- PricerWithOracle.sol over the model of RWAOracleRateCheck.sol: how fast its latest price moves.
use usdx_v.Base.{ℕ, suc, ◌+◌, ◌*◌, ◌^◌, ◌≤◌, ◌<◌, ◌⊎◌, ◌≡◌, ◌≢◌, inl, inr, arith, ltb, Bool-cases}
use usdx_v.Base.Int.{pos}
use usdx_v.Evm.{ok, Result-cases}
use usdx_v.Evm.Words.{int_max}
use usdx_v.Access.{AccessControl}
use usdx_v.Oracle.RateCheck
use usdx_v.Oracle.RateCheck.{Oracle, min_price_update_window}
use usdx_v.Oracle.Drift.{Updates, here, next, roles_move, Updates-IsDrift}
use usdx_v.Pricer.State.{push_price, update_price}
use usdx_v.Pricer.WithOracle.{
  update_oracle_price, deploy_linked, add_linked_price, add_latest_oracle_price,
  update_linked_price,
}
use usdx_v.System.RateChecked.{Block, rate_check, rate_check_laws, latest_price, State}
use usdx_v.Pricer.Synced.{
  IsSynced, deploy_linked-IsSynced, add_linked_price-IsSynced, add_latest_oracle_price-IsSynced,
  update_linked_price-IsSynced,
}

module _ ⦃ac : AccessControl⦄ where
  -- The states that calls of the pricer lead to, from its deployment over an oracle as it stands at
  -- `w₀`, with time passing and any changes of the roles of both contracts in between. Nobody else sets the oracle, and an update is of another price
  -- than the latest one.
  pub data History (w₀ : Block ac.Roles) : State → Type 0 where
    deployed :
        (admin pricer : ℕ) (l : State)
        → deploy_linked ⦃o = rate_check⦄ admin pricer w₀ ≡ ok l
        → History w₀ l
    added :
        {l : State} (sender price timestamp : ℕ) (l' : State)
        → History w₀ l
        → price < int_max
        → add_linked_price ⦃o = rate_check⦄ sender price timestamp l ≡ ok l'
        → History w₀ l'
    caught_up :
        {l : State} (sender : ℕ) (l' : State)
        → History w₀ l
        → add_latest_oracle_price ⦃o = rate_check⦄ sender l ≡ ok l'
        → History w₀ l'
    updated :
        {l : State} (sender price_id price : ℕ) (l' : State)
        → History w₀ l
        → price_id ≢ l.pricer.latest_price_id
        → update_linked_price ⦃o = rate_check⦄ sender price_id price l ≡ ok l'
        → History w₀ l'
    time_passes :
        {l : State} (now : ℕ)
        → History w₀ l
        → History w₀ (record l { world = record l.world { now = now } })
    pricer_roles_move :
        {l : State} (roles : ac.Roles)
        → History w₀ l
        → History w₀ (record l { pricer = record l.pricer { roles = roles } })
    oracle_roles_move :
        {l : State} (roles : ac.Roles)
        → History w₀ l
        → History w₀ (record l {
          world = record l.world { oracle = record l.world.oracle { roles = roles } };
        })

  -- An addition with a later timestamp sets the oracle, and any other one leaves it.
  add_linked_price_moves :
      (l l' : State) (sender price timestamp : ℕ)
      → add_linked_price ⦃o = rate_check⦄ sender price timestamp l ≡ ok l'
      → l.pricer.latest_price_id ≤ l.pricer.current_price_id
      → price < int_max
      → (RateCheck.set_price l.world.caller l.world.now (pos price) l.world.oracle
          ≡ ok l'.world.oracle)
        ⊎ (l'.world ≡ l.world)
  unfolding add_linked_price push_price update_oracle_price RateCheck.get_price_data
  add_linked_price_moves l l' sender price timestamp e b small =
      elim (Bool-cases (ltb (l.pricer.prices l.pricer.latest_price_id).timestamp timestamp)) [
        | inr earlier ↦ inr (ground arith)
        | inl later ↦
            elim (Result-cases
              (RateCheck.set_price l.world.caller l.world.now (pos price) l.world.oracle)) [
                | inr (x, stop) ↦ absurd (ground arith)
                | inl (s, moved) ↦ inl (ground arith)
              ]
      ]

  deploy_linked_keeps :
      (admin pricer : ℕ) (w : Block ac.Roles) (l : State)
      → deploy_linked ⦃o = rate_check⦄ admin pricer w ≡ ok l
      → l.world ≡ w
  unfolding deploy_linked push_price
  deploy_linked_keeps admin pricer w l e = ground arith

  add_latest_oracle_price_keeps :
      (sender : ℕ) (l l' : State)
      → add_latest_oracle_price ⦃o = rate_check⦄ sender l ≡ ok l'
      → l'.world ≡ l.world
  unfolding add_latest_oracle_price push_price
  add_latest_oracle_price_keeps sender l l' e = ground arith

  update_linked_price_keeps :
      (sender price_id price : ℕ) (l l' : State)
      → update_linked_price ⦃o = rate_check⦄ sender price_id price l ≡ ok l'
      → l'.world ≡ l.world
  unfolding update_linked_price update_price
  update_linked_price_keeps sender price_id price l l' e = ground arith

  -- Each addition that moves the latest price is an update of the oracle, and nothing else is one.
  History-Updates :
      (w₀ : Block ac.Roles) (l : State)
      → History w₀ l
      → (k : ℕ) × Updates w₀.oracle k l.world.oracle × IsSynced ⦃o = rate_check⦄ l
  unfolding RateCheck.get_price_data
  History-Updates w₀ _ (deployed admin pricer l e) = (
    0,
    rw (deploy_linked_keeps admin pricer w₀ l e) here,
    deploy_linked-IsSynced ⦃o = rate_check⦄ admin pricer w₀ l e,
  )
  History-Updates w₀ _ (added {l} sender price timestamp l' h small e) =
      let (k, u, v) = History-Updates w₀ l h in
      let v' : IsSynced ⦃o = rate_check⦄ l' =
        add_linked_price-IsSynced ⦃o = rate_check⦄ rate_check_laws sender price timestamp l l' v
          small e in
      elim (add_linked_price_moves l l' sender price timestamp e v.bounded small) [
        | inl moved ↦
            (suc k, next l.world.caller l.world.now price l'.world.oracle u small moved, v')
        | inr stays ↦ (k, rw stays u, v')
      ]
  History-Updates w₀ _ (caught_up {l} sender l' h e) =
      let (k, u, v) = History-Updates w₀ l h in
      (
        k,
        rw (add_latest_oracle_price_keeps sender l l' e) u,
        add_latest_oracle_price-IsSynced ⦃o = rate_check⦄ sender l l' e,
      )
  History-Updates w₀ _ (updated {l} sender price_id price l' h ne e) =
      let (k, u, v) = History-Updates w₀ l h in
      (
        k,
        rw (update_linked_price_keeps sender price_id price l l' e) u,
        update_linked_price-IsSynced ⦃o = rate_check⦄ sender price_id price l l' v ne e,
      )
  History-Updates w₀ _ (time_passes {l} now h) =
      let (k, u, v) = History-Updates w₀ l h in
      (k, u, record { bounded = v.bounded; shown_at = v.shown_at; shown = v.shown })
  History-Updates w₀ _ (pricer_roles_move {l} roles h) =
      let (k, u, v) = History-Updates w₀ l h in
      (k, u, record { bounded = v.bounded; shown_at = v.shown_at; shown = v.shown })
  History-Updates w₀ _ (oracle_roles_move {l} roles h) =
      let (k, u, v) = History-Updates w₀ l h in
      (
        k,
        roles_move roles u,
        record { bounded = v.bounded; shown_at = v.shown_at; shown = v.shown },
      )

  -- The latest price of the pricer after `k` moves of it, from the price `a` of the oracle at the time
  -- `t`.
  pub record IsPaced (k a t : ℕ) (l : State) : Type 0 where
    pub shown : l.world.oracle.rwa_price ≡ pos (latest_price l)
    pub positive : 0 < latest_price l
    pub at_most : latest_price l * 100 ^ k ≤ a * 101 ^ k
    pub at_least : a * 99 ^ k ≤ latest_price l * 100 ^ k
    pub elapsed : t + k * min_price_update_window ≤ l.world.oracle.price_timestamp

  -- In every state that a history of the pricer leads to, the oracle shows its latest price, which is
  -- above zero, and for some k the latest price lies between 0.99 and 1.01 to the power k times the
  -- price of the oracle before the deployment, and at least k times 23 hours have passed since its
  -- timestamp. That price was above zero and of 255 bits at most. The roles of both contracts change in
  -- any way in between.
  pub History-IsPaced :
      (w₀ : Block ac.Roles) (a : ℕ) (l : State)
      → w₀.oracle.rwa_price ≡ pos a
      → 0 < a
      → a < int_max
      → History w₀ l
      → (k : ℕ) × IsPaced k a w₀.oracle.price_timestamp l
  unfolding RateCheck.get_price_data
  History-IsPaced w₀ a l first pa wa h =
      let (k, u, v) = History-Updates w₀ l h in
      let d = Updates-IsDrift w₀.oracle a k l.world.oracle first pa wa u in
      let same : d.now_price ≡ latest_price l = ground (arith, v.shown, d.is_price) in
      (
        k,
        record {
          shown = rw same at d.is_price;
          positive = rw same at d.is_positive;
          at_most = rw same at d.at_most;
          at_least = rw same at d.at_least;
          elapsed = d.elapsed;
        },
      )
