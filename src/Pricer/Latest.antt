-- ===== src/Pricer/Latest.antt =====
-- The pointer to the latest price: through any calls it names the price with the greatest timestamp,
-- the first one added with it (contracts/Pricer.sol).
use native.Mathlib.Numerals.{add-one}
use usdx_v.Base.{ℕ, zero, suc, ◌+◌, ◌≤◌, ◌<◌, ◌≡◌, ◌↔◌, refl, arith, List, [], ◌∷◌, ◌++◌}
use usdx_v.Evm.{ok}
use usdx_v.Access.{AccessControl}
use usdx_v.Pricer.State.{
  Pricer, no_price, deploy_pricer, add_price, update_price, push_price, get_latest_price,
}

-- [1, 2, …, n]
abbrev pub one_to : ℕ → List ℕ
one_to zero = []
one_to (suc n) = one_to n ++ suc n ∷ []

one_to-add : (n : ℕ) → one_to (n + 1) ≡ one_to n ++ (n + 1) ∷ []
one_to-add n = rw add-one refl

module _ {R : Type 0} where
  pub record IsOrdered (s : Pricer R) : Type 0 where
    pub ids_listed : s.price_ids ≡ one_to s.current_price_id
    pub latest_bounded : s.latest_price_id ≤ s.current_price_id
    pub unused : (i : ℕ) → s.current_price_id < i → s.prices i ≡ no_price
    pub nothing_at_zero : s.prices 0 ≡ no_price
    pub priced : (i : ℕ) → 0 < i → i ≤ s.current_price_id → 0 < (s.prices i).price
    -- No price has a later timestamp than the latest one, and those added before it have earlier ones.
    pub latest_greatest : (i : ℕ) → (s.prices i).timestamp ≤ (s.prices s.latest_price_id).timestamp
    pub latest_first :
        (i : ℕ)
        → i < s.latest_price_id
        → (s.prices i).timestamp < (s.prices s.latest_price_id).timestamp

module _ ⦃ac : AccessControl⦄ where
  -- The calls that move a pricer: any accepted addition or update, and any change of the roles.
  pub data Reach : Pricer ac.Roles → Type 0 where
    deployed : (admin pricer : ℕ) → Reach (deploy_pricer admin pricer)
    added :
        {s : Pricer ac.Roles} (sender price timestamp : ℕ) (s' : Pricer ac.Roles)
        → Reach s
        → add_price sender price timestamp s ≡ ok s'
        → Reach s'
    updated :
        {s : Pricer ac.Roles} (sender price_id price : ℕ) (s' : Pricer ac.Roles)
        → Reach s
        → update_price sender price_id price s ≡ ok s'
        → Reach s'
    roles_moved : {s : Pricer ac.Roles} (r : ac.Roles) → Reach s → Reach (record s { roles = r })

  deploy_pricer-IsOrdered : (admin pricer : ℕ) → IsOrdered (deploy_pricer admin pricer)
  unfolding deploy_pricer
  deploy_pricer-IsOrdered admin pricer = record {
    ids_listed = refl;
    latest_bounded = ground arith;
    unused = λ i h. refl;
    nothing_at_zero = refl;
    priced = λ i h k. ground arith;
    latest_greatest = λ i. ground arith;
    latest_first = λ i h. ground arith;
  }

  add_price-IsOrdered :
      (sender price timestamp : ℕ) (s s' : Pricer ac.Roles)
      → IsOrdered s
      → add_price sender price timestamp s ≡ ok s'
      → IsOrdered s'
  unfolding add_price push_price
  add_price-IsOrdered sender price timestamp s s' v e =
      let fresh = v.unused (s.current_price_id + 1) (omega arith) in
      record {
        ids_listed = ground (arith, v.ids_listed, one_to-add s.current_price_id);
        latest_bounded = ground (arith, v.latest_bounded);
        unused = λ i h. ground (arith, v.unused i);
        nothing_at_zero = ground (arith, v.nothing_at_zero);
        priced = λ i h k. ground (arith, v.priced i);
        latest_greatest = λ i. ground (arith, v.latest_greatest i, v.latest_bounded);
        latest_first =
            λ i h. ground (arith, v.latest_first i, v.latest_greatest i, v.latest_bounded);
      }

  update_price-IsOrdered :
      (sender price_id price : ℕ) (s s' : Pricer ac.Roles)
      → IsOrdered s
      → update_price sender price_id price s ≡ ok s'
      → IsOrdered s'
  unfolding update_price
  update_price-IsOrdered sender price_id price s s' v e = record {
    ids_listed = ground (arith, v.ids_listed);
    latest_bounded = ground (arith, v.latest_bounded);
    unused = λ i h. ground (arith, v.unused i);
    nothing_at_zero = ground (arith, v.nothing_at_zero);
    priced = λ i h k. ground (arith, v.priced i);
    latest_greatest = λ i. ground (arith, v.latest_greatest i);
    latest_first = λ i h. ground (arith, v.latest_first i);
  }

  pub Reach-IsOrdered : (s : Pricer ac.Roles) → Reach s → IsOrdered s
  Reach-IsOrdered _ (deployed admin pricer) = deploy_pricer-IsOrdered admin pricer
  Reach-IsOrdered _ (added {s} sender price timestamp s' r e) =
      add_price-IsOrdered sender price timestamp s s' (Reach-IsOrdered s r) e
  Reach-IsOrdered _ (updated {s} sender price_id price s' r e) =
      update_price-IsOrdered sender price_id price s s' (Reach-IsOrdered s r) e
  Reach-IsOrdered _ (roles_moved {s} roles r) =
      let v = Reach-IsOrdered s r in
      record {
        ids_listed = v.ids_listed;
        latest_bounded = v.latest_bounded;
        unused = v.unused;
        nothing_at_zero = v.nothing_at_zero;
        priced = v.priced;
        latest_greatest = v.latest_greatest;
        latest_first = v.latest_first;
      }

  -- The latest price of a reachable pricer is above 0 exactly when some price has a timestamp above 0:
  -- prices added with the timestamp 0 never become the latest price.
  pub get_latest_price_pos :
      (s : Pricer ac.Roles)
      → Reach s
      → (0 < get_latest_price s) ↔ ((i : ℕ) × (0 < (s.prices i).timestamp))
  unfolding get_latest_price
  get_latest_price_pos s r =
      let v = Reach-IsOrdered s r in
      (
        λ h. (s.latest_price_id, ground (arith, v.latest_first 0, v.nothing_at_zero)),
        λ (i, h). ground (
          arith,
          v.latest_greatest i,
          v.priced s.latest_price_id,
          v.latest_bounded,
          v.nothing_at_zero,
        ),
      )
