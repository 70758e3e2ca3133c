-- ===== src/Pricer/State.antt =====
-- contracts/Pricer.sol: the prices by id, and the pointer to the price with the latest timestamp.
use usdx_v.Base.{ℕ, List, [], ◌∷◌, ◌++◌, ltb, ◌==◌, if◌then◌else◌, update}
use usdx_v.Evm.{Result, ok, ◌>>=◌, ◌>>◌, revert_if, add, invalid_price, price_id_does_not_exist}
use usdx_v.Access.{AccessControl, only_role}
use usdx_v.Roles.{default_admin_role, price_update_role}

-- `struct PriceInfo`
pub record PriceInfo : Type 0 where
  pub price : ℕ
  pub timestamp : ℕ

abbrev pub no_price : PriceInfo
no_price = record { price = 0; timestamp = 0 }

pub data Event : Type 0 where
  price_added : (price_id price timestamp : ℕ) → Event
  price_updated : (price_id old_price new_price : ℕ) → Event

pub record Pricer (R : Type 0) : Type 0 where
  pub log : List Event
  pub roles : R
  pub prices : ℕ → PriceInfo
  pub price_ids : List ℕ
  pub current_price_id : ℕ
  pub latest_price_id : ℕ

module _ {R : Type 0} where
  abbrev pub emit : Event → Pricer R → Pricer R
  emit e s = record s { log = e ∷ s.log }

  -- `getLatestPrice`
  unfoldable pub get_latest_price : Pricer R → ℕ
  get_latest_price s = (s.prices s.latest_price_id).price

  -- `getPrice`
  unfoldable pub get_price : Pricer R → ℕ → ℕ
  get_price s price_id = (s.prices price_id).price

  -- The part of `addPrice` that writes the price under a new id.
  unfoldable pub push_price : (price timestamp : ℕ) → Pricer R → Result (Pricer R)
  push_price price timestamp s = do
    price_id ← add s.current_price_id 1
    let info : PriceInfo = record { price = price; timestamp = timestamp }
    ok (record s {
      current_price_id = price_id;
      prices = update s.prices price_id info;
      price_ids = s.price_ids ++ price_id ∷ [];
    })

module _ ⦃ac : AccessControl⦄ where
  -- The constructor.
  unfoldable pub deploy_pricer : (admin pricer : ℕ) → Pricer ac.Roles
  deploy_pricer admin pricer = record {
    log = [];
    roles = ac.grant price_update_role pricer (ac.grant default_admin_role admin ac.no_roles);
    prices = λ _. no_price;
    price_ids = [];
    current_price_id = 0;
    latest_price_id = 0;
  }

  -- `addPrice`
  unfoldable pub add_price :
      (sender price timestamp : ℕ) → Pricer ac.Roles → Result (Pricer ac.Roles)
  unfolding push_price
  add_price sender price timestamp s = do
    only_role s.roles price_update_role sender
    revert_if (price == 0) invalid_price
    s₁ ← push_price price timestamp s
    let later = ltb (s₁.prices s₁.latest_price_id).timestamp timestamp
    let latest = if later then s₁.current_price_id else s₁.latest_price_id
    ok (
        emit (price_added s₁.current_price_id price timestamp)
          (record s₁ { latest_price_id = latest }))

  -- `updatePrice`
  unfoldable pub update_price :
      (sender price_id price : ℕ) → Pricer ac.Roles → Result (Pricer ac.Roles)
  update_price sender price_id price s = do
    only_role s.roles price_update_role sender
    revert_if (price == 0) invalid_price
    let old = s.prices price_id
    revert_if (old.price == 0) price_id_does_not_exist
    let info : PriceInfo = record { price = price; timestamp = old.timestamp }
    ok (
        emit (price_updated price_id old.price price)
          (record s { prices = update s.prices price_id info }))
