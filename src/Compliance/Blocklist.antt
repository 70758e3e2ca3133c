-- ===== src/Compliance/Blocklist.antt =====
-- contracts/usdx/blocklist/Blocklist.sol. The owner is that of Ownable2Step.
use Prim.Native.String.{String}
use usdx_v.Base.{
  ℕ, ◌≡◌, refl, arith, Bool, true, false, not, ◌&&◌, ◌||◌, List, [], ◌∷◌, contains, ◌==◌,
  if◌then◌else◌,
}
use usdx_v.Evm.{Result, ok, ◌>>◌, require, missing_role}

pub data Event : Type 0 where
  blocked_addresses_added blocked_addresses_removed : List ℕ → Event

pub record Blocklist : Type 0 where
  pub log : List Event
  pub owner : ℕ
  pub blocked_addresses : ℕ → Bool

-- The constructor: Ownable makes the sender the owner.
unfoldable pub create_blocklist : (sender : ℕ) → Blocklist
create_blocklist sender = record { log = []; owner = sender; blocked_addresses = λ a. false }

-- `name`
abbrev pub name : String
name = "X Financial Technologies Blocklist Oracle"

-- The loop of `addToBlocklist` and, with `false`, of `removeFromBlocklist`.
unfoldable pub set_each : (blocked : Bool) → List ℕ → (ℕ → Bool) → (ℕ → Bool)
set_each blocked [] m = m
set_each blocked (a ∷ rest) m = set_each blocked rest (λ b. if b == a then blocked else m b)

-- `addToBlocklist`
unfoldable pub add_to_blocklist : (sender : ℕ) → List ℕ → Blocklist → Result Blocklist
unfolding set_each
add_to_blocklist sender accounts s = do
  require (sender == s.owner) missing_role
  ok (record s {
    log = blocked_addresses_added accounts ∷ s.log;
    blocked_addresses = set_each true accounts s.blocked_addresses;
  })

-- `removeFromBlocklist`
unfoldable pub remove_from_blocklist : (sender : ℕ) → List ℕ → Blocklist → Result Blocklist
unfolding set_each
remove_from_blocklist sender accounts s = do
  require (sender == s.owner) missing_role
  ok (record s {
    log = blocked_addresses_removed accounts ∷ s.log;
    blocked_addresses = set_each false accounts s.blocked_addresses;
  })

-- `isBlocked`
unfoldable pub is_blocked : Blocklist → ℕ → Bool
is_blocked s a = s.blocked_addresses a

set_each_lem :
    (blocked : Bool) (accounts : List ℕ) (m : ℕ → Bool) (a : ℕ)
    → set_each blocked accounts m a ≡ (if contains a accounts then blocked else m a)
unfolding set_each
set_each_lem blocked [] m a = refl
set_each_lem blocked (b ∷ rest) m a =
    ground (arith, set_each_lem blocked rest (λ c. if c == b then blocked else m c) a)

-- An addition and then a removal, both made by the owner: in between an account is blocked exactly if
-- it is among those added or was blocked before, and at the end exactly if it is not among those
-- removed and was blocked in between.
pub add-remove :
    (sender remover : ℕ) (added removed : List ℕ) (s s₁ s₂ : Blocklist)
    → add_to_blocklist sender added s ≡ ok s₁
    → remove_from_blocklist remover removed s₁ ≡ ok s₂
    → (sender ≡ s.owner)
      × (remover ≡ s.owner)
      × ((a : ℕ) → is_blocked s₁ a ≡ (contains a added || is_blocked s a))
      × ((a : ℕ) → is_blocked s₂ a ≡ (not (contains a removed) && is_blocked s₁ a))
unfolding add_to_blocklist remove_from_blocklist is_blocked
add-remove sender remover added removed s s₁ s₂ e₁ e₂ = (
  ground arith,
  ground arith,
  λ a. ground (arith, set_each_lem true added s.blocked_addresses a),
  λ a. ground (arith, set_each_lem false removed s₁.blocked_addresses a),
)
