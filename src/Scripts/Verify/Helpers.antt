-- ===== src/Scripts/Verify/Helpers.antt =====
-- scripts/utils/helpers.ts. `assert` is that of Node's console: where it fails it prints a message, and
-- the script goes on.
use Prim.Native.String.{String}
use package.text.Mathlib.Text.{◌==◌ as str_eq}
use usdx_v.Base.{
  ℕ, suc, ◌%◌, ◌/◌, ◌^◌, Bool, true, false, not, ◌&&◌, ◌||◌, List, [], ◌∷◌, length, if◌then◌else◌,
  ◌==◌,
}
use usdx_v.Scripts.Script.{
  Script, ◌>>=◌, ◌>>◌, pure, log, call_view, get_storage_at, Value, undefined, address, number,
  bytes32, text, flag,
}
use usdx_v.Scripts.Verify.Config.{RoleConfig}

-- `==` between what a getter returns and what the configuration says. Only values of one kind are
-- equal here; nothing in the configuration compares equal to a value of another kind.
unfoldable pub loosely_equal : Value → Value → Bool
loosely_equal (address a) (address b) = a == b
loosely_equal (number a) (number b) = a == b
loosely_equal (bytes32 a) (bytes32 b) = a == b
loosely_equal (text a) (text b) = str_eq a b
loosely_equal (flag a) (flag b) = (a && b) || (not a && not b)
loosely_equal undefined undefined = true
loosely_equal _ _ = false

-- `console.assert(condition, message)`
abbrev pub assert : Bool → (message : String) → Script (Unit {0})
assert condition message = if condition then pure tt else log message

-- `assertAgainstBlockchain`; the message leaves out the getter's name.
unfoldable pub assert_against_blockchain :
    (contract : ℕ) (name : String) (expected : Value) → Script (Unit {0})
unfolding loosely_equal
assert_against_blockchain contract name expected = do
  actual ← call_view contract name []
  assert (loosely_equal actual expected) "✘ check failed"

-- The loop `for (const name in storage)` of the tasks.
unfoldable pub assert_storage : (contract : ℕ) → List (String × Value) → Script (Unit {0})
assert_storage contract [] = pure tt
assert_storage contract ((name, expected) ∷ rest) = do
  assert_against_blockchain contract name expected
  assert_storage contract rest

-- The loop of `assertRoleMembers`, from the index `i`.
unfoldable pub assert_members_from : (contract role i : ℕ) → List ℕ → Script (Unit {0})
unfolding loosely_equal
assert_members_from contract role i [] = pure tt
assert_members_from contract role i (member ∷ rest) = do
  actual ← call_view contract "getRoleMember" (bytes32 role ∷ number i ∷ [])
  assert (loosely_equal (address member) actual) "Assertion failed"
  assert_members_from contract role (suc i) rest

-- `assertRoleMembers`; the message leaves out the role.
unfoldable pub assert_role_members : (contract role : ℕ) → List ℕ → Script (Unit {0})
unfolding loosely_equal
assert_role_members contract role members = do
  count ← call_view contract "getRoleMemberCount" (bytes32 role ∷ [])
  assert (loosely_equal count (number (length members))) "✘ role check failed"
  assert_members_from contract role 0 members

-- `addressFromStorageSlot`: the last 20 bytes of the word; the first 12 should be zero.
unfoldable pub address_from_storage_slot : (contract slot : ℕ) → Script Value
address_from_storage_slot contract slot = do
  word ← get_storage_at contract slot
  assert (word / 2 ^ 160 == 0) "Can't extract address, bits found in beginning of word"
  pure (address (word % 2 ^ 160))

-- The calls of `assertRoleMembers` of a task, one after the other.
unfoldable pub assert_roles : (contract : ℕ) → List RoleConfig → Script (Unit {0})
assert_roles contract [] = pure tt
assert_roles contract (r ∷ rest) = do
  assert_role_members contract r.role r.members
  assert_roles contract rest
