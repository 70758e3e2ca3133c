-- ===== src/Scripts/Verify/Agreement.antt =====
-- When the loops of scripts/utils/helpers.ts and the tasks over them report nothing.
use Prim.Native.String.{String}
use usdx_v.Base.{
  ℕ, suc, ◌≡◌, ◌↔◌, refl, ap, ◌∙◌, arith, Bool, true, Option, some, List, [], ◌∷◌, length,
}
use usdx_v.Scripts.Script.{World, Effect, Value, address, number, bytes32}
use usdx_v.Scripts.Verify.Silence.{
  Checks, Checks-nothing, Checks-then, Checks-assert, Checks-view, Checks-iff,
}
use usdx_v.Scripts.Verify.Config.{RoleConfig}
use usdx_v.Scripts.Verify.Helpers.{
  loosely_equal, assert_against_blockchain, assert_storage, assert_members_from,
  assert_role_members, assert_roles,
}

-- The getter answers with a value that equals the expected one.
unfoldable pub Answers :
    (c : ℕ) (getter : String) (args : List Value) (expected : Value) → World → List Effect → Type 0
Answers c getter args expected w h =
    (v : Value) × (w.view h c getter args ≡ some v) × (loosely_equal v expected ≡ true)

-- Two values that the scripts compare as addresses or as numbers are equal only if they are the same.
pub equal_address : (m : ℕ) (v : Value) → (loosely_equal (address m) v ≡ true) ↔ (v ≡ address m)
unfolding loosely_equal
equal_address m v = ground arith

equal_number : (n : ℕ) (v : Value) → (loosely_equal v (number n) ≡ true) ↔ (v ≡ number n)
unfolding loosely_equal
equal_number n v = ground arith

-- A getter's answer that passes a test for one value is that value.
answer_is :
    {R : Type 0} (o : Option Value) (expected : Value) (test : Value → Bool)
    → ((v : Value) → (test v ≡ true) ↔ (v ≡ expected))
    → ((v : Value) × (o ≡ some v) × ((test v ≡ true) × R)) ↔ ((o ≡ some expected) × R)
answer_is o expected test e = (
  λ (v, a, (b, r)). (a ∙ ap (λ u. some u) ((e v).0 b), r),
  λ (a, r). (expected, a, ((e expected).1 refl, r)),
)

-- `getRoleMember` answers with the members, in their order, from the index `i` on.
pub MembersAgree : (c role i : ℕ) → List ℕ → World → List Effect → Type 0
MembersAgree c role i [] w h = Unit
MembersAgree c role i (m ∷ ms) w h =
    (w.view h c "getRoleMember" (bytes32 role ∷ number i ∷ []) ≡ some (address m))
    × MembersAgree c role (suc i) ms w h

Checks-assert_members_from :
    (c role i : ℕ) (ms : List ℕ)
    → Checks (assert_members_from c role i ms) (MembersAgree c role i ms)
unfolding assert_members_from MembersAgree
Checks-assert_members_from c role i [] = Checks-nothing
Checks-assert_members_from c role i (m ∷ ms) =
    Checks-iff
      (Checks-view c "getRoleMember" (bytes32 role ∷ number i ∷ []) (λ v.
        Checks-then (Checks-assert (loosely_equal (address m) v) "Assertion failed")
          (Checks-assert_members_from c role (suc i) ms)))
      (λ w h. answer_is _ (address m) (λ v. loosely_equal (address m) v) (equal_address m))

-- The chain enumerates exactly these members of the role, in this order.
pub RoleAgrees : (c role : ℕ) → List ℕ → World → List Effect → Type 0
RoleAgrees c role ms w h =
    (w.view h c "getRoleMemberCount" (bytes32 role ∷ []) ≡ some (number (length ms)))
    × MembersAgree c role 0 ms w h

Checks-assert_role_members :
    (c role : ℕ) (ms : List ℕ) → Checks (assert_role_members c role ms) (RoleAgrees c role ms)
unfolding assert_role_members RoleAgrees
Checks-assert_role_members c role ms =
    Checks-iff
      (Checks-view c "getRoleMemberCount" (bytes32 role ∷ []) (λ v.
        Checks-then (Checks-assert (loosely_equal v (number (length ms))) "✘ role check failed")
          (Checks-assert_members_from c role 0 ms)))
      (λ w h.
        answer_is _ (number (length ms)) (λ v. loosely_equal v (number (length ms)))
          (equal_number (length ms)))

pub RolesAgree : (c : ℕ) → List RoleConfig → World → List Effect → Type 0
RolesAgree c [] w h = Unit
RolesAgree c (r ∷ rs) w h = RoleAgrees c r.role r.members w h × RolesAgree c rs w h

pub Checks-assert_roles :
    (c : ℕ) (rs : List RoleConfig) → Checks (assert_roles c rs) (RolesAgree c rs)
unfolding assert_roles RolesAgree
Checks-assert_roles c [] = Checks-nothing
Checks-assert_roles c (r ∷ rs) =
    Checks-then (Checks-assert_role_members c r.role r.members) (Checks-assert_roles c rs)

-- Each getter answers with a value that is equal to the configured one.
pub StorageAgrees : (c : ℕ) → List (String × Value) → World → List Effect → Type 0
StorageAgrees c [] w h = Unit
StorageAgrees c ((name, expected) ∷ rest) w h =
    Answers c name [] expected w h × StorageAgrees c rest w h

Checks-assert_against_blockchain :
    (c : ℕ) (name : String) (expected : Value)
    → Checks (assert_against_blockchain c name expected) (Answers c name [] expected)
unfolding assert_against_blockchain Answers
Checks-assert_against_blockchain c name expected =
    Checks-view c name [] (λ v. Checks-assert (loosely_equal v expected) "✘ check failed")

pub Checks-assert_storage :
    (c : ℕ) (s : List (String × Value)) → Checks (assert_storage c s) (StorageAgrees c s)
unfolding assert_storage StorageAgrees
Checks-assert_storage c [] = Checks-nothing
Checks-assert_storage c ((name, expected) ∷ rest) =
    Checks-then (Checks-assert_against_blockchain c name expected) (Checks-assert_storage c rest)
