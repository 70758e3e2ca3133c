-- ===== src/Scripts/Verify/Slots.antt =====
-- What the checks of a slot and of a call find (`assertSlot` and the calls of a task).
use native.Mathlib.Nat.{div-add-mod, div-eq_of_lt, mod-eq_of_lt}
use Prim.Native.String.{String}
use usdx_v.Base.{ℕ, ◌^◌, ◌<◌, ◌%◌, ◌/◌, ◌≡◌, ◌↔◌, refl, sym, ap, ◌∙◌, arith, true, List, ◌∷◌, ◌==◌}
use usdx_v.Scripts.Script.{
  Script, World, Effect, returned, ◌>>=◌, pure, print, log, get_current_network, Value, address,
}
use usdx_v.Scripts.Verify.Silence.{
  OnlyPrints, OnlyPrints->>=, OnlyPrints-assert, OnlyPrints-pure, silent-bind, follow,
  assert_silent, Checks, Checks-assert, Checks-view,
}
use usdx_v.Scripts.Verify.Agreement.{Answers}
use usdx_v.Scripts.Verify.Helpers.{loosely_equal, assert, address_from_storage_slot}
use usdx_v.Scripts.Verify.Tasks.{assert_slot, assert_call}

pub OnlyPrints-address_from_storage_slot :
    (p slot : ℕ) → OnlyPrints (address_from_storage_slot p slot)
unfolding address_from_storage_slot OnlyPrints
OnlyPrints-address_from_storage_slot p slot w h =
    OnlyPrints->>=
      (assert (w.storage_at h p slot / 2 ^ 160 == 0)
        "Can't extract address, bits found in beginning of word")
      (λ _. pure (address (w.storage_at h p slot % 2 ^ 160))) (OnlyPrints-assert _ _)
      (λ _. OnlyPrints-pure (address (w.storage_at h p slot % 2 ^ 160))) w h

-- The word in a slot is an address exactly if the division by 2 ^ 160 leaves the address alone.
word_is_address :
    (word e : ℕ) → e < 2 ^ 160 → (word / 2 ^ 160 ≡ 0) × (word % 2 ^ 160 ≡ e) ↔ (word ≡ e)
word_is_address word e small = (
  λ (q, r). omega (arith, div-add-mod word (2 ^ 160)),
  λ k. (rw k (div-eq_of_lt small), rw k (mod-eq_of_lt small)),
)

slot_reads :
    (p slot : ℕ) (a : Value) (w : World) (h : List Effect)
    → (address_from_storage_slot p slot w h ≡ (h, returned a))
      ↔ ((w.storage_at h p slot / 2 ^ 160 ≡ 0) × (a ≡ address (w.storage_at h p slot % 2 ^ 160)))
unfolding address_from_storage_slot
slot_reads p slot a w h =
    let word = w.storage_at h p slot in
    let tail : Script Value = pure (address (word % 2 ^ 160)) in
    let message : String = "Can't extract address, bits found in beginning of word" in
    (
      λ k.
          (let (u, k₁, k₂) =
              silent-bind (assert (word / 2 ^ 160 == 0) message) (λ _. tail) w h a
                (OnlyPrints-assert _ _) (λ _. OnlyPrints-pure _) k in
            let b = assert_silent (word / 2 ^ 160 == 0) message w h k₁ in ground arith),
      λ (z, e). ground arith,
    )

slot_silent :
    (p slot e : ℕ) (message : String) (w : World) (h : List Effect)
    → e < 2 ^ 160
    → (assert_slot p slot e message w h ≡ (h, returned tt)) ↔ (w.storage_at h p slot ≡ e)
unfolding assert_slot loosely_equal
slot_silent p slot e message w h small =
    let word = w.storage_at h p slot in
    let is_word = word_is_address word e small in
    let f = λ (a : Value). assert (loosely_equal a (address e)) message in
    (
      λ k.
          (let (a, k₁, k₂) =
              silent-bind (address_from_storage_slot p slot) f w h tt
                (OnlyPrints-address_from_storage_slot p slot) (λ a. OnlyPrints-assert _ _) k in
            let (z, r) = (slot_reads p slot a w h).0 k₁ in
            let same = assert_silent (loosely_equal a (address e)) message w h k₂ in
            is_word.0 (z, ground arith)),
      λ k.
          (let (z, r) = is_word.1 k in
            ap (follow f w) ((slot_reads p slot (address e) w h).1 (z, ap (λ n. address n) (sym r)))
            ∙ ground arith),
    )

-- A slot check is silent exactly where the word in the slot is the address, with nothing above it.
pub Checks-assert_slot :
    (p slot e : ℕ) (message : String)
    → e < 2 ^ 160
    → Checks (assert_slot p slot e message) (λ w h. w.storage_at h p slot ≡ e)
Checks-assert_slot p slot e message small = record {
  only_prints =
      unfold assert_slot in
      OnlyPrints->>= (address_from_storage_slot p slot) _
        (OnlyPrints-address_from_storage_slot p slot) (λ a. OnlyPrints-assert _ _);
  silent = λ w h. slot_silent p slot e message w h small;
}

pub Checks-assert_call :
    (c : ℕ) (getter : String) (args : List Value) (e : ℕ) (message : String)
    → Checks (assert_call c getter args e message) (Answers c getter args (address e))
unfolding assert_call Answers
Checks-assert_call c getter args e message =
    Checks-view c getter args (λ v. Checks-assert (loosely_equal v (address e)) message)

-- A check after the network has been printed.
pub after_network :
    {s : Script (Unit {0})} {P : World → List Effect → Type 0} (w : World) (h : List Effect)
    → Checks s P
    → w.accepts h (print w.network) ≡ true
    → (((get_current_network >>= log) >>= λ _. s) w h ≡ (print w.network ∷ h, returned tt))
      ↔ P w (print w.network ∷ h)
after_network {s} w h p a =
    let printed : (get_current_network >>= log) w h ≡ (print w.network ∷ h, returned tt) =
      rw a refl in
    let e = ap (follow (λ _. s) w) printed in
    let q = p.silent w (print w.network ∷ h) in (λ k. q.0 (sym e ∙ k), λ k. e ∙ q.1 k)
