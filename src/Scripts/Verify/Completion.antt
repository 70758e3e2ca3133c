-- ===== src/Scripts/Verify/Completion.antt =====
-- What the verification tasks do to the outside world, and that they do not fail where the chain
-- disagrees with the configuration.
use Prim.Native.String.{String}
use usdx_v.Base.{
  ℕ, suc, ◌≡◌, refl, ap, ◌∙◌, arith, Bool, true, false, some, List, [], ◌∷◌, ◌==◌, ◌/◌, ◌%◌, ◌^◌,
  length,
}
use usdx_v.Scripts.Script.{
  Script, World, Effect, returned, ◌>>=◌, ◌>>◌, pure, print, log, call_view, get_current_network,
  Value, address, number, bytes32,
}
use usdx_v.Scripts.Verify.Silence.{follow}
use usdx_v.Scripts.Verify.Config.{RoleConfig, ProxyConfig}
use usdx_v.Scripts.Verify.Helpers.{
  loosely_equal, assert, assert_against_blockchain, assert_storage, assert_members_from,
  assert_role_members, assert_roles, address_from_storage_slot,
}
use usdx_v.Scripts.Verify.Tasks.{
  assert_slot, assert_call, check_proxy, check_usdx, check_allowlist, check_blocklist,
  check_usdx_manager, check_usdx_pricer,
}

-- Every getter answers, with any value, and the console prints.
pub record IsUp (w : World) : Type 0 where
  pub answers :
      (h : List Effect) (c : ℕ) (getter : String) (args : List Value)
      → (v : Value) × (w.view h c getter args ≡ some v)
  pub prints : (h : List Effect) (s : String) → w.accepts h (print s) ≡ true

-- The script returns.
unfoldable pub Completes : {A : Type 0} → World → Script A → Type 0
Completes {A} w s = (h : List Effect) → (h' : List Effect) × (a : A) × (s w h ≡ (h', returned a))

module _ {w : World} (up : IsUp w) where
  Completes->>= :
      {A B : Type 0} (m : Script A) (f : A → Script B)
      → Completes w m
      → ((a : A) → Completes w (f a))
      → Completes w (m >>= f)
  unfolding Completes
  Completes->>= m f p q h =
      let (h₁, a, e) = p h in let (h₂, b, e') = q a h₁ in (h₂, b, ap (follow f w) e ∙ e')

  Completes-pure : {A : Type 0} (a : A) → Completes w (pure a)
  unfolding Completes
  Completes-pure a h = (h, a, refl)

  Completes-log : (s : String) → Completes w (log s)
  unfolding Completes
  Completes-log s h = (print s ∷ h, tt, rw (up.prints h s) refl)

  Completes-assert : (b : Bool) (message : String) → Completes w (assert b message)
  Completes-assert true message = Completes-pure tt
  Completes-assert false message = Completes-log message

  Completes-call_view :
      (c : ℕ) (getter : String) (args : List Value) → Completes w (call_view c getter args)
  unfolding Completes
  Completes-call_view c getter args h =
      let (v, e) = up.answers h c getter args in (h, v, ground arith)

  Completes-view :
      (c : ℕ) (getter : String) (args : List Value) (test : Value → Bool) (message : String)
      → Completes w (call_view c getter args >>= λ v. assert (test v) message)
  Completes-view c getter args test message =
      Completes->>= _ _ (Completes-call_view c getter args) (λ v. Completes-assert (test v) message)

  Completes-then : (s t : Script (Unit {0})) → Completes w s → Completes w t → Completes w (s >> t)
  Completes-then s t p q = Completes->>= s (λ _. t) p (λ _. q)

  Completes-network : Completes w (get_current_network >>= log)
  Completes-network =
      Completes->>= get_current_network log (unfold Completes in λ h. (h, w.network, refl))
        Completes-log

  Completes-assert_storage :
      (c : ℕ) (st : List (String × Value)) → Completes w (assert_storage c st)
  unfolding assert_storage assert_against_blockchain
  Completes-assert_storage c [] = Completes-pure tt
  Completes-assert_storage c ((name, expected) ∷ rest) =
      Completes-then _ _ (Completes-view c name [] (λ v. loosely_equal v expected) "✘ check failed")
        (Completes-assert_storage c rest)

  Completes-assert_members_from :
      (c role i : ℕ) (ms : List ℕ) → Completes w (assert_members_from c role i ms)
  unfolding assert_members_from
  Completes-assert_members_from c role i [] = Completes-pure tt
  Completes-assert_members_from c role i (m ∷ ms) =
      Completes->>= _ _ (Completes-call_view c "getRoleMember" (bytes32 role ∷ number i ∷ [])) (λ v.
        Completes-then _ _ (Completes-assert (loosely_equal (address m) v) "Assertion failed")
          (Completes-assert_members_from c role (suc i) ms))

  Completes-assert_roles : (c : ℕ) (rs : List RoleConfig) → Completes w (assert_roles c rs)
  unfolding assert_roles assert_role_members
  Completes-assert_roles c [] = Completes-pure tt
  Completes-assert_roles c (r ∷ rs) =
      Completes-then _ _
        (Completes->>= _ _ (Completes-call_view c "getRoleMemberCount" (bytes32 r.role ∷ [])) (λ v.
          Completes-then _ _
            (Completes-assert (loosely_equal v (number (length r.members))) "✘ role check failed")
            (Completes-assert_members_from c r.role 0 r.members)))
        (Completes-assert_roles c rs)

  Completes-assert_slot :
      (p slot e : ℕ) (message : String) → Completes w (assert_slot p slot e message)
  unfolding assert_slot address_from_storage_slot Completes
  Completes-assert_slot p slot e message =
      Completes->>= (address_from_storage_slot p slot)
        (λ a. assert (loosely_equal a (address e)) message)
        (λ h.
          Completes->>=
            (assert (w.storage_at h p slot / 2 ^ 160 == 0)
              "Can't extract address, bits found in beginning of word")
            (λ _. pure (address (w.storage_at h p slot % 2 ^ 160))) (Completes-assert _ _)
            (λ _. Completes-pure _) h)
        (λ a. Completes-assert _ _)

  Completes-check_proxy :
      (c : ProxyConfig) (rs : List RoleConfig) (st : List (String × Value))
      → Completes w (check_proxy c rs st)
  unfolding check_proxy assert_call
  Completes-check_proxy c rs st = Completes-then _ _ Completes-network (
      Completes-then _ _ (Completes-assert_slot _ _ _ _) (
        Completes-then _ _ (Completes-assert_slot _ _ _ _) (
          Completes-then _ _ (Completes-assert_slot _ _ _ _) (
            Completes-then _ _ (Completes-assert_slot _ _ _ _) (
              Completes-then _ _ (Completes-view _ _ _ _ _) (
                Completes-then _ _ (Completes-view _ _ _ _ _) (
                  Completes-then _ _ (Completes-view _ _ _ _ _) (
                    Completes-then _ _ (Completes-assert_roles _ rs)
                      (Completes-assert_storage _ st)))))))))

-- Where every getter answers and the console prints, the five tasks with a contract to check all
-- return, whatever the answers are: a check that fails is a message, and never an error.
pub tasks-Completes :
    (w : World)
    → IsUp w
    → Completes w check_usdx
      × Completes w check_allowlist
      × Completes w check_blocklist
      × Completes w check_usdx_manager
      × Completes w check_usdx_pricer
unfolding check_usdx check_allowlist check_blocklist check_usdx_manager check_usdx_pricer
tasks-Completes w up = (
  Completes-check_proxy up _ _ _,
  Completes-check_proxy up _ _ _,
  Completes-then up _ _ (Completes-network up) (Completes-assert_storage up _ _),
  Completes-then up _ _ (Completes-network up)
      (Completes-then up _ _ (Completes-assert_roles up _ _) (Completes-assert_storage up _ _)),
  Completes-then up _ _ (Completes-network up)
      (Completes-then up _ _ (Completes-assert_roles up _ _) (Completes-assert_storage up _ _)),
)
