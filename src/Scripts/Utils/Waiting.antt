-- ===== src/Scripts/Utils/Waiting.antt =====
-- How long waitNSecondsUntilNodeUp of scripts/utils/util.ts waits.
use Prim.Native.String.{String}
use native.Mathlib.Decide.{dec_lt}
use usdx_v.Base.{
  ℕ, zero, suc, ◌<◌, ◌≡◌, refl, arith, ◌⊎◌, inl, inr, Bool, true, false, Bool-cases, List, ◌∷◌,
}
use usdx_v.Scripts.Script.{World, Effect, returned, thrown, print, fetch_block_number, sleep_for}
use usdx_v.Scripts.Utils.Shell.{sleep}
use usdx_v.Scripts.Utils.Node.{get_block_number, wait_n_seconds_until_node_up}

-- The console and the timer go through.
pub record IsOpen (w : World) : Type 0 where
  pub printed : (h : List Effect) (s : String) → w.accepts h (print s) ≡ true
  pub slept : (h : List Effect) (ms : ℕ) → w.accepts h (sleep_for ms) ≡ true

-- The history when the ping number `k`, from 0, goes out: each one before was without an answer, and
-- was followed by a pause of one second.
abbrev pub pinging : (k : ℕ) → List Effect → List Effect
pinging zero h = print "Pinging eth node..." ∷ h
pinging (suc k) h =
    pinging k
      (sleep_for 1000 ∷ print "Unable to query node, error" ∷ print "Pinging eth node..." ∷ h)

-- The history after `n` pings without an answer.
abbrev pub unanswered : (n : ℕ) → List Effect → List Effect
unanswered zero h = h
unanswered (suc n) h =
    unanswered n
      (sleep_for 1000 ∷ print "Unable to query node, error" ∷ print "Pinging eth node..." ∷ h)

-- The first of `n` tests that holds, if one does.
first_true :
    (n : ℕ) (f : ℕ → Bool)
    → ((k : ℕ) × (k < n) × ((j : ℕ) → j < k → f j ≡ false) × (f k ≡ true))
      ⊎ ((j : ℕ) → j < n → f j ≡ false)
first_true zero f = inr (λ j l. absurd (omega arith))
first_true (suc n) f = elim (first_true n f) [
  | inl (k, l, before, at) ↦ inl (k, omega arith, before, at)
  | inr before ↦ elim (Bool-cases (f n)) [
    | inl at ↦ inl (n, omega arith, before, at)
    | inr none_at ↦ inr (λ j l. elim (dec_lt j n) [
      | yes below ↦ before j below
      | no above ↦ let e : j ≡ n = omega arith in rw e none_at
    ])
  ]
]

module _ (w : World) (url : String) where
  -- Whether the node answers the ping number `k`.
  abbrev pub Answered : ℕ → List Effect → Type 0
  Answered k h = w.accepts (pinging k h) (fetch_block_number url) ≡ true

  abbrev pub Silent : ℕ → List Effect → Type 0
  Silent k h = w.accepts (pinging k h) (fetch_block_number url) ≡ false

module _ (w : World) (url : String) (o : IsOpen w) where
  first_success :
      (n k : ℕ) (h : List Effect)
      → k < n
      → ((j : ℕ) → j < k → Silent w url j h)
      → Answered w url k h
      → wait_n_seconds_until_node_up url n w h
        ≡ (print "Response" ∷ fetch_block_number url ∷ pinging k h, returned tt)
  unfolding wait_n_seconds_until_node_up get_block_number sleep
  first_success zero k h lt s a = absurd (omega arith)
  first_success (suc n) zero h lt s a = ground (
    arith,
    o.printed h "Pinging eth node...",
    a,
    o.printed (fetch_block_number url ∷ pinging 0 h) "Response",
  )
  first_success (suc n) (suc k) h lt s a = ground (
    arith,
    o.printed h "Pinging eth node...",
    s 0 (omega arith),
    o.printed (pinging 0 h) "Unable to query node, error",
    o.slept (print "Unable to query node, error" ∷ pinging 0 h) 1000,
    first_success n k (sleep_for 1000 ∷ print "Unable to query node, error" ∷ pinging 0 h)
        (omega arith) (λ j l. s (suc j) (omega arith)) a,
  )

  all_failures :
      (n : ℕ) (h : List Effect)
      → ((j : ℕ) → j < n → Silent w url j h)
      → wait_n_seconds_until_node_up url n w h
        ≡ (unanswered n h, thrown "Unable to contact node in a timely manner.")
  unfolding wait_n_seconds_until_node_up get_block_number sleep
  all_failures zero h s = refl
  all_failures (suc n) h s = ground (
    arith,
    o.printed h "Pinging eth node...",
    s 0 (omega arith),
    o.printed (pinging 0 h) "Unable to query node, error",
    o.slept (print "Unable to query node, error" ∷ pinging 0 h) 1000,
    all_failures n (sleep_for 1000 ∷ print "Unable to query node, error" ∷ pinging 0 h)
        (λ j l. s (suc j) (omega arith)),
  )

  -- Where the console and the timer go through, the wait returns after the first of at most `n` pings
  -- that the node answers, with a pause of one second after each one before; if it answers none of
  -- them, the wait throws after `n` pings and pauses.
  pub wait_n_seconds_until_node_up-returns_or_throws :
      (n : ℕ) (h : List Effect)
      → ((k : ℕ) × (k < n)
          × ((j : ℕ) → j < k → Silent w url j h)
          × Answered w url k h
          × (wait_n_seconds_until_node_up url n w h
              ≡ (print "Response" ∷ fetch_block_number url ∷ pinging k h, returned tt)))
        ⊎ (((j : ℕ) → j < n → Silent w url j h)
            × (wait_n_seconds_until_node_up url n w h
                ≡ (unanswered n h, thrown "Unable to contact node in a timely manner.")))
  wait_n_seconds_until_node_up-returns_or_throws n h =
      elim (first_true n (λ k. w.accepts (pinging k h) (fetch_block_number url))) [
        | inl (k, l, before, at) ↦ inl (k, l, before, at, first_success n k h l before at)
        | inr silent ↦ inr (silent, all_failures n h silent)
      ]
