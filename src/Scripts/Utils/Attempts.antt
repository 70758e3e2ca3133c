-- ===== src/Scripts/Utils/Attempts.antt =====
-- What deployWithRetries of scripts/utils/deploy.ts does to a deployment that may fail.
use Prim.Native.String.{String, ◌++◌}
use usdx_v.Base.{
  ℕ, zero, suc, ◌≡◌, ◌⊎◌, inl, inr, refl, arith, Bool, true, Option-cases, some, none, List, ◌∷◌,
}
use usdx_v.Scripts.Script.{World, Script, Effect, Outcome, returned, thrown, print, prompt}
use usdx_v.Scripts.Utils.Retry.{ask, is_truthy, try_deployment, deploy_with_retries}

-- The questions and the console go through.
pub record IsOpen (w : World) (name : String) : Type 0 where
  pub asked : (h : List Effect) (i : ℕ) → w.accepts h (prompt name i) ≡ true
  pub printed : (h : List Effect) (s : String) → w.accepts h (print s) ≡ true

-- The histories that attempts at a deployment lead to, with at most `left` of them: each one follows a
-- question, the first one that returns ends them, and the error of any other one is printed.
pub data Attempts (func : Script (Unit {0})) (w : World) (name : String)
    : (left i : ℕ) (h h' : List Effect) → Type 0 where
  exhausted : {i : ℕ} {h : List Effect} → Attempts func w name zero i h h
  succeeded :
      {left i : ℕ} {h h' : List Effect}
      → func w (prompt name i ∷ h) ≡ (h', returned tt)
      → Attempts func w name (suc left) i h h'
  failed :
      {left i : ℕ} {h h' : List Effect} (h₁ : List Effect) (e : String)
      → func w (prompt name i ∷ h) ≡ (h₁, thrown e)
      → Attempts func w name left (suc i) (print e ∷ h₁) h'
      → Attempts func w name (suc left) i h h'

Outcome-cases :
    (r : List Effect × Outcome (Unit {0}))
    → ((h : List Effect) × (r ≡ (h, returned tt)))
      ⊎ ((h : List Effect) × (e : String) × (r ≡ (h, thrown e)))
Outcome-cases (h, returned tt) = inl (h, refl)
Outcome-cases (h, thrown e) = inr (h, e, refl)

module _ (func : Script (Unit {0})) (name : String) (w : World) (a : IsOpen w name) where
  try_deployment_lem :
      (left i : ℕ) (h : List Effect)
      → (h' : List Effect) × (try_deployment left i func name w h ≡ (h', returned tt))
        × Attempts func w name left i h h'
  unfolding try_deployment ask is_truthy
  try_deployment_lem zero i h = (h, refl, exhausted)
  try_deployment_lem (suc left) i h = elim (Outcome-cases (func w (prompt name i ∷ h))) [
    | inl (h', e) ↦ (h', ground (arith, a.asked h i), succeeded e)
    | inr (h₁, t, e) ↦
        let (h', r, s) = try_deployment_lem left (suc i) (print t ∷ h₁) in
        (h', ground (arith, a.asked h i, a.printed h₁ t, r), failed h₁ t e s)
  ]

  -- Where the questions and the console go through, deployWithRetries returns, whatever the deployment
  -- does: where the contract is saved it runs nothing, and else it runs the deployment up to three
  -- times, each time after a question, until one run returns. An error of a run is printed.
  pub deploy_with_retries-Attempts :
      (h : List Effect)
      → (h' : List Effect) × (deploy_with_retries func name w h ≡ (h', returned tt))
        × (((saved : ℕ) × (w.contract h name ≡ some saved)
              × (h' ≡ print (name ++ " already deployed") ∷ h))
            ⊎ ((w.contract h name ≡ none) × Attempts func w name 3 1 h h'))
  unfolding deploy_with_retries
  deploy_with_retries-Attempts h = elim (Option-cases (w.contract h name)) [
    | inl (saved, e) ↦ (
      print (name ++ " already deployed") ∷ h,
      ground (arith, a.printed h (name ++ " already deployed")),
      inl (saved, e, refl),
    )
    | inr e ↦ let (h', r, s) = try_deployment_lem 3 1 h in (h', ground (arith, r), inr (e, s))
  ]

-- The user's answers change nothing: deployWithRetries does the same whatever they are, if the
-- deployment does. So a deployment that was declined is run all the same.
module _ (func : Script (Unit {0})) (name : String) (w : World) (answer : List Effect → Bool) where
  try_deployment_same :
      (left i : ℕ) (h : List Effect)
      → ((g : List Effect) → func (record w { answer = answer }) g ≡ func w g)
      → try_deployment left i func name (record w { answer = answer }) h
        ≡ try_deployment left i func name w h
  unfolding try_deployment ask is_truthy
  try_deployment_same zero i h same = refl
  try_deployment_same (suc left) i h same = elim (Outcome-cases (func w (prompt name i ∷ h))) [
    | inl (h', e) ↦ ground (arith, same (prompt name i ∷ h))
    | inr (h₁, t, e) ↦
        ground
          (arith, same (prompt name i ∷ h), try_deployment_same left (suc i) (print t ∷ h₁) same)
  ]

  pub deploy_with_retries_ignores_answer :
      (h : List Effect)
      → ((g : List Effect) → func (record w { answer = answer }) g ≡ func w g)
      → deploy_with_retries func name (record w { answer = answer }) h
        ≡ deploy_with_retries func name w h
  unfolding deploy_with_retries
  deploy_with_retries_ignores_answer h same = ground (arith, try_deployment_same 3 1 h same)
