-- ===== src/Scripts/Verify/Silence.antt =====
-- Scripts that do nothing but print, and when they print nothing.
use Prim.Native.String.{String}
use usdx_v.Base.{
  ℕ, ◌≡◌, ◌≢◌, ◌↔◌, some, refl, sym, ap, ◌∙◌, arith, Bool-cases, inl, inr, Bool, true, false, List,
  [], ◌∷◌, ◌++◌, length, length-append, All,
}
use usdx_v.Scripts.Script.{
  Script, World, Effect, Outcome, returned, thrown, ◌>>=◌, ◌>>◌, pure, throw, print, log, call_view,
  Value,
}
use usdx_v.Scripts.Verify.Helpers.{assert}

pub data IsPrint : Effect → Type 0 where
  is_print : (s : String) → IsPrint (print s)

-- Whatever the script does to the outside world, it is printing.
unfoldable pub OnlyPrints : {A : Type 0} → Script A → Type 0
OnlyPrints s =
    (w : World) (h : List Effect) → (new : List Effect) × All IsPrint new × ((s w h).0 ≡ new ++ h)

All-append : (xs ys : List Effect) → All IsPrint xs → All IsPrint ys → All IsPrint (xs ++ ys)
All-append [] ys p q = q
All-append (x ∷ xs) ys p q = (p.0, All-append xs ys p.1 q)

append_assoc : (xs ys zs : List Effect) → xs ++ (ys ++ zs) ≡ (xs ++ ys) ++ zs
append_assoc [] ys zs = refl
append_assoc (x ∷ xs) ys zs = rw (append_assoc xs ys zs) refl

append_nothing : (xs ys : List Effect) → xs ++ ys ≡ ys → xs ≡ []
append_nothing [] ys e = refl
append_nothing (x ∷ xs) ys e = absurd (omega (arith, length-append (x ∷ xs) ys, ap length e))

longer : (e : Effect) (h : List Effect) → e ∷ h ≢ h
longer e h k = omega (arith, ap length k)

-- What follows the outcome of a first script.
abbrev pub follow :
    {A B : Type 0} → (A → Script B) → World → List Effect × Outcome A → List Effect × Outcome B
follow f w (h', r) = elim r [ returned a ↦ f a w h' | thrown e ↦ (h', thrown e) ]

follow_prints :
    {A B : Type 0} (f : A → Script B) (w : World) (h : List Effect) (o : List Effect × Outcome A)
    → ((a : A) → OnlyPrints (f a))
    → (new : List Effect) × All IsPrint new × (o.0 ≡ new ++ h)
    → (new : List Effect) × All IsPrint new × ((follow f w o).0 ≡ new ++ h)
unfolding OnlyPrints
follow_prints f w h (h', thrown e) pf q = q
follow_prints f w h (h', returned a) pf (xs, p, e) =
    let (ys, q, k) = pf a w h' in
    (ys ++ xs, All-append ys xs q p, k ∙ ap (λ l. ys ++ l) e ∙ append_assoc ys xs h)

append_end : (xs ys : List Effect) → xs ++ ys ≡ [] → ys ≡ []
append_end [] ys e = e
append_end (x ∷ xs) ys e = cc

pub OnlyPrints->>= :
    {A B : Type 0} (m : Script A) (f : A → Script B)
    → OnlyPrints m
    → ((a : A) → OnlyPrints (f a))
    → OnlyPrints (m >>= f)
unfolding OnlyPrints
OnlyPrints->>= m f pm pf w h = follow_prints f w h (m w h) pf (pm w h)

follow_silent :
    {A B : Type 0} (f : A → Script B) (w : World) (h : List Effect) (o : List Effect × Outcome A)
    (b : B)
    → ((a : A) → OnlyPrints (f a))
    → (new : List Effect) × All IsPrint new × (o.0 ≡ new ++ h)
    → follow f w o ≡ (h, returned b)
    → (a : A) × (o ≡ (h, returned a)) × (f a w h ≡ (h, returned b))
unfolding OnlyPrints
follow_silent f w h (h', thrown e) b pf q k = cc
follow_silent f w h (h', returned a) b pf (xs, p, e) k =
    let (ys, q, l) = pf a w h' in
    let both : (ys ++ xs) ++ h ≡ h =
      sym (append_assoc ys xs h) ∙ ap (λ l. ys ++ l) (sym e) ∙ sym l ∙ ap (λ q. q.0) k in
    let none_new : xs ≡ [] = append_end ys xs (append_nothing (ys ++ xs) h both) in
    let same : h' ≡ h = e ∙ ap (λ l. l ++ h) none_new in (a, rw same refl, rw same at k)

-- A script of two parts that only print is silent exactly where both parts are.
pub silent-bind :
    {A B : Type 0} (m : Script A) (f : A → Script B) (w : World) (h : List Effect) (b : B)
    → OnlyPrints m
    → ((a : A) → OnlyPrints (f a))
    → (m >>= f) w h ≡ (h, returned b)
    → (a : A) × (m w h ≡ (h, returned a)) × (f a w h ≡ (h, returned b))
unfolding OnlyPrints
silent-bind m f w h b pm pf k = follow_silent f w h (m w h) b pf (pm w h) k

pub OnlyPrints-log : (s : String) → OnlyPrints (log s)
unfolding OnlyPrints
OnlyPrints-log s w h = elim (Bool-cases (w.accepts h (print s))) [
  | inl e ↦ (print s ∷ [], (is_print s, tt), rw e refl)
  | inr e ↦ ([], tt, rw e refl)
]

pub OnlyPrints-call_view :
    (c : ℕ) (g : String) (args : List Value) → OnlyPrints (call_view c g args)
unfolding OnlyPrints
OnlyPrints-call_view c g args w h = ([], tt, ground arith)

pub OnlyPrints-pure : {A : Type 0} (a : A) → OnlyPrints (pure a)
unfolding OnlyPrints
OnlyPrints-pure a w h = ([], tt, refl)

pub OnlyPrints-throw : (A : Type 0) (e : String) → OnlyPrints {A = A} (throw e)
unfolding OnlyPrints
OnlyPrints-throw A e w h = ([], tt, refl)

pub OnlyPrints-assert : (b : Bool) (message : String) → OnlyPrints (assert b message)
OnlyPrints-assert true message = OnlyPrints-pure tt
OnlyPrints-assert false message = OnlyPrints-log message

pub assert_silent :
    (b : Bool) (message : String) (w : World) (h : List Effect)
    → assert b message w h ≡ (h, returned tt)
    → b ≡ true
assert_silent true message w h e = refl
assert_silent false message w h e = elim (Bool-cases (w.accepts h (print message))) [
  | inl a ↦ absurd (longer (print message) h (ap (λ q. q.0) (rw a at e)))
  | inr a ↦ let thrown_away = rw a at e in cc
]

-- A script that checks something: it only prints, and it returns without printing exactly where `P`
-- holds.
pub record Checks (s : Script (Unit {0})) (P : World → List Effect → Type 0) : Type 1 where
  pub only_prints : OnlyPrints s
  pub silent : (w : World) (h : List Effect) → (s w h ≡ (h, returned tt)) ↔ P w h

view_silent :
    (c : ℕ) (g : String) (args : List Value) (w : World) (h : List Effect) (v : Value)
    → call_view c g args w h ≡ (h, returned v)
    → w.view h c g args ≡ some v
view_silent c g args w h v e = ground arith

view_answers :
    (c : ℕ) (g : String) (args : List Value) (w : World) (h : List Effect) (v : Value)
    → w.view h c g args ≡ some v
    → call_view c g args w h ≡ (h, returned v)
view_answers c g args w h v e = ground arith

pub Checks-nothing : Checks (pure tt) (λ w h. Unit)
Checks-nothing = record { only_prints = OnlyPrints-pure tt; silent = λ w h. (λ e. tt, λ t. refl) }

pub Checks-then :
    {s t : Script (Unit {0})} {P Q : World → List Effect → Type 0}
    → Checks s P
    → Checks t Q
    → Checks (s >> t) (λ w h. P w h × Q w h)
Checks-then {s} {t} p q = record {
  only_prints = OnlyPrints->>= s (λ _. t) p.only_prints (λ _. q.only_prints);
  silent = λ w h. (
    λ e.
        (let (u, e₁, e₂) = silent-bind s (λ _. t) w h tt p.only_prints (λ _. q.only_prints) e in
          ((p.silent w h).0 e₁, (q.silent w h).0 e₂)),
    λ (a, b). ap (follow (λ _. t) w) ((p.silent w h).1 a) ∙ (q.silent w h).1 b,
  );
}

pub Checks-assert : (b : Bool) (message : String) → Checks (assert b message) (λ w h. b ≡ true)
Checks-assert b message = record {
  only_prints = OnlyPrints-assert b message;
  silent = λ w h. (assert_silent b message w h, λ e. rw e refl);
}

-- A getter is called, and what follows checks the answer.
pub Checks-view :
    {k : Value → Script (Unit {0})} {P : Value → World → List Effect → Type 0} (c : ℕ) (g : String)
    (args : List Value)
    → ((v : Value) → Checks (k v) (P v))
    → Checks
        (call_view c g args >>= k)
        (λ w h. (v : Value) × (w.view h c g args ≡ some v) × P v w h)
Checks-view {k} c g args q = record {
  only_prints =
      OnlyPrints->>= (call_view c g args) k (OnlyPrints-call_view c g args)
        (λ v. (q v).only_prints);
  silent = λ w h. (
    λ e.
        (let (v, e₁, e₂) =
            silent-bind (call_view c g args) k w h tt (OnlyPrints-call_view c g args)
              (λ v. (q v).only_prints) e in
          (v, view_silent c g args w h v e₁, ((q v).silent w h).0 e₂)),
    λ (v, a, b). ap (follow k w) (view_answers c g args w h v a) ∙ ((q v).silent w h).1 b,
  );
}

-- The same check, with its condition put in another way.
pub Checks-iff :
    {s : Script (Unit {0})} {P Q : World → List Effect → Type 0}
    → Checks s P
    → ((w : World) (h : List Effect) → P w h ↔ Q w h)
    → Checks s Q
Checks-iff p e = record {
  only_prints = p.only_prints;
  silent = λ w h. (λ k. (e w h).0 ((p.silent w h).0 k), λ k. (p.silent w h).1 ((e w h).1 k));
}
