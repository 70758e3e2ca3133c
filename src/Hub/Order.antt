-- ===== src/Hub/Order.antt =====
-- The order of a batch of price ids (`setPriceIdForDeposits`).
use mathlib.Core.Path.{fun_ext}
use mathlib.Core.List.{Permᴰ}
use mathlib.Core.List.Permᴰ.{nil, cons, swap, trans}
use usdx_v.Base.{
  ℕ, ◌≡◌, ◌≢◌, ◌↔◌, refl, ap, sym, ◌∙◌, arith, false, List, [], ◌∷◌, contains, length, update,
}
use usdx_v.Evm.{Result, ok, >>=-eq-ok}
use usdx_v.Access.{AccessControl}
use usdx_v.Hub.State.{Hub, Event, price_id_set_for_deposit}
use usdx_v.Hub.Prices.{for_each_pair, set_deposit_price_id, set_price_id_for_deposits}

-- The first and the second array of a call, from the pairs of a deposit id and a price id.
abbrev pub firsts : List (ℕ × ℕ) → List ℕ
firsts [] = []
firsts (x ∷ ps) = x.0 ∷ firsts ps

abbrev pub seconds : List (ℕ × ℕ) → List ℕ
seconds [] = []
seconds (x ∷ ps) = x.1 ∷ seconds ps

-- The log after the events of the pairs.
abbrev pub events : List (ℕ × ℕ) → List Event → List Event
events [] log = log
events (x ∷ ps) log = events ps (price_id_set_for_deposit x.0 x.1 ∷ log)

same_lengths : (ps : List (ℕ × ℕ)) → length (firsts ps) ≡ length (seconds ps)
same_lengths [] = refl
same_lengths (x ∷ ps) = ground (arith, same_lengths ps)

same_zeros :
    {ps qs : List (ℕ × ℕ)} → Permᴰ ps qs → contains 0 (seconds ps) ≡ contains 0 (seconds qs)
same_zeros nil = refl
same_zeros (cons e d) = ground (arith, same_zeros d)
same_zeros (swap e f) = ground arith
same_zeros (trans d e) = ground (arith, same_zeros d, same_zeros e)

module _ {R W : Type 0} where
  abbrev batch : List (ℕ × ℕ) → Hub R W → Result (Hub R W)
  batch ps h = for_each_pair set_deposit_price_id (firsts ps) (seconds ps) h

  -- The state after a round.
  abbrev given : (x : ℕ × ℕ) → Hub R W → Hub R W
  given x h = record h {
    deposits = update h.deposits x.0 (record (h.deposits x.0) { price_id = x.1 });
    log = price_id_set_for_deposit x.0 x.1 ∷ h.log;
  }

  set_deposit_price_id_iff :
      (x : ℕ × ℕ) (h h₁ : Hub R W)
      → (set_deposit_price_id x.0 x.1 h ≡ ok h₁)
        ↔ (((h.deposits x.0).user ≢ 0) × ((h.deposits x.0).price_id ≡ 0) × (h₁ ≡ given x h))
  unfolding set_deposit_price_id
  set_deposit_price_id_iff x h h₁ = ground arith

  batch-frame :
      (ps : List (ℕ × ℕ)) (log : List Event) (h h' : Hub R W)
      → batch ps h ≡ ok h'
      → batch ps (record h { log = log }) ≡ ok (record h' { log = events ps log })
  unfolding for_each_pair
  batch-frame [] log h h' e = ground arith
  batch-frame (x ∷ ps) log h h' e =
      let (h₁, e₁, e₂) =
        >>=-eq-ok (set_deposit_price_id x.0 x.1 h)
          (for_each_pair set_deposit_price_id (firsts ps) (seconds ps)) e in
      let (user, unpriced, same) = (set_deposit_price_id_iff x h h₁).0 e₁ in
      let log' = price_id_set_for_deposit x.0 x.1 ∷ log in
      let step =
        (set_deposit_price_id_iff x (record h { log = log }) (record h₁ { log = log' })).1
          (user, unpriced, ap {A = Hub R W} (λ g. record g { log = log' }) same) in
      rw step (batch-frame ps log' h₁ h' e₂)

  -- Two rounds for different deposits commute, but for the order of their events.
  given_comm :
      (x y : ℕ × ℕ) (h : Hub R W)
      → x.0 ≢ y.0
      → given x (given y h) ≡ record (given y (given x h)) {
        log = price_id_set_for_deposit x.0 x.1 ∷ price_id_set_for_deposit y.0 y.1 ∷ h.log;
      }
  given_comm x y h ne =
      let same : (given x (given y h)).deposits ≡ (given y (given x h)).deposits =
        fun_ext (λ j. ground arith) in
      λ i. record (given x (given y h)) { deposits = same i }

  batch-swap :
      (x y : ℕ × ℕ) (l : List (ℕ × ℕ)) (h h' : Hub R W)
      → x.1 ≢ 0
      → batch (x ∷ y ∷ l) h ≡ ok h'
      → batch (y ∷ x ∷ l) h ≡ ok (record h' { log = events (y ∷ x ∷ l) h.log })
  unfolding for_each_pair
  batch-swap x y l h h' nz e =
      let (h₁, e₁, e₂) =
        >>=-eq-ok (set_deposit_price_id x.0 x.1 h)
          (for_each_pair set_deposit_price_id (firsts (y ∷ l)) (seconds (y ∷ l))) e in
      let (h₂, e₃, e₄) =
        >>=-eq-ok (set_deposit_price_id y.0 y.1 h₁)
          (for_each_pair set_deposit_price_id (firsts l) (seconds l)) e₂ in
      let (ux, zx, sx) = (set_deposit_price_id_iff x h h₁).0 e₁ in
      let (uy, zy, sy) = (set_deposit_price_id_iff y h₁ h₂).0 e₃ in
      let ne : x.0 ≢ y.0 = λ same. absurd (ground arith) in
      let s₁ = (set_deposit_price_id_iff y h (given y h)).1 (ground arith, ground arith, refl) in
      let s₂ =
        (set_deposit_price_id_iff x (given y h) (given x (given y h))).1
          (ground arith, ground arith, refl) in
      let log' = price_id_set_for_deposit x.0 x.1 ∷ price_id_set_for_deposit y.0 y.1 ∷ h.log in
      let two : h₂ ≡ given y (given x h) = sy ∙ ap {A = Hub R W} (given y) sx in
      let same : given x (given y h) ≡ record h₂ { log = log' } =
        given_comm x y h ne ∙ ap {A = Hub R W} (λ g. record g { log = log' }) (sym two) in
      rw (s₁, s₂, same) (batch-frame l log' h₂ h' e₄)

  -- After a permutation of the pairs, the batch leaves the same state, with the events in the new order.
  batch-order :
      {ps qs : List (ℕ × ℕ)} (h h' : Hub R W)
      → Permᴰ ps qs
      → contains 0 (seconds ps) ≡ false
      → batch ps h ≡ ok h'
      → batch qs h ≡ ok (record h' { log = events qs h.log })
  unfolding for_each_pair
  batch-order h h' nil z e = batch-frame [] h.log h h' e
  batch-order h h' (cons {a} {b} {l₁ = ps} {l₂ = qs} same d) z e =
      let (h₁, e₁, e₂) =
        >>=-eq-ok (set_deposit_price_id a.0 a.1 h)
          (for_each_pair set_deposit_price_id (firsts ps) (seconds ps)) e in
      let (user, unpriced, step) = (set_deposit_price_id_iff a h h₁).0 e₁ in
      let log₁ : h₁.log ≡ price_id_set_for_deposit a.0 a.1 ∷ h.log =
        ap {A = Hub R W} (λ g. g.log) step in
      let rest = batch-order h₁ h' d (ground arith) e₂ in rw (sym same, e₁) (rw log₁ at rest)
  batch-order h h' (swap {a} {b} {a'} {b'} {l} e f) z r =
      rw (sym f, sym e) (batch-swap a b l h h' (ground arith) r)
  batch-order h h' (trans {l₁ = ps} {l₂ = qs} {l₃ = rs} d e) z r =
      let first = batch-order h h' d z r in
      batch-order h (record h' { log = events qs h.log }) e (ground (arith, same_zeros d)) first

module _ ⦃ac : AccessControl⦄ {W : Type 0} where
  -- A batch of price ids without the price id 0 that `setPriceIdForDeposits` accepts is accepted in any
  -- other order of its pairs too, and leaves the same state, in which only the events stand in the
  -- other order.
  pub set_price_id_for_deposits-order :
      (sender : ℕ) (ps qs : List (ℕ × ℕ)) (h h' : Hub ac.Roles W)
      → Permᴰ ps qs
      → contains 0 (seconds ps) ≡ false
      → set_price_id_for_deposits sender (firsts ps) (seconds ps) h ≡ ok h'
      → set_price_id_for_deposits sender (firsts qs) (seconds qs) h
        ≡ ok (record h' { log = events qs h.log })
  unfolding set_price_id_for_deposits
  set_price_id_for_deposits-order sender ps qs h h' d z e =
      ground (arith, same_lengths ps, same_lengths qs, batch-order h h' d z)
