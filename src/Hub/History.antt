-- ===== src/Hub/History.antt =====
-- The histories of accepted calls, and the lives of what is booked, priced and claimed in them.
use usdx_v.Base.{ℕ, ◌≡◌, Bool, false, List, [], ◌∷◌}
use usdx_v.Evm.{ok}
use usdx_v.Access.{AccessControl}
use usdx_v.Hub.Peers.{Peers}
use usdx_v.Hub.State.{Hub}
use usdx_v.Hub.Calls.{Call, exec}

module _ ⦃ac : AccessControl⦄ ⦃p : Peers⦄ where
  -- An accepted call, with the state before it.
  pub record Entry : Type 0 where
    pub sender : ℕ
    pub now : ℕ
    pub call : Call
    pub before : Hub ac.Roles p.World

  -- The accepted calls, the last one first, and the state after them. The other contracts move in any
  -- way between two calls.
  pub data History (h₀ : Hub ac.Roles p.World) : List Entry → Hub ac.Roles p.World → Type 0 where
    here : History h₀ [] h₀
    next :
        {es : List Entry} {h : Hub ac.Roles p.World}
        → (sender now : ℕ) (c : Call) (h' : Hub ac.Roles p.World) → History h₀ es h
        → exec sender now c h ≡ ok h'
        → History h₀ (record { sender = sender; now = now; call = c; before = h } ∷ es) h'
    others_move :
        {es : List Entry} {h : Hub ac.Roles p.World} (w : p.World)
        → History h₀ es h
        → History h₀ es (record h { world = w })

  -- A kind of entry: which calls claim it, book it, price it and overwrite it, and in which states it
  -- is held and priced.
  pub record Life : Type 1 where
    pub claims : Call → Bool
    pub Books : (sender : ℕ) → Call → Hub ac.Roles p.World → Type 0
    pub Prices : (sender : ℕ) → Call → Hub ac.Roles p.World → Type 0
    pub Overwrites : (sender : ℕ) → Call → Hub ac.Roles p.World → Type 0
    pub Held : Hub ac.Roles p.World → Type 0
    pub Priced : Hub ac.Roles p.World → Type 0

  -- Since the last claim, the entry was booked or overwritten.
  pub data BookedSince (l : Life) : List Entry → Type 0 where
    booked :
        (e : Entry) {es : List Entry} → l.Books e.sender e.call e.before → BookedSince l (e ∷ es)
    overwritten :
        (e : Entry) {es : List Entry}
        → l.Overwrites e.sender e.call e.before
        → BookedSince l (e ∷ es)
    kept :
        (e : Entry) {es : List Entry}
        → l.claims e.call ≡ false
        → BookedSince l es
        → BookedSince l (e ∷ es)

  -- Since the last claim, the entry was booked and then priced, or overwritten.
  pub data PricedSince (l : Life) : List Entry → Type 0 where
    priced :
        (e : Entry) {es : List Entry}
        → l.Prices e.sender e.call e.before
        → BookedSince l es
        → PricedSince l (e ∷ es)
    overwritten :
        (e : Entry) {es : List Entry}
        → l.Overwrites e.sender e.call e.before
        → PricedSince l (e ∷ es)
    kept :
        (e : Entry) {es : List Entry}
        → l.claims e.call ≡ false
        → PricedSince l es
        → PricedSince l (e ∷ es)

  -- What an accepted call is to the entry.
  pub data Step (l : Life) (sender : ℕ) (c : Call) (h h' : Hub ac.Roles p.World) : Type 0 where
    vacates : ¬ (l.Held h') → ¬ (l.Priced h') → Step l sender c h h'
    keeps :
        l.claims c ≡ false
        → (l.Held h' → l.Held h)
        → (l.Priced h' → l.Priced h)
        → Step l sender c h h'
    books : l.Books sender c h → ¬ (l.Priced h') → Step l sender c h h'
    prices :
        l.Prices sender c h
        → l.claims c ≡ false
        → (l.Held h' → l.Held h)
        → (l.Priced h' → l.Held h)
        → Step l sender c h h'
    overwrites : l.Overwrites sender c h → Step l sender c h h'

  -- The calls of the contract as steps of the life, in which the other contracts have no part.
  pub record IsLived (l : Life) : Type 0 where
    pub steps :
        (sender now : ℕ) (c : Call) (h h' : Hub ac.Roles p.World)
        → exec sender now c h ≡ ok h'
        → Step l sender c h h'
    pub moves :
        (w : p.World) (h : Hub ac.Roles p.World)
        → (l.Held (record h { world = w }) → l.Held h)
          × (l.Priced (record h { world = w }) → l.Priced h)

  module _ (l : Life) (lived : IsLived l) where
    History-BookedSince :
        {h₀ h : Hub ac.Roles p.World} {es : List Entry}
        → ¬ (l.Held h₀)
        → History h₀ es h
        → l.Held h
        → BookedSince l es
    History-BookedSince v here u = absurd (v u)
    History-BookedSince v (others_move {es} {h} w r) u =
        History-BookedSince v r ((lived.moves w h).0 u)
    History-BookedSince v (next {es} {h} sender now c h' r e) u =
        let n : Entry = record { sender = sender; now = now; call = c; before = h } in
        elim (lived.steps sender now c h h' e) [
          | vacates gone unpriced ↦ absurd (gone u)
          | keeps other held was ↦ kept n other (History-BookedSince v r (held u))
          | books b unpriced ↦ booked n b
          | prices b other held was ↦ kept n other (History-BookedSince v r (held u))
          | overwrites o ↦ overwritten n o
        ]

    -- What is priced was, since the last claim of it, booked and then priced, or overwritten.
    pub History-PricedSince :
        {h₀ h : Hub ac.Roles p.World} {es : List Entry}
        → ¬ (l.Held h₀)
        → ¬ (l.Priced h₀)
        → History h₀ es h
        → l.Priced h
        → PricedSince l es
    History-PricedSince v z here q = absurd (z q)
    History-PricedSince v z (others_move {es} {h} w r) q =
        History-PricedSince v z r ((lived.moves w h).1 q)
    History-PricedSince v z (next {es} {h} sender now c h' r e) q =
        let n : Entry = record { sender = sender; now = now; call = c; before = h } in
        elim (lived.steps sender now c h h' e) [
          | vacates gone unpriced ↦ absurd (unpriced q)
          | keeps other held was ↦ kept n other (History-PricedSince v z r (was q))
          | books b unpriced ↦ absurd (unpriced q)
          | prices b other held was ↦ priced n b (History-BookedSince v r (was q))
          | overwrites o ↦ overwritten n o
        ]
