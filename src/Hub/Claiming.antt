-- ===== src/Hub/Claiming.antt =====
-- What a claim of a deposit needs and leaves behind (`_claimMint` and `claimMint`).
use usdx_v.Base.{
  ℕ, ◌≤◌, ◌<◌, ◌≡◌, ◌≢◌, refl, arith, List, [], ◌∷◌, contains, IsDistinct, true, false,
}
use usdx_v.Evm.{ok, revert, >>=-eq-ok, claimable_timestamp_not_set, revert_if, feature_paused}
use usdx_v.Hub.Peers.{Peers}
use usdx_v.Hub.State.{Hub, no_depositor}
use usdx_v.Hub.Amounts.{mint_amount_for_price}
use usdx_v.Hub.Subscribe.{hub_claim_mint, claim_one, claim_each, claim_mint}

module _ {R : Type 0} ⦃p : Peers⦄ where
  -- What the claim of a deposit means for the deposit itself and for the others.
  pub record IsClaimed (now id : ℕ) (h h' : Hub R p.World) : Type 0 where
    pub was_priced : (h.deposits id).price_id ≢ 0
    pub was_timed : 0 < h.claimable_timestamps id
    pub was_due : h.claimable_timestamps id ≤ now
    pub is_deleted : h'.deposits id ≡ no_depositor
    pub is_untimed : h'.claimable_timestamps id ≡ 0
    pub others_deposits : (j : ℕ) → j ≢ id → h'.deposits j ≡ h.deposits j
    pub others_timestamps : (j : ℕ) → j ≢ id → h'.claimable_timestamps j ≡ h.claimable_timestamps j
    pub same_redemptions : (j : ℕ) → h'.redemptions j ≡ h.redemptions j

  -- A claim that returns was of a priced deposit whose timestamp is set and has come; it deletes the
  -- deposit and its timestamp, and touches no other deposit, timestamp or redemption.
  pub claim_one-IsClaimed :
      (now id : ℕ) (h h' : Hub R p.World) → claim_one now id h ≡ ok h' → IsClaimed now id h h'
  unfolding claim_one hub_claim_mint
  claim_one-IsClaimed now id h h' e = ground arith

  pub claim_each_untimed :
      (now j : ℕ) (ids : List ℕ) (h h' : Hub R p.World)
      → claim_each now ids h ≡ ok h'
      → h.claimable_timestamps j ≡ 0
      → contains j ids ≡ false
  unfolding claim_each
  claim_each_untimed now j [] h h' e z = refl
  claim_each_untimed now j (id ∷ ids) h h' e z =
      let (h₁, e₁, e₂) = >>=-eq-ok (claim_one now id h) (claim_each now ids) e in
      let c = claim_one-IsClaimed now id h h₁ e₁ in
      let rest = claim_each_untimed now j ids h₁ h' e₂ in
      ground (arith, c.was_timed, rest, c.others_timestamps j)

  -- A claim that returns mints, to the depositor and to nobody else, the RWA amount of the deposit at
  -- the price that its price id has at that moment.
  pub claim_one_mints :
      (now id : ℕ) (h h' : Hub R p.World)
      → claim_one now id h ≡ ok h'
      → let d = h.deposits id in
        (price : ℕ) × (owed : ℕ) × (p.get_price h.world h.pricer d.price_id ≡ ok price)
        × (mint_amount_for_price h.decimals_multiplier d.amount_deposited_minus_fees price
            ≡ ok owed)
        × (p.mint h.rwa h.self d.user owed h.world ≡ ok h'.world)
  unfolding claim_one hub_claim_mint
  claim_one_mints now id h h' e = ground arith

  -- What a batch of claims means for each id, in the list or not.
  pub record IsBatchClaimed (now : ℕ) (ids : List ℕ) (h h' : Hub R p.World) : Type 0 where
    pub distinct : IsDistinct ids
    pub claimed :
        (j : ℕ)
        → contains j ids ≡ true
        → ((h.deposits j).price_id ≢ 0)
          × (0 < h.claimable_timestamps j)
          × (h.claimable_timestamps j ≤ now)
          × (h'.deposits j ≡ no_depositor)
          × (h'.claimable_timestamps j ≡ 0)
    pub others :
        (j : ℕ)
        → contains j ids ≡ false
        → (h'.deposits j ≡ h.deposits j) × (h'.claimable_timestamps j ≡ h.claimable_timestamps j)

  claim_each-IsBatchClaimed :
      (now : ℕ) (ids : List ℕ) (h h' : Hub R p.World)
      → claim_each now ids h ≡ ok h'
      → IsBatchClaimed now ids h h'
  unfolding claim_each
  claim_each-IsBatchClaimed now [] h h' e = record {
    distinct = tt;
    claimed = λ j c. cc;
    others = λ j c. ground arith;
  }
  claim_each-IsBatchClaimed now (id ∷ ids) h h' e =
      let (h₁, e₁, e₂) = >>=-eq-ok (claim_one now id h) (claim_each now ids) e in
      let c = claim_one-IsClaimed now id h h₁ e₁ in
      let b = claim_each-IsBatchClaimed now ids h₁ h' e₂ in
      let fresh = claim_each_untimed now id ids h₁ h' e₂ c.is_untimed in
      record {
        distinct = (fresh, b.distinct);
        claimed = λ j m. ground (
          arith,
          c.was_priced,
          c.was_timed,
          c.was_due,
          c.is_deleted,
          c.is_untimed,
          fresh,
          c.others_deposits j,
          c.others_timestamps j,
          b.claimed j,
          b.others j,
        );
        others = λ j m. ground (arith, c.others_deposits j, c.others_timestamps j, b.others j);
      }

  -- A batch that returns holds no id twice; each of its deposits was priced, timed and due in the
  -- state before the batch, and is deleted with its timestamp; every other deposit is as before.
  -- The contract was not paused.
  pub claim_mint-IsBatchClaimed :
      (now : ℕ) (ids : List ℕ) (h h' : Hub R p.World)
      → claim_mint now ids h ≡ ok h'
      → (h.subscription_paused ≡ false) × IsBatchClaimed now ids h h'
  unfolding claim_mint
  claim_mint-IsBatchClaimed now ids h h' e =
      let (u, e₀, e₁) =
        >>=-eq-ok (revert_if h.subscription_paused feature_paused) (λ _. claim_each now ids h) e in
      (ground arith, claim_each-IsBatchClaimed now ids h h' e₁)

  -- Whatever the other contracts do in between, a deposit that was claimed cannot be claimed again at
  -- any time, unless a timestamp is set for its id anew.
  pub claim_again_reverts :
      (now later id : ℕ) (h h' : Hub R p.World) (w : p.World)
      → claim_one now id h ≡ ok h'
      → claim_one later id (record h' { world = w }) ≡ revert claimable_timestamp_not_set
  unfolding claim_one
  claim_again_reverts now later id h h' w e =
      ground (arith, (claim_one-IsClaimed now id h h' e).is_untimed)
