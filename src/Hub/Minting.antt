-- ===== src/Hub/Minting.antt =====
-- What a batch of claims mints, in exact numbers (`claimMint`).
use usdx_v.Base.{
  ℕ, ◌+◌, ◌*◌, ◌/◌, ◌≡◌, refl, ◌∙◌, arith, true, List, [], ◌∷◌, contains, ◌==◌, if◌then◌else◌,
}
use usdx_v.Evm.{ok, revert, >>=-eq-ok}
use usdx_v.Hub.Peers.{Peers}
use usdx_v.Hub.State.{Hub}
use usdx_v.Hub.Amounts.{mint_amount_for_price, scale_up, e18}
use usdx_v.Hub.Subscribe.{hub_claim_mint, claim_one, claim_each, claim_mint}
use usdx_v.Hub.Claiming.{claim_one-IsClaimed, claim_one_mints, claim_each_untimed}

-- What the ERC-20 standard says of the balances after a mint, and that it changes no price.
pub record MintLaws (p : Peers) : Type 1 where
  pub balance_of : p.World → (token account : ℕ) → ℕ
  pub mint_credits :
      (rwa caller to amount account : ℕ) (w w' : p.World)
      → p.mint rwa caller to amount w ≡ ok w'
      → balance_of w' rwa account ≡ balance_of w rwa account + (if account == to then amount else 0)
  pub mint_keeps_prices :
      (rwa caller to amount pricer price_id : ℕ) (w w' : p.World)
      → p.mint rwa caller to amount w ≡ ok w'
      → p.get_price w' pricer price_id ≡ p.get_price w pricer price_id

mint_amount_exact :
    (m d price amount : ℕ)
    → mint_amount_for_price m d price ≡ ok amount
    → amount ≡ d * m * e18 / price
unfolding mint_amount_for_price scale_up
mint_amount_exact m d price amount e = ground arith

module _ {R : Type 0} ⦃p : Peers⦄ where
  -- The tokens owed to the account for the deposit `id`: the amount, scaled up to the decimals of the
  -- token, over the price in 18 decimals, rounded down.
  unfoldable pub owed : Hub R p.World → (account id : ℕ) → ℕ
  owed h account id =
      let d = h.deposits id in
      if account == d.user
      then elim (p.get_price h.world h.pricer d.price_id) [
        | ok price ↦ d.amount_deposited_minus_fees * h.decimals_multiplier * e18 / price
        | revert x ↦ 0
      ]
      else 0

  unfoldable pub total_owed : Hub R p.World → (account : ℕ) → List ℕ → ℕ
  total_owed h account [] = 0
  total_owed h account (id ∷ ids) = owed h account id + total_owed h account ids

  record Keeps (h h' : Hub R p.World) : Type 0 where
    same_pricer : h'.pricer ≡ h.pricer
    same_multiplier : h'.decimals_multiplier ≡ h.decimals_multiplier
    same_rwa : h'.rwa ≡ h.rwa

  claim_one-Keeps : (now id : ℕ) (h h' : Hub R p.World) → claim_one now id h ≡ ok h' → Keeps h h'
  unfolding claim_one hub_claim_mint
  claim_one-Keeps now id h h' e = ground arith

  -- Deposits that are as they were are owed what they were.
  total_owed_kept :
      (h h₁ : Hub R p.World) (account : ℕ) (ids : List ℕ)
      → ((j : ℕ) → contains j ids ≡ true → h₁.deposits j ≡ h.deposits j)
      → ((pricer q : ℕ) → p.get_price h₁.world pricer q ≡ p.get_price h.world pricer q)
      → Keeps h h₁
      → total_owed h₁ account ids ≡ total_owed h account ids
  unfolding total_owed owed
  total_owed_kept h h₁ account [] keep prices k = refl
  total_owed_kept h h₁ account (id ∷ ids) keep prices k =
      let rest = total_owed_kept h h₁ account ids (λ j m. keep j (ground arith)) prices k in
      let here = keep id (ground arith) in
      let same_price = prices h.pricer (h.deposits id).price_id in
      ground (arith, k.same_pricer, k.same_multiplier)

  module _ (laws : MintLaws p) where
    abbrev held : Hub R p.World → ℕ → ℕ
    held h account = laws.balance_of h.world h.rwa account

    claim_one_credits :
        (now id account : ℕ) (h h' : Hub R p.World)
        → claim_one now id h ≡ ok h'
        → held h' account ≡ held h account + owed h account id
    unfolding owed
    claim_one_credits now id account h h' e =
        let d = h.deposits id in
        let (price, amount, known, computed, minted) = claim_one_mints now id h h' e in
        let exact =
          mint_amount_exact h.decimals_multiplier d.amount_deposited_minus_fees price amount
            computed in
        let k = claim_one-Keeps now id h h' e in
        let credit = laws.mint_credits h.rwa h.self d.user amount account h.world h'.world minted in
        ground (arith, k.same_rwa)

    claim_one_prices :
        (now id pricer q : ℕ) (h h' : Hub R p.World)
        → claim_one now id h ≡ ok h'
        → p.get_price h'.world pricer q ≡ p.get_price h.world pricer q
    claim_one_prices now id pricer q h h' e =
        let (price, amount, known, computed, minted) = claim_one_mints now id h h' e in
        laws.mint_keeps_prices h.rwa h.self (h.deposits id).user amount pricer q h.world h'.world
          minted

    claim_each_credits :
        (now account : ℕ) (ids : List ℕ) (h h' : Hub R p.World)
        → claim_each now ids h ≡ ok h'
        → (held h' account ≡ held h account + total_owed h account ids) × (h'.rwa ≡ h.rwa)
    unfolding claim_each total_owed
    claim_each_credits now account [] h h' e = ground arith
    claim_each_credits now account (id ∷ ids) h h' e =
        let (h₁, e₁, e₂) = >>=-eq-ok (claim_one now id h) (claim_each now ids) e in
        let c = claim_one-IsClaimed now id h h₁ e₁ in
        let fresh = claim_each_untimed now id ids h₁ h' e₂ c.is_untimed in
        let kept =
          λ (j : ℕ) (m : contains j ids ≡ true). c.others_deposits j (λ same. ground arith) in
        let prices = λ (x y : ℕ). claim_one_prices now id x y h h₁ e₁ in
        let same = total_owed_kept h h₁ account ids kept prices (claim_one-Keeps now id h h₁ e₁) in
        let first = claim_one_credits now id account h h₁ e₁ in
        let k = claim_one-Keeps now id h h₁ e₁ in
        let (rest, same_rwa) = claim_each_credits now account ids h₁ h' e₂ in
        (omega (arith, first, rest, same), same_rwa ∙ k.same_rwa)

    -- A batch of claims that returns adds to the balance of every account exactly the tokens that its
    -- deposits in the batch are owed, each id once, at the prices before the batch: for each, the amount
    -- of the deposit times the multiplier times 10 ^ 18 over the price, rounded down. A mint credits the
    -- receiver alone and changes no price.
    pub claim_mint_credits :
        (now account : ℕ) (ids : List ℕ) (h h' : Hub R p.World)
        → claim_mint now ids h ≡ ok h'
        → laws.balance_of h'.world h.rwa account
          ≡ laws.balance_of h.world h.rwa account + total_owed h account ids
    unfolding claim_mint
    claim_mint_credits now account ids h h' e =
        let (credit, same_rwa) = claim_each_credits now account ids h h' (ground arith) in
        rw same_rwa at credit
