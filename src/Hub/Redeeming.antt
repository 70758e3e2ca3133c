-- ===== src/Hub/Redeeming.antt =====
-- What a request of a redemption books (`requestRedemption`), and what a claim of redemptions needs,
-- deletes and pays (`claimRedemption`).
use usdx_v.Base.{ℕ, ◌+◌, ◌*◌, ◌/◌, ◌≤◌, ◌≡◌, ◌≢◌, refl, arith, List, [], ◌∷◌, false, contains}
use usdx_v.Evm.{ok, revert, ◌>>=◌, >>=-eq-ok, add}
use usdx_v.Hub.Peers.{Peers, LedgerLaws}
use usdx_v.Hub.State.{Hub, no_redeemer}
use usdx_v.Hub.Amounts.{e18}
use usdx_v.Hub.Subscribe.{check_restrictions, pull_collateral}
use usdx_v.Hub.Redeem.{burn_rwa, request_redemption, redeem_one, redeem_each}

module _ {R : Type 0} ⦃p : Peers⦄ where
  -- What a request of a redemption leaves.
  pub record IsRequested (sender amount : ℕ) (h h' : Hub R p.World) : Type 0 where
    pub not_paused : h.redemption_paused ≡ false
    pub large_enough : h.minimum_redemption_amount ≤ amount
    pub burned : p.burn_from h.rwa h.self sender amount h.world ≡ ok h'.world
    pub booked_user : (h'.redemptions h.redemption_request_counter).user ≡ sender
    pub booked_amount :
        (h'.redemptions h.redemption_request_counter).amount_rwa_token_burned ≡ amount
    pub booked_price_id : (h'.redemptions h.redemption_request_counter).price_id ≡ 0
    pub counted : h'.redemption_request_counter ≡ h.redemption_request_counter + 1
    pub others : (j : ℕ) → j ≢ h.redemption_request_counter → h'.redemptions j ≡ h.redemptions j
    pub same_deposits : (j : ℕ) → h'.deposits j ≡ h.deposits j

  -- A request that returns burned the sender's tokens and booked the burned amount for the sender at
  -- the old counter. The price id there is zero, also where a price id had been set for that number
  -- ahead of the request. Every other redemption and every deposit is as before.
  pub request_redemption-IsRequested :
      (sender amount : ℕ) (h h' : Hub R p.World)
      → request_redemption sender amount h ≡ ok h'
      → IsRequested sender amount h h'
  unfolding request_redemption burn_rwa
  request_redemption-IsRequested sender amount h h' e = ground arith

  -- What one round of `claimRedemption` means.
  pub record IsRedeemed (id : ℕ) (h h' : Hub R p.World) : Type 0 where
    pub was_priced : (h.redemptions id).price_id ≢ 0
    pub was_unrestricted : check_restrictions h (h.redemptions id).user ≡ ok tt
    pub is_deleted : h'.redemptions id ≡ no_redeemer
    pub others : (j : ℕ) → j ≢ id → h'.redemptions j ≡ h.redemptions j
    pub same_deposits : (j : ℕ) → h'.deposits j ≡ h.deposits j
    pub same_pricer : h'.pricer ≡ h.pricer
    pub same_multiplier : h'.decimals_multiplier ≡ h.decimals_multiplier
    pub same_asset_sender : h'.asset_sender ≡ h.asset_sender
    pub same_fee_recipient : h'.fee_recipient ≡ h.fee_recipient
    pub same_collateral : h'.collateral ≡ h.collateral

  pub redeem_one-IsRedeemed :
      (id : ℕ) (h : Hub R p.World) (r : ℕ × Hub R p.World)
      → redeem_one id h ≡ ok r
      → IsRedeemed id h r.1
  unfolding redeem_one pull_collateral
  redeem_one-IsRedeemed id h r e = ground arith

  -- The collateral due for a redemption, before fees.
  pub due : Hub R p.World → ℕ → ℕ
  due h id = elim (p.get_price h.world h.pricer (h.redemptions id).price_id) [
    | ok price ↦ (h.redemptions id).amount_rwa_token_burned * price / e18 / h.decimals_multiplier
    | revert x ↦ 0
  ]

  pub total_due : Hub R p.World → List ℕ → ℕ
  total_due h [] = 0
  total_due h (id ∷ ids) = due h id + total_due h ids

  pub redeem_each_priced :
      (fees j : ℕ) (ids : List ℕ) (h : Hub R p.World) (r : ℕ × Hub R p.World)
      → redeem_each fees ids h ≡ ok r
      → (h.redemptions j).price_id ≡ 0
      → contains j ids ≡ false
  unfolding redeem_each
  redeem_each_priced fees j [] h r e z = refl
  redeem_each_priced fees j (id ∷ ids) h r e z =
      let (q, e₁, e₂) =
        >>=-eq-ok (redeem_one id h) (λ q. add fees q.0 >>= λ sum. redeem_each sum ids q.1) e in
      let (sum, e₃, e₄) = >>=-eq-ok (add fees q.0) (λ sum. redeem_each sum ids q.1) e₂ in
      let c = redeem_one-IsRedeemed id h q e₁ in
      ground (arith, c.was_priced, c.others j, redeem_each_priced sum j ids q.1 r e₄)

  module _ (laws : LedgerLaws p) where
    abbrev paid : Hub R p.World → ℕ → ℕ
    paid h a = laws.balance_of h.world h.collateral a
