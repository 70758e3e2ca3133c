-- ===== src/Hub/Completing.antt =====
-- A subscription from the request to the mint.
use usdx_v.Base.{ℕ, ◌-◌, ◌≤◌, ◌<◌, ◌≡◌, ◌≢◌, refl, arith, true, false, [], ◌∷◌, update}
use usdx_v.Evm.{ok}
use usdx_v.Access.{AccessControl}
use usdx_v.Roles.{price_id_setter_role, timestamp_setter_role}
use usdx_v.Hub.Peers.{Peers}
use usdx_v.Hub.State.{
  Hub, no_depositor, emit, price_id_set_for_deposit, claimable_timestamp_set, mint_completed,
}
use usdx_v.Hub.Amounts.{mint_fees, mint_amount_for_price}
use usdx_v.Hub.Subscribe.{
  request_subscription, record_deposit, pull_fees, pull_collateral, claim_mint, claim_each,
  claim_one, hub_claim_mint,
}
use usdx_v.Hub.Prices.{
  for_each_pair, set_deposit_price_id, set_price_id_for_deposits, set_timestamp, set_timestamps,
  set_claimable_timestamp,
}
use usdx_v.Hub.Booking.{request_subscription-IsBooked}

module _ {R : Type 0} ⦃p : Peers⦄ where
  -- What a request of a subscription leaves alone.
  record Keeps (h h' : Hub R p.World) : Type 0 where
    same_roles : h'.roles ≡ h.roles
    same_pricer : h'.pricer ≡ h.pricer
    same_rwa : h'.rwa ≡ h.rwa
    same_self : h'.self ≡ h.self
    same_multiplier : h'.decimals_multiplier ≡ h.decimals_multiplier
    open_ : h'.subscription_paused ≡ false

  request_subscription-Keeps :
      (sender amount : ℕ) (h h' : Hub R p.World)
      → request_subscription sender amount h ≡ ok h'
      → Keeps h h'
  unfolding request_subscription record_deposit pull_fees pull_collateral
  request_subscription-Keeps sender amount h h' e = ground arith

  claim_mint_one :
      (later id price owed : ℕ) (h : Hub R p.World) (w : p.World)
      → h.subscription_paused ≡ false
      → (h.deposits id).price_id ≢ 0
      → 0 < h.claimable_timestamps id
      → h.claimable_timestamps id ≤ later
      → p.get_price h.world h.pricer (h.deposits id).price_id ≡ ok price
      → mint_amount_for_price h.decimals_multiplier
          (h.deposits id).amount_deposited_minus_fees
          price
        ≡ ok owed
      → p.mint h.rwa h.self (h.deposits id).user owed h.world ≡ ok w
      → (h' : Hub R p.World) × (claim_mint later (id ∷ []) h ≡ ok h') × (h'.world ≡ w)
  unfolding claim_mint claim_each claim_one hub_claim_mint
  claim_mint_one later id price owed h w o q t l e m n =
      let d = h.deposits id in
      let h₁ = record h { world = w; deposits = update h.deposits id no_depositor } in
      let h₂ : Hub R p.World =
        emit (mint_completed d.user id owed d.amount_deposited_minus_fees price d.price_id) h₁ in
      (record h₂ { claimable_timestamps = update h.claimable_timestamps id 0 }, ground arith, refl)

module _ ⦃ac : AccessControl⦄ ⦃p : Peers⦄ where
  -- After a request of a subscription that was accepted, a setter of price ids can give the new deposit
  -- any price id but 0, a setter of timestamps can make it due at any later time, and from that time on
  -- it can be claimed, wherever the sender is not the zero address, the pricer knows the price, the
  -- amount at that price is in range and the token mints it for the sender; the claim then mints just
  -- that.
  pub subscription_completes :
      (sender amount fees setter timer q now t later price owed : ℕ) (h h₁ : Hub ac.Roles p.World)
      (w : p.World)
      → request_subscription sender amount h ≡ ok h₁
      → mint_fees h amount ≡ ok fees
      → sender ≢ 0
      → ac.has_role h.roles price_id_setter_role setter ≡ true
      → ac.has_role h.roles timestamp_setter_role timer ≡ true
      → q ≢ 0
      → 0 < t
      → now ≤ t
      → t ≤ later
      → p.get_price h₁.world h.pricer q ≡ ok price
      → mint_amount_for_price h.decimals_multiplier (amount - fees) price ≡ ok owed
      → p.mint h.rwa h.self sender owed h₁.world ≡ ok w
      → let id = h.subscription_request_counter in
        (h₂ : Hub ac.Roles p.World) × (h₃ : Hub ac.Roles p.World) × (h₄ : Hub ac.Roles p.World)
        × (set_price_id_for_deposits setter (id ∷ []) (q ∷ []) h₁ ≡ ok h₂)
        × (set_claimable_timestamp timer now t (id ∷ []) h₂ ≡ ok h₃)
        × (claim_mint later (id ∷ []) h₃ ≡ ok h₄)
        × (h₄.world ≡ w)
  unfolding set_price_id_for_deposits for_each_pair set_deposit_price_id set_claimable_timestamp
      set_timestamps set_timestamp
  subscription_completes sender amount fees setter timer q now t later price owed h h₁ w e f s r₁ r₂
        nq pt nt tl g m mw =
      let id = h.subscription_request_counter in
      let (fees', b) = request_subscription-IsBooked sender amount h h₁ e in
      let k = request_subscription-Keeps sender amount h h₁ e in
      let same_fees : fees' ≡ fees = ground (arith, b.fees_computed) in
      let deposits = update h₁.deposits id (record (h₁.deposits id) { price_id = q }) in
      let h₂ : Hub ac.Roles p.World =
        emit (price_id_set_for_deposit id q) (record h₁ { deposits = deposits }) in
      let timestamps = update h₂.claimable_timestamps id t in
      let h₃ : Hub ac.Roles p.World =
        emit (claimable_timestamp_set t id) (record h₂ { claimable_timestamps = timestamps }) in
      let (h₄, c, cw) =
        claim_mint_one later id price owed h₃ w k.open_ (ground arith) (ground arith) (ground arith)
          (ground (arith, k.same_pricer))
          (ground (arith, k.same_multiplier, b.booked_amount, same_fees))
          (ground (arith, k.same_rwa, k.same_self, b.booked_user)) in
      (
        h₂,
        h₃,
        h₄,
        ground (arith, k.same_roles, b.booked_user, b.booked_price_id),
        ground (arith, k.same_roles),
        c,
        cw,
      )
