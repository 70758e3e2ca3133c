-- ===== src/Hub/Booking.antt =====
-- What a request of a subscription books and moves (`requestSubscription`), and when it succeeds.
use native.Mathlib.Nat.{mul-le-mul_left}
use usdx_v.Base.{
  update, if◌then◌else◌, inl, inr, ℕ, ◌+◌, ◌-◌, ◌*◌, ◌/◌, ◌≤◌, ◌<◌, ◌≡◌, ◌≢◌, refl, arith, false,
  ltb,
}
use usdx_v.Evm.{ok, uint_mod, Result-cases}
use usdx_v.Hub.Peers.{Peers, LedgerLaws}
use usdx_v.Hub.State.{Hub, Depositor, mint_requested, emit, asset_recipient, bps_denominator}
use usdx_v.Hub.Amounts.{fee_of, mint_fees}
use usdx_v.Hub.Subscribe.{
  request_subscription, check_restrictions, record_deposit, pull_fees, pull_collateral,
}

-- A fee of at most 100% is at most the amount, and is the exact share rounded down.
pub fee_of-le :
    (fee amount f : ℕ)
    → fee ≤ bps_denominator
    → fee_of fee amount ≡ ok f
    → (f ≤ amount)
      × (f * bps_denominator ≤ amount * fee)
      × (amount * fee < (f + 1) * bps_denominator)
unfolding fee_of
fee_of-le fee amount f h e = ground (arith, mul-le-mul_left amount h)

module _ {R : Type 0} ⦃p : Peers⦄ where
  -- What a successful request leaves: `net` is booked for the sender at the old counter, with no price
  -- id, `fees` and `net` make up the amount, and nothing else in the books has changed.
  pub record IsBooked (sender amount fees net : ℕ) (h h' : Hub R p.World) : Type 0 where
    pub not_paused : h.subscription_paused ≡ false
    pub large_enough : h.minimum_deposit_amount ≤ amount
    pub fees_computed : mint_fees h amount ≡ ok fees
    pub conserved : fees + net ≡ amount
    pub booked_user : (h'.deposits h.subscription_request_counter).user ≡ sender
    pub booked_amount :
        (h'.deposits h.subscription_request_counter).amount_deposited_minus_fees ≡ net
    pub booked_price_id : (h'.deposits h.subscription_request_counter).price_id ≡ 0
    pub counted : h'.subscription_request_counter ≡ h.subscription_request_counter + 1
    pub others_deposits :
        (j : ℕ) → j ≢ h.subscription_request_counter → h'.deposits j ≡ h.deposits j
    pub same_redemptions : (j : ℕ) → h'.redemptions j ≡ h.redemptions j
    pub same_timestamps : (j : ℕ) → h'.claimable_timestamps j ≡ h.claimable_timestamps j

  -- A request that returns found the contract open and the amount large enough. It splits the amount
  -- into the fees and a net part, books the net part for the sender at the old counter, with no price
  -- id, and advances the counter by one. Every other deposit, every redemption and every timestamp is
  -- as before.
  pub request_subscription-IsBooked :
      (sender amount : ℕ) (h h' : Hub R p.World)
      → request_subscription sender amount h ≡ ok h'
      → (fees : ℕ) × IsBooked sender amount fees (amount - fees) h h'
  unfolding request_subscription record_deposit pull_fees pull_collateral
  request_subscription-IsBooked sender amount h h' e = elim (Result-cases (mint_fees h amount)) [
    | inl (fees, f) ↦ (fees, ground arith)
    | inr (x, f) ↦ absurd (ground arith)
  ]

  -- The steps of a request that returns.
  request_subscription_steps :
      (sender amount : ℕ) (h h' : Hub R p.World)
      → request_subscription sender amount h ≡ ok h'
      → (fees : ℕ) × (h₁ : Hub R p.World) × (h₂ : Hub R p.World) × (h₃ : Hub R p.World) × (fees
          ≤ amount)
        × (record_deposit sender (amount - fees) h ≡ ok h₁)
        × (pull_fees sender fees h₁ ≡ ok h₂)
        × (pull_collateral sender asset_recipient (amount - fees) h₂ ≡ ok h₃)
        × (h'.world ≡ h₃.world)
  unfolding request_subscription
  request_subscription_steps sender amount h h' e = elim (Result-cases (mint_fees h amount)) [
    | inr (x, f) ↦ absurd (ground arith)
    | inl (fees, f) ↦ elim (Result-cases (record_deposit sender (amount - fees) h)) [
      | inr (x, f₁) ↦ absurd (ground arith)
      | inl (h₁, f₁) ↦ elim (Result-cases (pull_fees sender fees h₁)) [
        | inr (x, f₂) ↦ absurd (ground arith)
        | inl (h₂, f₂) ↦
            elim (Result-cases (pull_collateral sender asset_recipient (amount - fees) h₂)) [
              | inr (x, f₃) ↦ absurd (ground arith)
              | inl (h₃, f₃) ↦ (fees, h₁, h₂, h₃, ground arith, f₁, f₂, f₃, ground arith)
            ]
      ]
    ]
  ]

  granted_at_fees :
      (sender amount fees : ℕ) (h : Hub R p.World) (w₁ w₂ : p.World)
      → h.subscription_paused ≡ false
      → check_restrictions h sender ≡ ok tt
      → h.minimum_deposit_amount ≤ amount
      → mint_fees h amount ≡ ok fees
      → fees ≤ amount
      → h.subscription_request_counter + 1 < uint_mod
      → (if ltb 0 fees
          then p.safe_transfer_from h.collateral h.self sender h.fee_recipient fees h.world
          else ok h.world)
        ≡ ok w₁
      → p.safe_transfer_from h.collateral h.self sender asset_recipient (amount - fees) w₁ ≡ ok w₂
      → (h' : Hub R p.World) × (request_subscription sender amount h ≡ ok h') × (h'.world ≡ w₂)
  unfolding request_subscription record_deposit pull_fees pull_collateral
  granted_at_fees sender amount fees h w₁ w₂ open_ free large f le room t₁ t₂ =
      let entry : Depositor = record {
        user = sender;
        amount_deposited_minus_fees = amount - fees;
        price_id = 0;
      } in
      let h' =
        emit (mint_requested sender h.subscription_request_counter amount (amount - fees) fees)
          (record h {
            world = w₂;
            deposits = update h.deposits h.subscription_request_counter entry;
            subscription_request_counter = h.subscription_request_counter + 1;
          }) in
      (h', ground arith, refl)

  -- A request is granted whenever the contract is open to the sender, the amount is large enough, no
  -- product or counter leaves uint256, and the two transfers are made: with a fee of at most 100% the
  -- subtraction of the fees never reverts.
  pub request_subscription_granted :
      (sender amount : ℕ) (h : Hub R p.World) (w₁ w₂ : p.World)
      → h.mint_fee ≤ bps_denominator
      → h.subscription_paused ≡ false
      → check_restrictions h sender ≡ ok tt
      → h.minimum_deposit_amount ≤ amount
      → amount * h.mint_fee < uint_mod
      → h.subscription_request_counter + 1 < uint_mod
      → let fees = amount * h.mint_fee / bps_denominator in
        (if ltb 0 fees
            then p.safe_transfer_from h.collateral h.self sender h.fee_recipient fees h.world
            else ok h.world)
          ≡ ok w₁
        → p.safe_transfer_from h.collateral h.self sender asset_recipient (amount - fees) w₁ ≡ ok w₂
        → (h' : Hub R p.World) × (request_subscription sender amount h ≡ ok h') × (h'.world ≡ w₂)
  request_subscription_granted sender amount h w₁ w₂ capped open_ free large small room t₁ t₂ =
      let fees = amount * h.mint_fee / bps_denominator in
      let f : mint_fees h amount ≡ ok fees = unfold mint_fees in ground arith in
      let le : fees ≤ amount =
        (fee_of-le h.mint_fee amount fees capped (unfold fee_of in ground arith)).0 in
      granted_at_fees sender amount fees h w₁ w₂ open_ free large f le room t₁ t₂

  module _ (laws : LedgerLaws p) where
    -- A transfer of collateral takes the amount from the payer.
    pub pull_collateral_debits :
        (from to amount : ℕ) (h h' : Hub R p.World)
        → pull_collateral from to amount h ≡ ok h'
        → from ≢ to
        → (h'.collateral ≡ h.collateral)
          × (laws.balance_of h'.world h.collateral from + amount
              ≡ laws.balance_of h.world h.collateral from)
    unfolding pull_collateral
    pull_collateral_debits from to amount h h' e ne =
        ground (arith, laws.transfer_debits h.collateral h.self from to amount h.world h'.world)

    -- The transfer of the fees, if there are any, takes them from the payer.
    pub pull_fees_debits :
        (from fees : ℕ) (h h' : Hub R p.World)
        → pull_fees from fees h ≡ ok h'
        → from ≢ h.fee_recipient
        → (h'.collateral ≡ h.collateral)
          × (laws.balance_of h'.world h.collateral from + fees
              ≡ laws.balance_of h.world h.collateral from)
    unfolding pull_fees
    pull_fees_debits from fees h h' e ne =
        ground (arith, pull_collateral_debits from h.fee_recipient fees h h')

    record_deposit_frame :
        (sender net : ℕ) (h h' : Hub R p.World)
        → record_deposit sender net h ≡ ok h'
        → (h'.world ≡ h.world)
          × (h'.collateral ≡ h.collateral)
          × (h'.fee_recipient ≡ h.fee_recipient)
    unfolding record_deposit
    record_deposit_frame sender net h h' e = ground arith

    -- A request that returns takes exactly the amount from the balance of the sender, where the sender
    -- is neither the fee recipient nor the asset recipient: the fees and the net part together are the
    -- amount.
    pub request_subscription_debits :
        (sender amount : ℕ) (h h' : Hub R p.World)
        → request_subscription sender amount h ≡ ok h'
        → sender ≢ h.fee_recipient
        → sender ≢ asset_recipient
        → laws.balance_of h'.world h.collateral sender + amount
          ≡ laws.balance_of h.world h.collateral sender
    request_subscription_debits sender amount h h' e nf na =
        let (fees, h₁, h₂, h₃, le, e₁, e₂, e₃, e₄) =
          request_subscription_steps sender amount h h' e in
        let f₁ = record_deposit_frame sender (amount - fees) h h₁ e₁ in
        let f₂ = pull_fees_debits sender fees h₁ h₂ e₂ in
        let f₃ = pull_collateral_debits sender asset_recipient (amount - fees) h₂ h₃ e₃ na in
        ground arith
