-- ===== src/Hub/Subscribe.antt =====
-- Subscriptions in contracts/RWAHub.sol and usdx/USDXManager.sol: the request, the proof of an
-- off-chain deposit, and the claim. `sender` is msg.sender and `now` is block.timestamp.
use usdx_v.Base.{ℕ, List, [], ◌∷◌, ltb, ◌==◌, if◌then◌else◌, update}
use usdx_v.Evm.{
  Result, ok, ◌>>=◌, ◌>>◌, revert_if, require, add, sub, deposit_too_small, price_id_not_set,
  feature_paused, deposit_proof_already_exists, blocked_account, sanctioned_account,
  claimable_timestamp_not_set, mint_not_yet_claimable,
}
use usdx_v.Access.{AccessControl, only_role}
use usdx_v.Roles.{relayer_role}
use usdx_v.Hub.Peers.{Peers}
use usdx_v.Hub.State.{
  Hub, Depositor, no_depositor, mint_requested, mint_completed, deposit_proof_added, emit,
  asset_recipient,
}
use usdx_v.Hub.Amounts.{mint_fees, mint_amount_for_price}

module _ {R : Type 0} ⦃p : Peers⦄ where
  -- `_checkRestrictions` of USDXManager, which the modifier `checkRestrictions` calls.
  unfoldable pub check_restrictions : Hub R p.World → ℕ → Result (Unit {0})
  check_restrictions h account = do
    blocked ← p.is_blocked h.world h.blocklist account
    revert_if blocked blocked_account
    sanctioned ← p.is_sanctioned h.world h.sanctions_list account
    revert_if sanctioned sanctioned_account

  -- `collateral.safeTransferFrom(from, to, amount)`
  unfoldable pub pull_collateral : (from to amount : ℕ) → Hub R p.World → Result (Hub R p.World)
  pull_collateral from to amount h = do
    w ← p.safe_transfer_from h.collateral h.self from to amount h.world
    ok (record h { world = w })

  -- `if (fees > 0) collateral.safeTransferFrom(from, feeRecipient, fees)`
  unfoldable pub pull_fees : (from fees : ℕ) → Hub R p.World → Result (Hub R p.World)
  unfolding pull_collateral
  pull_fees from fees h = if ltb 0 fees then pull_collateral from h.fee_recipient fees h else ok h

  -- The entry that `requestSubscription` writes, and the counter that it advances.
  unfoldable pub record_deposit : (sender after_fee : ℕ) → Hub R p.World → Result (Hub R p.World)
  record_deposit sender after_fee h = do
    next ← add h.subscription_request_counter 1
    let entry : Depositor = record {
      user = sender;
      amount_deposited_minus_fees = after_fee;
      price_id = 0;
    }
    ok (record h {
      deposits = update h.deposits h.subscription_request_counter entry;
      subscription_request_counter = next;
    })

  -- `requestSubscription`
  unfoldable pub request_subscription : (sender amount : ℕ) → Hub R p.World → Result (Hub R p.World)
  request_subscription sender amount h = do
    revert_if h.subscription_paused feature_paused
    check_restrictions h sender
    revert_if (ltb amount h.minimum_deposit_amount) deposit_too_small
    fees ← mint_fees h amount
    after_fee ← sub amount fees
    h₁ ← record_deposit sender after_fee h
    h₂ ← pull_fees sender fees h₁
    h₃ ← pull_collateral sender asset_recipient after_fee h₂
    ok (emit (mint_requested sender h.subscription_request_counter amount after_fee fees) h₃)

  -- `RWAHub._claimMint`
  unfoldable pub hub_claim_mint : (deposit_id : ℕ) → Hub R p.World → Result (Hub R p.World)
  hub_claim_mint deposit_id h = do
    let depositor = h.deposits deposit_id
    revert_if (depositor.price_id == 0) price_id_not_set
    price ← p.get_price h.world h.pricer depositor.price_id
    owed ← mint_amount_for_price h.decimals_multiplier depositor.amount_deposited_minus_fees price
    w ← p.mint h.rwa h.self depositor.user owed h.world
    let h₁ = record h { world = w; deposits = update h.deposits deposit_id no_depositor }
    ok (
        emit
          (mint_completed depositor.user deposit_id owed depositor.amount_deposited_minus_fees price
            depositor.price_id)
          h₁)

  -- `USDXManager._claimMint`
  unfoldable pub claim_one : (now deposit_id : ℕ) → Hub R p.World → Result (Hub R p.World)
  claim_one now deposit_id h = do
    revert_if (h.claimable_timestamps deposit_id == 0) claimable_timestamp_not_set
    revert_if (ltb now (h.claimable_timestamps deposit_id)) mint_not_yet_claimable
    h₁ ← hub_claim_mint deposit_id h
    ok (record h₁ { claimable_timestamps = update h₁.claimable_timestamps deposit_id 0 })

  -- The loop of `claimMint`.
  unfoldable pub claim_each : (now : ℕ) → List ℕ → Hub R p.World → Result (Hub R p.World)
  claim_each now [] h = ok h
  claim_each now (id ∷ ids) h = do h₁ ← claim_one now id h; claim_each now ids h₁

  -- `claimMint`
  unfoldable pub claim_mint : (now : ℕ) → List ℕ → Hub R p.World → Result (Hub R p.World)
  claim_mint now ids h = revert_if h.subscription_paused feature_paused >> claim_each now ids h

module _ ⦃ac : AccessControl⦄ ⦃p : Peers⦄ where
  -- `addProof`
  unfoldable pub add_proof :
      (sender tx_hash user after_fee fee_amount timestamp : ℕ)
      → Hub ac.Roles p.World
      → Result (Hub ac.Roles p.World)
  add_proof sender tx_hash user after_fee fee_amount timestamp h = do
    only_role h.roles relayer_role sender
    check_restrictions h user
    require ((h.deposits tx_hash).user == 0) deposit_proof_already_exists
    let entry : Depositor = record {
      user = user;
      amount_deposited_minus_fees = after_fee;
      price_id = 0;
    }
    let h₁ = record h { deposits = update h.deposits tx_hash entry }
    ok (emit (deposit_proof_added tx_hash user after_fee fee_amount timestamp) h₁)
