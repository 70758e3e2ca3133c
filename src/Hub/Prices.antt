-- ===== src/Hub/Prices.antt =====
-- The price id setters of contracts/RWAHub.sol and `setClaimableTimestamp` of usdx/USDXManager.sol.
use usdx_v.Base.{ℕ, List, [], ◌∷◌, ltb, ◌==◌, update, length}
use usdx_v.Evm.{
  Result, ok, ◌>>=◌, ◌>>◌, revert_if, require, panic_out_of_bounds, array_size_mismatch, revert,
  depositor_null, price_id_already_set, claimable_timestamp_in_past,
}
use usdx_v.Access.{AccessControl, only_role}
use usdx_v.Roles.{price_id_setter_role, timestamp_setter_role}
use usdx_v.Hub.State.{
  Hub, price_id_set_for_deposit, price_id_set_for_redemption, claimable_timestamp_set, emit,
}

module _ {R W : Type 0} where
  -- One round of the loop of `setPriceIdForDeposits`.
  unfoldable pub set_deposit_price_id : (deposit_id price_id : ℕ) → Hub R W → Result (Hub R W)
  set_deposit_price_id deposit_id price_id h = do
    let depositor = h.deposits deposit_id
    revert_if (depositor.user == 0) depositor_null
    require (depositor.price_id == 0) price_id_already_set
    let entry = record depositor { price_id = price_id }
    let h₁ = record h { deposits = update h.deposits deposit_id entry }
    ok (emit (price_id_set_for_deposit deposit_id price_id) h₁)

  -- One round of the loop of `setPriceIdForRedemptions`.
  unfoldable pub set_redemption_price_id : (redemption_id price_id : ℕ) → Hub R W → Result (Hub R W)
  set_redemption_price_id redemption_id price_id h = do
    let redeemer = h.redemptions redemption_id
    require (redeemer.price_id == 0) price_id_already_set
    let entry = record redeemer { price_id = price_id }
    let h₁ = record h { redemptions = update h.redemptions redemption_id entry }
    ok (emit (price_id_set_for_redemption redemption_id price_id) h₁)

  -- Both loops: `step(ids[i], priceIds[i])` for each index of `ids`.
  unfoldable pub for_each_pair :
      (ℕ → ℕ → Hub R W → Result (Hub R W)) → (ids price_ids : List ℕ) → Hub R W → Result (Hub R W)
  for_each_pair step [] _ h = ok h
  for_each_pair step (id ∷ ids) [] h = revert panic_out_of_bounds
  for_each_pair step (id ∷ ids) (price_id ∷ price_ids) h = do
    h₁ ← step id price_id h
    for_each_pair step ids price_ids h₁

  -- One round of the loop of `setClaimableTimestamp`.
  unfoldable pub set_timestamp : (timestamp deposit_id : ℕ) → Hub R W → Hub R W
  set_timestamp timestamp deposit_id h =
      let h₁ = record h {
        claimable_timestamps = update h.claimable_timestamps deposit_id timestamp;
      } in
      emit (claimable_timestamp_set timestamp deposit_id) h₁

  -- The loop of `setClaimableTimestamp`.
  unfoldable pub set_timestamps : (timestamp : ℕ) → List ℕ → Hub R W → Hub R W
  set_timestamps timestamp [] h = h
  set_timestamps timestamp (id ∷ ids) h =
      set_timestamps timestamp ids (set_timestamp timestamp id h)

module _ ⦃ac : AccessControl⦄ {W : Type 0} where
  -- `setPriceIdForDeposits`
  unfoldable pub set_price_id_for_deposits :
      (sender : ℕ) (deposit_ids price_ids : List ℕ) → Hub ac.Roles W → Result (Hub ac.Roles W)
  set_price_id_for_deposits sender deposit_ids price_ids h = do
    only_role h.roles price_id_setter_role sender
    require (length deposit_ids == length price_ids) array_size_mismatch
    for_each_pair set_deposit_price_id deposit_ids price_ids h

  -- `setPriceIdForRedemptions`
  unfoldable pub set_price_id_for_redemptions :
      (sender : ℕ) (redemption_ids price_ids : List ℕ) → Hub ac.Roles W → Result (Hub ac.Roles W)
  set_price_id_for_redemptions sender redemption_ids price_ids h = do
    only_role h.roles price_id_setter_role sender
    require (length redemption_ids == length price_ids) array_size_mismatch
    for_each_pair set_redemption_price_id redemption_ids price_ids h

  -- `setClaimableTimestamp`
  unfoldable pub set_claimable_timestamp :
      (sender now timestamp : ℕ) (deposit_ids : List ℕ) → Hub ac.Roles W → Result (Hub ac.Roles W)
  set_claimable_timestamp sender now timestamp deposit_ids h = do
    only_role h.roles timestamp_setter_role sender
    revert_if (ltb timestamp now) claimable_timestamp_in_past
    ok (set_timestamps timestamp deposit_ids h)
