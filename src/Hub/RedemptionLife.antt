-- ===== src/Hub/RedemptionLife.antt =====
-- The life of a redemption: what each call of USDXManager is to it.
use usdx_v.Base.{ℕ, ◌≡◌, ◌≢◌, inl, inr, refl, arith, Bool, true, false, contains, Bool-cases, ◌==◌}
use usdx_v.Evm.{ok}
use usdx_v.Access.{AccessControl}
use usdx_v.Roles.{manager_admin, price_id_setter_role}
use usdx_v.Hub.Peers.{Peers}
use usdx_v.Hub.State.{Hub}
use usdx_v.Hub.Subscribe.{
  request_subscription, record_deposit, pull_fees, pull_collateral, add_proof,
}
use usdx_v.Hub.Redeem.{request_redemption, request_redemption_serviced_off_chain, burn_rwa}
use usdx_v.Hub.Prices.{
  set_price_id_for_deposits, set_price_id_for_redemptions, set_claimable_timestamp,
}
use usdx_v.Hub.Admin.{
  overwrite_depositor, overwrite_redeemer, set_minimum_redemption_amount,
  set_minimum_deposit_amount, set_mint_fee, set_redemption_fee, set_pricer, set_fee_recipient,
  set_asset_sender, set_off_chain_redemption_minimum, set_blocklist, set_sanctions_list,
  pause_subscription, unpause_subscription, pause_redemption, unpause_redemption,
  pause_off_chain_redemption, unpause_off_chain_redemption,
}
use usdx_v.Hub.Calls.{Call, exec}
use usdx_v.Hub.Redemptions.{
  set_each_price-redemptions, set_timestamps-redemptions, set_each_redemption_price,
  claim_mint-redemptions, claim_redemption-redemptions,
}
use usdx_v.Hub.History.{Life, IsLived, Step, vacates, keeps, books, prices, overwrites}

-- Whether the call claims the redemption `id`.
abbrev pub claims : (id : ℕ) → Call → Bool
claims id (Call.claim_redemption ids) = contains id ids
claims id _ = false

module _ ⦃ac : AccessControl⦄ ⦃p : Peers⦄ where
  -- A request that takes the number `id`.
  abbrev pub Books : (id sender : ℕ) → Call → Hub ac.Roles p.World → Type 0
  Books id sender (Call.request_redemption amount) h = id ≡ h.redemption_request_counter
  Books id sender _ h = ⊥

  -- A price id for the redemption by the setter of price ids.
  abbrev pub Prices : (id sender : ℕ) → Call → Hub ac.Roles p.World → Type 0
  Prices id sender (Call.set_price_id_for_redemptions ids price_ids) h =
      (contains id ids ≡ true) × (ac.has_role h.roles price_id_setter_role sender ≡ true)
  Prices id sender _ h = ⊥

  -- An overwriting of the redemption by the manager admin.
  abbrev pub Overwrites : (id sender : ℕ) → Call → Hub ac.Roles p.World → Type 0
  Overwrites id sender (Call.overwrite_redeemer redemption_id user burned price_id) h =
      (id ≡ redemption_id) × (ac.has_role h.roles manager_admin sender ≡ true)
  Overwrites id sender _ h = ⊥

  -- A redemption is held where its amount is above zero, and priced where it has a price id too.
  abbrev pub redemption_life : (id : ℕ) → Life
  redemption_life id = record {
    claims = claims id;
    Books = Books id;
    Prices = Prices id;
    Overwrites = Overwrites id;
    Held = λ h. (h.redemptions id).amount_rwa_token_burned ≢ 0;
    Priced =
        λ h. ((h.redemptions id).amount_rwa_token_burned ≢ 0) × ((h.redemptions id).price_id ≢ 0);
  }

  -- A call that does not claim the redemption and leaves it as it is.
  keeps_same :
      (id sender : ℕ) (c : Call) (h h' : Hub ac.Roles p.World)
      → claims id c ≡ false
      → h'.redemptions id ≡ h.redemptions id
      → Step (redemption_life id) sender c h h'
  keeps_same id sender c h h' other same = keeps other (λ u. ground arith) (λ q. ground arith)

  exec-Step :
      (id sender now : ℕ) (c : Call) (h h' : Hub ac.Roles p.World)
      → exec sender now c h ≡ ok h'
      → Step (redemption_life id) sender c h h'
  unfolding exec request_subscription record_deposit pull_fees pull_collateral add_proof
      request_redemption request_redemption_serviced_off_chain burn_rwa set_price_id_for_deposits
      set_price_id_for_redemptions set_claimable_timestamp overwrite_depositor overwrite_redeemer
      set_minimum_redemption_amount set_minimum_deposit_amount set_mint_fee set_redemption_fee
      set_pricer set_fee_recipient set_asset_sender set_off_chain_redemption_minimum set_blocklist
      set_sanctions_list pause_subscription unpause_subscription pause_redemption unpause_redemption
      pause_off_chain_redemption unpause_off_chain_redemption
  exec-Step id sender now (Call.request_redemption amount) h h' e =
      elim (Bool-cases (id == h.redemption_request_counter)) [
        | inl at ↦ books (ground arith) (λ q. ground arith)
        | inr other ↦ keeps_same id sender (Call.request_redemption amount) h h' refl (ground arith)
      ]
  exec-Step id sender now (Call.overwrite_redeemer i user burned q) h h' e =
      elim (Bool-cases (id == i)) [
        | inl at ↦ overwrites (ground arith)
        | inr other ↦
            keeps_same id sender (Call.overwrite_redeemer i user burned q) h h' refl (ground arith)
      ]
  exec-Step id sender now (Call.set_price_id_for_redemptions ids qs) h h' e =
      let c = Call.set_price_id_for_redemptions ids qs in
      let (amount, unlisted) = set_each_redemption_price ids qs id h h' (ground arith) in
      elim (Bool-cases (contains id ids)) [
        | inl at ↦ prices (ground arith) refl (λ u. ground arith) (λ q. ground arith)
        | inr other ↦ keeps_same id sender c h h' refl (unlisted other)
      ]
  exec-Step id sender now (Call.claim_redemption ids) h h' e =
      let (listed, unlisted) = claim_redemption-redemptions id ids h h' e in
      elim (Bool-cases (contains id ids)) [
        | inl at ↦ let (was, gone) = listed at in vacates (λ u. ground arith) (λ q. ground arith)
        | inr other ↦ keeps_same id sender (Call.claim_redemption ids) h h' other (unlisted other)
      ]
  exec-Step id sender now (Call.claim_mint ids) h h' e =
      keeps_same id sender (Call.claim_mint ids) h h' refl
        (claim_mint-redemptions now id ids h h' e)
  exec-Step id sender now (Call.set_price_id_for_deposits ids qs) h h' e =
      keeps_same id sender (Call.set_price_id_for_deposits ids qs) h h' refl
        (ground (arith, set_each_price-redemptions ids qs h h'))
  exec-Step id sender now (Call.set_claimable_timestamp t ids) h h' e =
      keeps_same id sender (Call.set_claimable_timestamp t ids) h h' refl
        (ground (arith, set_timestamps-redemptions t ids h))
  exec-Step id sender now c h h' e = keeps_same id sender c h h' refl (ground arith)

  pub redemption_life-IsLived : (id : ℕ) → IsLived (redemption_life id)
  redemption_life-IsLived id = record { steps = exec-Step id; moves = λ w h. (λ u. u, λ q. q) }
