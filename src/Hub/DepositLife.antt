-- ===== src/Hub/DepositLife.antt =====
-- The life of a deposit: what each call of USDXManager is to it.
use usdx_v.Base.{ℕ, ◌≡◌, ◌≢◌, inl, inr, refl, arith, Bool, true, false, contains, Bool-cases}
use usdx_v.Evm.{ok}
use usdx_v.Access.{AccessControl}
use usdx_v.Roles.{manager_admin, price_id_setter_role, relayer_role}
use usdx_v.Hub.Peers.{Peers}
use usdx_v.Hub.State.{Hub}
use usdx_v.Hub.Calls.{Call, exec}
use usdx_v.Hub.Claiming.{claim_mint-IsBatchClaimed}
use usdx_v.Hub.Deposits.{exec-Changes}
use usdx_v.Hub.History.{Life, IsLived, Step, vacates, keeps, books, prices, overwrites}

-- Whether the call claims the deposit `id`.
abbrev pub claims : (id : ℕ) → Call → Bool
claims id (Call.claim_mint ids) = contains id ids
claims id _ = false

module _ ⦃ac : AccessControl⦄ ⦃p : Peers⦄ where
  -- A request that takes the number `id`, or a proof for it by a relayer.
  abbrev pub Books : (id sender : ℕ) → Call → Hub ac.Roles p.World → Type 0
  Books id sender (Call.request_subscription amount) h = id ≡ h.subscription_request_counter
  Books id sender (Call.add_proof tx_hash user after_fee fee_amount timestamp) h =
      (id ≡ tx_hash) × (ac.has_role h.roles relayer_role sender ≡ true)
  Books id sender _ h = ⊥

  -- A price id for the deposit by the setter of price ids.
  abbrev pub Prices : (id sender : ℕ) → Call → Hub ac.Roles p.World → Type 0
  Prices id sender (Call.set_price_id_for_deposits ids price_ids) h =
      (contains id ids ≡ true) × (ac.has_role h.roles price_id_setter_role sender ≡ true)
  Prices id sender _ h = ⊥

  -- An overwriting of the deposit by the manager admin.
  abbrev pub Overwrites : (id sender : ℕ) → Call → Hub ac.Roles p.World → Type 0
  Overwrites id sender (Call.overwrite_depositor deposit_id user after_fee price_id) h =
      (id ≡ deposit_id) × (ac.has_role h.roles manager_admin sender ≡ true)
  Overwrites id sender _ h = ⊥

  -- A deposit is held where it has a user, and priced where it has a price id.
  abbrev pub deposit_life : (id : ℕ) → Life
  deposit_life id = record {
    claims = claims id;
    Books = Books id;
    Prices = Prices id;
    Overwrites = Overwrites id;
    Held = λ h. (h.deposits id).user ≢ 0;
    Priced = λ h. (h.deposits id).price_id ≢ 0;
  }

  exec-Step :
      (id sender now : ℕ) (c : Call) (h h' : Hub ac.Roles p.World)
      → exec sender now c h ≡ ok h'
      → Step (deposit_life id) sender c h h'
  unfolding exec
  exec-Step id sender now (Call.request_subscription a) h h' e =
      elim (exec-Changes sender now id (Call.request_subscription a) h h' e) [
        | inl same ↦ keeps refl (λ u. ground arith) (λ q. ground arith)
        | inr (at, user, unpriced) ↦ books at (λ q. ground arith)
      ]
  exec-Step id sender now (Call.add_proof tx user a f t) h h' e =
      elim (exec-Changes sender now id (Call.add_proof tx user a f t) h h' e) [
        | inl same ↦ keeps refl (λ u. ground arith) (λ q. ground arith)
        | inr (at, role, free, entry) ↦ books (at, role) (λ q. ground arith)
      ]
  exec-Step id sender now (Call.overwrite_depositor i user a q) h h' e =
      elim (exec-Changes sender now id (Call.overwrite_depositor i user a q) h h' e) [
        | inl same ↦ keeps refl (λ u. ground arith) (λ q. ground arith)
        | inr (at, role, entry) ↦ overwrites (at, role)
      ]
  exec-Step id sender now (Call.set_price_id_for_deposits ids qs) h h' e =
      elim (exec-Changes sender now id (Call.set_price_id_for_deposits ids qs) h h' e) [
        | inl same ↦ keeps refl (λ u. ground arith) (λ q. ground arith)
        | inr (role, batch) ↦
            prices (batch.listed, role) refl (λ u. batch.was_booked) (λ q. batch.was_booked)
      ]
  exec-Step id sender now (Call.claim_mint ids) h h' e =
      let (open_, b) = claim_mint-IsBatchClaimed now ids h h' e in
      elim (Bool-cases (contains id ids)) [
        | inl at ↦
            let (q, t, d, deleted, u) = b.claimed id at in
            vacates (λ u. ground arith) (λ q. ground arith)
        | inr other ↦
            let same = (b.others id other).0 in keeps other (λ u. ground arith) (λ q. ground arith)
      ]
  exec-Step id sender now c h h' e = elim (exec-Changes sender now id c h h' e) [
    | inl same ↦ keeps refl (λ u. ground arith) (λ q. ground arith)
    | inr change ↦ absurd change
  ]

  pub deposit_life-IsLived : (id : ℕ) → IsLived (deposit_life id)
  deposit_life-IsLived id = record { steps = exec-Step id; moves = λ w h. (λ u. u, λ q. q) }
