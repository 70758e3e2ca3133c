-- ===== src/Scripts/Utils/Balance.antt =====
-- What setUSDCBalance of scripts/utils/util.ts leaves an account with.
use usdx_v.Base.{
  ℕ, ◌+◌, ◌-◌, ◌<◌, ◌≡◌, ◌≢◌, ◌⊎◌, inl, inr, arith, true, some, List, [], ◌∷◌, ltb, ◌==◌, sym,
  Bool-cases,
}
use usdx_v.Scripts.Script.{World, Effect, returned, address, number, send}
use usdx_v.Scripts.Constants.{usdc_mainnet}
use usdx_v.Scripts.Utils.Node.{set_usdc_balance}

-- A transfer of USDC as a script sends it.
abbrev pub transfer : (from to amount : ℕ) → Effect
transfer from to amount = send from usdc_mainnet "transfer" (address to ∷ number amount ∷ [])

-- What the ERC-20 standard says of `balanceOf`, and of a transfer between two accounts that goes
-- through.
pub record IsLedger (w : World) (balance : List Effect → ℕ → ℕ) : Type 0 where
  pub answers :
      (h : List Effect) (a : ℕ)
      → w.view h usdc_mainnet "balanceOf" (address a ∷ []) ≡ some (number (balance h a))
  pub debits :
      (h : List Effect) (from to amount : ℕ)
      → from ≢ to
      → w.accepts h (transfer from to amount) ≡ true
      → balance (transfer from to amount ∷ h) from + amount ≡ balance h from
  pub credits :
      (h : List Effect) (from to amount : ℕ)
      → from ≢ to
      → w.accepts h (transfer from to amount) ≡ true
      → balance (transfer from to amount ∷ h) to ≡ balance h to + amount

-- The three ways in which a run returns.
set_usdc_balance-cases :
    (w : World) (balance : List Effect → ℕ → ℕ) (signer whale target : ℕ) (h h' : List Effect)
    → w.view h usdc_mainnet "balanceOf" (address signer ∷ []) ≡ some (number (balance h signer))
    → set_usdc_balance signer whale target w h ≡ (h', returned tt)
    → ((balance h signer ≡ target) × (h' ≡ h))
      ⊎ ((target < balance h signer)
          × (w.accepts h (transfer signer whale (balance h signer - target)) ≡ true)
          × (h' ≡ transfer signer whale (balance h signer - target) ∷ h))
      ⊎ ((balance h signer < target)
          × (w.accepts h (transfer whale signer (target - balance h signer)) ≡ true)
          × (h' ≡ transfer whale signer (target - balance h signer) ∷ h))
unfolding set_usdc_balance
set_usdc_balance-cases w balance signer whale target h h' a e =
    elim (Bool-cases (balance h signer == target)) [
      | inl same ↦ inl (ground arith, ground arith)
      | inr other ↦ elim (Bool-cases (ltb target (balance h signer))) [
        | inl more ↦ inr (inl (ground arith, ground arith, ground arith))
        | inr less ↦ inr (inr (ground arith, ground arith, ground arith))
      ]
    ]

-- A run of setUSDCBalance that returns leaves the signer with exactly the balance, and the signer and
-- the whale together with what they had. It has sent nothing if the signer had the balance, and else
-- one transfer, of a part that is not zero. The whale is another account.
pub set_usdc_balance-exact :
    (w : World) (balance : List Effect → ℕ → ℕ) (signer whale target : ℕ) (h h' : List Effect)
    → IsLedger w balance
    → signer ≢ whale
    → set_usdc_balance signer whale target w h ≡ (h', returned tt)
    → (balance h' signer ≡ target)
      × (balance h' signer + balance h' whale ≡ balance h signer + balance h whale)
      × (((balance h signer ≡ target) × (h' ≡ h))
          ⊎ ((amount : ℕ) × (0 < amount)
              × ((h' ≡ transfer signer whale amount ∷ h)
                  ⊎ (h' ≡ transfer whale signer amount ∷ h))))
set_usdc_balance-exact w balance signer whale target h h' l ne e =
    elim (set_usdc_balance-cases w balance signer whale target h h' (l.answers h signer) e) [
      | inl (same, stay) ↦ (ground arith, ground arith, inl (same, stay))
      | inr (inl (more, accepted, sent)) ↦
          let amount = balance h signer - target in
          let d = l.debits h signer whale amount ne accepted in
          let c = l.credits h signer whale amount ne accepted in
          (rw sent (omega arith), rw sent (omega arith), inr (amount, omega arith, inl sent))
      | inr (inr (less, accepted, sent)) ↦
          let amount = target - balance h signer in
          let d = l.debits h whale signer amount (λ k. ne (sym k)) accepted in
          let c = l.credits h whale signer amount (λ k. ne (sym k)) accepted in
          (rw sent (omega arith), rw sent (omega arith), inr (amount, omega arith, inr sent))
    ]
