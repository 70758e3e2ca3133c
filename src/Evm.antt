-- ===== src/Evm.antt =====
-- What the contracts take from the Solidity language: a call that returns or reverts, and the
-- checked uint256 arithmetic of Solidity 0.8.
pub mod Words
use usdx_v.Base.{
  ◌<◌, arith, ◌⊎◌, inl, inr, ℕ, ◌+◌, ◌-◌, ◌*◌, ◌/◌, ◌^◌, ◌≡◌, refl, Bool, true, false, ltb, ◌==◌,
  if◌then◌else◌,
}

-- The custom errors of the contracts, the panics of checked arithmetic, a missing role (or owner,
-- or guardian), the role of another account renounced, and a revert of a contract that is called.
pub data Revert : Type 0 where
  panic_overflow panic_div_by_zero panic_out_of_bounds missing_role not_self external : Revert
  collateral_cannot_be_zero rwa_cannot_be_zero asset_sender_cannot_be_zero : Revert
  fee_recipient_cannot_be_zero amount_too_small deposit_too_small redemption_too_small : Revert
  price_id_not_set deposit_proof_already_exists array_size_mismatch depositor_null : Revert
  price_id_already_set fee_too_large feature_paused blocked_account sanctioned_account : Revert
  claimable_timestamp_not_set mint_not_yet_claimable claimable_timestamp_in_past : Revert
  blocklist_zero_address sanctions_list_zero_address allowlist_zero_address : Revert
  invalid_price price_id_does_not_exist latest_price_mismatch prices_already_match : Revert
  price_update_window_violation delta_difference_constraint_violation : Revert
  absolute_difference_constraint_violated chainlink_oracle_price_stale : Revert
  chainlink_round_not_updated corrupted_chainlink_response invalid_rwa_price : Revert
  invalid_address invalid_term_index already_verified invalid_v_signature invalid_signer : Revert

pub data Result {ℓ} (A : Type ℓ) : Type ℓ where
  ok : A → Result A
  revert : Revert → Result A

infixl 5 ◌>>=◌ ◌>>◌
abbrev pub ◌>>=◌ {ℓ κ} :
    {T : Type ℓ} {U : Type κ} (call : Result T) (next : T → Result U) → Result U
revert r >>= next = revert r
ok t >>= next = next t

abbrev pub ◌>>◌ {ℓ} : {U : Type ℓ} (check : Result (Unit {0})) (next : Result U) → Result U
check >> next = check >>= λ passed. next

-- `if (!b) revert e();`
abbrev pub require : Bool → Revert → Result (Unit {0})
require true e = ok tt
require false e = revert e

-- `if (b) revert e();`
abbrev pub revert_if : Bool → Revert → Result (Unit {0})
revert_if true e = revert e
revert_if false e = ok tt

-- 2 ^ 256, kept shut: no proof rests on its value.
unfoldable pub uint_mod : ℕ
uint_mod = 2 ^ 256

pub uint_mod_pos : 1 < uint_mod
unfolding uint_mod
uint_mod_pos = omega arith

abbrev pub checked : ℕ → Result ℕ
checked n = if ltb n uint_mod then ok n else revert panic_overflow

abbrev pub add : ℕ → ℕ → Result ℕ
add a b = checked (a + b)

abbrev pub sub : ℕ → ℕ → Result ℕ
sub a b = if ltb a b then revert panic_overflow else ok (a - b)

abbrev pub mul : ℕ → ℕ → Result ℕ
mul a b = checked (a * b)

abbrev pub div : ℕ → ℕ → Result ℕ
div a b = if b == 0 then revert panic_div_by_zero else ok (a / b)

-- Inversion of a call that returned, for proofs where the parts stay shut.
pub >>=-eq-ok {ℓ κ} :
    {T : Type ℓ} {U : Type κ} (call : Result T) (next : T → Result U) {u : U}
    → (call >>= next) ≡ ok u
    → (t : T) × (call ≡ ok t) × (next t ≡ ok u)
>>=-eq-ok (revert r) next e = cc
>>=-eq-ok (ok t) next e = (t, refl, e)

-- To split on what a call does and keep the equation.
pub Result-cases {ℓ} :
    {A : Type ℓ} (m : Result A) → ((a : A) × (m ≡ ok a)) ⊎ ((e : Revert) × (m ≡ revert e))
Result-cases (ok a) = inl (a, refl)
Result-cases (revert e) = inr (e, refl)
