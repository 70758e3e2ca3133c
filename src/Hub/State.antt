-- ===== src/Hub/State.antt =====
-- The storage of USDXManager with the two abstract contracts that it extends (contracts/RWAHub.sol,
-- RWAHubOffChainRedemptions.sol, usdx/USDXManager.sol), and the events that they emit.
use usdx_v.Base.{ℕ, Bool, List, ◌∷◌}

-- `struct Depositor`
pub record Depositor : Type 0 where
  pub user : ℕ
  pub amount_deposited_minus_fees : ℕ
  pub price_id : ℕ

-- `struct Redeemer`
pub record Redeemer : Type 0 where
  pub user : ℕ
  pub amount_rwa_token_burned : ℕ
  pub price_id : ℕ

-- What `delete` leaves in a mapping.
abbrev pub no_depositor : Depositor
no_depositor = record { user = 0; amount_deposited_minus_fees = 0; price_id = 0 }

abbrev pub no_redeemer : Redeemer
no_redeemer = record { user = 0; amount_rwa_token_burned = 0; price_id = 0 }

-- An event with its arguments, in the order of its declaration.
pub data Event : Type 0 where
  mint_requested : (user deposit_id amount after_fee fees : ℕ) → Event
  mint_completed : (user deposit_id rwa_owed deposited price price_id : ℕ) → Event
  redemption_requested : (user redemption_id amount : ℕ) → Event
  redemption_completed : (user redemption_id burned collateral price : ℕ) → Event
  redemption_requested_serviced_off_chain : (user redemption_id amount destination : ℕ) → Event
  deposit_proof_added : (tx_hash user after_fee fee_amount timestamp : ℕ) → Event
  price_id_set_for_deposit : (deposit_id price_id : ℕ) → Event
  price_id_set_for_redemption : (redemption_id price_id : ℕ) → Event
  depositor_overwritten :
      (deposit_id old_user user old_price_id price_id old_amount amount : ℕ) → Event
  redeemer_overwritten :
      (redemption_id old_user user old_price_id price_id old_amount amount : ℕ) → Event
  minimum_redemption_amount_set minimum_deposit_amount_set : (old new : ℕ) → Event
  off_chain_redemption_minimum_set : (old new : ℕ) → Event
  mint_fee_set redemption_fee_set : (old new : ℕ) → Event
  new_pricer_set fee_recipient_set asset_sender_set : (old new : ℕ) → Event
  blocklist_set sanctions_list_set : (old new : ℕ) → Event
  claimable_timestamp_set : (timestamp deposit_id : ℕ) → Event
  subscription_paused_by subscription_unpaused_by : ℕ → Event
  redemption_paused_by redemption_unpaused_by : ℕ → Event
  off_chain_redemption_paused_by off_chain_redemption_unpaused_by : ℕ → Event

-- The contract, the world of the contracts that it calls, and the events emitted, latest first.
pub record Hub (R W : Type 0) : Type 0 where
  pub world : W
  pub log : List Event
  -- `address(this)`
  pub self : ℕ
  pub roles : R
  pub rwa : ℕ
  pub pricer : ℕ
  pub asset_sender : ℕ
  pub fee_recipient : ℕ
  pub deposits : ℕ → Depositor
  pub redemptions : ℕ → Redeemer
  pub minimum_deposit_amount : ℕ
  pub minimum_redemption_amount : ℕ
  pub mint_fee : ℕ
  pub redemption_fee : ℕ
  pub collateral : ℕ
  pub decimals_multiplier : ℕ
  pub subscription_request_counter : ℕ
  pub redemption_request_counter : ℕ
  pub redemption_paused : Bool
  pub subscription_paused : Bool
  pub off_chain_redemption_paused : Bool
  pub minimum_off_chain_redemption_amount : ℕ
  pub blocklist : ℕ
  pub sanctions_list : ℕ
  pub claimable_timestamps : ℕ → ℕ

-- `assetRecipient`
abbrev pub asset_recipient : ℕ
asset_recipient = 0xbDa73A0F13958ee444e0782E1768aB4B76EdaE28

abbrev pub bps_denominator : ℕ
bps_denominator = 10000

module _ {R W : Type 0} where
  abbrev pub emit : Event → Hub R W → Hub R W
  emit e h = record h { log = e ∷ h.log }
