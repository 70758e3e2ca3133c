-- ===== src/Tests/Hub.antt =====
-- USDXManager at concrete inputs.
use usdx_v.Base.{ℕ, ◌+◌, ◌-◌, ◌*◌, ◌≡◌, ◌⊎◌, ◌≤◌, refl, arith, false, [], ◌∷◌, ◌==◌, if◌then◌else◌}
use usdx_v.Evm.{Result, ok, revert, uint_mod}
use usdx_v.Hub.State.{Hub, no_depositor}
use usdx_v.Hub.Amounts.{
  fee_of, mint_fees, redemption_fees, mint_amount_for_price, redemption_amount_for_rwa, scale_up,
  scale_down,
}
use usdx_v.Hub.Subscribe.{
  request_subscription, claim_one, claim_each, claim_mint, check_restrictions, record_deposit,
  pull_fees, pull_collateral, hub_claim_mint,
}
use usdx_v.Hub.Redeem.{request_redemption, claim_redemption, redeem_one, redeem_each, burn_rwa}
use usdx_v.Hub.Deploy.{Args, deploy_manager, initial_roles}
use usdx_v.Hub.Calls.{Call, exec}
use usdx_v.Hub.Booking.{
  IsBooked, request_subscription-IsBooked, request_subscription_granted,
  request_subscription_debits,
}
use usdx_v.Hub.Minting.{owed, total_owed, claim_mint_credits}
use usdx_v.Hub.Claiming.{IsBatchClaimed, claim_mint-IsBatchClaimed}
use usdx_v.Hub.Redeeming.{IsRequested, request_redemption-IsRequested}
use usdx_v.Hub.Deposits.{Changes, exec-Changes}
use usdx_v.Hub.Exchange.{redeem-mint}
use usdx_v.Tests.Chain.{table_access, Ledger, ledger_peers, ledger_laws, ledger_mint_laws}

abbrev pub State : Type 0
State = Hub table_access.Roles ledger_peers.World

-- USDC is token 1 and USDX token 2. Account 7 has 5000 USDC, the asset sender 4 has 900.
abbrev pub ledger : Ledger
ledger = record {
  balances = λ t a.
      if t == 1
      then (if a == 7 then 5000000000 else if a == 4 then 900000000 else 0)
      else (if a == 7 then 1000000000000000000000 else 0);
  blocked = λ a. a == 666;
  price_of = λ i. if i == 1 then 1000000000000000000 else 0;
}

abbrev pub args : Args
args = record {
  collateral = 1;
  rwa = 2;
  manager_admin = 10;
  pauser = 11;
  asset_sender = 4;
  fee_recipient = 5;
  minimum_deposit_amount = 1000000;
  minimum_redemption_amount = 1000000000000000000;
  blocklist = 20;
  sanctions_list = 21;
}

-- A manager in use: a fee of 0.5%, one priced and timed deposit and one priced redemption.
abbrev pub manager : State
manager = record {
  world = ledger;
  log = [];
  self = 30;
  roles = initial_roles args;
  rwa = 2;
  pricer = 3;
  asset_sender = 4;
  fee_recipient = 5;
  deposits = λ i.
      if i == 1
      then record { user = 7; amount_deposited_minus_fees = 100000000; price_id = 1 }
      else no_depositor;
  redemptions = λ i.
      if i == 1
      then record { user = 7; amount_rwa_token_burned = 3000000000000000000; price_id = 1 }
      else record { user = 0; amount_rwa_token_burned = 0; price_id = 0 };
  minimum_deposit_amount = 1000000;
  minimum_redemption_amount = 1000000000000000000;
  mint_fee = 50;
  redemption_fee = 20;
  collateral = 1;
  decimals_multiplier = 1000000000000;
  subscription_request_counter = 2;
  redemption_request_counter = 2;
  redemption_paused = false;
  subscription_paused = false;
  off_chain_redemption_paused = false;
  minimum_off_chain_redemption_amount = 1000000000000000000;
  blocklist = 20;
  sanctions_list = 21;
  claimable_timestamps = λ i. if i == 1 then 500 else 0;
}

-- The state that a call leaves, or the one before it.
abbrev pub left_by : Result State → State → State
left_by r h = elim r [ ok h' ↦ h' | revert x ↦ h ]

-- Calls that return, and the states that they leave.
abbrev requested : State
unfolding request_subscription check_restrictions record_deposit pull_fees pull_collateral mint_fees
    fee_of uint_mod
requested = left_by (request_subscription 7 2000000 manager) manager

manager_requests : request_subscription 7 2000000 manager ≡ ok requested
unfolding request_subscription check_restrictions record_deposit pull_fees pull_collateral mint_fees
    fee_of uint_mod
manager_requests = refl

abbrev claimed : State
unfolding claim_mint claim_each claim_one hub_claim_mint mint_amount_for_price scale_up uint_mod
claimed = left_by (claim_mint 600 (1 ∷ []) manager) manager

manager_claims : claim_mint 600 (1 ∷ []) manager ≡ ok claimed
unfolding claim_mint claim_each claim_one hub_claim_mint mint_amount_for_price scale_up uint_mod
manager_claims = refl

manager_claims_one : claim_one 600 1 manager ≡ ok claimed
unfolding claim_mint claim_each claim_one hub_claim_mint mint_amount_for_price scale_up uint_mod
manager_claims_one = refl

abbrev burned : State
unfolding request_redemption burn_rwa uint_mod
burned = left_by (request_redemption 7 2000000000000000000 manager) manager

manager_burns : request_redemption 7 2000000000000000000 manager ≡ ok burned
unfolding request_redemption burn_rwa uint_mod
manager_burns = refl

abbrev redeemed : State
unfolding claim_redemption redeem_each redeem_one check_restrictions pull_fees pull_collateral
    redemption_amount_for_rwa scale_down redemption_fees fee_of uint_mod
redeemed = left_by (claim_redemption (1 ∷ []) manager) manager

abbrev deployed : State
unfolding deploy_manager initial_roles uint_mod
deployed = left_by (deploy_manager 30 args ledger) manager

abbrev deployed_requested : State
unfolding request_subscription check_restrictions record_deposit pull_fees pull_collateral mint_fees
    fee_of uint_mod
deployed_requested = left_by (request_subscription 7 2000000 deployed) deployed

deployed_requests : exec 7 100 (Call.request_subscription 2000000) deployed ≡ ok deployed_requested
unfolding request_subscription check_restrictions record_deposit pull_fees pull_collateral mint_fees
    fee_of uint_mod exec deployed
deployed_requests = refl

request_subscription-IsBooked_example :
    (fees : ℕ) × IsBooked 7 2000000 fees (2000000 - fees) manager requested
request_subscription-IsBooked_example =
    request_subscription-IsBooked 7 2000000 manager requested manager_requests

request_subscription_debits_example : requested.world.balances 1 7 + 2000000 ≡ 5000000000
request_subscription_debits_example =
    request_subscription_debits ledger_laws 7 2000000 manager requested manager_requests
      (ground arith) (ground arith)

abbrev fees_moved : Ledger
unfolding request_subscription check_restrictions record_deposit pull_fees pull_collateral mint_fees
    fee_of uint_mod
fees_moved = elim (pull_fees 7 10000 manager) [ ok h ↦ h.world | revert x ↦ ledger ]

request_subscription_granted_example :
    (h' : State) × (request_subscription 7 2000000 manager ≡ ok h') × (h'.world ≡ requested.world)
unfolding request_subscription check_restrictions record_deposit pull_fees pull_collateral mint_fees
    fee_of uint_mod
request_subscription_granted_example =
    request_subscription_granted 7 2000000 manager fees_moved requested.world (ground arith) refl
      refl (ground arith) (ground arith) (ground arith) refl refl

claim_mint-IsBatchClaimed_example :
    (manager.subscription_paused ≡ false) × IsBatchClaimed 600 (1 ∷ []) manager claimed
claim_mint-IsBatchClaimed_example =
    claim_mint-IsBatchClaimed 600 (1 ∷ []) manager claimed manager_claims

claim_mint_credits_example :
    claimed.world.balances 2 7 ≡ ledger.balances 2 7 + total_owed manager 7 (1 ∷ [])
claim_mint_credits_example =
    claim_mint_credits ledger_mint_laws 600 7 (1 ∷ []) manager claimed manager_claims

manager_owes : total_owed manager 7 (1 ∷ []) ≡ 100000000000000000000
unfolding total_owed owed
manager_owes = refl

exec-Changes_example :
    (deployed_requested.deposits 1 ≡ deployed.deposits 1)
    ⊎ Changes 7 100 1 (Call.request_subscription 2000000) deployed deployed_requested
exec-Changes_example =
    exec-Changes 7 100 1 (Call.request_subscription 2000000) deployed deployed_requested
      deployed_requests

request_redemption-IsRequested_example : IsRequested 7 2000000000000000000 manager burned
request_redemption-IsRequested_example =
    request_redemption-IsRequested 7 2000000000000000000 manager burned manager_burns

redeem-mint_example :
    (3333332 ≤ 3333333)
    × (7000000000000000000 ≤ 1000000000000 * 1000000000000000000 → 3333333 ≤ 3333332 + 1)
unfolding mint_amount_for_price redemption_amount_for_rwa scale_up scale_down uint_mod
redeem-mint_example =
    redeem-mint 1000000000000 3333333 7000000000000000000 476190428571428571 3333332 refl refl
