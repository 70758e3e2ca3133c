-- ===== src/Tests/History.antt =====
-- Histories of USDXManager from its deployment to a claim of a deposit and of a redemption.
use usdx_v.Base.{arith, ◌≡◌, refl, [], ◌∷◌, List}
use usdx_v.Evm.{ok, uint_mod}
use usdx_v.Roles.{price_id_setter_role, timestamp_setter_role}
use usdx_v.Hub.Subscribe.{
  request_subscription, claim_one, claim_each, claim_mint, check_restrictions, record_deposit,
  pull_fees, pull_collateral, hub_claim_mint,
}
use usdx_v.Hub.Amounts.{
  fee_of, mint_fees, redemption_fees, mint_amount_for_price, redemption_amount_for_rwa, scale_up,
  scale_down,
}
use usdx_v.Hub.Prices.{
  for_each_pair, set_deposit_price_id, set_redemption_price_id, set_price_id_for_deposits,
  set_price_id_for_redemptions, set_claimable_timestamp, set_timestamp, set_timestamps,
}
use usdx_v.Hub.Admin.{set_pricer}
use usdx_v.Hub.Deploy.{deploy_manager, initial_roles}
use usdx_v.Hub.Calls.{Call, exec}
use usdx_v.Hub.History.{Entry, History, here, next, PricedSince}
use usdx_v.Hub.Redeem.{request_redemption, burn_rwa, redeem_one, redeem_each, claim_redemption}
use usdx_v.Hub.DepositLife.{deposit_life}
use usdx_v.Hub.RedemptionLife.{redemption_life}
use usdx_v.Hub.Provenance.{claim_mint-PricedSince, claim_redemption-PricedSince}
use usdx_v.Tests.Chain.{table_access, ledger_peers}
use usdx_v.Tests.Hub.{State, left_by, args, ledger, manager}

-- The account 7 requests the deposit 1. The manager admin 10 sets the pricer and makes 12 the setter
-- of price ids and timestamps, who gives the deposit the price 1 and makes it due at 500.
abbrev requests : Call
requests = Call.request_subscription 2000000

abbrev repricer : Call
repricer = Call.set_pricer 3

abbrev grants_prices : Call
grants_prices = Call.grant_role price_id_setter_role 12

abbrev grants_times : Call
grants_times = Call.grant_role timestamp_setter_role 12

abbrev prices : Call
prices = Call.set_price_id_for_deposits (1 ∷ []) (1 ∷ [])

abbrev redeems : Call
redeems = Call.request_redemption 2000000000000000000

abbrev redemption_prices : Call
redemption_prices = Call.set_price_id_for_redemptions (1 ∷ []) (1 ∷ [])

abbrev times : Call
times = Call.set_claimable_timestamp 500 (1 ∷ [])

abbrev deployed : State
unfolding deploy_manager initial_roles uint_mod
deployed = left_by (deploy_manager 30 args ledger) manager

deployed_lem : deploy_manager 30 args ledger ≡ ok deployed
unfolding deploy_manager initial_roles uint_mod deployed
deployed_lem = refl

abbrev asked : State
unfolding exec request_subscription check_restrictions record_deposit pull_fees pull_collateral
    mint_fees fee_of uint_mod deployed initial_roles
asked = left_by (exec 7 100 requests deployed) deployed

asked_lem : exec 7 100 requests deployed ≡ ok asked
unfolding exec request_subscription check_restrictions record_deposit pull_fees pull_collateral
    mint_fees fee_of uint_mod deployed initial_roles asked
asked_lem = refl

abbrev repriced : State
unfolding exec set_pricer deployed initial_roles asked
repriced = left_by (exec 10 110 repricer asked) asked

repriced_lem : exec 10 110 repricer asked ≡ ok repriced
unfolding exec set_pricer deployed initial_roles asked repriced
repriced_lem = refl

abbrev priceable : State
unfolding exec deployed initial_roles asked repriced
priceable = left_by (exec 10 120 grants_prices repriced) repriced

priceable_lem : exec 10 120 grants_prices repriced ≡ ok priceable
unfolding exec deployed initial_roles asked repriced priceable
priceable_lem = refl

abbrev timeable : State
unfolding exec deployed initial_roles asked repriced priceable
timeable = left_by (exec 10 130 grants_times priceable) priceable

timeable_lem : exec 10 130 grants_times priceable ≡ ok timeable
unfolding exec deployed initial_roles asked repriced priceable timeable
timeable_lem = refl

abbrev priced : State
unfolding exec for_each_pair set_deposit_price_id set_price_id_for_deposits deployed initial_roles
    asked repriced priceable timeable
priced = left_by (exec 12 140 prices timeable) timeable

priced_lem : exec 12 140 prices timeable ≡ ok priced
unfolding exec for_each_pair set_deposit_price_id set_price_id_for_deposits deployed initial_roles
    asked repriced priceable timeable priced
priced_lem = refl

abbrev timed : State
unfolding exec set_claimable_timestamp set_timestamp set_timestamps deployed initial_roles asked
    repriced priceable timeable priced
timed = left_by (exec 12 150 times priced) priced

timed_lem : exec 12 150 times priced ≡ ok timed
unfolding exec set_claimable_timestamp set_timestamp set_timestamps deployed initial_roles asked
    repriced priceable timeable priced timed
timed_lem = refl

abbrev claimed : State
unfolding claim_mint claim_each claim_one hub_claim_mint mint_amount_for_price scale_up uint_mod
    deployed initial_roles asked repriced priceable timeable priced timed
claimed = left_by (claim_mint 600 (1 ∷ []) timed) timed

claimed_lem : claim_mint 600 (1 ∷ []) timed ≡ ok claimed
unfolding claim_mint claim_each claim_one hub_claim_mint mint_amount_for_price scale_up uint_mod
    deployed initial_roles asked repriced priceable timeable priced timed claimed
claimed_lem = refl

abbrev to_roles : List Entry
to_roles =
    record { sender = 10; now = 130; call = grants_times; before = priceable }
    ∷ record { sender = 10; now = 120; call = grants_prices; before = repriced }
    ∷ record { sender = 10; now = 110; call = repricer; before = asked }
    ∷ record { sender = 7; now = 100; call = requests; before = deployed }
    ∷ []

roles_history : History deployed to_roles timeable
roles_history =
    next 10 130 grants_times timeable
      (next 10 120 grants_prices priceable
        (next 10 110 repricer repriced (next 7 100 requests asked here asked_lem) repriced_lem)
        priceable_lem)
      timeable_lem

abbrev to_claim : List Entry
to_claim =
    record { sender = 12; now = 150; call = times; before = priced }
    ∷ record { sender = 12; now = 140; call = prices; before = timeable }
    ∷ to_roles

history : History deployed to_claim timed
history = next 12 150 times timed (next 12 140 prices priced roles_history priced_lem) timed_lem

claim_mint-PricedSince_example : PricedSince (deposit_life 1) to_claim
claim_mint-PricedSince_example =
    claim_mint-PricedSince 30 600 1 args ledger to_claim (1 ∷ []) deployed timed claimed
      deployed_lem history claimed_lem refl

-- After the same roles, the account 7 requests a redemption, which is priced and claimed.
abbrev burned : State
unfolding exec request_redemption burn_rwa initial_roles deployed asked repriced priceable timeable
burned = left_by (exec 7 200 redeems timeable) timeable

burned_lem : exec 7 200 redeems timeable ≡ ok burned
unfolding exec request_redemption burn_rwa initial_roles deployed asked repriced priceable timeable
    burned
burned_lem = refl

abbrev valued : State
unfolding exec for_each_pair set_redemption_price_id set_price_id_for_redemptions initial_roles
    deployed asked repriced priceable timeable burned
valued = left_by (exec 12 210 redemption_prices burned) burned

valued_lem : exec 12 210 redemption_prices burned ≡ ok valued
unfolding exec for_each_pair set_redemption_price_id set_price_id_for_redemptions initial_roles
    deployed asked repriced priceable timeable burned valued
valued_lem = refl

abbrev redeemed : State
unfolding claim_redemption redeem_each redeem_one redemption_amount_for_rwa scale_down
    redemption_fees fee_of pull_fees pull_collateral check_restrictions uint_mod initial_roles
    deployed asked repriced priceable timeable burned valued
redeemed = left_by (claim_redemption (1 ∷ []) valued) valued

redeemed_lem : claim_redemption (1 ∷ []) valued ≡ ok redeemed
unfolding claim_redemption redeem_each redeem_one redemption_amount_for_rwa scale_down
    redemption_fees fee_of pull_fees pull_collateral check_restrictions uint_mod initial_roles
    deployed asked repriced priceable timeable burned valued redeemed
redeemed_lem = refl

abbrev to_redeem : List Entry
to_redeem =
    record { sender = 12; now = 210; call = redemption_prices; before = burned }
    ∷ record { sender = 7; now = 200; call = redeems; before = timeable }
    ∷ to_roles

redemption_history : History deployed to_redeem valued
redemption_history =
    next 12 210 redemption_prices valued (next 7 200 redeems burned roles_history burned_lem)
      valued_lem

valued_amount : (valued.redemptions 1).amount_rwa_token_burned ≡ 2000000000000000000
unfolding exec request_redemption burn_rwa for_each_pair set_redemption_price_id
    set_price_id_for_redemptions initial_roles deployed asked repriced priceable timeable burned
    valued
valued_amount = refl

claim_redemption-PricedSince_example : PricedSince (redemption_life 1) to_redeem
claim_redemption-PricedSince_example =
    claim_redemption-PricedSince 30 1 args ledger to_redeem (1 ∷ []) deployed valued redeemed
      deployed_lem redemption_history redeemed_lem refl (ground (arith, valued_amount))
