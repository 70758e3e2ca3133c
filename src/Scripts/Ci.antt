-- ===== src/Scripts/Ci.antt =====
-- scripts/ci/event_coverage_usdx.ts: a run of the deployed contracts through their calls, on a fork. A
-- message leaves out the value that the source prints.
use usdx_v.Base.{ℕ, zero, suc, ◌*◌, ◌^◌, ◌+◌, true, [], ◌∷◌, if◌then◌else◌}
use usdx_v.Scripts.Script.{
  Script, ◌>>=◌, ◌>>◌, pure, throw, perform, log, get_contract, get_contract_at, get_signer,
  get_timestamp, call_view, Value, nil, cons, undefined, address, number, bytes32, text, flag,
  tuple, rpc, send,
}
use usdx_v.Scripts.Constants.{usdc_mainnet, sanction_address}
use usdx_v.Scripts.Verify.Helpers.{loosely_equal}
use usdx_v.Scripts.Utils.Node.{get_impersonated_signer, set_usdc_balance}

-- `parseUnits`, of a whole number
abbrev pub parse_units : (amount decimals : ℕ) → ℕ
parse_units amount decimals = amount * 10 ^ decimals

abbrev pub one_of : Value → Value
one_of v = tuple (cons v nil)

-- The entry number `i` of an answer.
unfoldable pub entry : Value → ℕ → Value
entry (tuple (cons v rest)) zero = v
entry (tuple (cons v rest)) (suc i) = entry (tuple rest) i
entry _ i = undefined

-- `expect(actual).to.eq(expected)`
unfoldable pub expect_eq : (actual expected : Value) → Script (Unit {0})
unfolding loosely_equal
expect_eq actual expected =
    if loosely_equal actual expected then pure tt else throw "AssertionError"

-- The accounts and the contracts of the run.
pub record Parties : Type 0 where
  pub usdc_whale : ℕ
  pub guardian : ℕ
  pub manager_admin : ℕ
  pub pauser : ℕ
  pub asset_sender : ℕ
  pub user : ℕ
  pub usdc : ℕ
  pub manager : ℕ
  pub pricer : ℕ
  pub allowlist : ℕ
  pub usdx : ℕ
  pub blocklist : ℕ

-- `FIRST_DEPOSIT_ID`, and `HASH_OF_BANK`
abbrev pub first_deposit_id : Value
first_deposit_id = bytes32 1

abbrev pub hash_of_bank : Value
hash_of_bank = bytes32 69

unfoldable pub find_parties : Script Parties
unfolding get_impersonated_signer
find_parties = do
  usdc_whale ← get_impersonated_signer 0x79234Ca502Ed0BeDf575dDD504fDDD78d785A50D
  guardian ← get_signer 1
  manager_admin ← get_signer 2
  pauser ← get_signer 3
  asset_sender ← get_signer 4
  user ← get_signer 16
  usdc ← get_contract_at (address usdc_mainnet)
  manager ← get_contract "USDXManager"
  pricer ← get_contract "USDX_Pricer"
  allowlist ← get_contract "Allowlist"
  usdx ← get_contract "USDX"
  blocklist ← get_contract "Blocklist"
  log "usdc.address"
  log "USDXManager.address"
  log "pricer.address"
  log "allowlist.address"
  log "USDX.address"
  pure (record {
    usdc_whale = usdc_whale;
    guardian = guardian;
    manager_admin = manager_admin;
    pauser = pauser;
    asset_sender = asset_sender;
    user = user;
    usdc = usdc;
    manager = manager;
    pricer = pricer;
    allowlist = allowlist;
    usdx = usdx;
    blocklist = blocklist;
  })

-- The term, and the three accounts on the allowlist.
unfoldable pub fill_allowlist : Parties → Script (Unit {0})
fill_allowlist p = do
  perform (send p.guardian p.allowlist "addTerm" (text "Test Term 1" ∷ []))
  perform (send p.guardian p.allowlist "setValidTermIndexes" (one_of (number 0) ∷ []))
  perform
      (send p.guardian p.allowlist "setAccountStatus" (address p.user ∷ number 0 ∷ flag true ∷ []))
  perform (
      send p.guardian p.allowlist "setAccountStatus"
        (address p.guardian ∷ number 0 ∷ flag true ∷ []))
  perform (
      send p.guardian p.allowlist "setAccountStatus"
        (address p.manager ∷ number 0 ∷ flag true ∷ []))

-- The subscription of the user, up to the claim.
unfoldable pub subscribe : Parties → Script (Unit {0})
unfolding set_usdc_balance expect_eq entry
subscribe p = do
  set_usdc_balance p.user p.usdc_whale (parse_units 20000 6)
  perform (send p.user p.usdc "approve" (address p.manager ∷ number (parse_units 20000 6) ∷ []))
  call_view p.allowlist "isAllowed" (address p.user ∷ [])
  log "isAllowed"
  perform (send p.user p.manager "requestSubscription" (number (parse_units 20000 6) ∷ []))
  perform (
      send p.manager_admin p.manager "overwriteDepositor"
        (first_deposit_id ∷ address p.user ∷ number (parse_units 10000 6) ∷ number 0 ∷ []))
  call_view p.pricer "getLatestPrice" []
  log "getLatestPrice"
  perform (
      send p.manager_admin p.manager "setPriceIdForDeposits"
        (one_of first_deposit_id ∷ one_of (number 1) ∷ []))
  request ← call_view p.manager "depositIdToDepositor" (first_deposit_id ∷ [])
  expect_eq (entry request 0) (address p.user)
  expect_eq (entry request 1) (number (parse_units 10000 6))
  expect_eq (entry request 2) (number 1)
  block ← get_timestamp
  log "block"
  perform (
      send p.manager_admin p.manager "setClaimableTimestamp"
        (number (block + 1) ∷ one_of first_deposit_id ∷ []))
  perform (rpc "evm_increaseTime" (number 3600 ∷ []))
  perform (send p.manager_admin p.manager "claimMint" (one_of first_deposit_id ∷ []))
  claimed ← call_view p.usdx "balanceOf" (address p.user ∷ [])
  log "balClaimed"
  expect_eq claimed (number (parse_units 1000 18))

-- The new prices, and the two redemptions of the user.
unfoldable pub redeem : Parties → Script (Unit {0})
unfolding set_usdc_balance expect_eq entry
redeem p = do
  perform (send p.manager_admin p.pricer "addPrice" (number (parse_units 10 18) ∷ number 1 ∷ []))
  perform (send p.manager_admin p.pricer "updatePrice" (number 2 ∷ number (parse_units 20 18) ∷ []))
  perform (send p.user p.usdx "approve" (address p.manager ∷ number (parse_units 1000 18) ∷ []))
  perform (send p.user p.manager "requestRedemption" (number (parse_units 500 18) ∷ []))
  perform (
      send p.user p.manager "requestRedemptionServicedOffchain"
        (number (parse_units 500 18) ∷ hash_of_bank ∷ []))
  left ← call_view p.usdx "balanceOf" (address p.user ∷ [])
  expect_eq left (number 0)
  perform (
      send p.manager_admin p.manager "setPriceIdForRedemptions"
        (one_of first_deposit_id ∷ one_of (number 2) ∷ []))
  request ← call_view p.manager "redemptionIdToRedeemer" (first_deposit_id ∷ [])
  expect_eq (entry request 0) (address p.user)
  expect_eq (entry request 1) (number (parse_units 500 18))
  expect_eq (entry request 2) (number 2)
  set_usdc_balance p.asset_sender p.usdc_whale (parse_units 20000 6)
  perform
      (send p.asset_sender p.usdc "approve" (address p.manager ∷ number (parse_units 20000 6) ∷ []))
  perform (send p.user p.manager "claimRedemption" (one_of first_deposit_id ∷ []))
  paid ← call_view p.usdc "balanceOf" (address p.user ∷ [])
  expect_eq paid (number (parse_units 10000 6))

-- The pauses and the lists.
unfoldable pub administer : Parties → Script (Unit {0})
administer p = do
  perform (send p.pauser p.manager "pauseSubscription" [])
  perform (send p.pauser p.manager "pauseRedemption" [])
  perform (send p.manager_admin p.manager "unpauseSubscription" [])
  perform (send p.manager_admin p.manager "unpauseRedemption" [])
  perform (send p.manager_admin p.manager "setSanctionsList" (address sanction_address ∷ []))
  perform (send p.manager_admin p.manager "setBlocklist" (address p.blocklist ∷ []))
  perform (send p.pauser p.manager "pauseOffChainRedemption" [])
  perform (send p.manager_admin p.manager "unpauseOffChainRedemption" [])

-- `main`
unfoldable pub main : Script (Unit {0})
unfolding find_parties fill_allowlist subscribe redeem administer
main = do p ← find_parties; fill_allowlist p; subscribe p; redeem p; administer p
