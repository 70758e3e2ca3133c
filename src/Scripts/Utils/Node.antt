-- ===== src/Scripts/Utils/Node.antt =====
-- scripts/utils/util.ts: the wait for a node, the calls of a development network, and the balance of an
-- account in USDC. A message leaves out the values that the source puts into it.
use Prim.Native.String.{String}
use usdx_v.Base.{ℕ, zero, suc, ◌-◌, Bool, true, false, [], ◌∷◌, ltb, ◌==◌, if◌then◌else◌}
use usdx_v.Scripts.Script.{
  Script, ◌>>=◌, ◌>>◌, pure, throw, perform, attempt, log, returned, thrown, call_view,
  get_contract_at, Value, address, number, rpc, fetch_block_number, send,
}
use usdx_v.Scripts.Constants.{usdc_mainnet}
use usdx_v.Scripts.Utils.Shell.{sleep}

-- `getBlockNumber`: whether the node has answered.
unfoldable pub get_block_number : (node_url : String) → Script Bool
get_block_number node_url = do
  answered ← attempt (perform (fetch_block_number node_url) >> log "Response")
  elim answered [
    | returned _ ↦ pure true
    | thrown e ↦ log "Unable to query node, error" >> pure false
  ]

-- `waitNSecondsUntilNodeUp`
unfoldable pub wait_n_seconds_until_node_up : (node_url : String) (seconds : ℕ) → Script (Unit {0})
unfolding get_block_number sleep
wait_n_seconds_until_node_up node_url zero = throw "Unable to contact node in a timely manner."
wait_n_seconds_until_node_up node_url (suc seconds) = do
  log "Pinging eth node..."
  node_up ← get_block_number node_url
  let again : Script (Unit {0}) = sleep 1000 >> wait_n_seconds_until_node_up node_url seconds
  if node_up then pure tt else again

-- `increaseBlockTimestamp`, for a whole number of seconds
unfoldable pub increase_block_timestamp : (seconds : ℕ) (mine : Bool) → Script (Unit {0})
increase_block_timestamp seconds mine = do
  perform (rpc "evm_increaseTime" (number seconds ∷ []))
  if mine then perform (rpc "evm_mine" []) else pure tt

-- `getImpersonatedSigner`
unfoldable pub get_impersonated_signer : (account : ℕ) → Script ℕ
get_impersonated_signer account = do
  perform (rpc "hardhat_impersonateAccount" (address account ∷ []))
  pure account

-- What `balanceOf` returns is a `BigNumber`.
abbrev pub as_number : Value → Script ℕ
as_number (number n) = pure n
as_number v = throw "not a number"

-- `setUSDCBalance`
unfoldable pub set_usdc_balance : (signer usdc_whale balance : ℕ) → Script (Unit {0})
set_usdc_balance signer usdc_whale balance = do
  usdc ← get_contract_at (address usdc_mainnet)
  answer ← call_view usdc "balanceOf" (address signer ∷ [])
  original ← as_number answer
  let give_back =
      send signer usdc "transfer" (address usdc_whale ∷ number (original - balance) ∷ [])
  let top_up = send usdc_whale usdc "transfer" (address signer ∷ number (balance - original) ∷ [])
  if original == balance
      then pure tt
      else if ltb balance original
      then perform give_back
      else perform top_up
