-- ===== src/Tests/Utils.antt =====
-- The helpers of scripts/utils in concrete worlds.
use Prim.Native.String.{String}
use usdx_v.Base.{
  ℕ, ◌+◌, ◌-◌, ◌≡◌, ◌<◌, ◌⊎◌, refl, arith, Bool, true, false, Option, none, some, List, [], ◌∷◌,
  length, ltb, leb, ◌==◌, if◌then◌else◌,
}
use usdx_v.Scripts.Script.{
  World, Script, Effect, Value, returned, thrown, print, address, number, send, fetch_block_number,
  spawn,
}
use usdx_v.Scripts.Utils.Shell.{sleep}
use usdx_v.Scripts.Utils.Node.{get_block_number, wait_n_seconds_until_node_up, set_usdc_balance}
use usdx_v.Scripts.Utils.Retry.{is_truthy, ask, try_deployment, deploy_with_retries}
use usdx_v.Scripts.Utils.Attempts
use usdx_v.Scripts.Utils.Attempts.{deploy_with_retries-Attempts}
use usdx_v.Scripts.Utils.Waiting.{pinging}
use usdx_v.Scripts.Utils.Balance.{IsLedger, transfer, set_usdc_balance-exact}

-- What a transfer does to the balances, and whether they cover it.
abbrev moved : Effect → (ℕ → ℕ) → ℕ → ℕ
moved (send from c method (address to ∷ number n ∷ [])) b a =
    if a == from then b a - n else if a == to then b a + n else b a
moved _ b a = b a

abbrev covered : Effect → (ℕ → ℕ) → Bool
covered (send from c method (address to ∷ number n ∷ [])) b = leb n (b from)
covered _ b = true

-- The whale is account 5.
abbrev balances : List Effect → ℕ → ℕ
balances [] a = if a == 5 then 1000000 else 70
balances (e ∷ h) a = moved e (balances h) a

abbrev balance_of : List Effect → (contract : ℕ) → String → List Value → Option Value
balance_of h c getter (address a ∷ []) = some (number (balances h a))
balance_of h c getter _ = none

-- Nothing is saved, the node answers from the second ping on, and the user declines.
abbrev world : World
world = record {
  contract = λ h name. none;
  view = balance_of;
  storage_at = λ h c slot. 0;
  accepts = λ h e. elim e [
    | fetch_block_number url ↦ ltb 2 (length h)
    | other ↦ covered other (balances h)
  ];
  env = λ name. none;
  network = "hardhat";
  abi = λ h name. "[]";
  signer = λ i. i;
  answer = λ h. false;
  timestamp = λ h. 100;
}

world_waits :
    wait_n_seconds_until_node_up "node" 3 world []
    ≡ (print "Response" ∷ fetch_block_number "node" ∷ pinging 1 [], returned tt)
unfolding wait_n_seconds_until_node_up get_block_number sleep
world_waits = refl

-- A deployment that fails the first time.
abbrev flaky : Script (Unit {0})
flaky w h =
    if ltb (length h) 2 then (h, thrown "nonce too low") else (spawn "deploy" ∷ h, returned tt)

asking-IsOpen : Attempts.IsOpen world "Blocklist"
asking-IsOpen = record { asked = λ h i. refl; printed = λ h s. refl }

flaky_deploys : deploy_with_retries flaky "Blocklist" world [] ≡ (
  spawn "deploy"
      ∷ Effect.prompt "Blocklist" 2
      ∷ print "nonce too low"
      ∷ Effect.prompt "Blocklist" 1
      ∷ [],
  returned tt,
)
unfolding deploy_with_retries try_deployment ask is_truthy
flaky_deploys = refl

deploy_with_retries-Attempts_example :
    (h' : List Effect) × (deploy_with_retries flaky "Blocklist" world [] ≡ (h', returned tt))
    × (((saved : ℕ) × (world.contract [] "Blocklist" ≡ some saved)
          × (h' ≡ print "Blocklist already deployed" ∷ []))
        ⊎ ((world.contract [] "Blocklist" ≡ none)
            × Attempts.Attempts flaky world "Blocklist" 3 1 [] h'))
deploy_with_retries-Attempts_example =
    deploy_with_retries-Attempts flaky "Blocklist" world asking-IsOpen []

world-IsLedger : IsLedger world balances
world-IsLedger = record {
  answers = λ h a. refl;
  debits = λ h from to amount ne covers. ground arith;
  credits = λ h from to amount ne covers. ground arith;
}

whale_sends : set_usdc_balance 7 5 100 world [] ≡ (transfer 5 7 30 ∷ [], returned tt)
unfolding set_usdc_balance
whale_sends = refl

set_usdc_balance-exact_example :
    (balances (transfer 5 7 30 ∷ []) 7 ≡ 100)
    × (balances (transfer 5 7 30 ∷ []) 7 + balances (transfer 5 7 30 ∷ []) 5
        ≡ balances [] 7 + balances [] 5)
    × (((balances [] 7 ≡ 100) × (transfer 5 7 30 ∷ [] ≡ []))
        ⊎ ((amount : ℕ) × (0 < amount)
            × ((transfer 5 7 30 ∷ [] ≡ transfer 7 5 amount ∷ [])
                ⊎ (transfer 5 7 30 ∷ [] ≡ transfer 5 7 amount ∷ []))))
set_usdc_balance-exact_example =
    set_usdc_balance-exact world balances 7 5 100 [] (transfer 5 7 30 ∷ []) world-IsLedger
      (omega arith) whale_sends
