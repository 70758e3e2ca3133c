-- ===== src/Scripts/Utils/Retry.antt =====
-- scripts/utils/deploy.ts: a deployment that is tried three times.
use Prim.Native.String.{String, ◌++◌}
use usdx_v.Base.{ℕ, zero, suc, Bool, true, if◌then◌else◌}
use usdx_v.Scripts.Script.{
  Script, ◌>>=◌, ◌>>◌, pure, perform, attempt, log, returned, thrown, get_contract, get_answer,
  prompt,
}

-- What `inquire.prompt` resolves to: an object with the answer under the name of the question.
pub data Answers : Type 0 where
  answers : (confirmed : Bool) → Answers

-- What `if` makes of it: an object is true.
unfoldable pub is_truthy : Answers → Bool
is_truthy (answers confirmed) = true

unfoldable pub ask : (contract_name : String) (i : ℕ) → Script Answers
ask contract_name i = do
  perform (prompt contract_name i)
  confirmed ← get_answer
  pure (answers confirmed)

-- The loop, with the attempts that are left and the one that comes.
unfoldable pub try_deployment :
    (left i : ℕ) (func : Script (Unit {0})) (contract_name : String) → Script (Unit {0})
unfolding ask is_truthy
try_deployment zero i func contract_name = pure tt
try_deployment (suc left) i func contract_name = do
  should_deploy ← ask contract_name i
  let next : Script (Unit {0}) = try_deployment left (suc i) func contract_name
  let run : Script (Unit {0}) =
      attempt func >>= λ r. elim r [ returned _ ↦ pure tt | thrown e ↦ log e >> next ]
  if is_truthy should_deploy
      then run
      else (log ("As you wish, skipping: " ++ contract_name) >> next)

-- `deployWithRetries`
unfoldable pub deploy_with_retries :
    (func : Script (Unit {0})) (contract_name : String) → Script (Unit {0})
unfolding try_deployment
deploy_with_retries func contract_name = do
  found ← attempt (get_contract contract_name >>= λ _. log (contract_name ++ " already deployed"))
  elim found [ returned _ ↦ pure tt | thrown e ↦ try_deployment 3 1 func contract_name ]
