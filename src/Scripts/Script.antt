-- ===== src/Scripts/Script.antt =====
-- A script as Hardhat runs it: what it does to the outside world, in order, until it returns or throws.
-- The outside world (the chain, the `deployments` folder, the Defender service, the environment
-- variables) answers as a function of what has been done to it.
use Prim.Native.String.{String}
use usdx_v.Base.{ℕ, Bool, Option, none, some, List, ◌∷◌, if◌then◌else◌}

-- A value that a script handles: `undefined` is what an import that is not exported gives.
mutual
  pub data Value : Type 0 where
    undefined : Value
    address number bytes32 : ℕ → Value
    text : String → Value
    flag : Bool → Value
    tuple : Values → Value

  pub data Values : Type 0 where
    nil : Values
    cons : Value → Values → Values

-- An entry of a `functionInterface`: a name and a type, and the components of a tuple.
pub data Param : Type 0 where
  param : (name type_name : String) → Param
  tuple_param : (name : String) (components : List (String × String)) → Param

-- `CreateProposalRequest["contract"]`
pub record ContractRef : Type 0 where
  pub network : String
  pub contract_address : ℕ

-- `BaseProposalRequestParams`
pub record ProposalParams : Type 0 where
  pub title : Option String
  pub description : Option String
  pub via : Value
  pub via_type : String

-- The argument of `client.createProposal`.
pub record Proposal : Type 0 where
  pub contract : ContractRef
  pub title : String
  pub description : String
  pub function_name : String
  pub function_interface : List Param
  pub function_inputs : List Value
  pub via : Value
  pub via_type : String

-- What a script does to the outside world.
pub data Effect : Type 0 where
  print : String → Effect
  add_contract : (network : String) (contract : ℕ) (name abi : String) → Effect
  list_contracts : Effect
  delete_contract : (name : String) → Effect
  propose_grant_role propose_revoke_role :
      ProposalParams → ContractRef → (role account : Value) → Effect
  create_proposal : Proposal → Effect
  -- `deployments.save(name, { address, ...artifact })`
  save : (name : String) (saved : Value) (artifact : String) → Effect
  -- `deployments.deploy(name, { contract, args })`
  deploy : (name contract : String) (args : List Value) → Effect
  -- `contract.connect(signer).method(args)`
  send : (signer contract : ℕ) (method : String) (args : List Value) → Effect
  -- `network.provider.send(method, params)` and `network.provider.request({ method, params })`
  rpc : (method : String) (params : List Value) → Effect
  -- a request for the number of the latest block, with an answer in JSON
  fetch_block_number : (url : String) → Effect
  -- `setTimeout(resolve, ms)`
  sleep_for : (ms : ℕ) → Effect
  -- a child process, by its command line
  spawn : (command : String) → Effect
  -- inquirer's question whether to deploy a contract, at the attempt `i`
  prompt : (contract_name : String) (i : ℕ) → Effect

pub record World : Type 0 where
  -- `ethers.getContract(name)`: the address that is saved under a name
  pub contract : List Effect → String → Option ℕ
  -- a view function of a contract, by its name and arguments; none if the call throws
  pub view : List Effect → (contract : ℕ) → (getter : String) → (args : List Value) → Option Value
  -- `ethers.provider.getStorageAt(contract, slot)`
  pub storage_at : List Effect → (contract slot : ℕ) → ℕ
  -- whether an effect goes through; if not, the await throws
  pub accepts : List Effect → Effect → Bool
  pub env : String → Option String
  -- `hre.network.name`
  pub network : String
  -- the ABI of the deployment saved under a name (the task `getDeployedContractABI`)
  pub abi : List Effect → String → String
  -- the address of `ethers.getSigners()[i]`
  pub signer : ℕ → ℕ
  -- what the user answers to the last question
  pub answer : List Effect → Bool
  -- the timestamp of the latest block
  pub timestamp : List Effect → ℕ

pub data Outcome (A : Type 0) : Type 0 where
  returned : A → Outcome A
  thrown : String → Outcome A

-- The effects so far, latest first, go in and out.
abbrev pub Script : Type 0 → Type 0
Script A = World → List Effect → List Effect × Outcome A

module _ {A : Type 0} where
  abbrev pub pure : A → Script A
  pure a w h = (h, returned a)

  abbrev pub throw : String → Script A
  throw e w h = (h, thrown e)

infixl 5 ◌>>=◌ ◌>>◌
abbrev pub ◌>>=◌ : {A B : Type 0} → Script A → (A → Script B) → Script B
◌>>=◌ m f w h = let (h', r) = m w h in elim r [ returned a ↦ f a w h' | thrown e ↦ (h', thrown e) ]

abbrev pub ◌>>◌ : {A B : Type 0} → Script A → Script B → Script B
m >> k = m >>= λ _. k

abbrev pub perform : Effect → Script (Unit {0})
perform e w h = if w.accepts h e then (e ∷ h, returned tt) else (h, thrown "rejected")

abbrev or_throw : {A : Type 0} → Option A → String → Script A
or_throw none e w h = (h, thrown e)
or_throw (some a) e w h = (h, returned a)

abbrev pub get_contract : String → Script ℕ
get_contract name w h = or_throw (w.contract h name) "no contract deployed with that name" w h

abbrev pub call_view : (contract : ℕ) (getter : String) (args : List Value) → Script Value
call_view contract getter args w h = or_throw (w.view h contract getter args) "call failed" w h

-- `ethers.getContractAt(name, value)`: a text that is no address cannot be called.
abbrev pub get_contract_at : Value → Script ℕ
get_contract_at (address a) = pure a
get_contract_at v = throw "invalid address"

abbrev pub get_storage_at : (contract slot : ℕ) → Script ℕ
get_storage_at contract slot w h = (h, returned (w.storage_at h contract slot))

abbrev pub log : String → Script (Unit {0})
log s = perform (print s)

-- `hre.run("getCurrentNetwork")`
abbrev pub get_current_network : Script String
get_current_network w h = (h, returned w.network)

-- `hre.run("getDeployedContractABI", { contract })`
abbrev pub get_deployed_contract_abi : String → Script String
get_deployed_contract_abi name w h = (h, returned (w.abi h name))

abbrev pub get_env : String → Script (Option String)
get_env name w h = (h, returned (w.env name))

abbrev pub get_signer : ℕ → Script ℕ
get_signer i w h = (h, returned (w.signer i))

abbrev pub get_answer : Script Bool
get_answer w h = (h, returned (w.answer h))

abbrev pub get_timestamp : Script ℕ
get_timestamp w h = (h, returned (w.timestamp h))

-- The body of a `try`: its outcome, for the `catch`.
abbrev pub attempt : {A : Type 0} → Script A → Script (Outcome A)
attempt m w h = let (h', r) = m w h in (h', returned r)
