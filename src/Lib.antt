-- ===== src/Lib.antt =====
-- usdx-v2 sells USDX, a yield-bearing token, for collateral. The model covers the contracts that
-- book and settle subscriptions and redemptions, those that prices come from, those that decide who may
-- hold the token, and the scripts that roll the contracts out and check what is deployed.
--
-- How the parts work together. A user asks USDXManager for a subscription, which takes the collateral
-- in; a setter later gives the deposit the id of a price and a time from which it can be claimed;
-- whoever claims it has the tokens minted at that price, which USDXManager reads from Pricer. A
-- redemption burns the tokens at once and pays collateral at a claim, in the same way. The oracle
-- RWAOracleRateCheck publishes a price that moves slowly. The scripts propose the deployments and
-- the grants of roles to the OpenZeppelin Defender service, and the verification tasks compare the
-- chain with a configuration.
--
-- The files:
-- - Base: names of the libraries, Boolean tests, lists and maps over the native numbers, integers.
-- - Evm: a call that returns or reverts, checked uint256 arithmetic; Evm/Words: int256 and the words of
--   the assembly.
-- - Roles, Access: the identifiers of the roles, and OpenZeppelin's AccessControlEnumerable as an
--   interface with its documented laws.
-- - Hub: contracts/RWAHub.sol, contracts/RWAHubOffChainRedemptions.sol and
--   contracts/usdx/USDXManager.sol, with BlocklistClient.sol and SanctionsListClient.sol. Hub/Peers is
--   the interface to the tokens, the pricer and the lists, and the laws of a plain token; Hub/State the
--   storage and the events; Hub/Amounts the math utils; Hub/Subscribe requestSubscription, addProof and
--   claimMint; Hub/Redeem requestRedemption, requestRedemptionServicedOffchain and claimRedemption;
--   Hub/Prices the setters of price ids and timestamps; Hub/Admin the overwriting functions, the
--   setters and the pauses; Hub/Deploy the constructor; Hub/Calls the dispatch of a call. Hub/Invariant,
--   Hub/Reach, Hub/Booking, Hub/Claiming, Hub/Redeeming, Hub/Pricing, Hub/Deposits,
--   Hub/Redemptions, Hub/History, Hub/DepositLife, Hub/RedemptionLife, Hub/Provenance, Hub/Order,
--   Hub/Completing, Hub/Minting and Hub/Exchange hold the proofs.
-- - Pricer: Pricer/State is contracts/Pricer.sol, with proofs in Pricer/Latest; Pricer/WithOracle is
--   contracts/PricerWithOracle.sol, with proofs in Pricer/Synced.
-- - Oracle: contracts/rwaOracles/RWAOracleRateCheck.sol. Oracle/RateCheck holds its functions,
--   Oracle/RateBound, Oracle/Drift and Oracle/Acceptance its proofs. Oracle/Comparison is
--   contracts/rwaOracles/RWAOracleExternalComparisonCheck.sol, with proofs in Oracle/Comparing and
--   Oracle/Compared.
-- - Compliance: who may hold the token. Compliance/Allowlist is
--   contracts/usdx/allowlist/AllowlistUpgradeable.sol, with a dispatch in Compliance/Calls and proofs in
--   Compliance/Terms and Compliance/Status; Compliance/Blocklist is
--   contracts/usdx/blocklist/Blocklist.sol; Compliance/Token is the hook, the setters and the burn of
--   contracts/usdx/USDX.sol; Compliance/Factory is contracts/usdx/USDXFactory.sol and
--   contracts/usdx/allowlist/AllowlistFactory.sol with the initialization of USDX, and
--   Compliance/Handover the proofs on it.
-- - System: the contracts together. System/Parts puts the models of USDX, its lists and the pricer behind
--   the interfaces of USDXManager and of the hook, with proofs in System/Screening; System/RateChecked
--   puts the model of RWAOracleRateCheck behind that of PricerWithOracle, with proofs in System/Paced.
-- - Scripts: the TypeScript. Scripts/Script is what a script does to the outside world;
--   Scripts/Constants is deploy/mainnet_constants.ts and scripts/utils/constants.ts; Scripts/Defender is
--   scripts/utils/defender-helper.ts; Scripts/Usdx and Scripts/Xmmf are the tasks under scripts/usdx and
--   scripts/xmmf, with proofs in Scripts/Usdx/Rollout and Scripts/Usdx/TokenRoles; Scripts/Deploy is
--   deploy/usdx, with proofs in Scripts/Deploy/Arguments; Scripts/Verify is
--   scripts/usdx/verification-scripts with scripts/utils/helpers.ts;
--   Scripts/Utils is shell.ts, util.ts and deploy.ts of scripts/utils, with proofs in Waiting, Balance
--   and Attempts; Scripts/Ci is scripts/ci/event_coverage_usdx.ts. The two subtasks of
--   scripts/utils/prod-subtasks.ts are answers of the world in Scripts/Script.
-- - Tests: concrete tokens, roles and worlds.
--
-- How the code is read. A function of a contract is a function from the state before to a result, with
-- `sender` for msg.sender and `now` for block.timestamp; a revert leaves no state. A mapping is a total
-- function with the default value. Addresses, bytes32 values and role identifiers are numbers.
-- Arithmetic on uint256 reverts where it leaves the range; the assembly of mulDivUp wraps. Events are
-- kept in a list, latest first. The contracts that are called have a state of their own, the world, on
-- which each call acts; they do not call back, as nonReentrant ensures for the guarded functions. A
-- script runs over a history of effects, and the outside world answers as a function of that history;
-- an effect that is not accepted throws. The loops run over lists, or over the
-- rounds that the source counts, and need no fuel.
--
-- Not modelled: the copies of OpenZeppelin, Chainlink and forge-std, the ERC20 functions that USDX
-- inherits, which enter as parameters, and hardhat.config.ts, which is a value without code.
pub mod Base
pub mod Evm
pub mod Roles
pub mod Access
pub mod Hub
pub mod Pricer
pub mod Oracle
pub mod Compliance
pub mod System
pub mod Scripts
mod Tests
