-- ===== src/Hub/Peers.antt =====
-- The contracts that RWAHub and USDXManager call, as an interface: the collateral token, the RWA
-- token, the pricer, the blocklist and the sanctions list (contracts/interfaces/IRWALike.sol,
-- IPricerReader.sol, IBlocklist.sol, external/chainalysis/ISanctionsList.sol, OpenZeppelin's
-- SafeERC20). Each takes the address of the contract called, and `caller` where it reads msg.sender.
use usdx_v.Base.{ℕ, ◌+◌, ◌≡◌, ◌≢◌, Bool}
use usdx_v.Evm.{Result, ok}

pub record Peers : Type 1 where
  -- The storage of all contracts other than the hub.
  pub World : Type 0
  pub decimals : World → ℕ → Result ℕ
  -- `IERC20(token).safeTransferFrom(from, to, amount)`
  pub safe_transfer_from : (token caller from to amount : ℕ) → World → Result World
  -- `IRWALike(rwa).mint(to, amount)` and `burnFrom(from, amount)`
  pub mint : (rwa caller to amount : ℕ) → World → Result World
  pub burn_from : (rwa caller from amount : ℕ) → World → Result World
  pub get_price : World → (pricer price_id : ℕ) → Result ℕ
  pub is_blocked : World → (list account : ℕ) → Result Bool
  pub is_sanctioned : World → (list account : ℕ) → Result Bool

-- What the ERC-20 standard says of a transfer between two different accounts, and that a transfer
-- of the collateral changes no price.
pub record LedgerLaws (p : Peers) : Type 1 where
  pub balance_of : p.World → (token account : ℕ) → ℕ
  pub transfer_debits :
      (token caller from to amount : ℕ) (w w' : p.World)
      → p.safe_transfer_from token caller from to amount w ≡ ok w'
      → from ≢ to
      → balance_of w' token from + amount ≡ balance_of w token from
  pub transfer_credits :
      (token caller from to amount : ℕ) (w w' : p.World)
      → p.safe_transfer_from token caller from to amount w ≡ ok w'
      → from ≢ to
      → balance_of w' token to ≡ balance_of w token to + amount
  pub transfer_others :
      (token caller from to amount other : ℕ) (w w' : p.World)
      → p.safe_transfer_from token caller from to amount w ≡ ok w'
      → other ≢ from
      → other ≢ to
      → balance_of w' token other ≡ balance_of w token other
  pub transfer_keeps_prices :
      (token caller from to amount pricer price_id : ℕ) (w w' : p.World)
      → p.safe_transfer_from token caller from to amount w ≡ ok w'
      → p.get_price w' pricer price_id ≡ p.get_price w pricer price_id
