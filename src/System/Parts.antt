-- ===== src/System/Parts.antt =====
-- The contracts that USDXManager calls, as the models of this library, behind the interfaces Rules and
-- Peers. What is left outside is the collateral, the sanctions list and what USDX inherits from
-- OpenZeppelin.
use usdx_v.Base.{ℕ, Bool, ◌==◌, if◌then◌else◌}
use usdx_v.Evm.{Result, ok, revert, ◌>>=◌, ◌>>◌, external}
use usdx_v.Access.{AccessControl, only_role}
use usdx_v.Roles.{minter_role}
use usdx_v.Compliance.Allowlist
use usdx_v.Compliance.Allowlist.{Allowlist, Signatures}
use usdx_v.Compliance.Blocklist
use usdx_v.Compliance.Blocklist.{Blocklist}
use usdx_v.Compliance.Token.{Rules, Token, before_token_transfer}
use usdx_v.Pricer.State
use usdx_v.Pricer.State.{Pricer}
use usdx_v.Hub.Peers.{Peers}

pub record Outside : Type 1 where
  -- The storage of the contracts outside, and the balances and allowances of USDX.
  pub Rest : Type 0
  pub is_sanctioned : Rest → (list account : ℕ) → Result Bool
  -- the hook of ERC20PausableUpgradeable
  pub base_hook : Rest → (from to amount : ℕ) → Result (Unit {0})
  -- what `_mint` and `_burn` do after the hook, and `_spendAllowance`
  pub mint_balance : (to amount : ℕ) → Rest → Result Rest
  pub burn_balance : (from amount : ℕ) → Rest → Result Rest
  pub spend_allowance : (owner spender amount : ℕ) → Rest → Result Rest
  pub decimals : Rest → (token : ℕ) → Result ℕ
  pub transfer_from : (token caller from to amount : ℕ) → Rest → Result Rest

-- What USDX calls: the two lists, at their addresses, and the contracts outside.
pub record Lists (R S : Type 0) : Type 0 where
  pub rest : S
  pub blocklist_at : ℕ
  pub blocklist : Blocklist
  pub allowlist_at : ℕ
  pub allowlist : Allowlist R

-- What USDXManager calls: USDX and the pricer, at their addresses.
pub record Contracts (R S : Type 0) : Type 0 where
  pub token_at : ℕ
  pub token : Token R (Lists R S)
  pub pricer_at : ℕ
  pub pricer : Pricer R

-- A call of the contract at an address.
abbrev pub at : {A : Type 0} → (address expected : ℕ) → Result A → Result A
at address expected call = if address == expected then call else revert external

module _ ⦃ac : AccessControl⦄ ⦃sig : Signatures⦄ ⦃o : Outside⦄ where
  abbrev pub list_rules : Rules
  list_rules = record {
    World = Lists ac.Roles o.Rest;
    is_blocked = λ w list a. at list w.blocklist_at (ok (Blocklist.is_blocked w.blocklist a));
    is_sanctioned = λ w list a. o.is_sanctioned w.rest list a;
    is_allowed = λ w list a. at list w.allowlist_at (ok (Allowlist.is_allowed a w.allowlist));
    base_hook = λ w from to amount. o.base_hook w.rest from to amount;
    burn_balance = λ from amount w. (do
      rest ← o.burn_balance from amount w.rest
      ok (record w { rest = rest }));
  }

  abbrev pub Usdx : Type 0
  Usdx = Token ac.Roles (Lists ac.Roles o.Rest)

  abbrev pub World : Type 0
  World = Contracts ac.Roles o.Rest

  -- `mint` of ERC20PresetMinterPauserUpgradeable, with the hook of USDX.
  unfoldable pub mint : (caller to amount : ℕ) → Usdx → Result Usdx
  mint caller to amount t = do
    only_role t.roles minter_role caller
    before_token_transfer ⦃p = list_rules⦄ caller 0 to amount t
    rest ← o.mint_balance to amount t.world.rest
    ok (record t { world = record t.world { rest = rest } })

  -- `burnFrom` of ERC20BurnableUpgradeable, with the hook of USDX.
  unfoldable pub burn_from : (caller from amount : ℕ) → Usdx → Result Usdx
  burn_from caller from amount t = do
    rest ← o.spend_allowance from caller amount t.world.rest
    let spent : Usdx = record t { world = record t.world { rest = rest } }
    before_token_transfer ⦃p = list_rules⦄ caller from 0 amount spent
    burned ← o.burn_balance from amount rest
    ok (record t { world = record t.world { rest = burned } })

  abbrev pub contract_peers : Peers
  contract_peers = record {
    World = World;
    decimals = λ w token. o.decimals w.token.world.rest token;
    safe_transfer_from = λ token caller from to amount w. (do
      rest ← o.transfer_from token caller from to amount w.token.world.rest
      ok (record w { token = record w.token { world = record w.token.world { rest = rest } } }));
    mint = λ rwa caller to amount w.
        at rwa w.token_at (do t ← mint caller to amount w.token; ok (record w { token = t }));
    burn_from = λ rwa caller from amount w.
        at rwa w.token_at
          (do t ← burn_from caller from amount w.token; ok (record w { token = t }));
    get_price = λ w pricer price_id. at pricer w.pricer_at (ok (State.get_price w.pricer price_id));
    is_blocked = λ w list a. list_rules.is_blocked w.token.world list a;
    is_sanctioned = λ w list a. o.is_sanctioned w.token.world.rest list a;
  }
