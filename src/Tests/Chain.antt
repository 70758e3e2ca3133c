-- ===== src/Tests/Chain.antt =====
-- Concrete access control and concrete other contracts, which meet the laws of the interfaces.
use usdx_v.Base.{
  ℕ, ◌+◌, ◌-◌, ◌≡◌, ◌≢◌, refl, Bool, true, false, not, ◌&&◌, List, [], ◌∷◌, ◌++◌, arith, ltb, ◌==◌,
  if◌then◌else◌,
}
use usdx_v.Evm.{Result, ok, revert, external}
use usdx_v.Access.{AccessControl, swap_remove}
use usdx_v.Hub.Peers.{Peers, LedgerLaws}
use usdx_v.Hub.Minting.{MintLaws}

-- The roles: who has them, in which order they were granted, and their admins.
pub record Table : Type 0 where
  pub has : ℕ → ℕ → Bool
  pub granted : ℕ → List ℕ
  pub admin : ℕ → ℕ

abbrev pub empty_table : Table
empty_table = record { has = λ r a. false; granted = λ r. []; admin = λ r. 0 }

abbrev grant_in : ℕ → ℕ → Table → Table
grant_in r a t = record {
  has = λ r' a'. if r' == r && a' == a then true else t.has r' a';
  granted = λ r'. if r' == r && not (t.has r a) then t.granted r' ++ a ∷ [] else t.granted r';
  admin = t.admin;
}

abbrev revoke_in : ℕ → ℕ → Table → Table
revoke_in r a t = record {
  has = λ r' a'. if r' == r && a' == a then false else t.has r' a';
  granted = λ r'. if r' == r then swap_remove a (t.granted r') else t.granted r';
  admin = t.admin;
}

abbrev set_admin_in : ℕ → ℕ → Table → Table
set_admin_in r b t = record {
  has = t.has;
  granted = t.granted;
  admin = λ r'. if r' == r then b else t.admin r';
}

instance abbrev pub table_access : AccessControl
table_access = record {
  Roles = Table;
  no_roles = empty_table;
  has_role = λ t. t.has;
  members = λ t. t.granted;
  role_admin = λ t. t.admin;
  grant = grant_in;
  revoke = revoke_in;
  set_role_admin = set_admin_in;
  has_role-no_roles = λ r a. refl;
  has_role-grant = λ r a s r' a'. refl;
  has_role-revoke = λ r a s r' a'. refl;
  has_role-set_role_admin = λ r b s r' a'. refl;
  role_admin-no_roles = λ r. refl;
  role_admin-grant = λ r a s r'. refl;
  role_admin-revoke = λ r a s r'. refl;
  role_admin-set_role_admin = λ r b s r'. refl;
  members-no_roles = λ r. refl;
  members-grant = λ r a s r'. refl;
  members-revoke = λ r a s r'. refl;
  members-set_role_admin = λ r b s r'. refl;
}

-- The balances by token and account, the two lists, and the prices by id.
pub record Ledger : Type 0 where
  pub balances : ℕ → ℕ → ℕ
  pub blocked : ℕ → Bool
  pub price_of : ℕ → ℕ

abbrev debit : ℕ → ℕ → ℕ → Ledger → Ledger
debit token from amount w = record w {
  balances = λ t a. if t == token && a == from then w.balances t a - amount else w.balances t a;
}

abbrev credit : ℕ → ℕ → ℕ → Ledger → Ledger
credit token to amount w = record w {
  balances = λ t a. if t == token && a == to then w.balances t a + amount else w.balances t a;
}

abbrev pub move : (token caller from to amount : ℕ) → Ledger → Result Ledger
move token caller from to amount w =
    if ltb (w.balances token from) amount
    then revert external
    else ok (credit token to amount (debit token from amount w))

instance abbrev pub ledger_peers : Peers
ledger_peers = record {
  World = Ledger;
  decimals = λ w token. ok (if token == 1 then 6 else 18);
  safe_transfer_from = move;
  mint = λ rwa caller to amount w. ok (credit rwa to amount w);
  burn_from = λ rwa caller from amount w.
      if ltb (w.balances rwa from) amount then revert external else ok (debit rwa from amount w);
  get_price = λ w pricer price_id. ok (w.price_of price_id);
  is_blocked = λ w list account. ok (w.blocked account);
  is_sanctioned = λ w list account. ok false;
}

pub move_debits :
    (token caller from to amount : ℕ) (w w' : Ledger)
    → move token caller from to amount w ≡ ok w'
    → from ≢ to
    → w'.balances token from + amount ≡ w.balances token from
move_debits token caller from to amount w w' e ne = ground arith

pub move_credits :
    (token caller from to amount : ℕ) (w w' : Ledger)
    → move token caller from to amount w ≡ ok w'
    → from ≢ to
    → w'.balances token to ≡ w.balances token to + amount
move_credits token caller from to amount w w' e ne = ground arith

pub move_others :
    (token caller from to amount other : ℕ) (w w' : Ledger)
    → move token caller from to amount w ≡ ok w'
    → other ≢ from
    → other ≢ to
    → w'.balances token other ≡ w.balances token other
move_others token caller from to amount other w w' e nf nt = ground arith

pub move_keeps_prices :
    (token caller from to amount pricer price_id : ℕ) (w w' : Ledger)
    → move token caller from to amount w ≡ ok w'
    → ledger_peers.get_price w' pricer price_id ≡ ledger_peers.get_price w pricer price_id
move_keeps_prices token caller from to amount pricer price_id w w' e = ground arith

abbrev pub ledger_laws : LedgerLaws ledger_peers
ledger_laws = record {
  balance_of = λ w. w.balances;
  transfer_debits = move_debits;
  transfer_credits = move_credits;
  transfer_others = move_others;
  transfer_keeps_prices = move_keeps_prices;
}

pub credit_credits :
    (rwa caller to amount account : ℕ) (w w' : Ledger)
    → ledger_peers.mint rwa caller to amount w ≡ ok w'
    → w'.balances rwa account ≡ w.balances rwa account + (if account == to then amount else 0)
credit_credits rwa caller to amount account w w' e = ground arith

pub credit_keeps_prices :
    (rwa caller to amount pricer price_id : ℕ) (w w' : Ledger)
    → ledger_peers.mint rwa caller to amount w ≡ ok w'
    → ledger_peers.get_price w' pricer price_id ≡ ledger_peers.get_price w pricer price_id
credit_keeps_prices rwa caller to amount pricer price_id w w' e = ground arith

abbrev pub ledger_mint_laws : MintLaws ledger_peers
ledger_mint_laws = record {
  balance_of = λ w. w.balances;
  mint_credits = credit_credits;
  mint_keeps_prices = credit_keeps_prices;
}
