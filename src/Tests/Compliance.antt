-- ===== src/Tests/Compliance.antt =====
-- The allowlist, the blocklist and the hook of the token at concrete inputs.
use usdx_v.Base.{
  ℕ, ◌≡◌, ◌≢◌, ◌↔◌, ◌⊎◌, refl, arith, true, false, not, ◌&&◌, ◌||◌, [], ◌∷◌, contains, ◌==◌,
}
use usdx_v.Evm.{Result, ok, revert}
use usdx_v.Roles.{burner_role}
use usdx_v.Compliance.Allowlist.{
  Allowlist, Signatures, initialize, set_status, add_self_to_allowlist, set_current_term_index,
  add_term, is_allowed,
}
use usdx_v.Compliance.Calls.{Call, exec, initialized, called}
use usdx_v.Compliance.Terms.{IsBounded, Reach-IsBounded}
use usdx_v.Compliance.Status.{is_allowed_iff}
use usdx_v.Compliance.Blocklist.{
  Blocklist, add_to_blocklist, remove_from_blocklist, is_blocked, set_each, add-remove,
}
use usdx_v.Compliance.Token.{
  Rules, Token, IsClear, check_address, before_token_transfer, before_token_transfer_iff, burn,
  burn-IsClear,
}
use usdx_v.Tests.Chain.{table_access}

-- Signatures whose first word is the signer, and one contract, 50.
instance abbrev pub signatures : Signatures
signatures = record { is_contract = λ a. a == 50; recover = λ term v r s. ok r }

-- The accounts: a user, the owner of the blocklist, a blocked one, and the burner.
abbrev user : ℕ
user = 7

abbrev owner : ℕ
owner = 9

abbrev blocked : ℕ
blocked = 3

abbrev burner : ℕ
burner = 6

abbrev State : Type 0
State = Allowlist table_access.Roles

abbrev left_by : Result State → State → State
left_by r s = elim r [ ok s' ↦ s' | revert x ↦ s ]

-- The admin 9 adds a term, and the account 7 adds itself for it.
abbrev fresh : State
unfolding initialize
fresh = initialize 9 8

abbrev with_term : State
unfolding add_term set_current_term_index fresh initialize
with_term = left_by (add_term 9 "terms of use" fresh) fresh

abbrev with_account : State
unfolding add_self_to_allowlist set_status with_term add_term set_current_term_index fresh
    initialize
with_account = left_by (add_self_to_allowlist 7 0 with_term) with_term

term_added :
    exec ⦃sig = signatures⦄ 9 (Call.add_term "terms of use") (initialize 9 8) ≡ ok with_term
unfolding exec add_term set_current_term_index with_term fresh initialize
term_added = refl

account_added : exec ⦃sig = signatures⦄ 7 (Call.add_self_to_allowlist 0) with_term ≡ ok with_account
unfolding exec add_self_to_allowlist set_status with_account with_term add_term
    set_current_term_index fresh initialize
account_added = refl

Reach-IsBounded_example : IsBounded with_account
Reach-IsBounded_example = Reach-IsBounded ⦃sig = signatures⦄ with_account (
    called 7 (Call.add_self_to_allowlist 0) with_account
      (called 9 (Call.add_term "terms of use") with_term (initialized 9 8) term_added)
      account_added)

is_allowed_iff_example : (is_allowed ⦃sig = signatures⦄ 7 with_account ≡ true) ↔ (
    (signatures.is_contract 7 ≡ true)
    ⊎ ((i : ℕ) × (contains i with_account.valid_indexes ≡ true)
        × (with_account.verifications 7 i ≡ true)))
is_allowed_iff_example = is_allowed_iff ⦃sig = signatures⦄ 7 with_account

abbrev blocklist : Blocklist
blocklist = record { log = []; owner = 9; blocked_addresses = λ a. a == 3 }

abbrev added : Blocklist
unfolding add_to_blocklist set_each
added = elim (add_to_blocklist 9 (4 ∷ 5 ∷ []) blocklist) [ ok s ↦ s | revert x ↦ blocklist ]

abbrev removed : Blocklist
unfolding remove_from_blocklist set_each added add_to_blocklist
removed = elim (remove_from_blocklist 9 (5 ∷ 3 ∷ []) added) [ ok s ↦ s | revert x ↦ blocklist ]

blocklist_adds : add_to_blocklist 9 (4 ∷ 5 ∷ []) blocklist ≡ ok added
unfolding add_to_blocklist set_each added
blocklist_adds = refl

blocklist_removes : remove_from_blocklist 9 (5 ∷ 3 ∷ []) added ≡ ok removed
unfolding remove_from_blocklist set_each removed added add_to_blocklist
blocklist_removes = refl

add-remove_example :
    (owner ≡ blocklist.owner)
    × (owner ≡ blocklist.owner)
    × ((a : ℕ) → is_blocked added a ≡ (contains a (4 ∷ 5 ∷ []) || is_blocked blocklist a))
    × ((a : ℕ) → is_blocked removed a ≡ (not (contains a (5 ∷ 3 ∷ [])) && is_blocked added a))
add-remove_example =
    add-remove owner owner (4 ∷ 5 ∷ []) (5 ∷ 3 ∷ []) blocklist added removed blocklist_adds
      blocklist_removes

-- The account 3 is blocked, and everybody is on the allowlist.
instance abbrev pub rules : Rules
rules = record {
  World = ℕ;
  is_blocked = λ w list a. ok (a == 3);
  is_sanctioned = λ w list a. ok false;
  is_allowed = λ w list a. ok true;
  base_hook = λ w from to amount. ok tt;
  burn_balance = λ from amount w. ok (amount);
}

abbrev token : Token table_access.Roles rules.World
token = record {
  world = 0;
  log = [];
  roles = table_access.grant burner_role 6 table_access.no_roles;
  blocklist = 20;
  allowlist = 22;
  sanctions_list = 21;
}

before_token_transfer_iff_example : (before_token_transfer ⦃p = rules⦄ 7 7 3 100 token ≡ ok tt) ↔ (
    (rules.base_hook 0 7 3 100 ≡ ok tt)
    × (user ≢ user → blocked ≢ user → IsClear ⦃p = rules⦄ token 7)
    × (user ≢ 0 → IsClear ⦃p = rules⦄ token 7)
    × (blocked ≢ 0 → IsClear ⦃p = rules⦄ token 3))
before_token_transfer_iff_example = before_token_transfer_iff ⦃p = rules⦄ 7 7 3 100 token

token_burns : burn ⦃p = rules⦄ 6 7 100 token ≡ ok (record token { world = 100 })
unfolding burn before_token_transfer check_address
token_burns = refl

burn-IsClear_example :
    (table_access.has_role token.roles burner_role 6 ≡ true)
    × IsClear ⦃p = rules⦄ token 7
    × (user ≢ burner → IsClear ⦃p = rules⦄ token 6)
burn-IsClear_example =
    burn-IsClear ⦃p = rules⦄ 6 7 100 token (record token { world = 100 }) token_burns (ground arith)
      (ground arith)
