-- ===== src/Compliance/Allowlist.antt =====
-- contracts/usdx/allowlist/AllowlistUpgradeable.sol: the terms, and the accounts verified for them.
use Prim.Native.String.{String}
use usdx_v.Base.{
  ℕ, ◌-◌, Bool, true, false, not, ◌&&◌, none, some, List, [], ◌∷◌, ◌++◌, length, get_elem?, ltb,
  ◌==◌, if◌then◌else◌,
}
use usdx_v.Evm.{
  Result, ok, revert, ◌>>=◌, ◌>>◌, revert_if, panic_out_of_bounds, invalid_term_index,
  already_verified, invalid_v_signature, invalid_signer,
}
use usdx_v.Access.{AccessControl, only_role}
use usdx_v.Roles.{default_admin_role, allowlist_admin, allowlist_setter}

pub data Event : Type 0 where
  term_added : (term : String) (term_index : ℕ) → Event
  current_term_index_set : (old new : ℕ) → Event
  valid_term_indexes_set : (old new : List ℕ) → Event
  account_added_self : (account term_index : ℕ) → Event
  account_status_set_by_admin account_status_set : (account term_index : ℕ) (status : Bool) → Event
  account_added_from_signature : (account term_index v r s : ℕ) → Event

-- What the contract takes from libraries: whether an address has code, and the address that
-- `ECDSA.recover` finds for the signed message of a term.
pub record Signatures : Type 0 where
  pub is_contract : ℕ → Bool
  pub recover : (term : String) (v r s : ℕ) → Result ℕ

pub record Allowlist (R : Type 0) : Type 0 where
  pub log : List Event
  pub roles : R
  pub verifications : ℕ → ℕ → Bool
  pub terms : List String
  pub current_term_index : ℕ
  pub valid_indexes : List ℕ

-- The test of the loop of `setValidTermIndexes`.
unfoldable pub all_below : (bound : ℕ) → List ℕ → Bool
all_below bound [] = true
all_below bound (i ∷ rest) = if ltb i bound then all_below bound rest else false

module _ {R : Type 0} where
  -- `verifications[account][termIndex] = status`
  abbrev pub verify : (account term_index : ℕ) (status : Bool) → Allowlist R → Allowlist R
  verify account term_index status s = record s {
    verifications = λ a i. if a == account && i == term_index then status else s.verifications a i;
  }

  abbrev pub emit : Event → Allowlist R → Allowlist R
  emit e s = record s { log = e ∷ s.log }

  -- `getCurrentTerm`
  unfoldable pub get_current_term : Allowlist R → Result String
  get_current_term s = elim (get_elem? s.terms s.current_term_index) [
    | none ↦ revert panic_out_of_bounds
    | some term ↦ ok term
  ]

  -- The loop of `isAllowed`.
  unfoldable pub verified_for_any : (account : ℕ) → List ℕ → Allowlist R → Bool
  verified_for_any account [] s = false
  verified_for_any account (i ∷ rest) s =
      if s.verifications account i then true else verified_for_any account rest s

  -- `isAllowed`
  unfoldable pub is_allowed : ⦃sig : Signatures⦄ → (account : ℕ) → Allowlist R → Bool
  is_allowed ⦃sig⦄ account s =
      if sig.is_contract account then true else verified_for_any account s.valid_indexes s

  -- `_setAccountStatus`
  unfoldable pub set_status :
      (account term_index : ℕ) (status : Bool) → Allowlist R → Result (Allowlist R)
  set_status account term_index status s = do
    revert_if (not (ltb term_index (length s.terms))) invalid_term_index
    ok (emit (account_status_set account term_index status) (verify account term_index status s))

  -- `addSelfToAllowlist`
  unfoldable pub add_self_to_allowlist :
      (sender term_index : ℕ) → Allowlist R → Result (Allowlist R)
  unfolding set_status
  add_self_to_allowlist sender term_index s = do
    revert_if (s.verifications sender term_index) already_verified
    s₁ ← set_status sender term_index true s
    ok (emit (account_added_self sender term_index) s₁)

  -- `addAccountToAllowlist`
  unfoldable pub add_account_to_allowlist :
      ⦃sig : Signatures⦄ → (term_index account v r s : ℕ) → Allowlist R → Result (Allowlist R)
  unfolding set_status
  add_account_to_allowlist ⦃sig⦄ term_index account v r s l = do
    revert_if (l.verifications account term_index) already_verified
    revert_if (not (v == 27) && not (v == 28)) invalid_v_signature
    term ← elim (get_elem? l.terms term_index) [ none ↦ revert panic_out_of_bounds | some t ↦ ok t ]
    signer ← sig.recover term v r s
    revert_if (not (signer == account)) invalid_signer
    l₁ ← set_status account term_index true l
    ok (emit (account_added_from_signature account term_index v r s) l₁)

module _ ⦃ac : AccessControl⦄ where
  -- `initialize`
  unfoldable pub initialize : (admin setter : ℕ) → Allowlist ac.Roles
  initialize admin setter = record {
    log = [];
    roles =
        ac.grant allowlist_setter setter
          (ac.grant allowlist_admin admin (ac.grant default_admin_role admin ac.no_roles));
    verifications = λ _ _. false;
    terms = [];
    current_term_index = 0;
    valid_indexes = [];
  }

  -- `setCurrentTermIndex`
  unfoldable pub set_current_term_index :
      (sender term_index : ℕ) → Allowlist ac.Roles → Result (Allowlist ac.Roles)
  set_current_term_index sender term_index s = do
    only_role s.roles allowlist_admin sender
    revert_if (not (ltb term_index (length s.terms))) invalid_term_index
    ok (
        emit (current_term_index_set s.current_term_index term_index)
          (record s { current_term_index = term_index }))

  -- `addTerm`
  unfoldable pub add_term :
      (sender : ℕ) (term : String) → Allowlist ac.Roles → Result (Allowlist ac.Roles)
  unfolding set_current_term_index
  add_term sender term s = do
    only_role s.roles allowlist_admin sender
    let s₁ = record s { terms = s.terms ++ term ∷ [] }
    s₂ ← set_current_term_index sender (length s₁.terms - 1) s₁
    ok (emit (term_added term (length s₂.terms - 1)) s₂)

  -- `setValidTermIndexes`
  unfoldable pub set_valid_term_indexes :
      (sender : ℕ) → List ℕ → Allowlist ac.Roles → Result (Allowlist ac.Roles)
  unfolding all_below
  set_valid_term_indexes sender indexes s = do
    only_role s.roles allowlist_admin sender
    revert_if (not (all_below (length s.terms) indexes)) invalid_term_index
    ok (
        emit (valid_term_indexes_set s.valid_indexes indexes)
          (record s { valid_indexes = indexes }))

  -- `setAccountStatus`
  unfoldable pub set_account_status :
      (sender account term_index : ℕ) (status : Bool)
      → Allowlist ac.Roles
      → Result (Allowlist ac.Roles)
  unfolding set_status
  set_account_status sender account term_index status s = do
    only_role s.roles allowlist_setter sender
    s₁ ← set_status account term_index status s
    ok (emit (account_status_set_by_admin account term_index status) s₁)
