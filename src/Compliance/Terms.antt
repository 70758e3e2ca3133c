-- ===== src/Compliance/Terms.antt =====
-- What stays true of the terms of AllowlistUpgradeable.
use usdx_v.Base.{
  ℕ, ◌<◌, ◌≡◌, ◌⊎◌, inl, refl, arith, true, List, [], ◌∷◌, length, length-append, contains,
}
use usdx_v.Evm.{ok}
use usdx_v.Access.{AccessControl}
use usdx_v.Compliance.Allowlist.{
  Allowlist, Signatures, initialize, set_status, add_self_to_allowlist, add_account_to_allowlist,
  all_below, set_current_term_index, add_term, set_valid_term_indexes, set_account_status,
}
use usdx_v.Compliance.Calls.{Call, exec, Reach, initialized, called, roles_moved}

module _ {R : Type 0} where
  -- Every index that the contract holds names a term.
  pub record IsBounded (s : Allowlist R) : Type 0 where
    pub current_bounded : (length s.terms ≡ 0) ⊎ (s.current_term_index < length s.terms)
    pub valid_bounded : (i : ℕ) → contains i s.valid_indexes ≡ true → i < length s.terms
    pub verified_bounded : (a i : ℕ) → s.verifications a i ≡ true → i < length s.terms

all_below-All :
    (bound : ℕ) (is : List ℕ)
    → all_below bound is ≡ true
    → (i : ℕ) → contains i is ≡ true
    → i < bound
unfolding all_below
all_below-All bound [] e i c = cc
all_below-All bound (j ∷ rest) e i c = ground (arith, all_below-All bound rest (ground arith) i)

module _ ⦃ac : AccessControl⦄ ⦃sig : Signatures⦄ where
  exec-IsBounded :
      (sender : ℕ) (c : Call) (s s' : Allowlist ac.Roles)
      → IsBounded s
      → exec sender c s ≡ ok s'
      → IsBounded s'
  unfolding exec add_term set_current_term_index add_self_to_allowlist set_valid_term_indexes
      set_account_status add_account_to_allowlist set_status
  exec-IsBounded sender (Call.add_term term) s s' v e =
      let grown = length-append s.terms (term ∷ []) in
      record {
        current_bounded = ground (arith, grown);
        valid_bounded = λ i m. ground (arith, grown, v.valid_bounded i);
        verified_bounded = λ a i m. ground (arith, grown, v.verified_bounded a i);
      }
  exec-IsBounded sender (Call.set_valid_term_indexes is) s s' v e =
      let below = all_below-All (length s.terms) is (ground arith) in
      record {
        current_bounded = ground (arith, v.current_bounded);
        valid_bounded = λ i m. ground (arith, below i);
        verified_bounded = λ a i m. ground (arith, v.verified_bounded a i);
      }
  exec-IsBounded sender c s s' v e = record {
    current_bounded = ground (arith, v.current_bounded);
    valid_bounded = λ i m. ground (arith, v.valid_bounded i);
    verified_bounded = λ a i m. ground (arith, v.verified_bounded a i);
  }

  -- In every state that calls lead to from the initialization, the current index is that of a term,
  -- unless there are no terms, every valid index is that of a term, and no account is verified for an
  -- index without a term.
  pub Reach-IsBounded : (s : Allowlist ac.Roles) → Reach s → IsBounded s
  Reach-IsBounded _ (initialized admin setter) =
      unfold initialize in
      record {
        current_bounded = inl refl;
        valid_bounded = λ i m. ground arith;
        verified_bounded = λ a i m. ground arith;
      }
  Reach-IsBounded _ (called sender c s' r e) = exec-IsBounded sender c _ s' (Reach-IsBounded _ r) e
  Reach-IsBounded _ (roles_moved r k) =
      let v = Reach-IsBounded _ k in
      record {
        current_bounded = v.current_bounded;
        valid_bounded = v.valid_bounded;
        verified_bounded = v.verified_bounded;
      }
