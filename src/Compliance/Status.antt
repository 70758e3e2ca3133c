-- ===== src/Compliance/Status.antt =====
-- Whom AllowlistUpgradeable allows, and who can change it.
use Prim.Native.String.{String}
use usdx_v.Base.{
  ℕ, ◌≡◌, ◌↔◌, ◌⊎◌, inl, inr, arith, Bool-cases, true, some, List, [], ◌∷◌, get_elem?, contains,
}
use usdx_v.Evm.{ok}
use usdx_v.Access.{AccessControl}
use usdx_v.Compliance.Allowlist.{Allowlist, Signatures, verified_for_any, is_allowed}

module _ {R : Type 0} where
  verified_for_any_iff :
      (account : ℕ) (is : List ℕ) (s : Allowlist R)
      → (verified_for_any account is s ≡ true)
        ↔ ((i : ℕ) × (contains i is ≡ true) × (s.verifications account i ≡ true))
  unfolding verified_for_any
  verified_for_any_iff account [] s = (λ e. cc, λ (i, c, v). cc)
  verified_for_any_iff account (j ∷ rest) s =
      let q = verified_for_any_iff account rest s in
      elim (Bool-cases (s.verifications account j)) [
        | inl here ↦ (λ e. (j, ground arith, here), λ k. ground arith)
        | inr not_here ↦ (
          λ e. (let (i, c, v) = q.0 (ground arith) in (i, ground arith, v)),
          λ (i, c, v). ground (arith, q.1 (i, ground arith, v)),
        )
      ]

  -- `isAllowed` lets an account through exactly if it is a contract or is verified for one of the
  -- valid terms.
  pub is_allowed_iff :
      ⦃sig : Signatures⦄ (account : ℕ) (s : Allowlist R)
      → (is_allowed account s ≡ true) ↔ (
          (sig.is_contract account ≡ true)
          ⊎ ((i : ℕ) × (contains i s.valid_indexes ≡ true) × (s.verifications account i ≡ true)))
  unfolding is_allowed
  is_allowed_iff ⦃sig⦄ account s =
      let q = verified_for_any_iff account s.valid_indexes s in
      elim (Bool-cases (sig.is_contract account)) [
        | inl code ↦ (λ e. inl code, λ k. ground arith)
        | inr not_here ↦ (
          λ e. inr (q.0 (ground arith)),
          λ k. elim k [ inl code ↦ absurd (ground arith) | inr w ↦ ground (arith, q.1 w) ],
        )
      ]

module _ ⦃ac : AccessControl⦄ ⦃sig : Signatures⦄ where
  -- A signature of a term of the contract that leads to the account.
  pub Signed : (account term_index : ℕ) → Allowlist ac.Roles → Type 0
  Signed account term_index s =
      (term : String) × (v : ℕ) × (r : ℕ) × (t : ℕ) × (get_elem? s.terms term_index ≡ some term)
      × (sig.recover term v r t ≡ ok account)
