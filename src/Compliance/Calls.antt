-- ===== src/Compliance/Calls.antt =====
-- A call of a function of AllowlistUpgradeable that changes its storage, and the states that calls
-- lead to.
use Prim.Native.String.{String}
use usdx_v.Base.{ℕ, Bool, List, ◌≡◌}
use usdx_v.Evm.{Result, ok}
use usdx_v.Access.{AccessControl}
use usdx_v.Compliance.Allowlist
use usdx_v.Compliance.Allowlist.{Signatures, initialize}

-- A call of a function that changes the storage.
pub data Call : Type 0 where
  add_term : String → Call
  set_current_term_index add_self_to_allowlist : ℕ → Call
  set_valid_term_indexes : List ℕ → Call
  set_account_status : (account term_index : ℕ) (status : Bool) → Call
  add_account_to_allowlist : (term_index account v r s : ℕ) → Call

module _ ⦃ac : AccessControl⦄ ⦃sig : Signatures⦄ where
  unfoldable pub exec :
      (sender : ℕ) → Call → Allowlist.Allowlist ac.Roles → Result (Allowlist.Allowlist ac.Roles)
  exec sender (Call.add_term term) s = Allowlist.add_term sender term s
  exec sender (Call.set_current_term_index i) s = Allowlist.set_current_term_index sender i s
  exec sender (Call.add_self_to_allowlist i) s = Allowlist.add_self_to_allowlist sender i s
  exec sender (Call.set_valid_term_indexes is) s = Allowlist.set_valid_term_indexes sender is s
  exec sender (Call.set_account_status a i b) s = Allowlist.set_account_status sender a i b s
  exec sender (Call.add_account_to_allowlist i a v r t) s =
      Allowlist.add_account_to_allowlist i a v r t s

  pub data Reach : Allowlist.Allowlist ac.Roles → Type 0 where
    initialized : (admin setter : ℕ) → Reach (initialize admin setter)
    called :
        {s : Allowlist.Allowlist ac.Roles} (sender : ℕ) (c : Call)
        (s' : Allowlist.Allowlist ac.Roles)
        → Reach s
        → exec sender c s ≡ ok s'
        → Reach s'
    roles_moved :
        {s : Allowlist.Allowlist ac.Roles} (r : ac.Roles) → Reach s → Reach (record s { roles = r })
