-- ===== src/Access.antt =====
-- What the contracts use of OpenZeppelin's AccessControlEnumerable, a library that the repository
-- only vendors: an interface with the laws that its documentation states.
use usdx_v.Base.{ℕ, ◌≡◌, not, Bool, true, false, ◌&&◌, List, [], ◌∷◌, ◌++◌, ◌==◌, if◌then◌else◌}
use usdx_v.Evm.{Result, ok, ◌>>◌, require, missing_role, not_self}

-- The first elements of a list that ends in one more, and that last one.
abbrev pub last_first : ℕ → List ℕ → List ℕ
last_first x [] = x ∷ []
last_first x (y ∷ ys) = elim (last_first y ys) [ [] ↦ x ∷ [] | l ∷ ls ↦ l ∷ x ∷ ls ]

-- Removal from an EnumerableSet: the last element takes the place of the one removed.
abbrev pub swap_remove : ℕ → List ℕ → List ℕ
swap_remove a [] = []
swap_remove a (x ∷ []) = if a == x then [] else x ∷ []
swap_remove a (x ∷ y ∷ ys) = if a == x then last_first y ys else x ∷ swap_remove a (y ∷ ys)

-- `members` is what `getRoleMemberCount` and `getRoleMember` enumerate, in the order of granting.
pub record AccessControl : Type 1 where
  pub Roles : Type 0
  pub no_roles : Roles
  pub has_role : Roles → ℕ → ℕ → Bool
  pub members : Roles → ℕ → List ℕ
  pub role_admin : Roles → ℕ → ℕ
  pub grant : ℕ → ℕ → Roles → Roles
  pub revoke : ℕ → ℕ → Roles → Roles
  pub set_role_admin : ℕ → ℕ → Roles → Roles
  pub has_role-no_roles : (r a : ℕ) → has_role no_roles r a ≡ false
  pub has_role-grant :
      (r a : ℕ) (s : Roles) (r' a' : ℕ)
      → has_role (grant r a s) r' a' ≡ (if r' == r && a' == a then true else has_role s r' a')
  pub has_role-revoke :
      (r a : ℕ) (s : Roles) (r' a' : ℕ)
      → has_role (revoke r a s) r' a' ≡ (if r' == r && a' == a then false else has_role s r' a')
  pub has_role-set_role_admin :
      (r b : ℕ) (s : Roles) (r' a' : ℕ) → has_role (set_role_admin r b s) r' a' ≡ has_role s r' a'
  pub role_admin-no_roles : (r : ℕ) → role_admin no_roles r ≡ 0
  pub role_admin-grant :
      (r a : ℕ) (s : Roles) (r' : ℕ) → role_admin (grant r a s) r' ≡ role_admin s r'
  pub role_admin-revoke :
      (r a : ℕ) (s : Roles) (r' : ℕ) → role_admin (revoke r a s) r' ≡ role_admin s r'
  pub role_admin-set_role_admin :
      (r b : ℕ) (s : Roles) (r' : ℕ)
      → role_admin (set_role_admin r b s) r' ≡ (if r' == r then b else role_admin s r')
  pub members-no_roles : (r : ℕ) → members no_roles r ≡ []
  pub members-grant :
      (r a : ℕ) (s : Roles) (r' : ℕ)
      → members (grant r a s) r'
        ≡ (if r' == r && not (has_role s r a) then members s r' ++ a ∷ [] else members s r')
  pub members-revoke :
      (r a : ℕ) (s : Roles) (r' : ℕ)
      → members (revoke r a s) r' ≡ (if r' == r then swap_remove a (members s r') else members s r')
  pub members-set_role_admin :
      (r b : ℕ) (s : Roles) (r' : ℕ) → members (set_role_admin r b s) r' ≡ members s r'

module _ ⦃ac : AccessControl⦄ where
  -- The modifier `onlyRole(role)`.
  abbrev pub only_role : ac.Roles → ℕ → ℕ → Result (Unit {0})
  only_role s role sender = require (ac.has_role s role sender) missing_role

  -- The inherited function `grantRole`, for the admin of the role.
  abbrev pub grant_role : ℕ → ℕ → ℕ → ac.Roles → Result ac.Roles
  grant_role sender role account s =
      only_role s (ac.role_admin s role) sender >> ok (ac.grant role account s)

  -- The inherited function `revokeRole`, for the admin of the role.
  abbrev pub revoke_role : ℕ → ℕ → ℕ → ac.Roles → Result ac.Roles
  revoke_role sender role account s =
      only_role s (ac.role_admin s role) sender >> ok (ac.revoke role account s)

  -- The inherited function `renounceRole`, for the account itself.
  abbrev pub renounce_role : ℕ → ℕ → ℕ → ac.Roles → Result ac.Roles
  renounce_role sender role account s =
      require (account == sender) not_self >> ok (ac.revoke role account s)
