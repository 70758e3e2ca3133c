-- ===== src/Compliance/Token.antt =====
-- contracts/usdx/USDX.sol: the hook before each transfer, the setters of the three lists and the
-- burn by a role, with the clients AllowlistClientUpgradeable, BlocklistClientUpgradeable and
-- SanctionsListClientUpgradeable.
use usdx_v.Base.{
  ℕ, ◌≡◌, ◌≢◌, ◌↔◌, refl, sym, arith, Bool, true, false, not, ◌&&◌, List, ◌∷◌, ◌==◌, if◌then◌else◌,
}
use usdx_v.Evm.{
  Result, ok, ◌>>=◌, ◌>>◌, require, revert_if, external, allowlist_zero_address,
  blocklist_zero_address, sanctions_list_zero_address,
}
use usdx_v.Access.{AccessControl, only_role}
use usdx_v.Roles.{list_configurer_role, burner_role}

-- What the token calls: the lists, and ERC20PresetMinterPauserUpgradeable, whose hook reverts while it
-- is paused and whose `_burn` takes the tokens after the hook.
pub record Rules : Type 1 where
  pub World : Type 0
  pub is_blocked : World → (list account : ℕ) → Result Bool
  pub is_sanctioned : World → (list account : ℕ) → Result Bool
  pub is_allowed : World → (list account : ℕ) → Result Bool
  pub base_hook : World → (from to amount : ℕ) → Result (Unit {0})
  pub burn_balance : (from amount : ℕ) → World → Result World

pub data Event : Type 0 where
  blocklist_set allowlist_set sanctions_list_set : (old new : ℕ) → Event

pub record Token (R W : Type 0) : Type 0 where
  pub world : W
  pub log : List Event
  pub roles : R
  pub blocklist : ℕ
  pub allowlist : ℕ
  pub sanctions_list : ℕ

-- A check under a condition passes if the check does where the condition holds.
if_passes :
    (c : Bool) (m : Result (Unit {0})) → (c ≡ true → m ≡ ok tt) → (if c then m else ok tt) ≡ ok tt
if_passes true m h = h refl
if_passes false m h = refl

module _ {R : Type 0} ⦃p : Rules⦄ where
  -- The three requirements of the hook on one address; a failed one carries no custom error.
  unfoldable pub check_address : Token R p.World → ℕ → Result (Unit {0})
  check_address t a = do
    blocked ← p.is_blocked t.world t.blocklist a
    require (not blocked) external
    sanctioned ← p.is_sanctioned t.world t.sanctions_list a
    require (not sanctioned) external
    allowed ← p.is_allowed t.world t.allowlist a
    require allowed external

  -- `_beforeTokenTransfer`
  unfoldable pub before_token_transfer :
      (sender from to amount : ℕ) → Token R p.World → Result (Unit {0})
  unfolding check_address
  before_token_transfer sender from to amount t = do
    p.base_hook t.world from to amount
    if not (from == sender) && not (to == sender) then check_address t sender else ok tt
    if not (from == 0) then check_address t from else ok tt
    if not (to == 0) then check_address t to else ok tt

  -- The lists answer, and let the address through.
  pub record IsClear (t : Token R p.World) (a : ℕ) : Type 0 where
    pub not_blocked : p.is_blocked t.world t.blocklist a ≡ ok false
    pub not_sanctioned : p.is_sanctioned t.world t.sanctions_list a ≡ ok false
    pub allowed : p.is_allowed t.world t.allowlist a ≡ ok true

  check_address_iff : (t : Token R p.World) (a : ℕ) → (check_address t a ≡ ok tt) ↔ IsClear t a
  unfolding check_address
  check_address_iff t a = (
    λ e. record {
      not_blocked = ground arith;
      not_sanctioned = ground arith;
      allowed = ground arith;
    },
    λ c. ground (arith, c.not_blocked, c.not_sanctioned, c.allowed),
  )

  -- The hook lets a transfer pass exactly if that of the base contract does, and the sender, where it is
  -- neither of the two parties, the payer, where tokens are not minted, and the receiver, where they
  -- are not burned, are each neither blocked nor sanctioned and are on the allowlist.
  pub before_token_transfer_iff :
      (sender from to amount : ℕ) (t : Token R p.World)
      → (before_token_transfer sender from to amount t ≡ ok tt) ↔ (
          (p.base_hook t.world from to amount ≡ ok tt)
          × (from ≢ sender → to ≢ sender → IsClear t sender)
          × (from ≢ 0 → IsClear t from)
          × (to ≢ 0 → IsClear t to))
  unfolding before_token_transfer
  before_token_transfer_iff sender from to amount t =
      let s = check_address_iff t sender in
      let f = check_address_iff t from in
      let r = check_address_iff t to in
      (
        λ e. (
          ground arith,
          λ a b. s.0 (ground arith),
          λ a. f.0 (ground arith),
          λ a. r.0 (ground arith),
        ),
        λ (b, cs, cf, cr).
            (let e₁ =
                if_passes (not (from == sender) && not (to == sender)) (check_address t sender)
                  (λ h. s.1 (cs (ground arith) (ground arith))) in
              let e₂ =
                if_passes (not (from == 0)) (check_address t from) (λ h. f.1 (cf (ground arith))) in
              let e₃ =
                if_passes (not (to == 0)) (check_address t to) (λ h. r.1 (cr (ground arith))) in
              rw (b, e₁, e₂) e₃),
      )

module _ ⦃ac : AccessControl⦄ ⦃p : Rules⦄ where
  -- `setBlocklist`
  unfoldable pub set_blocklist :
      (sender list : ℕ) → Token ac.Roles p.World → Result (Token ac.Roles p.World)
  set_blocklist sender list t = do
    only_role t.roles list_configurer_role sender
    revert_if (list == 0) blocklist_zero_address
    ok (record t { log = blocklist_set t.blocklist list ∷ t.log; blocklist = list })

  -- `setAllowlist`
  unfoldable pub set_allowlist :
      (sender list : ℕ) → Token ac.Roles p.World → Result (Token ac.Roles p.World)
  set_allowlist sender list t = do
    only_role t.roles list_configurer_role sender
    revert_if (list == 0) allowlist_zero_address
    ok (record t { log = allowlist_set t.allowlist list ∷ t.log; allowlist = list })

  -- `setSanctionsList`
  unfoldable pub set_sanctions_list :
      (sender list : ℕ) → Token ac.Roles p.World → Result (Token ac.Roles p.World)
  set_sanctions_list sender list t = do
    only_role t.roles list_configurer_role sender
    revert_if (list == 0) sanctions_list_zero_address
    ok (record t { log = sanctions_list_set t.sanctions_list list ∷ t.log; sanctions_list = list })

  -- `burn`
  unfoldable pub burn :
      (sender from amount : ℕ) → Token ac.Roles p.World → Result (Token ac.Roles p.World)
  burn sender from amount t = do
    only_role t.roles burner_role sender
    before_token_transfer sender from 0 amount t
    w ← p.burn_balance from amount t.world
    ok (record t { world = w })

  -- A burn by the role that returns found the holder neither blocked nor sanctioned and on the
  -- allowlist, and the sender too where it is another one. So the tokens of a blocked account cannot
  -- be burned. Neither of the two is the zero address.
  pub burn-IsClear :
      (sender from amount : ℕ) (t t' : Token ac.Roles p.World)
      → burn sender from amount t ≡ ok t'
      → from ≢ 0
      → sender ≢ 0
      → (ac.has_role t.roles burner_role sender ≡ true)
        × IsClear t from
        × (from ≢ sender → IsClear t sender)
  unfolding burn
  burn-IsClear sender from amount t t' e nf ns =
      let passed : before_token_transfer sender from 0 amount t ≡ ok tt = ground arith in
      let (b, cs, cf, ct) = (before_token_transfer_iff sender from 0 amount t).0 passed in
      (ground arith, cf nf, λ d. cs d (λ k. ns (sym k)))
