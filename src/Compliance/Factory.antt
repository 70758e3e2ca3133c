-- ===== src/Compliance/Factory.antt =====
-- contracts/usdx/USDXFactory.sol and contracts/usdx/allowlist/AllowlistFactory.sol: the deployment of a
-- contract behind a proxy, and the batched calls; with `initialize` of contracts/usdx/USDX.sol.
use Prim.Native.String.{String}
use usdx_v.Base.{ℕ, List, [], ◌∷◌, ◌==◌}
use usdx_v.Evm.{
  Result, ok, ◌>>=◌, ◌>>◌, require, revert_if, external, missing_role, blocklist_zero_address,
  allowlist_zero_address, sanctions_list_zero_address,
}
use usdx_v.Access.{AccessControl, grant_role, revoke_role}
use usdx_v.Roles.{default_admin_role, minter_role, pauser_role}
use usdx_v.Compliance.Token.{Rules, Token, blocklist_set, allowlist_set, sanctions_list_set}
use usdx_v.Compliance.Allowlist
use usdx_v.Compliance.Allowlist.{Allowlist}

-- `struct USDXListData`
pub record ListData : Type 0 where
  pub blocklist : ℕ
  pub allowlist : ℕ
  pub sanctions_list : ℕ

-- The addresses at which a deployment creates its three contracts.
pub record Created : Type 0 where
  pub proxy : ℕ
  pub proxy_admin : ℕ
  pub implementation : ℕ

pub data Event : Type 0 where
  usdx_deployed : Created → (name ticker : String) → ListData → Event
  allowlist_deployed : Created → Event

-- The storage of either factory: the guardian, and the contracts deployed last, if any.
pub record Factory : Type 0 where
  pub log : List Event
  pub guardian : ℕ
  pub latest : Created

-- The constructor of either factory.
unfoldable pub deploy_factory : (guardian : ℕ) → Factory
deploy_factory guardian = record {
  log = [];
  guardian = guardian;
  latest = record { proxy = 0; proxy_admin = 0; implementation = 0 };
}

-- `onlyGuardian`
unfoldable pub only_guardian : Factory → (sender : ℕ) → Result (Unit {0})
only_guardian f sender = require (sender == f.guardian) missing_role

-- `transferOwnership` of the proxy admin and the assertion after it: the new owner.
unfoldable pub hand_over : (sender owner new_owner : ℕ) → Result ℕ
hand_over sender owner new_owner = do
  require (owner == sender) missing_role
  revert_if (new_owner == 0) external
  ok new_owner

-- A call of a batch, `ExCallData`.
pub record ExCall : Type 0 where
  pub target : ℕ
  pub payload : List ℕ
  pub value : ℕ

-- The loop of `multiexcall`, over a low-level call that the factory makes.
unfoldable pub call_each :
    {W : Type 0}
    → (call : ExCall → W → Result (List ℕ × W)) → List ExCall
    → W
    → Result (List (List ℕ) × W)
call_each call [] w = ok ([], w)
call_each call (c ∷ rest) w = do r ← call c w; s ← call_each call rest r.1; ok (r.0 ∷ s.0, s.1)

-- `multiexcall`
unfoldable pub multiexcall :
    {W : Type 0}
    → (sender : ℕ) → (call : ExCall → W → Result (List ℕ × W)) → List ExCall
    → Factory
    → W
    → Result (List (List ℕ) × W)
unfolding only_guardian call_each
multiexcall sender call calls f w = only_guardian f sender >> call_each call calls w

-- What a deployment makes: the contract behind the proxy, and the owner of the proxy admin.
pub record Deployment (C : Type 0) : Type 0 where
  pub contract : C
  pub proxy_admin_owner : ℕ

module _ ⦃ac : AccessControl⦄ where
  -- The grants and the revocations of `deployUSDX`, which the factory makes at the address `self`.
  unfoldable pub hand_roles : (self guardian : ℕ) → ac.Roles → Result ac.Roles
  hand_roles self guardian r = do
    r₁ ← grant_role self default_admin_role guardian r
    r₂ ← grant_role self pauser_role guardian r₁
    r₃ ← revoke_role self minter_role self r₂
    r₄ ← revoke_role self pauser_role self r₃
    revoke_role self default_admin_role self r₄

module _ ⦃ac : AccessControl⦄ ⦃p : Rules⦄ where
  -- `initialize` of USDX, on a fresh proxy. `preset` is what `__ERC20PresetMinterPauser_init` leaves of
  -- roles for a name, a symbol and a deployer.
  unfoldable pub initialize_usdx :
      (preset : String → String → ℕ → ac.Roles) (sender : ℕ) (name symbol : String)
      → ListData
      → p.World
      → Result (Token ac.Roles p.World)
  initialize_usdx preset sender name symbol lists w = do
    revert_if (lists.blocklist == 0) blocklist_zero_address
    revert_if (lists.allowlist == 0) allowlist_zero_address
    revert_if (lists.sanctions_list == 0) sanctions_list_zero_address
    ok (record {
      world = w;
      log =
          sanctions_list_set 0 lists.sanctions_list
          ∷ allowlist_set 0 lists.allowlist
          ∷ blocklist_set 0 lists.blocklist
          ∷ [];
      roles = preset name symbol sender;
      blocklist = lists.blocklist;
      allowlist = lists.allowlist;
      sanctions_list = lists.sanctions_list;
    })

  -- `deployUSDX`, of the factory at the address `self`
  unfoldable pub deploy_usdx :
      (preset : String → String → ℕ → ac.Roles) (self sender : ℕ) (name ticker : String)
      → ListData
      → Created
      → Factory
      → p.World
      → Result (Factory × Deployment (Token ac.Roles p.World))
  unfolding only_guardian initialize_usdx hand_over
  deploy_usdx preset self sender name ticker lists c f w = do
    only_guardian f sender
    t ← initialize_usdx preset self name ticker lists w
    roles ← hand_roles self f.guardian t.roles
    owner ← hand_over self self f.guardian
    require (owner == f.guardian) external
    ok (
      record f { log = usdx_deployed c name ticker lists ∷ f.log; latest = c },
      record { contract = record t { roles = roles }; proxy_admin_owner = owner },
    )

module _ ⦃ac : AccessControl⦄ where
  -- `deployAllowlist`, of the factory at the address `self`
  unfoldable pub deploy_allowlist :
      (self sender admin setter : ℕ)
      → Created
      → Factory
      → Result (Factory × Deployment (Allowlist ac.Roles))
  unfolding only_guardian hand_over
  deploy_allowlist self sender admin setter c f = do
    only_guardian f sender
    owner ← hand_over self self f.guardian
    require (owner == f.guardian) external
    ok (
      record f { log = allowlist_deployed c ∷ f.log; latest = c },
      record { contract = Allowlist.initialize admin setter; proxy_admin_owner = owner },
    )
