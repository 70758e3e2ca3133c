-- ===== src/Tests/System.antt =====
-- The contracts together at concrete inputs.
use usdx_v.Base.{
  ℕ, ◌+◌, ◌-◌, ◌≡◌, ◌<◌, refl, arith, true, false, not, ◌&&◌, ◌||◌, [], ◌∷◌, ltb, ◌==◌,
  if◌then◌else◌,
}
use usdx_v.Base.Int.{pos}
use usdx_v.Evm.{Result, ok, revert, external, uint_mod}
use usdx_v.Evm.Words.{int_max}
use usdx_v.Roles.{minter_role, setter_role}
use usdx_v.Compliance.Allowlist
use usdx_v.Compliance.Allowlist.{initialize}
use usdx_v.Compliance.Blocklist
use usdx_v.Compliance.Token.{before_token_transfer, check_address}
use usdx_v.Hub.State.{no_redeemer}
use usdx_v.Hub.Amounts.{mint_amount_for_price, scale_up}
use usdx_v.Hub.Subscribe.{claim_one, hub_claim_mint}
use usdx_v.Oracle.RateCheck
use usdx_v.Oracle.RateCheck.{Oracle, price_change_bps, mul_div_up}
use usdx_v.Pricer.State.{deploy_pricer, push_price, get_price}
use usdx_v.Pricer.WithOracle.{Linked, deploy_linked, add_linked_price, update_oracle_price}
use usdx_v.System.Parts
use usdx_v.System.Parts.{Outside, mint}
use usdx_v.System.Screening.{Deal, Manager, run, party, moves_usdx, run-IsScreened}
use usdx_v.System.RateChecked.{Block, rate_check}
use usdx_v.System.Paced.{deployed, added, time_passes, oracle_roles_move, IsPaced, History-IsPaced}
use usdx_v.Tests.Chain.{table_access}
use usdx_v.Tests.Compliance.{signatures}

-- The balances by token and account, and the allowances by token, owner and spender. USDX is token 2.
pub record Book : Type 0 where
  pub balances : ℕ → ℕ → ℕ
  pub allowances : ℕ → ℕ → ℕ → ℕ

abbrev credit : (token account amount : ℕ) → Book → Book
credit token account amount b = record b {
  balances = λ t a. if t == token && a == account then b.balances t a + amount else b.balances t a;
}

abbrev debit : (token account amount : ℕ) → Book → Result Book
debit token account amount b =
    if ltb (b.balances token account) amount
    then revert external
    else ok (record b {
      balances =
          λ t a. if t == token && a == account then b.balances t a - amount else b.balances t a;
    })

abbrev spend : (token owner spender amount : ℕ) → Book → Result Book
spend token owner spender amount b =
    if ltb (b.allowances token owner spender) amount
    then revert external
    else ok (record b {
      allowances = λ t o s.
          if t == token && o == owner && s == spender
          then b.allowances t o s - amount
          else b.allowances t o s;
    })

abbrev move : (token caller from to amount : ℕ) → Book → Result Book
move token caller from to amount b = elim (spend token from caller amount b) [
  | revert x ↦ revert x
  | ok b₁ ↦ elim (debit token from amount b₁) [
    | revert x ↦ revert x
    | ok b₂ ↦ ok (credit token to amount b₂)
  ]
]

instance abbrev pub books : Outside
books = record {
  Rest = Book;
  is_sanctioned = λ b list account. ok false;
  base_hook = λ b from to amount. ok tt;
  mint_balance = λ to amount b. ok (credit 2 to amount b);
  burn_balance = λ from amount b. debit 2 from amount b;
  spend_allowance = λ owner spender amount b. spend 2 owner spender amount b;
  decimals = λ b token. ok (if token == 1 then 6 else 18);
  transfer_from = move;
}

abbrev Managed : Type 0
Managed = Manager ⦃sig = signatures⦄ ⦃o = books⦄

-- Account 7 is on the allowlist, and the account 50 of the manager is a contract.
abbrev contracts : Parts.World ⦃ac = table_access⦄ ⦃sig = signatures⦄ ⦃o = books⦄
unfolding initialize deploy_pricer
contracts = record {
  token_at = 2;
  token = record {
    world = record {
      rest = record { balances = λ t a. 0; allowances = λ t o s. 0 };
      blocklist_at = 20;
      blocklist = record { log = []; owner = 9; blocked_addresses = λ a. a == 3 };
      allowlist_at = 22;
      allowlist = record (initialize 9 8) {
        verifications = λ a i. a == 7;
        terms = "terms of use" ∷ [];
        valid_indexes = 0 ∷ [];
      };
    };
    log = [];
    roles = table_access.grant minter_role 50 table_access.no_roles;
    blocklist = 20;
    allowlist = 22;
    sanctions_list = 21;
  };
  pricer_at = 31;
  pricer = record (deploy_pricer 9 8) {
    prices = λ i. record { price = 1000000000000000000; timestamp = 1 };
  };
}

abbrev hub : Managed
unfolding contracts initialize deploy_pricer
hub = record {
  world = contracts;
  log = [];
  self = 50;
  roles = table_access.no_roles;
  rwa = 2;
  pricer = 31;
  asset_sender = 4;
  fee_recipient = 5;
  deposits = λ i. record { user = 7; amount_deposited_minus_fees = 1000000; price_id = 1 };
  redemptions = λ i. no_redeemer;
  minimum_deposit_amount = 10000;
  minimum_redemption_amount = 10000;
  mint_fee = 0;
  redemption_fee = 0;
  collateral = 1;
  decimals_multiplier = 1000000000000;
  subscription_request_counter = 2;
  redemption_request_counter = 1;
  redemption_paused = false;
  subscription_paused = false;
  off_chain_redemption_paused = false;
  minimum_off_chain_redemption_amount = 10000;
  blocklist = 20;
  sanctions_list = 21;
  claimable_timestamps = λ i. 60;
}

abbrev claimed : Managed
unfolding run claim_one hub_claim_mint mint_amount_for_price scale_up mint before_token_transfer
    check_address Blocklist.is_blocked Allowlist.is_allowed Allowlist.verified_for_any get_price
    uint_mod hub contracts initialize deploy_pricer
claimed = elim (run ⦃sig = signatures⦄ ⦃o = books⦄ (Deal.claim 100 1) hub) [
  | ok h ↦ h
  | revert x ↦ hub
]

hub_claims : run ⦃sig = signatures⦄ ⦃o = books⦄ (Deal.claim 100 1) hub ≡ ok claimed
unfolding run claim_one hub_claim_mint mint_amount_for_price scale_up mint before_token_transfer
    check_address Blocklist.is_blocked Allowlist.is_allowed Allowlist.verified_for_any get_price
    uint_mod claimed hub contracts initialize deploy_pricer
hub_claims = refl

run-IsScreened_example :
    (Blocklist.is_blocked contracts.token.world.blocklist 7 ≡ false)
    × ((not true || Allowlist.is_allowed ⦃sig = signatures⦄ 7 contracts.token.world.allowlist)
        ≡ true)
unfolding party moves_usdx hub
run-IsScreened_example =
    run-IsScreened ⦃sig = signatures⦄ ⦃o = books⦄ (Deal.claim 100 1) hub claimed hub_claims
      (ground arith)

-- The oracle shows 1000 since the time 50. The pricer at 60 is deployed over it and then granted the
-- role that sets it.
abbrev block : Block table_access.Roles
block = record {
  oracle = record {
    log = [];
    roles = table_access.no_roles;
    rwa_price = pos 1000;
    price_timestamp = 50;
  };
  now = 100;
  caller = 60;
}

abbrev Paired : Type 0
Paired = Linked table_access.Roles (Block table_access.Roles)

abbrev blank : Paired
unfolding deploy_pricer
blank = record { pricer = deploy_pricer 9 8; world = block }

abbrev first : Paired
unfolding deploy_linked deploy_pricer push_price uint_mod blank RateCheck.get_price_data
first = elim (deploy_linked ⦃o = rate_check⦄ 9 8 block) [ ok l ↦ l | revert x ↦ blank ]

abbrev granted : Paired
unfolding first deploy_linked deploy_pricer push_price uint_mod blank RateCheck.get_price_data
granted = record first {
  world = record first.world {
    oracle = record first.world.oracle {
      roles = table_access.grant setter_role 60 first.world.oracle.roles;
    };
  };
}

abbrev day_later : Paired
unfolding granted first deploy_linked deploy_pricer push_price uint_mod blank
    RateCheck.get_price_data
day_later = record granted { world = record granted.world { now = 90000 } }

abbrev second : Paired
unfolding add_linked_price update_oracle_price int_max RateCheck.set_price price_change_bps
    mul_div_up day_later granted first deploy_linked deploy_pricer push_price uint_mod blank
    RateCheck.get_price_data
second = elim (add_linked_price ⦃o = rate_check⦄ 8 1010 60 day_later) [
  | ok l ↦ l
  | revert x ↦ blank
]

first_deploys : deploy_linked ⦃o = rate_check⦄ 9 8 block ≡ ok first
unfolding first deploy_linked deploy_pricer push_price uint_mod blank RateCheck.get_price_data
first_deploys = refl

second_adds : add_linked_price ⦃o = rate_check⦄ 8 1010 60 day_later ≡ ok second
unfolding second add_linked_price update_oracle_price int_max RateCheck.set_price price_change_bps
    mul_div_up day_later granted first deploy_linked deploy_pricer push_price uint_mod blank
    RateCheck.get_price_data
second_adds = refl

words : (1000 < int_max) × (1010 < int_max)
unfolding int_max
words = ground arith

History-IsPaced_example : (k : ℕ) × IsPaced k 1000 50 second
unfolding day_later granted
History-IsPaced_example = History-IsPaced block 1000 second refl (omega arith) words.0 (
    added 8 1010 60 second
      (time_passes 90000 (
        oracle_roles_move (table_access.grant setter_role 60 first.world.oracle.roles)
          (deployed 9 8 first first_deploys)))
      words.1 second_adds)
