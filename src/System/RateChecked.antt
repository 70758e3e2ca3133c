-- ===== src/System/RateChecked.antt =====
-- The model of RWAOracleRateCheck.sol behind the oracle interface of PricerWithOracle.sol.
use usdx_v.Base.{ℕ, ◌≡◌, arith}
use usdx_v.Base.Int.{ℤ, pos}
use usdx_v.Evm.{Result, ok, ◌>>=◌}
use usdx_v.Access.{AccessControl}
use usdx_v.Oracle.RateCheck
use usdx_v.Oracle.RateCheck.{Oracle}
use usdx_v.Pricer.WithOracle.{PriceOracle, Linked}
use usdx_v.Pricer.Synced.{OracleLaws}

-- The oracle, the time of the block and the address of the pricer, which calls the oracle.
pub record Block (R : Type 0) : Type 0 where
  pub oracle : Oracle R
  pub now : ℕ
  pub caller : ℕ

module _ ⦃ac : AccessControl⦄ where
  abbrev set_in : ℤ → Block ac.Roles → Result (Block ac.Roles)
  set_in price b = do
    s ← RateCheck.set_price b.caller b.now price b.oracle
    ok (record b { oracle = s })

  abbrev pub rate_check : PriceOracle
  rate_check = record {
    World = Block ac.Roles;
    get_price_data = λ b. ok (RateCheck.get_price_data b.oracle);
    set_price = set_in;
  }

  set_then_get :
      (n : ℕ) (w w' : Block ac.Roles)
      → set_in (pos n) w ≡ ok w'
      → (t : ℕ) × (rate_check.get_price_data w' ≡ ok (n, t))
  unfolding RateCheck.set_price RateCheck.get_price_data
  set_then_get n w w' e = (w.now, ground arith)

  -- RWAOracleRateCheck is an oracle as the pricer wants it.
  pub rate_check_laws : OracleLaws rate_check
  rate_check_laws = record { set_then_get = set_then_get }

  -- The price that the pricer lists last by timestamp.
  abbrev pub latest_price : Linked ac.Roles (Block ac.Roles) → ℕ
  latest_price l = (l.pricer.prices l.pricer.latest_price_id).price

  abbrev pub State : Type 0
  State = Linked ac.Roles (Block ac.Roles)
