-- ===== src/Hub/Amounts.antt =====
-- The math utils of contracts/RWAHub.sol: fees, and the exchange between collateral and RWA tokens.
use usdx_v.Base.{ℕ, ◌/◌}
use usdx_v.Evm.{Result, mul, div, ◌>>=◌}
use usdx_v.Hub.State.{Hub, bps_denominator}

-- `1e18`
abbrev pub e18 : ℕ
e18 = 1000000000000000000

-- `_getMintFees` and `_getRedemptionFees` at the fee in basis points.
unfoldable pub fee_of : ℕ → ℕ → Result ℕ
fee_of fee amount = do product ← mul amount fee; div product bps_denominator

-- `_scaleUp`
unfoldable pub scale_up : (multiplier amount : ℕ) → Result ℕ
scale_up multiplier amount = mul amount multiplier

-- `_scaleDown`
unfoldable pub scale_down : (multiplier amount : ℕ) → Result ℕ
scale_down multiplier amount = div amount multiplier

-- `_getMintAmountForPrice`
unfoldable pub mint_amount_for_price : (multiplier deposit_amt price : ℕ) → Result ℕ
unfolding scale_up
mint_amount_for_price multiplier deposit_amt price = do
  scaled ← scale_up multiplier deposit_amt
  amount_e36 ← mul scaled e18
  div amount_e36 price

-- `_getRedemptionAmountForRwa`
unfoldable pub redemption_amount_for_rwa : (multiplier burned price : ℕ) → Result ℕ
unfolding scale_down
redemption_amount_for_rwa multiplier burned price = do
  amount_e36 ← mul burned price
  scale_down multiplier (amount_e36 / e18)

module _ {R W : Type 0} where
  -- `_getMintFees`
  unfoldable pub mint_fees : Hub R W → ℕ → Result ℕ
  unfolding fee_of
  mint_fees h amount = fee_of h.mint_fee amount

  -- `_getRedemptionFees`
  unfoldable pub redemption_fees : Hub R W → ℕ → Result ℕ
  unfolding fee_of
  redemption_fees h amount = fee_of h.redemption_fee amount
