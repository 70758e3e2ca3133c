-- ===== src/Hub/Provenance.antt =====
-- Where the deposits and the redemptions that are claimed come from, in a history of the calls since the deployment.
use usdx_v.Base.{ℕ, ◌≡◌, ◌≢◌, arith, true, List, contains}
use usdx_v.Evm.{ok}
use usdx_v.Access.{AccessControl}
use usdx_v.Hub.Peers.{Peers}
use usdx_v.Hub.State.{Hub}
use usdx_v.Hub.Subscribe.{claim_mint}
use usdx_v.Hub.Deploy.{Args, deploy_manager}
use usdx_v.Hub.Claiming.{claim_mint-IsBatchClaimed}
use usdx_v.Hub.Redeem.{claim_redemption}
use usdx_v.Hub.Redemptions.{claim_redemption-redemptions}
use usdx_v.Hub.RedemptionLife.{redemption_life, redemption_life-IsLived}
use usdx_v.Hub.History.{Entry, History, PricedSince, History-PricedSince}
use usdx_v.Hub.DepositLife.{deposit_life, deposit_life-IsLived}

module _ ⦃ac : AccessControl⦄ ⦃p : Peers⦄ where
  -- Each deposit of an accepted batch of claims has a past, in any history of accepted calls from the
  -- deployment by any senders, with any behaviour of the other contracts in between. Since the
  -- last claim of the deposit, the manager admin overwrote it, or the setter of price ids priced it after a
  -- request that took its number, a proof for it by a relayer or an overwriting by the manager admin.
  pub claim_mint-PricedSince :
      (self now id : ℕ) (a : Args) (w : p.World) (es : List Entry) (ids : List ℕ)
      (h₀ h h' : Hub ac.Roles p.World)
      → deploy_manager self a w ≡ ok h₀
      → History h₀ es h
      → claim_mint now ids h ≡ ok h'
      → contains id ids ≡ true
      → PricedSince (deposit_life id) es
  unfolding deploy_manager
  claim_mint-PricedSince self now id a w es ids h₀ h h' d r e m =
      let (open_, b) = claim_mint-IsBatchClaimed now ids h h' e in
      let (has_price, timed, due, gone, untimed) = b.claimed id m in
      History-PricedSince (deposit_life id) (deposit_life-IsLived id) (λ u. ground arith)
        (λ q. ground arith) r has_price

  -- Each redemption of an accepted batch of claims with an amount above zero has a past, in any history of accepted calls
  -- from the deployment by any senders, with any behaviour of the other contracts in between. Since the
  -- last claim of the redemption, the manager admin overwrote it, or the setter of price ids priced it after
  -- a request that took its number or an overwriting by the manager admin.
  pub claim_redemption-PricedSince :
      (self id : ℕ) (a : Args) (w : p.World) (es : List Entry) (ids : List ℕ)
      (h₀ h h' : Hub ac.Roles p.World)
      → deploy_manager self a w ≡ ok h₀
      → History h₀ es h
      → claim_redemption ids h ≡ ok h'
      → contains id ids ≡ true
      → (h.redemptions id).amount_rwa_token_burned ≢ 0
      → PricedSince (redemption_life id) es
  unfolding deploy_manager
  claim_redemption-PricedSince self id a w es ids h₀ h h' d r e m paid =
      let (has_price, gone) = (claim_redemption-redemptions id ids h h' e).0 m in
      History-PricedSince (redemption_life id) (redemption_life-IsLived id) (λ u. ground arith)
        (λ q. ground arith) r (paid, has_price)
