-- ===== src/Hub/Reach.antt =====
-- The states of USDXManager that calls lead to, from its deployment, with the other contracts moving
-- in any way between two calls.
use usdx_v.Base.{ℕ, ◌≡◌}
use usdx_v.Evm.{ok}
use usdx_v.Access.{AccessControl}
use usdx_v.Hub.Peers.{Peers}
use usdx_v.Hub.State.{Hub}
use usdx_v.Hub.Calls.{Call, exec}

module _ ⦃ac : AccessControl⦄ ⦃p : Peers⦄ where
  pub data Reach (h₀ : Hub ac.Roles p.World) : Hub ac.Roles p.World → Type 0 where
    here : Reach h₀ h₀
    call :
        {h : Hub ac.Roles p.World} (sender now : ℕ) (c : Call) (h' : Hub ac.Roles p.World)
        → Reach h₀ h
        → exec sender now c h ≡ ok h'
        → Reach h₀ h'
    others_move :
        {h : Hub ac.Roles p.World} (w : p.World) → Reach h₀ h → Reach h₀ (record h { world = w })
