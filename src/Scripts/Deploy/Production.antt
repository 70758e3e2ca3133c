-- ===== src/Scripts/Deploy/Production.antt =====
-- deploy/usdx/production: the contracts that are deployed without a factory. `loosely_equal` compares
-- the address of the token with the zero address.
use usdx_v.Base.{[], ◌∷◌, if◌then◌else◌}
use usdx_v.Scripts.Script.{
  Script, ◌>>=◌, ◌>>◌, throw, pure, perform, get_contract, call_view, address, number, deploy,
}
use usdx_v.Scripts.Constants.{
  prod_guardian_usdx, prod_guardian_ommf, usdc_mainnet, prod_manager_admin_usdx, prod_pauser_usdx,
  prod_asset_sender_usdx, prod_fee_recipient_usdx, sanction_address, zero_address,
}
use usdx_v.Scripts.Verify.Helpers.{loosely_equal}

-- 1_deploy_allowlistFactory.ts
unfoldable pub deploy_allowlist_factory : Script (Unit {0})
deploy_allowlist_factory =
    perform (deploy "AllowlistFactory" "AllowlistFactory" (address prod_guardian_usdx ∷ []))

-- 2_deploy_blocklist.ts
unfoldable pub deploy_blocklist : Script (Unit {0})
deploy_blocklist = perform (deploy "Blocklist" "Blocklist" [])

-- 3_deploy_usdxFactory.ts
unfoldable pub deploy_usdx_factory : Script (Unit {0})
deploy_usdx_factory = perform (deploy "USDXFactory" "USDXFactory" (prod_guardian_ommf ∷ []))

-- 4_deploy_usdxManager.ts
unfoldable pub deploy_usdx_manager : Script (Unit {0})
unfolding loosely_equal
deploy_usdx_manager = do
  factory_usdx ← get_contract "USDXFactory"
  factory_allow ← get_contract "AllowlistFactory"
  blocklist ← get_contract "Blocklist"
  usdx_address ← call_view factory_usdx "USDXProxy" []
  allowlist_address ← call_view factory_allow "allowlistProxy" []
  if loosely_equal usdx_address (address zero_address)
      then throw "USDX Token not deployed through factory!"
      else pure tt
  perform (
      deploy "USDXManager" "USDXManager" (
        address usdc_mainnet
        ∷ usdx_address
        ∷ address prod_manager_admin_usdx
        ∷ address prod_pauser_usdx
        ∷ address prod_asset_sender_usdx
        ∷ address prod_fee_recipient_usdx
        ∷ number 500000000
        ∷ number 500000000000000000000
        ∷ address blocklist
        ∷ address sanction_address
        ∷ []))

-- 5_deploy_usdx_pricer.ts
unfoldable pub deploy_usdx_pricer : Script (Unit {0})
deploy_usdx_pricer = perform (
    deploy "USDX_Pricer" "USDXPricer"
      (address prod_guardian_usdx ∷ address prod_guardian_usdx ∷ []))
