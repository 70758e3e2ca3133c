-- ===== src/Scripts/Deploy/Local.antt =====
-- deploy/usdx/local: the deployments on a local network, with the signers as the parties. A message
-- leaves out the address that the source puts into it. Where the source spreads the text of an address
-- into what it saves, and not an artifact, the artifact is the empty text.
use usdx_v.Base.{[], ◌∷◌}
use usdx_v.Roles.{
  minter_role, price_id_setter_role, timestamp_setter_role, pauser_admin, relayer_role,
}
use usdx_v.Scripts.Script.{
  Script, ◌>>=◌, ◌>>◌, perform, log, get_contract, get_signer, call_view, nil, cons, address,
  number, bytes32, text, tuple, deploy, send, save,
}
use usdx_v.Scripts.Constants.{usdc_mainnet, sanction_address}

-- deploy_allowlist.ts
unfoldable pub local_allowlist : Script (Unit {0})
local_allowlist = do
  guardian ← get_signer 1
  perform (deploy "AllowlistFactory" "AllowlistFactory" (address guardian ∷ []))
  factory ← get_contract "AllowlistFactory"
  perform (send guardian factory "deployAllowlist" (address guardian ∷ address guardian ∷ []))
  proxy ← call_view factory "allowlistProxy" []
  proxy_admin ← call_view factory "allowlistProxyAdmin" []
  implementation ← call_view factory "allowlistImplementation" []
  log "The Allowlist proxy is deployed"
  log "The Allowlist proxy admin is deployed"
  log "The Allowlist Implementation is deployed"
  perform (save "Allowlist" proxy "AllowlistUpgradeable")
  perform (save "ProxyAdminAllowlist" proxy_admin "ProxyAdmin")
  perform (save "AllowlistImplementation" implementation "")

-- deploy_blocklist.ts
unfoldable pub local_blocklist : Script (Unit {0})
local_blocklist = do
  deployer ← get_signer 0
  guardian ← get_signer 1
  perform (deploy "Blocklist" "Blocklist" [])
  blocklist ← get_contract "Blocklist"
  perform (send deployer blocklist "transferOwnership" (address guardian ∷ []))
  perform (send guardian blocklist "acceptOwnership" [])

-- deploy_pricer.ts: the price is 10, and its timestamp 1.
unfoldable pub local_pricer : Script (Unit {0})
local_pricer = do
  guardian ← get_signer 1
  manager_admin ← get_signer 2
  perform (deploy "USDX_Pricer" "Pricer" (address guardian ∷ address manager_admin ∷ []))
  pricer ← get_contract "USDX_Pricer"
  perform (send manager_admin pricer "addPrice" (number 10000000000000000000 ∷ number 1 ∷ []))

-- deploy_usdx_factory.ts
unfoldable pub local_usdx_factory : Script (Unit {0})
local_usdx_factory = do
  guardian ← get_signer 1
  perform (deploy "USDXFactory" "USDXFactory" (address guardian ∷ []))
  factory ← get_contract "USDXFactory"
  blocklist ← get_contract "Blocklist"
  allowlist ← get_contract "Allowlist"
  let list_data =
      tuple
        (cons (address blocklist) (cons (address allowlist) (cons (address sanction_address) nil)))
  perform (send guardian factory "deployUSDX" (text "USDX" ∷ text "USDX" ∷ list_data ∷ []))
  proxy ← call_view factory "USDXProxy" []
  proxy_admin ← call_view factory "USDXProxyAdmin" []
  implementation ← call_view factory "USDXImplementation" []
  log "The USDX proxy is deployed"
  log "The USDX proxy admin is deployed"
  log "The USDX Implementation is deployed"
  perform (save "USDX" proxy "USDX")
  perform (save "ProxyAdminUSDX" proxy_admin "")
  perform (save "USDXImplementation" implementation "")

-- deploy_usdxManager.ts
unfoldable pub local_usdx_manager : Script (Unit {0})
local_usdx_manager = do
  guardian ← get_signer 1
  manager_admin ← get_signer 2
  pauser ← get_signer 3
  asset_sender ← get_signer 4
  fee_recipient ← get_signer 5
  relayer ← get_signer 7
  usdx ← get_contract "USDX"
  blocklist ← get_contract "Blocklist"
  perform (
      deploy "USDXManager" "USDXManager" (
        address usdc_mainnet
        ∷ address usdx
        ∷ address manager_admin
        ∷ address pauser
        ∷ address asset_sender
        ∷ address fee_recipient
        ∷ number 1000000000
        ∷ number 10000000000000000000
        ∷ address blocklist
        ∷ address sanction_address
        ∷ []))
  manager ← get_contract "USDXManager"
  pricer ← get_contract "USDX_Pricer"
  perform (send guardian usdx "grantRole" (bytes32 minter_role ∷ address manager ∷ []))
  perform (
      send manager_admin manager "grantRole"
        (bytes32 price_id_setter_role ∷ address manager_admin ∷ []))
  perform (
      send manager_admin manager "grantRole"
        (bytes32 timestamp_setter_role ∷ address manager_admin ∷ []))
  perform
      (send manager_admin manager "grantRole" (bytes32 pauser_admin ∷ address manager_admin ∷ []))
  perform (send manager_admin manager "grantRole" (bytes32 relayer_role ∷ address relayer ∷ []))
  perform (send manager_admin manager "setPricer" (address pricer ∷ []))
