-- ===== src/Scripts/Usdx/Save.antt =====
-- scripts/usdx/2-save-allowlist-prod.ts and 4-save-usdx-prod.ts: the contracts that the factories
-- deployed are saved and shown to Defender.
use Prim.Native.String.{String}
use usdx_v.Base.{[]}
use usdx_v.Scripts.Script.{
  Script, ◌>>=◌, ◌>>◌, throw, perform, log, get_contract, call_view, get_current_network,
  get_deployed_contract_abi, Value, address, save,
}
use usdx_v.Scripts.Defender.{add_contract}

-- `addContract` at an address that the chain gave.
abbrev pub add_value : (network : String) (contract : Value) (name abi : String) → Script (Unit {0})
add_value network (address a) name abi = add_contract network a name abi
add_value network v name abi = throw "no address"

-- The task "2-save-USDX-prod".
unfoldable pub save_allowlist_prod : Script (Unit {0})
unfolding add_contract
save_allowlist_prod = do
  factory ← get_contract "AllowlistFactory"
  proxy ← call_view factory "allowlistProxy" []
  proxy_admin ← call_view factory "allowlistProxyAdmin" []
  perform (save "Allowlist" proxy "AllowlistUpgradeable")
  perform (save "ProxyAdminAllowlist" proxy_admin "ProxyAdmin")
  abi_allow ← get_deployed_contract_abi "Allowlist"
  abi_proxy_admin ← get_deployed_contract_abi "ProxyAdminAllowlist"
  network ← get_current_network
  add_value network proxy "Allowlist Proxy" abi_allow
  log "✔ Added Allowlist Proxy to defender"
  add_value network proxy_admin "Allowlist Proxy Admin" abi_proxy_admin
  log "✔ Added Allowlist Proxy Admin to defender"

-- The task "4-save-USDX-prod".
unfoldable pub save_usdx_prod : Script (Unit {0})
unfolding add_contract
save_usdx_prod = do
  factory ← get_contract "USDXFactory"
  proxy ← call_view factory "USDXProxy" []
  proxy_admin ← call_view factory "USDXProxyAdmin" []
  perform (save "USDX" proxy "USDX")
  perform (save "ProxyAdminUSDX" proxy_admin "ProxyAdmin")
  abi_usdx ← get_deployed_contract_abi "USDX"
  abi_proxy_admin ← get_deployed_contract_abi "ProxyAdminUSDX"
  network ← get_current_network
  add_value network proxy "USDX Proxy" abi_usdx
  log "✔ Added USDX Proxy to Defender"
  add_value network proxy_admin "USDX Proxy Admin" abi_proxy_admin
  log "✔ Added USDX Proxy Admin to Defender"
