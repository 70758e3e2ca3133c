-- ===== src/Scripts/Xmmf/Save.antt =====
-- scripts/xmmf/2-save-xmmf-prod.ts and 4-save-wxmmf-prod.ts: the contracts that the factories
-- deployed are saved and shown to Defender.
use usdx_v.Base.{[]}
use usdx_v.Scripts.Script.{
  Script, ◌>>=◌, ◌>>◌, perform, log, get_contract, call_view, get_current_network,
  get_deployed_contract_abi, save,
}
use usdx_v.Scripts.Defender.{add_contract}
use usdx_v.Scripts.Usdx.Save.{add_value}

-- The task "2-save-cash-prod".
unfoldable pub save_xmmf_prod : Script (Unit {0})
unfolding add_contract
save_xmmf_prod = do
  factory ← get_contract "XMMFFactory"
  proxy ← call_view factory "XMMFProxy" []
  proxy_admin ← call_view factory "XMMFProxyAdmin" []
  perform (save "XMMF" proxy "XMMF")
  perform (save "ProxyAdminXMMF" proxy_admin "ProxyAdmin")
  abi_xmmf ← get_deployed_contract_abi "XMMF"
  abi_proxy_admin ← get_deployed_contract_abi "ProxyAdminXMMF"
  network ← get_current_network
  add_value network proxy "XMMF Proxy" abi_xmmf
  log "✔ Added XMMF Proxy to defender"
  add_value network proxy_admin "XMMF Proxy Admin" abi_proxy_admin
  log "✔ Added XMMF Proxy Admin to defender"

-- The task "4-save-wXMMF-prod".
unfoldable pub save_wxmmf_prod : Script (Unit {0})
unfolding add_contract
save_wxmmf_prod = do
  factory ← get_contract "WXMMFFactory"
  proxy ← call_view factory "wXMMFProxy" []
  proxy_admin ← call_view factory "wXMMFProxyAdmin" []
  perform (save "WXMMF" proxy "WXMMF")
  perform (save "ProxyAdminWXMMF" proxy_admin "ProxyAdmin")
  abi_wxmmf ← get_deployed_contract_abi "WXMMF"
  abi_proxy_admin ← get_deployed_contract_abi "ProxyAdminWXMMF"
  network ← get_current_network
  add_value network proxy "WXMMF Proxy" abi_wxmmf
  log "✔ Added WXMMF Proxy to defender"
  add_value network proxy_admin "WXMMF Proxy Admin" abi_proxy_admin
  log "✔ Added XMMF Proxy Admin to defender"
