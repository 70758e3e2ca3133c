-- ===== src/Scripts/Verify/Tasks.antt =====
-- The verification tasks: check-USDX, check-allowlist, check-blocklist, check-USDX-manager,
-- check-USDX-pricer and check-USDX-rwaOracle-rateCheck.
use Prim.Native.String.{String}
use usdx_v.Base.{ℕ, List, [], ◌∷◌}
use usdx_v.Scripts.Script.{
  Script, ◌>>=◌, ◌>>◌, log, call_view, get_contract_at, get_current_network, Value, address,
}
use usdx_v.Scripts.Constants.{admin_slot, rollback_slot, beacon_slot, implementation_slot}
use usdx_v.Scripts.Verify.Config.{
  ProxyConfig, RoleConfig, usdx_proxy, usdx_roles, usdx_storage, allowlist_proxy, allowlist_roles,
  allowlist_storage, blocklist_address, blocklist_storage, usdx_manager_address, manager_roles,
  manager_storage, usdx_pricer_address, pricer_roles, pricer_storage,
  usdx_rwa_oracle_rate_check_address, rate_check_roles, rate_check_data,
}
use usdx_v.Scripts.Verify.Helpers.{
  loosely_equal, assert, assert_storage, assert_roles, address_from_storage_slot,
}

-- `assert((await addressFromStorageSlot(proxy, slot)) == expected, message)`
unfoldable pub assert_slot : (proxy slot expected : ℕ) (message : String) → Script (Unit {0})
assert_slot proxy slot expected message = do
  actual ← address_from_storage_slot proxy slot
  assert (loosely_equal actual (address expected)) message

-- `assert((await contract.getter(...args)) == expected, message)`
unfoldable pub assert_call :
    (contract : ℕ) (getter : String) (args : List Value) (expected : ℕ) (message : String)
    → Script (Unit {0})
assert_call contract getter args expected message = do
  actual ← call_view contract getter args
  assert (loosely_equal actual (address expected)) message

-- What check-USDX and check-allowlist assert of a proxy, of its admin contract and of the contract
-- behind it.
unfoldable pub check_proxy :
    ProxyConfig → List RoleConfig → List (String × Value) → Script (Unit {0})
check_proxy c roles storage = do
  log (← get_current_network)
  assert_slot c.proxy_address admin_slot c.proxy_admin "✘ proxy admin mismatch"
  assert_slot c.proxy_address rollback_slot c.rollback "✘ proxy rollback mismatch"
  assert_slot c.proxy_address beacon_slot c.beacon "✘ proxy beacon mismatch"
  assert_slot c.proxy_address implementation_slot c.implementation "✘ proxy impl mismatch"
  assert_call c.proxy_admin "getProxyAdmin" (address c.proxy_address ∷ []) c.proxy_admin
      "getProxyAdmin failed on the proxy admin contract"
  assert_call c.proxy_admin "getProxyImplementation" (address c.proxy_address ∷ []) c.implementation
      "getProxyImplementation failed on the proxy admin contract"
  assert_call c.proxy_admin "owner" [] c.owner
      "Proxy admin owner check failed on the proxy admin contract"
  assert_roles c.proxy_address roles
  assert_storage c.proxy_address storage

-- The task "check-USDX".
unfoldable pub check_usdx : Script (Unit {0})
check_usdx = check_proxy usdx_proxy usdx_roles usdx_storage

-- The task "check-allowlist".
unfoldable pub check_allowlist : Script (Unit {0})
check_allowlist = check_proxy allowlist_proxy allowlist_roles allowlist_storage

-- The task "check-blocklist".
unfoldable pub check_blocklist : Script (Unit {0})
check_blocklist = do log (← get_current_network); assert_storage blocklist_address blocklist_storage

-- The task "check-USDX-manager".
unfoldable pub check_usdx_manager : Script (Unit {0})
check_usdx_manager = do
  log (← get_current_network)
  assert_roles usdx_manager_address manager_roles
  assert_storage usdx_manager_address manager_storage

-- The task "check-USDX-pricer".
unfoldable pub check_usdx_pricer : Script (Unit {0})
check_usdx_pricer = do
  log (← get_current_network)
  assert_roles usdx_pricer_address pricer_roles
  assert_storage usdx_pricer_address pricer_storage

-- The task "check-USDX-rwaOracle-rateCheck".
unfoldable pub check_rate_check : Script (Unit {0})
check_rate_check = do
  log (← get_current_network)
  contract ← get_contract_at usdx_rwa_oracle_rate_check_address
  assert_roles contract rate_check_roles
  assert_storage contract rate_check_data
