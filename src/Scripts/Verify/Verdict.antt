-- ===== src/Scripts/Verify/Verdict.antt =====
-- What the verification tasks find: when a task prints the network and nothing more.
use Prim.Native.String.{String}
use usdx_v.Base.{◌^◌, ◌<◌, ◌≡◌, ◌↔◌, true, List, [], ◌∷◌}
use usdx_v.Scripts.Script.{World, Effect, returned, print, Value, address}
use usdx_v.Scripts.Constants.{admin_slot, rollback_slot, beacon_slot, implementation_slot}
use usdx_v.Scripts.Verify.Silence.{Checks-then}
use usdx_v.Scripts.Verify.Agreement.{
  Answers, RolesAgree, StorageAgrees, Checks-assert_roles, Checks-assert_storage,
}
use usdx_v.Scripts.Verify.Config.{
  RoleConfig, ProxyConfig, manager_roles, manager_storage, usdx_manager_address,
}
use usdx_v.Scripts.Verify.Tasks.{check_proxy, check_usdx_manager}
use usdx_v.Scripts.Verify.Slots.{Checks-assert_slot, Checks-assert_call, after_network}

-- The slots of a proxy, its admin contract, its roles and its getters agree with the configuration.
pub record ProxyAgrees (c : ProxyConfig) (rs : List RoleConfig) (st : List (String × Value))
    (w : World) (h : List Effect) : Type 0 where
  pub admin : w.storage_at h c.proxy_address admin_slot ≡ c.proxy_admin
  pub no_rollback : w.storage_at h c.proxy_address rollback_slot ≡ c.rollback
  pub no_beacon : w.storage_at h c.proxy_address beacon_slot ≡ c.beacon
  pub implementation : w.storage_at h c.proxy_address implementation_slot ≡ c.implementation
  pub knows_admin :
      Answers c.proxy_admin "getProxyAdmin"
        (address c.proxy_address ∷ [])
        (address c.proxy_admin)
        w
        h
  pub knows_implementation :
      Answers c.proxy_admin "getProxyImplementation"
        (address c.proxy_address ∷ [])
        (address c.implementation)
        w
        h
  pub owned : Answers c.proxy_admin "owner" [] (address c.owner) w h
  pub roles : RolesAgree c.proxy_address rs w h
  pub storage : StorageAgrees c.proxy_address st w h

-- The addresses of a configuration fit in 160 bits.
unfoldable pub IsProxyConfig : ProxyConfig → Type 0
IsProxyConfig c =
    (c.proxy_admin < 2 ^ 160)
    × (c.rollback < 2 ^ 160)
    × (c.beacon < 2 ^ 160)
    × (c.implementation < 2 ^ 160)

-- Where the console prints, the check of a proxy prints the network and nothing more exactly if its
-- four slots, the proxy admin, the roles and the getters all agree with the configuration, whose
-- addresses fit in 160 bits.
pub check_proxy_silent :
    (c : ProxyConfig) (rs : List RoleConfig) (st : List (String × Value)) (w : World)
    (h : List Effect)
    → IsProxyConfig c
    → w.accepts h (print w.network) ≡ true
    → (check_proxy c rs st w h ≡ (print w.network ∷ h, returned tt))
      ↔ ProxyAgrees c rs st w (print w.network ∷ h)
unfolding check_proxy IsProxyConfig
check_proxy_silent c rs st w h (ha, hr, hb, hi) a =
    let checks =
      Checks-then
        (Checks-assert_slot c.proxy_address admin_slot c.proxy_admin "✘ proxy admin mismatch" ha)
        (Checks-then
          (Checks-assert_slot c.proxy_address rollback_slot c.rollback "✘ proxy rollback mismatch"
            hr)
          (Checks-then
            (Checks-assert_slot c.proxy_address beacon_slot c.beacon "✘ proxy beacon mismatch" hb)
            (Checks-then
              (Checks-assert_slot c.proxy_address implementation_slot c.implementation
                "✘ proxy impl mismatch" hi)
              (Checks-then
                (Checks-assert_call c.proxy_admin "getProxyAdmin" (address c.proxy_address ∷ [])
                  c.proxy_admin "getProxyAdmin failed on the proxy admin contract")
                (Checks-then
                  (Checks-assert_call c.proxy_admin "getProxyImplementation"
                    (address c.proxy_address ∷ []) c.implementation
                    "getProxyImplementation failed on the proxy admin contract")
                  (Checks-then
                    (Checks-assert_call c.proxy_admin "owner" [] c.owner
                      "Proxy admin owner check failed on the proxy admin contract")
                    (Checks-then (Checks-assert_roles c.proxy_address rs)
                      (Checks-assert_storage c.proxy_address st)))))))) in
    let q = after_network w h checks a in
    (
      λ k.
          (let (x0, (x1, (x2, (x3, (x4, (x5, (x6, (x7, x8)))))))) = q.0 k in
            record {
              admin = x0;
              no_rollback = x1;
              no_beacon = x2;
              implementation = x3;
              knows_admin = x4;
              knows_implementation = x5;
              owned = x6;
              roles = x7;
              storage = x8;
            }),
      λ p. q.1 (
        p.admin,
        (
          p.no_rollback,
          (
            p.no_beacon,
            (
              p.implementation,
              (p.knows_admin, (p.knows_implementation, (p.owned, (p.roles, p.storage)))),
            ),
          ),
        ),
      ),
    )

-- Where the console prints, check-USDX-manager prints the network and nothing more exactly if every
-- role of the manager has just the configured members, in their order, and every getter answers with
-- a value equal to the configured one.
pub check_usdx_manager_silent :
    (w : World) (h : List Effect)
    → w.accepts h (print w.network) ≡ true
    → (check_usdx_manager w h ≡ (print w.network ∷ h, returned tt)) ↔ (
        RolesAgree usdx_manager_address manager_roles w (print w.network ∷ h)
        × StorageAgrees usdx_manager_address manager_storage w (print w.network ∷ h))
unfolding check_usdx_manager
check_usdx_manager_silent w h a =
    after_network w h
      (Checks-then (Checks-assert_roles usdx_manager_address manager_roles)
        (Checks-assert_storage usdx_manager_address manager_storage))
      a
