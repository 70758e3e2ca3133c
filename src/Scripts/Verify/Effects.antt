-- ===== src/Scripts/Verify/Effects.antt =====
-- What the verification tasks do to the outside world.
use Prim.Native.String.{String}
use usdx_v.Base.{ℕ, List}
use usdx_v.Scripts.Script.{Script, ◌>>=◌, ◌>>◌, log, get_current_network, Value, address}
use usdx_v.Scripts.Verify.Silence.{
  OnlyPrints, OnlyPrints->>=, OnlyPrints-assert, OnlyPrints-log, OnlyPrints-throw, Checks-then,
}
use usdx_v.Scripts.Verify.Agreement.{Checks-assert_roles, Checks-assert_storage}
use usdx_v.Scripts.Verify.Config.{RoleConfig, ProxyConfig}
use usdx_v.Scripts.Verify.Helpers.{loosely_equal, assert, address_from_storage_slot}
use usdx_v.Scripts.Verify.Tasks.{
  assert_slot, check_proxy, check_usdx, check_allowlist, check_blocklist, check_usdx_manager,
  check_usdx_pricer, check_rate_check,
}
use usdx_v.Scripts.Verify.Slots.{OnlyPrints-address_from_storage_slot, Checks-assert_call}

OnlyPrints-network : OnlyPrints (get_current_network >>= log)
unfolding OnlyPrints
OnlyPrints-network w h = OnlyPrints-log w.network w h

OnlyPrints-then : (s t : Script (Unit {0})) → OnlyPrints s → OnlyPrints t → OnlyPrints (s >> t)
OnlyPrints-then s t p q = OnlyPrints->>= s (λ _. t) p (λ _. q)

OnlyPrints-check_proxy :
    (c : ProxyConfig) (rs : List RoleConfig) (st : List (String × Value))
    → OnlyPrints (check_proxy c rs st)
unfolding check_proxy assert_slot
OnlyPrints-check_proxy c rs st =
    let slot = λ (p slot e : ℕ) (message : String).
      OnlyPrints->>= (address_from_storage_slot p slot)
        (λ a. assert (loosely_equal a (address e)) message)
        (OnlyPrints-address_from_storage_slot p slot) (λ a. OnlyPrints-assert _ _) in
    OnlyPrints-then _ _ OnlyPrints-network (
      OnlyPrints-then _ _ (slot _ _ _ _) (
        OnlyPrints-then _ _ (slot _ _ _ _) (
          OnlyPrints-then _ _ (slot _ _ _ _) (
            OnlyPrints-then _ _ (slot _ _ _ _) (
              OnlyPrints-then _ _ (Checks-assert_call _ _ _ _ _).only_prints (
                OnlyPrints-then _ _ (Checks-assert_call _ _ _ _ _).only_prints (
                  OnlyPrints-then _ _ (Checks-assert_call _ _ _ _ _).only_prints (
                    OnlyPrints-then _ _ (Checks-assert_roles _ rs).only_prints
                      (Checks-assert_storage _ st).only_prints))))))))

-- Whatever the chain answers, and also where a task throws, the six tasks do nothing to the outside
-- world but print.
pub tasks-OnlyPrints :
    OnlyPrints check_usdx
    × OnlyPrints check_allowlist
    × OnlyPrints check_blocklist
    × OnlyPrints check_usdx_manager
    × OnlyPrints check_usdx_pricer
    × OnlyPrints check_rate_check
unfolding check_usdx check_allowlist check_blocklist check_usdx_manager check_usdx_pricer
    check_rate_check
tasks-OnlyPrints =
    let roles_storage = λ (c : ℕ) (rs : List RoleConfig) (st : List (String × Value)).
      (Checks-then (Checks-assert_roles c rs) (Checks-assert_storage c st)).only_prints in
    (
      OnlyPrints-check_proxy _ _ _,
      OnlyPrints-check_proxy _ _ _,
      OnlyPrints-then _ _ OnlyPrints-network (Checks-assert_storage _ _).only_prints,
      OnlyPrints-then _ _ OnlyPrints-network (roles_storage _ _ _),
      OnlyPrints-then _ _ OnlyPrints-network (roles_storage _ _ _),
      OnlyPrints-then _ _ OnlyPrints-network (OnlyPrints-throw _ "invalid address"),
    )
