-- ===== src/Base/Maps.antt =====
-- A Solidity mapping is a total function: a key that was never written has the default value.
use Prim.Native.Nat.{ℕ}
use mathlib.Core.Path.{◌≡◌}
use mathlib.Core.Logic.{◌≢◌}
use native.Mathlib.Omega.{arith}
use usdx_v.Base.Tests.{◌==◌, if◌then◌else◌}

module _ {ℓ} {V : Type ℓ} where
  -- `m[k] = v`
  abbrev pub update : (ℕ → V) → ℕ → V → ℕ → V
  update m k v j = if j == k then v else m j

  pub update_self : (m : ℕ → V) (k : ℕ) (v : V) → update m k v k ≡ v
  update_self m k v = ground arith

  pub update_ne : (m : ℕ → V) (k j : ℕ) (v : V) → j ≢ k → update m k v j ≡ m j
  update_ne m k j v h = ground arith
