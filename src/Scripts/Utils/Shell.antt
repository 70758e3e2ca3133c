-- ===== src/Scripts/Utils/Shell.antt =====
-- scripts/utils/shell.ts: child processes, and the pause. The two coloured marks stand as they are in
-- the messages of the scripts.
use Prim.Native.String.{String, ◌++◌}
use usdx_v.Base.{ℕ}
use usdx_v.Scripts.Script.{Script, perform, spawn, sleep_for}

-- `execute`: the promise is rejected if the process exits with an error.
unfoldable pub execute : (command : String) → Script (Unit {0})
execute command = perform (spawn command)

-- `verify`
unfoldable pub verify : (network : String) → Script (Unit {0})
unfolding execute
verify network =
    execute ("yarn hardhat --network " ++ network ++ " etherscan-verify --license BUSL-1.1")

-- `deploy`
unfoldable pub deploy : (tags network : String) → Script (Unit {0})
unfolding execute
deploy tags network = execute ("yarn hardhat deploy --tags " ++ tags ++ " --network " ++ network)

-- `sleep`
unfoldable pub sleep : (ms : ℕ) → Script (Unit {0})
sleep ms = perform (sleep_for ms)
