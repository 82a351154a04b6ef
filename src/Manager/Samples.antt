-- ===== src/Manager/Samples.antt =====
-- The choice of a manager, with a Docker manager on a quiet host and no sandbox.
use vmdockerv.Base.{Result, codes, err, external, none, ok, ◌≡◌}
use vmdockerv.Docker.{System}
use vmdockerv.Docker.Interface.{docker_runtime}
use vmdockerv.Host.Quiet.{quiet_host}
use vmdockerv.Manager.{Registry, RuntimeManager, get_runtime_manager}
use vmdockerv.Manager.Selection.{get_runtime_manager_linux, on_linux}

abbrev no_sandbox : Result (RuntimeManager (System (Unit {0})))
no_sandbox = err (external (codes "sandbox CLI is not available"))

abbrev fresh : Registry (System (Unit {0}))
fresh = record { docker = none; sandbox = none }

get_runtime_manager_linux_example :
    get_runtime_manager
      (ok (docker_runtime quiet_host))
      no_sandbox
      (codes "linux")
      (codes "sandbox")
      fresh
    ≡ on_linux (ok (docker_runtime quiet_host)) no_sandbox (codes "sandbox") fresh
get_runtime_manager_linux_example =
    get_runtime_manager_linux (ok (docker_runtime quiet_host)) no_sandbox (codes "sandbox") fresh
