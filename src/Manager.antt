-- ===== src/Manager.antt =====
-- vmdocker/runtimemanager/runtime.go: the interface of the runtime managers, with what a client may
-- rely on, and the choice of a manager by its backend.
pub mod Selection
mod Samples
use vmdockerv.Base.{
  Done, Error, List, Op, Option, Result, Text, [], backend_not_on_linux, codes, err, errorf,
  if◌then◌else◌, none, not_supported, ok, some, text_eq, ◌&&◌, ◌||◌, ◌≡◌,
}
use vmdockerv.Schema.{InstanceInfo, RuntimeSpec, runtime_backend_docker, runtime_backend_sandbox}

-- `IRuntimeManager` on a world, without `Checkpoint` and `Restore`, which the virtual machine does not
-- call. `instance_of` is the table that `GetInstance` reads.
pub record RuntimeManager (World : Type 0) : Type 0 where
  pub create_instance : Text → RuntimeSpec → List Text → Op World InstanceInfo
  pub remove_instance : Text → Op World Done
  pub start_instance : Text → Op World Done
  pub exec_instance : Text → List Text → Text → Op World Text
  pub instance_of : Text → World → Option InstanceInfo
  pub create_instance_stores :
      (pid : Text) (spec : RuntimeSpec) (env : List Text) (w : World) (i : InstanceInfo)
      → (create_instance pid spec env w).0 ≡ ok i
      → instance_of pid (create_instance pid spec env w).1 ≡ some i
  pub create_instance_keeps :
      (pid : Text) (spec : RuntimeSpec) (env : List Text) (w : World) (e : Error)
      → (create_instance pid spec env w).0 ≡ err e
      → instance_of pid (create_instance pid spec env w).1 ≡ instance_of pid w
  pub remove_instance_clears :
      (pid : Text) (w : World) (d : Done)
      → (remove_instance pid w).0 ≡ ok d
      → instance_of pid (remove_instance pid w).1 ≡ none

-- The backends that runtimeOnce has; a manager is made at its first use, and kept with its error.
pub record Registry (World : Type 0) : Type 0 where
  pub docker : Option (Result (RuntimeManager World))
  pub sandbox : Option (Result (RuntimeManager World))

-- `normalizeRuntimeBackend` on the operating system `goos`.
unfoldable pub normalize_runtime_backend : Text → Text → Text
normalize_runtime_backend goos backend =
    if text_eq backend []
    then (if text_eq goos (codes "darwin") || text_eq goos (codes "windows")
        then runtime_backend_sandbox
        else runtime_backend_docker)
    else if text_eq backend runtime_backend_sandbox || text_eq backend runtime_backend_docker
    then backend
    else []

-- `once.Do` with the constructor `make`, and the lookup behind it.
abbrev pub once : {A : Type 0} → Option (Result A) → Result A → Result A
once none make = make
once (some r) make = r

module _ {World : Type 0} (docker_manager sandbox_manager : Result (RuntimeManager World)) where
  unfoldable pub get_runtime_manager : Text → Text → Op (Registry World) (RuntimeManager World)
  get_runtime_manager goos backend r =
      let normal = normalize_runtime_backend goos backend in
      if text_eq normal []
      then (err (errorf not_supported), r)
      else if text_eq goos (codes "linux") && text_eq normal runtime_backend_sandbox
      then (err (errorf backend_not_on_linux), r)
      else if text_eq normal runtime_backend_docker
      then (once r.docker docker_manager, record r { docker = some (once r.docker docker_manager) })
      else (
        once r.sandbox sandbox_manager,
        record r { sandbox = some (once r.sandbox sandbox_manager) },
      )
