-- ===== src/Vm.antt =====
-- vmdocker/vmdocker.go: the virtual machine of one process, from its spawn on. It keeps the runtime's
-- instance and the manager that it chose, and talks to the runtime over HTTP or by commands in the
-- sandbox. The calls that it makes are one world's steps.
pub mod Readiness
pub mod Frame
pub mod Launch
pub mod Run
pub mod Checkpoint
pub mod Restore
mod Samples
use vmdockerv.Base.{
  Bool, Done, List, Op, Option, Result, Text, [], codes, create_payload_dir_failed,
  create_runtime_failed, err, errorf, false, get_runtime_manager_failed, if◌then◌else◌,
  instance_info_is_nil, is_empty, none, not, ok, on_error, pure, readiness_timeout, request_failed,
  require, restore_runtime_state_failed, runtime_not_ready, runtime_was_closed, sandbox_exec_failed,
  sandbox_workspace_is_empty, send_request_failed, some, start_runtime_failed, text_eq, trim_space,
  wrapping, write_payload_failed, ℕ, ◌==◌, ◌>>=◌, ◌>>◌, ◌∷◌,
}
use vmdockerv.LaunchConfig.{RuntimeLaunchConfig}
use vmdockerv.Manager.{Registry, RuntimeManager, get_runtime_manager}
use vmdockerv.Paths.{join_paths}
use vmdockerv.Schema.{InstanceInfo, Tag, runtime_backend_sandbox}
use vmdockerv.Shell.{
  build_sandbox_curl_command, build_sandbox_curl_command_from_file, negative,
  parse_sandbox_curl_output, positive, ℤ,
}

-- What `select` of `waitForContainerReady` wakes up on, in order; the list ends at the deadline.
pub data Wake : Type 0 where
  close_signal tick : Wake

-- The code outside the repository that the machine calls: HTTP, JSON, files and the clock. `wakes` gives
-- what happens while it waits, and `spawn_request` and `restore_request` the JSON text of the requests,
-- with the constant `Env` in them; `decode_response` gives the status and the state of a reply.
pub record Wire (World : Type 0) : Type 0 where
  pub http_post : ℕ → Text → Text → Op World (ℤ × Text)
  pub mkdir_all : Text → Op World Done
  pub write_file : Text → Text → Op World Done
  pub remove_file : Text → World → World
  pub payload_name : World → Text
  pub wakes : World → List Wake
  pub spawn_request : Text → Text → List Tag → Result Text
  pub restore_request : Text → Result Text
  pub decode_response : Text → Result (Text × Text)

pub record VmDocker (World : Type 0) : Type 0 where
  pub instance_info : Option InstanceInfo
  pub runtime_manager : Option (RuntimeManager World)
  pub registry : Registry World
  pub world : World

abbrev pub is_status_ok : ℤ → Bool
is_status_ok (positive n) = n == 200
is_status_ok (negative n) = false

abbrev pub lift : {S A : Type 0} → Result A → Op S A
lift r s = (r, s)

abbrev pub in_world : {W A : Type 0} → Op W A → Op (VmDocker W) A
in_world m v = ((m v.world).0, record v { world = (m v.world).1 })

abbrev pub instance_of_vm : {W : Type 0} → Op (VmDocker W) InstanceInfo
instance_of_vm v = elim v.instance_info [
  | none ↦ (err (errorf instance_info_is_nil), v)
  | some i ↦ (ok i, v)
]

abbrev pub set_instance : {W : Type 0} → Option InstanceInfo → Op (VmDocker W) Done
set_instance i v = (ok tt, record v { instance_info = i })

-- The calls' `statusCode != http.StatusOK`.
abbrev pub expect_ok : {W : Type 0} → ℤ × Text → Op (VmDocker W) Text
expect_ok (status, body) v =
    if is_status_ok status then (ok body, v) else (err (errorf request_failed), v)

-- `response.Status != "ok"`
abbrev pub expect_status : {W : Type 0} → Text × Text → Op (VmDocker W) Text
expect_status (status, state) v =
    if text_eq status (codes "ok") then (ok state, v) else (err (errorf request_failed), v)

module _ {World : Type 0} (wire : Wire World) (goos : Text)
    (docker_manager sandbox_manager : Result (RuntimeManager World)) (pid : Text) where
  open wire use {
    http_post, mkdir_all, write_file, remove_file, payload_name, wakes, spawn_request,
    restore_request, decode_response,
  }

  abbrev backend_of : Option InstanceInfo → Text
  backend_of none = []
  backend_of (some i) = i.backend

  -- `runtimemanager.GetRuntimeManager`, on the registry beside the machine.
  unfoldable pub lookup_manager : Text → Op (VmDocker World) (RuntimeManager World)
  lookup_manager backend v =
      let (r, registry) =
        get_runtime_manager docker_manager sandbox_manager goos backend v.registry in
      (r, record v { registry = registry })

  abbrev pub choose_manager : RuntimeManager World → Op (VmDocker World) Done
  choose_manager manager v = (ok tt, record v { runtime_manager = some manager })

  -- `v.getRuntimeManager`
  unfoldable pub vm_runtime_manager : Op (VmDocker World) (RuntimeManager World)
  unfolding lookup_manager
  vm_runtime_manager v = elim v.runtime_manager [
    | some manager ↦ (ok manager, v)
    | none ↦
        (do
          manager ← lookup_manager (backend_of v.instance_info)
          choose_manager manager
          pure manager)
          v
  ]

  unfoldable pub write_sandbox_payload_file : Text → Op (VmDocker World) Text
  write_sandbox_payload_file payload = do
    i ← instance_of_vm
    require (not (is_empty (trim_space i.workspace))) sandbox_workspace_is_empty
    in_world (
        wrapping create_payload_dir_failed
          (mkdir_all (join_paths (i.workspace ∷ codes ".tmp" ∷ []))))
    name ← (λ v. (ok (payload_name v.world), v))
    let path = join_paths (i.workspace ∷ codes ".tmp" ∷ name ∷ [])
    in_world (wrapping write_payload_failed (write_file path payload))
    pure path

  -- `defer cleanup()` of the payload's file.
  abbrev cleaning : {A : Type 0} → Text → Op (VmDocker World) A → Op (VmDocker World) A
  cleaning path m v = ((m v).0, record ((m v).1) { world = remove_file path (m v).1.world })

  abbrev exec_and_parse : RuntimeManager World → Text → Op (VmDocker World) (ℤ × Text)
  exec_and_parse manager command = do
    output ← wrapping sandbox_exec_failed (in_world (manager.exec_instance pid [] command))
    lift (parse_sandbox_curl_output output)

  -- The commands for a manager: a payload goes by a file, which is removed again.
  unfoldable pub send_to_sandbox :
      Text → Text → RuntimeManager World → Op (VmDocker World) (ℤ × Text)
  unfolding write_sandbox_payload_file
  send_to_sandbox path payload manager =
      if is_empty payload then exec_and_parse manager (build_sandbox_curl_command path []) else (do
        file ← write_sandbox_payload_file payload
        cleaning file (exec_and_parse manager (build_sandbox_curl_command_from_file path file)))

  unfoldable pub call_sandbox_runtime_endpoint : Text → Text → Op (VmDocker World) (ℤ × Text)
  unfolding send_to_sandbox vm_runtime_manager
  call_sandbox_runtime_endpoint path payload =
      wrapping get_runtime_manager_failed vm_runtime_manager >>= send_to_sandbox path payload

  -- The endpoint of an instance, by its backend.
  unfoldable pub call_instance_endpoint :
      Text → Text → InstanceInfo → Op (VmDocker World) (ℤ × Text)
  unfolding call_sandbox_runtime_endpoint
  call_instance_endpoint path payload i =
      if text_eq i.backend runtime_backend_sandbox
      then call_sandbox_runtime_endpoint path payload
      else in_world (wrapping send_request_failed (http_post i.port path payload))

  unfoldable pub call_runtime_endpoint : Text → Text → Op (VmDocker World) (ℤ × Text)
  unfolding call_instance_endpoint
  call_runtime_endpoint path payload = instance_of_vm >>= call_instance_endpoint path payload

  unfoldable pub health_status_code : Op (VmDocker World) (ℤ × Text)
  unfolding call_runtime_endpoint
  health_status_code = call_runtime_endpoint (codes "/vmm/health") []

  -- The loop of `waitForContainerReady`.
  unfoldable pub wait_loop : List Wake → Op (VmDocker World) Done
  unfolding health_status_code
  wait_loop [] v = (err (errorf readiness_timeout), v)
  wait_loop (close_signal ∷ events) v = (err (errorf runtime_was_closed), v)
  wait_loop (tick ∷ events) v =
      let (reply, v') = health_status_code v in
      let rest = wait_loop events v' in
      elim reply [
        | err e ↦ rest
        | ok (status, body) ↦ if is_status_ok status then (ok tt, v') else rest
      ]

  -- The loop with the events of the world that it starts in.
  abbrev pub wait_for_events : Op (VmDocker World) Done
  wait_for_events v = wait_loop (wakes v.world) v

  unfoldable pub wait_for_container_ready : Op (VmDocker World) Done
  unfolding wait_loop
  wait_for_container_ready = do instance_of_vm; wait_for_events

  unfoldable pub runtime_checkpoint : Op (VmDocker World) Text
  unfolding call_runtime_endpoint
  runtime_checkpoint = do
    reply ← call_runtime_endpoint (codes "/vmm/checkpoint") []
    body ← expect_ok reply
    response ← lift (decode_response body)
    expect_status response

  unfoldable pub runtime_restore : Text → Op (VmDocker World) Done
  unfolding call_runtime_endpoint
  runtime_restore state = do
    payload ← lift (restore_request state)
    reply ← call_runtime_endpoint (codes "/vmm/restore") payload
    body ← expect_ok reply
    response ← lift (decode_response body)
    expect_status response
    pure tt

  unfoldable pub spawn : Text → Text → List Tag → Op (VmDocker World) Done
  unfolding call_runtime_endpoint
  spawn cu_addr data_text tags = do
    instance_of_vm
    payload ← lift (spawn_request cu_addr data_text tags)
    reply ← call_runtime_endpoint (codes "/vmm/spawn") payload
    expect_ok reply
    pure tt

  -- The deferred `RemoveInstance`, whose error is dropped.
  unfoldable pub tear_down : RuntimeManager World → VmDocker World → VmDocker World
  tear_down manager v = elim v.instance_info [
    | none ↦ v
    | some i ↦ record v { instance_info = none; world = (manager.remove_instance pid v.world).1 }
  ]

  unfoldable pub resume : RuntimeManager World → Text → Op (VmDocker World) Done
  unfolding wait_for_container_ready runtime_restore
  resume manager state = do
    wrapping start_runtime_failed (in_world (manager.start_instance pid))
    wrapping runtime_not_ready wait_for_container_ready
    wrapping restore_runtime_state_failed (runtime_restore state)

  unfoldable pub restore_runtime_launch :
      RuntimeManager World → RuntimeLaunchConfig → Text → Op (VmDocker World) Done
  unfolding resume tear_down
  restore_runtime_launch manager launch state = do
    i ←
        wrapping create_runtime_failed
          (in_world (manager.create_instance pid launch.runtime_spec launch.runtime_env))
    set_instance (some i)
    on_error (tear_down manager) (resume manager state)

  -- `close` without the signal to a waiting loop, which `Wake` has as `close_signal`.
  unfoldable pub close : Op (VmDocker World) Done
  unfolding vm_runtime_manager
  close = do manager ← vm_runtime_manager; in_world (manager.remove_instance pid)
