-- ===== src/Docker.antt =====
-- vmdocker/runtimemanager/docker.go: runtimes as Docker containers. The mutexes make each operation
-- one step on the manager and the world.
pub mod Lifecycle
pub mod Snapshots
pub mod Consistency
pub mod NodeLatch
pub mod Interface
mod Samples
use vmdockerv.Base.{
  Bool, Dict, Done, Error, List, Op, Option, Result, Text, [], codes, contains, delete,
  ensure_image_failed, err, errorf, false, if◌then◌else◌, image_id_is_empty, image_sha_mismatch,
  insert, inspect_image_failed, instance_not_found, is_ok, lookup, node_check_failed, none,
  not_supported, ok, on_error, pull_image_failed, pure, read_pull_failed, require, some, text_eq,
  throw, true, wrapf, wrapping, ℕ, ◌++◌, ◌>>=◌, ◌>>◌, ◌||◌, ◌∷◌,
}
use vmdockerv.Container.{build_docker_container_config, build_docker_host_config}
use vmdockerv.Env.{append_runtime_persistence_env, runtime_workspace_root_from_path}
use vmdockerv.Host.{Host}
use vmdockerv.NodeCheck.{CheckResult, run_node_confinement_check}
use vmdockerv.Ports.{PortAllocator, allocate, new_port_allocator, release}
use vmdockerv.Schema.{
  ImageInfo, InstanceInfo, RuntimeSpec, Status, created, image_source_module_data, running,
  runtime_backend_docker, stopped,
}
use vmdockerv.Tables.{Tables}
use vmdockerv.Workspace.{ensure_runtime_tmp_dir, ensure_runtime_workspace}

-- The instance's fields that a container shares are read through the map; `cli` is the host.
pub record DockerManager : Type 0 where
  pub instances : Dict InstanceInfo
  pub ports : PortAllocator
  pub node_checked : Bool
  pub node_check_err : Option Error

-- The two tables that the manager keeps.
abbrev pub tables : DockerManager → Tables
tables m = record { instances = m.instances; ports = m.ports }

abbrev pub container_name_prefix : Text
container_name_prefix = codes "hymatrix_"

unfoldable pub new_docker_manager : DockerManager
unfolding new_port_allocator
new_docker_manager = record {
  instances = [];
  ports = new_port_allocator 10000 20000;
  node_checked = false;
  node_check_err = none;
}

-- `strings.Contains(digest, sha)` for some digest.
unfoldable pub some_contains : List Text → Text → Bool
some_contains [] sha = false
some_contains (digest ∷ digests) sha = contains digest sha || some_contains digests sha

-- The manager and the world that it runs in.
pub record System (World : Type 0) : Type 0 where
  pub manager : DockerManager
  pub world : World

abbrev pub on_world : {W A : Type 0} → Op W A → Op (System W) A
on_world m s = ((m s.world).0, record s { world = (m s.world).1 })

abbrev pub on_manager :
    {W A : Type 0} → (DockerManager → Result A × DockerManager) → Op (System W) A
on_manager f s = ((f s.manager).0, record s { manager = (f s.manager).1 })

abbrev pub get_instance : {W : Type 0} → Text → Op (System W) InstanceInfo
get_instance pid s = elim (lookup pid s.manager.instances) [
  | some instance ↦ (ok instance, s)
  | none ↦ (err (errorf instance_not_found), s)
]

-- `instance.Status = status`, seen through the map.
abbrev pub set_status : {W : Type 0} → Text → InstanceInfo → Status → Op (System W) Done
set_status pid instance status s = (
  ok tt,
  record s {
    manager = record (s.manager) {
      instances = insert pid (record instance { status = status }) s.manager.instances;
    };
  },
)

abbrev pub release_port : {W : Type 0} → ℕ → System W → System W
release_port port s = record s {
  manager = record (s.manager) { ports = release port s.manager.ports };
}

-- The branch for a check that has its verdict.
abbrev pub cached_verdict : Option Error → Result Done
cached_verdict none = ok tt
cached_verdict (some e) = err (wrapf node_check_failed e)

abbrev pub latch : DockerManager → Option Error → DockerManager
latch m verdict = record m { node_checked = true; node_check_err = verdict }

-- A daemon that did not answer is no verdict: nothing is kept.
abbrev pub settle :
    {World : Type 0}
    → (Option (List CheckResult) × Option Error)
    → System World
    → Result Done × System World
settle (none, some e) s = (err (wrapf node_check_failed e), s)
settle (report, verdict) s =
    (cached_verdict verdict, record s { manager = latch s.manager verdict })

module _ (host : Host) where
  open host use {
    World, getenv, port_available, time_now, daemon_info, image_inspect, image_pull, drain_pull,
    container_create, container_remove, container_start, container_stop,
  }

  unfoldable pub verify_image_sha : ImageInfo → Op World Done
  unfolding some_contains
  verify_image_sha image = do
    inspect ← wrapping inspect_image_failed (image_inspect image.name)
    require (some_contains inspect.repo_digests image.sha || text_eq inspect.id image.sha)
        image_sha_mismatch

  -- `if imageInfo.SHA != "" { return dm.verifyImageSHA(ctx, imageInfo) }; return nil`
  unfoldable pub verify_if_given : ImageInfo → Op World Done
  unfolding verify_image_sha
  verify_if_given image = if text_eq image.sha [] then pure tt else verify_image_sha image

  unfoldable pub pull_and_verify : ImageInfo → Op World Done
  unfolding verify_if_given
  pull_and_verify image = do
    wrapping pull_image_failed (image_pull image.name)
    wrapping read_pull_failed (drain_pull image.name)
    verify_if_given image

  unfoldable pub verify_module_image : ImageInfo → Op World Done
  unfolding verify_image_sha
  verify_module_image image =
      if text_eq image.sha [] then throw (errorf image_id_is_empty) else verify_image_sha image

  unfoldable pub ensure_image_exists : ImageInfo → Op World Done
  unfolding verify_module_image verify_if_given pull_and_verify
  ensure_image_exists image w =
      if text_eq image.source image_source_module_data
      then verify_module_image image w
      else let (present, w') = image_inspect image.name w in
        if is_ok present then verify_if_given image w' else pull_and_verify image w'

  unfoldable pub check_node_confinement : Op (System World) Done
  unfolding run_node_confinement_check
  check_node_confinement s =
      if s.manager.node_checked
      then (cached_verdict s.manager.node_check_err, s)
      else let strict = text_eq (getenv s.world (codes "VMDOCKER_NODE_CHECK_STRICT")) (codes "1") in
        let (outcome, w) = run_node_confinement_check daemon_info strict s.world in
        settle outcome (record s { world = w })

  abbrev new_instance : Text → Text → ℕ → ℕ → Text → RuntimeSpec → List Text → InstanceInfo
  new_instance id pid port now workspace spec runtime_env = record {
    id = id;
    name = pid;
    port = port;
    status = created;
    create_at = now;
    backend = runtime_backend_docker;
    agent = [];
    workspace = workspace;
    runtime_spec = record spec {
      sandbox = record (spec.sandbox) { workspace = runtime_workspace_root_from_path workspace };
    };
    runtime_env = runtime_env;
  }

  abbrev store : Text → InstanceInfo → Op (System World) InstanceInfo
  store pid instance s = (
    ok instance,
    record s {
      manager = record (s.manager) { instances = insert pid instance s.manager.instances };
    },
  )

  abbrev allocate_port : Op (System World) ℕ
  allocate_port s =
      on_manager
        (λ m.
          let (r, ports) = allocate (port_available s.world) m.ports in
          (r, record m { ports = ports }))
        s

  abbrev clock : Op (System World) ℕ
  clock s = (ok (time_now s.world), s)

  -- `schema.UseMount` is false in the source.
  unfoldable pub create_container : ℕ → Text → Text → RuntimeSpec → List Text → Text → Op World Text
  create_container port workspace tmp_dir spec runtime_env pid =
      container_create
        (build_docker_container_config spec (append_runtime_persistence_env runtime_env workspace))
        (build_docker_host_config false [] port workspace tmp_dir) (container_name_prefix ++ pid)

  -- `CreateInstance` once it has its port, which each error path releases.
  unfoldable pub provision : ℕ → Text → RuntimeSpec → List Text → Op (System World) InstanceInfo
  provision port pid spec runtime_env = do
    workspace ←
        on_error (release_port port)
          (on_world (ensure_runtime_workspace host pid spec.sandbox.workspace))
    tmp_dir ← on_error (release_port port) (on_world (ensure_runtime_tmp_dir host workspace))
    id ←
        on_error (release_port port)
          (on_world (create_container port workspace tmp_dir spec runtime_env pid))
    now ← clock
    store pid (new_instance id pid port now workspace spec runtime_env)

  unfoldable pub create_instance : Text → RuntimeSpec → List Text → Op (System World) InstanceInfo
  create_instance pid spec runtime_env = do
    check_node_confinement
    wrapping ensure_image_failed (on_world (ensure_image_exists spec.image))
    port ← allocate_port
    provision port pid spec runtime_env

  abbrev forget : Text → InstanceInfo → Op (System World) Done
  forget pid instance s = (
    ok tt,
    record s {
      manager = record (s.manager) {
        ports = release instance.port s.manager.ports;
        instances = delete pid s.manager.instances;
      };
    },
  )

  unfoldable pub remove_instance : Text → Op (System World) Done
  remove_instance pid = do
    instance ← get_instance pid
    on_world (container_remove instance.id)
    forget pid instance

  unfoldable pub start_instance : Text → Op (System World) Done
  start_instance pid = do
    instance ← get_instance pid
    on_world (container_start instance.id)
    set_status pid instance running

  unfoldable pub stop_instance : Text → Op (System World) Done
  stop_instance pid = do
    instance ← get_instance pid
    on_world (container_stop instance.id 10)
    set_status pid instance stopped

  unfoldable pub exec_instance : Text → List Text → Text → Op (System World) Text
  exec_instance pid env command = throw (errorf not_supported)
