-- ===== src/Sandbox.antt =====
-- vmdocker/runtimemanager/sandbox.go: runtimes as Docker sandboxes. Calls follow one another.
pub mod Lifecycle
pub mod Snapshots
pub mod Consistency
pub mod Interface
mod Samples
use vmdockerv.Base.{
  Bool, Dict, Done, List, Op, Option, Result, Text, [], build_launch_command_failed, codes, delete,
  err, errorf, false, get_or, if◌then◌else◌, insert, inspect_launch_image_failed,
  instance_not_found, launch_spec_not_found, lockdown_failed, lookup, none, ok, on_error, some, suc,
  true, wrapping, zero, ℕ, ◌++◌, ◌>>=◌, ◌>>◌, ◌∷◌,
}
use vmdockerv.Docker.{container_name_prefix}
use vmdockerv.Env.{append_runtime_persistence_env, runtime_workspace_root_from_path}
use vmdockerv.Host.{Host}
use vmdockerv.Ports.{PortAllocator, allocate, new_port_allocator, release}
use vmdockerv.SandboxCli.{
  TemplateInspect, build_sandbox_filesystem_lockdown_command, ensure_sandbox_cli,
  ensure_template_exists, exec_instance_as_user, inspect_template_image, is_not_running,
  run_sandbox_command,
}
use vmdockerv.Schema.{
  InstanceInfo, RuntimeSpec, Status, created, running, runtime_backend_sandbox, stopped,
}
use vmdockerv.Shell.{build_sandbox_launch_command}
use vmdockerv.Tables.{Tables}
use vmdockerv.Workspace.{ensure_runtime_workspace_root}

pub record SandboxLaunchSpec : Type 0 where
  pub runtime_spec : RuntimeSpec
  pub runtime_env : List Text
  pub workspace : Text

-- What `CreateInstance` notes for the start of an instance in `workspace`.
abbrev pub launch_spec_of : RuntimeSpec → List Text → Text → SandboxLaunchSpec
launch_spec_of spec runtime_env workspace = record {
  runtime_spec = spec;
  runtime_env = runtime_env;
  workspace = workspace;
}

pub record SandboxManager : Type 0 where
  pub instances : Dict InstanceInfo
  pub launch_specs : Dict SandboxLaunchSpec
  pub ports : PortAllocator
  pub cli_bin : Text

abbrev pub sandbox_tables : SandboxManager → Tables
sandbox_tables m = record { instances = m.instances; ports = m.ports }

-- `newSandboxManager`, with what `exec.LookPath("docker")` gives.
unfoldable pub new_sandbox_manager : Option Text → SandboxManager
unfolding new_port_allocator
new_sandbox_manager found = record {
  instances = [];
  launch_specs = [];
  ports = new_port_allocator 10000 20000;
  cli_bin = get_or found (codes "docker");
}

-- pid[:n], for an ASCII pid.
abbrev pub take_text : ℕ → Text → Text
take_text zero t = []
take_text (suc n) [] = []
take_text (suc n) (c ∷ t) = c ∷ take_text n t

unfoldable pub default_sandbox_name : Text → Text
default_sandbox_name pid = container_name_prefix ++ take_text 10 pid

abbrev pub or_text : Text → Text → Text
or_text [] default = default
or_text (c ∷ t) default = c ∷ t

-- The manager and the world that it runs in.
pub record SandboxSystem (World : Type 0) : Type 0 where
  pub manager : SandboxManager
  pub world : World

abbrev pub at_world : {W A : Type 0} → Op W A → Op (SandboxSystem W) A
at_world m s = ((m s.world).0, record s { world = (m s.world).1 })

abbrev pub get_sandbox_instance : {W : Type 0} → Text → Op (SandboxSystem W) InstanceInfo
get_sandbox_instance pid s = elim (lookup pid s.manager.instances) [
  | some instance ↦ (ok instance, s)
  | none ↦ (err (errorf instance_not_found), s)
]

abbrev pub get_launch_spec : {W : Type 0} → Text → Op (SandboxSystem W) SandboxLaunchSpec
get_launch_spec pid s = elim (lookup pid s.manager.launch_specs) [
  | some spec ↦ (ok spec, s)
  | none ↦ (err (errorf launch_spec_not_found), s)
]

-- `instance.Status = status`, seen through the map.
abbrev pub set_sandbox_status :
    {W : Type 0} → Text → InstanceInfo → Status → Op (SandboxSystem W) Done
set_sandbox_status pid instance status s = (
  ok tt,
  record s {
    manager = record (s.manager) {
      instances = insert pid (record instance { status = status }) s.manager.instances;
    };
  },
)

abbrev pub release_sandbox_port : {W : Type 0} → ℕ → SandboxSystem W → SandboxSystem W
release_sandbox_port port s = record s {
  manager = record (s.manager) { ports = release port s.manager.ports };
}

module _ (host : Host) (unmarshal_inspect : Text → Result (List TemplateInspect)) where
  open host use {World, port_available, time_now}

  abbrev pub take_port : Op (SandboxSystem World) ℕ
  take_port s =
      let (r, ports) = allocate (port_available s.world) s.manager.ports in
      (r, record s { manager = record (s.manager) { ports = ports } })

  -- `sm.runSandboxCommand`
  abbrev pub sandbox_command : List Text → Op (SandboxSystem World) Text
  sandbox_command args s =
      at_world (run_sandbox_command host unmarshal_inspect s.manager.cli_bin args) s

  abbrev new_sandbox_instance :
      Text → Text → ℕ → ℕ → Text → Text → RuntimeSpec → List Text → InstanceInfo
  new_sandbox_instance name pid port now agent workspace spec runtime_env = record {
    id = name;
    name = pid;
    port = port;
    status = created;
    create_at = now;
    backend = runtime_backend_sandbox;
    agent = agent;
    workspace = workspace;
    runtime_spec = record spec {
      sandbox = record (spec.sandbox) { workspace = runtime_workspace_root_from_path workspace };
    };
    runtime_env = runtime_env;
  }

  abbrev store_launch :
      Text → InstanceInfo → SandboxLaunchSpec → Op (SandboxSystem World) InstanceInfo
  store_launch pid instance launch s = (
    ok instance,
    record s {
      manager = record (s.manager) {
        instances = insert pid instance s.manager.instances;
        launch_specs = insert pid launch s.manager.launch_specs;
      };
    },
  )

  unfoldable pub create_args : Text → Text → Text → Text → List Text
  create_args name image agent workspace =
      codes "sandbox"
      ∷ codes "create"
      ∷ codes "--name"
      ∷ name
      ∷ codes "--pull-template"
      ∷ codes "missing"
      ∷ codes "-t"
      ∷ image
      ∷ agent
      ∷ workspace
      ∷ []

  -- `CreateInstance` once it has its port, which each error path releases.
  unfoldable pub provision_sandbox :
      ℕ → Text → RuntimeSpec → List Text → Op (SandboxSystem World) InstanceInfo
  unfolding create_args
  provision_sandbox port pid spec runtime_env = do
    let name = or_text spec.sandbox.name (default_sandbox_name pid)
    workspace ←
        on_error (release_sandbox_port port)
          (at_world (ensure_runtime_workspace_root host pid spec.sandbox.workspace))
    let agent = or_text spec.sandbox.agent (codes "shell")
    on_error (release_sandbox_port port)
        (sandbox_command (create_args name spec.image.name agent workspace))
    now ← (λ s. (ok (time_now s.world), s))
    store_launch pid (new_sandbox_instance name pid port now agent workspace spec runtime_env)
        (launch_spec_of spec runtime_env workspace)

  -- The checks that come before the port.
  unfoldable pub check_template : RuntimeSpec → Op (SandboxSystem World) Done
  check_template spec s =
      (do
        at_world (ensure_sandbox_cli host unmarshal_inspect s.manager.cli_bin)
        at_world (ensure_template_exists host unmarshal_inspect s.manager.cli_bin spec.image))
        s

  unfoldable pub create_sandbox_instance :
      Text → RuntimeSpec → List Text → Op (SandboxSystem World) InstanceInfo
  create_sandbox_instance pid spec runtime_env = do
    check_template spec
    port ← take_port
    provision_sandbox port pid spec runtime_env

  unfoldable pub exec_as_user :
      InstanceInfo → Text → List Text → Text → Bool → Op (SandboxSystem World) Text
  exec_as_user instance user env line login_shell s =
      at_world
        (exec_instance_as_user host unmarshal_inspect s.manager.cli_bin instance user env line
          login_shell)
        s

  unfoldable pub exec_sandbox_instance : Text → List Text → Text → Op (SandboxSystem World) Text
  unfolding exec_as_user
  exec_sandbox_instance pid env line = do
    instance ← get_sandbox_instance pid
    exec_as_user instance [] env line true

  abbrev inspect_launch_image : Text → Op (SandboxSystem World) TemplateInspect
  inspect_launch_image name s =
      at_world (inspect_template_image host unmarshal_inspect s.manager.cli_bin name) s

  abbrev launch_command : TemplateInspect → Op (SandboxSystem World) Text
  launch_command inspect s = (build_sandbox_launch_command inspect.entrypoint inspect.cmd, s)

  -- `startSandboxRuntime` up to the change of the status: the file system is locked before the agent runs.
  unfoldable pub launch_agent :
      Text → InstanceInfo → SandboxLaunchSpec → Op (SandboxSystem World) Text
  unfolding exec_as_user exec_sandbox_instance
  launch_agent pid instance launch = do
    wrapping lockdown_failed
        (exec_as_user instance (codes "0:0") [] build_sandbox_filesystem_lockdown_command false)
    inspect ←
        wrapping inspect_launch_image_failed (inspect_launch_image launch.runtime_spec.image.name)
    line ← wrapping build_launch_command_failed (launch_command inspect)
    exec_sandbox_instance pid (append_runtime_persistence_env launch.runtime_env launch.workspace)
        line

  unfoldable pub start_sandbox_instance : Text → Op (SandboxSystem World) Done
  start_sandbox_instance pid = do
    launch ← get_launch_spec pid
    instance ← get_sandbox_instance pid
    launch_agent pid instance launch
    set_sandbox_status pid instance running

  unfoldable pub stop_sandbox_instance : Text → Op (SandboxSystem World) Done
  stop_sandbox_instance pid = do
    instance ← get_sandbox_instance pid
    sandbox_command (codes "sandbox" ∷ codes "stop" ∷ instance.id ∷ [])
    set_sandbox_status pid instance stopped

  -- A sandbox that is not running counts as stopped.
  unfoldable pub stop_if_running : Text → Op (SandboxSystem World) Done
  stop_if_running id s =
      let (r, s') = sandbox_command (codes "sandbox" ∷ codes "stop" ∷ id ∷ []) s in
      elim r [
        | ok output ↦ (ok tt, s')
        | err e ↦ if is_not_running e then (ok tt, s') else (err e, s')
      ]

  abbrev forget_sandbox : Text → InstanceInfo → Op (SandboxSystem World) Done
  forget_sandbox pid instance s = (
    ok tt,
    record s {
      manager = record (s.manager) {
        ports = release instance.port s.manager.ports;
        instances = delete pid s.manager.instances;
        launch_specs = delete pid s.manager.launch_specs;
      };
    },
  )

  unfoldable pub remove_sandbox_instance : Text → Op (SandboxSystem World) Done
  remove_sandbox_instance pid = do
    instance ← get_sandbox_instance pid
    stop_if_running instance.id
    sandbox_command (codes "sandbox" ∷ codes "rm" ∷ instance.id ∷ [])
    forget_sandbox pid instance
