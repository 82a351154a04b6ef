-- ===== src/Sandbox/Samples.antt =====
-- Tests of the sandbox manager on a quiet host, whose image has an entrypoint, and the theorems there.
use vmdockerv.Base.{
  List, Result, Text, [], cli_unavailable, codes, contains, delete, err, external, false, insert,
  lookup, none, ok, refl, some, text_discrete, trim_space, true, wrapf, ◌∷◌, ◌≡◌,
}
use vmdockerv.Env.{runtime_workspace_root_from_path}
use vmdockerv.Host.{Host}
use vmdockerv.Host.Quiet.{quiet_host}
use vmdockerv.Paths.{dir, join_paths}
use vmdockerv.Ports.{allocate}
use vmdockerv.Sandbox.{
  SandboxManager, SandboxSystem, check_template, create_sandbox_instance, default_sandbox_name,
  new_sandbox_manager, provision_sandbox, sandbox_tables,
}
use vmdockerv.Sandbox.Consistency.{
  HasLaunchSpecs, SandboxReach, SandboxReach-IsConsistent, SandboxReach-TableReach, after, at_start,
  create_sandbox,
}
use vmdockerv.Sandbox.Lifecycle.{create_sandbox_instance-err}
use vmdockerv.SandboxCli.{TemplateInspect, ensure_sandbox_cli, ensure_template_exists}
use vmdockerv.Schema.{
  InstanceInfo, RuntimeSpec, created, image_archive_docker_save_gz, image_source_module_data,
  runtime_backend_sandbox,
}
use vmdockerv.Tables.{IsConsistent, holds_port}
use vmdockerv.Tables.Steps.{SameTables, TableReach}
use vmdockerv.Workspace.{ensure_runtime_workspace_root}

abbrev one_inspect : Text → Result (List TemplateInspect)
one_inspect output = ok (
    record { id = codes "sha256:1"; repo_digests = []; entrypoint = codes "/agent" ∷ []; cmd = [] }
    ∷ [])

abbrev spec_of_module : RuntimeSpec
spec_of_module = record {
  backend = runtime_backend_sandbox;
  image = record {
    name = codes "agent";
    sha = codes "sha256:1";
    source = image_source_module_data;
    archive_format = image_archive_docker_save_gz;
  };
  sandbox = record { agent = []; workspace = codes "/data"; network = []; name = [] };
}

abbrev start_state : SandboxSystem (Unit {0})
start_state = record { manager = new_sandbox_manager none; world = tt }

abbrev stored_sandbox : InstanceInfo
stored_sandbox = record {
  id = codes "hymatrix_p1";
  name = codes "p1";
  port = 10000;
  status = created;
  create_at = 0;
  backend = runtime_backend_sandbox;
  agent = codes "shell";
  workspace = codes "/data/sandbox_workspace/p1";
  runtime_spec = spec_of_module;
  runtime_env = [];
}

creates_sandbox :
    (create_sandbox_instance quiet_host one_inspect (codes "p1") spec_of_module [] start_state).0
    ≡ ok stored_sandbox
unfolding create_sandbox_instance check_template ensure_sandbox_cli ensure_template_exists
    provision_sandbox contains allocate ensure_runtime_workspace_root join_paths
    runtime_workspace_root_from_path dir text_discrete new_sandbox_manager default_sandbox_name
    trim_space
creates_sandbox = refl

no_such_pid : lookup (codes "p1") (new_sandbox_manager none).instances ≡ none
unfolding lookup new_sandbox_manager
no_such_pid = refl

abbrev one_call :
    SandboxReach quiet_host one_inspect start_state
      (create_sandbox_instance quiet_host one_inspect (codes "p1") spec_of_module [] start_state).1
one_call = after at_start (create_sandbox (codes "p1") spec_of_module [] (λ i h. no_such_pid))

SandboxReach-IsConsistent_example :
    IsConsistent (
      sandbox_tables
        (create_sandbox_instance quiet_host one_inspect
          (codes "p1")
          spec_of_module
          []
          start_state).1.manager)
    × HasLaunchSpecs
        (create_sandbox_instance quiet_host one_inspect
          (codes "p1")
          spec_of_module
          []
          start_state).1.manager
SandboxReach-IsConsistent_example = SandboxReach-IsConsistent quiet_host one_inspect none one_call

SandboxReach-TableReach_example : TableReach (sandbox_tables start_state.manager) (
    sandbox_tables
      (create_sandbox_instance quiet_host one_inspect
        (codes "p1")
        spec_of_module
        []
        start_state).1.manager)
SandboxReach-TableReach_example = SandboxReach-TableReach quiet_host one_inspect one_call

abbrev no_cli_host : Host
no_cli_host = record quiet_host {
  run_command = λ program args w. (([], some (codes "exit status 1")), w);
}

no_cli :
    (create_sandbox_instance no_cli_host one_inspect (codes "p1") spec_of_module [] start_state).0
    ≡ err (wrapf cli_unavailable (external (codes "exit status 1")))
unfolding create_sandbox_instance check_template ensure_sandbox_cli
no_cli = refl

create_sandbox_instance-err_example :
    SameTables (sandbox_tables start_state.manager) (
      sandbox_tables
        (create_sandbox_instance no_cli_host one_inspect
          (codes "p1")
          spec_of_module
          []
          start_state).1.manager)
    × ((create_sandbox_instance no_cli_host one_inspect
          (codes "p1")
          spec_of_module
          []
          start_state).1.manager.launch_specs
        ≡ start_state.manager.launch_specs)
create_sandbox_instance-err_example =
    create_sandbox_instance-err no_cli_host one_inspect (codes "p1") spec_of_module [] start_state
      (wrapf cli_unavailable (external (codes "exit status 1"))) no_cli

-- A second sandbox under the same pid, with a name of its own, takes the first one's place in the table;
-- the first one's port stays marked, and no instance holds it.
abbrev other_name : RuntimeSpec
other_name = record spec_of_module {
  sandbox = record (spec_of_module.sandbox) { name = codes "other" };
}

abbrev created_twice : SandboxManager
created_twice =
    (create_sandbox_instance quiet_host one_inspect (codes "p1") other_name []
      (create_sandbox_instance quiet_host one_inspect (codes "p1") spec_of_module []
        start_state).1).1.manager

leaked_port :
    (created_twice.ports.used 10000 ≡ true) × (holds_port 10000 created_twice.instances ≡ false)
unfolding create_sandbox_instance check_template ensure_sandbox_cli ensure_template_exists
    provision_sandbox contains allocate ensure_runtime_workspace_root join_paths
    runtime_workspace_root_from_path dir text_discrete new_sandbox_manager default_sandbox_name
    trim_space insert delete
leaked_port = (refl, refl)
