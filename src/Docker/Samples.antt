-- ===== src/Docker/Samples.antt =====
-- Tests of the Docker manager on a quiet host, and the theorems at concrete calls.
use vmdockerv.Base.{
  [], codes, contains, daemon_unreachable, err, external, false, insert, lookup, node_check_failed,
  none, ok, refl, text_discrete, text_eq, true, update, wrapf, ◌∷◌, ◌≡◌,
}
use vmdockerv.Docker.{
  System, check_node_confinement, create_container, create_instance, ensure_image_exists,
  new_docker_manager, provision, remove_instance, some_contains, tables,
}
use vmdockerv.Docker.Consistency.{Reach-IsConsistent, Reach-TableReach, create, here, next}
use vmdockerv.Docker.Lifecycle.{create_instance-err, create_instance-ok}
use vmdockerv.Docker.NodeLatch.{create_instance-IsConfined}
use vmdockerv.Env.{runtime_workspace_layout_dirs, runtime_workspace_root_from_path}
use vmdockerv.Host.Quiet.{quiet_host, silent_host}
use vmdockerv.NodeCheck.{failures, has_security_option, seccomp_effective}
use vmdockerv.NodeCheck.Verdict.{IsConfined}
use vmdockerv.Paths.{dir, join_paths}
use vmdockerv.Ports.{allocate}
use vmdockerv.Schema.{
  InstanceInfo, RuntimeSpec, SystemInfo, created, image_archive_docker_save_gz,
  image_source_module_data, runtime_backend_docker,
}
use vmdockerv.Tables.{IsConsistent}
use vmdockerv.Tables.Steps.{SameTables, TableReach}
use vmdockerv.Workspace.{ensure_runtime_tmp_dir, ensure_runtime_workspace}

abbrev quiet_start : System (Unit {0})
quiet_start = record { manager = new_docker_manager; world = tt }

abbrev sample_spec : RuntimeSpec
sample_spec = record {
  backend = runtime_backend_docker;
  image = record {
    name = codes "agent";
    sha = codes "sha256:1";
    source = image_source_module_data;
    archive_format = image_archive_docker_save_gz;
  };
  sandbox = record { agent = codes "shell"; workspace = codes "/data"; network = []; name = [] };
}

abbrev sample_instance : InstanceInfo
sample_instance = record {
  id = codes "c1";
  name = codes "p1";
  port = 10000;
  status = created;
  create_at = 0;
  backend = runtime_backend_docker;
  agent = [];
  workspace = codes "/data/sandbox_workspace/p1";
  runtime_spec = sample_spec;
  runtime_env = [];
}

creates :
    (create_instance quiet_host (codes "p1") sample_spec [] quiet_start).0 ≡ ok sample_instance
unfolding create_instance provision check_node_confinement failures seccomp_effective contains
    has_security_option ensure_image_exists some_contains allocate ensure_runtime_workspace
    ensure_runtime_tmp_dir runtime_workspace_layout_dirs create_container join_paths
    runtime_workspace_root_from_path dir text_discrete new_docker_manager
creates = refl

abbrev occupied : System (Unit {0})
occupied = record quiet_start {
  manager = record new_docker_manager {
    instances = (codes "p1", sample_instance) ∷ [];
    ports = record { start = 10000; end = 20000; used = update (λ _. false) 10000 true };
  };
}

nothing_stored : lookup (codes "p1") new_docker_manager.instances ≡ none
unfolding lookup new_docker_manager
nothing_stored = refl

Reach-IsConsistent_example :
    IsConsistent
      (tables (create_instance quiet_host (codes "p1") sample_spec [] quiet_start).1.manager)
Reach-IsConsistent_example =
    Reach-IsConsistent quiet_host
      (next here (create (codes "p1") sample_spec [] (λ i h. nothing_stored)))

Reach-TableReach_example :
    TableReach
      (tables quiet_start.manager)
      (tables (create_instance quiet_host (codes "p1") sample_spec [] quiet_start).1.manager)
Reach-TableReach_example =
    Reach-TableReach quiet_host
      (next here (create (codes "p1") sample_spec [] (λ i h. nothing_stored)))

create_instance-ok_example :
    (create_instance quiet_host (codes "p1") sample_spec [] quiet_start).1.manager.instances
    ≡ insert (codes "p1") sample_instance new_docker_manager.instances
create_instance-ok_example =
    (create_instance-ok quiet_host (codes "p1") sample_spec [] quiet_start sample_instance
      creates).3

silent_create :
    (create_instance silent_host (codes "p1") sample_spec [] quiet_start).0
    ≡ err
        (wrapf node_check_failed (wrapf daemon_unreachable (external (codes "connection refused"))))
unfolding create_instance check_node_confinement new_docker_manager
silent_create = refl

create_instance-err_example :
    SameTables
      (tables new_docker_manager)
      (tables (create_instance silent_host (codes "p1") sample_spec [] quiet_start).1.manager)
create_instance-err_example =
    create_instance-err silent_host (codes "p1") sample_spec [] quiet_start _ silent_create

removes : (remove_instance quiet_host (codes "p1") occupied).0 ≡ ok tt
unfolding remove_instance lookup text_discrete
removes = refl

unchecked : new_docker_manager.node_checked ≡ false
unfolding new_docker_manager
unchecked = refl

abbrev confining : SystemInfo
confining = record {
  server_version = codes "27";
  security_options = codes "name=seccomp,profile=builtin" ∷ [];
  memory_limit = true;
  swap_limit = false;
  pids_limit = true;
}

create_instance-IsConfined_example :
    (i : SystemInfo) × ((quiet_host.daemon_info tt).0 ≡ ok i)
    × IsConfined (text_eq (quiet_host.getenv tt (codes "VMDOCKER_NODE_CHECK_STRICT")) (codes "1")) i
create_instance-IsConfined_example =
    create_instance-IsConfined quiet_host (codes "p1") sample_spec [] quiet_start sample_instance
      unchecked creates

latched : (check_node_confinement quiet_host quiet_start).1.manager.node_checked ≡ true
unfolding check_node_confinement new_docker_manager
latched = refl
