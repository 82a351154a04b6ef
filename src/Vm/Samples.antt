-- ===== src/Vm/Samples.antt =====
-- A machine on a quiet host with the Docker manager, whose runtime answers at the second check, and one
-- whose runtime never answers.
use vmdockerv.Base.{
  Done, List, Op, Result, Text, [], codes, contains, delete, err, errorf, external, if◌then◌else◌,
  insert, lookup, none, ok, pure, readiness_timeout, refl, runtime_not_ready, some, text_discrete,
  text_eq, throw, wrapf, ◌↔◌, ◌∷◌, ◌≡◌,
}
use vmdockerv.ContainerEnv.{container_env_from_tags}
use vmdockerv.Docker.{
  System, check_node_confinement, create_container, create_instance, ensure_image_exists,
  new_docker_manager, provision, remove_instance, some_contains, start_instance,
}
use vmdockerv.Docker.Interface.{docker_runtime}
use vmdockerv.Env.{runtime_workspace_layout_dirs, runtime_workspace_root_from_path}
use vmdockerv.Host.Quiet.{quiet_host}
use vmdockerv.LaunchConfig.{RuntimeLaunchConfig}
use vmdockerv.Manager.{RuntimeManager, get_runtime_manager, normalize_runtime_backend}
use vmdockerv.NodeCheck.{failures, has_security_option, seccomp_effective}
use vmdockerv.Paths.{dir, join_paths}
use vmdockerv.Ports.{allocate, release}
use vmdockerv.RuntimeSpecs.{
  find_backend, image_info_from_tags, runtime_backend_from_tags,
  runtime_spec_from_module_and_spawn_tags, runtime_spec_from_tags,
}
use vmdockerv.Schema.{
  InstanceInfo, RuntimeSpec, Tag, created, image_archive_docker_save_gz, image_archive_tag,
  image_id_tag, image_name_tag, image_source_module_data, image_source_tag, module_format,
  runtime_backend_docker,
}
use vmdockerv.Shell.{positive}
use vmdockerv.Vm.{
  VmDocker, Wake, Wire, call_instance_endpoint, call_runtime_endpoint, health_status_code,
  lookup_manager, restore_runtime_launch, resume, tear_down, tick, wait_for_container_ready,
  wait_loop,
}
use vmdockerv.Vm.Checkpoint.{
  archived, checkpoint_workspace_archive, checkpoint_workspace_archive-Relaunched, emptied,
}
use vmdockerv.Vm.Launch.{IsCleared, Relaunched, restore_runtime_launch-err}
use vmdockerv.Vm.Readiness.{BecomesReady, wait_loop-BecomesReady}
use vmdockerv.Vm.Run.{ModuleImages, RunFailure, bring_up, prepare, run, run-err, run_prepared}
use vmdockerv.Workspace.{ensure_runtime_tmp_dir, ensure_runtime_workspace}

abbrev pub QuietWorld : Type 0
QuietWorld = System (Unit {0})

abbrev quiet_wire : Wire QuietWorld
quiet_wire = record {
  http_post = λ port path payload. pure (positive 200, codes "{}");
  mkdir_all = λ path. pure tt;
  write_file = λ path text. pure tt;
  remove_file = λ path w. w;
  payload_name = λ w. codes "runtime-request-1.json";
  wakes = λ w. tick ∷ [];
  spawn_request = λ cu_addr data_text tags. ok data_text;
  restore_request = λ state. ok state;
  decode_response = λ body. ok (codes "ok", codes "s1");
}

-- The deadline comes before a tick.
abbrev pub late_wire : Wire QuietWorld
late_wire = record quiet_wire { wakes = λ w. [] }

abbrev pub manager_of : RuntimeManager QuietWorld
manager_of = docker_runtime quiet_host

abbrev pub no_sandbox : Result (RuntimeManager QuietWorld)
no_sandbox = err (external (codes "sandbox CLI is not available"))

abbrev sample_spec : RuntimeSpec
sample_spec = record {
  backend = runtime_backend_docker;
  image = record {
    name = codes "agent";
    sha = codes "sha256:1";
    source = image_source_module_data;
    archive_format = image_archive_docker_save_gz;
  };
  sandbox = record { agent = codes "shell"; workspace = codes "/data"; network = []; name = [] };
}

abbrev pub sample_launch : RuntimeLaunchConfig
sample_launch = record { runtime_spec = sample_spec; runtime_env = [] }

abbrev pub fresh : VmDocker QuietWorld
fresh = record {
  instance_info = none;
  runtime_manager = none;
  registry = record { docker = none; sandbox = none };
  world = record { manager = new_docker_manager; world = tt };
}

abbrev pub sample_instance : InstanceInfo
sample_instance = record {
  id = codes "c1";
  name = codes "p1";
  port = 10000;
  status = created;
  create_at = 0;
  backend = runtime_backend_docker;
  agent = [];
  workspace = codes "/data/sandbox_workspace/p1";
  runtime_spec = sample_spec;
  runtime_env = [];
}

abbrev pub up_machine : VmDocker QuietWorld
up_machine = record fresh {
  instance_info = some sample_instance;
  world = record {
    manager = record new_docker_manager { instances = (codes "p1", sample_instance) ∷ [] };
    world = tt;
  };
}

abbrev wait_quiet : List Wake → Op (VmDocker QuietWorld) Done
wait_quiet = wait_loop quiet_wire (codes "linux") (ok manager_of) no_sandbox (codes "p1")

waits_once : wait_quiet (tick ∷ []) up_machine ≡ (ok tt, up_machine)
unfolding wait_loop health_status_code call_runtime_endpoint call_instance_endpoint text_discrete
waits_once = refl

wait_loop-BecomesReady_example :
    (wait_quiet (tick ∷ []) up_machine ≡ (ok tt, up_machine))
    ↔ BecomesReady quiet_wire
        (codes "linux")
        (ok manager_of)
        no_sandbox
        (codes "p1")
        (tick ∷ [])
        up_machine
        up_machine
wait_loop-BecomesReady_example =
    wait_loop-BecomesReady quiet_wire (codes "linux") (ok manager_of) no_sandbox (codes "p1")
      (tick ∷ []) up_machine up_machine

late :
    (restore_runtime_launch late_wire
      (codes "linux")
      (ok manager_of)
      no_sandbox
      (codes "p1")
      manager_of
      sample_launch
      (codes "s1")
      fresh).0
    ≡ err (wrapf runtime_not_ready (errorf readiness_timeout))
unfolding restore_runtime_launch resume tear_down wait_for_container_ready wait_loop docker_runtime
    create_instance provision check_node_confinement failures seccomp_effective contains
    has_security_option ensure_image_exists some_contains allocate ensure_runtime_workspace
    ensure_runtime_tmp_dir runtime_workspace_layout_dirs create_container join_paths
    runtime_workspace_root_from_path dir text_discrete new_docker_manager start_instance
    remove_instance lookup insert delete release
late = refl

restore_runtime_launch-err_example :
    IsCleared late_wire
      (codes "linux")
      (ok manager_of)
      no_sandbox
      (codes "p1")
      manager_of
      fresh
      (restore_runtime_launch late_wire
        (codes "linux")
        (ok manager_of)
        no_sandbox
        (codes "p1")
        manager_of
        sample_launch
        (codes "s1")
        fresh).1
restore_runtime_launch-err_example =
    restore_runtime_launch-err late_wire (codes "linux") (ok manager_of) no_sandbox (codes "p1")
      manager_of sample_launch (codes "s1") fresh
      (wrapf runtime_not_ready (errorf readiness_timeout)) refl late

abbrev pub present_images : ModuleImages QuietWorld
present_images = record {
  ensure_module_image_available = λ module_id image. pure tt;
  seed_workspace_from_module = λ module_id workspace archive_format. pure tt;
}

abbrev pub tag_value : Text → List Tag → Text → Text
tag_value name tags default =
    if text_eq name image_name_tag
    then codes "agent"
    else if text_eq name image_id_tag
    then codes "sha256:1"
    else if text_eq name image_source_tag
    then image_source_module_data
    else if text_eq name image_archive_tag
    then image_archive_docker_save_gz
    else default

abbrev late_run : Op (VmDocker QuietWorld) Done
late_run =
    run late_wire (codes "linux") (ok manager_of) no_sandbox (codes "p1") present_images tag_value
      (codes "m1") module_format [] (codes "cu") [] []

late_runs : (late_run fresh).0 ≡ err (wrapf runtime_not_ready (errorf readiness_timeout))
unfolding run prepare run_prepared bring_up lookup_manager get_runtime_manager
    normalize_runtime_backend runtime_spec_from_module_and_spawn_tags runtime_spec_from_tags
    image_info_from_tags runtime_backend_from_tags find_backend container_env_from_tags tear_down
    wait_for_container_ready wait_loop docker_runtime create_instance provision
    check_node_confinement failures seccomp_effective contains has_security_option
    ensure_image_exists some_contains allocate ensure_runtime_workspace ensure_runtime_tmp_dir
    runtime_workspace_layout_dirs create_container join_paths runtime_workspace_root_from_path dir
    text_discrete new_docker_manager start_instance remove_instance lookup insert delete release
late_runs = refl

run-err_example :
    RunFailure late_wire
      (codes "linux")
      (ok manager_of)
      no_sandbox
      (codes "p1")
      present_images
      tag_value
      (codes "m1")
      module_format
      []
      []
      fresh
      (late_run fresh).1
run-err_example =
    run-err late_wire (codes "linux") (ok manager_of) no_sandbox (codes "p1") present_images
      tag_value (codes "m1") module_format [] (codes "cu") [] [] fresh
      (wrapf runtime_not_ready (errorf readiness_timeout)) refl late_runs

abbrev no_archive : Text → Op QuietWorld Text
no_archive workspace = throw (external (codes "disk full"))

removes : (manager_of.remove_instance (codes "p1") up_machine.world).0 ≡ ok tt
unfolding docker_runtime remove_instance lookup text_discrete
removes = refl

checkpoint_workspace_archive-Relaunched_example :
    Relaunched quiet_wire
      (codes "linux")
      (ok manager_of)
      no_sandbox
      (codes "p1")
      manager_of
      sample_launch
      (codes "s1")
      (archived quiet_wire
        (codes "linux")
        (ok manager_of)
        no_sandbox
        (codes "p1")
        no_archive
        (λ p. ok p.archive)
        []
        (codes "/data/sandbox_workspace/p1")
        (emptied quiet_wire
          (codes "linux")
          (ok manager_of)
          no_sandbox
          (codes "p1")
          no_archive
          (λ p. ok p.archive)
          manager_of
          up_machine))
      (checkpoint_workspace_archive quiet_wire
        (codes "linux")
        (ok manager_of)
        no_sandbox
        (codes "p1")
        no_archive
        (λ p. ok p.archive)
        manager_of
        []
        sample_launch
        (codes "s1")
        up_machine).1
checkpoint_workspace_archive-Relaunched_example =
    checkpoint_workspace_archive-Relaunched quiet_wire (codes "linux") (ok manager_of) no_sandbox
      (codes "p1") no_archive (λ p. ok p.archive) manager_of [] sample_launch (codes "s1")
      up_machine sample_instance tt refl removes
