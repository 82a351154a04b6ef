-- ===== src/Vm/Restore/Samples.antt =====
-- A restore whose runtime never answers, after the running one was removed.
use vmdockerv.Base.{
  Done, Op, Result, Text, [], codes, contains, delete, err, errorf, external, insert, lookup, ok,
  pure, readiness_timeout, refl, restore_not_ready, some, text_discrete, trim_space, wrapf, ◌∷◌,
  ◌≡◌,
}
use vmdockerv.Docker.{
  check_node_confinement, create_container, create_instance, ensure_image_exists,
  new_docker_manager, provision, remove_instance, some_contains, start_instance,
}
use vmdockerv.Docker.Interface.{docker_runtime}
use vmdockerv.Env.{runtime_workspace_layout_dirs, runtime_workspace_root_from_path}
use vmdockerv.LaunchConfig.{
  WorkspaceCheckpoint, current_launch_config, has_runtime_spec,
  normalize_runtime_spec_workspace_root,
}
use vmdockerv.NodeCheck.{failures, has_security_option, seccomp_effective}
use vmdockerv.Paths.{clean, dir, join_paths}
use vmdockerv.Ports.{allocate, release}
use vmdockerv.Promotion.{
  Files, absent, activate, back_up, normalize_runtime_workspace_path, promote_runtime_workspace,
  swap,
}
use vmdockerv.Schema.{InstanceInfo, module_format}
use vmdockerv.Snapshot.{RuntimeWorkspaceCheckpoint}
use vmdockerv.Vm.{
  VmDocker, call_instance_endpoint, call_runtime_endpoint, runtime_checkpoint, tear_down,
  vm_runtime_manager, wait_for_container_ready, wait_loop,
}
use vmdockerv.Vm.Restore.{
  RestoreRollbackState, handle_restore_failure, launch_restored, replace_running, replace_runtime,
  resume_restored, set_aside,
}
use vmdockerv.Vm.Restore.Rollback.{IsBroughtBack, replace_running-err}
use vmdockerv.Vm.Restore.SetAside.{IsSaved}
use vmdockerv.Vm.Samples.{
  QuietWorld, late_wire, manager_of, no_sandbox, present_images, sample_instance, sample_launch,
  tag_value, up_machine,
}
use vmdockerv.Workspace.{ensure_runtime_tmp_dir, ensure_runtime_workspace}

abbrev still_files : Files QuietWorld
still_files = record {
  abs = λ path. pure path;
  stat = λ path w. absent;
  rename = λ a b. pure tt;
  remove_all = λ path. pure tt;
  mkdir_temp = λ parent prefix. pure (join_paths (parent ∷ prefix ∷ []));
  now_text = λ w. codes "1";
  decompress_to_directory = λ archive path. pure tt;
  ensure_layout = λ path. pure tt;
}

abbrev no_checkpoint : Text → Result WorkspaceCheckpoint
no_checkpoint t = err (external (codes "syntax error"))

abbrev no_workspace : Text → Result RuntimeWorkspaceCheckpoint
no_workspace t = err (external (codes "syntax error"))

abbrev running : VmDocker QuietWorld
running = record up_machine { runtime_manager = some manager_of }

abbrev previous_runtime : RestoreRollbackState QuietWorld
previous_runtime = record {
  instance_info = sample_instance;
  launch = sample_launch;
  runtime_state = codes "s1";
  runtime_manager = manager_of;
}

abbrev set_aside_late : InstanceInfo → Op (VmDocker QuietWorld) (RestoreRollbackState QuietWorld)
set_aside_late =
    set_aside late_wire (codes "linux") (ok manager_of) no_sandbox (codes "p1") still_files
      present_images tag_value (codes "m1") module_format [] [] (pure (codes "/srv")) no_checkpoint
      no_workspace

is_saved : (set_aside_late sample_instance running).0 ≡ ok previous_runtime
unfolding set_aside runtime_checkpoint call_runtime_endpoint call_instance_endpoint
    vm_runtime_manager current_launch_config docker_runtime remove_instance lookup text_discrete
    has_runtime_spec trim_space normalize_runtime_spec_workspace_root
    runtime_workspace_root_from_path dir
is_saved = refl

abbrev replaces_late : Op (VmDocker QuietWorld) Done
replaces_late =
    replace_running late_wire (codes "linux") (ok manager_of) no_sandbox (codes "p1") still_files
      present_images tag_value (codes "m1") module_format [] [] (pure (codes "/srv")) no_checkpoint
      no_workspace (codes "/data/sandbox_workspace/p1") (codes "/data/staged") manager_of
      sample_launch (codes "s2")

late_replacement :
    (replaces_late running).0 ≡ err (wrapf restore_not_ready (errorf readiness_timeout))
unfolding set_aside runtime_checkpoint call_runtime_endpoint call_instance_endpoint
    vm_runtime_manager current_launch_config replace_running replace_runtime launch_restored
    resume_restored handle_restore_failure promote_runtime_workspace
    normalize_runtime_workspace_path swap back_up activate clean tear_down wait_for_container_ready
    wait_loop docker_runtime create_instance provision check_node_confinement failures
    seccomp_effective contains has_security_option ensure_image_exists some_contains allocate
    ensure_runtime_workspace ensure_runtime_tmp_dir runtime_workspace_layout_dirs create_container
    join_paths runtime_workspace_root_from_path dir text_discrete new_docker_manager start_instance
    remove_instance lookup insert delete release has_runtime_spec trim_space
    normalize_runtime_spec_workspace_root
late_replacement = refl

replace_running-err_example :
    IsSaved late_wire
      (codes "linux")
      (ok manager_of)
      no_sandbox
      (codes "p1")
      still_files
      present_images
      tag_value
      (codes "m1")
      module_format
      []
      []
      (pure (codes "/srv"))
      no_checkpoint
      no_workspace
      sample_instance
      previous_runtime
      running
      (set_aside_late sample_instance running).1
    × IsBroughtBack late_wire
        (codes "linux")
        (ok manager_of)
        no_sandbox
        (codes "p1")
        still_files
        present_images
        tag_value
        (codes "m1")
        module_format
        []
        []
        (pure (codes "/srv"))
        no_checkpoint
        no_workspace
        (codes "/data/sandbox_workspace/p1")
        (codes "/data/staged")
        (codes "s2")
        previous_runtime
        manager_of
        sample_launch
        (set_aside_late sample_instance running).1
        (replaces_late running).1
replace_running-err_example =
    replace_running-err late_wire (codes "linux") (ok manager_of) no_sandbox (codes "p1")
      still_files present_images tag_value (codes "m1") module_format [] [] (pure (codes "/srv"))
      no_checkpoint no_workspace (codes "/data/sandbox_workspace/p1") (codes "/data/staged")
      (codes "s2") sample_instance previous_runtime manager_of sample_launch running
      (wrapf restore_not_ready (errorf readiness_timeout)) refl is_saved late_replacement
