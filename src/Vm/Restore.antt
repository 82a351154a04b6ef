-- ===== src/Vm/Restore.antt =====
-- `Restore` of vmdocker/vmdocker.go: the running runtime is replaced by the one of a checkpoint, and a
-- failure brings back the workspace and the runtime that were there.
pub mod SetAside
pub mod Rollback
mod Samples
use vmdockerv.Base.{
  Done, List, Op, Option, Result, Text, [], checkpoint_before_restore_failed, codes,
  decode_checkpoint_failed, if◌then◌else◌, is_blank, none, not, ok, on_error, prepare_image_failed,
  pure, remove_provisional_failed, require, restore_not_ready, some, text_eq,
  workspace_format_unsupported, wrapping, ◌>>=◌, ◌>>◌, ◌∷◌,
}
use vmdockerv.LaunchConfig.{
  RuntimeLaunchConfig, WorkspaceCheckpoint, checkpoint_workspace_name, current_launch_config,
  resolve_restore_launch_config, workspace_checkpoint_format_v1,
}
use vmdockerv.Manager.{RuntimeManager}
use vmdockerv.Paths.{join_paths}
use vmdockerv.Promotion.{
  Files, Promoted, commit, promote_runtime_workspace, rollback, stage_runtime_workspace_restore,
}
use vmdockerv.RuntimeSpecs.{runtime_spec_from_module_and_spawn_tags}
use vmdockerv.Schema.{InstanceInfo, RuntimeSpec, Tag}
use vmdockerv.Snapshot.{RuntimeWorkspaceCheckpoint}
use vmdockerv.Vm.{
  VmDocker, Wire, choose_manager, in_world, lift, lookup_manager, restore_runtime_launch,
  runtime_checkpoint, runtime_restore, set_instance, tear_down, vm_runtime_manager,
  wait_for_container_ready,
}
use vmdockerv.Vm.Run.{ModuleImages}

-- `restoreRollbackState`.
pub record RestoreRollbackState (World : Type 0) : Type 0 where
  pub instance_info : InstanceInfo
  pub launch : RuntimeLaunchConfig
  pub runtime_state : Text
  pub runtime_manager : RuntimeManager World

module _ {World : Type 0} (wire : Wire World) (goos : Text)
    (docker sandbox : Result (RuntimeManager World)) (pid : Text) (files : Files World)
    (images : ModuleImages World) (get_tags_value_by_default : Text → List Tag → Text → Text)
    (module_id format : Text) (module_tags process_tags : List Tag) (getwd : Op World Text)
    (unmarshal_checkpoint : Text → Result WorkspaceCheckpoint)
    (unmarshal_workspace : Text → Result RuntimeWorkspaceCheckpoint) where
  unfoldable pub restore_previous_runtime : RestoreRollbackState World → Op (VmDocker World) Done
  restore_previous_runtime previous = do
    choose_manager wire goos docker sandbox pid previous.runtime_manager
    restore_runtime_launch wire goos docker sandbox pid previous.runtime_manager previous.launch
        previous.runtime_state

  abbrev pub roll_back_workspace : Option Promoted → VmDocker World → VmDocker World
  roll_back_workspace none v = v
  roll_back_workspace (some p) v = (in_world (rollback files p) v).1

  abbrev pub bring_back : Option (RestoreRollbackState World) → VmDocker World → VmDocker World
  bring_back none v = v
  bring_back (some previous) v = (restore_previous_runtime previous v).1

  -- `handleRestoreFailure`, whose errors are logged only. `previous` is there when the previous runtime
  -- was removed.
  unfoldable pub handle_restore_failure :
      Option Promoted → Option (RestoreRollbackState World) → VmDocker World → VmDocker World
  unfolding restore_previous_runtime
  handle_restore_failure promoted previous v = bring_back previous (roll_back_workspace promoted v)

  unfoldable pub resume_restored : RuntimeManager World → Text → Op (VmDocker World) Done
  resume_restored manager state = do
    in_world (manager.start_instance pid)
    wrapping restore_not_ready (wait_for_container_ready wire goos docker sandbox pid)
    runtime_restore wire goos docker sandbox pid state

  -- The creation of the restored runtime, with the deferred removal.
  unfoldable pub launch_restored :
      RuntimeManager World → RuntimeLaunchConfig → Text → Op (VmDocker World) Done
  unfolding resume_restored
  launch_restored manager launch state = do
    choose_manager wire goos docker sandbox pid manager
    i ← in_world (manager.create_instance pid launch.runtime_spec launch.runtime_env)
    set_instance (some i)
    on_error (tear_down wire goos docker sandbox pid manager) (resume_restored manager state)

  abbrev pub commit_workspace : Promoted → Op (VmDocker World) Done
  commit_workspace p v = (ok tt, (in_world (commit files p) v).1)

  -- `Restore` once the previous runtime is gone.
  unfoldable pub replace_runtime :
      Text
      → Text
      → Option (RestoreRollbackState World)
      → RuntimeManager World
      → RuntimeLaunchConfig
      → Text
      → Op (VmDocker World) Done
  unfolding handle_restore_failure launch_restored
  replace_runtime target staged previous manager launch state = do
    promoted ←
        on_error (handle_restore_failure none previous)
          (in_world (promote_runtime_workspace files target staged))
    on_error (handle_restore_failure (some promoted) previous)
        (launch_restored manager launch state)
    commit_workspace promoted

  -- The running runtime is saved for a rollback, and removed.
  unfoldable pub set_aside : InstanceInfo → Op (VmDocker World) (RestoreRollbackState World)
  set_aside i = do
    state ←
        wrapping checkpoint_before_restore_failed (runtime_checkpoint wire goos docker sandbox pid)
    manager ← vm_runtime_manager wire goos docker sandbox pid
    launch ←
        lift
          (current_launch_config get_tags_value_by_default format module_tags process_tags (some i))
    wrapping remove_provisional_failed (in_world (manager.remove_instance pid))
    set_instance none
    pure (record {
      instance_info = i;
      launch = launch;
      runtime_state = state;
      runtime_manager = manager;
    })

  abbrev pub set_aside_if_any :
      Option InstanceInfo → Op (VmDocker World) (Option (RestoreRollbackState World))
  set_aside_if_any none v = (ok none, v)
  set_aside_if_any (some i) v = (do previous ← set_aside i; pure (some previous)) v

  -- `Restore` once the workspace is staged.
  unfoldable pub replace_running :
      Text → Text → RuntimeManager World → RuntimeLaunchConfig → Text → Op (VmDocker World) Done
  unfolding set_aside replace_runtime
  replace_running target staged manager launch state v =
      (set_aside_if_any v.instance_info >>= λ previous.
      replace_runtime target staged previous manager launch state)
        v

  unfoldable pub restore_target_workspace : RuntimeSpec → Op (VmDocker World) Text
  restore_target_workspace spec v =
      let root =
        if text_eq spec.sandbox.workspace [] then getwd else files.abs spec.sandbox.workspace in
      let from_root =
        in_world (do path ← root; pure (join_paths (path ∷ codes "sandbox_workspace" ∷ pid ∷ [])))
          v in
      elim v.instance_info [
        | none ↦ from_root
        | some i ↦ if not (is_blank i.workspace) then (ok i.workspace, v) else from_root
      ]

  -- `defer cleanupStagedWorkspace()`
  abbrev pub cleaning_up : Text → Op (VmDocker World) Done → Op (VmDocker World) Done
  cleaning_up staged m v =
      ((m v).0, record ((m v).1) { world = (files.remove_all staged (m v).1.world).1 })

  unfoldable pub restore_checkpoint : WorkspaceCheckpoint → Op (VmDocker World) Done
  unfolding restore_target_workspace replace_running
  restore_checkpoint checkpoint = do
    require (text_eq checkpoint.format workspace_checkpoint_format_v1) workspace_format_unsupported
    fallback ← lift (
        runtime_spec_from_module_and_spawn_tags get_tags_value_by_default format module_tags
          process_tags)
    target ← restore_target_workspace fallback
    launch ← lift (resolve_restore_launch_config checkpoint fallback process_tags target)
    manager ← lookup_manager wire goos docker sandbox pid launch.runtime_spec.backend
    wrapping prepare_image_failed
        (in_world (images.ensure_module_image_available module_id launch.runtime_spec.image))
    staged ← in_world (
        stage_runtime_workspace_restore files unmarshal_workspace target
          (checkpoint_workspace_name checkpoint.workspace_checkpoint_name)
          checkpoint.workspace_archive)
    cleaning_up staged (replace_running target staged manager launch checkpoint.runtime_state)

  unfoldable pub restore : Text → Op (VmDocker World) Done
  unfolding restore_checkpoint
  restore snapshot =
      wrapping decode_checkpoint_failed (lift (unmarshal_checkpoint snapshot))
      >>= restore_checkpoint
