-- ===== src/Vm/Checkpoint.antt =====
-- `Checkpoint` of vmdocker/vmdocker.go: the runtime is removed while its workspace is archived, and is
-- launched again.
use vmdockerv.Base.{
  Done, Error, Op, Result, Text, ap, arith, err, none, ok, pure, refl, remove_runtime_failed,
  restore_after_checkpoint_failed, restore_current_runtime_failed, some, subst, sym, wrapf,
  wrapping, ◌>>=◌, ◌>>◌, ◌∙◌, ◌≡◌,
}
use vmdockerv.LaunchConfig.{RuntimeLaunchConfig}
use vmdockerv.Manager.{RuntimeManager}
use vmdockerv.Schema.{InstanceInfo}
use vmdockerv.Snapshot.{RuntimeWorkspaceCheckpoint, checkpoint_runtime_workspace}
use vmdockerv.Vm.{VmDocker, Wire, in_world, instance_of_vm, restore_runtime_launch, set_instance}
use vmdockerv.Vm.Launch.{Relaunched, launch-Relaunched}

module _ {World : Type 0} (wire : Wire World) (goos : Text)
    (docker sandbox : Result (RuntimeManager World)) (pid : Text)
    (compress_directory : Text → Op World Text)
    (marshal : RuntimeWorkspaceCheckpoint → Result Text) where
  -- The archive's error when the relaunch works; both when it fails.
  unfoldable pub restore_current_runtime :
      RuntimeManager World → RuntimeLaunchConfig → Text → Error → Op (VmDocker World) Text
  restore_current_runtime manager launch state cause v =
      let (r, v') = restore_runtime_launch wire goos docker sandbox pid manager launch state v in
      elim r [
        | ok d ↦ (err cause, v')
        | err e ↦ (err (wrapf restore_current_runtime_failed cause), v')
      ]

  unfoldable pub relaunch :
      RuntimeManager World → RuntimeLaunchConfig → Text → Text → Op (VmDocker World) Text
  relaunch manager launch state archive = do
    wrapping restore_after_checkpoint_failed
        (restore_runtime_launch wire goos docker sandbox pid manager launch state)
    pure archive

  -- The runtime is gone; its workspace is archived, and it is launched again either way.
  unfoldable pub archive_and_relaunch :
      RuntimeManager World → Text → RuntimeLaunchConfig → Text → Text → Op (VmDocker World) Text
  unfolding restore_current_runtime relaunch
  archive_and_relaunch manager checkpoint_name launch state workspace v =
      let (r, v') =
        in_world (checkpoint_runtime_workspace compress_directory marshal workspace checkpoint_name)
          v in
      elim r [
        | ok archive ↦ relaunch manager launch state archive v'
        | err e ↦ restore_current_runtime manager launch state e v'
      ]

  unfoldable pub checkpoint_workspace_archive :
      RuntimeManager World → Text → RuntimeLaunchConfig → Text → Op (VmDocker World) Text
  unfolding archive_and_relaunch
  checkpoint_workspace_archive manager checkpoint_name launch state = do
    i ← instance_of_vm
    wrapping remove_runtime_failed (in_world (manager.remove_instance pid))
    set_instance none
    archive_and_relaunch manager checkpoint_name launch state i.workspace

  -- The state in which the runtime is launched again.
  abbrev pub archived : Text → Text → VmDocker World → VmDocker World
  archived checkpoint_name workspace v =
      (in_world (checkpoint_runtime_workspace compress_directory marshal workspace checkpoint_name)
        v).1

  archive_and_relaunch_launches :
      (manager : RuntimeManager World) (checkpoint_name : Text) (launch : RuntimeLaunchConfig)
      (state workspace : Text) (v : VmDocker World)
      → (archive_and_relaunch manager checkpoint_name launch state workspace v).1
        ≡ (restore_runtime_launch wire goos docker sandbox pid manager launch state
            (archived checkpoint_name workspace v)).1
  unfolding archive_and_relaunch restore_current_runtime relaunch
  archive_and_relaunch_launches manager checkpoint_name launch state workspace v = ground arith

  -- The machine without its instance, which the manager has removed.
  abbrev pub emptied : RuntimeManager World → VmDocker World → VmDocker World
  emptied manager v = record v {
    instance_info = none;
    world = (manager.remove_instance pid v.world).1;
  }

  archive_after_removal :
      (manager : RuntimeManager World) (checkpoint_name : Text) (launch : RuntimeLaunchConfig)
      (state : Text) (v : VmDocker World) (i : InstanceInfo) (d : Done)
      → v.instance_info ≡ some i
      → (manager.remove_instance pid v.world).0 ≡ ok d
      → checkpoint_workspace_archive manager checkpoint_name launch state v
        ≡ archive_and_relaunch manager checkpoint_name launch state i.workspace (emptied manager v)
  unfolding checkpoint_workspace_archive
  archive_after_removal manager checkpoint_name launch state v i d a p = ground (arith, a, p)

  -- A checkpoint that has removed the runtime ends with its launch on the machine without an instance,
  -- whether the archive was written or not: it is up again, or that launch failed and was cleared.
  pub checkpoint_workspace_archive-Relaunched :
      (manager : RuntimeManager World) (checkpoint_name : Text) (launch : RuntimeLaunchConfig)
      (state : Text) (v : VmDocker World) (i : InstanceInfo) (d : Done)
      → v.instance_info ≡ some i
      → (manager.remove_instance pid v.world).0 ≡ ok d
      → Relaunched wire goos docker sandbox pid manager launch state
          (archived checkpoint_name i.workspace (emptied manager v))
          (checkpoint_workspace_archive manager checkpoint_name launch state v).1
  checkpoint_workspace_archive-Relaunched manager checkpoint_name launch state v i d a p =
      subst
        (λ u.
          Relaunched wire goos docker sandbox pid manager launch state
            (archived checkpoint_name i.workspace (emptied manager v)) u)
        (sym (
          ap (λ r. r.1) (archive_after_removal manager checkpoint_name launch state v i d a p)
          ∙ archive_and_relaunch_launches manager checkpoint_name launch state i.workspace
              (emptied manager v)))
        (launch-Relaunched wire goos docker sandbox pid manager launch state
          (archived checkpoint_name i.workspace (emptied manager v)) refl)
