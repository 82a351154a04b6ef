-- ===== src/Vm/Restore/Rollback.antt =====
-- A restore that fails after the running runtime was removed.
use vmdockerv.Base.{
  Done, Error, List, Op, Option, Result, Result-cases, Text, ap, arith, err, inl, inr, none, ok,
  refl, restore_not_ready, some, subst, sym, ◌∙◌, ◌≡◌,
}
use vmdockerv.LaunchConfig.{RuntimeLaunchConfig, WorkspaceCheckpoint}
use vmdockerv.Manager.{RuntimeManager}
use vmdockerv.Promotion.{Files, Promoted, promote_runtime_workspace, rollback}
use vmdockerv.Schema.{InstanceInfo, Tag}
use vmdockerv.Snapshot.{RuntimeWorkspaceCheckpoint}
use vmdockerv.Vm.{VmDocker, Wire, in_world, restore_runtime_launch, tear_down}
use vmdockerv.Vm.Frame.{
  Keeps, Keeps-bind, Keeps-in_world, Keeps-wrapping, runtime_restore-Keeps,
  wait_for_container_ready-Keeps,
}
use vmdockerv.Vm.Launch.{Relaunched, launch-Relaunched, tear_down_info}
use vmdockerv.Vm.Restore.{
  RestoreRollbackState, handle_restore_failure, launch_restored, replace_running, replace_runtime,
  restore_previous_runtime, resume_restored, set_aside,
}
use vmdockerv.Vm.Restore.SetAside.{IsSaved, set_aside-IsSaved}
use vmdockerv.Vm.Run.{ModuleImages}

module _ {World : Type 0} (wire : Wire World) (goos : Text)
    (docker sandbox : Result (RuntimeManager World)) (pid : Text) (files : Files World)
    (images : ModuleImages World) (get_tags_value_by_default : Text → List Tag → Text → Text)
    (module_id format : Text) (module_tags process_tags : List Tag) (getwd : Op World Text)
    (unmarshal_checkpoint : Text → Result WorkspaceCheckpoint)
    (unmarshal_workspace : Text → Result RuntimeWorkspaceCheckpoint) where
  abbrev handle :
      Option Promoted → Option (RestoreRollbackState World) → VmDocker World → VmDocker World
  handle =
      handle_restore_failure wire goos docker sandbox pid files images get_tags_value_by_default
        module_id format module_tags process_tags getwd unmarshal_checkpoint unmarshal_workspace

  abbrev pub launches : RuntimeManager World → RuntimeLaunchConfig → Text → Op (VmDocker World) Done
  launches =
      launch_restored wire goos docker sandbox pid files images get_tags_value_by_default module_id
        format module_tags process_tags getwd unmarshal_checkpoint unmarshal_workspace

  abbrev resumes : RuntimeManager World → Text → Op (VmDocker World) Done
  resumes =
      resume_restored wire goos docker sandbox pid files images get_tags_value_by_default module_id
        format module_tags process_tags getwd unmarshal_checkpoint unmarshal_workspace

  abbrev replaces :
      Text
      → Text
      → Option (RestoreRollbackState World)
      → RuntimeManager World
      → RuntimeLaunchConfig
      → Text
      → Op (VmDocker World) Done
  replaces =
      replace_runtime wire goos docker sandbox pid files images get_tags_value_by_default module_id
        format module_tags process_tags getwd unmarshal_checkpoint unmarshal_workspace

  -- The machine in which the previous runtime is launched again: the workspace is rolled back if it was
  -- promoted.
  abbrev pub ready_again :
      Option Promoted → RestoreRollbackState World → VmDocker World → VmDocker World
  ready_again none previous u = record u { runtime_manager = some previous.runtime_manager }
  ready_again (some p) previous u = record u {
    runtime_manager = some previous.runtime_manager;
    world = (rollback files p u.world).1;
  }

  handle_launches :
      (promoted : Option Promoted) (previous : RestoreRollbackState World) (u : VmDocker World)
      → handle promoted (some previous) u
        ≡ (restore_runtime_launch wire goos docker sandbox pid previous.runtime_manager
            previous.launch previous.runtime_state
            (ready_again promoted previous u)).1
  unfolding handle_restore_failure restore_previous_runtime
  handle_launches none previous u = refl
  handle_launches (some p) previous u = refl

  ready_again_info :
      (promoted : Option Promoted) (previous : RestoreRollbackState World) (u : VmDocker World)
      → (ready_again promoted previous u).instance_info ≡ u.instance_info
  ready_again_info none previous u = refl
  ready_again_info (some p) previous u = refl

  handle-Relaunched :
      (promoted : Option Promoted) (previous : RestoreRollbackState World) (u : VmDocker World)
      → u.instance_info ≡ none
      → Relaunched wire goos docker sandbox pid previous.runtime_manager previous.launch
          previous.runtime_state
          (ready_again promoted previous u)
          (handle promoted (some previous) u)
  handle-Relaunched promoted previous u a = rw (handle_launches promoted previous u) (
      launch-Relaunched wire goos docker sandbox pid previous.runtime_manager previous.launch
        previous.runtime_state (ready_again promoted previous u)
        (ready_again_info promoted previous u ∙ a))

  resume_restored-Keeps :
      (manager : RuntimeManager World) (state : Text) → Keeps (resumes manager state)
  unfolding resume_restored
  resume_restored-Keeps manager state =
      Keeps-bind (Keeps-in_world (manager.start_instance pid)) λ d.
        Keeps-bind
          (Keeps-wrapping restore_not_ready
            (wait_for_container_ready-Keeps wire goos docker sandbox pid))
          λ d'. runtime_restore-Keeps wire goos docker sandbox pid state

  launch_restored_failed :
      (manager : RuntimeManager World) (launch : RuntimeLaunchConfig) (state : Text)
      (u : VmDocker World) (i : InstanceInfo) (e : Error)
      → (manager.create_instance pid launch.runtime_spec launch.runtime_env u.world).0 ≡ ok i
      → (launches manager launch state u).0 ≡ err e
      → (launches manager launch state u).1
        ≡ tear_down wire goos docker sandbox pid manager
            (resumes manager state (record u {
              instance_info = some i;
              runtime_manager = some manager;
              world =
                  (manager.create_instance pid launch.runtime_spec launch.runtime_env u.world).1;
            })).1
  unfolding launch_restored
  launch_restored_failed manager launch state u i e p h = ground (arith, p)

  launch_restored_empty :
      (manager : RuntimeManager World) (launch : RuntimeLaunchConfig) (state : Text)
      (u : VmDocker World) (e : Error)
      → u.instance_info ≡ none
      → (launches manager launch state u).0 ≡ err e
      → (launches manager launch state u).1.instance_info ≡ none
  unfolding launch_restored
  launch_restored_empty manager launch state u e a h =
      elim (Result-cases
        (manager.create_instance pid launch.runtime_spec launch.runtime_env u.world).0) [
          | inl (i, p) ↦
              ap (λ x. x.instance_info) (launch_restored_failed manager launch state u i e p h)
              ∙ tear_down_info wire goos docker sandbox pid manager _
          | inr (f, p) ↦ ground (arith, p)
        ]

  abbrev pub promotes : Text → Text → Op (VmDocker World) Promoted
  promotes target staged = in_world (promote_runtime_workspace files target staged)

  replace_unpromoted :
      (target staged state : Text) (previous : Option (RestoreRollbackState World))
      (manager : RuntimeManager World) (launch : RuntimeLaunchConfig) (v : VmDocker World)
      (f : Error)
      → (promotes target staged v).0 ≡ err f
      → (replaces target staged previous manager launch state v).1
        ≡ handle none previous (promotes target staged v).1
  unfolding replace_runtime
  replace_unpromoted target staged state previous manager launch v f p = ground (arith, p)

  replace_promoted :
      (target staged state : Text) (previous : Option (RestoreRollbackState World))
      (manager : RuntimeManager World) (launch : RuntimeLaunchConfig) (v : VmDocker World)
      (p : Promoted) (e : Error)
      → (promotes target staged v).0 ≡ ok p
      → (replaces target staged previous manager launch state v).0 ≡ err e
      → ((launches manager launch state (promotes target staged v).1).0 ≡ err e)
        × ((replaces target staged previous manager launch state v).1
            ≡ handle
                (some p)
                previous
                (launches manager launch state (promotes target staged v).1).1)
  unfolding replace_runtime
  replace_promoted target staged state previous manager launch v p e q h = ground (arith, q)

  -- The replacement of the runtime of `v` has failed, and the previous runtime was launched again, in the
  -- machine after a failed promotion, or in that after a failed launch with the workspace rolled back.
  pub data IsBroughtBack (target staged state : Text) (previous : RestoreRollbackState World)
      (manager : RuntimeManager World) (launch : RuntimeLaunchConfig) (v v' : VmDocker World)
      : Type 0 where
    not_promoted :
        (f : Error)
        → (promotes target staged v).0 ≡ err f
        → Relaunched wire goos docker sandbox pid previous.runtime_manager previous.launch
            previous.runtime_state
            (ready_again none previous (promotes target staged v).1)
            v'
        → IsBroughtBack target staged state previous manager launch v v'
    rolled_back :
        (p : Promoted)
        → (promotes target staged v).0 ≡ ok p
        → Relaunched wire goos docker sandbox pid previous.runtime_manager previous.launch
            previous.runtime_state
            (ready_again
              (some p)
              previous
              (launches manager launch state (promotes target staged v).1).1)
            v'
        → IsBroughtBack target staged state previous manager launch v v'

  brought_back :
      (target staged state : Text) (previous : RestoreRollbackState World)
      (manager : RuntimeManager World) (launch : RuntimeLaunchConfig) (v : VmDocker World)
      (e : Error)
      → v.instance_info ≡ none
      → (replaces target staged (some previous) manager launch state v).0 ≡ err e
      → IsBroughtBack target staged state previous manager launch v
          (replaces target staged (some previous) manager launch state v).1
  brought_back target staged state previous manager launch v e a h =
      elim (Result-cases (promotes target staged v).0) [
        | inl (p, q) ↦
            let failed =
              replace_promoted target staged state (some previous) manager launch v p e q h in
            subst (λ u. IsBroughtBack target staged state previous manager launch v u)
              (sym failed.1)
              (rolled_back p q (
                handle-Relaunched (some p) previous
                  (launches manager launch state (promotes target staged v).1).1
                  (launch_restored_empty manager launch state (promotes target staged v).1 e a
                    failed.0)))
        | inr (f, q) ↦
            subst (λ u. IsBroughtBack target staged state previous manager launch v u)
              (sym (replace_unpromoted target staged state (some previous) manager launch v f q))
              (not_promoted f q (handle-Relaunched none previous (promotes target staged v).1 a))
      ]

  abbrev pub saves : InstanceInfo → Op (VmDocker World) (RestoreRollbackState World)
  saves =
      set_aside wire goos docker sandbox pid files images get_tags_value_by_default module_id format
        module_tags process_tags getwd unmarshal_checkpoint unmarshal_workspace

  abbrev pub WasSaved :
      InstanceInfo → RestoreRollbackState World → VmDocker World → VmDocker World → Type 0
  WasSaved =
      IsSaved wire goos docker sandbox pid files images get_tags_value_by_default module_id format
        module_tags process_tags getwd unmarshal_checkpoint unmarshal_workspace

  abbrev pub restores :
      Text → Text → RuntimeManager World → RuntimeLaunchConfig → Text → Op (VmDocker World) Done
  restores =
      replace_running wire goos docker sandbox pid files images get_tags_value_by_default module_id
        format module_tags process_tags getwd unmarshal_checkpoint unmarshal_workspace

  restores-replaces :
      (target staged state : Text) (i : InstanceInfo) (previous : RestoreRollbackState World)
      (manager : RuntimeManager World) (launch : RuntimeLaunchConfig) (v : VmDocker World)
      → v.instance_info ≡ some i
      → (saves i v).0 ≡ ok previous
      → restores target staged manager launch state v
        ≡ replaces target staged (some previous) manager launch state (saves i v).1
  unfolding replace_running
  restores-replaces target staged state i previous manager launch v a p = ground (arith, a, p)

  -- A restore on a machine with a runtime that has set that runtime aside and then fails launches it
  -- again, by the manager that it had, with its launch configuration and with the state that its
  -- checkpoint gave before it was removed. The launch starts in the machine after the failed promotion of
  -- the staged workspace, or after the failed launch of the restored runtime with the workspace rolled
  -- back. The runtime is up afterwards, or this launch failed too and was cleared. This is the part of
  -- the restore that follows the staging of the workspace.
  pub replace_running-err :
      (target staged state : Text) (i : InstanceInfo) (previous : RestoreRollbackState World)
      (manager : RuntimeManager World) (launch : RuntimeLaunchConfig) (v : VmDocker World)
      (e : Error)
      → v.instance_info ≡ some i
      → (saves i v).0 ≡ ok previous
      → (restores target staged manager launch state v).0 ≡ err e
      → WasSaved i previous v (saves i v).1
        × IsBroughtBack target staged state previous manager launch
            (saves i v).1
            (restores target staged manager launch state v).1
  replace_running-err target staged state i previous manager launch v e a p h =
      let aside =
        set_aside-IsSaved wire goos docker sandbox pid files images get_tags_value_by_default
          module_id format module_tags process_tags getwd unmarshal_checkpoint unmarshal_workspace i
          previous v p in
      let same_run = restores-replaces target staged state i previous manager launch v a p in
      (
        aside,
        subst (λ r. IsBroughtBack target staged state previous manager launch (saves i v).1 r.1)
            (sym same_run)
            (brought_back target staged state previous manager launch (saves i v).1 e
              aside.is_removed (sym (ap (λ r. r.0) same_run) ∙ h)),
      )
