-- ===== src/Vm/Restore/SetAside.antt =====
-- What a restore keeps of the running runtime before it removes it.
use vmdockerv.Base.{
  List, Op, Result, Result-cases, Text, ap, arith, inl, inr, none, ok, some, sym, ◌∙◌, ◌≡◌,
}
use vmdockerv.LaunchConfig.{RuntimeLaunchConfig, WorkspaceCheckpoint, current_launch_config}
use vmdockerv.Manager.{RuntimeManager}
use vmdockerv.Promotion.{Files}
use vmdockerv.Schema.{InstanceInfo, Tag}
use vmdockerv.Snapshot.{RuntimeWorkspaceCheckpoint}
use vmdockerv.Vm.{VmDocker, Wire, runtime_checkpoint, vm_runtime_manager}
use vmdockerv.Vm.Restore.{RestoreRollbackState, set_aside}
use vmdockerv.Vm.Run.{ModuleImages}

module _ {World : Type 0} (wire : Wire World) (goos : Text)
    (docker sandbox : Result (RuntimeManager World)) (pid : Text) (files : Files World)
    (images : ModuleImages World) (get_tags_value_by_default : Text → List Tag → Text → Text)
    (module_id format : Text) (module_tags process_tags : List Tag) (getwd : Op World Text)
    (unmarshal_checkpoint : Text → Result WorkspaceCheckpoint)
    (unmarshal_workspace : Text → Result RuntimeWorkspaceCheckpoint) where
  abbrev sets_aside : InstanceInfo → Op (VmDocker World) (RestoreRollbackState World)
  sets_aside =
      set_aside wire goos docker sandbox pid files images get_tags_value_by_default module_id format
        module_tags process_tags getwd unmarshal_checkpoint unmarshal_workspace

  abbrev checkpoints : Op (VmDocker World) Text
  checkpoints = runtime_checkpoint wire goos docker sandbox pid

  abbrev manages : Op (VmDocker World) (RuntimeManager World)
  manages = vm_runtime_manager wire goos docker sandbox pid

  -- What was kept of the runtime of `v` with the instance `i`, which is gone in `u`: the state that its
  -- checkpoint gave, the manager of the machine, and the launch that it was started with.
  pub record IsSaved (i : InstanceInfo) (previous : RestoreRollbackState World)
      (v u : VmDocker World) : Type 0 where
    pub of_instance : previous.instance_info ≡ i
    pub of_checkpoint :
        (runtime_checkpoint wire goos docker sandbox pid v).0 ≡ ok previous.runtime_state
    pub of_manager :
        (vm_runtime_manager wire goos docker sandbox pid
          (runtime_checkpoint wire goos docker sandbox pid v).1).0
        ≡ ok previous.runtime_manager
    pub of_launch :
        current_launch_config get_tags_value_by_default format module_tags process_tags (some i)
        ≡ ok previous.launch
    pub is_removed : u.instance_info ≡ none

  abbrev saved :
      InstanceInfo → Text → RuntimeManager World → RuntimeLaunchConfig → RestoreRollbackState World
  saved i state manager launch = record {
    instance_info = i;
    launch = launch;
    runtime_state = state;
    runtime_manager = manager;
  }

  set_aside_saves :
      (i : InstanceInfo) (previous : RestoreRollbackState World) (v : VmDocker World) (state : Text)
      (manager : RuntimeManager World) (launch : RuntimeLaunchConfig)
      → (checkpoints v).0 ≡ ok state
      → (manages (checkpoints v).1).0 ≡ ok manager
      → current_launch_config get_tags_value_by_default format module_tags process_tags (some i)
        ≡ ok launch
      → (sets_aside i v).0 ≡ ok previous
      → (saved i state manager launch ≡ previous) × ((sets_aside i v).1.instance_info ≡ none)
  unfolding set_aside
  set_aside_saves i previous v state manager launch p q r h =
      elim (Result-cases (manager.remove_instance pid (manages (checkpoints v).1).1.world).0) [
        | inr (e, t) ↦ absurd (ground (arith, p, q, r, t))
        | inl (d, t) ↦ (ground (arith, p, q, r, t), ground (arith, p, q, r, t))
      ]

  pub set_aside-IsSaved :
      (i : InstanceInfo) (previous : RestoreRollbackState World) (v : VmDocker World)
      → (sets_aside i v).0 ≡ ok previous
      → IsSaved i previous v (sets_aside i v).1
  set_aside-IsSaved i previous v h = elim (Result-cases (checkpoints v).0) [
    | inr (e, p) ↦ absurd (unfold set_aside in ground (arith, p))
    | inl (state, p) ↦ elim (Result-cases (manages (checkpoints v).1).0) [
      | inr (e, q) ↦ absurd (unfold set_aside in ground (arith, p, q))
      | inl (manager, q) ↦
          elim (Result-cases (
            current_launch_config get_tags_value_by_default format module_tags process_tags
              (some i))) [
                | inr (e, r) ↦ absurd (unfold set_aside in ground (arith, p, q, r))
                | inl (launch, r) ↦
                    let (kept, is_gone) =
                      set_aside_saves i previous v state manager launch p q r h in
                    record {
                      of_instance = sym (ap (λ x. x.instance_info) kept);
                      of_checkpoint = p ∙ ap (λ x. ok x.runtime_state) kept;
                      of_manager = q ∙ ap (λ x. ok x.runtime_manager) kept;
                      of_launch = r ∙ ap (λ x. ok x.launch) kept;
                      is_removed = is_gone;
                    }
              ]
    ]
  ]
