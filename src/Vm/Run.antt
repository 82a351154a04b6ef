-- ===== src/Vm/Run.antt =====
-- `Run` of vmdocker/vmdocker.go, and what a failed spawn leaves behind.
use vmdockerv.Base.{
  Done, Error, List, Op, Result, Result-cases, Text, ap, arith, err, inl, inr, none, ok, on_error,
  pure, runtime_not_ready, some, subst, sym, wrapping, ◌>>=◌, ◌>>◌, ◌∙◌, ◌≡◌,
}
use vmdockerv.ContainerEnv.{container_env_from_tags}
use vmdockerv.Manager.{RuntimeManager}
use vmdockerv.RuntimeSpecs.{runtime_spec_from_module_and_spawn_tags}
use vmdockerv.Schema.{ImageInfo, InstanceInfo, RuntimeSpec, Tag}
use vmdockerv.Vm.{
  VmDocker, Wire, choose_manager, in_world, lift, lookup_manager, set_instance, spawn, tear_down,
  wait_for_container_ready,
}
use vmdockerv.Vm.Frame.{
  Keeps, Keeps-bind, Keeps-in_world, Keeps-wrapping, spawn-Keeps, wait_for_container_ready-Keeps,
}
use vmdockerv.Vm.Launch.{IsCleared, not_created, tear_down-IsCleared}

-- What `Run` needs of vmdocker/module_image.go.
pub record ModuleImages (World : Type 0) : Type 0 where
  pub ensure_module_image_available : Text → ImageInfo → Op World Done
  pub seed_workspace_from_module : Text → Text → Text → Op World Done

module _ {World : Type 0} (wire : Wire World) (goos : Text)
    (docker sandbox : Result (RuntimeManager World)) (pid : Text) (images : ModuleImages World)
    (get_tags_value_by_default : Text → List Tag → Text → Text) (module_id format : Text)
    (module_tags : List Tag) where
  -- `Run` up to the creation: the runtime's spec and its manager.
  unfoldable pub prepare : List Tag → Op (VmDocker World) (RuntimeSpec × RuntimeManager World)
  prepare tags = do
    spec ←
        lift (
          runtime_spec_from_module_and_spawn_tags get_tags_value_by_default format module_tags tags)
    manager ← lookup_manager wire goos docker sandbox pid spec.backend
    choose_manager wire goos docker sandbox pid manager
    in_world (images.ensure_module_image_available module_id spec.image)
    pure (spec, manager)

  -- `Run` below the deferred removal.
  unfoldable pub bring_up :
      Text → Text → List Tag → RuntimeSpec → RuntimeManager World → Text → Op (VmDocker World) Done
  bring_up cu_addr data_text tags spec manager workspace = do
    in_world (images.seed_workspace_from_module module_id workspace spec.image.archive_format)
    in_world (manager.start_instance pid)
    wrapping runtime_not_ready (wait_for_container_ready wire goos docker sandbox pid)
    spawn wire goos docker sandbox pid cu_addr data_text tags

  unfoldable pub run_prepared :
      Text → Text → List Tag → RuntimeSpec × RuntimeManager World → Op (VmDocker World) Done
  unfolding bring_up
  run_prepared cu_addr data_text tags (spec, manager) = do
    i ← in_world (manager.create_instance pid spec (container_env_from_tags tags))
    set_instance (some i)
    on_error (tear_down wire goos docker sandbox pid manager)
        (bring_up cu_addr data_text tags spec manager i.workspace)

  unfoldable pub run : Text → Text → List Tag → Op (VmDocker World) Done
  unfolding prepare run_prepared
  run cu_addr data_text tags = prepare tags >>= run_prepared cu_addr data_text tags

  prepare_keeps :
      (tags : List Tag) (v : VmDocker World) → (prepare tags v).1.instance_info ≡ v.instance_info
  unfolding prepare lookup_manager
  prepare_keeps tags v = ground arith

  bring_up-Keeps :
      (cu_addr data_text : Text) (tags : List Tag) (spec : RuntimeSpec)
      (manager : RuntimeManager World) (workspace : Text)
      → Keeps (bring_up cu_addr data_text tags spec manager workspace)
  unfolding bring_up
  bring_up-Keeps cu_addr data_text tags spec manager workspace =
      Keeps-bind
        (Keeps-in_world
          (images.seed_workspace_from_module module_id workspace spec.image.archive_format))
        λ d. Keeps-bind (Keeps-in_world (manager.start_instance pid)) λ d.
          Keeps-bind
            (Keeps-wrapping runtime_not_ready
              (wait_for_container_ready-Keeps wire goos docker sandbox pid))
            λ d. spawn-Keeps wire goos docker sandbox pid cu_addr data_text tags

  -- The machine when the manager has created its instance.
  abbrev with_instance :
      VmDocker World → RuntimeSpec → RuntimeManager World → List Tag → InstanceInfo → VmDocker World
  with_instance v spec manager tags i = record v {
    instance_info = some i;
    world = (manager.create_instance pid spec (container_env_from_tags tags) v.world).1;
  }

  run_not_created :
      (cu_addr data_text : Text) (tags : List Tag) (spec : RuntimeSpec)
      (manager : RuntimeManager World) (v : VmDocker World) (f : Error)
      → (manager.create_instance pid spec (container_env_from_tags tags) v.world).0 ≡ err f
      → let v' = (run_prepared cu_addr data_text tags (spec, manager) v).1 in
        (v'.instance_info ≡ v.instance_info)
        × (v'.world ≡ (manager.create_instance pid spec (container_env_from_tags tags) v.world).1)
  unfolding run_prepared
  run_not_created cu_addr data_text tags spec manager v f p = ground (arith, p)

  run_failed :
      (cu_addr data_text : Text) (tags : List Tag) (spec : RuntimeSpec)
      (manager : RuntimeManager World) (v : VmDocker World) (i : InstanceInfo) (e : Error)
      → (manager.create_instance pid spec (container_env_from_tags tags) v.world).0 ≡ ok i
      → (run_prepared cu_addr data_text tags (spec, manager) v).0 ≡ err e
      → (run_prepared cu_addr data_text tags (spec, manager) v).1
        ≡ tear_down wire goos docker sandbox pid manager
            (bring_up cu_addr data_text tags spec manager i.workspace
              (with_instance v spec manager tags i)).1
  unfolding run_prepared
  run_failed cu_addr data_text tags spec manager v i e p h = ground (arith, p)

  run_prepared-err :
      (cu_addr data_text : Text) (tags : List Tag) (spec : RuntimeSpec)
      (manager : RuntimeManager World) (v : VmDocker World) (e : Error)
      → v.instance_info ≡ none
      → (run_prepared cu_addr data_text tags (spec, manager) v).0 ≡ err e
      → IsCleared wire goos docker sandbox pid manager v
          (run_prepared cu_addr data_text tags (spec, manager) v).1
  run_prepared-err cu_addr data_text tags spec manager v e a h =
      elim (Result-cases
        (manager.create_instance pid spec (container_env_from_tags tags) v.world).0) [
          | inl (i, p) ↦
              subst (λ u. IsCleared wire goos docker sandbox pid manager v u)
                (sym (run_failed cu_addr data_text tags spec manager v i e p h))
                (tear_down-IsCleared wire goos docker sandbox pid manager v
                  (bring_up cu_addr data_text tags spec manager i.workspace
                    (with_instance v spec manager tags i)).1
                  i
                  ((bring_up-Keeps cu_addr data_text tags spec manager i.workspace).kept
                    (with_instance v spec manager tags i)))
          | inr (f, p) ↦
              not_created ((run_not_created cu_addr data_text tags spec manager v f p).0 ∙ a) (
                rw (run_not_created cu_addr data_text tags spec manager v f p).1 (
                  manager.create_instance_keeps pid spec (container_env_from_tags tags) v.world f
                    p))
        ]

  -- How `Run` fails: in its preparation, after which there is no instance, or once it has a manager.
  pub data RunFailure (tags : List Tag) (v v' : VmDocker World) : Type 0 where
    not_prepared :
        (e : Error)
        → (prepare tags v).0 ≡ err e
        → v' ≡ (prepare tags v).1
        → v'.instance_info ≡ none
        → RunFailure tags v v'
    cleared :
        (spec : RuntimeSpec) (manager : RuntimeManager World)
        → (prepare tags v).0 ≡ ok (spec, manager)
        → IsCleared wire goos docker sandbox pid manager (prepare tags v).1 v'
        → RunFailure tags v v'

  run_unprepared :
      (cu_addr data_text : Text) (tags : List Tag) (v : VmDocker World) (f : Error)
      → (prepare tags v).0 ≡ err f
      → (run cu_addr data_text tags v).1 ≡ (prepare tags v).1
  unfolding run
  run_unprepared cu_addr data_text tags v f p = ground (arith, p)

  run_continues :
      (cu_addr data_text : Text) (tags : List Tag) (v : VmDocker World)
      (c : RuntimeSpec × RuntimeManager World)
      → (prepare tags v).0 ≡ ok c
      → run cu_addr data_text tags v ≡ run_prepared cu_addr data_text tags c (prepare tags v).1
  unfolding run
  run_continues cu_addr data_text tags v c p = ground (arith, p)

  -- A spawn that fails on a new machine leaves it without an instance. Its manager was not asked for
  -- one, or did not create one, or was asked last to remove it; then it has none, or its removal
  -- failed.
  pub run-err :
      (cu_addr data_text : Text) (tags : List Tag) (v : VmDocker World) (e : Error)
      → v.instance_info ≡ none
      → (run cu_addr data_text tags v).0 ≡ err e
      → RunFailure tags v (run cu_addr data_text tags v).1
  run-err cu_addr data_text tags v e a h = elim (Result-cases (prepare tags v).0) [
    | inl ((spec, manager), p) ↦ cleared spec manager p (
        rw (run_continues cu_addr data_text tags v (spec, manager) p) (
          run_prepared-err cu_addr data_text tags spec manager (prepare tags v).1 e
            (prepare_keeps tags v ∙ a)
            (sym (ap (λ r. r.0) (run_continues cu_addr data_text tags v (spec, manager) p)) ∙ h)))
    | inr (f, p) ↦
        not_prepared f p (run_unprepared cu_addr data_text tags v f p)
          (rw (run_unprepared cu_addr data_text tags v f p) (prepare_keeps tags v ∙ a))
  ]
