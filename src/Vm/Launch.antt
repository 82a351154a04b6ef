-- ===== src/Vm/Launch.antt =====
-- A launch that fails is taken down again.
use vmdockerv.Base.{
  Done, Error, Option-cases, Result, Result-cases, Text, ap, arith, err, inl, inr, none, ok, some,
  subst, sym, ◌∙◌, ◌≡◌,
}
use vmdockerv.LaunchConfig.{RuntimeLaunchConfig}
use vmdockerv.Manager.{RuntimeManager}
use vmdockerv.Schema.{InstanceInfo}
use vmdockerv.Vm.{VmDocker, Wire, restore_runtime_launch, resume, tear_down}
use vmdockerv.Vm.Frame.{resume-Keeps}

module _ {World : Type 0} (wire : Wire World) (goos : Text)
    (docker sandbox : Result (RuntimeManager World)) (pid : Text) where
  -- The machine that was `v` has no instance, and the manager has what it had under `pid`, or has been
  -- asked last to remove it: then it has none, or the removal failed.
  pub data IsCleared (manager : RuntimeManager World) (v v' : VmDocker World) : Type 0 where
    not_created :
        v'.instance_info ≡ none
        → manager.instance_of pid v'.world ≡ manager.instance_of pid v.world
        → IsCleared manager v v'
    removed :
        v'.instance_info ≡ none → manager.instance_of pid v'.world ≡ none → IsCleared manager v v'
    removal_failed :
        (w : World) (e : Error)
        → v'.instance_info ≡ none
        → (manager.remove_instance pid w).0 ≡ err e
        → v'.world ≡ (manager.remove_instance pid w).1
        → IsCleared manager v v'

  pub tear_down_info :
      (manager : RuntimeManager World) (v : VmDocker World)
      → (tear_down wire goos docker sandbox pid manager v).instance_info ≡ none
  unfolding tear_down
  tear_down_info manager v = elim (Option-cases v.instance_info) [
    | inl e ↦ ground (arith, e)
    | inr (i, e) ↦ ground (arith, e)
  ]

  tear_down_world :
      (manager : RuntimeManager World) (v : VmDocker World) (i : InstanceInfo)
      → v.instance_info ≡ some i
      → (tear_down wire goos docker sandbox pid manager v).world
        ≡ (manager.remove_instance pid v.world).1
  unfolding tear_down
  tear_down_world manager v i e = ground (arith, e)

  pub tear_down-IsCleared :
      (manager : RuntimeManager World) (v u : VmDocker World) (i : InstanceInfo)
      → u.instance_info ≡ some i
      → IsCleared manager v (tear_down wire goos docker sandbox pid manager u)
  tear_down-IsCleared manager v u i p =
      elim (Result-cases (manager.remove_instance pid u.world).0) [
        | inl (d, e) ↦
            removed (tear_down_info manager u)
              (rw (tear_down_world manager u i p) (manager.remove_instance_clears pid u.world d e))
        | inr (f, e) ↦
            removal_failed u.world f (tear_down_info manager u) e (tear_down_world manager u i p)
      ]

  -- The machine when the manager has created its instance.
  abbrev started :
      VmDocker World → RuntimeManager World → RuntimeLaunchConfig → InstanceInfo → VmDocker World
  started v manager launch i = record v {
    instance_info = some i;
    world = (manager.create_instance pid launch.runtime_spec launch.runtime_env v.world).1;
  }

  launch_not_created :
      (manager : RuntimeManager World) (launch : RuntimeLaunchConfig) (state : Text)
      (v : VmDocker World) (f : Error)
      → (manager.create_instance pid launch.runtime_spec launch.runtime_env v.world).0 ≡ err f
      → let v' = (restore_runtime_launch wire goos docker sandbox pid manager launch state v).1 in
        (v'.instance_info ≡ v.instance_info)
        × (v'.world
            ≡ (manager.create_instance pid launch.runtime_spec launch.runtime_env v.world).1)
  unfolding restore_runtime_launch
  launch_not_created manager launch state v f p = ground (arith, p)

  launch_failed :
      (manager : RuntimeManager World) (launch : RuntimeLaunchConfig) (state : Text)
      (v : VmDocker World) (i : InstanceInfo) (e : Error)
      → (manager.create_instance pid launch.runtime_spec launch.runtime_env v.world).0 ≡ ok i
      → (restore_runtime_launch wire goos docker sandbox pid manager launch state v).0 ≡ err e
      → (restore_runtime_launch wire goos docker sandbox pid manager launch state v).1
        ≡ tear_down wire goos docker sandbox pid manager
            (resume wire goos docker sandbox pid manager state (started v manager launch i)).1
  unfolding restore_runtime_launch
  launch_failed manager launch state v i e p h = ground (arith, p)

  -- A launch that fails on a machine without an instance leaves it without one. The manager did not
  -- create one either, or was asked last to remove it; then it has none, or its removal failed.
  pub restore_runtime_launch-err :
      (manager : RuntimeManager World) (launch : RuntimeLaunchConfig) (state : Text)
      (v : VmDocker World) (e : Error)
      → v.instance_info ≡ none
      → (restore_runtime_launch wire goos docker sandbox pid manager launch state v).0 ≡ err e
      → IsCleared manager v
          (restore_runtime_launch wire goos docker sandbox pid manager launch state v).1
  restore_runtime_launch-err manager launch state v e a h =
      elim (Result-cases
        (manager.create_instance pid launch.runtime_spec launch.runtime_env v.world).0) [
          | inl (i, p) ↦
              subst (λ u. IsCleared manager v u)
                (sym (launch_failed manager launch state v i e p h))
                (tear_down-IsCleared manager v
                  (resume wire goos docker sandbox pid manager state (started v manager launch i)).1
                  i
                  ((resume-Keeps wire goos docker sandbox pid manager state).kept
                    (started v manager launch i)))
          | inr (f, p) ↦ not_created ((launch_not_created manager launch state v f p).0 ∙ a) (
              rw (launch_not_created manager launch state v f p).1 (
                manager.create_instance_keeps pid launch.runtime_spec launch.runtime_env v.world f
                  p))
        ]

  -- A launch that succeeds leaves the machine with the instance that the manager created for it.
  pub restore_runtime_launch-ok :
      (manager : RuntimeManager World) (launch : RuntimeLaunchConfig) (state : Text)
      (v : VmDocker World) (d : Done)
      → (restore_runtime_launch wire goos docker sandbox pid manager launch state v).0 ≡ ok d
      → let v' = (restore_runtime_launch wire goos docker sandbox pid manager launch state v).1 in
        (i : InstanceInfo) × (v'.instance_info ≡ some i)
        × ((manager.create_instance pid launch.runtime_spec launch.runtime_env v.world).0 ≡ ok i)
  unfolding restore_runtime_launch
  restore_runtime_launch-ok manager launch state v d h =
      elim (Result-cases
        (manager.create_instance pid launch.runtime_spec launch.runtime_env v.world).0) [
          | inl (i, e) ↦ (
            i,
            ground (
              arith,
              e,
              (resume-Keeps wire goos docker sandbox pid manager state).kept
                  (started v manager launch i),
            ),
            e,
          )
          | inr (f, e) ↦ ground (arith, e)
        ]

  -- The machine `u` was launched and is `v` now: up with an instance, or cleared after its failure.
  pub data Relaunched (manager : RuntimeManager World) (launch : RuntimeLaunchConfig) (state : Text)
      (u v : VmDocker World) : Type 0 where
    up :
        (i : InstanceInfo)
        → restore_runtime_launch wire goos docker sandbox pid manager launch state u ≡ (ok tt, v)
        → v.instance_info ≡ some i
        → Relaunched manager launch state u v
    lost :
        (e : Error)
        → restore_runtime_launch wire goos docker sandbox pid manager launch state u ≡ (err e, v)
        → IsCleared manager u v
        → Relaunched manager launch state u v

  pub launch-Relaunched :
      (manager : RuntimeManager World) (launch : RuntimeLaunchConfig) (state : Text)
      (u : VmDocker World)
      → u.instance_info ≡ none
      → Relaunched manager launch state u
          (restore_runtime_launch wire goos docker sandbox pid manager launch state u).1
  launch-Relaunched manager launch state u a =
      elim (Result-cases
        (restore_runtime_launch wire goos docker sandbox pid manager launch state u).0) [
          | inl (d, e) ↦
              let made = restore_runtime_launch-ok manager launch state u d e in
              up made.0
                (ap
                  (λ r. (
                    r,
                    (restore_runtime_launch wire goos docker sandbox pid manager launch state u).1,
                  ))
                  e)
                made.1
          | inr (f, e) ↦
              lost f
                (ap
                  (λ r. (
                    r,
                    (restore_runtime_launch wire goos docker sandbox pid manager launch state u).1,
                  ))
                  e)
                (restore_runtime_launch-err manager launch state u f a e)
        ]
