-- ===== src/Docker/Lifecycle.antt =====
-- What each operation does to the manager's tables, on every branch.
use vmdockerv.Base.{
  Bool, Done, Error, List, Option-cases, Result-cases, Text, arith, delete, ensure_image_failed,
  err, false, inl, inr, insert, lookup, ok, some, true, update, wrapping, ℕ, ◌≡◌, ◌≤◌, ◌⊎◌,
}
use vmdockerv.Docker.{
  DockerManager, System, check_node_confinement, create_instance, ensure_image_exists, on_world,
  provision, remove_instance, start_instance, stop_instance, tables,
}
use vmdockerv.Host.{Host}
use vmdockerv.Ports.{allocate, release}
use vmdockerv.Ports.Laws.{allocate-err, allocate-ok}
use vmdockerv.Schema.{InstanceInfo, RuntimeSpec, Status, running, stopped}
use vmdockerv.Tables.Steps.{SameTables}

-- The tables are as before, or the instance under `pid` has the new status.
abbrev pub Sets : Text → Status → DockerManager → DockerManager → Type 0
Sets pid status m m' =
    (m' ≡ m)
    ⊎ ((i : InstanceInfo) × (lookup pid m.instances ≡ some i)
        × (m' ≡ record m { instances = insert pid (record i { status = status }) m.instances }))

module _ (host : Host) where
  open host use {World, port_available, container_start, container_stop}

  check_node_confinement_keeps :
      (s : System World)
      → ((check_node_confinement host s).1.manager.instances ≡ s.manager.instances)
        × ((check_node_confinement host s).1.manager.ports ≡ s.manager.ports)
  unfolding check_node_confinement
  check_node_confinement_keeps s = ground arith

  provision-err :
      (port : ℕ) (pid : Text) (spec : RuntimeSpec) (env : List Text) (s : System World) (e : Error)
      → (provision host port pid spec env s).0 ≡ err e
      → ((provision host port pid spec env s).1.manager.instances ≡ s.manager.instances)
        × ((provision host port pid spec env s).1.manager.ports ≡ release port s.manager.ports)
  unfolding provision
  provision-err port pid spec env s e h = ground arith

  provision-ok :
      (port : ℕ) (pid : Text) (spec : RuntimeSpec) (env : List Text) (s : System World)
      (i : InstanceInfo)
      → (provision host port pid spec env s).0 ≡ ok i
      → (i.port ≡ port)
        × ((provision host port pid spec env s).1.manager.instances
            ≡ insert pid i s.manager.instances)
        × ((provision host port pid spec env s).1.manager.ports ≡ s.manager.ports)
  unfolding provision
  provision-ok port pid spec env s i h = ground arith

  -- The states that `CreateInstance` passes through: the node and the image are checked, then a port
  -- is taken.
  abbrev checked : RuntimeSpec → System World → System World
  checked spec s =
      (wrapping ensure_image_failed (on_world (ensure_image_exists host spec.image))
        (check_node_confinement host s).1).1

  abbrev probe : RuntimeSpec → System World → ℕ → Bool
  probe spec s = port_available (checked spec s).world

  abbrev taken : RuntimeSpec → System World → System World
  taken spec s = record (checked spec s) {
    manager = record ((checked spec s).manager) {
      ports = (allocate (probe spec s) (checked spec s).manager.ports).1;
    };
  }

  create_instance-err_at :
      (q : ℕ) (pid : Text) (spec : RuntimeSpec) (env : List Text) (s : System World) (e : Error)
      → (create_instance host pid spec env s).0 ≡ err e
      → let m' = (create_instance host pid spec env s).1.manager in
        (m'.instances ≡ s.manager.instances)
        × (m'.ports.start ≡ s.manager.ports.start)
        × (m'.ports.end ≡ s.manager.ports.end)
        × (m'.ports.used q ≡ s.manager.ports.used q)
  unfolding create_instance release
  create_instance-err_at q pid spec env s e h =
      elim (Result-cases (allocate (probe spec s) (checked spec s).manager.ports).0) [
        | inl (p, a) ↦ ground (
          arith,
          a,
          check_node_confinement_keeps s,
          allocate-ok (probe spec s) (checked spec s).manager.ports p,
          provision-err p pid spec env (taken spec s) e,
        )
        | inr (f, a) ↦ ground (
          arith,
          a,
          check_node_confinement_keeps s,
          allocate-err (probe spec s) (checked spec s).manager.ports f,
        )
      ]

  -- A failed `CreateInstance` leaves the instances and every port mark as they were.
  pub create_instance-err :
      (pid : Text) (spec : RuntimeSpec) (env : List Text) (s : System World) (e : Error)
      → (create_instance host pid spec env s).0 ≡ err e
      → SameTables (tables s.manager) (tables (create_instance host pid spec env s).1.manager)
  create_instance-err pid spec env s e h = record {
    instances = (create_instance-err_at 0 pid spec env s e h).0;
    start = (create_instance-err_at 0 pid spec env s e h).1;
    end = (create_instance-err_at 0 pid spec env s e h).2;
    marks = λ q. (create_instance-err_at q pid spec env s e h).3;
  }

  -- A successful `CreateInstance` stores the instance that it returns under its pid, on a port of the
  -- range that was unmarked before and is marked after, and changes no other mark.
  pub create_instance-ok :
      (pid : Text) (spec : RuntimeSpec) (env : List Text) (s : System World) (i : InstanceInfo)
      → (create_instance host pid spec env s).0 ≡ ok i
      → let m' = (create_instance host pid spec env s).1.manager in
        (s.manager.ports.start ≤ i.port)
        × (i.port ≤ s.manager.ports.end)
        × (s.manager.ports.used i.port ≡ false)
        × (m'.instances ≡ insert pid i s.manager.instances)
        × (m'.ports ≡ record (s.manager.ports) { used = update s.manager.ports.used i.port true })
  unfolding create_instance
  create_instance-ok pid spec env s i h =
      elim (Result-cases (allocate (probe spec s) (checked spec s).manager.ports).0) [
        | inl (p, e) ↦ ground (
          arith,
          e,
          check_node_confinement_keeps s,
          allocate-ok (probe spec s) (checked spec s).manager.ports p,
          provision-ok p pid spec env (taken spec s) i,
        )
        | inr (f, e) ↦ ground (arith, e)
      ]

  -- A failed `RemoveInstance` changes neither table.
  pub remove_instance-err :
      (pid : Text) (s : System World) (e : Error)
      → (remove_instance host pid s).0 ≡ err e
      → (remove_instance host pid s).1.manager ≡ s.manager
  unfolding remove_instance
  remove_instance-err pid s e h = ground arith

  -- A successful `RemoveInstance` was called on a pid with an instance; it deletes that and releases
  -- its port.
  pub remove_instance-ok :
      (pid : Text) (s : System World) (d : Done)
      → (remove_instance host pid s).0 ≡ ok d
      → let m' = (remove_instance host pid s).1.manager in
        (i : InstanceInfo) × (lookup pid s.manager.instances ≡ some i)
        × (m'.instances ≡ delete pid s.manager.instances)
        × (m'.ports ≡ release i.port s.manager.ports)
  unfolding remove_instance
  remove_instance-ok pid s d h = elim (Option-cases (lookup pid s.manager.instances)) [
    | inl e ↦ ground (arith, e)
    | inr (i, e) ↦ (i, e, ground (arith, e), ground (arith, e))
  ]

  -- `StartInstance` touches no port, and sets one status at most.
  pub start_instance-Sets :
      (pid : Text) (s : System World)
      → Sets pid running s.manager (start_instance host pid s).1.manager
  unfolding start_instance
  start_instance-Sets pid s = elim (Option-cases (lookup pid s.manager.instances)) [
    | inl e ↦ inl (ground (arith, e))
    | inr (i, e) ↦ elim (Result-cases (container_start i.id s.world).0) [
      | inl (d, a) ↦ inr (i, e, ground (arith, e, a))
      | inr (f, a) ↦ inl (ground (arith, e, a))
    ]
  ]

  pub stop_instance-Sets :
      (pid : Text) (s : System World)
      → Sets pid stopped s.manager (stop_instance host pid s).1.manager
  unfolding stop_instance
  stop_instance-Sets pid s = elim (Option-cases (lookup pid s.manager.instances)) [
    | inl e ↦ inl (ground (arith, e))
    | inr (i, e) ↦ elim (Result-cases (container_stop i.id 10 s.world).0) [
      | inl (d, a) ↦ inr (i, e, ground (arith, e, a))
      | inr (f, a) ↦ inl (ground (arith, e, a))
    ]
  ]
