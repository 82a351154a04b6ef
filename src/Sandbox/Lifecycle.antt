-- ===== src/Sandbox/Lifecycle.antt =====
-- What each operation of the sandbox manager does to its tables, on every branch.
use vmdockerv.Base.{
  Bool, Done, Error, List, Option-cases, Result, Result-cases, Text, [], arith, codes, delete, err,
  false, inl, inr, insert, lookup, ok, some, true, update, ℕ, ◌∷◌, ◌≡◌, ◌≤◌, ◌⊎◌,
}
use vmdockerv.Env.{runtime_workspace_root_from_path}
use vmdockerv.Host.{Host}
use vmdockerv.Ports.{allocate, release}
use vmdockerv.Ports.Laws.{allocate-err, allocate-ok}
use vmdockerv.Sandbox.{
  SandboxLaunchSpec, SandboxManager, SandboxSystem, check_template, create_sandbox_instance,
  exec_as_user, exec_sandbox_instance, launch_agent, launch_spec_of, provision_sandbox,
  remove_sandbox_instance, sandbox_command, sandbox_tables, start_sandbox_instance, stop_if_running,
  stop_sandbox_instance,
}
use vmdockerv.SandboxCli.{TemplateInspect}
use vmdockerv.Schema.{InstanceInfo, RuntimeSpec, Status, running, stopped}
use vmdockerv.Tables.Steps.{SameTables}

-- The tables and the launch specs are as before, or the instance under `pid` has the new status.
abbrev pub SetsStatus : Text → Status → SandboxManager → SandboxManager → Type 0
SetsStatus pid status m m' =
    (m' ≡ m)
    ⊎ ((i : InstanceInfo) × (lookup pid m.instances ≡ some i)
        × (m' ≡ record m { instances = insert pid (record i { status = status }) m.instances }))

-- An instance's record and the launch spec kept beside it tell the same runtime.
pub record IsLaunchedBy (i : InstanceInfo) (launch : SandboxLaunchSpec) : Type 0 where
  pub workspace : i.workspace ≡ launch.workspace
  pub runtime_env : i.runtime_env ≡ launch.runtime_env
  pub image : i.runtime_spec.image ≡ launch.runtime_spec.image
  pub root : i.runtime_spec.sandbox.workspace ≡ runtime_workspace_root_from_path launch.workspace

module _ (host : Host) (unmarshal_inspect : Text → Result (List TemplateInspect)) where
  open host use {World, port_available}

  abbrev State : Type 0
  State = SandboxSystem World

  pub check_template_keeps :
      (spec : RuntimeSpec) (s : State)
      → (check_template host unmarshal_inspect spec s).1.manager ≡ s.manager
  unfolding check_template
  check_template_keeps spec s = ground arith

  provision_sandbox-err :
      (port : ℕ) (pid : Text) (spec : RuntimeSpec) (env : List Text) (s : State) (e : Error)
      → (provision_sandbox host unmarshal_inspect port pid spec env s).0 ≡ err e
      → (provision_sandbox host unmarshal_inspect port pid spec env s).1.manager
        ≡ record (s.manager) { ports = release port s.manager.ports }
  unfolding provision_sandbox
  provision_sandbox-err port pid spec env s e h = ground arith

  provision_sandbox-ok :
      (port : ℕ) (pid : Text) (spec : RuntimeSpec) (env : List Text) (s : State) (i : InstanceInfo)
      → (provision_sandbox host unmarshal_inspect port pid spec env s).0 ≡ ok i
      → let launch = launch_spec_of spec env i.workspace in
        (i.port ≡ port)
        × IsLaunchedBy i launch
        × ((provision_sandbox host unmarshal_inspect port pid spec env s).1.manager
            ≡ record (s.manager) {
              instances = insert pid i s.manager.instances;
              launch_specs = insert pid launch s.manager.launch_specs;
            })
  unfolding provision_sandbox
  provision_sandbox-ok port pid spec env s i h = ground arith

  -- The states that `CreateInstance` passes through.
  abbrev checked : RuntimeSpec → State → State
  checked spec s = (check_template host unmarshal_inspect spec s).1

  abbrev probe : RuntimeSpec → State → ℕ → Bool
  probe spec s = port_available (checked spec s).world

  abbrev taken : RuntimeSpec → State → State
  taken spec s = record (checked spec s) {
    manager = record ((checked spec s).manager) {
      ports = (allocate (probe spec s) (checked spec s).manager.ports).1;
    };
  }

  create_sandbox_instance-err_at :
      (q : ℕ) (pid : Text) (spec : RuntimeSpec) (env : List Text) (s : State) (e : Error)
      → (create_sandbox_instance host unmarshal_inspect pid spec env s).0 ≡ err e
      → let m' = (create_sandbox_instance host unmarshal_inspect pid spec env s).1.manager in
        (m'.instances ≡ s.manager.instances)
        × (m'.launch_specs ≡ s.manager.launch_specs)
        × (m'.ports.start ≡ s.manager.ports.start)
        × (m'.ports.end ≡ s.manager.ports.end)
        × (m'.ports.used q ≡ s.manager.ports.used q)
  unfolding create_sandbox_instance release
  create_sandbox_instance-err_at q pid spec env s e h =
      elim (Result-cases (allocate (probe spec s) (checked spec s).manager.ports).0) [
        | inl (p, a) ↦ ground (
          arith,
          a,
          check_template_keeps spec s,
          allocate-ok (probe spec s) (checked spec s).manager.ports p,
          provision_sandbox-err p pid spec env (taken spec s) e,
        )
        | inr (f, a) ↦ ground (
          arith,
          a,
          check_template_keeps spec s,
          allocate-err (probe spec s) (checked spec s).manager.ports f,
        )
      ]

  -- A failed `CreateInstance` leaves the instances, the launch specs and every port mark as they were.
  pub create_sandbox_instance-err :
      (pid : Text) (spec : RuntimeSpec) (env : List Text) (s : State) (e : Error)
      → (create_sandbox_instance host unmarshal_inspect pid spec env s).0 ≡ err e
      → let m' = (create_sandbox_instance host unmarshal_inspect pid spec env s).1.manager in
        SameTables (sandbox_tables s.manager) (sandbox_tables m')
        × (m'.launch_specs ≡ s.manager.launch_specs)
  create_sandbox_instance-err pid spec env s e h = (
    record {
      instances = (create_sandbox_instance-err_at 0 pid spec env s e h).0;
      start = (create_sandbox_instance-err_at 0 pid spec env s e h).2;
      end = (create_sandbox_instance-err_at 0 pid spec env s e h).3;
      marks = λ q. (create_sandbox_instance-err_at q pid spec env s e h).4;
    },
    (create_sandbox_instance-err_at 0 pid spec env s e h).1,
  )

  -- A successful `CreateInstance` stores the instance that it returns, on a port of the range that was
  -- unmarked, marks that port only, and notes a launch spec that tells the same runtime.
  pub create_sandbox_instance-ok :
      (pid : Text) (spec : RuntimeSpec) (env : List Text) (s : State) (i : InstanceInfo)
      → (create_sandbox_instance host unmarshal_inspect pid spec env s).0 ≡ ok i
      → let m' = (create_sandbox_instance host unmarshal_inspect pid spec env s).1.manager in
        let launch = launch_spec_of spec env i.workspace in
        (s.manager.ports.start ≤ i.port)
        × (i.port ≤ s.manager.ports.end)
        × (s.manager.ports.used i.port ≡ false)
        × (m'.instances ≡ insert pid i s.manager.instances)
        × (m'.ports ≡ record (s.manager.ports) { used = update s.manager.ports.used i.port true })
        × (m'.launch_specs ≡ insert pid launch s.manager.launch_specs)
        × IsLaunchedBy i launch
  unfolding create_sandbox_instance
  create_sandbox_instance-ok pid spec env s i h =
      elim (Result-cases (allocate (probe spec s) (checked spec s).manager.ports).0) [
        | inl (p, e) ↦ ground (
          arith,
          e,
          check_template_keeps spec s,
          allocate-ok (probe spec s) (checked spec s).manager.ports p,
          provision_sandbox-ok p pid spec env (taken spec s) i,
        )
        | inr (f, e) ↦ ground (arith, e)
      ]

  -- A failed `RemoveInstance` changes no table.
  pub remove_sandbox_instance-err :
      (pid : Text) (s : State) (e : Error)
      → (remove_sandbox_instance host unmarshal_inspect pid s).0 ≡ err e
      → (remove_sandbox_instance host unmarshal_inspect pid s).1.manager ≡ s.manager
  unfolding remove_sandbox_instance stop_if_running
  remove_sandbox_instance-err pid s e h = ground arith

  -- A successful `RemoveInstance` was called on a pid with an instance; it deletes that with its launch
  -- spec, and releases its port.
  pub remove_sandbox_instance-ok :
      (pid : Text) (s : State) (d : Done)
      → (remove_sandbox_instance host unmarshal_inspect pid s).0 ≡ ok d
      → let m' = (remove_sandbox_instance host unmarshal_inspect pid s).1.manager in
        (i : InstanceInfo) × (lookup pid s.manager.instances ≡ some i)
        × (m'.instances ≡ delete pid s.manager.instances)
        × (m'.launch_specs ≡ delete pid s.manager.launch_specs)
        × (m'.ports ≡ release i.port s.manager.ports)
  unfolding remove_sandbox_instance stop_if_running
  remove_sandbox_instance-ok pid s d h = elim (Option-cases (lookup pid s.manager.instances)) [
    | inl e ↦ ground (arith, e)
    | inr (i, e) ↦ (i, e, ground (arith, e), ground (arith, e), ground (arith, e))
  ]

  launch_agent_keeps :
      (pid : Text) (i : InstanceInfo) (launch : SandboxLaunchSpec) (s : State)
      → (launch_agent host unmarshal_inspect pid i launch s).1.manager ≡ s.manager
  unfolding launch_agent exec_sandbox_instance exec_as_user
  launch_agent_keeps pid i launch s = ground arith

  pub start_sandbox_instance-SetsStatus :
      (pid : Text) (s : State)
      → SetsStatus pid running s.manager
          (start_sandbox_instance host unmarshal_inspect pid s).1.manager
  unfolding start_sandbox_instance
  start_sandbox_instance-SetsStatus pid s =
      elim (Option-cases (lookup pid s.manager.launch_specs)) [
        | inl e ↦ inl (ground (arith, e))
        | inr (launch, e) ↦ elim (Option-cases (lookup pid s.manager.instances)) [
          | inl f ↦ inl (ground (arith, e, f))
          | inr (i, f) ↦
              elim (Result-cases (launch_agent host unmarshal_inspect pid i launch s).0) [
                | inl (t, a) ↦
                    inr (i, f, ground (arith, e, f, a, launch_agent_keeps pid i launch s))
                | inr (g, a) ↦ inl (ground (arith, e, f, a, launch_agent_keeps pid i launch s))
              ]
        ]
      ]

  pub exec_sandbox_instance_keeps :
      (pid : Text) (env : List Text) (line : Text) (s : State)
      → (exec_sandbox_instance host unmarshal_inspect pid env line s).1.manager ≡ s.manager
  unfolding exec_sandbox_instance exec_as_user
  exec_sandbox_instance_keeps pid env line s = ground arith

  pub stop_sandbox_instance-SetsStatus :
      (pid : Text) (s : State)
      → SetsStatus pid stopped s.manager
          (stop_sandbox_instance host unmarshal_inspect pid s).1.manager
  unfolding stop_sandbox_instance
  stop_sandbox_instance-SetsStatus pid s = elim (Option-cases (lookup pid s.manager.instances)) [
    | inl e ↦ inl (ground (arith, e))
    | inr (i, e) ↦
        elim (Result-cases
          (sandbox_command host unmarshal_inspect (codes "sandbox" ∷ codes "stop" ∷ i.id ∷ [])
            s).0) [
              | inl (d, a) ↦ inr (i, e, ground (arith, e, a))
              | inr (f, a) ↦ inl (ground (arith, e, a))
            ]
  ]
