-- ===== src/Vm/Frame.antt =====
-- What the calls to the runtime leave alone: the machine's instance.
use vmdockerv.Base.{
  List, Message, Op, Result, Result-cases, Text, [], arith, codes, get_runtime_manager_failed, inl,
  inr, refl, restore_runtime_state_failed, runtime_not_ready, start_runtime_failed, wrapping, ◌>>=◌,
  ◌∷◌, ◌≡◌,
}
use vmdockerv.Manager.{RuntimeManager}
use vmdockerv.Schema.{InstanceInfo, Tag}
use vmdockerv.Shell.{ℤ}
use vmdockerv.Vm.{
  VmDocker, Wake, Wire, call_instance_endpoint, call_runtime_endpoint,
  call_sandbox_runtime_endpoint, close_signal, expect_ok, expect_status, health_status_code,
  in_world, instance_of_vm, lift, lookup_manager, resume, runtime_restore, send_to_sandbox, spawn,
  tick, vm_runtime_manager, wait_for_container_ready, wait_for_events, wait_loop,
  write_sandbox_payload_file,
}

pub record Keeps {W A : Type 0} (m : Op (VmDocker W) A) : Type 0 where
  pub kept : (v : VmDocker W) → (m v).1.instance_info ≡ v.instance_info

pub Keeps-bind :
    {W A B : Type 0} {m : Op (VmDocker W) A} {f : A → Op (VmDocker W) B}
    → Keeps m
    → ((a : A) → Keeps (f a))
    → Keeps (m >>= f)
Keeps-bind {m} {f} k l = record {
  kept = λ v. elim (Result-cases (m v).0) [
    | inl (a, e) ↦ ground (arith, e, k.kept v, (l a).kept (m v).1)
    | inr (e, p) ↦ ground (arith, p, k.kept v)
  ];
}

pub Keeps-wrapping :
    {W A : Type 0} (t : Message) {m : Op (VmDocker W) A} → Keeps m → Keeps (wrapping t m)
Keeps-wrapping t k = record { kept = λ v. ground (arith, k.kept v) }

pub Keeps-in_world : {W A : Type 0} (m : Op W A) → Keeps (in_world m)
Keeps-in_world m = record { kept = λ v. refl }

pub Keeps-lift : {W A : Type 0} {r : Result A} → Keeps {W = W} (lift r)
Keeps-lift = record { kept = λ v. refl }

pub Keeps-instance_of_vm : {W : Type 0} → Keeps (instance_of_vm {W = W})
Keeps-instance_of_vm = record { kept = λ v. ground arith }

pub Keeps-expect_ok : {W : Type 0} (r : ℤ × Text) → Keeps (expect_ok {W = W} r)
Keeps-expect_ok r = record { kept = λ v. ground arith }

pub Keeps-expect_status : {W : Type 0} (r : Text × Text) → Keeps (expect_status {W = W} r)
Keeps-expect_status r = record { kept = λ v. ground arith }

module _ {World : Type 0} (wire : Wire World) (goos : Text)
    (docker sandbox : Result (RuntimeManager World)) (pid : Text) where
  vm_runtime_manager-Keeps : Keeps (vm_runtime_manager wire goos docker sandbox pid)
  unfolding vm_runtime_manager lookup_manager
  vm_runtime_manager-Keeps = record { kept = λ v. ground arith }

  write_sandbox_payload_file-Keeps :
      (payload : Text) → Keeps (write_sandbox_payload_file wire goos docker sandbox pid payload)
  unfolding write_sandbox_payload_file
  write_sandbox_payload_file-Keeps payload = record { kept = λ v. ground arith }

  send_to_sandbox-Keeps :
      (path payload : Text) (manager : RuntimeManager World)
      → Keeps (send_to_sandbox wire goos docker sandbox pid path payload manager)
  unfolding send_to_sandbox
  send_to_sandbox-Keeps path payload manager = record {
    kept = λ v. ground (arith, (write_sandbox_payload_file-Keeps payload).kept v);
  }

  call_sandbox_runtime_endpoint-Keeps :
      (path payload : Text)
      → Keeps (call_sandbox_runtime_endpoint wire goos docker sandbox pid path payload)
  unfolding call_sandbox_runtime_endpoint
  call_sandbox_runtime_endpoint-Keeps path payload =
      Keeps-bind (Keeps-wrapping get_runtime_manager_failed vm_runtime_manager-Keeps)
        (send_to_sandbox-Keeps path payload)

  call_instance_endpoint-Keeps :
      (path payload : Text) (i : InstanceInfo)
      → Keeps (call_instance_endpoint wire goos docker sandbox pid path payload i)
  unfolding call_instance_endpoint
  call_instance_endpoint-Keeps path payload i = record {
    kept = λ v. ground (arith, (call_sandbox_runtime_endpoint-Keeps path payload).kept v);
  }

  pub call_runtime_endpoint-Keeps :
      (path payload : Text)
      → Keeps (call_runtime_endpoint wire goos docker sandbox pid path payload)
  unfolding call_runtime_endpoint
  call_runtime_endpoint-Keeps path payload =
      Keeps-bind Keeps-instance_of_vm (call_instance_endpoint-Keeps path payload)

  health-Keeps : Keeps (health_status_code wire goos docker sandbox pid)
  unfolding health_status_code
  health-Keeps = call_runtime_endpoint-Keeps (codes "/vmm/health") []

  wait_loop-Keeps : (events : List Wake) → Keeps (wait_loop wire goos docker sandbox pid events)
  unfolding wait_loop
  wait_loop-Keeps [] = record { kept = λ v. refl }
  wait_loop-Keeps (close_signal ∷ events) = record { kept = λ v. refl }
  wait_loop-Keeps (tick ∷ events) = record {
    kept = λ v.
        let v' = (health_status_code wire goos docker sandbox pid v).1 in
        elim (Result-cases (health_status_code wire goos docker sandbox pid v).0) [
          | inl ((status, body), e) ↦
              ground (arith, e, health-Keeps.kept v, (wait_loop-Keeps events).kept v')
          | inr (f, e) ↦ ground (arith, e, health-Keeps.kept v, (wait_loop-Keeps events).kept v')
        ];
  }

  wait_for_events-Keeps : Keeps (wait_for_events wire goos docker sandbox pid)
  wait_for_events-Keeps = record { kept = λ v. (wait_loop-Keeps (wire.wakes v.world)).kept v }

  pub wait_for_container_ready-Keeps : Keeps (wait_for_container_ready wire goos docker sandbox pid)
  unfolding wait_for_container_ready
  wait_for_container_ready-Keeps = Keeps-bind Keeps-instance_of_vm λ i. wait_for_events-Keeps

  pub runtime_restore-Keeps :
      (state : Text) → Keeps (runtime_restore wire goos docker sandbox pid state)
  unfolding runtime_restore
  runtime_restore-Keeps state = Keeps-bind Keeps-lift λ payload.
      Keeps-bind (call_runtime_endpoint-Keeps (codes "/vmm/restore") payload) λ reply.
        Keeps-bind (Keeps-expect_ok reply) λ body.
          Keeps-bind Keeps-lift
            λ response. Keeps-bind (Keeps-expect_status response) λ state'. Keeps-lift

  pub spawn-Keeps :
      (cu_addr data_text : Text) (tags : List Tag)
      → Keeps (spawn wire goos docker sandbox pid cu_addr data_text tags)
  unfolding spawn
  spawn-Keeps cu_addr data_text tags = Keeps-bind Keeps-instance_of_vm λ i.
      Keeps-bind Keeps-lift λ payload.
        Keeps-bind (call_runtime_endpoint-Keeps (codes "/vmm/spawn") payload)
          λ reply. Keeps-bind (Keeps-expect_ok reply) λ body. Keeps-lift

  pub resume-Keeps :
      (manager : RuntimeManager World) (state : Text)
      → Keeps (resume wire goos docker sandbox pid manager state)
  unfolding resume
  resume-Keeps manager state =
      Keeps-bind (Keeps-wrapping start_runtime_failed (Keeps-in_world (manager.start_instance pid)))
        λ d.
          Keeps-bind (Keeps-wrapping runtime_not_ready wait_for_container_ready-Keeps)
            λ d'. Keeps-wrapping restore_runtime_state_failed (runtime_restore-Keeps state)
