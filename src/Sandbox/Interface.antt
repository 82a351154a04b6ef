-- ===== src/Sandbox/Interface.antt =====
-- The sandbox manager as a runtime manager.
use vmdockerv.Base.{
  Done, Error, List, Result, Text, ap, err, lookup, lookup-delete_self, lookup-insert_self, none,
  ok, some, ◌≡◌,
}
use vmdockerv.Host.{Host}
use vmdockerv.Manager.{RuntimeManager}
use vmdockerv.Sandbox.{
  SandboxSystem, create_sandbox_instance, exec_sandbox_instance, remove_sandbox_instance,
  start_sandbox_instance,
}
use vmdockerv.Sandbox.Lifecycle.{
  create_sandbox_instance-err, create_sandbox_instance-ok, remove_sandbox_instance-ok,
}
use vmdockerv.SandboxCli.{TemplateInspect}
use vmdockerv.Schema.{InstanceInfo, RuntimeSpec}

module _ (host : Host) (unmarshal_inspect : Text → Result (List TemplateInspect)) where
  pub sandbox_create_stores :
      (pid : Text) (spec : RuntimeSpec) (env : List Text) (s : SandboxSystem (host.World))
      (i : InstanceInfo)
      → (create_sandbox_instance host unmarshal_inspect pid spec env s).0 ≡ ok i
      → lookup pid
          (create_sandbox_instance host unmarshal_inspect pid spec env s).1.manager.instances
        ≡ some i
  sandbox_create_stores pid spec env s i h =
      rw (create_sandbox_instance-ok host unmarshal_inspect pid spec env s i h).3
        (lookup-insert_self pid i s.manager.instances)

  pub sandbox_create_keeps :
      (pid : Text) (spec : RuntimeSpec) (env : List Text) (s : SandboxSystem (host.World))
      (e : Error)
      → (create_sandbox_instance host unmarshal_inspect pid spec env s).0 ≡ err e
      → lookup pid
          (create_sandbox_instance host unmarshal_inspect pid spec env s).1.manager.instances
        ≡ lookup pid s.manager.instances
  sandbox_create_keeps pid spec env s e h =
      ap (λ m. lookup pid m)
        (create_sandbox_instance-err host unmarshal_inspect pid spec env s e h).0.instances

  pub sandbox_remove_clears :
      (pid : Text) (s : SandboxSystem (host.World)) (d : Done)
      → (remove_sandbox_instance host unmarshal_inspect pid s).0 ≡ ok d
      → lookup pid (remove_sandbox_instance host unmarshal_inspect pid s).1.manager.instances ≡ none
  sandbox_remove_clears pid s d h =
      rw (remove_sandbox_instance-ok host unmarshal_inspect pid s d h).2
        (lookup-delete_self pid s.manager.instances)

  unfoldable pub sandbox_runtime : RuntimeManager (SandboxSystem (host.World))
  sandbox_runtime = record {
    create_instance = create_sandbox_instance host unmarshal_inspect;
    remove_instance = remove_sandbox_instance host unmarshal_inspect;
    start_instance = start_sandbox_instance host unmarshal_inspect;
    exec_instance = exec_sandbox_instance host unmarshal_inspect;
    instance_of = λ pid s. lookup pid s.manager.instances;
    create_instance_stores = sandbox_create_stores;
    create_instance_keeps = sandbox_create_keeps;
    remove_instance_clears = sandbox_remove_clears;
  }
