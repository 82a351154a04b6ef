-- ===== src/Docker/Interface.antt =====
-- The Docker manager as a runtime manager.
use vmdockerv.Base.{
  Done, Error, List, Text, ap, err, lookup, lookup-delete_self, lookup-insert_self, none, ok, some,
  ◌≡◌,
}
use vmdockerv.Docker.{System, create_instance, exec_instance, remove_instance, start_instance}
use vmdockerv.Docker.Lifecycle.{create_instance-err, create_instance-ok, remove_instance-ok}
use vmdockerv.Host.{Host}
use vmdockerv.Manager.{RuntimeManager}
use vmdockerv.Schema.{InstanceInfo, RuntimeSpec}

module _ (host : Host) where
  pub docker_create_stores :
      (pid : Text) (spec : RuntimeSpec) (env : List Text) (s : System (host.World))
      (i : InstanceInfo)
      → (create_instance host pid spec env s).0 ≡ ok i
      → lookup pid (create_instance host pid spec env s).1.manager.instances ≡ some i
  docker_create_stores pid spec env s i h =
      rw (create_instance-ok host pid spec env s i h).3
        (lookup-insert_self pid i s.manager.instances)

  pub docker_create_keeps :
      (pid : Text) (spec : RuntimeSpec) (env : List Text) (s : System (host.World)) (e : Error)
      → (create_instance host pid spec env s).0 ≡ err e
      → lookup pid (create_instance host pid spec env s).1.manager.instances
        ≡ lookup pid s.manager.instances
  docker_create_keeps pid spec env s e h =
      ap (λ m. lookup pid m) (create_instance-err host pid spec env s e h).instances

  pub docker_remove_clears :
      (pid : Text) (s : System (host.World)) (d : Done)
      → (remove_instance host pid s).0 ≡ ok d
      → lookup pid (remove_instance host pid s).1.manager.instances ≡ none
  docker_remove_clears pid s d h =
      rw (remove_instance-ok host pid s d h).2 (lookup-delete_self pid s.manager.instances)

  unfoldable pub docker_runtime : RuntimeManager (System (host.World))
  docker_runtime = record {
    create_instance = create_instance host;
    remove_instance = remove_instance host;
    start_instance = start_instance host;
    exec_instance = exec_instance host;
    instance_of = λ pid s. lookup pid s.manager.instances;
    create_instance_stores = docker_create_stores;
    create_instance_keeps = docker_create_keeps;
    remove_instance_clears = docker_remove_clears;
  }
