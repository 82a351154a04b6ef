-- ===== src/Docker/Snapshots.antt =====
-- vmdocker/runtimemanager/docker.go: `Checkpoint` and `Restore` of the Docker manager.
use vmdockerv.Base.{Done, Op, Text, arith, ◌>>=◌, ◌≡◌}
use vmdockerv.Docker.{System, get_instance, on_world}
use vmdockerv.Host.{Host}
use vmdockerv.Promotion.{Store, restore_runtime_workspace}
use vmdockerv.Snapshot.{checkpoint_runtime_workspace}

module _ (host : Host) (store : Store (host.World)) where
  open host use {World}

  unfoldable pub checkpoint_instance : Text → Text → Op (System World) Text
  checkpoint_instance pid checkpoint_name = do
    instance ← get_instance pid
    on_world (
        checkpoint_runtime_workspace store.compress_directory store.marshal instance.workspace
          checkpoint_name)

  unfoldable pub restore_instance : Text → Text → Text → Op (System World) Done
  restore_instance pid checkpoint_name snapshot = do
    instance ← get_instance pid
    on_world (
        restore_runtime_workspace store.files store.unmarshal instance.workspace checkpoint_name
          snapshot)

  pub checkpoint_instance_keeps :
      (pid checkpoint_name : Text) (s : System World)
      → (checkpoint_instance pid checkpoint_name s).1.manager ≡ s.manager
  unfolding checkpoint_instance
  checkpoint_instance_keeps pid checkpoint_name s = ground arith

  pub restore_instance_keeps :
      (pid checkpoint_name snapshot : Text) (s : System World)
      → (restore_instance pid checkpoint_name snapshot s).1.manager ≡ s.manager
  unfolding restore_instance
  restore_instance_keeps pid checkpoint_name snapshot s = ground arith
