-- ===== src/Sandbox/Snapshots.antt =====
-- vmdocker/runtimemanager/sandbox.go: `Checkpoint` and `Restore` of the sandbox manager.
use vmdockerv.Base.{Done, Op, Text, arith, ◌>>=◌, ◌≡◌}
use vmdockerv.Host.{Host}
use vmdockerv.Promotion.{Store, restore_runtime_workspace}
use vmdockerv.Sandbox.{SandboxSystem, at_world, get_sandbox_instance}
use vmdockerv.Snapshot.{checkpoint_runtime_workspace}

module _ (host : Host) (store : Store (host.World)) where
  open host use {World}

  unfoldable pub checkpoint_sandbox_instance : Text → Text → Op (SandboxSystem World) Text
  checkpoint_sandbox_instance pid checkpoint_name = do
    instance ← get_sandbox_instance pid
    at_world (
        checkpoint_runtime_workspace store.compress_directory store.marshal instance.workspace
          checkpoint_name)

  unfoldable pub restore_sandbox_instance : Text → Text → Text → Op (SandboxSystem World) Done
  restore_sandbox_instance pid checkpoint_name snapshot = do
    instance ← get_sandbox_instance pid
    at_world (
        restore_runtime_workspace store.files store.unmarshal instance.workspace checkpoint_name
          snapshot)

  pub checkpoint_sandbox_instance_keeps :
      (pid checkpoint_name : Text) (s : SandboxSystem World)
      → (checkpoint_sandbox_instance pid checkpoint_name s).1.manager ≡ s.manager
  unfolding checkpoint_sandbox_instance
  checkpoint_sandbox_instance_keeps pid checkpoint_name s = ground arith

  pub restore_sandbox_instance_keeps :
      (pid checkpoint_name snapshot : Text) (s : SandboxSystem World)
      → (restore_sandbox_instance pid checkpoint_name snapshot s).1.manager ≡ s.manager
  unfolding restore_sandbox_instance
  restore_sandbox_instance_keeps pid checkpoint_name snapshot s = ground arith
