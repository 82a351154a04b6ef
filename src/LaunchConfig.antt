-- ===== src/LaunchConfig.antt =====
-- vmdocker/vmdocker.go: the launch configuration of a runtime that is created again, by a checkpoint
-- or by a restore.
pub mod Resolved
pub mod Cycle
mod Samples
use vmdockerv.Base.{
  Bool, List, Option, Result, Text, [], checkpoint_backend_is_empty, checkpoint_backend_mismatch,
  codes, err, errorf, if◌then◌else◌, instance_info_is_nil, is_blank, none, not, ok, some, text_eq,
  ◌&&◌, ◌||◌, ◌∷◌,
}
use vmdockerv.ContainerEnv.{container_env_from_tags}
use vmdockerv.Env.{runtime_workspace_root_from_path}
use vmdockerv.RuntimeSpecs.{runtime_spec_from_module_and_spawn_tags}
use vmdockerv.Schema.{InstanceInfo, RuntimeSpec, Tag}

-- `workspaceCheckpoint`, as it is before and after its JSON text.
pub record WorkspaceCheckpoint : Type 0 where
  pub format : Text
  pub workspace_archive : Text
  pub workspace_checkpoint_name : Text
  pub runtime_state : Text
  pub backend : Text
  pub runtime_spec : RuntimeSpec
  pub runtime_env : List Text

pub record RuntimeLaunchConfig : Type 0 where
  pub runtime_spec : RuntimeSpec
  pub runtime_env : List Text

abbrev pub workspace_checkpoint_format_v1 : Text
workspace_checkpoint_format_v1 = codes "vmdocker.workspace.v1"

unfoldable pub checkpoint_workspace_name : Text → Text
checkpoint_workspace_name name = if is_blank name then codes "workspace" else name

-- `cloneRuntimeSpec` gives the same value.
unfoldable pub normalize_runtime_spec_workspace_root : RuntimeSpec → Text → RuntimeSpec
normalize_runtime_spec_workspace_root spec target =
    if not (is_blank target)
    then record spec {
      sandbox = record (spec.sandbox) { workspace = runtime_workspace_root_from_path target };
    }
    else spec

unfoldable pub has_runtime_spec : RuntimeSpec → Bool
has_runtime_spec spec =
    not (is_blank spec.backend)
    || not (is_blank spec.image.name)
    || not (is_blank spec.image.sha)
    || not (is_blank spec.sandbox.agent)
    || not (is_blank spec.sandbox.network)
    || not (is_blank spec.sandbox.name)

-- `if len(runtimeEnv) == 0`
abbrev pub env_or : List Text → List Text → List Text
env_or [] fallback = fallback
env_or (e ∷ env) fallback = e ∷ env

-- The spec of the checkpoint, or else the fallback, with the checkpoint's backend.
unfoldable pub restore_spec : WorkspaceCheckpoint → RuntimeSpec → Result RuntimeSpec
restore_spec checkpoint fallback =
    let from_checkpoint = has_runtime_spec checkpoint.runtime_spec in
    let spec = if from_checkpoint then checkpoint.runtime_spec else fallback in
    if not (text_eq checkpoint.backend [])
    then (if from_checkpoint
          && not (text_eq spec.backend [])
          && not (text_eq spec.backend checkpoint.backend)
        then err (errorf checkpoint_backend_mismatch)
        else ok (record spec { backend = checkpoint.backend }))
    else ok spec

unfoldable pub resolve_restore_launch_config :
    WorkspaceCheckpoint → RuntimeSpec → List Tag → Text → Result RuntimeLaunchConfig
unfolding restore_spec
resolve_restore_launch_config checkpoint fallback tags target =
    elim (restore_spec checkpoint fallback) [
      | err e ↦ err e
      | ok spec ↦
          if text_eq spec.backend []
          then err (errorf checkpoint_backend_is_empty)
          else ok (record {
            runtime_spec = normalize_runtime_spec_workspace_root spec target;
            runtime_env = env_or checkpoint.runtime_env (container_env_from_tags tags);
          })
    ]

module _ (get_tags_value_by_default : Text → List Tag → Text → Text) where
  unfoldable pub current_launch_config :
      Text → List Tag → List Tag → Option InstanceInfo → Result RuntimeLaunchConfig
  current_launch_config format module_tags process_tags none = err (errorf instance_info_is_nil)
  current_launch_config format module_tags process_tags (some i) =
      if has_runtime_spec i.runtime_spec
      then ok (record {
        runtime_spec = normalize_runtime_spec_workspace_root i.runtime_spec i.workspace;
        runtime_env = i.runtime_env;
      })
      else elim (runtime_spec_from_module_and_spawn_tags get_tags_value_by_default format
          module_tags process_tags) [
            | err e ↦ err e
            | ok spec ↦ ok (record {
              runtime_spec =
                  normalize_runtime_spec_workspace_root (record spec { backend = i.backend })
                    i.workspace;
              runtime_env = container_env_from_tags process_tags;
            })
          ]

-- The checkpoint that `Checkpoint` marshals.
unfoldable pub checkpoint_of : Text → Text → Text → RuntimeLaunchConfig → WorkspaceCheckpoint
checkpoint_of archive name state launch = record {
  format = workspace_checkpoint_format_v1;
  workspace_archive = archive;
  workspace_checkpoint_name = name;
  runtime_state = state;
  backend = launch.runtime_spec.backend;
  runtime_spec = launch.runtime_spec;
  runtime_env = launch.runtime_env;
}
