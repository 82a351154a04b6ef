-- ===== src/LaunchConfig/Resolved.antt =====
-- What the launch of a restored runtime takes from the checkpoint.
use vmdockerv.Base.{
  List, Text, [], arith, checkpoint_backend_mismatch, err, errorf, false, if◌then◌else◌, is_blank,
  not, ok, text_eq, ◌≡◌,
}
use vmdockerv.Env.{runtime_workspace_root_from_path}
use vmdockerv.LaunchConfig.{
  RuntimeLaunchConfig, WorkspaceCheckpoint, has_runtime_spec, normalize_runtime_spec_workspace_root,
  resolve_restore_launch_config, restore_spec,
}
use vmdockerv.Schema.{RuntimeSpec, Tag}

-- A launch that a restore resolves has a backend: the checkpoint's own, or that of its spec when it
-- has none. It is below the root of a target that is not blank, whatever root was recorded, and its
-- image is the checkpoint's, or the fallback's when the checkpoint has no spec.
pub resolve_restore_launch_config-ok :
    (checkpoint : WorkspaceCheckpoint) (fallback : RuntimeSpec) (tags : List Tag) (target : Text)
    (c : RuntimeLaunchConfig)
    → resolve_restore_launch_config checkpoint fallback tags target ≡ ok c
    → (text_eq c.runtime_spec.backend [] ≡ false)
      × (c.runtime_spec.backend ≡ (
          if text_eq checkpoint.backend []
          then (if has_runtime_spec checkpoint.runtime_spec
              then checkpoint.runtime_spec.backend
              else fallback.backend)
          else checkpoint.backend))
      × (c.runtime_spec.sandbox.workspace ≡ (
          if not (is_blank target)
          then runtime_workspace_root_from_path target
          else if has_runtime_spec checkpoint.runtime_spec
          then checkpoint.runtime_spec.sandbox.workspace
          else fallback.sandbox.workspace))
      × (c.runtime_spec.image ≡ (
          if has_runtime_spec checkpoint.runtime_spec
          then checkpoint.runtime_spec.image
          else fallback.image))
unfolding resolve_restore_launch_config restore_spec normalize_runtime_spec_workspace_root
resolve_restore_launch_config-ok checkpoint fallback tags target c h = ground arith

-- A checkpoint whose spec names one backend and whose header names another is refused.
pub resolve_restore_launch_config-mismatch :
    (checkpoint : WorkspaceCheckpoint) (fallback : RuntimeSpec) (tags : List Tag) (target : Text)
    → text_eq checkpoint.backend [] ≡ false
    → is_blank checkpoint.runtime_spec.backend ≡ false
    → text_eq checkpoint.runtime_spec.backend [] ≡ false
    → text_eq checkpoint.runtime_spec.backend checkpoint.backend ≡ false
    → resolve_restore_launch_config checkpoint fallback tags target
      ≡ err (errorf checkpoint_backend_mismatch)
unfolding resolve_restore_launch_config restore_spec has_runtime_spec
resolve_restore_launch_config-mismatch checkpoint fallback tags target a b c d = ground arith
