-- ===== src/Workspace.antt =====
-- vmdocker/runtimemanager/env.go: the directories of a runtime's workspace on the host.
pub mod Layout
mod Samples
use vmdockerv.Base.{
  Done, List, Op, Text, [], chmod_workspace_failed, create_workspace_failed, if◌then◌else◌, pure,
  text_eq, wrapping, ◌>>=◌, ◌>>◌, ◌∷◌,
}
use vmdockerv.Env.{runtime_tmp_dir, runtime_workspace_dir, runtime_workspace_layout_dirs}
use vmdockerv.Host.{Host}
use vmdockerv.Paths.{join_paths}

module _ (host : Host) where
  open host use {World, getwd, abs, mkdir_all, chmod}

  unfoldable pub resolve_runtime_workspace : Text → Text → Op World Text
  resolve_runtime_workspace pid root = do
    root' ← if text_eq root [] then getwd else abs root
    pure (join_paths (root' ∷ runtime_workspace_dir ∷ pid ∷ []))

  unfoldable pub ensure_runtime_workspace_dirs : List Text → Op World Done
  ensure_runtime_workspace_dirs [] = pure tt
  ensure_runtime_workspace_dirs (path ∷ dirs) = do
    wrapping create_workspace_failed (mkdir_all path 0o777)
    wrapping chmod_workspace_failed (chmod path 0o777)
    ensure_runtime_workspace_dirs dirs

  unfoldable pub ensure_runtime_workspace_layout : Text → Op World Done
  unfolding ensure_runtime_workspace_dirs
  ensure_runtime_workspace_layout workspace =
      ensure_runtime_workspace_dirs (runtime_workspace_layout_dirs workspace)

  unfoldable pub ensure_runtime_workspace : Text → Text → Op World Text
  unfolding resolve_runtime_workspace ensure_runtime_workspace_layout
  ensure_runtime_workspace pid root = do
    workspace ← resolve_runtime_workspace pid root
    ensure_runtime_workspace_layout workspace
    pure workspace

  unfoldable pub ensure_runtime_workspace_root : Text → Text → Op World Text
  unfolding resolve_runtime_workspace ensure_runtime_workspace_dirs
  ensure_runtime_workspace_root pid root = do
    workspace ← resolve_runtime_workspace pid root
    ensure_runtime_workspace_dirs (workspace ∷ [])
    pure workspace

  unfoldable pub ensure_runtime_tmp_dir : Text → Op World Text
  unfolding ensure_runtime_workspace_dirs
  ensure_runtime_tmp_dir workspace = do
    ensure_runtime_workspace_dirs (runtime_tmp_dir workspace ∷ [])
    pure (runtime_tmp_dir workspace)
