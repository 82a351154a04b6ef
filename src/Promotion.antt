-- ===== src/Promotion.antt =====
-- vmdocker/runtimemanager/env.go: a workspace is restored beside the active one and swapped into its
-- place, with a backup to roll back to.
pub mod Swap
pub mod Moves
pub mod Restored
mod Samples
use vmdockerv.Base.{
  Bool, Done, Error, Op, Result, Text, [], activate_failed, backup_failed, codes, deferring, err,
  false, if◌then◌else◌, inspect_workspace_failed, not, ok, on_error, pure, remove_activated_failed,
  remove_backup_failed, require, restore_backup_failed, restore_staged_failed, stage_failed,
  text_eq, true, workspace_is_root, wrapf, wrapping, ◌++◌, ◌>>=◌, ◌>>◌, ◌∷◌,
}
use vmdockerv.Paths.{base, clean, dir, join_paths}
use vmdockerv.Snapshot.{RuntimeWorkspaceCheckpoint, decode_runtime_workspace_snapshot}

-- What `os.Stat` tells of a path.
pub data Presence : Type 0 where
  there absent : Presence
  unknown : Error → Presence

-- Files, the clock and the archives of utils/zip.go, with `ensure_layout` for
-- `ensureRuntimeWorkspaceLayout`.
pub record Files (World : Type 0) : Type 0 where
  pub abs : Text → Op World Text
  pub stat : Text → World → Presence
  pub rename : Text → Text → Op World Done
  pub remove_all : Text → Op World Done
  pub mkdir_temp : Text → Text → Op World Text
  pub now_text : World → Text
  pub decompress_to_directory : Text → Text → Op World Done
  pub ensure_layout : Text → Op World Done

-- What the functions `rollback` and `commit` hold.
pub record Promoted : Type 0 where
  pub workspace : Text
  pub backup : Text
  pub has_backup : Bool

-- Files, with the archive of a directory, and JSON for the text of a checkpoint.
pub record Store (World : Type 0) : Type 0 where
  pub files : Files World
  pub compress_directory : Text → Op World Text
  pub marshal : RuntimeWorkspaceCheckpoint → Result Text
  pub unmarshal : Text → Result RuntimeWorkspaceCheckpoint

module _ {World : Type 0} (files : Files World) where
  open files use {
    abs, stat, rename, remove_all, mkdir_temp, now_text, decompress_to_directory, ensure_layout,
  }

  unfoldable pub normalize_runtime_workspace_path : Text → Op World Text
  normalize_runtime_workspace_path workspace = do
    cleaned ← abs (clean workspace)
    require (not (text_eq cleaned (codes "/"))) workspace_is_root
    pure cleaned

  abbrev pub backup_path : Text → World → Text
  backup_path cleaned w =
      join_paths (dir cleaned ∷ (base cleaned ++ (codes ".backup-" ++ now_text w)) ∷ [])

  -- The active workspace, if there is one, is moved to the backup.
  unfoldable pub back_up : Text → Text → Op World Bool
  back_up cleaned backup w = elim (stat cleaned w) [
    | there ↦ (do wrapping backup_failed (rename cleaned backup); pure true) w
    | absent ↦ (ok false, w)
    | unknown e ↦ (err (wrapf inspect_workspace_failed e), w)
  ]

  -- `_ = os.Rename(backupWorkspace, cleanedWorkspace)`, if there is a backup.
  abbrev pub move_back : Text → Text → Bool → World → World
  move_back cleaned backup true w = (rename backup cleaned w).1
  move_back cleaned backup false w = w

  unfoldable pub activate : Text → Text → Text → Bool → Op World Promoted
  activate staged cleaned backup has_backup = do
    wrapping activate_failed
        (on_error (move_back cleaned backup has_backup) (rename staged cleaned))
    pure (record { workspace = cleaned; backup = backup; has_backup = has_backup })

  -- The swap of two clean paths.
  unfoldable pub swap : Text → Text → Text → Op World Promoted
  unfolding back_up activate
  swap cleaned staged backup = do
    has_backup ← back_up cleaned backup
    activate staged cleaned backup has_backup

  unfoldable pub promote_runtime_workspace : Text → Text → Op World Promoted
  unfolding normalize_runtime_workspace_path swap
  promote_runtime_workspace workspace staged = do
    cleaned ← normalize_runtime_workspace_path workspace
    cleaned_staged ← normalize_runtime_workspace_path staged
    (λ w. swap cleaned cleaned_staged (backup_path cleaned w) w)

  abbrev restore_backup : Promoted → Bool → Op World Done
  restore_backup p true = wrapping restore_backup_failed (rename p.backup p.workspace)
  restore_backup p false = pure tt

  unfoldable pub rollback : Promoted → Op World Done
  rollback p = do
    wrapping remove_activated_failed (remove_all p.workspace)
    restore_backup p p.has_backup

  unfoldable pub commit : Promoted → Op World Done
  commit p = if p.has_backup then wrapping remove_backup_failed (remove_all p.backup) else pure tt

  -- The error paths after `MkdirTemp` remove the directory again.
  abbrev pub discard : Text → World → World
  discard staged w = (remove_all staged w).1

  unfoldable pub stage_runtime_workspace_restore :
      (Text → Result RuntimeWorkspaceCheckpoint) → Text → Text → Text → Op World Text
  unfolding normalize_runtime_workspace_path
  stage_runtime_workspace_restore unmarshal workspace checkpoint_name snapshot = do
    cleaned ← normalize_runtime_workspace_path workspace
    archive ← (λ w. (decode_runtime_workspace_snapshot unmarshal snapshot checkpoint_name, w))
    staged ← wrapping stage_failed (mkdir_temp (dir cleaned) (base cleaned ++ codes ".restore-"))
    on_error (discard staged)
        (wrapping restore_staged_failed (decompress_to_directory archive staged))
    on_error (discard staged) (ensure_layout staged)
    pure staged

  -- `_ = rollback()` on the error path of `commit`.
  unfoldable pub commit_or_rollback : Promoted → Op World Done
  unfolding commit rollback
  commit_or_rollback p = on_error (λ w. (rollback p w).1) (commit p)

  unfoldable pub restore_runtime_workspace :
      (Text → Result RuntimeWorkspaceCheckpoint) → Text → Text → Text → Op World Done
  unfolding stage_runtime_workspace_restore promote_runtime_workspace commit_or_rollback
  restore_runtime_workspace unmarshal workspace checkpoint_name snapshot = do
    staged ← stage_runtime_workspace_restore unmarshal workspace checkpoint_name snapshot
    deferring (discard staged)
        (do p ← promote_runtime_workspace workspace staged; commit_or_rollback p)
