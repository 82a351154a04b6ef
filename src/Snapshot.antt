-- ===== src/Snapshot.antt =====
-- vmdocker/runtimemanager/env.go: the text of a workspace's checkpoint.
pub mod Decoded
mod Samples
use vmdockerv.Base.{
  Op, Result, Text, [], checkpoint_archive_is_empty, checkpoint_format_unsupported,
  checkpoint_name_mismatch, codes, err, errorf, if◌then◌else◌, is_empty, marshal_failed, not, ok,
  require, snapshot_is_empty, text_eq, trim_space, workspace_is_empty, wrapping, ◌>>=◌, ◌>>◌,
}

pub record RuntimeWorkspaceCheckpoint : Type 0 where
  pub format : Text
  pub name : Text
  pub archive : Text

abbrev pub runtime_workspace_checkpoint_format_v1 : Text
runtime_workspace_checkpoint_format_v1 = codes "vmdocker.runtime-workspace.v1"

unfoldable pub normalize_workspace_checkpoint_name : Text → Text
normalize_workspace_checkpoint_name checkpoint_name =
    if is_empty (trim_space checkpoint_name) then codes "workspace" else checkpoint_name

-- The payload of a checkpoint.
abbrev pub payload_of : Text → Text → RuntimeWorkspaceCheckpoint
payload_of name archive = record {
  format = runtime_workspace_checkpoint_format_v1;
  name = normalize_workspace_checkpoint_name name;
  archive = archive;
}

-- `utils.CompressDirectory` of a directory, and JSON, are parameters.
module _ {World : Type 0} (compress_directory : Text → Op World Text)
    (marshal : RuntimeWorkspaceCheckpoint → Result Text) where
  abbrev marshalled : RuntimeWorkspaceCheckpoint → Op World Text
  marshalled payload w = (marshal payload, w)

  unfoldable pub checkpoint_runtime_workspace : Text → Text → Op World Text
  unfolding normalize_workspace_checkpoint_name
  checkpoint_runtime_workspace workspace checkpoint_name = do
    require (not (is_empty (trim_space workspace))) workspace_is_empty
    archive ← compress_directory workspace
    wrapping marshal_failed (marshalled (payload_of checkpoint_name archive))

module _ (unmarshal : Text → Result RuntimeWorkspaceCheckpoint) where
  -- A payload with a format; an empty format is that of a bare archive.
  unfoldable pub decode_payload : Text → Text → RuntimeWorkspaceCheckpoint → Result Text
  unfolding normalize_workspace_checkpoint_name
  decode_payload snapshot checkpoint_name payload =
      if text_eq payload.format []
      then ok snapshot
      else if not (text_eq payload.format runtime_workspace_checkpoint_format_v1)
      then err (errorf checkpoint_format_unsupported)
      else if not (text_eq payload.name (normalize_workspace_checkpoint_name checkpoint_name))
      then err (errorf checkpoint_name_mismatch)
      else if is_empty (trim_space payload.archive)
      then err (errorf checkpoint_archive_is_empty)
      else ok payload.archive

  unfoldable pub decode_runtime_workspace_snapshot : Text → Text → Result Text
  unfolding decode_payload
  decode_runtime_workspace_snapshot snapshot checkpoint_name =
      if is_empty (trim_space snapshot)
      then err (errorf snapshot_is_empty)
      else elim (unmarshal snapshot) [
        | err e ↦ ok snapshot
        | ok payload ↦ decode_payload snapshot checkpoint_name payload
      ]
