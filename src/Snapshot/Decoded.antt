-- ===== src/Snapshot/Decoded.antt =====
-- A workspace's checkpoint and its decoding.
use vmdockerv.Base.{
  Op, Result, Result-cases, Text, [], arith, false, inl, inr, is_empty, ok, refl, text_discrete,
  text_eq, text_eq_self, trim_space, ◌≡◌,
}
use vmdockerv.Snapshot.{
  RuntimeWorkspaceCheckpoint, checkpoint_runtime_workspace, decode_payload,
  decode_runtime_workspace_snapshot, normalize_workspace_checkpoint_name, payload_of,
  runtime_workspace_checkpoint_format_v1,
}

no_empty_format : text_eq runtime_workspace_checkpoint_format_v1 [] ≡ false
unfolding text_discrete
no_empty_format = refl

-- A checkpoint of a workspace, decoded under the name that it was taken with, gives the archive of the
-- directory, when JSON gives back the payload that it wrote, and neither text is blank.
pub decode_runtime_workspace_snapshot-checkpoint :
    {World : Type 0} (compress_directory : Text → Op World Text)
    (marshal : RuntimeWorkspaceCheckpoint → Result Text)
    (unmarshal : Text → Result RuntimeWorkspaceCheckpoint)
    (inverse : (p : RuntimeWorkspaceCheckpoint) (t : Text)
      → marshal p ≡ ok t
      → (unmarshal t ≡ ok p) × (is_empty (trim_space t) ≡ false))
    (workspace name snapshot archive : Text) (w : World)
    → (compress_directory workspace w).0 ≡ ok archive
    → is_empty (trim_space archive) ≡ false
    → (checkpoint_runtime_workspace compress_directory marshal workspace name w).0 ≡ ok snapshot
    → decode_runtime_workspace_snapshot unmarshal snapshot name ≡ ok archive
unfolding checkpoint_runtime_workspace decode_runtime_workspace_snapshot decode_payload
decode_runtime_workspace_snapshot-checkpoint compress_directory marshal unmarshal inverse workspace
      name snapshot archive w a b h =
    elim (Result-cases (marshal (payload_of name archive))) [
      | inl (t, e) ↦ ground (
        arith,
        e,
        inverse (payload_of name archive) t e,
        text_eq_self (normalize_workspace_checkpoint_name name),
        text_eq_self runtime_workspace_checkpoint_format_v1,
        no_empty_format,
      )
      | inr (f, e) ↦ ground (arith, e)
    ]

-- A snapshot whose JSON has a format decodes only when that is the one format and the name is the
-- expected one; it gives the payload's archive, which is not blank.
pub decode_runtime_workspace_snapshot-ok :
    (unmarshal : Text → Result RuntimeWorkspaceCheckpoint) (snapshot name archive : Text)
    (p : RuntimeWorkspaceCheckpoint)
    → unmarshal snapshot ≡ ok p
    → text_eq p.format [] ≡ false
    → decode_runtime_workspace_snapshot unmarshal snapshot name ≡ ok archive
    → (p.format ≡ runtime_workspace_checkpoint_format_v1)
      × (p.name ≡ normalize_workspace_checkpoint_name name)
      × (archive ≡ p.archive)
      × (is_empty (trim_space archive) ≡ false)
unfolding decode_runtime_workspace_snapshot decode_payload
decode_runtime_workspace_snapshot-ok unmarshal snapshot name archive p a b h = ground arith
