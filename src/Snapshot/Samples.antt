-- ===== src/Snapshot/Samples.antt =====
-- A JSON text that keeps the archive, with the fields of one checkpoint around it.
use vmdockerv.Base.{
  Op, Result, Text, [], ap, arith, codes, err, external, false, if◌then◌else◌, is_empty, ok, pure,
  refl, subst, text_discrete, text_eq, trim_space, ◌&&◌, ◌∙◌, ◌≡◌,
}
use vmdockerv.Snapshot.{
  RuntimeWorkspaceCheckpoint, checkpoint_runtime_workspace, decode_payload,
  decode_runtime_workspace_snapshot, payload_of,
}
use vmdockerv.Snapshot.Decoded.{decode_runtime_workspace_snapshot-checkpoint}

abbrev sample_payload : RuntimeWorkspaceCheckpoint
sample_payload = payload_of [] (codes "zip")

-- Writes the format, the length of the name, the name and the archive.
abbrev write : RuntimeWorkspaceCheckpoint → Result Text
write p =
    if text_eq p.format sample_payload.format
      && text_eq p.name sample_payload.name
      && text_eq p.archive sample_payload.archive
    then ok (codes "{zip}")
    else err (external (codes "unsupported value"))

abbrev read : Text → Result RuntimeWorkspaceCheckpoint
read t =
    if text_eq t (codes "{zip}") then ok sample_payload else err (external (codes "syntax error"))

reads : read (codes "{zip}") ≡ ok sample_payload
unfolding text_discrete trim_space
reads = refl

text_is_not_blank : is_empty (trim_space (codes "{zip}")) ≡ false
unfolding trim_space
text_is_not_blank = refl

writes_one :
    (p : RuntimeWorkspaceCheckpoint) (t : Text)
    → write p ≡ ok t
    → (codes "{zip}" ≡ t) × (sample_payload ≡ p)
writes_one p t h = ground arith

reads_what_it_writes :
    (p : RuntimeWorkspaceCheckpoint) (t : Text)
    → write p ≡ ok t
    → (read t ≡ ok p) × (is_empty (trim_space t) ≡ false)
reads_what_it_writes p t h = (
  subst (λ u. read u ≡ ok p) (writes_one p t h).0 (reads ∙ ap ok (writes_one p t h).1),
  subst (λ u. is_empty (trim_space u) ≡ false) (writes_one p t h).0 text_is_not_blank,
)

abbrev zipped : Text → Op (Unit {0}) Text
zipped workspace = pure (codes "zip")

not_blank : is_empty (trim_space (codes "zip")) ≡ false
unfolding trim_space
not_blank = refl

writes : (checkpoint_runtime_workspace zipped write (codes "/data/p1") [] tt).0 ≡ ok (codes "{zip}")
unfolding checkpoint_runtime_workspace text_discrete trim_space
writes = refl

has_format : text_eq sample_payload.format [] ≡ false
unfolding text_discrete trim_space
has_format = refl

decodes : decode_runtime_workspace_snapshot read (codes "{zip}") [] ≡ ok (codes "zip")
unfolding decode_runtime_workspace_snapshot decode_payload text_discrete trim_space
decodes = refl

decode_runtime_workspace_snapshot-checkpoint_example :
    decode_runtime_workspace_snapshot read (codes "{zip}") [] ≡ ok (codes "zip")
decode_runtime_workspace_snapshot-checkpoint_example =
    decode_runtime_workspace_snapshot-checkpoint zipped write read reads_what_it_writes
      (codes "/data/p1") [] (codes "{zip}") (codes "zip") tt refl not_blank writes
