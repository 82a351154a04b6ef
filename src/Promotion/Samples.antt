-- ===== src/Promotion/Samples.antt =====
-- A flat file system, where a path has its tree or none.
use vmdockerv.Base.{
  Bool-cases, Done, Error, Op, Option, Option-cases, Result, Text, [], arith, backup_failed, codes,
  err, external, false, if◌then◌else◌, inl, inr, join, none, ok, pure, refl, some, split,
  text_discrete, text_eq, text_eq_self, throw, trim_left_func, trim_space, true, wrapf, ◌∷◌, ◌≡◌,
  ◌⊎◌,
}
use vmdockerv.Paths.{base, clean, clean_segments, dir, join_paths, pop_segment, push_segment}
use vmdockerv.Promotion.{
  Files, Presence, Promoted, absent, activate, back_up, backup_path, commit, commit_or_rollback,
  normalize_runtime_workspace_path, promote_runtime_workspace, restore_runtime_workspace, rollback,
  stage_runtime_workspace_restore, swap, there,
}
use vmdockerv.Promotion.Moves.{MoveBackFails}
use vmdockerv.Promotion.Restored.{restore_runtime_workspace-err, restore_runtime_workspace-ok}
use vmdockerv.Promotion.Swap.{Trees, rollback-swap}
use vmdockerv.Snapshot.{RuntimeWorkspaceCheckpoint, decode_runtime_workspace_snapshot}

abbrev Flat : Type 0
Flat = Text → Option Text

-- `m` with `v` at `k`.
abbrev put : Text → Option Text → Flat → Flat
put k v m j = if text_eq j k then v else m j

abbrev rename_flat : Text → Text → Op Flat Done
rename_flat a b m = elim (m a) [
  | none ↦ (err (external (codes "no such file")), m)
  | some t ↦ (ok tt, put b (some t) (if text_eq a b then m else put a none m))
]

abbrev stat_flat : Text → Flat → Presence
stat_flat a m = elim (m a) [ some t ↦ there | none ↦ absent ]

abbrev flat_files : Files Flat
flat_files = record {
  abs = λ path. pure path;
  stat = stat_flat;
  rename = rename_flat;
  remove_all = λ a m. (ok tt, put a none m);
  mkdir_temp = λ parent prefix. pure (join_paths (parent ∷ prefix ∷ []));
  now_text = λ m. codes "1";
  decompress_to_directory = λ archive path m. (ok tt, put path (some archive) m);
  ensure_layout = λ path. pure tt;
}

rename_flat_moves :
    (a b : Text) (m : Flat) (d : Done)
    → (rename_flat a b m).0 ≡ ok d
    → (rename_flat a b m).1 b ≡ m a
rename_flat_moves a b m d h = elim (Option-cases (m a)) [
  | inl e ↦ ground (arith, e)
  | inr (t, e) ↦ ground (arith, e, text_eq_self b)
]

rename_flat_fails :
    (a b c : Text) (m : Flat) (e : Error)
    → (rename_flat a b m).0 ≡ err e
    → (rename_flat a b m).1 c ≡ m c
rename_flat_fails a b c m e h = elim (Option-cases (m a)) [
  | inl f ↦ ground (arith, f)
  | inr (t, f) ↦ ground (arith, f)
]

rename_flat_keeps :
    (a b c : Text) (m : Flat)
    → text_eq c a ≡ false
    → text_eq c b ≡ false
    → (rename_flat a b m).1 c ≡ m c
rename_flat_keeps a b c m p q = elim (Option-cases (m a)) [
  | inl e ↦ ground (arith, e)
  | inr (t, e) ↦ elim (Bool-cases (text_eq a b)) [
    | inl f ↦ ground (arith, e, f)
    | inr f ↦ ground (arith, e, f)
  ]
]

put_keeps : (a c : Text) (m : Flat) → text_eq c a ≡ false → (flat_files.remove_all a m).1 c ≡ m c
put_keeps a c m p = ground (arith, p)

abbrev flat_trees : Trees flat_files Text
flat_trees = record {
  tree = λ a m. m a;
  Apart = λ c a. text_eq c a ≡ false;
  rename_moves = rename_flat_moves;
  rename_fails = rename_flat_fails;
  rename_keeps = rename_flat_keeps;
  remove_all_keeps = put_keeps;
}

abbrev active : Text
active = codes "/d/p1"

abbrev restored : Text
restored = codes "/d/p1.restore-"

abbrev old_backup : Text
old_backup = codes "/d/p1.backup-1"

abbrev before : Flat
before = put active (some (codes "old")) (put restored (some (codes "new")) (λ path. none))

abbrev promoted : Promoted
promoted = record { workspace = active; backup = old_backup; has_backup = true }

backup_apart :
    (text_eq old_backup restored ≡ false)
    × (text_eq old_backup active ≡ false)
    × (flat_files.stat active before ≡ there)
unfolding text_discrete
backup_apart = (refl, refl, refl)

swaps :
    ((swap flat_files active restored old_backup before).0 ≡ ok promoted)
    × ((swap flat_files active restored old_backup before).1 active ≡ some (codes "new"))
unfolding swap back_up activate text_discrete
swaps = (refl, refl)

rolls_back :
    (rollback flat_files promoted (swap flat_files active restored old_backup before).1).0 ≡ ok tt
unfolding rollback swap back_up activate text_discrete
rolls_back = refl

rollback-swap_example :
    (rollback flat_files promoted (swap flat_files active restored old_backup before).1).1 active
    ≡ before active
rollback-swap_example =
    rollback-swap flat_files flat_trees active restored old_backup before promoted tt backup_apart.0
      backup_apart.1 backup_apart.2 swaps.0 rolls_back

abbrev unread : Text → Result RuntimeWorkspaceCheckpoint
unread t = err (external (codes "invalid character"))

abbrev old_only : Flat
old_only = put active (some (codes "old")) (λ path. none)

abbrev unpacked : Flat
unpacked = put restored (some (codes "new")) old_only

stages :
    stage_runtime_workspace_restore flat_files unread active [] (codes "new") old_only
    ≡ (ok restored, unpacked)
unfolding stage_runtime_workspace_restore normalize_runtime_workspace_path
    decode_runtime_workspace_snapshot clean clean_segments push_segment pop_segment split join dir
    base text_discrete join_paths trim_space
stages = refl

is_clean :
    (normalize_runtime_workspace_path flat_files active unpacked ≡ (ok active, unpacked))
    × (normalize_runtime_workspace_path flat_files restored unpacked ≡ (ok restored, unpacked))
unfolding normalize_runtime_workspace_path clean clean_segments push_segment pop_segment split join
    text_discrete
is_clean = (refl, refl)

restored_apart :
    (text_eq restored active ≡ false)
    × (text_eq active restored ≡ false)
    × (text_eq restored (backup_path flat_files active unpacked) ≡ false)
    × (text_eq active (backup_path flat_files active unpacked) ≡ false)
unfolding clean clean_segments push_segment pop_segment split join dir base text_discrete join_paths
    trim_left_func
restored_apart = (refl, refl, refl, refl)

restores : (restore_runtime_workspace flat_files unread active [] (codes "new") old_only).0 ≡ ok tt
unfolding restore_runtime_workspace stage_runtime_workspace_restore normalize_runtime_workspace_path
    decode_runtime_workspace_snapshot clean clean_segments push_segment pop_segment split join dir
    base text_discrete join_paths trim_space promote_runtime_workspace swap back_up activate
    commit_or_rollback commit
restores = refl

restore_runtime_workspace-ok_example :
    (restore_runtime_workspace flat_files unread active [] (codes "new") old_only).1 active
    ≡ unpacked restored
restore_runtime_workspace-ok_example =
    restore_runtime_workspace-ok flat_files flat_trees unread active [] (codes "new") active
      restored old_only unpacked stages is_clean.0 is_clean.1 restored_apart.0 restored_apart.1
      restored_apart.2 tt restored_apart.3 restores

backup_apart_restored : text_eq (backup_path flat_files active unpacked) restored ≡ false
unfolding clean clean_segments push_segment pop_segment split join dir base text_discrete join_paths
    trim_left_func
backup_apart_restored = refl

-- A file system that renames nothing.
abbrev stuck_files : Files Flat
stuck_files = record flat_files { rename = λ a b. throw (external (codes "cross-device link")) }

stuck_rename_moves :
    (a b : Text) (m : Flat) (d : Done)
    → (stuck_files.rename a b m).0 ≡ ok d
    → (stuck_files.rename a b m).1 b ≡ m a
stuck_rename_moves a b m d h = cc

abbrev stuck_trees : Trees stuck_files Text
stuck_trees = record {
  tree = λ a m. m a;
  Apart = λ c a. text_eq c a ≡ false;
  rename_moves = stuck_rename_moves;
  rename_fails = λ a b c m e h. refl;
  rename_keeps = λ a b c m p q. refl;
  remove_all_keeps = put_keeps;
}

abbrev not_backed_up : Error
not_backed_up = wrapf backup_failed (external (codes "cross-device link"))

fails :
    (restore_runtime_workspace stuck_files unread active [] (codes "new") old_only).0
    ≡ err not_backed_up
unfolding restore_runtime_workspace stage_runtime_workspace_restore normalize_runtime_workspace_path
    decode_runtime_workspace_snapshot clean clean_segments push_segment pop_segment split join dir
    base text_discrete join_paths trim_space promote_runtime_workspace swap back_up activate
    commit_or_rollback commit
fails = refl

stuck_clean :
    (normalize_runtime_workspace_path stuck_files active unpacked ≡ (ok active, unpacked))
    × (normalize_runtime_workspace_path stuck_files restored unpacked ≡ (ok restored, unpacked))
unfolding normalize_runtime_workspace_path
stuck_clean = is_clean

stuck_stages :
    stage_runtime_workspace_restore stuck_files unread active [] (codes "new") old_only
    ≡ (ok restored, unpacked)
unfolding stage_runtime_workspace_restore
stuck_stages = stages

restore_runtime_workspace-err_example :
    let backup = backup_path stuck_files active unpacked in
    let after_failure =
      (restore_runtime_workspace stuck_files unread active [] (codes "new") old_only).1 in
    (after_failure active ≡ unpacked active)
    ⊎ (MoveBackFails stuck_files stuck_trees restored active backup
          (back_up stuck_files active backup unpacked).1
        × (after_failure backup ≡ unpacked active))
    ⊎ ((f : Error) × ((stuck_files.remove_all backup
            (swap stuck_files active restored backup unpacked).1).0
          ≡ err f))
restore_runtime_workspace-err_example =
    restore_runtime_workspace-err stuck_files stuck_trees unread active [] (codes "new") active
      restored old_only unpacked stuck_stages stuck_clean.0 stuck_clean.1 restored_apart.0
      restored_apart.1 restored_apart.2 not_backed_up backup_apart_restored fails
