-- ===== src/Promotion/Restored.antt =====
-- What a restore leaves at the workspace, once the snapshot is unpacked.
use vmdockerv.Base.{
  Bool, Done, Error, Op, Option, Result, Result-cases, Text, ap, arith, err, false, inl, inr, ok,
  subst, sym, true, ◌>>=◌, ◌∙◌, ◌≡◌, ◌⊎◌,
}
use vmdockerv.Promotion.{
  Files, Promoted, activate, back_up, backup_path, commit_or_rollback, discard,
  normalize_runtime_workspace_path, promote_runtime_workspace, restore_runtime_workspace,
  stage_runtime_workspace_restore, swap,
}
use vmdockerv.Promotion.Moves.{
  MoveBackFails, activate-err, activate-ok, activate_fresh-err, back_up-err, back_up-ok,
  back_up_keeps, commit-err, commit-ok,
}
use vmdockerv.Promotion.Swap.{Trees}
use vmdockerv.Snapshot.{RuntimeWorkspaceCheckpoint}

module _ {World Tree : Type 0} (files : Files World) (trees : Trees files Tree) where
  abbrev tree_at : Text → World → Option Tree
  tree_at = trees.tree

  -- What a restore does behind the staging, for clean paths.
  abbrev install : Text → Text → Text → Op World Done
  install cleaned staged backup = do
    p ← swap files cleaned staged backup
    commit_or_rollback files p

  module _ (cleaned staged backup : Text) (w : World) (staged_apart : trees.Apart staged cleaned)
      (backup_staged : trees.Apart staged backup) where
    abbrev after_backup : World
    after_backup = (back_up files cleaned backup w).1

    abbrev after_swap : Bool → World
    after_swap b = (activate files staged cleaned backup b after_backup).1

    abbrev swapped : Bool → Promoted
    swapped b = record { workspace = cleaned; backup = backup; has_backup = b }

    activated :
        (b : Bool) (p : Promoted)
        → (activate files staged cleaned backup b after_backup).0 ≡ ok p
        → (p ≡ swapped b) × (tree_at cleaned (after_swap b) ≡ tree_at staged w)
    activated b p h =
        let (made, moved) = activate-ok files trees staged cleaned backup b after_backup p h in
        (made, moved ∙ back_up_keeps files trees cleaned backup staged w staged_apart backup_staged)

    install-ok :
        (d : Done)
        → trees.Apart cleaned backup
        → (install cleaned staged backup w).0 ≡ ok d
        → tree_at cleaned (install cleaned staged backup w).1 ≡ tree_at staged w
    unfolding swap
    install-ok d a h = elim (Result-cases (back_up files cleaned backup w).0) [
      | inl (b, r) ↦ elim (Result-cases (activate files staged cleaned backup b after_backup).0) [
        | inl (p, q) ↦
            let (made, moved) = activated b p q in
            ground (arith, r, q, made, moved, commit-ok files trees (swapped b) (after_swap b) d a)
        | inr (f, q) ↦ absurd (ground (arith, r, q))
      ]
      | inr (f, r) ↦ absurd (ground (arith, r))
    ]

    -- Where the workspace's old tree is after a failure: at the workspace, or at the backup when neither
    -- the staged directory nor the backup could be moved to the workspace.
    abbrev IsKept : World → Type 0
    IsKept u =
        (tree_at cleaned u ≡ tree_at cleaned w)
        ⊎ (MoveBackFails files trees staged cleaned backup after_backup
            × (tree_at backup u ≡ tree_at cleaned w))

    activate_keeps :
        (b : Bool) (e : Error)
        → (back_up files cleaned backup w).0 ≡ ok b
        → (activate files staged cleaned backup b after_backup).0 ≡ err e
        → IsKept (after_swap b)
    activate_keeps true e r h =
        elim (activate-err files trees staged cleaned backup after_backup e h) [
          | inl t ↦ inl (t ∙ back_up-ok files trees cleaned backup w true r)
          | inr (unmoved, t) ↦ inr (unmoved, t ∙ back_up-ok files trees cleaned backup w true r)
        ]
    activate_keeps false e r h = inl (
        activate_fresh-err files trees staged cleaned backup after_backup e h
        ∙ ap (tree_at cleaned) (back_up-ok files trees cleaned backup w false r))

    activation_fails :
        (b : Bool) (e : Error)
        → (back_up files cleaned backup w).0 ≡ ok b
        → (activate files staged cleaned backup b after_backup).0 ≡ err e
        → (install cleaned staged backup w).1 ≡ after_swap b
    unfolding swap
    activation_fails b e r q = ground (arith, r, q)

    swap_succeeds :
        (b : Bool) (p : Promoted)
        → (back_up files cleaned backup w).0 ≡ ok b
        → (activate files staged cleaned backup b after_backup).0 ≡ ok p
        → (swap files cleaned staged backup w).1 ≡ after_swap b
    unfolding swap
    swap_succeeds b p r q = ground (arith, r, q)

    backup_fails :
        (e : Error)
        → (back_up files cleaned backup w).0 ≡ err e
        → (install cleaned staged backup w).1 ≡ after_backup
    unfolding swap
    backup_fails e r = ground (arith, r)

    install-err :
        (e : Error)
        → (install cleaned staged backup w).0 ≡ err e
        → IsKept (install cleaned staged backup w).1
          ⊎ ((f : Error) × ((files.remove_all backup (swap files cleaned staged backup w).1).0
                ≡ err f))
    unfolding swap
    install-err e h = elim (Result-cases (back_up files cleaned backup w).0) [
      | inl (b, r) ↦ elim (Result-cases (activate files staged cleaned backup b after_backup).0) [
        | inl (p, q) ↦
            let (made, moved) = activated b p q in
            let (f, refused) =
              commit-err files trees (swapped b) (after_swap b) e (ground (arith, r, q, made)) in
            inr (f, ap (λ u. (files.remove_all backup u).0) (swap_succeeds b p r q) ∙ refused)
        | inr (f, q) ↦ inl (subst IsKept (sym (activation_fails b f r q)) (activate_keeps b f r q))
      ]
      | inr (f, r) ↦ inl (
          subst IsKept (sym (backup_fails f r))
            (inl (back_up-err files trees cleaned backup w f r)))
    ]

  module _ (unmarshal : Text → Result RuntimeWorkspaceCheckpoint)
      (workspace name snapshot cleaned staged : Text) (w u : World)
      (is_staged : stage_runtime_workspace_restore files unmarshal workspace name snapshot w
        ≡ (ok staged, u))
      (is_cleaned : normalize_runtime_workspace_path files workspace u ≡ (ok cleaned, u))
      (staged_clean : normalize_runtime_workspace_path files staged u ≡ (ok staged, u))
      (staged_apart : trees.Apart staged cleaned) (cleaned_apart : trees.Apart cleaned staged)
      (staged_backup : trees.Apart staged (backup_path files cleaned u)) where
    abbrev restored : Result Done × World
    restored = restore_runtime_workspace files unmarshal workspace name snapshot w

    abbrev installed : Result Done × World
    installed = install cleaned staged (backup_path files cleaned u) u

    restored_lem : restored ≡ (installed.0, discard files staged installed.1)
    unfolding restore_runtime_workspace promote_runtime_workspace
    restored_lem = ground (arith, is_staged, is_cleaned, staged_clean)

    -- Once the snapshot is unpacked into the staged directory, a restore that succeeds leaves the tree of
    -- that directory at the workspace, if the staged directory, the workspace and its backup are apart.
    pub restore_runtime_workspace-ok :
        (d : Done)
        → trees.Apart cleaned (backup_path files cleaned u)
        → restored.0 ≡ ok d
        → tree_at cleaned restored.1 ≡ tree_at staged u
    restore_runtime_workspace-ok d a h =
        ap (λ r. tree_at cleaned r.1) restored_lem
        ∙ trees.remove_all_keeps staged cleaned installed.1 cleaned_apart
        ∙ install-ok cleaned staged (backup_path files cleaned u) u staged_apart staged_backup d a
            (sym (ap (λ r. r.0) restored_lem) ∙ h)

    abbrev backup : Text
    backup = backup_path files cleaned u

    -- A restore that fails once the snapshot is unpacked leaves the old tree at the workspace, with two
    -- exceptions: it is at the backup when the staged directory could not be moved to the workspace and
    -- then the backup could not be moved back; nothing is said when the removal of the backup failed. The
    -- staged directory, the workspace and its backup are apart.
    pub restore_runtime_workspace-err :
        (e : Error)
        → trees.Apart (backup_path files cleaned u) staged
        → restored.0 ≡ err e
        → (tree_at cleaned restored.1 ≡ tree_at cleaned u)
          ⊎ (MoveBackFails files trees staged cleaned backup (back_up files cleaned backup u).1
              × (tree_at backup restored.1 ≡ tree_at cleaned u))
          ⊎ ((f : Error) × ((files.remove_all backup (swap files cleaned staged backup u).1).0
                ≡ err f))
    restore_runtime_workspace-err e a h =
        elim (install-err cleaned staged backup u staged_apart staged_backup e
          (sym (ap (λ r. r.0) restored_lem) ∙ h)) [
            | inl (inl t) ↦ inl (
                ap (λ r. tree_at cleaned r.1) restored_lem
                ∙ trees.remove_all_keeps staged cleaned installed.1 cleaned_apart
                ∙ t)
            | inl (inr (unmoved, t)) ↦ inr (
                inl (
                  unmoved,
                  ap (λ r. tree_at backup r.1) restored_lem
                      ∙ trees.remove_all_keeps staged backup installed.1 a
                      ∙ t,
                ))
            | inr refused ↦ inr (inr refused)
          ]
