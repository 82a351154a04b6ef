-- ===== src/Promotion/Moves.antt =====
-- What each step of the swap and of its commit does to the trees, on every branch.
use vmdockerv.Base.{
  Bool, Done, Error, Option, Result-cases, Text, arith, err, false, inl, inr, ok, subst, sym, true,
  ◌∙◌, ◌≡◌, ◌⊎◌,
}
use vmdockerv.Promotion.{Files, Promoted, activate, back_up, commit, commit_or_rollback}
use vmdockerv.Promotion.Swap.{Trees}

module _ {World Tree : Type 0} (files : Files World) (trees : Trees files Tree) where
  abbrev tree_at : Text → World → Option Tree
  tree_at = trees.tree

  -- After the first rename, or without one where there was no workspace.
  abbrev IsBackedUp : Text → Text → Bool → World → World → Type 0
  IsBackedUp cleaned backup true w u = tree_at backup u ≡ tree_at cleaned w
  IsBackedUp cleaned backup false w u = u ≡ w

  pub back_up-ok :
      (cleaned backup : Text) (w : World) (b : Bool)
      → (back_up files cleaned backup w).0 ≡ ok b
      → IsBackedUp cleaned backup b w (back_up files cleaned backup w).1
  unfolding back_up
  back_up-ok cleaned backup w true h = elim (Result-cases (files.rename cleaned backup w).0) [
    | inl (d, r) ↦ ground (arith, r, trees.rename_moves cleaned backup w d)
    | inr (f, r) ↦ ground (arith, r)
  ]
  back_up-ok cleaned backup w false h = elim (Result-cases (files.rename cleaned backup w).0) [
    | inl (d, r) ↦ ground (arith, r)
    | inr (f, r) ↦ ground (arith, r)
  ]

  pub back_up_keeps :
      (cleaned backup staged : Text) (w : World)
      → trees.Apart staged cleaned
      → trees.Apart staged backup
      → tree_at staged (back_up files cleaned backup w).1 ≡ tree_at staged w
  unfolding back_up
  back_up_keeps cleaned backup staged w a b =
      ground (arith, trees.rename_keeps cleaned backup staged w a b)

  pub back_up-err :
      (cleaned backup : Text) (w : World) (e : Error)
      → (back_up files cleaned backup w).0 ≡ err e
      → tree_at cleaned (back_up files cleaned backup w).1 ≡ tree_at cleaned w
  unfolding back_up
  back_up-err cleaned backup w e h = elim (Result-cases (files.rename cleaned backup w).0) [
    | inl (d, r) ↦ ground (arith, r)
    | inr (f, r) ↦ ground (arith, r, trees.rename_fails cleaned backup cleaned w f r)
  ]

  pub activate-ok :
      (staged cleaned backup : Text) (b : Bool) (u : World) (p : Promoted)
      → (activate files staged cleaned backup b u).0 ≡ ok p
      → (p ≡ record { workspace = cleaned; backup = backup; has_backup = b })
        × (tree_at cleaned (activate files staged cleaned backup b u).1 ≡ tree_at staged u)
  unfolding activate
  activate-ok staged cleaned backup b u p h =
      elim (Result-cases (files.rename staged cleaned u).0) [
        | inl (d, r) ↦ ground (arith, r, trees.rename_moves staged cleaned u d)
        | inr (f, r) ↦ ground (arith, r)
      ]

  -- The staged directory cannot be moved to the workspace, and then the backup cannot be moved back.
  abbrev pub MoveBackFails : Text → Text → Text → World → Type 0
  MoveBackFails staged cleaned backup u =
      (e : Error) × (f : Error) × ((files.rename staged cleaned u).0 ≡ err e)
      × ((files.rename backup cleaned (files.rename staged cleaned u).1).0 ≡ err f)

  pub activate-err :
      (staged cleaned backup : Text) (u : World) (e : Error)
      → (activate files staged cleaned backup true u).0 ≡ err e
      → (tree_at cleaned (activate files staged cleaned backup true u).1 ≡ tree_at backup u)
        ⊎ (MoveBackFails staged cleaned backup u
            × (tree_at backup (activate files staged cleaned backup true u).1 ≡ tree_at backup u))
  unfolding activate
  activate-err staged cleaned backup u e h = elim (Result-cases (files.rename staged cleaned u).0) [
    | inl (d, r) ↦ absurd (ground (arith, r))
    | inr (f, r) ↦
        let same_world : (activate files staged cleaned backup true u).1
            ≡ (files.rename backup cleaned left).1 =
          ground (arith, r) in
        subst
          (λ v.
            (tree_at cleaned v ≡ tree_at backup u)
            ⊎ (MoveBackFails staged cleaned backup u × (tree_at backup v ≡ tree_at backup u)))
          (sym same_world) (moved_back f r)
  ]
    where
      left : World
      left = (files.rename staged cleaned u).1

      moved_back :
          (f : Error)
          → (files.rename staged cleaned u).0 ≡ err f
          → (tree_at cleaned (files.rename backup cleaned left).1 ≡ tree_at backup u)
            ⊎ (MoveBackFails staged cleaned backup u
                × (tree_at backup (files.rename backup cleaned left).1 ≡ tree_at backup u))
      moved_back f r = elim (Result-cases (files.rename backup cleaned left).0) [
        | inl (d, q) ↦ inl (
            trees.rename_moves backup cleaned left d q
            ∙ trees.rename_fails staged cleaned backup u f r)
        | inr (g, q) ↦ inr (
          (f, g, r, q),
          trees.rename_fails backup cleaned backup left g q
              ∙ trees.rename_fails staged cleaned backup u f r,
        )
      ]

  pub activate_fresh-err :
      (staged cleaned backup : Text) (u : World) (e : Error)
      → (activate files staged cleaned backup false u).0 ≡ err e
      → tree_at cleaned (activate files staged cleaned backup false u).1 ≡ tree_at cleaned u
  unfolding activate
  activate_fresh-err staged cleaned backup u e h =
      elim (Result-cases (files.rename staged cleaned u).0) [
        | inl (d, r) ↦ ground (arith, r)
        | inr (f, r) ↦ ground (arith, r, trees.rename_fails staged cleaned cleaned u f r)
      ]

  pub commit-ok :
      (p : Promoted) (u : World) (d : Done)
      → trees.Apart p.workspace p.backup
      → (commit_or_rollback files p u).0 ≡ ok d
      → tree_at p.workspace (commit_or_rollback files p u).1 ≡ tree_at p.workspace u
  unfolding commit_or_rollback commit
  commit-ok p u d a h = elim (Result-cases (files.remove_all p.backup u).0) [
    | inl (x, r) ↦ ground (arith, r, trees.remove_all_keeps p.backup p.workspace u a)
    | inr (f, r) ↦ ground (arith, r)
  ]

  pub commit-err :
      (p : Promoted) (u : World) (e : Error)
      → (commit_or_rollback files p u).0 ≡ err e
      → (f : Error) × ((files.remove_all p.backup u).0 ≡ err f)
  unfolding commit_or_rollback commit
  commit-err p u e h = elim (Result-cases (files.remove_all p.backup u).0) [
    | inl (x, r) ↦ absurd (ground (arith, r))
    | inr (f, r) ↦ (f, r)
  ]
