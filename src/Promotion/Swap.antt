-- ===== src/Promotion/Swap.antt =====
-- The swap and its undoing, on any file system.
use vmdockerv.Base.{
  Done, Error, Option, Result-cases, Text, arith, err, inl, inr, ok, subst, sym, true, ◌∙◌, ◌≡◌,
}
use vmdockerv.Promotion.{Files, Promoted, activate, back_up, rollback, swap, there}

-- What `os.Rename` and `os.RemoveAll` do to the trees below the paths. A rename gives its new path the
-- tree that its old one had, or changes nothing where it fails; both leave alone the paths that are
-- apart from theirs.
pub record Trees {World : Type 0} (files : Files World) (Tree : Type 0) : Type 1 where
  pub tree : Text → World → Option Tree
  pub Apart : Text → Text → Type 0
  pub rename_moves :
      (a b : Text) (w : World) (d : Done)
      → (files.rename a b w).0 ≡ ok d
      → tree b (files.rename a b w).1 ≡ tree a w
  pub rename_fails :
      (a b c : Text) (w : World) (e : Error)
      → (files.rename a b w).0 ≡ err e
      → tree c (files.rename a b w).1 ≡ tree c w
  pub rename_keeps :
      (a b c : Text) (w : World) → Apart c a → Apart c b → tree c (files.rename a b w).1 ≡ tree c w
  pub remove_all_keeps :
      (a c : Text) (w : World) → Apart c a → tree c (files.remove_all a w).1 ≡ tree c w

module _ {World Tree : Type 0} (files : Files World) (trees : Trees files Tree) where
  swap-backup :
      (cleaned staged backup : Text) (w : World) (p : Promoted)
      → trees.Apart backup staged
      → trees.Apart backup cleaned
      → files.stat cleaned w ≡ there
      → (swap files cleaned staged backup w).0 ≡ ok p
      → (p ≡ record { workspace = cleaned; backup = backup; has_backup = true })
        × (trees.tree backup (swap files cleaned staged backup w).1 ≡ trees.tree cleaned w)
  unfolding swap back_up activate
  swap-backup cleaned staged backup w p a b e h =
      elim (Result-cases (files.rename cleaned backup w).0) [
        | inl (d, r) ↦ ground (
          arith,
          e,
          r,
          trees.rename_moves cleaned backup w d,
          trees.rename_keeps staged cleaned backup (files.rename cleaned backup w).1 a b,
        )
        | inr (f, r) ↦ ground (arith, e, r)
      ]

  abbrev backed : Text → Text → Promoted
  backed cleaned backup = record { workspace = cleaned; backup = backup; has_backup = true }

  rollback-backup :
      (cleaned backup : Text) (u : World) (d : Done)
      → trees.Apart backup cleaned
      → (rollback files (backed cleaned backup) u).0 ≡ ok d
      → trees.tree cleaned (rollback files (backed cleaned backup) u).1 ≡ trees.tree backup u
  unfolding rollback
  rollback-backup cleaned backup u d a h = elim (Result-cases (files.remove_all cleaned u).0) [
    | inl (x, r) ↦
        elim (Result-cases (files.rename backup cleaned (files.remove_all cleaned u).1).0) [
          | inl (y, q) ↦ ground (
            arith,
            r,
            q,
            trees.remove_all_keeps cleaned backup u a,
            trees.rename_moves backup cleaned (files.remove_all cleaned u).1 y,
          )
          | inr (f, q) ↦ ground (arith, r, q)
        ]
    | inr (f, r) ↦ ground (arith, r)
  ]

  -- A workspace that was there when another was swapped into its place has its tree again after a
  -- rollback that succeeds.
  pub rollback-swap :
      (cleaned staged backup : Text) (w : World) (p : Promoted) (d : Done)
      → trees.Apart backup staged
      → trees.Apart backup cleaned
      → files.stat cleaned w ≡ there
      → (swap files cleaned staged backup w).0 ≡ ok p
      → (rollback files p (swap files cleaned staged backup w).1).0 ≡ ok d
      → trees.tree cleaned (rollback files p (swap files cleaned staged backup w).1).1
        ≡ trees.tree cleaned w
  rollback-swap cleaned staged backup w p d a b e h r =
      let swapped = (swap files cleaned staged backup w).1 in
      let made = swap-backup cleaned staged backup w p a b e h in
      subst (λ q. trees.tree cleaned (rollback files q swapped).1 ≡ trees.tree cleaned w)
        (sym made.0)
        (rollback-backup cleaned backup swapped d b
            (subst (λ q. (rollback files q swapped).0 ≡ ok d) made.0 r)
          ∙ made.1)
