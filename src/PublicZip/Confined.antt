-- ===== src/PublicZip/Confined.antt =====
-- Unpacking changes nothing outside of its destination.
use vmdockerv.Base.{
  Bool-cases, List, Op, Result, Text, [], ap, arith, err, false, inl, inr, leb, length, not, ok,
  pure, subst, sym, text_eq, text_eq_self, wrapping, zip_corrupt, zip_too_large, ℕ, ◌++◌, ◌+◌, ◌-◌,
  ◌>>=◌, ◌>>◌, ◌∙◌, ◌∷◌, ◌≡◌,
}
use vmdockerv.Disk.{Disk}
use vmdockerv.Disk.Confined.{Confines, Stays, continues, dir-inside, guarded-Stays}
use vmdockerv.Paths.{clean, dir, dot, is_abs, join_paths, unsplit}
use vmdockerv.Paths.Inside.{clean-inside, join_paths-inside, leads_up}
use vmdockerv.Paths.Laws.{AreSegments, rooted}
use vmdockerv.PublicZip.{
  ZipFile, copy_and_close, member_target, open_member, unpack_member, unpack_members,
  unpack_public_zip_max, write_public_file,
}

module _ {World : Type 0} (disk : Disk World) (ds : List Text) (is_dir : AreSegments ds)
    (c : Confines disk ds) where
  copy-Stays :
      (segs : List Text) (source : Text) (max : ℕ)
      → AreSegments segs
      → Stays disk ds c (copy_and_close disk (rooted (ds ++ segs)) source max)
  copy-Stays segs source max are w =
      subst (c.Inside w) (sym closes)
        (c.inside_trans (c.copy_inside segs source (max + 1) w are) (c.close_inside segs _ are))
    where
      closes :
          (copy_and_close disk (rooted (ds ++ segs)) source max w).1
          ≡ (disk.close
              (rooted (ds ++ segs))
              (disk.copy (rooted (ds ++ segs)) source (max + 1) w).1).1
      closes = unfold copy_and_close in ground arith

  write-Stays :
      (segs : List Text) (source : Text) (max : ℕ)
      → AreSegments segs
      → Stays disk ds c (write_public_file disk (rooted (ds ++ segs)) source max)
  unfolding write_public_file
  write-Stays segs source max are w =
      continues disk ds c (λ d. copy_and_close disk (rooted (ds ++ segs)) source max) w
        (disk.create (rooted (ds ++ segs)) w) (c.create_inside segs w are)
        (λ d h. copy-Stays segs source max are)

  member_target_keeps : (zf : ZipFile) (w : World) → (member_target disk (rooted ds) zf w).1 ≡ w
  unfolding member_target
  member_target_keeps zf w = ground arith

  -- What the checks leave of a name.
  checked :
      (zf : ZipFile) (target : Text) (w : World)
      → (member_target disk (rooted ds) zf w).0 ≡ ok target
      → (is_abs zf.name ≡ false)
        × (text_eq (clean zf.name) dot ≡ false)
        × (leads_up (clean zf.name) ≡ false)
        × (target ≡ join_paths (rooted ds ∷ clean zf.name ∷ []))
  unfolding member_target
  checked zf target w h = ground arith

  -- The path that a member is written to, and its parent, are inside the destination.
  target_inside :
      (zf : ZipFile) (target : Text) (w : World)
      → (member_target disk (rooted ds) zf w).0 ≡ ok target
      → (segs : List Text) × (more : List Text) × AreSegments segs
        × AreSegments more
        × (target ≡ rooted (ds ++ segs))
        × (dir target ≡ rooted (ds ++ more))
  target_inside zf target w h =
      let (absolute, not_dot, below, joined) = checked zf target w h in
      let (segs, are, e) = clean-inside zf.name absolute below in
      named segs are
        (joined
          ∙ ap (λ t. join_paths (rooted ds ∷ t ∷ [])) e
          ∙ join_paths-inside ds segs is_dir are)
        (ap (λ t. text_eq t dot) (sym e) ∙ not_dot)
    where
      named :
          (segs : List Text)
          → AreSegments segs
          → target ≡ rooted (ds ++ segs)
          → text_eq (unsplit false segs) dot ≡ false
          → (segs : List Text) × (more : List Text) × AreSegments segs
            × AreSegments more
            × (target ≡ rooted (ds ++ segs))
            × (dir target ≡ rooted (ds ++ more))
      named [] are e not_dot = absurd (ground (arith, text_eq_self dot, not_dot))
      named (s ∷ segs) are e not_dot =
          let (more, are_more, parent) = dir-inside ds s segs is_dir are in
          (s ∷ segs, more, are, are_more, e, ap dir e ∙ parent)

  -- What `unpack_member` does at a path.
  abbrev unpack_at : Text → Text → ZipFile → ℕ → Op World ℕ
  unpack_at parent target zf remaining = do
    disk.mkdir_all parent
    source ← open_member disk zf.opened
    written ← write_public_file disk target source remaining
    pure (remaining - written)

  content-Stays :
      (opened : Result Text) (remaining : ℕ) (segs : List Text)
      → AreSegments segs
      → Stays disk ds c (do
        source ← open_member disk opened
        written ← write_public_file disk (rooted (ds ++ segs)) source remaining
        pure (remaining - written))
  content-Stays (ok source) remaining segs are w =
      continues disk ds c (λ written. pure (remaining - written)) w
        (write_public_file disk (rooted (ds ++ segs)) source remaining w)
        (write-Stays segs source remaining are w) (λ n h u. c.inside_refl u)
  content-Stays (err e) remaining segs are w = c.inside_refl w

  unpack_at-Stays :
      (zf : ZipFile) (remaining : ℕ) (more segs : List Text)
      → AreSegments more
      → AreSegments segs
      → Stays disk ds c (unpack_at (rooted (ds ++ more)) (rooted (ds ++ segs)) zf remaining)
  unpack_at-Stays zf remaining more segs are_more are w =
      continues disk ds c
        (λ d. do
          source ← open_member disk zf.opened
          written ← write_public_file disk (rooted (ds ++ segs)) source remaining
          pure (remaining - written))
        w (disk.mkdir_all (rooted (ds ++ more)) w) (c.mkdir_inside more w are_more)
        (λ d h. content-Stays zf.opened remaining segs are)

  unpack_member-Stays :
      (zf : ZipFile) (remaining : ℕ) → Stays disk ds c (unpack_member disk (rooted ds) zf remaining)
  unfolding unpack_member
  unpack_member-Stays zf remaining w =
      continues disk ds c (λ target. unpack_at (dir target) target zf remaining) w
        (member_target disk (rooted ds) zf w)
        (subst (c.Inside w) (sym (member_target_keeps zf w)) (c.inside_refl w))
        (λ target h.
          let (segs, more, are, are_more, e, d) = target_inside zf target w h in
          subst (λ t. Stays disk ds c (unpack_at (dir t) t zf remaining)) (sym e)
            (subst (λ p. Stays disk ds c (unpack_at p (rooted (ds ++ segs)) zf remaining))
              (sym (ap dir (sym e) ∙ d)) (unpack_at-Stays zf remaining more segs are_more are)))

  unpack_members-Stays :
      (zfs : List ZipFile) (remaining : ℕ)
      → Stays disk ds c (unpack_members disk (rooted ds) zfs remaining)
  unfolding unpack_members
  unpack_members-Stays [] remaining w = c.inside_refl w
  unpack_members-Stays (zf ∷ zfs) remaining w = elim (Bool-cases zf.is_dir) [
    | inl e ↦ rw e (unpack_members-Stays zfs remaining w)
    | inr e ↦ rw e (
        continues disk ds c (unpack_members disk (rooted ds) zfs) w
          (unpack_member disk (rooted ds) zf remaining w) (unpack_member-Stays zf remaining w)
          (λ left h. unpack_members-Stays zfs left))
  ]

  read-Stays :
      (r : Result (List ZipFile)) (max : ℕ)
      → Stays disk ds c
          (do zfs ← wrapping zip_corrupt (λ w. (r, w)); unpack_members disk (rooted ds) zfs max)
  read-Stays (ok zfs) max w = unpack_members-Stays zfs max w
  read-Stays (err e) max w = c.inside_refl w

  -- Whatever names a public archive has, and however unpacking it ends, only what lies in the
  -- destination changes, when that is an absolute path and an operation on a path below it changes
  -- nothing else.
  pub unpack_public_zip_confined :
      (read_zip : Text → Result (List ZipFile)) (zip_bytes : Text) (max : ℕ) (w : World)
      → c.Inside w (unpack_public_zip_max disk read_zip (rooted ds) zip_bytes max w).1
  unfolding unpack_public_zip_max
  unpack_public_zip_confined read_zip zip_bytes max w =
      guarded-Stays disk ds c (not (not (leb (length zip_bytes) max))) zip_too_large
        (do
          zfs ← wrapping zip_corrupt (λ u. (read_zip zip_bytes, u))
          unpack_members disk (rooted ds) zfs max)
        (read-Stays (read_zip zip_bytes) max) w
