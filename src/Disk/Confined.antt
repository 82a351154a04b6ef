-- ===== src/Disk/Confined.antt =====
-- Operations that change nothing outside of a directory.
use vmdockerv.Base.{
  Bool, List, Message, Op, Result, Text, [], ap, append_assoc, err, false, ok, refl, require, sym,
  true, ℕ, ◌++◌, ◌>>◌, ◌∙◌, ◌∷◌, ◌≡◌,
}
use vmdockerv.Disk.{Disk}
use vmdockerv.Paths.{dir}
use vmdockerv.Paths.Laws.{AreSegments, is_segment, rooted}
use vmdockerv.Paths.Parents.{dir-rooted}
use vmdockerv.Paths.Rooted.{AreSegments-append}

-- `Inside u v`: only what lies in the directory has changed from `u` to `v`. The operations on a path
-- below the directory change nothing else; the directory is a fresh one, without symbolic links.
pub record Confines {World : Type 0} (disk : Disk World) (ds : List Text) : Type 1 where
  pub Inside : World → World → Type 0
  pub inside_refl : (w : World) → Inside w w
  pub inside_trans : {u v w : World} → Inside u v → Inside v w → Inside u w
  pub mkdir_inside :
      (segs : List Text) (w : World)
      → AreSegments segs
      → Inside w (disk.mkdir_all (rooted (ds ++ segs)) w).1
  pub create_inside :
      (segs : List Text) (w : World)
      → AreSegments segs
      → Inside w (disk.create (rooted (ds ++ segs)) w).1
  pub copy_inside :
      (segs : List Text) (source : Text) (n : ℕ) (w : World)
      → AreSegments segs
      → Inside w (disk.copy (rooted (ds ++ segs)) source n w).1
  pub close_inside :
      (segs : List Text) (w : World)
      → AreSegments segs
      → Inside w (disk.close (rooted (ds ++ segs)) w).1

module _ {World : Type 0} (disk : Disk World) (ds : List Text) (c : Confines disk ds) where
  abbrev pub Stays : {A : Type 0} → Op World A → Type 0
  Stays m = (w : World) → c.Inside w (m w).1

  pub continues :
      {A B : Type 0} (f : A → Op World B) (w : World) (r : Result A × World)
      → c.Inside w r.1
      → ((a : A) → r.0 ≡ ok a → Stays (f a))
      → c.Inside w (elim r.0 as (λ x. Result B × World) [ ok a ↦ f a r.1 | err e ↦ (err e, r.1) ]).1
  continues f w (ok a, u) h k = c.inside_trans h (k a refl u)
  continues f w (err e, u) h k = h

  pub guarded-Stays :
      {A : Type 0} (b : Bool) (t : Message) (m : Op World A) → Stays m → Stays (require b t >> m)
  guarded-Stays true t m h w = h w
  guarded-Stays false t m h w = c.inside_refl w

last_name :
    (s : Text) (segs : List Text)
    → AreSegments (s ∷ segs)
    → (more : List Text) × (name : Text) × AreSegments more
      × (is_segment name ≡ true)
      × (s ∷ segs ≡ more ++ name ∷ [])
last_name s [] h = ([], s, tt, h.0, refl)
last_name s (t ∷ segs) h =
    let (more, name, are, is, e) = last_name t segs h.1 in
    (s ∷ more, name, (h.0, are), is, ap (λ l. s ∷ l) e)

-- The parent of a path inside a directory is inside it, or the directory.
pub dir-inside :
    (ds : List Text) (s : Text) (segs : List Text)
    → AreSegments ds
    → AreSegments (s ∷ segs)
    → (more : List Text) × AreSegments more × (dir (rooted (ds ++ s ∷ segs)) ≡ rooted (ds ++ more))
dir-inside ds s segs is_dir are =
    let (more, name, are_more, is_name, whole) = last_name s segs are in
    (
      more,
      are_more,
      ap dir (ap (λ l. rooted (ds ++ l)) whole ∙ ap rooted (sym (append_assoc ds more (name ∷ []))))
          ∙ dir-rooted (ds ++ more) name (AreSegments-append ds more is_dir are_more) is_name,
    )
