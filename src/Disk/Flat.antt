-- ===== src/Disk/Flat.antt =====
-- A flat file system for tests, where a path has its content or none.
use vmdockerv.Base.{
  Bool-cases, List, Option, Text, [], arith, codes, false, has_prefix, if◌then◌else◌, inl, inr,
  join, length, none, ok, pure, refl, some, suc, text_discrete, text_eq, true, zero, ℕ, ◌++◌, ◌∙◌,
  ◌∷◌, ◌≡◌,
}
use vmdockerv.Disk.{Disk}
use vmdockerv.Disk.Confined.{Confines}
use vmdockerv.Paths.Laws.{is_segment, rooted}

abbrev pub Flat : Type 0
Flat = Text → Option Text

abbrev pub with_file : Text → Text → Flat → Flat
with_file path content m q = if text_eq q path then some content else m q

abbrev pub first : ℕ → Text → Text
first zero t = []
first (suc n) [] = []
first (suc n) (c ∷ t) = c ∷ first n t

abbrev pub flat_disk : Disk Flat
flat_disk = record {
  mkdir_all = λ path. pure tt;
  create = λ path m. (ok tt, with_file path [] m);
  copy = λ path source n m. ((length (first n source), none), with_file path (first n source) m);
  close = λ path. pure tt;
}

abbrev pub workspace : List Text
workspace = codes "w" ∷ []

pub is_segment-workspace : is_segment (codes "w") ≡ true
unfolding text_discrete
is_segment-workspace = refl

-- The paths outside of the workspace are as before.
abbrev pub SameOutside : Flat → Flat → Type 0
SameOutside u v = (q : Text) → has_prefix q (codes "/w") ≡ false → v q ≡ u q

below_workspace : (segs : List Text) → has_prefix (rooted (workspace ++ segs)) (codes "/w") ≡ true
unfolding join
below_workspace [] = refl
below_workspace (s ∷ segs) = refl

pub with_file-SameOutside :
    (segs : List Text) (content : Text) (m : Flat)
    → SameOutside m (with_file (rooted (workspace ++ segs)) content m)
with_file-SameOutside segs content m q outside =
    elim (Bool-cases (text_eq q (rooted (workspace ++ segs)))) [
      | inl e ↦ absurd (ground (arith, below_workspace segs, outside, e))
      | inr e ↦ rw e refl
    ]

abbrev pub flat_confines : Confines flat_disk workspace
flat_confines = record {
  Inside = SameOutside;
  inside_refl = λ w q h. refl;
  inside_trans = λ a b q h. b q h ∙ a q h;
  mkdir_inside = λ segs w are q h. refl;
  create_inside = λ segs w are. with_file-SameOutside segs [] w;
  copy_inside = λ segs source n w are. with_file-SameOutside segs (first n source) w;
  close_inside = λ segs w are q h. refl;
}
