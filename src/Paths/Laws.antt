-- ===== src/Paths/Laws.antt =====
-- Rooted paths as lists of segments: `clean`, `join_paths`, `dir` and `base` work segment by segment.
use vmdockerv.Base.{
  Bool, List, Text, [], ap, append_assoc, arith, codes, join, lacks, not, prepend, refl, reverse,
  reverse-cons, split, split-append, split-lacks, sym, text_eq, true, ℕ, ◌&&◌, ◌++◌, ◌∙◌, ◌∷◌, ◌≡◌,
  ◌≢◌,
}
use vmdockerv.Paths.{clean_segments, dot, dot_dot, push_segment, slash}

-- A name that stands for itself in a path.
abbrev pub is_segment : Text → Bool
is_segment s =
    not (text_eq s []) && (not (text_eq s dot) && (not (text_eq s dot_dot) && lacks slash s))

abbrev pub AreSegments : List Text → Type 0
AreSegments [] = Unit
AreSegments (s ∷ segs) = (is_segment s ≡ true) × AreSegments segs

-- The path "/a/b/c".
abbrev pub rooted : List Text → Text
rooted segs = slash ∷ join segs (codes "/")

split-ne-nil : (sep : ℕ) (s : Text) → split sep s ≢ []
unfolding split
split-ne-nil sep [] e = cc
split-ne-nil sep (c ∷ s) e = ground (arith, split-ne-nil sep s)

prepend-append :
    (c : ℕ) (segs more : List Text) → segs ≢ [] → prepend c segs ++ more ≡ prepend c (segs ++ more)
prepend-append c [] more h = absurd (h refl)
prepend-append c (s ∷ segs) more h = refl

pub split-append_sep :
    (sep : ℕ) (s t : Text) → split sep (s ++ sep ∷ t) ≡ split sep s ++ split sep t
unfolding split
split-append_sep sep [] t = ground arith
split-append_sep sep (c ∷ s) t = ground (
  arith,
  split-append_sep sep s t,
  prepend-append c (split sep s) (split sep t) (split-ne-nil sep s),
)

pub clean_segments-append :
    (r : Bool) (stack xs ys : List Text)
    → clean_segments r stack (xs ++ ys) ≡ clean_segments r (clean_segments r stack xs) ys
unfolding clean_segments
clean_segments-append r stack [] ys = refl
clean_segments-append r stack (x ∷ xs) ys = clean_segments-append r (push_segment r stack x) xs ys

push_segment-segment :
    (r : Bool) (stack : List Text) (s : Text)
    → is_segment s ≡ true
    → push_segment r stack s ≡ s ∷ stack
unfolding push_segment
push_segment-segment r stack s h = ground arith

pub push_segment-nil : (r : Bool) (stack : List Text) → push_segment r stack [] ≡ stack
unfolding push_segment
push_segment-nil r stack = ground arith

clean_segments-segments :
    (r : Bool) (stack segs : List Text)
    → AreSegments segs
    → clean_segments r stack segs ≡ reverse segs ++ stack
unfolding clean_segments
clean_segments-segments r stack [] h = refl
clean_segments-segments r stack (s ∷ segs) h =
    rw
      (
        push_segment-segment r stack s h.0,
        clean_segments-segments r (s ∷ stack) segs h.1,
        reverse-cons s segs,
      )
      (sym (append_assoc (reverse segs) (s ∷ []) stack))

-- The segments of a joined text; an empty list joins to one empty segment.
split-join :
    (s : Text) (segs : List Text)
    → AreSegments (s ∷ segs)
    → split slash (join (s ∷ segs) (codes "/")) ≡ s ∷ segs
unfolding join
split-join s [] h = split-lacks slash s (ground arith)
split-join s (t ∷ segs) h =
    split-append slash s _ (ground arith) ∙ ap (◌∷◌ s) (split-join t segs h.1)

-- What is pushed for a joined list of segments.
pub clean_joined :
    (r : Bool) (stack segs : List Text)
    → AreSegments segs
    → clean_segments r stack (split slash (join segs (codes "/"))) ≡ reverse segs ++ stack
clean_joined r stack [] h = unfold split join clean_segments in push_segment-nil r stack
clean_joined r stack (s ∷ segs) h =
    rw (split-join s segs h) (clean_segments-segments r stack (s ∷ segs) h)
