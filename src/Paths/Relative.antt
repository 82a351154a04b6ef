-- ===== src/Paths/Relative.antt =====
-- `filepath.Rel`, on the segments of two cleaned paths.
use vmdockerv.Base.{
  Bool, Error, List, Option, Result, Text, [], codes, err, external, false, if◌then◌else◌, map,
  none, not, ok, some, split, text_discrete, text_eq, ◌&&◌, ◌++◌, ◌||◌, ◌∷◌,
}
use vmdockerv.Paths.{base, clean, dot, dot_dot, is_abs, slash, unsplit}

unfoldable pub named_segments : List Text → List Text
named_segments [] = []
named_segments (s ∷ segs) =
    let rest = named_segments segs in if text_eq s [] || text_eq s dot then rest else s ∷ rest

-- The segments of a cleaned path; "." and the root have none.
abbrev segments : Text → List Text
segments p = named_segments (split slash p)

-- What is left of both behind their common beginning.
unfoldable pub strip_common : List Text → List Text → List Text × List Text
strip_common [] ts = ([], ts)
strip_common (b ∷ bs) [] = (b ∷ bs, [])
strip_common (b ∷ bs) (t ∷ ts) =
    let rest = strip_common bs ts in if text_eq b t then rest else (b ∷ bs, t ∷ ts)

abbrev starts_up : List Text → Bool
starts_up [] = false
starts_up (s ∷ segs) = text_eq s dot_dot

abbrev up_and_down : List Text × List Text → Option Text
up_and_down (bs, ts) =
    if starts_up bs then none else some (unsplit false (map (λ s. dot_dot) bs ++ ts))

-- filepath.Rel; it has no result where the base leads up, or only one of the paths is absolute.
unfoldable pub relative : Text → Text → Option Text
unfolding clean named_segments strip_common split text_discrete
relative base target =
    let b = clean base in
    let t = clean target in
    if text_eq t b
    then some dot
    else if is_abs b && not (is_abs t) || not (is_abs b) && is_abs t
    then none
    else up_and_down (strip_common (segments b) (segments t))

abbrev pub rel_failure : Error
rel_failure = external (codes "Rel: can't make target relative to base")

abbrev pub or_failure : Option Text → Result Text
or_failure none = err rel_failure
or_failure (some t) = ok t
