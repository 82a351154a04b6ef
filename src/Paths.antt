-- ===== src/Paths.antt =====
-- What the source uses of Go's `path/filepath` on a Unix system, where `path` agrees with it.
pub mod Laws
pub mod Rooted
pub mod Parents
pub mod Inside
pub mod Relative
mod Samples
use vmdockerv.Base.{
  Bool, List, Text, [], codes, false, has_prefix, if◌then◌else◌, join, reverse, split,
  text_discrete, text_eq, trim_left_func, true, ℕ, ◌==◌, ◌||◌, ◌∷◌,
}

abbrev pub slash : ℕ
slash = b'/'

abbrev pub dot : Text
dot = codes "."

abbrev pub dot_dot : Text
dot_dot = codes ".."

abbrev pub is_abs : Text → Bool
is_abs p = has_prefix p (codes "/")

-- A ".." takes the last segment away; at the root it is dropped.
unfoldable pub pop_segment : Bool → List Text → List Text
pop_segment rooted [] = if rooted then [] else dot_dot ∷ []
pop_segment rooted (s ∷ stack) = if text_eq s dot_dot then dot_dot ∷ s ∷ stack else stack

unfoldable pub push_segment : Bool → List Text → Text → List Text
unfolding pop_segment
push_segment rooted stack s =
    if text_eq s [] || text_eq s dot
    then stack
    else if text_eq s dot_dot
    then pop_segment rooted stack
    else s ∷ stack

-- The segments that are kept, the last one first.
unfoldable pub clean_segments : Bool → List Text → List Text → List Text
clean_segments rooted stack [] = stack
clean_segments rooted stack (s ∷ segs) = clean_segments rooted (push_segment rooted stack s) segs

abbrev pub unsplit : Bool → List Text → Text
unsplit true segs = slash ∷ join segs (codes "/")
unsplit false [] = dot
unsplit false (s ∷ segs) = join (s ∷ segs) (codes "/")

-- filepath.Clean
unfoldable pub clean : Text → Text
unfolding clean_segments push_segment split join text_discrete
clean p = unsplit (is_abs p) (reverse (clean_segments (is_abs p) [] (split slash p)))

-- filepath.Join
unfoldable pub join_paths : List Text → Text
unfolding clean
join_paths [] = []
join_paths ([] ∷ ps) = join_paths ps
join_paths ((c ∷ p) ∷ ps) = clean (join ((c ∷ p) ∷ ps) (codes "/"))

-- Drops what stands behind the last slash.
pub until_slash : Text → Text
until_slash [] = []
until_slash (c ∷ rev) = let rest = until_slash rev in if c == slash then c ∷ rev else rest

pub after_slash : Text → Text
after_slash [] = []
after_slash (c ∷ rev) = let rest = after_slash rev in if c == slash then [] else c ∷ rest

-- filepath.Dir
unfoldable pub dir : Text → Text
unfolding clean until_slash
dir p = clean (reverse (until_slash (reverse p)))

abbrev pub or_slash : Text → Text
or_slash [] = codes "/"
or_slash (c ∷ s) = c ∷ s

-- filepath.Base
unfoldable pub base : Text → Text
unfolding after_slash
base [] = dot
base (c ∷ p) = or_slash (reverse (after_slash (trim_left_func (λ d. d == slash) (reverse (c ∷ p)))))
