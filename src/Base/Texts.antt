-- ===== src/Base/Texts.antt =====
-- What the source uses of Go's `strings` and `unicode`, over lists of code points.
use Prim.Native.Nat.{ℕ}
use mathlib.Core.Path.{◌≡◌, refl}
use mathlib.Core.Bool.{Bool, true, false, ◌&&◌, ◌||◌}
use mathlib.Core.List.{List, [], ◌∷◌, ◌++◌, reverse}
use native.Mathlib.Omega.{arith}
use vmdockerv.Base.Tests.{leb, ◌==◌, if◌then◌else◌, Text}

-- strings.HasPrefix(s, prefix)
abbrev pub has_prefix : Text → Text → Bool
has_prefix s [] = true
has_prefix [] (p ∷ ps) = false
has_prefix (c ∷ s) (p ∷ ps) = c == p && has_prefix s ps

-- s[len(p):], for a prefix p of s
abbrev pub drop_text : Text → Text → Text
drop_text s [] = s
drop_text [] (p ∷ ps) = []
drop_text (c ∷ s) (p ∷ ps) = drop_text s ps

-- strings.TrimPrefix(s, prefix)
abbrev pub trim_prefix : Text → Text → Text
trim_prefix s p = if has_prefix s p then drop_text s p else s

-- strings.Contains(s, sub)
unfoldable pub contains : Text → Text → Bool
contains [] sub = has_prefix [] sub
contains (c ∷ s) sub = has_prefix (c ∷ s) sub || contains s sub

-- unicode.IsSpace
unfoldable pub is_space : ℕ → Bool
is_space c =
    (leb 9 c && leb c 13)
    || c == 32
    || c == 0x85
    || c == 0xa0
    || c == 0x1680
    || (leb 0x2000 c && leb c 0x200a)
    || c == 0x2028
    || c == 0x2029
    || c == 0x202f
    || c == 0x205f
    || c == 0x3000

-- Drops the longest prefix of characters that pass the test.
unfoldable pub trim_left_func : (ℕ → Bool) → Text → Text
trim_left_func p [] = []
trim_left_func p (c ∷ s) = let rest = trim_left_func p s in if p c then rest else c ∷ s

-- strings.TrimSpace
unfoldable pub trim_space : Text → Text
unfolding trim_left_func is_space
trim_space s = reverse (trim_left_func is_space (reverse (trim_left_func is_space s)))

-- strings.TrimSpace(s) == ""
abbrev pub is_empty : Text → Bool
is_empty [] = true
is_empty (c ∷ s) = false

abbrev pub is_blank : Text → Bool
is_blank s = is_empty (trim_space s)

-- strings.Split(s, sep), for a separator of one character.
abbrev pub prepend : ℕ → List Text → List Text
prepend c [] = (c ∷ []) ∷ []
prepend c (seg ∷ segs) = (c ∷ seg) ∷ segs

unfoldable pub split : ℕ → Text → List Text
split sep [] = [] ∷ []
split sep (c ∷ s) = if c == sep then [] ∷ split sep s else prepend c (split sep s)

-- strings.Join(elems, sep)
unfoldable pub join : List Text → Text → Text
join [] sep = []
join (x ∷ []) sep = x
join (x ∷ y ∷ ys) sep = x ++ (sep ++ join (y ∷ ys) sep)

-- Splitting a joined text at a separator that none of its parts has.
abbrev pub lacks : ℕ → Text → Bool
lacks sep [] = true
lacks sep (c ∷ s) = if c == sep then false else lacks sep s

pub has_prefix-append : (p s : Text) → has_prefix (p ++ s) p ≡ true
has_prefix-append [] s = refl
has_prefix-append (c ∷ p) s = ground (arith, has_prefix-append p s)

pub has_prefix-append_left : (p s t : Text) → has_prefix (p ++ s) (p ++ t) ≡ has_prefix s t
has_prefix-append_left [] s t = refl
has_prefix-append_left (c ∷ p) s t = ground (arith, has_prefix-append_left p s t)

pub drop_text-append : (p s : Text) → drop_text (p ++ s) p ≡ s
drop_text-append [] s = refl
drop_text-append (c ∷ p) s = drop_text-append p s

pub append-drop_text : (s p : Text) → has_prefix s p ≡ true → p ++ drop_text s p ≡ s
append-drop_text s [] h = refl
append-drop_text [] (p ∷ ps) h = ground arith
append-drop_text (c ∷ s) (p ∷ ps) h = ground (arith, append-drop_text s ps)

pub split-lacks : (sep : ℕ) (s : Text) → lacks sep s ≡ true → split sep s ≡ s ∷ []
unfolding split
split-lacks sep [] h = refl
split-lacks sep (c ∷ s) h = ground (arith, split-lacks sep s)

pub split-append :
    (sep : ℕ) (s t : Text) → lacks sep s ≡ true → split sep (s ++ sep ∷ t) ≡ s ∷ split sep t
unfolding split
split-append sep [] t h = ground arith
split-append sep (c ∷ s) t h = ground (arith, split-append sep s t)
