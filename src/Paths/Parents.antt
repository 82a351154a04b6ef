-- ===== src/Paths/Parents.antt =====
-- `dir` and `base` take a rooted path apart at its last segment.
use vmdockerv.Base.{
  List, Text, [], ap, append-nil, append_assoc, arith, codes, join, lacks, refl, reverse,
  reverse-append, reverse-cons, reverse-reverse, sym, trim_left_func, true, ℕ, ◌&&◌, ◌++◌, ◌==◌,
  ◌∙◌, ◌∷◌, ◌≡◌, ◌≢◌,
}
use vmdockerv.Paths.{after_slash, base, clean, dir, or_slash, slash, until_slash}
use vmdockerv.Paths.Laws.{AreSegments, is_segment, rooted}
use vmdockerv.Paths.Rooted.{clean-rooted, clean-rooted_append}

abbrev pub stem : List Text → Text
stem [] = []
stem (x ∷ xs) = rooted (x ∷ xs)

join_snoc :
    (x : Text) (xs : List Text) (s : Text)
    → join (x ∷ (xs ++ s ∷ [])) (codes "/") ≡ join (x ∷ xs) (codes "/") ++ slash ∷ s
unfolding join
join_snoc x [] s = refl
join_snoc x (y ∷ xs) s =
    rw (join_snoc y xs s) (sym (append_assoc x (slash ∷ join (y ∷ xs) (codes "/")) (slash ∷ s)))

pub rooted_snoc : (segs : List Text) (s : Text) → rooted (segs ++ s ∷ []) ≡ stem segs ++ slash ∷ s
unfolding join
rooted_snoc [] s = refl
rooted_snoc (x ∷ xs) s = ap (◌∷◌ slash) (join_snoc x xs s)

pub lacks-append : (c : ℕ) (s t : Text) → lacks c (s ++ t) ≡ (lacks c s && lacks c t)
lacks-append c [] t = refl
lacks-append c (d ∷ s) t = ground (arith, lacks-append c s t)

lacks-reverse : (c : ℕ) (s : Text) → lacks c s ≡ true → lacks c (reverse s) ≡ true
lacks-reverse c [] h = refl
lacks-reverse c (d ∷ s) h =
    rw (reverse-cons d s) (ground (arith, lacks-append c (reverse s) (d ∷ []), lacks-reverse c s))

until_slash-append : (s t : Text) → lacks slash s ≡ true → until_slash (s ++ slash ∷ t) ≡ slash ∷ t
unfolding until_slash
until_slash-append [] t h = ground arith
until_slash-append (c ∷ s) t h = ground (arith, until_slash-append s t)

after_slash-append : (s t : Text) → lacks slash s ≡ true → after_slash (s ++ slash ∷ t) ≡ s
unfolding after_slash
after_slash-append [] t h = ground arith
after_slash-append (c ∷ s) t h = ground (arith, after_slash-append s t)

reverse_snoc : (q s : Text) → reverse (q ++ slash ∷ s) ≡ reverse s ++ slash ∷ reverse q
reverse_snoc q s =
    reverse-append q (slash ∷ s)
    ∙ rw (reverse-cons slash s) (append_assoc (reverse s) (slash ∷ []) (reverse q))

clean-stem : (segs : List Text) → AreSegments segs → clean (stem segs ++ slash ∷ []) ≡ rooted segs
unfolding join
clean-stem [] h = clean-rooted [] tt
clean-stem (x ∷ xs) h = clean-rooted_append (x ∷ xs) [] h tt ∙ ap rooted (append-nil (x ∷ xs))

dir_lem : (p : Text) → dir p ≡ clean (reverse (until_slash (reverse p)))
unfolding dir
dir_lem p = refl

dir_at_slash : (q t : Text) → lacks slash t ≡ true → dir (q ++ slash ∷ t) ≡ clean (q ++ slash ∷ [])
dir_at_slash q t h =
    dir_lem (q ++ slash ∷ t)
    ∙ ap clean (
        ap (λ r. reverse (until_slash r)) (reverse_snoc q t)
        ∙ ap reverse (until_slash-append (reverse t) (reverse q) (lacks-reverse slash t h))
        ∙ reverse-cons slash (reverse q)
        ∙ ap (λ r. r ++ slash ∷ []) (reverse-reverse q))

-- The parent of a rooted path drops its last segment.
pub dir-rooted :
    (segs : List Text) (s : Text)
    → AreSegments segs
    → is_segment s ≡ true
    → dir (rooted (segs ++ s ∷ [])) ≡ rooted segs
dir-rooted segs s h k =
    ap dir (rooted_snoc segs s) ∙ dir_at_slash (stem segs) s (ground arith) ∙ clean-stem segs h

trim_left_func-lacks :
    (c : ℕ) (s t : Text)
    → lacks c s ≡ true
    → s ≢ []
    → trim_left_func (λ d. d == c) (s ++ t) ≡ s ++ t
unfolding trim_left_func
trim_left_func-lacks c [] t h n = absurd (n refl)
trim_left_func-lacks c (d ∷ s) t h n = ground arith

reverse-ne-nil : (s : Text) → s ≢ [] → reverse s ≢ []
reverse-ne-nil s h e = h (sym (reverse-reverse s) ∙ ap reverse e)

base_lem :
    (p : Text)
    → p ≢ []
    → base p ≡ or_slash (reverse (after_slash (trim_left_func (λ d. d == slash) (reverse p))))
unfolding base
base_lem [] h = absurd (h refl)
base_lem (c ∷ p) h = refl

or_slash-ne-nil : (s : Text) → s ≢ [] → or_slash s ≡ s
or_slash-ne-nil [] h = absurd (h refl)
or_slash-ne-nil (c ∷ s) h = refl

base_at_slash :
    (q t : Text) → lacks slash t ≡ true → t ≢ [] → q ++ slash ∷ t ≢ [] → base (q ++ slash ∷ t) ≡ t
base_at_slash q t h n ne =
    base_lem (q ++ slash ∷ t) ne
    ∙ ap (λ r. or_slash (reverse (after_slash (trim_left_func (λ d. d == slash) r))))
        (reverse_snoc q t)
    ∙ ap (λ r. or_slash (reverse (after_slash r)))
        (trim_left_func-lacks slash (reverse t) (slash ∷ reverse q) (lacks-reverse slash t h)
          (reverse-ne-nil t n))
    ∙ ap (λ r. or_slash (reverse r))
        (after_slash-append (reverse t) (reverse q) (lacks-reverse slash t h))
    ∙ ap or_slash (reverse-reverse t)
    ∙ or_slash-ne-nil t n

-- The last segment of a rooted path.
pub base-rooted :
    (segs : List Text) (s : Text) → is_segment s ≡ true → base (rooted (segs ++ s ∷ [])) ≡ s
base-rooted segs s k =
    ap base (rooted_snoc segs s)
    ∙ base_at_slash (stem segs) s (ground arith) (ground arith)
        (λ e. cons-ne-nil (rooted_snoc segs s ∙ e))
  where
    cons-ne-nil : rooted (segs ++ s ∷ []) ≡ [] → ⊥
    cons-ne-nil e = cc
