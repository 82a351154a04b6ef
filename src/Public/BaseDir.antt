-- ===== src/Public/BaseDir.antt =====
-- The directory that a walk for a glob starts from.
use vmdockerv.Base.{
  ==_iff, Bool-cases, List, Text, [], ap, append_assoc, arith, codes, false, has_prefix, inl, inr,
  is_empty, join, prepend, refl, split, subst, sym, true, ℕ, ◌++◌, ◌==◌, ◌||◌, ◌∙◌, ◌∷◌, ◌≡◌,
}
use vmdockerv.Paths.{slash}
use vmdockerv.Public.{has_glob_char, literal_base_dir, literal_segments}
use vmdockerv.Public.Regex.{Globs, leave, one, same, take}

join-prepend :
    (c : ℕ) (seg : Text) (segs : List Text)
    → join (prepend c (seg ∷ segs)) (codes "/") ≡ c ∷ join (seg ∷ segs) (codes "/")
unfolding join
join-prepend c seg [] = refl
join-prepend c seg (s ∷ segs) = refl

split-cons : (s : Text) → (seg : Text) × (segs : List Text) × (split slash s ≡ seg ∷ segs)
unfolding split
split-cons [] = ([], [], refl)
split-cons (c ∷ s) = elim (Bool-cases (c == slash)) [
  | inl e ↦ ([], split slash s, rw e)
  | inr e ↦ let (seg, segs, p) = split-cons s in (c ∷ seg, segs, rw (e, p))
]

join-split : (s : Text) → join (split slash s) (codes "/") ≡ s
join-split [] = unfold split join in refl
join-split (c ∷ s) =
    let (seg, segs, p) = split-cons s in
    let rest : join (seg ∷ segs) (codes "/") ≡ s = rw p at (join-split s) in
    elim (Bool-cases (c == slash)) [
      | inl e ↦ slash_first c s seg segs e p rest
      | inr e ↦ char_first c s seg segs e p rest
    ]
  where
    slash_first :
        (c : ℕ) (s seg : Text) (segs : List Text)
        → (c == slash) ≡ true
        → split slash s ≡ seg ∷ segs
        → join (seg ∷ segs) (codes "/") ≡ s
        → join (split slash (c ∷ s)) (codes "/") ≡ c ∷ s
    slash_first c s seg segs e p q =
        unfold split join in
        rw (e, p) (ap (λ t. slash ∷ t) q ∙ ap (λ x. x ∷ s) (sym ((==_iff c slash).0 e)))

    char_first :
        (c : ℕ) (s seg : Text) (segs : List Text)
        → (c == slash) ≡ false
        → split slash s ≡ seg ∷ segs
        → join (seg ∷ segs) (codes "/") ≡ s
        → join (split slash (c ∷ s)) (codes "/") ≡ c ∷ s
    char_first c s seg segs e p q =
        unfold split in rw (e, p) (join-prepend c seg segs ∙ ap (λ t. c ∷ t) q)

has_glob_char-append : (s t : Text) → has_glob_char (s ++ t) ≡ (has_glob_char s || has_glob_char t)
unfolding has_glob_char
has_glob_char-append [] t = refl
has_glob_char-append (c ∷ s) t = ground (arith, has_glob_char-append s t)

-- A separator adds no metacharacter.
has_glob_char-join :
    (s t : Text) → has_glob_char (s ++ slash ∷ t) ≡ (has_glob_char s || has_glob_char t)
unfolding has_glob_char
has_glob_char-join s t = has_glob_char-append s (slash ∷ t)

literal_plain :
    (seg : Text) (segs : List Text)
    → has_glob_char seg ≡ false
    → literal_segments (seg ∷ segs) ≡ seg ∷ literal_segments segs
unfolding literal_segments
literal_plain seg segs h = rw h refl

literal_glob :
    (seg : Text) (segs : List Text) → has_glob_char seg ≡ true → literal_segments (seg ∷ segs) ≡ []
unfolding literal_segments
literal_glob seg segs h = rw h refl

join-cons :
    (s t : Text) (ts : List Text)
    → join (s ∷ t ∷ ts) (codes "/") ≡ s ++ slash ∷ join (t ∷ ts) (codes "/")
unfolding join
join-cons s t ts = refl

join-one : (s : Text) → join (s ∷ []) (codes "/") ≡ s
unfolding join
join-one s = refl

-- The literal segments end at a slash, when a metacharacter follows somewhere.
literal_segments-prefix :
    (seg : Text) (segs : List Text)
    → has_glob_char (join (seg ∷ segs) (codes "/")) ≡ true
    → has_glob_char seg ≡ false
    → (tail : Text) × (join (seg ∷ segs) (codes "/")
        ≡ join (literal_segments (seg ∷ segs)) (codes "/") ++ slash ∷ tail)
literal_segments-prefix seg [] h a = absurd (ground (arith, join-one seg))
literal_segments-prefix seg (second ∷ segs) h a = elim (Bool-cases (has_glob_char second)) [
  | inl g ↦ (
    join (second ∷ segs) (codes "/"),
    rw (literal_plain seg (second ∷ segs) a, literal_glob second segs g, join-one seg)
        (join-cons seg second segs),
  )
  | inr b ↦
      let (tail, e) =
        literal_segments-prefix second segs
          (ground (
            arith,
            join-cons seg second segs,
            has_glob_char-join seg (join (second ∷ segs) (codes "/")),
          ))
          b in
      (
        tail,
        rw (literal_plain seg (second ∷ segs) a) (
            rw (literal_plain second segs b, join-cons seg second (literal_segments segs))
              (join-cons seg second segs
                ∙ ap (λ t. seg ++ slash ∷ t) (e ∙ rw (literal_plain second segs b) refl)
                ∙ sym (
                    append_assoc seg (slash ∷ join (second ∷ literal_segments segs) (codes "/"))
                      (slash ∷ tail)))),
      )
]

pub literal_segments_plain :
    (segs : List Text) → has_glob_char (join (literal_segments segs) (codes "/")) ≡ false
literal_segments_plain [] = unfold literal_segments join has_glob_char in refl
literal_segments_plain (seg ∷ segs) = elim (Bool-cases (has_glob_char seg)) [
  | inl g ↦ rw (literal_glob seg segs g) (unfold join has_glob_char in refl)
  | inr b ↦
      rw (literal_plain seg segs b)
        (cons_plain seg (literal_segments segs) b (literal_segments_plain segs))
]
  where
    cons_plain :
        (seg : Text) (segs : List Text)
        → has_glob_char seg ≡ false
        → has_glob_char (join segs (codes "/")) ≡ false
        → has_glob_char (join (seg ∷ segs) (codes "/")) ≡ false
    cons_plain seg [] b h = rw (join-one seg) b
    cons_plain seg (s ∷ segs) b h =
        rw (join-cons seg s segs, has_glob_char-join seg (join (s ∷ segs) (codes "/")), b) h

-- A literal beginning of a glob begins every path that the glob stands for.
Globs-prefix :
    (pre t : Text) {s : Text}
    → has_glob_char pre ≡ false
    → Globs (pre ++ t) s
    → has_prefix s pre ≡ true
unfolding has_glob_char
Globs-prefix [] t h d = refl
Globs-prefix (c ∷ pre) t h (leave e d) = ground (arith)
Globs-prefix (c ∷ pre) t h (take e d) = ground (arith)
Globs-prefix (c ∷ pre) t h (one e d) = ground (arith)
Globs-prefix (c ∷ pre) t h (same a b e d) = ground (arith, Globs-prefix pre t (ground arith) d)

base_plain : (rel : Text) → has_glob_char (literal_base_dir rel ++ codes "/") ≡ false
unfolding literal_base_dir
base_plain rel =
    has_glob_char-join (literal_base_dir rel) []
    ∙ rw (literal_segments_plain (split slash rel)) (unfold has_glob_char in refl)

pub rel_below_base :
    (rel : Text)
    → has_glob_char rel ≡ true
    → is_empty (literal_base_dir rel) ≡ false
    → (tail : Text) × (rel ≡ literal_base_dir rel ++ slash ∷ tail)
unfolding literal_base_dir
rel_below_base rel h b =
    let (seg, segs, p) = split-cons rel in
    let whole : join (seg ∷ segs) (codes "/") ≡ rel = rw p at (join-split rel) in
    elim (Bool-cases (has_glob_char seg)) [
      | inl g ↦ absurd (unfold join in ground (arith, b, p, g, literal_glob seg segs g))
      | inr plain ↦
          let (tail, e) = literal_segments-prefix seg segs (rw whole h) plain in
          (
            tail,
            sym whole ∙ e ∙ ap (λ l. join (literal_segments l) (codes "/") ++ slash ∷ tail) (sym p),
          )
    ]

-- Every path that an accepted glob stands for lies below the glob's base directory, so a walk of that
-- directory misses none of them.
pub literal_base_dir-Globs :
    (rel path : Text)
    → has_glob_char rel ≡ true
    → is_empty (literal_base_dir rel) ≡ false
    → Globs rel path
    → has_prefix path (literal_base_dir rel ++ codes "/") ≡ true
literal_base_dir-Globs rel path h b d =
    let (tail, e) = rel_below_base rel h b in
    Globs-prefix (literal_base_dir rel ++ codes "/") tail (base_plain rel)
      (subst (λ g. Globs g path) (e ∙ sym (append_assoc (literal_base_dir rel) (codes "/") tail)) d)
