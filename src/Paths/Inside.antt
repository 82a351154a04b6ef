-- ===== src/Paths/Inside.antt =====
-- A relative path that does not lead up is a list of names, so joining it to a directory stays inside.
use vmdockerv.Base.{
  Bool, Bool-cases, List, Text, [], ap, append-nil, arith, codes, false, has_prefix, inl, inr, join,
  lacks, prepend, refl, reverse, reverse-append, reverse-cons, split, subst, sym, text_eq,
  text_eq_self, true, ℕ, ◌++◌, ◌==◌, ◌||◌, ◌∙◌, ◌∷◌, ◌≡◌,
}
use vmdockerv.Paths.{
  clean, clean_segments, dot, dot_dot, is_abs, join_paths, pop_segment, push_segment, slash,
  unsplit,
}
use vmdockerv.Paths.Laws.{AreSegments, rooted}
use vmdockerv.Paths.Rooted.{
  AreSegments-append, clean-rooted_append, clean-rooted-dot, join_paths_lem,
}

abbrev AllDots : List Text → Type 0
AllDots [] = Unit
AllDots (d ∷ ds) = (d ≡ dot_dot) × AllDots ds

-- Names above leading "..": what a relative path's cleaning keeps.
record Stacked (stack : List Text) : Type 0 where
  names : List Text
  dots : List Text
  are_names : AreSegments names
  are_dots : AllDots dots
  whole : stack ≡ names ++ dots

pop-Stacked :
    (names dots : List Text)
    → AreSegments names
    → AllDots dots
    → Stacked (pop_segment false (names ++ dots))
unfolding pop_segment
pop-Stacked [] [] h k = record {
  names = [];
  dots = dot_dot ∷ [];
  are_names = tt;
  are_dots = (refl, tt);
  whole = refl;
}
pop-Stacked [] (d ∷ ds) h k = record {
  names = [];
  dots = dot_dot ∷ d ∷ ds;
  are_names = tt;
  are_dots = (refl, k);
  whole = rw (k.0, text_eq_self dot_dot) refl;
}
pop-Stacked (n ∷ ns) ds h k = record {
  names = ns;
  dots = ds;
  are_names = h.1;
  are_dots = k;
  whole = ground (arith, h.0);
}

push-Stacked :
    (stack : List Text) (s : Text)
    → lacks slash s ≡ true
    → Stacked stack
    → Stacked (push_segment false stack s)
push-Stacked stack s h st = elim (Bool-cases (text_eq s [] || text_eq s dot)) [
  | inl e ↦ subst Stacked (sym (skips e)) st
  | inr e ↦ elim (Bool-cases (text_eq s dot_dot)) [
    | inl d ↦ subst Stacked (sym (pops e d)) (
        subst (λ t. Stacked (pop_segment false t)) (sym st.whole)
          (pop-Stacked st.names st.dots st.are_names st.are_dots))
    | inr d ↦ subst Stacked (sym (pushes e d)) (record {
      names = s ∷ st.names;
      dots = st.dots;
      are_names = (ground (arith, e, d, h), st.are_names);
      are_dots = st.are_dots;
      whole = ap (λ t. s ∷ t) st.whole;
    })
  ]
]
  where
    skips : (text_eq s [] || text_eq s dot) ≡ true → push_segment false stack s ≡ stack
    skips e = unfold push_segment in rw e refl

    pops :
        (text_eq s [] || text_eq s dot) ≡ false
        → text_eq s dot_dot ≡ true
        → push_segment false stack s ≡ pop_segment false stack
    pops e d = unfold push_segment in rw (e, d) refl

    pushes :
        (text_eq s [] || text_eq s dot) ≡ false
        → text_eq s dot_dot ≡ false
        → push_segment false stack s ≡ s ∷ stack
    pushes e d = unfold push_segment in rw (e, d) refl

abbrev AllLack : List Text → Type 0
AllLack [] = Unit
AllLack (s ∷ segs) = (lacks slash s ≡ true) × AllLack segs

prepend-AllLack :
    (c : ℕ) (segs : List Text) → (c == slash) ≡ false → AllLack segs → AllLack (prepend c segs)
prepend-AllLack c [] e h = (ground (arith, e), tt)
prepend-AllLack c (s ∷ segs) e h = (ground (arith, e, h.0), h.1)

split-AllLack : (p : Text) → AllLack (split slash p)
unfolding split
split-AllLack [] = (refl, tt)
split-AllLack (c ∷ p) = elim (Bool-cases (c == slash)) [
  | inl e ↦ rw e (refl, split-AllLack p)
  | inr e ↦ rw e (prepend-AllLack c (split slash p) e (split-AllLack p))
]

clean_segments-Stacked :
    (segs stack : List Text)
    → AllLack segs
    → Stacked stack
    → Stacked (clean_segments false stack segs)
unfolding clean_segments
clean_segments-Stacked [] stack h st = st
clean_segments-Stacked (s ∷ segs) stack h st =
    clean_segments-Stacked segs (push_segment false stack s) h.1 (push-Stacked stack s h.0 st)

AllDots-append : (xs ys : List Text) → AllDots xs → AllDots ys → AllDots (xs ++ ys)
AllDots-append [] ys h k = k
AllDots-append (x ∷ xs) ys h k = (h.0, AllDots-append xs ys h.1 k)

AllDots-reverse : (ds : List Text) → AllDots ds → AllDots (reverse ds)
AllDots-reverse [] h = tt
AllDots-reverse (d ∷ ds) h =
    rw (reverse-cons d ds) (AllDots-append (reverse ds) (d ∷ []) (AllDots-reverse ds h.1) (h.0, tt))

AreSegments-reverse : (segs : List Text) → AreSegments segs → AreSegments (reverse segs)
AreSegments-reverse [] h = tt
AreSegments-reverse (s ∷ segs) h =
    rw (reverse-cons s segs)
      (AreSegments-append (reverse segs) (s ∷ []) (AreSegments-reverse segs h.1) (h.0, tt))

-- ".." or a path below it.
abbrev pub leads_up : Text → Bool
leads_up p = text_eq p dot_dot || has_prefix p (codes "../")

has_prefix-dots : (t : Text) → has_prefix (dot_dot ++ slash ∷ t) (codes "../") ≡ true
has_prefix-dots t = refl

unsplit-dots : (segs : List Text) → leads_up (unsplit false (dot_dot ∷ segs)) ≡ true
unfolding join
unsplit-dots [] = ground (arith, text_eq_self dot_dot)
unsplit-dots (s ∷ segs) = ground (arith, has_prefix-dots (join (s ∷ segs) (codes "/")))

snoc-dots :
    (ds more : List Text) (d : Text)
    → AllDots (ds ++ d ∷ [])
    → leads_up (unsplit false ((ds ++ d ∷ []) ++ more)) ≡ true
snoc-dots [] more d h = rw h.0 (unsplit-dots more)
snoc-dots (x ∷ ds) more d h = rw h.0 (unsplit-dots ((ds ++ d ∷ []) ++ more))

names_only :
    (names dots : List Text)
    → AreSegments names
    → AllDots dots
    → leads_up (unsplit false (reverse (names ++ dots))) ≡ false
    → AreSegments (reverse (names ++ dots))
names_only names [] h k below = rw (append-nil names) (AreSegments-reverse names h)
names_only names (d ∷ ds) h k below = absurd (
    let whole : reverse (names ++ d ∷ ds) ≡ (reverse ds ++ d ∷ []) ++ reverse names =
      reverse-append names (d ∷ ds) ∙ ap (λ l. l ++ reverse names) (reverse-cons d ds) in
    let leads =
      snoc-dots (reverse ds) (reverse names) d
        (AllDots-append (reverse ds) (d ∷ []) (AllDots-reverse ds k.1) (k.0, tt)) in
    ground (arith, whole, leads, below))

-- A relative path whose cleaned form does not lead up is the names of that form.
pub clean-inside :
    (p : Text)
    → is_abs p ≡ false
    → leads_up (clean p) ≡ false
    → (segs : List Text) × AreSegments segs × (clean p ≡ unsplit false segs)
clean-inside p a h = (
  reverse stack,
  subst (λ l. AreSegments (reverse l)) (sym stacked.whole)
      (names_only stacked.names stacked.dots stacked.are_names stacked.are_dots (
        subst (λ l. leads_up (unsplit false (reverse l)) ≡ false) stacked.whole
          (subst (λ t. leads_up t ≡ false) is_clean h))),
  is_clean,
)
  where
    stack : List Text
    stack = clean_segments false [] (split slash p)

    stacked : Stacked stack
    stacked =
        clean_segments-Stacked (split slash p) [] (split-AllLack p)
          (record { names = []; dots = []; are_names = tt; are_dots = tt; whole = refl })

    is_clean : clean p ≡ unsplit false (reverse stack)
    is_clean = unfold clean in rw a refl

-- Joined to a directory, names make a path inside it.
pub join_paths-inside :
    (ds segs : List Text)
    → AreSegments ds
    → AreSegments segs
    → join_paths (rooted ds ∷ unsplit false segs ∷ []) ≡ rooted (ds ++ segs)
unfolding join
join_paths-inside ds [] h k =
    join_paths_lem slash _ (dot ∷ []) ∙ clean-rooted-dot ds h ∙ ap rooted (sym (append-nil ds))
join_paths-inside ds (s ∷ segs) h k =
    join_paths_lem slash _ (join (s ∷ segs) (codes "/") ∷ [])
    ∙ clean-rooted_append ds (s ∷ segs) h k
