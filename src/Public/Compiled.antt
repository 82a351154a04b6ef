-- ===== src/Public/Compiled.antt =====
-- What the compiled patterns of a profile can select.
use vmdockerv.Base.{
  Bool, Bool-cases, List, Option, Text, [], ap, append-drop_text, arith, codes, false, has_prefix,
  inl, inr, is_empty, lacks, none, not, refl, some, split, subst, sym, trim_left_func, trim_prefix,
  trim_space, true, ◌&&◌, ◌++◌, ◌==◌, ◌↔◌, ◌∙◌, ◌∷◌, ◌≡◌, ◌≢◌, ◌⊎◌,
}
use vmdockerv.Paths.{is_abs, slash}
use vmdockerv.Public.{
  Item, PublicPattern, Warning, collect, compile_entry, compile_public_patterns, compile_rel,
  glob_to_regexp, has_dot_dot_segment, has_glob_char, literal_base_dir, match_items, newline,
  not_a_pattern, question, star,
}
use vmdockerv.Public.BaseDir.{literal_segments_plain, rel_below_base}
use vmdockerv.Public.Regex.{Globs, match_items-Globs}

-- No segment is "..".
abbrev pub NoParent : List Text → Type 0
NoParent [] = Unit
NoParent (seg ∷ segs) = (seg ≢ codes "..") × NoParent segs

-- Neither of the characters that make a glob occurs.
abbrev pub is_literal : Text → Bool
is_literal t = lacks star t && lacks question t

-- All that is written is the path below the home directory, with more slashes after "~/" if any.
abbrev pub IsBelowHome : Text → Text → Type 0
IsBelowHome text rel =
    (slashes : Text) × (trim_space text ≡ codes "~/" ++ (slashes ++ rel))
    × (trim_left_func (λ c. c == slash) slashes ≡ [])

-- Below the home directory, relative, without a segment "..", a glob exactly when it has a metacharacter, a glob only below a
-- directory that is named literally, and matched as its glob says where there is no line break.
pub record IsSafe (p : PublicPattern) : Type 0 where
  pub below_home : IsBelowHome p.raw p.rel
  pub non_empty : is_empty p.rel ≡ false
  pub relative : has_prefix p.rel (codes "/") ≡ false
  pub no_parent : NoParent (split slash p.rel)
  pub glob : p.is_glob ≡ not (is_literal p.rel)
  pub scoped :
      (p.is_glob ≡ false)
      ⊎ ((base tail : Text) × (p.rel ≡ base ++ slash ∷ tail)
          × (is_empty base ≡ false)
          × (is_literal base ≡ true))
  pub matches :
      (s : Text) → (lacks newline s ≡ false) ⊎ ((match_items p.re s ≡ true) ↔ Globs p.rel s)

abbrev pub AllSafe : List PublicPattern → Type 0
AllSafe [] = Unit
AllSafe (p ∷ pats) = IsSafe p × AllSafe pats

trim_left_func_first : (t : Text) → is_abs (trim_left_func (λ c. c == slash) t) ≡ false
unfolding trim_left_func
trim_left_func_first [] = refl
trim_left_func_first (c ∷ t) = ground (arith, trim_left_func_first t)

has_glob_char-is_literal : (t : Text) → has_glob_char t ≡ not (is_literal t)
unfolding has_glob_char
has_glob_char-is_literal [] = refl
has_glob_char-is_literal (c ∷ t) = ground (arith, has_glob_char-is_literal t)

has_dot_dot_segment-NoParent : (segs : List Text) → has_dot_dot_segment segs ≡ false → NoParent segs
unfolding has_dot_dot_segment
has_dot_dot_segment-NoParent [] h = tt
has_dot_dot_segment-NoParent (seg ∷ segs) h =
    (λ e. absurd (ground (arith, e)), has_dot_dot_segment-NoParent segs (ground arith))

literal_base_dir-scoped :
    (rel : Text)
    → (has_glob_char rel && is_empty (literal_base_dir rel)) ≡ false
    → (has_glob_char rel ≡ false)
      ⊎ ((base tail : Text) × (rel ≡ base ++ slash ∷ tail)
          × (is_empty base ≡ false)
          × (is_literal base ≡ true))
unfolding literal_base_dir
literal_base_dir-scoped rel d = elim (Bool-cases (has_glob_char rel)) [
  | inr g ↦ inl g
  | inl g ↦
      let named : is_empty (literal_base_dir rel) ≡ false = ground (arith, g) in
      let (tail, e) = rel_below_base rel g named in
      inr (
        literal_base_dir rel,
        tail,
        e,
        named,
        ground (
          arith,
          literal_segments_plain (split slash rel),
          has_glob_char-is_literal (literal_base_dir rel),
        ),
      )
]

re_matches :
    (rel : Text) (re : List Item) (s : Text)
    → glob_to_regexp rel ≡ some re
    → (lacks newline s ≡ false) ⊎ ((match_items re s ≡ true) ↔ Globs rel s)
re_matches rel re s g = elim (Bool-cases (lacks newline s)) [
  | inl no_break ↦ inr (match_items-Globs rel s re g no_break)
  | inr a_break ↦ inl a_break
]

abbrev pattern_of : Text → Text → List Item → PublicPattern
pattern_of text rel re = record { raw = text; rel = rel; is_glob = has_glob_char rel; re = re }

-- The last test of `compile_rel`.
compiled-IsSafe :
    (text rel : Text) (p : PublicPattern) (o : Option (List Item))
    → IsBelowHome text rel
    → glob_to_regexp rel ≡ o
    → is_empty rel ≡ false
    → is_abs rel ≡ false
    → has_dot_dot_segment (split slash rel) ≡ false
    → (has_glob_char rel && is_empty (literal_base_dir rel)) ≡ false
    → Path
        (PublicPattern ⊎ Warning)
        (elim o [ none ↦ inr (not_a_pattern text) | some re ↦ inl (pattern_of text rel re) ])
        (inl p)
    → IsSafe p
compiled-IsSafe text rel p none home g a b c d h = cc
compiled-IsSafe text rel p (some re) home g a b c d h = subst IsSafe (made h) (record {
  below_home = home;
  non_empty = a;
  relative = b;
  no_parent = has_dot_dot_segment-NoParent (split slash rel) c;
  glob = has_glob_char-is_literal rel;
  scoped = literal_base_dir-scoped rel d;
  matches = λ s. re_matches rel re s g;
})
  where
    made : {q p : PublicPattern} → Path (PublicPattern ⊎ Warning) (inl q) (inl p) → q ≡ p
    made e = cc

compile_rel-IsSafe :
    (text rel : Text) (p : PublicPattern)
    → IsBelowHome text rel
    → is_abs rel ≡ false
    → compile_rel text rel ≡ inl p
    → IsSafe p
unfolding compile_rel
compile_rel-IsSafe text rel p home a h = elim (Bool-cases (is_empty rel)) [
  | inl e ↦ absurd (ground (arith, e))
  | inr b ↦ elim (Bool-cases (has_dot_dot_segment (split slash rel))) [
    | inl e ↦ absurd (ground (arith, e))
    | inr c ↦ elim (Bool-cases (has_glob_char rel && is_empty (literal_base_dir rel))) [
      | inl e ↦ absurd (ground (arith, e))
      | inr d ↦
          compiled-IsSafe text rel p (glob_to_regexp rel) home refl b a c d (rw (b, c, d) at h)
    ]
  ]
]

abbrev after_home : Text → Text
after_home text = trim_left_func (λ c. c == slash) (trim_prefix (trim_space text) (codes "~/"))

home_prefix :
    (t : Text) → has_prefix t (codes "~/") ≡ true → t ≡ codes "~/" ++ trim_prefix t (codes "~/")
home_prefix t h = sym (append-drop_text t (codes "~/") h) ∙ rw h refl

trim_left_func-split :
    (t : Text)
    → (slashes : Text) × (t ≡ slashes ++ trim_left_func (λ c. c == slash) t)
      × (trim_left_func (λ c. c == slash) slashes ≡ [])
unfolding trim_left_func
trim_left_func-split [] = ([], refl, refl)
trim_left_func-split (c ∷ t) = elim (Bool-cases (c == slash)) [
  | inl e ↦
      let (slashes, q, all) = trim_left_func-split t in
      (c ∷ slashes, rw e (ap (λ x. c ∷ x) q), rw e all)
  | inr e ↦ ([], rw e refl, refl)
]

compile_entry-IsBelowHome :
    (text : Text) (p : PublicPattern)
    → compile_entry text ≡ inl p
    → IsBelowHome text (after_home text)
unfolding compile_entry
compile_entry-IsBelowHome text p h =
    let (slashes, q, all) = trim_left_func-split (trim_prefix (trim_space text) (codes "~/")) in
    let home : has_prefix (trim_space text) (codes "~/") ≡ true = ground arith in
    (slashes, home_prefix (trim_space text) home ∙ ap (λ x. codes "~/" ++ x) q, all)

compile_entry_home :
    (text : Text) (p : PublicPattern)
    → compile_entry text ≡ inl p
    → compile_rel text (after_home text) ≡ inl p
unfolding compile_entry
compile_entry_home text p h = ground arith

compile_entry-IsSafe : (text : Text) (p : PublicPattern) → compile_entry text ≡ inl p → IsSafe p
compile_entry-IsSafe text p h =
    compile_rel-IsSafe text (after_home text) p (compile_entry-IsBelowHome text p h)
      (trim_left_func_first (trim_prefix (trim_space text) (codes "~/")))
      (compile_entry_home text p h)

collect-AllSafe :
    (r : PublicPattern ⊎ Warning) (rest : List PublicPattern × List Warning)
    → ((p : PublicPattern) → r ≡ inl p → IsSafe p)
    → AllSafe rest.0
    → AllSafe (collect r rest).0
collect-AllSafe (inl p) (pats, warnings) safe h = (safe p refl, h)
collect-AllSafe (inr w) (pats, warnings) safe h = h

-- Every pattern that a profile's entries compile to is what its entry has after "~/" and any further
-- slashes, without the spaces around it: a non-empty relative path without a segment "..". It counts as a glob exactly when a star or a question mark occurs in it. A glob lies below a
-- directory that is named without these characters, so it is no glob of the whole home. The compiled
-- pattern matches exactly the texts that the glob stands for, among those without a line break.
pub compile_public_patterns-AllSafe :
    (public : List Text) → AllSafe (compile_public_patterns public).0
unfolding compile_public_patterns
compile_public_patterns-AllSafe [] = tt
compile_public_patterns-AllSafe (text ∷ public) =
    collect-AllSafe (compile_entry text) (compile_public_patterns public)
      (compile_entry-IsSafe text) (compile_public_patterns-AllSafe public)
