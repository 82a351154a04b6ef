-- ===== src/Collect/Once.antt =====
-- No file is collected twice.
use vmdockerv.Base.{
  Bool, Bool-cases, List, Op, Option-cases, Result, Result-cases, Text, [], ap, arith, err, false,
  inl, inr, none, ok, refl, some, subst, sym, true, ◌>>=◌, ◌∙◌, ◌∷◌, ◌≡◌, ◌≤◌,
}
use vmdockerv.Collect.{
  Collecting, Found, PublicEntry, Tree, collect_exact, collect_file, collect_once, collect_pattern,
  collect_patterns, collect_public, collect_visit, collect_walk, failed, folder, gone, insert_entry,
  is_a_directory, note_unmatched, plain_file, sort_entries, start_collecting, warn,
}
use vmdockerv.Collect.Added.{IsOnce, collect_once-IsOnce, count, paths}
use vmdockerv.ContainerEnv.{text_le}
use vmdockerv.Paths.{join_paths}
use vmdockerv.Paths.Relative.{relative}
use vmdockerv.Public.{PublicPattern, compile_public_patterns, literal_base_dir, match_items}

-- An exact entry is written as its file's path below the home directory is.
abbrev pub IsPlain : Text → PublicPattern → Type 0
IsPlain home p = p.is_glob ≡ false → relative home (join_paths (home ∷ p.rel ∷ [])) ≡ some p.rel

abbrev pub AllPlain : Text → List PublicPattern → Type 0
AllPlain home [] = Unit
AllPlain home (p ∷ pats) = IsPlain home p × AllPlain home pats

module _ (tree : Tree) (home : Text) where
  abbrev Keeps : {A : Type 0} → Op Collecting A → Type 0
  Keeps {A} m = (s : Collecting) (a : A) → IsOnce s → (m s).0 ≡ ok a → IsOnce (m s).1

  chain-Keeps :
      {A B : Type 0} (m : Op Collecting A) (f : A → Op Collecting B)
      → Keeps m
      → ((a : A) → Keeps (f a))
      → Keeps (m >>= f)
  chain-Keeps {A} {B} m f h k s b i e = from (m s) (λ a q. h s a i q) e
    where
      from :
          (r : Result A × Collecting)
          → ((a : A) → r.0 ≡ ok a → IsOnce r.1)
          → (elim r.0 as (λ x. Result B × Collecting) [ ok a ↦ f a r.1 | err x ↦ (err x, r.1) ]).0
            ≡ ok b
          → IsOnce
              (elim r.0 as (λ x. Result B × Collecting) [ ok a ↦ f a r.1 | err x ↦ (err x, r.1) ]).1
      from (ok a, t) i e = k a t b (i a refl) e
      from (err x, t) i e = absurd (cc)

  collect_file-Keeps :
      (p : PublicPattern) (matched : Bool) (path : Text)
      → Keeps (collect_file tree home p matched path)
  unfolding collect_file
  collect_file-Keeps p matched path s b i h = elim (Option-cases (relative home path)) [
    | inl e ↦ absurd (ground (arith, e))
    | inr (rel, e) ↦ elim (Bool-cases (match_items p.re rel)) [
      | inl m ↦
          let unfolded : collect_file tree home p matched path s
              ≡ collect_once tree home rel path s =
            ground (arith, e, m) in
          subst (λ r. IsOnce r.1) (sym unfolded)
            (collect_once-IsOnce tree home rel path b s e i (sym (ap (λ r. r.0) unfolded) ∙ h))
      | inr m ↦
          let unfolded : collect_file tree home p matched path s ≡ (ok matched, s) =
            ground (arith, e, m) in
          subst (λ r. IsOnce r.1) (sym unfolded) i
    ]
  ]

  collect_visit-Keeps :
      (p : PublicPattern) (matched : Bool) (path : Text) (found : Found)
      → Keeps (collect_visit tree home p matched path found)
  unfolding collect_visit
  collect_visit-Keeps p matched path gone s b i h = i
  collect_visit-Keeps p matched path folder s b i h = i
  collect_visit-Keeps p matched path (failed e) s b i h = i
  collect_visit-Keeps p matched path plain_file s b i h = collect_file-Keeps p matched path s b i h

  collect_walk-Keeps :
      (p : PublicPattern) (matched : Bool) (visits : List (Text × Found))
      → Keeps (collect_walk tree home p matched visits)
  unfolding collect_walk
  collect_walk-Keeps p matched [] s b i h = i
  collect_walk-Keeps p matched ((path, found) ∷ visits) s b i h =
      chain-Keeps (collect_visit tree home p matched path found)
        (λ now. collect_walk tree home p now visits) (collect_visit-Keeps p matched path found)
        (λ now. collect_walk-Keeps p now visits) s b i h

  collect_exact-Keeps :
      (p : PublicPattern)
      → relative home (join_paths (home ∷ p.rel ∷ [])) ≡ some p.rel
      → Keeps (collect_exact tree home p)
  unfolding collect_exact
  collect_exact-Keeps p e s b i h =
      elim (Option-cases (tree.stat (join_paths (home ∷ p.rel ∷ [])))) [
        | inl r ↦ subst (λ x. IsOnce x.1) (sym (absent_file r)) i
        | inr (is_dir, r) ↦ elim (Bool-cases is_dir) [
          | inl d ↦
              subst (λ x. IsOnce x.1) (sym (a_directory is_dir r d))
                (record { all_seen = i.all_seen; once = i.once })
          | inr d ↦
              let unfolded : collect_exact tree home p s
                  ≡ collect_once tree home p.rel (join_paths (home ∷ p.rel ∷ [])) s =
                ground (arith, r, d) in
              subst (λ x. IsOnce x.1) (sym unfolded)
                (collect_once-IsOnce tree home p.rel (join_paths (home ∷ p.rel ∷ [])) b s e i
                  (sym (ap (λ x. x.0) unfolded) ∙ h))
        ]
      ]
    where
      absent_file :
          tree.stat (join_paths (home ∷ p.rel ∷ [])) ≡ none
          → collect_exact tree home p s ≡ (ok false, s)
      absent_file r = unfold collect_exact in ground (arith, r)

      a_directory :
          (is_dir : Bool)
          → tree.stat (join_paths (home ∷ p.rel ∷ [])) ≡ some is_dir
          → is_dir ≡ true
          → collect_exact tree home p s ≡ (ok false, (warn (is_a_directory p.raw) s).1)
      a_directory is_dir r d = unfold collect_exact in ground (arith, r, d)

  collect_pattern-Keeps : (p : PublicPattern) → IsPlain home p → Keeps (collect_pattern tree home p)
  unfolding collect_pattern
  collect_pattern-Keeps p plain s b i h = elim (Bool-cases p.is_glob) [
    | inl g ↦
        let unfolded : collect_pattern tree home p s ≡ collect_walk tree home p false visits s =
          ground (arith, g) in
        subst (λ x. IsOnce x.1) (sym unfolded)
          (collect_walk-Keeps p false visits s b i (sym (ap (λ x. x.0) unfolded) ∙ h))
    | inr g ↦
        let unfolded : collect_pattern tree home p s ≡ collect_exact tree home p s =
          ground (arith, g) in
        subst (λ x. IsOnce x.1) (sym unfolded)
          (collect_exact-Keeps p (plain g) s b i (sym (ap (λ x. x.0) unfolded) ∙ h))
  ]
    where
      visits : List (Text × Found)
      visits = tree.walk (join_paths (home ∷ literal_base_dir p.rel ∷ []))

  note_unmatched-Keeps :
      (p : PublicPattern) (matched : Bool) → Keeps (note_unmatched tree home p matched)
  note_unmatched-Keeps p true s b i h = i
  note_unmatched-Keeps p false s b i h = record { all_seen = i.all_seen; once = i.once }

  collect_patterns-Keeps :
      (pats : List PublicPattern) → AllPlain home pats → Keeps (collect_patterns tree home pats)
  unfolding collect_patterns
  collect_patterns-Keeps [] plain s b i h = i
  collect_patterns-Keeps (p ∷ pats) plain s b i h =
      chain-Keeps (collect_pattern tree home p)
        (λ matched. note_unmatched tree home p matched >>= λ d. collect_patterns tree home pats)
        (collect_pattern-Keeps p plain.0)
        (λ matched.
          chain-Keeps (note_unmatched tree home p matched) (λ d. collect_patterns tree home pats)
            (note_unmatched-Keeps p matched) (λ d. collect_patterns-Keeps pats plain.1))
        s b i h

count-insert_entry :
    (q : Text) (e : PublicEntry) (es : List PublicEntry)
    → count q (paths (insert_entry e es)) ≡ count q (e.path ∷ paths es)
unfolding insert_entry count
count-insert_entry q e [] = refl
count-insert_entry q e (f ∷ fs) = elim (Bool-cases (text_le e.path f.path)) [
  | inl l ↦ rw l refl
  | inr l ↦ rw l (ground (arith, count-insert_entry q e fs))
]

count-sort_entries :
    (q : Text) (es : List PublicEntry) → count q (paths (sort_entries es)) ≡ count q (paths es)
unfolding sort_entries count
count-sort_entries q [] = refl
count-sort_entries q (e ∷ es) =
    count-insert_entry q e (sort_entries es) ∙ ground (arith, count-sort_entries q es)

-- No path stands twice among the files that a profile's public entries collect, when the entries
-- without metacharacters are written as clean paths.
pub collect_public_once :
    (tree : Tree) (home : Text) (public : List Text) (s : Collecting) (q : Text)
    → AllPlain home (compile_public_patterns public).0
    → collect_public tree home public ≡ ok s
    → count q (paths s.entries) ≤ 1
unfolding collect_public
collect_public_once tree home public s q plain h =
    elim (Result-cases (collect_patterns tree home pats begin).0) [
      | inr (f, e) ↦ absurd (ground (arith, h, e))
      | inl (d, e) ↦
          let kept =
            collect_patterns-Keeps tree home pats plain begin d
              (record { all_seen = refl; once = λ r. unfold count in omega arith }) e in
          let sorted : s.entries ≡ sort_entries (collect_patterns tree home pats begin).1.entries =
            ground (arith, h, e) in
          let counted : count q (paths s.entries)
              ≡ count q (collect_patterns tree home pats begin).1.seen =
            ap (λ es. count q (paths es)) sorted
            ∙ count-sort_entries q (collect_patterns tree home pats begin).1.entries
            ∙ ap (count q) kept.all_seen in
          subst (λ n. n ≤ 1) (sym counted) (kept.once q)
    ]
  where
    pats : List PublicPattern
    pats = (compile_public_patterns public).0

    begin : Collecting
    begin = start_collecting (compile_public_patterns public).1
