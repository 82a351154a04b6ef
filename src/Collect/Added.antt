-- ===== src/Collect/Added.antt =====
-- One file is collected under a path that was not seen before.
use vmdockerv.Base.{
  Bool, Bool-cases, Done, List, Result-cases, Text, [], ap, arith, bind_inv, false, if◌then◌else◌,
  inl, inr, length, map, ok, pure, refl, some, subst, sym, text_eq, text_eq_iff, true, ℕ, ◌++◌, ◌+◌,
  ◌∙◌, ◌∷◌, ◌≡◌, ◌≤◌,
}
use vmdockerv.Collect.{
  Collecting, PublicEntry, Tree, append_entry, check_link, collect_once, collect_one, mark_seen,
  resolve_within_home, text_member,
}
use vmdockerv.Paths.Relative.{relative}

abbrev pub paths : List PublicEntry → List Text
paths es = map (λ e. e.path) es

unfoldable pub count : Text → List Text → ℕ
count q [] = 0
count q (s ∷ ss) = if text_eq q s then 1 + count q ss else count q ss

-- The paths seen are those of the entries, each once.
pub record IsOnce (s : Collecting) : Type 0 where
  pub all_seen : paths s.entries ≡ s.seen
  pub once : (q : Text) → count q s.seen ≤ 1

count-append : (q : Text) (xs ys : List Text) → count q (xs ++ ys) ≡ count q xs + count q ys
unfolding count
count-append q [] ys = omega arith
count-append q (x ∷ xs) ys = ground (arith, count-append q xs ys)

count_missing : (q : Text) (ss : List Text) → text_member q ss ≡ false → count q ss ≡ 0
unfolding count text_member
count_missing q [] h = refl
count_missing q (s ∷ ss) h = ground (arith, count_missing q ss)

count_added :
    (rel : Text) (seen : List Text)
    → text_member rel seen ≡ false
    → ((q : Text) → count q seen ≤ 1)
    → (q : Text) → count q (seen ++ rel ∷ []) ≤ 1
count_added rel seen h k q = elim (Bool-cases (text_eq q rel)) [
  | inl e ↦
      unfold count in
      ground
        (arith, count-append q seen (rel ∷ []), (text_eq_iff q rel).0 e, count_missing rel seen h)
  | inr e ↦ unfold count in ground (arith, count-append q seen (rel ∷ []), k q, e)
]

paths-append : (xs ys : List PublicEntry) → paths (xs ++ ys) ≡ paths xs ++ paths ys
paths-append [] ys = refl
paths-append (x ∷ xs) ys = ap (λ l. x.path ∷ l) (paths-append xs ys)

module _ (tree : Tree) (home : Text) where
  check_link_keeps :
      (path : Text) (b : Bool) (s : Collecting) → (check_link tree home path b s).1 ≡ s
  unfolding resolve_within_home
  check_link_keeps path b s = ground arith

  -- What a successful `collect_one` adds.
  collect_one-ok :
      (path rel : Text) (d : Done) (s : Collecting)
      → relative home path ≡ some rel
      → (collect_one tree home path s).0 ≡ ok d
      → (content : Text) × ((collect_one tree home path s).1
          ≡ (append_entry rel (tree.sha256_hex content) content s).1)
  unfolding collect_one
  collect_one-ok path rel d s e h = elim (Result-cases (tree.lstat path)) [
    | inr (f, r) ↦ absurd (ground (arith, r))
    | inl (is_link, r) ↦ elim (Result-cases (check_link tree home path is_link s).0) [
      | inr (f, q) ↦ absurd (ground (arith, r, q))
      | inl (x, q) ↦ elim (Result-cases (tree.read_file path)) [
        | inr (f, p) ↦ absurd (ground (arith, r, q, p))
        | inl (content, p) ↦ (content, ground (arith, r, q, p, e, check_link_keeps path is_link s))
      ]
    ]
  ]

  collect_new-IsOnce :
      (rel path : Text) (d : Done) (s : Collecting)
      → relative home path ≡ some rel
      → IsOnce s
      → text_member rel s.seen ≡ false
      → (collect_one tree home path (mark_seen rel s).1).0 ≡ ok d
      → IsOnce (collect_one tree home path (mark_seen rel s).1).1
  collect_new-IsOnce rel path d s e i unseen h =
      let (content, added) = collect_one-ok path rel d (mark_seen rel s).1 e h in
      subst IsOnce (sym added) (record {
        all_seen =
            paths-append s.entries
              (record { path = rel; size = length content; sha256 = tree.sha256_hex content } ∷ [])
            ∙ ap (λ l. l ++ rel ∷ []) i.all_seen;
        once = count_added rel s.seen unseen i.once;
      })

  pub collect_once-IsOnce :
      (rel path : Text) (b : Bool) (s : Collecting)
      → relative home path ≡ some rel
      → IsOnce s
      → (collect_once tree home rel path s).0 ≡ ok b
      → IsOnce (collect_once tree home rel path s).1
  unfolding collect_once
  collect_once-IsOnce rel path b s e i h = elim (Bool-cases (text_member rel s.seen)) [
    | inl m ↦ rw m i
    | inr m ↦
        let (d, collected, q) =
          bind_inv (collect_one tree home path (mark_seen rel s).1) (λ d. pure true) b
            (rw m at h) in
        let unfolded : (collect_once tree home rel path s).1
            ≡ (collect_one tree home path (mark_seen rel s).1).1 =
          ground (arith, m, collected) in
        subst IsOnce (sym unfolded) (collect_new-IsOnce rel path d s e i m collected)
  ]
