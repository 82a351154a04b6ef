-- ===== src/Collect.antt =====
-- vmdocker/capability/collect.go: the files that the public entries of a profile select.
pub mod Added
pub mod Once
mod Samples
use vmdockerv.Base.{
  Bool, Done, Error, List, Op, Option, Result, Text, [], codes, err, false, has_prefix,
  if◌then◌else◌, length, map, none, ok, path_escape, pure, require, some, text_eq, throw, true, ℕ,
  ◌++◌, ◌+◌, ◌>>=◌, ◌>>◌, ◌||◌, ◌∷◌,
}
use vmdockerv.ContainerEnv.{text_le}
use vmdockerv.Paths.{join_paths}
use vmdockerv.Paths.Relative.{or_failure, relative}
use vmdockerv.Public.{
  PublicPattern, Warning, compile_public_patterns, literal_base_dir, match_items,
}

pub record PublicEntry : Type 0 where
  pub path : Text
  pub size : ℕ
  pub sha256 : Text

-- A pattern's own warning, or that it matched nothing or names a directory.
pub data CollectWarning : Type 0 where
  not_compiled : Warning → CollectWarning
  matched_nothing : Text → CollectWarning
  is_a_directory : Text → CollectWarning

-- What the walk finds at a path: gone since it was listed, a failure, a directory or a file.
pub data Found : Type 0 where
  gone folder plain_file : Found
  failed : Error → Found

-- The file system below the home directory, which the scan only reads: `stat` tells whether a path is
-- there and is a directory, `lstat` whether it is a symbolic link, `walk` is what `filepath.Walk` visits.
pub record Tree : Type 0 where
  pub stat : Text → Option Bool
  pub lstat : Text → Result Bool
  pub eval_symlinks : Text → Result Text
  pub read_file : Text → Result Text
  pub walk : Text → List (Text × Found)
  pub sha256_hex : Text → Text

-- The collection so far, and the paths `seen`.
pub record Collecting : Type 0 where
  pub seen : List Text
  pub entries : List PublicEntry
  pub total_bytes : ℕ
  pub warnings : List CollectWarning

unfoldable pub text_member : Text → List Text → Bool
text_member t [] = false
text_member t (s ∷ ss) = text_eq t s || text_member t ss

abbrev pub given : {A : Type 0} → Result A → Op Collecting A
given r s = (r, s)

abbrev pub warn : CollectWarning → Op Collecting Done
warn x s = (ok tt, record s { warnings = s.warnings ++ x ∷ [] })

abbrev pub mark_seen : Text → Op Collecting Done
mark_seen rel s = (ok tt, record s { seen = s.seen ++ rel ∷ [] })

abbrev pub append_entry : Text → Text → Text → Op Collecting Done
append_entry rel sum content s = (
  ok tt,
  record s {
    entries = s.entries ++ record { path = rel; size = length content; sha256 = sum } ∷ [];
    total_bytes = s.total_bytes + length content;
  },
)

module _ (tree : Tree) (home : Text) where
  open tree use {stat, lstat, eval_symlinks, read_file, walk, sha256_hex}

  unfoldable pub resolve_within_home : Text → Op Collecting Text
  resolve_within_home abs_path = do
    real ← given (eval_symlinks abs_path)
    home_real ← given (eval_symlinks home)
    require (text_eq real home_real || has_prefix real (home_real ++ codes "/")) path_escape
    pure real

  abbrev pub check_link : Text → Bool → Op Collecting Done
  check_link path is_link = if is_link then (resolve_within_home path >> pure tt) else pure tt

  unfoldable pub collect_one : Text → Op Collecting Done
  unfolding resolve_within_home
  collect_one path = do
    is_link ← given (lstat path)
    check_link path is_link
    content ← given (read_file path)
    rel ← given (or_failure (relative home path))
    append_entry rel (sha256_hex content) content

  -- A path is collected once, by what it is known as.
  unfoldable pub collect_once : Text → Text → Op Collecting Bool
  unfolding collect_one
  collect_once rel path s =
      if text_member rel s.seen
      then (ok true, s)
      else (do mark_seen rel; collect_one path; pure true) s

  unfoldable pub collect_exact : PublicPattern → Op Collecting Bool
  unfolding collect_once
  collect_exact p =
      let abs_path = join_paths (home ∷ p.rel ∷ []) in
      elim (stat abs_path) [
        | none ↦ pure false
        | some is_dir ↦
            if is_dir
            then (do warn (is_a_directory p.raw); pure false)
            else collect_once p.rel abs_path
      ]

  -- One call of the walk's function; the Boolean is `matched`.
  unfoldable pub collect_file : PublicPattern → Bool → Text → Op Collecting Bool
  unfolding collect_once
  collect_file p matched path = do
    rel ← given (or_failure (relative home path))
    if match_items p.re rel then collect_once rel path else pure matched

  unfoldable pub collect_visit : PublicPattern → Bool → Text → Found → Op Collecting Bool
  unfolding collect_file
  collect_visit p matched path gone = pure matched
  collect_visit p matched path folder = pure matched
  collect_visit p matched path (failed e) = throw e
  collect_visit p matched path plain_file = collect_file p matched path

  unfoldable pub collect_walk : PublicPattern → Bool → List (Text × Found) → Op Collecting Bool
  unfolding collect_visit
  collect_walk p matched [] = pure matched
  collect_walk p matched ((path, found) ∷ visits) =
      collect_visit p matched path found >>= λ now. collect_walk p now visits

  unfoldable pub collect_pattern : PublicPattern → Op Collecting Bool
  unfolding collect_exact collect_walk
  collect_pattern p =
      if p.is_glob
      then collect_walk p false (walk (join_paths (home ∷ literal_base_dir p.rel ∷ [])))
      else collect_exact p

  abbrev pub note_unmatched : PublicPattern → Bool → Op Collecting Done
  note_unmatched p matched = if matched then pure tt else warn (matched_nothing p.raw)

  unfoldable pub collect_patterns : List PublicPattern → Op Collecting Done
  unfolding collect_pattern
  collect_patterns [] = pure tt
  collect_patterns (p ∷ pats) = do
    matched ← collect_pattern p
    note_unmatched p matched
    collect_patterns pats

-- sort.Slice, by the path
unfoldable pub insert_entry : PublicEntry → List PublicEntry → List PublicEntry
insert_entry e [] = e ∷ []
insert_entry e (f ∷ fs) =
    let rest = insert_entry e fs in if text_le e.path f.path then e ∷ f ∷ fs else f ∷ rest

unfoldable pub sort_entries : List PublicEntry → List PublicEntry
unfolding insert_entry
sort_entries [] = []
sort_entries (e ∷ es) = insert_entry e (sort_entries es)

abbrev pub start_collecting : List Warning → Collecting
start_collecting warnings = record {
  seen = [];
  entries = [];
  total_bytes = 0;
  warnings = map not_compiled warnings;
}

unfoldable pub collect_public : Tree → Text → List Text → Result Collecting
unfolding collect_patterns sort_entries
collect_public tree home public =
    let (pats, warnings) = compile_public_patterns public in
    let (r, s) = collect_patterns tree home pats (start_collecting warnings) in
    elim r [ err e ↦ err e | ok d ↦ ok (record s { entries = sort_entries s.entries }) ]
