-- ===== src/Public.antt =====
-- vmdocker/capability/publicmatch.go: the public entries of a profile, compiled to regular expressions.
-- The part of Go's regexp that the program writes is modelled from its syntax: a text between "^" and
-- "$" of quoted and plain characters, "." and ".*", where "." is any character but a line break.
pub mod Regex
pub mod Compiled
pub mod BaseDir
mod Samples
use vmdockerv.Base.{
  Bool, List, Option, Text, [], codes, false, has_prefix, if◌then◌else◌, inl, inr, is_empty, join,
  none, not, some, split, text_eq, trim_left_func, trim_prefix, trim_space, true, ℕ, ◌&&◌, ◌++◌,
  ◌==◌, ◌||◌, ◌∷◌, ◌⊎◌,
}
use vmdockerv.Paths.{dot_dot, slash}

-- What one part of the expression matches.
pub data Item : Type 0 where
  char : ℕ → Item
  any : Item
  any_run : Item

abbrev pub backslash : ℕ
backslash = b'\\'

abbrev pub star : ℕ
star = b'*'

abbrev pub question : ℕ
question = b'?'

abbrev pub period : ℕ
period = b'.'

abbrev pub newline : ℕ
newline = 10

abbrev pub member : ℕ → Text → Bool
member c [] = false
member c (d ∷ t) = c == d || member c t

-- The characters that `regexp.QuoteMeta` quotes.
unfoldable pub is_meta : ℕ → Bool
is_meta c = member c (codes "\\.+*?()|[]{}^$")

-- regexp.QuoteMeta
unfoldable pub quote_meta : Text → Text
unfolding is_meta
quote_meta [] = []
quote_meta (c ∷ s) = let rest = quote_meta s in if is_meta c then backslash ∷ c ∷ rest else c ∷ rest

-- strings.ReplaceAll(s, old, new), for an `old` of two characters.
unfoldable pub replace_pair : ℕ → ℕ → Text → Text → Text
replace_pair a b new [] = []
replace_pair a b new (c ∷ []) = c ∷ []
replace_pair a b new (c ∷ d ∷ s) =
    let hit = new ++ replace_pair a b new s in
    let miss = c ∷ replace_pair a b new (d ∷ s) in if c == a && d == b then hit else miss

abbrev pub cons_item : Item → Option (List Item) → Option (List Item)
cons_item i none = none
cons_item i (some items) = some (i ∷ items)

-- The parts of an expression, if it is one of the kind that the program writes.
unfoldable pub parse_items : Text → Option (List Item)
unfolding is_meta
parse_items [] = some []
parse_items (c ∷ []) =
    if c == period then some (any ∷ []) else if is_meta c then none else some (char c ∷ [])
parse_items (c ∷ d ∷ s) =
    let quoted = cons_item (char d) (parse_items s) in
    let many = cons_item any_run (parse_items s) in
    let single = cons_item any (parse_items (d ∷ s)) in
    let plain = cons_item (char c) (parse_items (d ∷ s)) in
    if c == backslash
    then (if is_meta d then quoted else none)
    else if c == period
    then (if d == star then many else single)
    else if is_meta c
    then none
    else plain

-- `globToRegexp`, without the anchors, which `match_items` has.
unfoldable pub glob_to_regexp : Text → Option (List Item)
unfolding quote_meta replace_pair parse_items
glob_to_regexp glob =
    let quoted = quote_meta glob in
    let runs = replace_pair backslash star (codes ".*") quoted in
    parse_items (replace_pair backslash question (codes ".") runs)

abbrev pub is_line_break : ℕ → Bool
is_line_break c = c == newline

-- `MatchString` of the anchored expression.
unfoldable pub match_items : List Item → Text → Bool
match_items [] [] = true
match_items [] (c ∷ s) = false
match_items (char d ∷ p) [] = false
match_items (char d ∷ p) (c ∷ s) = c == d && match_items p s
match_items (any ∷ p) [] = false
match_items (any ∷ p) (c ∷ s) = not (is_line_break c) && match_items p s
match_items (any_run ∷ p) [] = match_items p []
match_items (any_run ∷ p) (c ∷ s) =
    let left = match_items p (c ∷ s) in
    let taken = match_items (any_run ∷ p) s in left || (not (is_line_break c) && taken)

pub record PublicPattern : Type 0 where
  pub raw : Text
  pub rel : Text
  pub is_glob : Bool
  pub re : List Item

-- The warnings, each with the entry.
pub data Warning : Type 0 where
  not_in_home no_path has_dot_dot home_root_glob not_a_pattern : Text → Warning

-- strings.ContainsAny(s, "*?")
unfoldable pub has_glob_char : Text → Bool
has_glob_char [] = false
has_glob_char (c ∷ s) = (c == star || c == question) || has_glob_char s

unfoldable pub has_dot_dot_segment : List Text → Bool
has_dot_dot_segment [] = false
has_dot_dot_segment (seg ∷ segs) = text_eq seg dot_dot || has_dot_dot_segment segs

-- The loop of `literalBaseDir`.
unfoldable pub literal_segments : List Text → List Text
unfolding has_glob_char
literal_segments [] = []
literal_segments (seg ∷ segs) =
    let rest = literal_segments segs in if has_glob_char seg then [] else seg ∷ rest

unfoldable pub literal_base_dir : Text → Text
unfolding literal_segments
literal_base_dir rel = join (literal_segments (split slash rel)) (codes "/")

unfoldable pub compile_rel : Text → Text → PublicPattern ⊎ Warning
compile_rel text rel =
    if is_empty rel
    then inr (no_path text)
    else if has_dot_dot_segment (split slash rel)
    then inr (has_dot_dot text)
    else if has_glob_char rel && is_empty (literal_base_dir rel)
    then inr (home_root_glob text)
    else elim (glob_to_regexp rel) [
      | none ↦ inr (not_a_pattern text)
      | some re ↦ inl (record { raw = text; rel = rel; is_glob = has_glob_char rel; re = re })
    ]

-- One round of the loop of `compilePublicPatterns`.
unfoldable pub compile_entry : Text → PublicPattern ⊎ Warning
compile_entry text =
    let e = trim_space text in
    if not (has_prefix e (codes "~/"))
    then inr (not_in_home text)
    else compile_rel text (trim_left_func (λ c. c == slash) (trim_prefix e (codes "~/")))

abbrev pub collect :
    PublicPattern ⊎ Warning → List PublicPattern × List Warning → List PublicPattern × List Warning
collect (inl p) (pats, warnings) = (p ∷ pats, warnings)
collect (inr w) (pats, warnings) = (pats, w ∷ warnings)

unfoldable pub compile_public_patterns : List Text → List PublicPattern × List Warning
compile_public_patterns [] = ([], [])
compile_public_patterns (text ∷ public) =
    collect (compile_entry text) (compile_public_patterns public)

unfoldable pub matches_any_public : Text → List PublicPattern → Bool
matches_any_public rel [] = false
matches_any_public rel (p ∷ pats) = match_items p.re rel || matches_any_public rel pats
