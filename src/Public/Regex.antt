-- ===== src/Public/Regex.antt =====
-- The expression that a glob becomes, and what it matches.
use vmdockerv.Base.{
  Bool, Bool-cases, List, Text, [], arith, codes, false, if◌then◌else◌, inl, inr, lacks, map, refl,
  some, true, ℕ, ◌&&◌, ◌++◌, ◌==◌, ◌↔◌, ◌∷◌, ◌≡◌, ◌≢◌, ◌⊎◌,
}
use vmdockerv.Public.{
  Item, any, any_run, backslash, char, cons_item, glob_to_regexp, is_meta, match_items, newline,
  parse_items, period, question, quote_meta, replace_pair, star,
}
use native.Mathlib.Decide.{ℕ_discrete}

-- The part that a character of a glob stands for.
abbrev pub item_of : ℕ → Item
item_of c = if c == star then any_run else if c == question then any else char c

abbrev head_is : ℕ → Text → Bool
head_is c [] = false
head_is c (d ∷ t) = d == c

-- The text after the first, and after the second, replacement.
runs : Text → Text
runs [] = []
runs (c ∷ g) =
    if c == star
    then period ∷ star ∷ runs g
    else if is_meta c
    then backslash ∷ c ∷ runs g
    else c ∷ runs g

expression : Text → Text
expression [] = []
expression (c ∷ g) =
    if c == star
    then period ∷ star ∷ expression g
    else if c == question
    then period ∷ expression g
    else if is_meta c
    then backslash ∷ c ∷ expression g
    else c ∷ expression g

replace_skip :
    (a b : ℕ) (new : Text) (c : ℕ) (t : Text)
    → (c == a && head_is b t) ≡ false
    → replace_pair a b new (c ∷ t) ≡ c ∷ replace_pair a b new t
unfolding replace_pair
replace_skip a b new c [] h = refl
replace_skip a b new c (d ∷ t) h = ground arith

replace_hit :
    (a b : ℕ) (new t : Text) → replace_pair a b new (a ∷ b ∷ t) ≡ new ++ replace_pair a b new t
unfolding replace_pair
replace_hit a b new t = ground arith

head_is-quote_meta : (g : Text) → head_is star (quote_meta g) ≡ false
unfolding quote_meta is_meta
head_is-quote_meta [] = refl
head_is-quote_meta (c ∷ g) = ground arith

head_is-runs : (g : Text) → head_is question (runs g) ≡ false
unfolding runs is_meta
head_is-runs [] = refl
head_is-runs (c ∷ g) = ground arith

head_is-expression : (g : Text) → head_is star (expression g) ≡ false
unfolding expression is_meta
head_is-expression [] = refl
head_is-expression (c ∷ g) = ground arith

star-is_meta : is_meta star ≡ true
unfolding is_meta
star-is_meta = refl

question-is_meta : is_meta question ≡ true
unfolding is_meta
question-is_meta = refl

replace-quote_meta : (g : Text) → replace_pair backslash star (codes ".*") (quote_meta g) ≡ runs g
unfolding quote_meta runs
replace-quote_meta [] = unfold replace_pair in refl
replace-quote_meta (c ∷ g) = ground (
  arith,
  replace-quote_meta g,
  head_is-quote_meta g,
  star-is_meta,
  replace_hit backslash star (codes ".*") (quote_meta g),
  replace_skip backslash star (codes ".*") backslash (c ∷ quote_meta g),
  replace_skip backslash star (codes ".*") c (quote_meta g),
)

replace-runs : (g : Text) → replace_pair backslash question (codes ".") (runs g) ≡ expression g
unfolding runs expression
replace-runs [] = unfold replace_pair in refl
replace-runs (c ∷ g) = ground (
  arith,
  replace-runs g,
  head_is-runs g,
  question-is_meta,
  replace_hit backslash question (codes ".") (runs g),
  replace_skip backslash question (codes ".") backslash (c ∷ runs g),
  replace_skip backslash question (codes ".") period (star ∷ runs g),
  replace_skip backslash question (codes ".") c (runs g),
)

parse_period :
    (t : Text) → head_is star t ≡ false → parse_items (period ∷ t) ≡ cons_item any (parse_items t)
unfolding parse_items is_meta
parse_period [] h = refl
parse_period (d ∷ t) h = ground arith

parse_plain :
    (c : ℕ) (t : Text)
    → is_meta c ≡ false
    → parse_items (c ∷ t) ≡ cons_item (char c) (parse_items t)
unfolding parse_items is_meta
parse_plain c [] h = ground arith
parse_plain c (d ∷ t) h = ground arith

parse_run : (t : Text) → parse_items (period ∷ star ∷ t) ≡ cons_item any_run (parse_items t)
unfolding parse_items
parse_run t = refl

parse_quoted :
    (c : ℕ) (t : Text)
    → is_meta c ≡ true
    → parse_items (backslash ∷ c ∷ t) ≡ cons_item (char c) (parse_items t)
unfolding parse_items
parse_quoted c t h = rw h refl

parse-expression : (g : Text) → parse_items (expression g) ≡ some (map item_of g)
unfolding expression
parse-expression [] = unfold parse_items in refl
parse-expression (c ∷ g) = ground (
  arith,
  parse-expression g,
  head_is-expression g,
  parse_run (expression g),
  parse_period (expression g),
  parse_quoted c (expression g),
  parse_plain c (expression g),
)

-- Every glob compiles, character by character: a star to any run, a question mark to any character,
-- and every other one, the regexp's own metacharacters included, to itself.
pub glob_to_regexp_lem : (g : Text) → glob_to_regexp g ≡ some (map item_of g)
unfolding glob_to_regexp
glob_to_regexp_lem g = rw (replace-quote_meta g, replace-runs g) (parse-expression g)

-- What a profile's author reads in a glob: a star is any run of characters, slashes included, a
-- question mark is one, and all else is literal.
pub data Globs : Text → Text → Type 0 where
  done : Globs [] []
  leave : {c : ℕ} {g s : Text} → c ≡ star → Globs g s → Globs (c ∷ g) s
  take : {c d : ℕ} {g s : Text} → c ≡ star → Globs (c ∷ g) s → Globs (c ∷ g) (d ∷ s)
  one : {c d : ℕ} {g s : Text} → c ≡ question → Globs g s → Globs (c ∷ g) (d ∷ s)
  same :
      {c d : ℕ} {g s : Text} → c ≢ star → c ≢ question → d ≡ c → Globs g s → Globs (c ∷ g) (d ∷ s)

-- What one step of the matcher does for each kind of character.
item_star : (c : ℕ) → c ≡ star → item_of c ≡ any_run
item_star c e = ground arith

item_question : (c : ℕ) → c ≡ question → item_of c ≡ any
item_question c e = ground arith

item_char : (c : ℕ) → c ≢ star → c ≢ question → item_of c ≡ char c
item_char c a b = ground arith

item-cases : (c : ℕ) → (c ≡ star) ⊎ (c ≡ question) ⊎ ((c ≢ star) × (c ≢ question))
item-cases c = elim (ℕ_discrete c star) [
  | yes e ↦ inl e
  | no a ↦ elim (ℕ_discrete c question) [ yes e ↦ inr (inl e) | no b ↦ inr (inr (a, b)) ]
]

matches_sound : (g s : Text) → match_items (map item_of g) s ≡ true → Globs g s
unfolding match_items
matches_sound [] [] h = done
matches_sound [] (d ∷ s) h = cc
matches_sound (c ∷ g) [] h = elim (item-cases c) [
  | inl e ↦ leave e (matches_sound g [] (ground (arith, item_star c e)))
  | inr (inl e) ↦ ground (arith, item_question c e)
  | inr (inr (a, b)) ↦ ground (arith, item_char c a b)
]
matches_sound (c ∷ g) (d ∷ s) h = elim (item-cases c) [
  | inl e ↦ elim (Bool-cases (match_items (map item_of g) (d ∷ s))) [
    | inl t ↦ leave e (matches_sound g (d ∷ s) t)
    | inr f ↦ take e (matches_sound (c ∷ g) s (ground (arith, item_star c e, f)))
  ]
  | inr (inl e) ↦ one e (matches_sound g s (ground (arith, item_question c e)))
  | inr (inr (a, b)) ↦
      same a b (ground (arith, item_char c a b))
        (matches_sound g s (ground (arith, item_char c a b)))
]

matches_complete :
    {g s : Text} → Globs g s → lacks newline s ≡ true → match_items (map item_of g) s ≡ true
unfolding match_items
matches_complete done h = refl
matches_complete (leave {c} {g} {s = []} e d) h =
    ground (arith, item_star c e, matches_complete d h)
matches_complete (leave {c} {g} {s = x ∷ s} e d) h =
    ground (arith, item_star c e, matches_complete d h)
matches_complete (take {c} {d = x} {g} {s} e d) h =
    ground (arith, item_star c e, matches_complete d (ground arith))
matches_complete (one {c} {d = x} {g} {s} e d) h =
    ground (arith, item_question c e, matches_complete d (ground arith))
matches_complete (same {c} {d = x} {g} {s} a b e d) h =
    ground (arith, item_char c a b, matches_complete d (ground arith))

never_matches :
    (g s : Text)
    → lacks newline g ≡ true
    → lacks newline s ≡ false
    → match_items (map item_of g) s ≡ false
unfolding match_items
never_matches [] [] a b = cc
never_matches [] (d ∷ s) a b = refl
never_matches (c ∷ g) [] a b = cc
never_matches (c ∷ g) (d ∷ s) a b = elim (item-cases c) [
  | inl e ↦ ground (arith, item_star c e, never_matches g (d ∷ s), never_matches (c ∷ g) s)
  | inr (inl e) ↦ ground (arith, item_question c e, never_matches g s)
  | inr (inr (x, y)) ↦ ground (arith, item_char c x y, never_matches g s)
]

-- The compiled glob of an entry matches a path without line breaks exactly when the path is one of
-- those that the glob stands for.
pub match_items-Globs :
    (g rel : Text) (re : List Item)
    → glob_to_regexp g ≡ some re
    → lacks newline rel ≡ true
    → (match_items re rel ≡ true) ↔ Globs g rel
match_items-Globs g rel re h clean_rel =
    let made : map item_of g ≡ re = ground (arith, glob_to_regexp_lem g) in
    (λ m. matches_sound g rel (rw made m), λ d. rw (← made) (matches_complete d clean_rel))

-- A path with a line break matches no glob that has none itself, not even below a star.
pub match_items_line_break :
    (g rel : Text) (re : List Item)
    → glob_to_regexp g ≡ some re
    → lacks newline g ≡ true
    → lacks newline rel ≡ false
    → match_items re rel ≡ false
match_items_line_break g rel re h a b =
    let made : map item_of g ≡ re = ground (arith, glob_to_regexp_lem g) in
    rw (← made) (never_matches g rel a b)
