-- ===== src/Public/Samples.antt =====
-- The public patterns at concrete entries.
use vmdockerv.Base.{
  List, Text, [], codes, false, has_prefix, is_empty, join, map, refl, some, split, text_discrete,
  trim_left_func, trim_space, true, ◌++◌, ◌↔◌, ◌∷◌, ◌≡◌,
}
use vmdockerv.Public.{
  compile_entry, compile_public_patterns, compile_rel, glob_to_regexp, has_dot_dot,
  has_dot_dot_segment, has_glob_char, home_root_glob, literal_base_dir, literal_segments,
  match_items, not_in_home, parse_items, quote_meta, replace_pair,
}
use vmdockerv.Public.BaseDir.{literal_base_dir-Globs}
use vmdockerv.Public.Compiled.{AllSafe, compile_public_patterns-AllSafe}
use vmdockerv.Public.Regex.{Globs, item_of, match_items-Globs, match_items_line_break}

abbrev skills : Text
skills = codes "skills/*.md"

abbrev below_skills : Text
below_skills = codes "skills/go/test.md"

abbrev two_lines : Text
two_lines = codes "skills/a\nb.md"

glob_to_regexp-skills : glob_to_regexp skills ≡ some (map item_of skills)
unfolding glob_to_regexp quote_meta replace_pair parse_items
glob_to_regexp-skills = refl

has_glob_char-skills : has_glob_char skills ≡ true
unfolding has_glob_char
has_glob_char-skills = refl

base_skills : is_empty (literal_base_dir skills) ≡ false
unfolding literal_base_dir literal_segments has_glob_char split join
base_skills = refl

matches_below : match_items (map item_of skills) below_skills ≡ true
unfolding match_items
matches_below = refl

match_items-Globs_example :
    (match_items (map item_of skills) below_skills ≡ true) ↔ Globs skills below_skills
match_items-Globs_example =
    match_items-Globs skills below_skills (map item_of skills) glob_to_regexp-skills refl

literal_base_dir-Globs_example :
    has_prefix below_skills (literal_base_dir skills ++ codes "/") ≡ true
literal_base_dir-Globs_example =
    literal_base_dir-Globs skills below_skills has_glob_char-skills base_skills
      (match_items-Globs_example.0 matches_below)

match_items_line_break_example : match_items (map item_of skills) two_lines ≡ false
match_items_line_break_example =
    match_items_line_break skills two_lines (map item_of skills) glob_to_regexp-skills refl refl

-- One entry is taken, one is outside of the home directory, and one is a glob of the whole home.
abbrev entries : List Text
entries = codes " ~/skills/*.md " ∷ codes "/etc/passwd" ∷ codes "~/*" ∷ codes "~/a/../b" ∷ []

compile_public_patterns-entries :
    (compile_public_patterns entries).1
    ≡ not_in_home (codes "/etc/passwd")
      ∷ home_root_glob (codes "~/*")
      ∷ has_dot_dot (codes "~/a/../b")
      ∷ []
unfolding compile_public_patterns compile_entry compile_rel has_dot_dot_segment has_glob_char
    literal_base_dir literal_segments glob_to_regexp quote_meta replace_pair parse_items trim_space
    trim_left_func split join text_discrete
compile_public_patterns-entries = refl

compile_public_patterns-AllSafe_example : AllSafe (compile_public_patterns entries).0
compile_public_patterns-AllSafe_example = compile_public_patterns-AllSafe entries
