-- ===== src/Collect/Samples.antt =====
-- The collection of a home with one skill.
use vmdockerv.Base.{
  List, Text, [], codes, err, false, if◌then◌else◌, join, none, ok, refl, some, split,
  text_discrete, text_eq, trim_left_func, trim_space, ◌∷◌, ◌≡◌, ◌≤◌,
}
use vmdockerv.Collect.{
  Collecting, PublicEntry, Tree, collect_exact, collect_file, collect_once, collect_one,
  collect_pattern, collect_patterns, collect_public, collect_visit, collect_walk, insert_entry,
  plain_file, sort_entries, text_member,
}
use vmdockerv.Collect.Added.{count, paths}
use vmdockerv.Collect.Once.{AllPlain, collect_public_once}
use vmdockerv.ContainerEnv.{text_le}
use vmdockerv.Paths.{clean, clean_segments, join_paths, pop_segment, push_segment}
use vmdockerv.Paths.Relative.{named_segments, relative, strip_common}
use vmdockerv.Public.{
  compile_entry, compile_public_patterns, compile_rel, glob_to_regexp, has_dot_dot_segment,
  has_glob_char, literal_base_dir, literal_segments, match_items, parse_items, quote_meta,
  replace_pair,
}

abbrev home : Text
home = codes "/h"

abbrev skill_path : Text
skill_path = codes "/h/skills/a.md"

abbrev one_skill : Tree
one_skill = record {
  stat = λ path. if text_eq path skill_path then some false else none;
  lstat = λ path. ok false;
  eval_symlinks = λ path. ok path;
  read_file = λ path. ok (codes "run");
  walk = λ root. (skill_path, plain_file) ∷ [];
  sha256_hex = λ content. codes "0f";
}

abbrev glob_and_file : List Text
glob_and_file = codes "~/skills/*.md" ∷ codes "~/skills/a.md" ∷ []

abbrev the_skill : PublicEntry
the_skill = record { path = codes "skills/a.md"; size = 3; sha256 = codes "0f" }

abbrev collected : Collecting
collected = record {
  seen = codes "skills/a.md" ∷ [];
  entries = the_skill ∷ [];
  total_bytes = 3;
  warnings = [];
}

collects : collect_public one_skill home glob_and_file ≡ ok collected
unfolding collect_public collect_patterns collect_pattern collect_walk collect_visit collect_file
    collect_exact collect_once collect_one text_member sort_entries insert_entry relative
    named_segments strip_common clean clean_segments push_segment pop_segment split join join_paths
    text_discrete compile_public_patterns compile_entry compile_rel has_dot_dot_segment
    has_glob_char literal_base_dir literal_segments glob_to_regexp quote_meta replace_pair
    parse_items trim_space trim_left_func match_items
collects = refl

is_plain : AllPlain home (compile_public_patterns glob_and_file).0
unfolding relative named_segments strip_common clean clean_segments push_segment pop_segment split
    join join_paths text_discrete compile_public_patterns compile_entry compile_rel
    has_dot_dot_segment has_glob_char literal_base_dir literal_segments glob_to_regexp quote_meta
    replace_pair parse_items trim_space trim_left_func
is_plain = (λ e. cc, (λ e. refl, tt))

-- Written with a second slash, the same file is collected again.
collected_twice :
    elim (collect_public one_skill home (codes "~/skills/*" ∷ codes "~/skills//a.md" ∷ [])) [
      | ok s ↦ s.entries
      | err e ↦ []
    ]
    ≡ the_skill ∷ the_skill ∷ []
unfolding collect_public collect_patterns collect_pattern collect_walk collect_visit collect_file
    collect_exact collect_once collect_one text_member sort_entries insert_entry relative
    named_segments strip_common clean clean_segments push_segment pop_segment split join join_paths
    text_discrete compile_public_patterns compile_entry compile_rel has_dot_dot_segment
    has_glob_char literal_base_dir literal_segments glob_to_regexp quote_meta replace_pair
    parse_items trim_space trim_left_func match_items text_le
collected_twice = refl

collect_public_once_example : count (codes "skills/a.md") (paths collected.entries) ≤ 1
collect_public_once_example =
    collect_public_once one_skill home glob_and_file collected (codes "skills/a.md") is_plain
      collects
