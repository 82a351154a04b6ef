-- ===== src/Paths/Samples.antt =====
-- The path functions on the examples of Go's documentation.
use vmdockerv.Base.{[], codes, join, none, refl, some, trim_left_func, ◌∷◌, ◌≡◌}
use vmdockerv.Paths.{base, clean, clean_segments, dir, join_paths, pop_segment, push_segment}
use vmdockerv.Paths.Relative.{relative}

cleans : clean (codes "/a/../b//./c/..") ≡ codes "/b"
unfolding clean
cleans = refl

keeps_leading_dots : clean (codes "../a/../../b") ≡ codes "../../b"
unfolding clean
keeps_leading_dots = refl

empty_is_dot : clean [] ≡ codes "."
unfolding clean
empty_is_dot = refl

joins : join_paths ([] ∷ codes "a" ∷ codes "../b" ∷ []) ≡ codes "b"
unfolding join_paths
joins = refl

parent : dir (codes "/srv/sandbox_workspace/p1") ≡ codes "/srv/sandbox_workspace"
unfolding dir
parent = refl

last_segment : base (codes "/srv/p1/") ≡ codes "p1"
unfolding base trim_left_func
last_segment = refl

relatives :
    (relative (codes "/a/b") (codes "/a/b/./c/d") ≡ some (codes "c/d"))
    × (relative (codes "/a/b") (codes "/a/c") ≡ some (codes "../c"))
    × (relative (codes "/a") (codes "/a/") ≡ some (codes "."))
    × (relative (codes "../a") (codes "b") ≡ none)
unfolding relative join pop_segment push_segment clean_segments
relatives = (refl, refl, refl, refl)
