-- ===== src/Paths/Rooted.antt =====
-- The path functions on rooted paths.
use vmdockerv.Base.{
  List, Text, [], ap, append-nil, codes, join, refl, reverse, reverse-append, reverse-reverse,
  split, sym, text_discrete, true, ℕ, ◌++◌, ◌∙◌, ◌∷◌, ◌≡◌,
}
use vmdockerv.Paths.{clean, clean_segments, dot, join_paths, push_segment, slash}
use vmdockerv.Paths.Laws.{
  AreSegments, clean_joined, clean_segments-append, push_segment-nil, rooted, split-append_sep,
}

pub AreSegments-append :
    (xs ys : List Text) → AreSegments xs → AreSegments ys → AreSegments (xs ++ ys)
AreSegments-append [] ys h k = k
AreSegments-append (x ∷ xs) ys h k = (h.0, AreSegments-append xs ys h.1 k)

abbrev stack_of : List Text → Text → List Text
stack_of stack p = clean_segments true stack (split slash p)

stack_of-append :
    (stack : List Text) (p q : Text)
    → stack_of stack (p ++ slash ∷ q) ≡ stack_of (stack_of stack p) q
stack_of-append stack p q =
    rw (split-append_sep slash p q)
      (clean_segments-append true stack (split slash p) (split slash q))

stack_of-slash : (stack : List Text) (p : Text) → stack_of stack (slash ∷ p) ≡ stack_of stack p
stack_of-slash stack p =
    unfold split clean_segments in
    ap (λ st. clean_segments true st (split slash p)) (push_segment-nil true stack)

clean_abs : (p : Text) → clean (slash ∷ p) ≡ rooted (reverse (stack_of [] p))
unfolding clean
clean_abs p = ap (λ st. rooted (reverse st)) (stack_of-slash [] p)

-- Joining segments to a rooted path appends them.
pub clean-rooted_append :
    (segs more : List Text)
    → AreSegments segs
    → AreSegments more
    → clean (rooted segs ++ slash ∷ join more (codes "/")) ≡ rooted (segs ++ more)
clean-rooted_append segs more h k =
    clean_abs (join segs (codes "/") ++ slash ∷ join more (codes "/"))
    ∙ ap (λ st. rooted (reverse st))
        (stack_of-append [] (join segs (codes "/")) (join more (codes "/")) ∙ joined_twice)
    ∙ ap rooted (ap reverse (sym (reverse-append segs more)) ∙ reverse-reverse (segs ++ more))
  where
    joined_twice :
        stack_of (stack_of [] (join segs (codes "/"))) (join more (codes "/"))
        ≡ reverse more ++ reverse segs
    joined_twice =
        rw (clean_joined true [] segs h, append-nil) (clean_joined true (reverse segs) more k)

stack_of-dot : (stack : List Text) → stack_of stack dot ≡ stack
unfolding split clean_segments push_segment text_discrete
stack_of-dot stack = refl

pub clean-rooted-dot :
    (segs : List Text) → AreSegments segs → clean (rooted segs ++ slash ∷ dot) ≡ rooted segs
clean-rooted-dot segs h =
    clean_abs (join segs (codes "/") ++ slash ∷ dot)
    ∙ ap (λ st. rooted (reverse st))
        (stack_of-append [] (join segs (codes "/")) dot
          ∙ stack_of-dot (stack_of [] (join segs (codes "/")))
          ∙ clean_joined true [] segs h
          ∙ append-nil (reverse segs))
    ∙ ap rooted (reverse-reverse segs)

pub clean-rooted : (segs : List Text) → AreSegments segs → clean (rooted segs) ≡ rooted segs
clean-rooted segs h =
    clean_abs (join segs (codes "/"))
    ∙ ap rooted (
        ap reverse (clean_joined true [] segs h ∙ append-nil (reverse segs)) ∙ reverse-reverse segs)

pub join_paths_lem :
    (c : ℕ) (p : Text) (ps : List Text)
    → join_paths ((c ∷ p) ∷ ps) ≡ clean (join ((c ∷ p) ∷ ps) (codes "/"))
unfolding join_paths
join_paths_lem c p ps = refl

pub join_paths-rooted :
    (segs more : List Text)
    → AreSegments segs
    → AreSegments more
    → join_paths (rooted segs ∷ more) ≡ rooted (segs ++ more)
unfolding join
join_paths-rooted segs [] h k =
    join_paths_lem slash _ [] ∙ clean-rooted segs h ∙ ap rooted (sym (append-nil segs))
join_paths-rooted segs (m ∷ more) h k =
    join_paths_lem slash _ (m ∷ more) ∙ clean-rooted_append segs (m ∷ more) h k
