-- ===== src/Workspace/Layout.antt =====
-- Where a runtime's directories lie, for a root that is a rooted path in its shortest form.
use vmdockerv.Base.{
  List, Text, [], ap, append_assoc, ap₂, arith, codes, false, has_prefix, has_prefix-append_left,
  inl, inr, ok, refl, subst, sym, text_discrete, text_eq, true, ℕ, ◌++◌, ◌∙◌, ◌∷◌, ◌≡◌, ◌≢◌, ◌⊎◌,
}
use vmdockerv.Disk.Flat.{workspace}
use vmdockerv.Env.{
  runtime_tmp_dir, runtime_tmp_dir_suffix, runtime_workspace_dir, runtime_workspace_root_from_path,
}
use vmdockerv.Host.{Host}
use vmdockerv.Paths.{base, dir, join_paths, slash}
use vmdockerv.Paths.Laws.{AreSegments, is_segment, rooted}
use vmdockerv.Paths.Parents.{base-rooted, dir-rooted, lacks-append, rooted_snoc, stem}
use vmdockerv.Paths.Rooted.{AreSegments-append, join_paths-rooted}
use vmdockerv.Workspace.{resolve_runtime_workspace}

-- The workspace of a runtime under a root, in its shortest form.
abbrev pub workspace_of : List Text → Text → Text
workspace_of root pid = rooted (root ++ codes "sandbox_workspace" ∷ pid ∷ [])

dir_name-segment : is_segment runtime_workspace_dir ≡ true
unfolding text_discrete
dir_name-segment = refl

workspace_of_segments :
    (root : List Text) (pid : Text)
    → workspace_of root pid ≡ rooted ((root ++ runtime_workspace_dir ∷ []) ++ pid ∷ [])
workspace_of_segments root pid =
    ap rooted (sym (append_assoc root (runtime_workspace_dir ∷ []) (pid ∷ [])))

-- The root that a launch configuration gives, if any, or the working directory.
abbrev pub IsRoot : (host : Host) → Text → List Text → host.World → host.World → Type 0
IsRoot host text root w u =
    ((text ≡ []) × (host.getwd w ≡ (ok (rooted root), u)))
    ⊎ ((text ≢ []) × (host.abs text w ≡ (ok (rooted root), u)))

text_eq_nil : (t : Text) → t ≢ [] → text_eq t [] ≡ false
text_eq_nil t h = ground arith

resolve_runtime_workspace-rooted :
    (host : Host) (root : List Text) (pid text : Text) (w u : host.World)
    → AreSegments root
    → is_segment pid ≡ true
    → IsRoot host text root w u
    → resolve_runtime_workspace host pid text w ≡ (ok (workspace_of root pid), u)
unfolding resolve_runtime_workspace
resolve_runtime_workspace-rooted host root pid text w u h k (inl (e, a)) =
    let joined =
      join_paths-rooted root (runtime_workspace_dir ∷ pid ∷ []) h (dir_name-segment, (k, tt)) in
    ground (arith, e, a, joined)
resolve_runtime_workspace-rooted host root pid text w u h k (inr (e, a)) =
    let joined =
      join_paths-rooted root (runtime_workspace_dir ∷ pid ∷ []) h (dir_name-segment, (k, tt)) in
    ground (arith, text_eq_nil text e, a, joined)

parent_segments :
    (root : List Text) → AreSegments root → AreSegments (root ++ runtime_workspace_dir ∷ [])
parent_segments root h =
    AreSegments-append root (runtime_workspace_dir ∷ []) h (dir_name-segment, tt)

root_of_workspace :
    (root : List Text) (pid : Text)
    → AreSegments root
    → is_segment pid ≡ true
    → runtime_workspace_root_from_path (workspace_of root pid) ≡ rooted root
unfolding runtime_workspace_root_from_path
root_of_workspace root pid h k =
    ap (λ p. dir (dir p)) (workspace_of_segments root pid)
    ∙ ap dir (dir-rooted (root ++ runtime_workspace_dir ∷ []) pid (parent_segments root h) k)
    ∙ dir-rooted root runtime_workspace_dir h dir_name-segment

rooted-non_empty : (root : List Text) → rooted root ≢ []
rooted-non_empty root e = ground (arith, e)

-- The workspace of a runtime is its pid under "sandbox_workspace" under the root, the root that is read
-- back from the workspace is that root, and a second launch from it uses the same workspace. The root is
-- the working directory when the launch gives none, and the absolute path of the given one otherwise; it
-- is a rooted path in its shortest form, which is its own absolute path, and the pid is one segment of a
-- path.
pub runtime_workspace_root_from_path-workspace :
    (host : Host) (root : List Text) (pid text : Text) (w u u' : host.World)
    → AreSegments root
    → is_segment pid ≡ true
    → IsRoot host text root w u
    → host.abs (rooted root) u ≡ (ok (rooted root), u')
    → (resolve_runtime_workspace host pid text w
        ≡ (ok (rooted (root ++ codes "sandbox_workspace" ∷ pid ∷ [])), u))
      × (runtime_workspace_root_from_path (rooted (root ++ codes "sandbox_workspace" ∷ pid ∷ []))
          ≡ rooted root)
      × (resolve_runtime_workspace host pid
            (runtime_workspace_root_from_path
              (rooted (root ++ codes "sandbox_workspace" ∷ pid ∷ [])))
            u
          ≡ (ok (rooted (root ++ codes "sandbox_workspace" ∷ pid ∷ [])), u'))
runtime_workspace_root_from_path-workspace host root pid text w u u' h k is_root again = (
  resolve_runtime_workspace-rooted host root pid text w u h k is_root,
  root_of_workspace root pid h k,
  ap (λ t. resolve_runtime_workspace host pid t u) (root_of_workspace root pid h k)
      ∙ resolve_runtime_workspace-rooted host root pid (rooted root) u u' h k
          (inr (rooted-non_empty root, again)),
)

suffix-segment :
    (pid : Text) → is_segment pid ≡ true → is_segment (pid ++ runtime_tmp_dir_suffix) ≡ true
suffix-segment [] k = ground arith
suffix-segment (a ∷ []) k = ground (arith, lacks-append slash (a ∷ []) runtime_tmp_dir_suffix)
suffix-segment (a ∷ b ∷ []) k =
    ground (arith, lacks-append slash (a ∷ b ∷ []) runtime_tmp_dir_suffix)
suffix-segment (a ∷ b ∷ c ∷ pid) k =
    ground (arith, lacks-append slash (a ∷ b ∷ c ∷ pid) runtime_tmp_dir_suffix)

runtime_tmp_dir-workspace :
    (root : List Text) (pid : Text)
    → AreSegments root
    → is_segment pid ≡ true
    → runtime_tmp_dir (workspace_of root pid)
      ≡ rooted ((root ++ runtime_workspace_dir ∷ []) ++ (pid ++ runtime_tmp_dir_suffix) ∷ [])
unfolding runtime_tmp_dir
runtime_tmp_dir-workspace root pid h k =
    ap (λ p. join_paths (dir p ∷ (base p ++ runtime_tmp_dir_suffix) ∷ []))
      (workspace_of_segments root pid)
    ∙ ap₂ (λ d b. join_paths (d ∷ (b ++ runtime_tmp_dir_suffix) ∷ []))
        (dir-rooted (root ++ runtime_workspace_dir ∷ []) pid (parent_segments root h) k)
        (base-rooted (root ++ runtime_workspace_dir ∷ []) pid k)
    ∙ join_paths-rooted (root ++ runtime_workspace_dir ∷ []) ((pid ++ runtime_tmp_dir_suffix) ∷ [])
        (parent_segments root h) (suffix-segment pid k, tt)

tmp_outside :
    (root : List Text) (pid : Text)
    → AreSegments root
    → is_segment pid ≡ true
    → has_prefix (runtime_tmp_dir (workspace_of root pid)) (workspace_of root pid ++ codes "/")
      ≡ false
tmp_outside root pid h k =
    ap₂ has_prefix
      (runtime_tmp_dir-workspace root pid h k
        ∙ rooted_snoc parent (pid ++ runtime_tmp_dir_suffix)
        ∙ sym (append_assoc (stem parent) (slash ∷ pid) runtime_tmp_dir_suffix))
      (ap (λ p. p ++ codes "/") (workspace_of_segments root pid ∙ rooted_snoc parent pid))
    ∙ has_prefix-append_left (stem parent ++ slash ∷ pid) runtime_tmp_dir_suffix (codes "/")
  where
    parent : List Text
    parent = root ++ runtime_workspace_dir ∷ []

append-longer : (t : Text) (c : ℕ) (s : Text) → t ++ c ∷ s ≢ t
append-longer [] c s e = ground (arith, e)
append-longer (d ∷ t) c s e = append-longer t c s (ground (arith, e))

tmp_apart :
    (root : List Text) (pid : Text)
    → AreSegments root
    → is_segment pid ≡ true
    → runtime_tmp_dir (workspace_of root pid) ≢ workspace_of root pid
tmp_apart root pid h k e = append-longer (stem parent ++ slash ∷ pid) b'-' (codes "tmp") (
    append_assoc (stem parent) (slash ∷ pid) runtime_tmp_dir_suffix
    ∙ sym (rooted_snoc parent (pid ++ runtime_tmp_dir_suffix))
    ∙ sym (runtime_tmp_dir-workspace root pid h k)
    ∙ e
    ∙ workspace_of_segments root pid
    ∙ rooted_snoc parent pid)
  where
    parent : List Text
    parent = root ++ runtime_workspace_dir ∷ []

-- The directory behind the container's /tmp lies beside the workspace, under the pid with "-tmp": it is
-- neither the workspace, which a checkpoint archives, nor inside it. The root is the working directory
-- when the launch gives none, and the absolute path of the given one otherwise; it is a rooted path in
-- its shortest form, and the pid is one segment of a path.
pub runtime_tmp_dir_outside :
    (host : Host) (root : List Text) (pid text : Text) (w u : host.World) (workspace : Text)
    → AreSegments root
    → is_segment pid ≡ true
    → IsRoot host text root w u
    → (resolve_runtime_workspace host pid text w).0 ≡ ok workspace
    → (workspace ≡ rooted (root ++ codes "sandbox_workspace" ∷ pid ∷ []))
      × (runtime_tmp_dir workspace
          ≡ rooted (root ++ codes "sandbox_workspace" ∷ (pid ++ codes "-tmp") ∷ []))
      × (runtime_tmp_dir workspace ≢ workspace)
      × (has_prefix (runtime_tmp_dir workspace) (workspace ++ codes "/") ≡ false)
runtime_tmp_dir_outside host root pid text w u workspace h k is_root r =
    let found : workspace_of root pid ≡ workspace =
      ground (arith, r, resolve_runtime_workspace-rooted host root pid text w u h k is_root) in
    (
      sym found,
      ap runtime_tmp_dir (sym found)
          ∙ runtime_tmp_dir-workspace root pid h k
          ∙ ap rooted (
              append_assoc root (runtime_workspace_dir ∷ [])
                ((pid ++ runtime_tmp_dir_suffix) ∷ [])),
      subst (λ p. runtime_tmp_dir p ≢ p) found (tmp_apart root pid h k),
      subst (λ p. has_prefix (runtime_tmp_dir p) (p ++ codes "/") ≡ false) found
          (tmp_outside root pid h k),
    )
