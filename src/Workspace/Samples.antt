-- ===== src/Workspace/Samples.antt =====
-- The workspace of the runtime p1 under /srv.
use vmdockerv.Base.{
  List, Text, [], arith, codes, false, has_prefix, inr, join, ok, refl, split, text_discrete, true,
  ◌++◌, ◌∷◌, ◌≡◌, ◌≢◌,
}
use vmdockerv.Env.{runtime_tmp_dir, runtime_workspace_root_from_path}
use vmdockerv.Host.Quiet.{quiet_host}
use vmdockerv.Paths.{clean, clean_segments, join_paths, push_segment}
use vmdockerv.Paths.Laws.{is_segment, rooted}
use vmdockerv.Workspace.{resolve_runtime_workspace}
use vmdockerv.Workspace.Layout.{
  IsRoot, runtime_tmp_dir_outside, runtime_workspace_root_from_path-workspace,
}

abbrev srv : List Text
srv = codes "srv" ∷ []

is_text_segment : is_segment (codes "srv") ≡ true
unfolding text_discrete
is_text_segment = refl

is_pid_segment : is_segment (codes "p1") ≡ true
unfolding text_discrete
is_pid_segment = refl

srv-IsRoot : IsRoot quiet_host (codes "/srv") srv tt tt
unfolding join
srv-IsRoot = inr (λ e. absurd (ground (arith, e)), refl)

resolved :
    (resolve_runtime_workspace quiet_host (codes "p1") (codes "/srv") tt).0
    ≡ ok (codes "/srv/sandbox_workspace/p1")
unfolding resolve_runtime_workspace text_discrete join_paths clean clean_segments push_segment split
    join
resolved = refl

runtime_workspace_root_from_path-workspace_example :
    (resolve_runtime_workspace quiet_host (codes "p1") (codes "/srv") tt
      ≡ (ok (codes "/srv/sandbox_workspace/p1"), tt))
    × (runtime_workspace_root_from_path (codes "/srv/sandbox_workspace/p1") ≡ codes "/srv")
    × (resolve_runtime_workspace quiet_host
          (codes "p1")
          (runtime_workspace_root_from_path (codes "/srv/sandbox_workspace/p1"))
          tt
        ≡ (ok (codes "/srv/sandbox_workspace/p1"), tt))
unfolding join
runtime_workspace_root_from_path-workspace_example =
    runtime_workspace_root_from_path-workspace quiet_host srv (codes "p1") (codes "/srv") tt tt tt
      (is_text_segment, tt) is_pid_segment srv-IsRoot refl

runtime_tmp_dir_outside_example :
    (codes "/srv/sandbox_workspace/p1"
      ≡ rooted (srv ++ codes "sandbox_workspace" ∷ codes "p1" ∷ []))
    × (runtime_tmp_dir (codes "/srv/sandbox_workspace/p1")
        ≡ rooted (srv ++ codes "sandbox_workspace" ∷ codes "p1-tmp" ∷ []))
    × (runtime_tmp_dir (codes "/srv/sandbox_workspace/p1") ≢ codes "/srv/sandbox_workspace/p1")
    × (has_prefix
          (runtime_tmp_dir (codes "/srv/sandbox_workspace/p1"))
          (codes "/srv/sandbox_workspace/p1/")
        ≡ false)
runtime_tmp_dir_outside_example =
    runtime_tmp_dir_outside quiet_host srv (codes "p1") (codes "/srv") tt tt
      (codes "/srv/sandbox_workspace/p1") (is_text_segment, tt) is_pid_segment srv-IsRoot resolved
