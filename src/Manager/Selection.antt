-- ===== src/Manager/Selection.antt =====
-- One manager for each backend.
use vmdockerv.Base.{
  Result, Text, [], arith, backend_not_on_linux, codes, err, errorf, if◌then◌else◌, not_supported,
  refl, some, subst, sym, text_discrete, text_eq, ◌||◌, ◌≡◌,
}
use vmdockerv.Manager.{
  Registry, RuntimeManager, get_runtime_manager, normalize_runtime_backend, once,
}
use vmdockerv.Schema.{runtime_backend_docker, runtime_backend_sandbox}

module _ {World : Type 0} (docker sandbox : Result (RuntimeManager World)) where
  -- A backend that was asked for once gives the same manager, or the same error, ever after, and
  -- nothing is made again.
  pub get_runtime_manager_once :
      (goos backend : Text) (r : Registry World)
      → get_runtime_manager docker sandbox goos backend
          (get_runtime_manager docker sandbox goos backend r).1
        ≡ get_runtime_manager docker sandbox goos backend r
  unfolding get_runtime_manager
  get_runtime_manager_once goos backend r = ground arith

  -- What Linux gives for a backend.
  abbrev pub on_linux : Text → Registry World → Result (RuntimeManager World) × Registry World
  on_linux backend r =
      if text_eq backend [] || text_eq backend runtime_backend_docker
      then (once r.docker docker, record r { docker = some (once r.docker docker) })
      else (
        err (
            errorf (
              if text_eq backend runtime_backend_sandbox
              then backend_not_on_linux
              else not_supported)),
        r,
      )

  abbrev IsLinux : Registry World → Text → Type 0
  IsLinux r backend =
      get_runtime_manager docker sandbox (codes "linux") backend r ≡ on_linux backend r

  IsLinux-known :
      (r : Registry World)
      → IsLinux r [] × IsLinux r runtime_backend_docker × IsLinux r runtime_backend_sandbox
  unfolding get_runtime_manager normalize_runtime_backend text_discrete
  IsLinux-known r = (refl, refl, refl)

  IsLinux-unknown :
      (r : Registry World) (backend : Text)
      → ¬ (backend ≡ [])
      → ¬ (backend ≡ runtime_backend_docker)
      → ¬ (backend ≡ runtime_backend_sandbox)
      → IsLinux r backend
  unfolding get_runtime_manager normalize_runtime_backend
  IsLinux-unknown r backend a b c = ground arith

  -- On Linux an empty backend and "docker" give the Docker manager; every other backend is refused and
  -- leaves the registry as it is.
  pub get_runtime_manager_linux :
      (backend : Text) (r : Registry World)
      → get_runtime_manager docker sandbox (codes "linux") backend r ≡ on_linux backend r
  get_runtime_manager_linux backend r = elim (text_discrete backend []) [
    | yes p ↦ subst (λ b. IsLinux r b) (sym p) (IsLinux-known r).0
    | no a ↦ elim (text_discrete backend runtime_backend_docker) [
      | yes p ↦ subst (λ b. IsLinux r b) (sym p) (IsLinux-known r).1
      | no b ↦ elim (text_discrete backend runtime_backend_sandbox) [
        | yes p ↦ subst (λ b. IsLinux r b) (sym p) (IsLinux-known r).2
        | no c ↦ IsLinux-unknown r backend a b c
      ]
    ]
  ]
