-- ===== src/ModuleImages/Accepted.antt =====
-- What an image whose making available succeeds has.
use vmdockerv.Base.{
  Bool, Bool-cases, Done, Error, Op, Option-cases, Result, Result-cases, Text, ap, arith, codes,
  err, false, inl, inr, is_empty, ok, some, subst, sym, text_eq, true, ◌&&◌, ◌||◌, ◌∙◌, ◌≡◌, ◌⊎◌,
}
use vmdockerv.Host.{Host}
use vmdockerv.ModuleImages.{
  docker_binary, ensure_image_tagged_by_id, ensure_module_image_available, find_or_load,
  image_matches_ref, inspect_args, is_true, load_and_tag,
}
use vmdockerv.ModuleImages.Tagged.{ensure_image_tagged_by_id-ok, matched_already}
use vmdockerv.Schema.{
  ImageInfo, image_archive_container_tar_gz, image_archive_docker_save_gz, image_source_module_data,
}

module _ (host : Host) (load_archive : Text → Text → Text → Op (host.World) Done)
    (reads_only : (cli_bin ref : Text) (w : host.World)
      → (host.run_command cli_bin (inspect_args ref) w).1 ≡ w)
    (module_id : Text) (image : ImageInfo) where
  open host use {World}

  abbrev pub IsMatched : Text → World → Type 0
  IsMatched cli_bin w =
      (image_matches_ref host load_archive cli_bin image.name image.sha w).0 ≡ ok true

  abbrev pub has_known_format : Bool
  has_known_format =
      text_eq image.archive_format image_archive_docker_save_gz
      || text_eq image.archive_format image_archive_container_tar_gz

  load_and_tag-ok :
      (cli_bin : Text) (d : Done) (w : World)
      → (load_and_tag host load_archive module_id image cli_bin w).0 ≡ ok d
      → IsMatched cli_bin (load_and_tag host load_archive module_id image cli_bin w).1
  load_and_tag-ok cli_bin d w h = elim (Result-cases loaded.0) [
    | inr (f, e) ↦ absurd (unfold load_and_tag in ground (arith, e))
    | inl (x, e) ↦ elim (Result-cases tagged.0) [
      | inr (f, q) ↦ absurd (unfold load_and_tag in ground (arith, e, q))
      | inl (y, q) ↦ subst (IsMatched cli_bin) (sym (last x y e q)) (
          ensure_image_tagged_by_id-ok host load_archive reads_only cli_bin image.sha image.name y
            loaded.1 q)
    ]
  ]
    where
      loaded : Result Done × World
      loaded = load_archive cli_bin module_id image.archive_format w

      tagged : Result Done × World
      tagged = ensure_image_tagged_by_id host load_archive cli_bin image.sha image.name loaded.1

      last :
          (x y : Done)
          → loaded.0 ≡ ok x
          → tagged.0 ≡ ok y
          → (load_and_tag host load_archive module_id image cli_bin w).1 ≡ tagged.1
      last x y e q = unfold load_and_tag in ground (arith, e, q)

  find_or_load-ok :
      (cli_bin : Text) (d : Done) (w : World)
      → (find_or_load host load_archive module_id image cli_bin w).0 ≡ ok d
      → IsMatched cli_bin (find_or_load host load_archive module_id image cli_bin w).1
  find_or_load-ok cli_bin d w h = elim (Bool-cases (is_true matched.0)) [
    | inl m ↦
        subst (λ r. IsMatched cli_bin r.1) (sym (found m))
          (matched_already host load_archive reads_only cli_bin image.sha image.name w m)
    | inr m ↦ elim (Result-cases tagged.0) [
      | inl (x, e) ↦
          subst (λ r. IsMatched cli_bin r.1) (sym (tagged_now m x e))
            (ensure_image_tagged_by_id-ok host load_archive reads_only cli_bin image.sha image.name
              x matched.1 e)
      | inr (f, e) ↦
          subst (λ r. IsMatched cli_bin r.1) (sym (loads m f e))
            (load_and_tag-ok cli_bin d tagged.1 (sym (ap (λ r. r.0) (loads m f e)) ∙ h))
    ]
  ]
    where
      matched : Result Bool × World
      matched = image_matches_ref host load_archive cli_bin image.name image.sha w

      tagged : Result Done × World
      tagged = ensure_image_tagged_by_id host load_archive cli_bin image.sha image.name matched.1

      found :
          is_true matched.0 ≡ true
          → find_or_load host load_archive module_id image cli_bin w ≡ (ok tt, matched.1)
      found m = unfold find_or_load in ground (arith, m)

      tagged_now :
          is_true matched.0 ≡ false
          → (x : Done) → tagged.0 ≡ ok x
          → find_or_load host load_archive module_id image cli_bin w ≡ (ok tt, tagged.1)
      tagged_now m x e = unfold find_or_load in ground (arith, m, e)

      loads :
          is_true matched.0 ≡ false
          → (f : Error) → tagged.0 ≡ err f
          → find_or_load host load_archive module_id image cli_bin w
            ≡ load_and_tag host load_archive module_id image cli_bin tagged.1
      loads m f e = unfold find_or_load in ground (arith, m, e)

  pub accepted :
      (d : Done) (w : World)
      → (ensure_module_image_available host load_archive module_id image w).0 ≡ ok d
      → ((is_empty image.source && is_empty image.archive_format) ≡ true)
        ⊎ ((text_eq image.source image_source_module_data ≡ true)
            × (has_known_format ≡ true)
            × ((cli_bin : Text) × (host.look_path w (codes "docker") ≡ some cli_bin)
                × IsMatched cli_bin
                    (ensure_module_image_available host load_archive module_id image w).1))
  accepted d w h = elim (Bool-cases (is_empty image.source && is_empty image.archive_format)) [
    | inl b ↦ inl b
    | inr b ↦ elim (Bool-cases (text_eq image.source image_source_module_data)) [
      | inr s ↦ absurd (unfold ensure_module_image_available in ground (arith, b, s))
      | inl s ↦ elim (Bool-cases has_known_format) [
        | inr f ↦ absurd (unfold ensure_module_image_available in ground (arith, b, s, f))
        | inl f ↦ elim (Option-cases (host.look_path w (codes "docker"))) [
          | inl n ↦
              absurd
                (unfold ensure_module_image_available docker_binary in ground (arith, b, s, f, n))
          | inr (cli_bin, n) ↦ inr (
            s,
            f,
            (
              cli_bin,
              n,
              subst (λ r. IsMatched cli_bin r.1) (sym (goes_on cli_bin b s f n))
                  (find_or_load-ok cli_bin d w (sym (ap (λ r. r.0) (goes_on cli_bin b s f n)) ∙ h)),
            ),
          )
        ]
      ]
    ]
  ]
    where
      goes_on :
          (cli_bin : Text)
          → (is_empty image.source && is_empty image.archive_format) ≡ false
          → text_eq image.source image_source_module_data ≡ true
          → has_known_format ≡ true
          → host.look_path w (codes "docker") ≡ some cli_bin
          → ensure_module_image_available host load_archive module_id image w
            ≡ find_or_load host load_archive module_id image cli_bin w
      goes_on cli_bin b s f n =
          unfold ensure_module_image_available docker_binary in ground (arith, b, s, f, n)
