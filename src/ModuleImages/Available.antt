-- ===== src/ModuleImages/Available.antt =====
-- Every way in which a module's image becomes available leaves it under its name.
use vmdockerv.Base.{
  Bool-cases, Done, Error, Op, Option, Option-cases, Result-cases, Text, [], arith, codes, err,
  false, inl, inr, is_empty, none, ok, refl, some, text_eq, text_eq_iff, trim_space, true, ◌&&◌,
  ◌∷◌, ◌≡◌, ◌≢◌, ◌⊎◌,
}
use vmdockerv.Host.{Host}
use vmdockerv.ModuleImages.{
  ensure_module_image_available, image_matches_ref, inspect_args, inspect_local_image_id,
}
use vmdockerv.ModuleImages.Accepted.{IsMatched, accepted, has_known_format}
use vmdockerv.Schema.{
  ImageInfo, image_archive_container_tar_gz, image_archive_docker_save_gz, image_source_module_data,
}

module _ (host : Host) (load_archive : Text → Text → Text → Op (host.World) Done)
    (reads_only : (cli_bin ref : Text) (w : host.World)
      → (host.run_command cli_bin
          (codes "image" ∷ codes "inspect" ∷ codes "--format" ∷ codes "{{.Id}}" ∷ ref ∷ [])
          w).1
        ≡ w)
    (module_id : Text) (image : ImageInfo) where
  open host use {World, look_path, run_command}

  -- An inspection of the image's name prints the expected ID, up to spaces around it.
  abbrev pub IsAvailable : Text → World → Type 0
  IsAvailable cli_bin w =
      (output : Text) × ((run_command cli_bin
          (codes "image" ∷ codes "inspect" ∷ codes "--format" ∷ codes "{{.Id}}" ∷ image.name ∷ [])
          w).0
        ≡ (output, none))
      × (trim_space output ≡ image.sha)

  inspects : (cli_bin ref : Text) (w : World) → (run_command cli_bin (inspect_args ref) w).1 ≡ w
  unfolding inspect_args
  inspects cli_bin ref w = reads_only cli_bin ref w

  printed :
      (cli_bin : Text) (w : World)
      → (run_command cli_bin (inspect_args image.name) w).0.1 ≡ none
      → (run_command cli_bin
          (codes "image" ∷ codes "inspect" ∷ codes "--format" ∷ codes "{{.Id}}" ∷ image.name ∷ [])
          w).0
        ≡ ((run_command cli_bin (inspect_args image.name) w).0.0, none)
  unfolding inspect_args
  printed cli_bin w quiet = ground (arith, quiet)

  IsMatched-IsAvailable :
      (cli_bin : Text) (w : World)
      → IsMatched host load_archive inspects module_id image cli_bin w
      → IsAvailable cli_bin w
  IsMatched-IsAvailable cli_bin w m =
      let inspection : (Text × Option Text) × World =
        run_command cli_bin (inspect_args image.name) w in
      elim (Option-cases inspection.0.1) [
        | inl quiet ↦ (
          inspection.0.0,
          printed cli_bin w quiet,
          (text_eq_iff (trim_space inspection.0.0) image.sha).0
              (unfold image_matches_ref inspect_local_image_id in ground (arith, quiet)),
        )
        | inr (e, loud) ↦
            absurd (unfold image_matches_ref inspect_local_image_id in ground (arith, loud))
      ]

  format_names :
      has_known_format host load_archive inspects module_id image ≡ true
      → (image.archive_format ≡ image_archive_docker_save_gz)
        ⊎ (image.archive_format ≡ image_archive_container_tar_gz)
  format_names f = elim (Bool-cases (text_eq image.archive_format image_archive_docker_save_gz)) [
    | inl a ↦ inl ((text_eq_iff image.archive_format image_archive_docker_save_gz).0 a)
    | inr a ↦
        inr
          ((text_eq_iff image.archive_format image_archive_container_tar_gz).0 (ground (arith, a)))
  ]

  is_empty-nil : (t : Text) → is_empty t ≡ true → t ≡ []
  is_empty-nil [] h = refl
  is_empty-nil (c ∷ t) h = cc

  not_both :
      (is_empty image.source && is_empty image.archive_format) ≡ false
      → (image.source ≢ []) ⊎ (image.archive_format ≢ [])
  not_both b = elim (Bool-cases (is_empty image.source)) [
    | inl e ↦ inr (λ f. absurd (ground (arith, e, f)))
    | inr e ↦ inl (λ f. absurd (ground (arith, e, f)))
  ]

  succeeds_at_once :
      (w : World)
      → (is_empty image.source && is_empty image.archive_format) ≡ true
      → (image.source ≡ [])
        × (image.archive_format ≡ [])
        × (ensure_module_image_available host load_archive module_id image w ≡ (ok tt, w))
  unfolding ensure_module_image_available
  succeeds_at_once w b = (
    is_empty-nil image.source (ground (arith, b)),
    is_empty-nil image.archive_format (ground (arith, b)),
    ground (arith, b),
  )

  -- Making a module's image available succeeds at once for an image without a source and a format. For
  -- any other image it fails, or the source is the module's own data, the format is one of the two known
  -- ones, and the docker client's inspection of the image's name then prints the expected ID, up to
  -- spaces around it. An inspection changes nothing.
  pub ensure_module_image_available-cases :
      (w : World)
      → ((image.source ≡ [])
          × (image.archive_format ≡ [])
          × (ensure_module_image_available host load_archive module_id image w ≡ (ok tt, w)))
        ⊎ (((image.source ≢ []) ⊎ (image.archive_format ≢ []))
            × (((e : Error) × ((ensure_module_image_available host load_archive module_id image w).0
                    ≡ err e))
                ⊎ ((image.source ≡ image_source_module_data)
                    × ((image.archive_format ≡ image_archive_docker_save_gz)
                        ⊎ (image.archive_format ≡ image_archive_container_tar_gz))
                    × ((cli_bin : Text) × (look_path w (codes "docker") ≡ some cli_bin)
                        × IsAvailable cli_bin
                            (ensure_module_image_available host load_archive module_id image
                              w).1))))
  ensure_module_image_available-cases w =
      elim (Bool-cases (is_empty image.source && is_empty image.archive_format)) [
        | inl b ↦ inl (succeeds_at_once w b)
        | inr b ↦ inr (not_both b, outcome b)
      ]
    where
      outcome :
          (is_empty image.source && is_empty image.archive_format) ≡ false
          → ((e : Error) × ((ensure_module_image_available host load_archive module_id image w).0
                ≡ err e))
            ⊎ ((image.source ≡ image_source_module_data)
                × ((image.archive_format ≡ image_archive_docker_save_gz)
                    ⊎ (image.archive_format ≡ image_archive_container_tar_gz))
                × ((cli_bin : Text) × (look_path w (codes "docker") ≡ some cli_bin)
                    × IsAvailable cli_bin
                        (ensure_module_image_available host load_archive module_id image w).1))
      outcome b =
          elim (Result-cases
            (ensure_module_image_available host load_archive module_id image w).0) [
              | inr refused ↦ inl refused
              | inl (d, r) ↦ elim (accepted host load_archive inspects module_id image d w r) [
                | inl e ↦ absurd (ground (arith, b, e))
                | inr (s, f, (cli_bin, n, m)) ↦ inr (
                  (text_eq_iff image.source image_source_module_data).0 s,
                  format_names f,
                  (cli_bin, n, IsMatched-IsAvailable cli_bin _ m),
                )
              ]
            ]
