-- ===== src/ModuleImages.antt =====
-- vmdocker/module_image.go: the image of a module is made available under its name. What loads the
-- module's payload into Docker (`dockerLoadArchive`) is a parameter.
pub mod Tagged
pub mod Accepted
pub mod Available
mod Samples
use vmdockerv.Base.{
  Bool, Done, List, Op, Result, Text, [], cli_unavailable, codes, err, errorf, external, false,
  if◌then◌else◌, image_id_mismatch, inspect_image_failed, is_empty, is_ok, none, ok, pure, require,
  some, tag_image_failed, tag_loaded_failed, text_eq, trim_space, unsupported_archive_format,
  unsupported_image_source, wrapf, wrapping, ◌&&◌, ◌>>=◌, ◌>>◌, ◌||◌, ◌∷◌,
}
use vmdockerv.Host.{Host}
use vmdockerv.Schema.{
  ImageInfo, image_archive_container_tar_gz, image_archive_docker_save_gz, image_source_module_data,
}

unfoldable pub inspect_args : Text → List Text
inspect_args ref = codes "image" ∷ codes "inspect" ∷ codes "--format" ∷ codes "{{.Id}}" ∷ ref ∷ []

abbrev pub is_true : Result Bool → Bool
is_true (ok b) = b
is_true (err e) = false

module _ (host : Host) (load_archive : Text → Text → Text → Op (host.World) Done) where
  open host use {World, look_path, run_command}

  unfoldable pub docker_binary : Op World Text
  docker_binary w = elim (look_path w (codes "docker")) [
    | some cli_bin ↦ (ok cli_bin, w)
    | none ↦ (err (errorf cli_unavailable), w)
  ]

  unfoldable pub inspect_local_image_id : Text → Text → Op World Text
  unfolding inspect_args
  inspect_local_image_id cli_bin ref w =
      let ((output, failure), w') = run_command cli_bin (inspect_args ref) w in
      elim failure [
        | some e ↦ (err (wrapf inspect_image_failed (external e)), w')
        | none ↦ (ok (trim_space output), w')
      ]

  unfoldable pub image_matches_ref : Text → Text → Text → Op World Bool
  image_matches_ref cli_bin ref expected_id = do
    actual_id ← inspect_local_image_id cli_bin ref
    pure (text_eq actual_id expected_id)

  unfoldable pub tag_image : Text → Text → Text → Op World Done
  tag_image cli_bin image_id image_name w =
      let ((output, failure), w') =
        run_command cli_bin (codes "image" ∷ codes "tag" ∷ image_id ∷ image_name ∷ []) w in
      elim failure [ some e ↦ (err (wrapf tag_image_failed (external e)), w') | none ↦ (ok tt, w') ]

  -- The tag, and the check of it.
  unfoldable pub tag_and_verify : Text → Text → Text → Op World Done
  unfolding tag_image image_matches_ref
  tag_and_verify cli_bin image_id image_name = do
    tag_image cli_bin image_id image_name
    matched ← image_matches_ref cli_bin image_name image_id
    require matched image_id_mismatch

  unfoldable pub tag_unless_matched : Text → Text → Text → Op World Done
  unfolding tag_and_verify
  tag_unless_matched cli_bin image_id image_name w =
      let (matched, w') = image_matches_ref cli_bin image_name image_id w in
      if is_true matched then (ok tt, w') else tag_and_verify cli_bin image_id image_name w'

  unfoldable pub ensure_image_tagged_by_id : Text → Text → Text → Op World Done
  unfolding tag_unless_matched inspect_local_image_id
  ensure_image_tagged_by_id cli_bin image_id image_name = do
    inspect_local_image_id cli_bin image_id
    tag_unless_matched cli_bin image_id image_name

  unfoldable pub load_and_tag : Text → ImageInfo → Text → Op World Done
  unfolding ensure_image_tagged_by_id
  load_and_tag module_id image cli_bin = do
    load_archive cli_bin module_id image.archive_format
    wrapping tag_loaded_failed (ensure_image_tagged_by_id cli_bin image.sha image.name)

  -- The image is there under its name, or under its ID, or is loaded.
  unfoldable pub find_or_load : Text → ImageInfo → Text → Op World Done
  unfolding load_and_tag
  find_or_load module_id image cli_bin w =
      let (matched, u) = image_matches_ref cli_bin image.name image.sha w in
      if is_true matched
      then (ok tt, u)
      else let (tagged, v) = ensure_image_tagged_by_id cli_bin image.sha image.name u in
        if is_ok tagged then (ok tt, v) else load_and_tag module_id image cli_bin v

  unfoldable pub ensure_module_image_available : Text → ImageInfo → Op World Done
  unfolding docker_binary find_or_load
  ensure_module_image_available module_id image =
      if is_empty image.source && is_empty image.archive_format then pure tt else (do
        require (text_eq image.source image_source_module_data) unsupported_image_source
        require
            (text_eq image.archive_format image_archive_docker_save_gz
              || text_eq image.archive_format image_archive_container_tar_gz)
            unsupported_archive_format
        cli_bin ← docker_binary
        find_or_load module_id image cli_bin)
