-- ===== src/RuntimeSpecs.antt =====
-- vmdocker/utils/utils.go: the runtime that the tags of a module and of its spawn ask for.
pub mod Accepted
mod Samples
use vmdockerv.Base.{
  Done, List, Result, Text, [], build_type_unsupported, codes, err, errorf, if◌then◌else◌,
  image_archive_unsupported, image_id_is_empty, image_name_is_empty, image_source_unsupported,
  module_format_unsupported, not, ok, reverse, runtime_backend_unsupported, text_eq, ◌&&◌, ◌||◌,
  ◌∷◌,
}
use vmdockerv.Schema.{
  ImageInfo, RuntimeSpec, Tag, image_archive_container_tar_gz, image_archive_docker_save_gz,
  image_archive_tag, image_id_tag, image_name_tag, image_source_module_data, image_source_tag,
  module_format, runtime_backend_docker, runtime_backend_sandbox, runtime_backend_tag,
  sandbox_agent_tag, sandbox_name_tag, sandbox_network_tag,
}

-- The loop of `runtimeBackendFromTags` runs from the last tag to the first.
unfoldable pub find_backend : List Tag → Text
find_backend [] = []
find_backend (tag ∷ tags) =
    if text_eq tag.name runtime_backend_tag then tag.value else find_backend tags

unfoldable pub runtime_backend_from_tags : List Tag → Text
runtime_backend_from_tags tags = find_backend (reverse tags)

-- `utils.GetTagsValueByDefault` of hymx is a parameter: the name, the tags and the default.
module _ (get_tags_value_by_default : Text → List Tag → Text → Text) where
  unfoldable pub image_info_from_tags : List Tag → Result ImageInfo
  image_info_from_tags tags =
      let build_type = get_tags_value_by_default (codes "Build-Type") tags [] in
      let image_name = get_tags_value_by_default image_name_tag tags [] in
      let image_id = get_tags_value_by_default image_id_tag tags [] in
      let source = get_tags_value_by_default image_source_tag tags [] in
      let archive_format = get_tags_value_by_default image_archive_tag tags [] in
      if not (text_eq build_type [])
      then err (errorf build_type_unsupported)
      else if text_eq image_name []
      then err (errorf image_name_is_empty)
      else if text_eq image_id []
      then err (errorf image_id_is_empty)
      else if not (text_eq source image_source_module_data)
      then err (errorf image_source_unsupported)
      else if not (text_eq archive_format image_archive_docker_save_gz)
          && not (text_eq archive_format image_archive_container_tar_gz)
      then err (errorf image_archive_unsupported)
      else ok (record {
        name = image_name;
        sha = image_id;
        source = source;
        archive_format = archive_format;
      })

  abbrev spec_of : List Tag → ImageInfo → RuntimeSpec
  spec_of tags image = record {
    backend = [];
    image = image;
    sandbox = record {
      agent = get_tags_value_by_default sandbox_agent_tag tags (codes "shell");
      workspace = [];
      network = get_tags_value_by_default sandbox_network_tag tags [];
      name = get_tags_value_by_default sandbox_name_tag tags [];
    };
  }

  unfoldable pub runtime_spec_from_tags : Text → List Tag → Result RuntimeSpec
  unfolding image_info_from_tags
  runtime_spec_from_tags format tags =
      if text_eq format module_format
      then elim (image_info_from_tags tags) [ ok image ↦ ok (spec_of tags image) | err e ↦ err e ]
      else err (errorf module_format_unsupported)

  -- The `switch` on the backend that the spawn asks for.
  abbrev with_backend : Text → RuntimeSpec → Result RuntimeSpec
  with_backend backend spec =
      if text_eq backend []
      then ok spec
      else if text_eq backend runtime_backend_docker || text_eq backend runtime_backend_sandbox
      then ok (record spec { backend = backend })
      else err (errorf runtime_backend_unsupported)

  unfoldable pub runtime_spec_from_module_and_spawn_tags :
      Text → List Tag → List Tag → Result RuntimeSpec
  unfolding runtime_spec_from_tags
  runtime_spec_from_module_and_spawn_tags format module_tags spawn_tags =
      elim (runtime_spec_from_tags format module_tags) [
        | ok spec ↦ with_backend (runtime_backend_from_tags spawn_tags) spec
        | err e ↦ err e
      ]

  unfoldable pub check_module_format : Text → List Tag → Result Done
  unfolding runtime_spec_from_tags
  check_module_format format tags = elim (runtime_spec_from_tags format tags) [
    | ok spec ↦ ok tt
    | err e ↦ err e
  ]
