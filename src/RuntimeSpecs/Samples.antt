-- ===== src/RuntimeSpecs/Samples.antt =====
-- A module's tags, read by a function that gives the first value of a name.
use vmdockerv.Base.{
  List, Text, [], codes, if◌then◌else◌, is_ok, ok, refl, text_discrete, text_eq, ◌&&◌, ◌∷◌, ◌≡◌,
}
use vmdockerv.RuntimeSpecs.{
  find_backend, runtime_backend_from_tags, runtime_spec_from_module_and_spawn_tags,
}
use vmdockerv.RuntimeSpecs.Accepted.{
  is_backend, is_module, last_backend, runtime_spec-accepted, runtime_spec-ok,
}
use vmdockerv.Schema.{
  RuntimeSpec, Tag, image_archive_container_tar_gz, image_archive_tag, image_id_tag, image_name_tag,
  image_source_module_data, image_source_tag, module_format, runtime_backend_docker,
  runtime_backend_tag,
}

first_value : Text → List Tag → Text → Text
first_value name [] default = default
first_value name (t ∷ ts) default =
    if text_eq t.name name then t.value else first_value name ts default

abbrev module_tags : List Tag
module_tags =
    record { name = image_name_tag; value = codes "agent" }
    ∷ record { name = image_id_tag; value = codes "sha256:1" }
    ∷ record { name = image_source_tag; value = image_source_module_data }
    ∷ record { name = image_archive_tag; value = image_archive_container_tar_gz }
    ∷ []

abbrev spawn_tags : List Tag
spawn_tags =
    record { name = runtime_backend_tag; value = codes "sandbox" }
    ∷ record { name = runtime_backend_tag; value = codes "docker" }
    ∷ []

abbrev accepted_spec : RuntimeSpec
accepted_spec = record {
  backend = runtime_backend_docker;
  image = record {
    name = codes "agent";
    sha = codes "sha256:1";
    source = image_source_module_data;
    archive_format = image_archive_container_tar_gz;
  };
  sandbox = record { agent = codes "shell"; workspace = []; network = []; name = [] };
}

accepts :
    runtime_spec_from_module_and_spawn_tags first_value module_format module_tags spawn_tags
    ≡ ok accepted_spec
unfolding runtime_spec_from_module_and_spawn_tags runtime_backend_from_tags find_backend first_value
    text_discrete
accepts = refl

runtime_spec-accepted_example :
    is_ok (runtime_spec_from_module_and_spawn_tags first_value module_format module_tags spawn_tags)
    ≡ (text_eq module_format module_format
        && (is_module first_value module_tags && is_backend (last_backend spawn_tags [])))
runtime_spec-accepted_example =
    runtime_spec-accepted first_value module_format module_tags spawn_tags

runtime_spec-ok_example : accepted_spec.backend ≡ last_backend spawn_tags []
runtime_spec-ok_example =
    (runtime_spec-ok first_value module_format module_tags spawn_tags accepted_spec accepts).0
