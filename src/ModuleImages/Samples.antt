-- ===== src/ModuleImages/Samples.antt =====
-- The image of a module on a host whose images all have one ID, after they are loaded.
use vmdockerv.Base.{
  Done, Error, Op, Text, [], codes, err, errorf, none, ok, pure, refl, some, text_discrete,
  trim_space, unsupported_archive_format, ◌≡◌, ◌≢◌, ◌⊎◌,
}
use vmdockerv.Host.{Host}
use vmdockerv.Host.Quiet.{quiet_host}
use vmdockerv.ModuleImages.{
  docker_binary, ensure_module_image_available, find_or_load, image_matches_ref, inspect_args,
  inspect_local_image_id,
}
use vmdockerv.ModuleImages.Available.{IsAvailable, ensure_module_image_available-cases}
use vmdockerv.Schema.{
  ImageInfo, image_archive_container_tar_gz, image_archive_docker_save_gz, image_source_module_data,
}

abbrev answers : Host
answers = record quiet_host { run_command = λ program args w. ((codes "sha256:1\n", none), w) }

abbrev agent_image : ImageInfo
agent_image = record {
  name = codes "agent";
  sha = codes "sha256:1";
  source = image_source_module_data;
  archive_format = image_archive_docker_save_gz;
}

abbrev loads_nothing : Text → Text → Text → Op (Unit {0}) Done
loads_nothing cli_bin module_id archive_format = pure tt

made_available :
    (ensure_module_image_available answers loads_nothing (codes "m1") agent_image tt).0 ≡ ok tt
unfolding ensure_module_image_available find_or_load docker_binary image_matches_ref
    inspect_local_image_id inspect_args text_discrete trim_space
made_available = refl

unknown_format :
    (ensure_module_image_available answers loads_nothing
      (codes "m1")
      (record agent_image { archive_format = codes "zip" })
      tt).0
    ≡ err (errorf unsupported_archive_format)
unfolding ensure_module_image_available text_discrete
unknown_format = refl

ensure_module_image_available-cases_example :
    ((agent_image.source ≡ [])
      × (agent_image.archive_format ≡ [])
      × (ensure_module_image_available answers loads_nothing (codes "m1") agent_image tt
          ≡ (ok tt, tt)))
    ⊎ (((agent_image.source ≢ []) ⊎ (agent_image.archive_format ≢ []))
        × (((e : Error) × ((ensure_module_image_available answers loads_nothing
                  (codes "m1")
                  agent_image
                  tt).0
                ≡ err e))
            ⊎ ((agent_image.source ≡ image_source_module_data)
                × ((agent_image.archive_format ≡ image_archive_docker_save_gz)
                    ⊎ (agent_image.archive_format ≡ image_archive_container_tar_gz))
                × ((cli_bin : Text) × (answers.look_path tt (codes "docker") ≡ some cli_bin)
                    × IsAvailable answers loads_nothing
                        (λ cli_bin ref w. refl)
                        (codes "m1")
                        agent_image
                        cli_bin
                        (ensure_module_image_available answers loads_nothing
                          (codes "m1")
                          agent_image
                          tt).1))))
ensure_module_image_available-cases_example =
    ensure_module_image_available-cases answers loads_nothing (λ cli_bin ref w. refl) (codes "m1")
      agent_image tt
