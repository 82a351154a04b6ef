-- ===== src/LaunchConfig/Samples.antt =====
-- A checkpoint in a workspace, restored where it was taken and refused under another backend.
use vmdockerv.Base.{
  List, Text, [], codes, false, is_blank, ok, refl, text_discrete, text_eq, trim_space, ◌∷◌, ◌≡◌,
}
use vmdockerv.Env.{runtime_workspace_root_from_path}
use vmdockerv.LaunchConfig.{
  RuntimeLaunchConfig, WorkspaceCheckpoint, has_runtime_spec, normalize_runtime_spec_workspace_root,
  resolve_restore_launch_config, restore_spec, workspace_checkpoint_format_v1,
}
use vmdockerv.Paths.{dir}
use vmdockerv.Schema.{
  InstanceInfo, RuntimeSpec, Tag, created, image_archive_docker_save_gz, image_source_module_data,
  runtime_backend_docker, runtime_backend_sandbox,
}

abbrev sample_spec : RuntimeSpec
sample_spec = record {
  backend = runtime_backend_docker;
  image = record {
    name = codes "agent";
    sha = codes "sha256:1";
    source = image_source_module_data;
    archive_format = image_archive_docker_save_gz;
  };
  sandbox = record { agent = codes "shell"; workspace = codes "/data"; network = []; name = [] };
}

abbrev sample_instance : InstanceInfo
sample_instance = record {
  id = codes "c1";
  name = codes "p1";
  port = 10000;
  status = created;
  create_at = 0;
  backend = runtime_backend_docker;
  agent = [];
  workspace = codes "/data/sandbox_workspace/p1";
  runtime_spec = sample_spec;
  runtime_env = codes "A=1" ∷ [];
}

abbrev no_value : Text → List Tag → Text → Text
no_value name tags default = default

abbrev sample_launch : RuntimeLaunchConfig
sample_launch = record { runtime_spec = sample_spec; runtime_env = codes "A=1" ∷ [] }

abbrev sample_checkpoint : WorkspaceCheckpoint
sample_checkpoint = record {
  format = workspace_checkpoint_format_v1;
  workspace_archive = codes "zip";
  workspace_checkpoint_name = codes "workspace";
  runtime_state = codes "s1";
  backend = runtime_backend_docker;
  runtime_spec = sample_spec;
  runtime_env = codes "A=1" ∷ [];
}

resolves :
    resolve_restore_launch_config sample_checkpoint sample_spec []
      (codes "/data/sandbox_workspace/p1")
    ≡ ok sample_launch
unfolding resolve_restore_launch_config restore_spec has_runtime_spec
    normalize_runtime_spec_workspace_root runtime_workspace_root_from_path dir text_discrete
    trim_space
resolves = refl

other_backend : text_eq runtime_backend_docker runtime_backend_sandbox ≡ false
unfolding text_discrete trim_space
other_backend = refl

named_backend : text_eq runtime_backend_sandbox [] ≡ false
unfolding text_discrete trim_space
named_backend = refl

docker_is_not_blank : is_blank runtime_backend_docker ≡ false
unfolding trim_space
docker_is_not_blank = refl
