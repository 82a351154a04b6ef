-- ===== src/Schema.antt =====
-- vmdocker/runtimemanager/schema: the records and constants that the managers and the virtual
-- machine share, and the parts of the Docker API's types that they use.
use vmdockerv.Base.{Bool, List, Option, Text, codes, ℕ, ◌*◌}

pub record ImageInfo : Type 0 where
  pub name : Text
  pub sha : Text
  pub source : Text
  pub archive_format : Text

pub record SandboxSpec : Type 0 where
  pub agent : Text
  pub workspace : Text
  pub network : Text
  pub name : Text

pub record RuntimeSpec : Type 0 where
  pub backend : Text
  pub image : ImageInfo
  pub sandbox : SandboxSpec

pub data Status : Type 0 where
  created running stopped : Status

pub record InstanceInfo : Type 0 where
  pub id : Text
  pub name : Text
  pub port : ℕ
  pub status : Status
  pub create_at : ℕ
  pub backend : Text
  pub agent : Text
  pub workspace : Text
  pub runtime_spec : RuntimeSpec
  pub runtime_env : List Text

abbrev pub module_format : Text
module_format = codes "hymx.vmdockerv2.v0.0.1"

abbrev pub runtime_backend_docker : Text
runtime_backend_docker = codes "docker"

abbrev pub runtime_backend_sandbox : Text
runtime_backend_sandbox = codes "sandbox"

abbrev pub runtime_backend_tag : Text
runtime_backend_tag = codes "Runtime-Backend"

abbrev pub sandbox_agent_tag : Text
sandbox_agent_tag = codes "Sandbox-Agent"

abbrev pub sandbox_network_tag : Text
sandbox_network_tag = codes "Sandbox-Network"

abbrev pub sandbox_name_tag : Text
sandbox_name_tag = codes "Sandbox-Name"

abbrev pub image_name_tag : Text
image_name_tag = codes "Image-Name"

abbrev pub image_id_tag : Text
image_id_tag = codes "Image-ID"

abbrev pub image_source_tag : Text
image_source_tag = codes "Image-Source"

abbrev pub image_archive_tag : Text
image_archive_tag = codes "Image-Archive-Format"

abbrev pub image_source_module_data : Text
image_source_module_data = codes "module-data"

abbrev pub image_archive_docker_save_gz : Text
image_archive_docker_save_gz = codes "docker-save+gzip"

abbrev pub image_archive_container_tar_gz : Text
image_archive_container_tar_gz = codes "container-tar+image.tar.gz"

-- schema/env.go
abbrev pub expose_port : Text
expose_port = codes "8080/tcp"

abbrev pub allow_host : Text
allow_host = codes "127.0.0.1"

abbrev pub max_mem : ℕ
max_mem = 12 * 1024 * 1024 * 1024

abbrev pub runtime_user : Text
runtime_user = codes "hymx"

-- `system.Info`
pub record SystemInfo : Type 0 where
  pub server_version : Text
  pub security_options : List Text
  pub memory_limit : Bool
  pub swap_limit : Bool
  pub pids_limit : Bool

-- `image.InspectResponse`
pub record ImageInspect : Type 0 where
  pub id : Text
  pub repo_digests : List Text

-- `mount.Mount`, of type bind.
pub record Mount : Type 0 where
  pub source : Text
  pub target : Text
  pub read_only : Bool

-- `container.Config`
pub record ContainerConfig : Type 0 where
  pub image : Text
  pub user : Text
  pub exposed_ports : List Text
  pub env : List Text
  pub working_dir : Text
  pub entrypoint : List Text
  pub cmd : List Text

-- `container.HostConfig` with its `Resources`; a port binding is (container port, host ip, port).
pub record HostConfig : Type 0 where
  pub port_bindings : List (Text × Text × ℕ)
  pub readonly_rootfs : Bool
  pub privileged : Bool
  pub security_opt : List Text
  pub cap_drop : List Text
  pub masked_paths : List Text
  pub readonly_paths : List Text
  pub memory : ℕ
  pub memory_swap : ℕ
  pub pids_limit : Option ℕ
  pub cpu_period : ℕ
  pub cpu_quota : ℕ
  pub cpu_shares : ℕ
  pub mounts : List Mount

-- `goarSchema.Tag`
pub record Tag : Type 0 where
  pub name : Text
  pub value : Text
