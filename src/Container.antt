-- ===== src/Container.antt =====
-- vmdocker/runtimemanager/docker.go: the configuration that a Docker runtime's container is made with.
use vmdockerv.Base.{
  Bool, List, Text, [], codes, false, if◌then◌else◌, some, text_eq, true, ℕ, ◌++◌, ◌∷◌,
}
use vmdockerv.Env.{container_home, container_tmp}
use vmdockerv.Schema.{
  ContainerConfig, HostConfig, Mount, RuntimeSpec, allow_host, expose_port, max_mem, runtime_user,
}

unfoldable pub build_docker_container_config : RuntimeSpec → List Text → ContainerConfig
build_docker_container_config spec runtime_env = record {
  image = spec.image.name;
  user = runtime_user;
  exposed_ports = expose_port ∷ [];
  env = runtime_env;
  working_dir = container_home;
  entrypoint = [];
  cmd = [];
}

abbrev pub bind_mount : Text → Text → Mount
bind_mount source target = record { source = source; target = target; read_only = false }

abbrev model_mount : Text → Mount
model_mount source = record { source = source; target = codes "/app/models"; read_only = true }

-- `schema.UseMount`, which the source sets to false, and `schema.MountSource` are parameters.
unfoldable pub build_docker_host_config : Bool → Text → ℕ → Text → Text → HostConfig
build_docker_host_config use_mount mount_source port workspace tmp_dir = record {
  port_bindings = (expose_port, allow_host, port) ∷ [];
  readonly_rootfs = true;
  privileged = false;
  security_opt = codes "no-new-privileges:true" ∷ [];
  cap_drop = codes "ALL" ∷ [];
  masked_paths =
      codes "/proc/acpi"
      ∷ codes "/proc/kcore"
      ∷ codes "/proc/keys"
      ∷ codes "/proc/latency_stats"
      ∷ codes "/proc/timer_list"
      ∷ codes "/proc/timer_stats"
      ∷ codes "/proc/sched_debug"
      ∷ codes "/proc/scsi"
      ∷ codes "/sys/firmware"
      ∷ [];
  readonly_paths =
      codes "/etc/hosts"
      ∷ codes "/etc/hostname"
      ∷ codes "/etc/resolv.conf"
      ∷ codes "/proc/asound"
      ∷ codes "/proc/bus"
      ∷ codes "/proc/fs"
      ∷ codes "/proc/irq"
      ∷ codes "/proc/sys"
      ∷ codes "/proc/sysrq-trigger"
      ∷ [];
  memory = max_mem;
  memory_swap = max_mem;
  pids_limit = some 256;
  cpu_period = 100000;
  cpu_quota = 200000;
  cpu_shares = 1024;
  mounts =
      (if use_mount then model_mount mount_source ∷ [] else [])
      ++ (bind_mount workspace container_home
          ∷ (if text_eq tmp_dir [] then [] else bind_mount tmp_dir container_tmp ∷ []));
}
