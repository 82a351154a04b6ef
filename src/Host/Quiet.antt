-- ===== src/Host/Quiet.antt =====
-- A host on which every operation succeeds, and one whose Docker daemon does not answer.
use vmdockerv.Base.{[], codes, external, false, none, pure, some, throw, true, ◌∷◌}
use vmdockerv.Host.{Host}

abbrev pub quiet_host : Host
quiet_host = record {
  World = Unit {0};
  getenv = λ w name. [];
  getwd = pure (codes "/srv");
  abs = λ path. pure path;
  mkdir_all = λ path mode. pure tt;
  chmod = λ path mode. pure tt;
  port_available = λ w port. true;
  time_now = λ w. 0;
  look_path = λ w name. some (codes "/usr/bin/docker");
  run_command = λ program args w. ((codes "sandbox", none), w);
  daemon_info = pure (record {
    server_version = codes "27";
    security_options = codes "name=seccomp,profile=builtin" ∷ [];
    memory_limit = true;
    swap_limit = false;
    pids_limit = true;
  });
  image_inspect = λ name. pure (record { id = codes "sha256:1"; repo_digests = [] });
  image_pull = λ name. pure tt;
  drain_pull = λ name. pure tt;
  container_create = λ config host_config name. pure (codes "c1");
  container_remove = λ id. pure tt;
  container_start = λ id. pure tt;
  container_stop = λ id seconds. pure tt;
}

abbrev pub silent_host : Host
silent_host = record quiet_host { daemon_info = throw (external (codes "connection refused")) }
