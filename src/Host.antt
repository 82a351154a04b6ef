-- ===== src/Host.antt =====
-- What the program calls outside this repository: the operating system, the Docker client and the
-- commands that it runs. Each operation gives its result, or an error, and the world after it.
pub mod Quiet
use vmdockerv.Base.{Bool, Done, List, Op, Option, Text, ℕ}
use vmdockerv.Schema.{ContainerConfig, HostConfig, ImageInspect, SystemInfo}

pub record Host : Type 1 where
  pub World : Type 0
  -- os, filepath, net, time
  pub getenv : World → Text → Text
  pub getwd : Op World Text
  pub abs : Text → Op World Text
  pub mkdir_all : Text → ℕ → Op World Done
  pub chmod : Text → ℕ → Op World Done
  pub port_available : World → ℕ → Bool
  pub time_now : World → ℕ
  -- a command with its arguments, run to its end: its combined output, and its error's text
  pub look_path : World → Text → Option Text
  pub run_command : Text → List Text → World → (Text × Option Text) × World
  -- the Docker client; a pull gives a stream, which is then read to its end
  pub daemon_info : Op World SystemInfo
  pub image_inspect : Text → Op World ImageInspect
  pub image_pull : Text → Op World Done
  pub drain_pull : Text → Op World Done
  pub container_create : ContainerConfig → HostConfig → Text → Op World Text
  pub container_remove : Text → Op World Done
  pub container_start : Text → Op World Done
  pub container_stop : Text → ℕ → Op World Done
