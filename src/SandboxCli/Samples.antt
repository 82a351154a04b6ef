-- ===== src/SandboxCli/Samples.antt =====
-- The arguments of a command in a sandbox, on blank and other items.
use vmdockerv.Base.{[], codes, contains, refl, trim_space, true, ◌∷◌, ◌≡◌}
use vmdockerv.SandboxCli.{command_failure, exec_args, is_not_running}
use vmdockerv.Schema.{InstanceInfo, created, runtime_backend_sandbox}

abbrev bare_instance : InstanceInfo
bare_instance = record {
  id = codes "box";
  name = codes "p1";
  port = 10000;
  status = created;
  create_at = 0;
  backend = runtime_backend_sandbox;
  agent = codes "shell";
  workspace = codes "/w";
  runtime_spec = record {
    backend = runtime_backend_sandbox;
    image = record { name = codes "agent"; sha = codes "1"; source = []; archive_format = [] };
    sandbox = record { agent = []; workspace = []; network = []; name = [] };
  };
  runtime_env = [];
}

skips_blank_items :
    exec_args bare_instance [] (codes "A=1" ∷ codes " " ∷ []) (codes "ls") true
    ≡ codes "sandbox"
      ∷ codes "exec"
      ∷ codes "-e"
      ∷ codes "A=1"
      ∷ codes "-w"
      ∷ codes "/w"
      ∷ codes "box"
      ∷ codes "sh"
      ∷ codes "-lc"
      ∷ codes "ls"
      ∷ []
unfolding exec_args trim_space
skips_blank_items = refl

tolerated :
    is_not_running (command_failure (codes "exit status 1") (codes "box is not running")) ≡ true
unfolding is_not_running contains
tolerated = refl
