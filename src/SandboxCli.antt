-- ===== src/SandboxCli.antt =====
-- vmdocker/runtimemanager/sandbox.go: the commands of the Docker sandbox CLI that the sandbox manager
-- runs, and what it reads from their output.
mod Samples
use vmdockerv.Base.{
  Bool, Done, Error, List, Op, Result, Text, [], cli_unavailable, codes, contains, err, errorf,
  external, false, if◌then◌else◌, image_id_is_empty, inspect_template_failed, is_blank, is_ok, join,
  no_inspect_result, none, ok, parse_inspect_failed, pull_template_failed, pure, require,
  sandbox_cli_unavailable, some, template_sha_mismatch, text_eq, throw, trim_space, wrapf, wrapping,
  ◌++◌, ◌>>=◌, ◌>>◌, ◌||◌, ◌∷◌,
}
use vmdockerv.Docker.{some_contains}
use vmdockerv.Host.{Host}
use vmdockerv.Schema.{ImageInfo, InstanceInfo, image_source_module_data}

pub record TemplateInspect : Type 0 where
  pub id : Text
  pub repo_digests : List Text
  pub entrypoint : List Text
  pub cmd : List Text

-- `fmt.Errorf("%w: %s", err, trimmed)`, or the error alone where nothing was written.
abbrev pub command_failure : Text → Text → Error
command_failure failure [] = external failure
command_failure failure (c ∷ trimmed) = external (failure ++ (codes ": " ++ c ∷ trimmed))

-- `strings.Contains(err.Error(), "not running")`, of an error that a command gives.
unfoldable pub is_not_running : Error → Bool
is_not_running (external t) = contains t (codes "not running")
is_not_running e = false

-- Each item that is not blank, behind "-e".
unfoldable pub env_args : List Text → List Text
env_args [] = []
env_args (item ∷ env) =
    let rest = env_args env in if is_blank item then rest else codes "-e" ∷ item ∷ rest

abbrev user_args : Text → List Text
user_args [] = []
user_args (c ∷ user) = codes "-u" ∷ (c ∷ user) ∷ []

abbrev workdir_args : Text → List Text
workdir_args workspace = if is_blank workspace then [] else codes "-w" ∷ workspace ∷ []

unfoldable pub exec_args : InstanceInfo → Text → List Text → Text → Bool → List Text
unfolding env_args
exec_args instance user env command login_shell =
    (codes "sandbox" ∷ codes "exec" ∷ user_args user)
    ++ (env_args env
        ++ (workdir_args instance.workspace
            ++ (instance.id
                ∷ codes "sh"
                ∷ (if login_shell then codes "-lc" else codes "-c")
                ∷ command
                ∷ [])))

unfoldable pub build_sandbox_filesystem_lockdown_command : Text
build_sandbox_filesystem_lockdown_command =
    join
      (codes
          "if [ -d /home/agent ]; then chown -R root:root /home/agent 2>/dev/null || true; chmod -R a-w /home/agent 2>/dev/null || true; chmod 0555 /home/agent 2>/dev/null || true; fi"
        ∷ codes
            "if [ -d /workspace ]; then chown -R root:root /workspace 2>/dev/null || true; chmod -R a-w /workspace 2>/dev/null || true; chmod 0555 /workspace 2>/dev/null || true; fi"
        ∷ codes
            "if [ -d /tmp ]; then chown root:root /tmp 2>/dev/null || true; chmod 0755 /tmp 2>/dev/null || true; fi"
        ∷ codes
            "if [ -d /var/tmp ]; then chown root:root /var/tmp 2>/dev/null || true; chmod 0755 /var/tmp 2>/dev/null || true; fi"
        ∷ [])
      (codes " && ")

-- `unmarshal_inspect` is `json.Unmarshal` into the inspection results.
module _ (host : Host) (unmarshal_inspect : Text → Result (List TemplateInspect)) where
  open host use {World, run_command}

  unfoldable pub run_sandbox_command : Text → List Text → Op World Text
  run_sandbox_command cli_bin args w =
      let ((output, failure), w') = run_command cli_bin args w in
      elim failure [
        | none ↦ (ok (trim_space output), w')
        | some e ↦ (err (command_failure e (trim_space output)), w')
      ]

  unfoldable pub ensure_sandbox_cli : Text → Op World Done
  ensure_sandbox_cli cli_bin w =
      let ((output, failure), w') = run_command cli_bin (codes "--help" ∷ []) w in
      elim failure [
        | some e ↦ (err (wrapf cli_unavailable (external e)), w')
        | none ↦ require (contains output (codes "sandbox")) sandbox_cli_unavailable w'
      ]

  abbrev first_result : List TemplateInspect → Op World TemplateInspect
  first_result [] = throw (errorf no_inspect_result)
  first_result (inspect ∷ more) = pure inspect

  abbrev unmarshalled : Text → Op World (List TemplateInspect)
  unmarshalled output w = (unmarshal_inspect output, w)

  unfoldable pub inspect_template_image : Text → Text → Op World TemplateInspect
  unfolding run_sandbox_command
  inspect_template_image cli_bin image_name = do
    output ← run_sandbox_command cli_bin (codes "image" ∷ codes "inspect" ∷ image_name ∷ [])
    results ← wrapping parse_inspect_failed (unmarshalled output)
    first_result results

  unfoldable pub verify_template_sha : Text → ImageInfo → Op World Done
  unfolding inspect_template_image some_contains
  verify_template_sha cli_bin image = do
    inspect ← wrapping inspect_template_failed (inspect_template_image cli_bin image.name)
    require (some_contains inspect.repo_digests image.sha || text_eq inspect.id image.sha)
        template_sha_mismatch

  unfoldable pub pull_template : Text → ImageInfo → Op World Done
  unfolding verify_template_sha
  pull_template cli_bin image = do
    wrapping pull_template_failed (run_sandbox_command cli_bin (codes "pull" ∷ image.name ∷ []))
    verify_template_sha cli_bin image

  unfoldable pub ensure_template_exists : Text → ImageInfo → Op World Done
  unfolding pull_template
  ensure_template_exists cli_bin image w =
      if text_eq image.source image_source_module_data
      then (if text_eq image.sha []
          then (err (errorf image_id_is_empty), w)
          else verify_template_sha cli_bin image w)
      else let (present, w') = inspect_template_image cli_bin image.name w in
        if is_ok present
        then verify_template_sha cli_bin image w'
        else pull_template cli_bin image w'

  unfoldable pub exec_instance_as_user :
      Text → InstanceInfo → Text → List Text → Text → Bool → Op World Text
  unfolding exec_args run_sandbox_command
  exec_instance_as_user cli_bin instance user env command login_shell =
      run_sandbox_command cli_bin (exec_args instance user env command login_shell)
