-- ===== src/Env.antt =====
-- vmdocker/runtimemanager/env.go: the environment and the directories of a runtime's workspace.
pub mod Defaults
mod Samples
use vmdockerv.Base.{
  Bool, List, Text, [], codes, false, has_prefix, if◌then◌else◌, trim_prefix, ◌++◌, ◌||◌, ◌∷◌,
}
use vmdockerv.Paths.{base, dir, join_paths}

-- `key + "="`
abbrev pub entry_prefix : Text → Text
entry_prefix key = key ++ codes "="

abbrev pub entry : Text → Text → Text
entry key val = key ++ (codes "=" ++ val)

unfoldable pub has_env_key : List Text → Text → Bool
has_env_key [] key = false
has_env_key (item ∷ env) key = has_prefix item (entry_prefix key) || has_env_key env key

unfoldable pub env_value : List Text → Text → Text → Text
env_value [] key fallback = fallback
env_value (item ∷ env) key fallback =
    if has_prefix item (entry_prefix key)
    then trim_prefix item (entry_prefix key)
    else env_value env key fallback

abbrev pub container_home : Text
container_home = codes "/home/hymx"

abbrev pub container_tmp : Text
container_tmp = codes "/tmp"

abbrev pub runtime_workspace_dir : Text
runtime_workspace_dir = codes "sandbox_workspace"

abbrev pub runtime_tmp_dir_suffix : Text
runtime_tmp_dir_suffix = codes "-tmp"

-- The closure `set` of `appendRuntimePersistenceEnv`.
abbrev pub set_default : List Text → Text × Text → List Text
set_default env (key, val) = if has_env_key env key then env else env ++ entry key val ∷ []

unfoldable pub set_defaults : List Text → List (Text × Text) → List Text
set_defaults env [] = env
set_defaults env (kv ∷ kvs) = set_defaults (set_default env kv) kvs

-- The keys and values that are set, in order, as the caller's environment decides them.
unfoldable pub persistence_settings : List Text → List (Text × Text)
persistence_settings env =
    let home = env_value env (codes "HOME") container_home in
    let state_dir =
      env_value env (codes "OPENCLAW_STATE_DIR") (join_paths (home ∷ codes ".openclaw" ∷ [])) in
    let agent_workspace =
      env_value env (codes "OPENCLAW_AGENT_WORKSPACE")
        (join_paths (state_dir ∷ codes "workspace" ∷ [])) in
    let tmp_dir = env_value env (codes "TMPDIR") (join_paths (home ∷ codes ".tmp" ∷ [])) in
    let xdg_config_home =
      env_value env (codes "XDG_CONFIG_HOME")
        (join_paths (home ∷ codes ".xdg" ∷ codes "config" ∷ [])) in
    let xdg_cache_home =
      env_value env (codes "XDG_CACHE_HOME")
        (join_paths (home ∷ codes ".xdg" ∷ codes "cache" ∷ [])) in
    let xdg_state_home =
      env_value env (codes "XDG_STATE_HOME")
        (join_paths (home ∷ codes ".xdg" ∷ codes "state" ∷ [])) in
    let runtime_agent_workspace =
      env_value env (codes "VMDOCKER_AGENT_WORKSPACE")
        (join_paths (home ∷ codes "workspace" ∷ [])) in
    (codes "OPENCLAW_STATE_DIR", state_dir)
    ∷ (codes "OPENCLAW_HOME", home)
    ∷ (codes "OPENCLAW_CONFIG_PATH", join_paths (state_dir ∷ codes "openclaw.json" ∷ []))
    ∷ (codes "OPENCLAW_AGENT_WORKSPACE", agent_workspace)
    ∷ (codes "VMDOCKER_RUNTIME_WORKSPACE", home)
    ∷ (codes "VMDOCKER_RUNTIME_HOME", home)
    ∷ (codes "VMDOCKER_AGENT_WORKSPACE", runtime_agent_workspace)
    ∷ (codes "HOME", home)
    ∷ (codes "TMPDIR", tmp_dir)
    ∷ (codes "XDG_CONFIG_HOME", xdg_config_home)
    ∷ (codes "XDG_CACHE_HOME", xdg_cache_home)
    ∷ (codes "XDG_STATE_HOME", xdg_state_home)
    ∷ []

unfoldable pub append_runtime_persistence_env : List Text → Text → List Text
unfolding set_defaults has_env_key env_value persistence_settings join_paths
append_runtime_persistence_env runtime_env [] = runtime_env
append_runtime_persistence_env runtime_env (c ∷ workspace) =
    set_defaults runtime_env (persistence_settings runtime_env)

unfoldable pub runtime_workspace_layout_dirs : Text → List Text
unfolding join_paths
runtime_workspace_layout_dirs workspace =
    workspace
    ∷ join_paths (workspace ∷ codes ".openclaw" ∷ [])
    ∷ join_paths (workspace ∷ codes ".openclaw" ∷ codes "workspace" ∷ [])
    ∷ join_paths (workspace ∷ codes "workspace" ∷ [])
    ∷ join_paths (workspace ∷ codes ".tmp" ∷ [])
    ∷ join_paths (workspace ∷ codes ".xdg" ∷ codes "config" ∷ [])
    ∷ join_paths (workspace ∷ codes ".xdg" ∷ codes "cache" ∷ [])
    ∷ join_paths (workspace ∷ codes ".xdg" ∷ codes "state" ∷ [])
    ∷ []

-- The host directory behind the container's /tmp: a sibling of the workspace.
unfoldable pub runtime_tmp_dir : Text → Text
runtime_tmp_dir workspace =
    join_paths (dir workspace ∷ (base workspace ++ runtime_tmp_dir_suffix) ∷ [])

unfoldable pub runtime_workspace_root_from_path : Text → Text
runtime_workspace_root_from_path workspace = dir (dir workspace)
