-- ===== src/Env/Samples.antt =====
-- The environment of a runtime whose caller sets its own HOME.
use vmdockerv.Base.{List, Text, [], codes, refl, ◌∷◌, ◌≡◌}
use vmdockerv.Env.{append_runtime_persistence_env, env_value}

abbrev caller_env : List Text
caller_env = codes "HOME=/root" ∷ codes "A=1" ∷ []

sets_state_dir :
    env_value
      (append_runtime_persistence_env caller_env (codes "/srv/p1"))
      (codes "OPENCLAW_STATE_DIR")
      []
    ≡ codes "/root/.openclaw"
unfolding append_runtime_persistence_env
sets_state_dir = refl
