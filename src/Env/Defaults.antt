-- ===== src/Env/Defaults.antt =====
-- The caller's environment wins over the defaults, and every key is set.
use vmdockerv.Base.{
  Bool-cases, List, Text, [], append-nil, append_assoc, if◌then◌else◌, inl, inr, lacks, text_eq,
  true, ◌++◌, ◌∙◌, ◌∷◌, ◌≡◌,
}
use vmdockerv.Env.{
  append_runtime_persistence_env, entry, has_env_key, persistence_settings, set_defaults,
}

-- No key of the settings holds a '='.
abbrev AreKeys : List (Text × Text) → Type 0
AreKeys [] = Unit
AreKeys ((k, v) ∷ kvs) = (lacks b'=' k ≡ true) × AreKeys kvs

-- The value that the settings give a key, or the fallback.
abbrev pub setting : List (Text × Text) → Text → Text → Text
setting [] k d = d
setting ((j, v) ∷ kvs) k d = if text_eq j k then v else setting kvs k d

set_defaults_extends :
    (env : List Text) (kvs : List (Text × Text))
    → (more : List Text) × (set_defaults env kvs ≡ env ++ more)
unfolding set_defaults
set_defaults_extends env [] = ([], simp append-nil)
set_defaults_extends env ((k, v) ∷ kvs) = elim (Bool-cases (has_env_key env k)) [
  | inl old ↦ rw old (set_defaults_extends env kvs)
  | inr new ↦
      let (more, e) = set_defaults_extends (env ++ entry k v ∷ []) kvs in
      (entry k v ∷ more, rw new (e ∙ append_assoc env (entry k v ∷ []) more))
]

-- The caller's entries stand first, in their order, and nothing is removed.
pub append_runtime_persistence_env_extends :
    (env : List Text) (workspace : Text)
    → (more : List Text) × (append_runtime_persistence_env env workspace ≡ env ++ more)
unfolding append_runtime_persistence_env
append_runtime_persistence_env_extends env [] = ([], simp append-nil)
append_runtime_persistence_env_extends env (c ∷ workspace) =
    set_defaults_extends env (persistence_settings env)
