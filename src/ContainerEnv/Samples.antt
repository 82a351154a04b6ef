-- ===== src/ContainerEnv/Samples.antt =====
-- The environment of a spawn with a repeated key.
use vmdockerv.Base.{
  Bool-cases, List, Text, [], arith, codes, delete, get_or, inl, inr, insert, lookup, map, none,
  refl, text_discrete, text_eq, text_eq_iff, trim_space, ◌++◌, ◌∷◌, ◌≡◌,
}
use vmdockerv.ContainerEnv.{container_env_from_tags, env_settings}
use vmdockerv.ContainerEnv.Order.{has_text}
use vmdockerv.ContainerEnv.Settings.{
  IsSorted, container_env_from_tags-last_value, is_some, last_value, lookup-env_settings,
}
use vmdockerv.Schema.{Tag}

abbrev repeated : List Tag
repeated =
    record { name = codes "Container-Env-B"; value = codes "1" }
    ∷ record { name = codes "Container-Env-A"; value = codes "2" }
    ∷ record { name = codes "Other"; value = codes "3" }
    ∷ record { name = codes "Container-Env-B"; value = codes "4" }
    ∷ []

last_wins : container_env_from_tags repeated ≡ codes "A=2" ∷ codes "B=4" ∷ []
unfolding container_env_from_tags trim_space text_discrete lookup insert delete
last_wins = refl

lookup-env_settings_example :
    lookup (codes "B") (env_settings repeated) ≡ last_value (codes "B") repeated none
lookup-env_settings_example = lookup-env_settings (codes "B") repeated

abbrev both : List Text
both = codes "A" ∷ codes "B" ∷ []

both-IsSorted : IsSorted both
both-IsSorted = ((refl, tt), (tt, tt))

-- A tag of another kind sets no key.
keys_set : (k : Text) → has_text k both ≡ is_some (last_value k repeated none)
unfolding trim_space
keys_set k = elim (Bool-cases (text_eq k (codes "A"))) [
  | inl a ↦ elim (Bool-cases (text_eq k (codes "B"))) [
    | inl b ↦
        absurd (ground (arith, (text_eq_iff k (codes "A")).0 a, (text_eq_iff k (codes "B")).0 b))
    | inr b ↦ rw (a, b) refl
  ]
  | inr a ↦ elim (Bool-cases (text_eq k (codes "B"))) [
    | inl b ↦ rw (a, b) refl
    | inr b ↦ rw (a, b) refl
  ]
]

container_env_from_tags-last_value_example :
    container_env_from_tags repeated
    ≡ map (λ k. k ++ (codes "=" ++ get_or (last_value k repeated none) [])) both
container_env_from_tags-last_value_example =
    container_env_from_tags-last_value repeated both both-IsSorted keys_set
