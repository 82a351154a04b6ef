-- ===== src/ContainerEnv.antt =====
-- vmdocker/utils/env.go: the container's environment variables, from the tags of a spawn.
pub mod Order
pub mod Settings
mod Samples
use vmdockerv.Base.{
  Bool, Dict, List, Text, [], codes, false, get_or, has_prefix, if◌then◌else◌, insert, is_empty,
  lookup, ltb, map, not, trim_prefix, trim_space, true, ◌++◌, ◌==◌, ◌∷◌,
}
use vmdockerv.Schema.{Tag}

abbrev pub container_env_tag_prefix : Text
container_env_tag_prefix = codes "Container-Env-"

-- One round of the loop that fills `envMap`.
pub add_env_tag : Dict Text → Tag → Dict Text
add_env_tag env_map tag =
    if not (has_prefix tag.name container_env_tag_prefix)
    then env_map
    else let key = trim_space (trim_prefix tag.name container_env_tag_prefix) in
      if is_empty key then env_map else insert key tag.value env_map

pub env_map_of : Dict Text → List Tag → Dict Text
env_map_of env_map [] = env_map
env_map_of env_map (tag ∷ tags) = env_map_of (add_env_tag env_map tag) tags

abbrev pub keys : Dict Text → List Text
keys [] = []
keys ((k, v) ∷ m) = k ∷ keys m

-- `envMap[k]`, which is "" for a missing key.
abbrev pub value_at : Dict Text → Text → Text
value_at m k = get_or (lookup k m) []

-- Go's order on strings.
unfoldable pub text_le : Text → Text → Bool
text_le [] t = true
text_le (c ∷ s) [] = false
text_le (c ∷ s) (d ∷ t) = if c == d then text_le s t else ltb c d

-- sort.Strings
pub insert_sorted : Text → List Text → List Text
insert_sorted k [] = k ∷ []
insert_sorted k (j ∷ ks) = if text_le k j then k ∷ j ∷ ks else j ∷ insert_sorted k ks

pub sort : List Text → List Text
sort [] = []
sort (k ∷ ks) = insert_sorted k (sort ks)

-- The keys in order, each with its value.
pub env_settings : List Tag → List (Text × Text)
env_settings tags =
    let env_map = env_map_of [] tags in map (λ k. (k, value_at env_map k)) (sort (keys env_map))

unfoldable pub container_env_from_tags : List Tag → List Text
unfolding env_settings env_map_of add_env_tag sort insert_sorted text_le
container_env_from_tags tags = map (λ (k, v). k ++ (codes "=" ++ v)) (env_settings tags)
