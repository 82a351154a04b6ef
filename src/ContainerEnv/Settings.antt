-- ===== src/ContainerEnv/Settings.antt =====
-- The variables that the tags set: one for each key, sorted, with the value of the last tag.
use vmdockerv.Base.{
  Bool, Dict, DistinctKeys, List, Option, Text, [], ap, ap₂, arith, codes, false, get_or,
  has_prefix, if◌then◌else◌, insert-DistinctKeys, is_empty, lookup, lookup-insert, ltb, map, none,
  not, refl, some, sym, text_eq, trim_prefix, trim_space, true, ◌&&◌, ◌++◌, ◌==◌, ◌∙◌, ◌∷◌, ◌≡◌,
}
use vmdockerv.ContainerEnv.{
  add_env_tag, container_env_from_tags, container_env_tag_prefix, env_map_of, env_settings, keys,
  sort, text_le, value_at,
}
use vmdockerv.ContainerEnv.Order.{
  AllAbove, IsAscending, IsAscending-unique, IsDistinct, has_text, has_text-sort, sort-IsAscending,
  text_lt,
}
use vmdockerv.Schema.{Tag}

-- The key that a tag sets, if it sets one.
abbrev pub key_of : Tag → Text
key_of tag = trim_space (trim_prefix tag.name container_env_tag_prefix)

abbrev pub sets_key : Text → Tag → Bool
sets_key k tag =
    has_prefix tag.name container_env_tag_prefix
    && (not (is_empty (key_of tag)) && text_eq k (key_of tag))

-- The value of the last tag that sets `k`.
abbrev pub last_value : Text → List Tag → Option Text → Option Text
last_value k [] v = v
last_value k (t ∷ ts) v = last_value k ts (if sets_key k t then some t.value else v)

lookup-env_map_of :
    (k : Text) (m : Dict Text) (ts : List Tag)
    → lookup k (env_map_of m ts) ≡ last_value k ts (lookup k m)
unfolding env_map_of add_env_tag
lookup-env_map_of k m [] = refl
lookup-env_map_of k m (t ∷ ts) =
    lookup-env_map_of k (add_env_tag m t) ts
    ∙ ap (last_value k ts) (ground (arith, lookup-insert (key_of t) k t.value m))

env_map_of-DistinctKeys :
    (m : Dict Text) (ts : List Tag) → DistinctKeys m → DistinctKeys (env_map_of m ts)
unfolding env_map_of add_env_tag
env_map_of-DistinctKeys m [] h = h
env_map_of-DistinctKeys m (t ∷ ts) h =
    env_map_of-DistinctKeys (add_env_tag m t) ts
      (ground (arith, insert-DistinctKeys (key_of t) t.value m h))

abbrev pub is_some : Option Text → Bool
is_some none = false
is_some (some v) = true

has_text-keys : (k : Text) (m : Dict Text) → has_text k (keys m) ≡ is_some (lookup k m)
unfolding lookup
has_text-keys k [] = refl
has_text-keys k ((j, v) ∷ m) = ground (arith, has_text-keys k m)

keys-IsDistinct : (m : Dict Text) → DistinctKeys m → IsDistinct (keys m)
keys-IsDistinct [] h = tt
keys-IsDistinct ((j, v) ∷ m) h = (has_text-keys j m ∙ ap is_some h.0, keys-IsDistinct m h.1)

abbrev with_values : Dict Text → List Text → Dict Text
with_values m ks = map (λ k. (k, value_at m k)) ks

keys-with_values : (m : Dict Text) (ks : List Text) → keys (with_values m ks) ≡ ks
keys-with_values m [] = refl
keys-with_values m (k ∷ ks) = ap (◌∷◌ k) (keys-with_values m ks)

lookup-with_values :
    (k : Text) (m : Dict Text) (ks : List Text)
    → lookup k (with_values m ks) ≡ (if has_text k ks then some (value_at m k) else none)
unfolding lookup
lookup-with_values k m [] = refl
lookup-with_values k m (j ∷ ks) = ground (arith, lookup-with_values k m ks)

-- The settings stand in strictly ascending order of their keys, so no key stands twice.
pub env_settings-IsAscending : (ts : List Tag) → IsAscending (keys (env_settings ts))
unfolding env_settings
env_settings-IsAscending ts =
    rw (keys-with_values (env_map_of [] ts) (sort (keys (env_map_of [] ts)))) (
      sort-IsAscending (keys (env_map_of [] ts))
        (keys-IsDistinct (env_map_of [] ts) (env_map_of-DistinctKeys [] ts tt)))

-- A key is set exactly when some tag sets it, and then to the value of the last such tag.
pub lookup-env_settings :
    (k : Text) (ts : List Tag) → lookup k (env_settings ts) ≡ last_value k ts none
unfolding env_settings lookup
lookup-env_settings k ts = ground (
  arith,
  lookup-with_values k (env_map_of [] ts) (sort (keys (env_map_of [] ts))),
  has_text-sort k (keys (env_map_of [] ts)),
  has_text-keys k (env_map_of [] ts),
  lookup-env_map_of k [] ts,
)

lookup-env_map : (k : Text) (ts : List Tag) → lookup k (env_map_of [] ts) ≡ last_value k ts none
unfolding lookup
lookup-env_map k ts = lookup-env_map_of k [] ts

-- `KEY=VALUE`.
abbrev pub entry_of : Text → Text → Text
entry_of k v = k ++ (codes "=" ++ v)

entries-with_values :
    (m : Dict Text) (ts : List Tag) (ks : List Text)
    → ((k : Text) → lookup k m ≡ last_value k ts none)
    → map (λ (k, v). entry_of k v) (with_values m ks)
      ≡ map (λ k. entry_of k (get_or (last_value k ts none) [])) ks
entries-with_values m ts [] h = refl
entries-with_values m ts (k ∷ ks) h =
    ap₂ ◌∷◌ (ap (λ v. entry_of k (get_or v [])) (h k)) (entries-with_values m ts ks h)

sorted_keys :
    (ts : List Tag) (ks : List Text)
    → IsAscending ks
    → ((k : Text) → has_text k ks ≡ is_some (last_value k ts none))
    → sort (keys (env_map_of [] ts)) ≡ ks
sorted_keys ts ks a h =
    IsAscending-unique (sort (keys (env_map_of [] ts))) ks
      (sort-IsAscending (keys (env_map_of [] ts))
        (keys-IsDistinct (env_map_of [] ts) (env_map_of-DistinctKeys [] ts tt)))
      a
      λ k.
        has_text-sort k (keys (env_map_of [] ts))
        ∙ has_text-keys k (env_map_of [] ts)
        ∙ ap is_some (lookup-env_map k ts)
        ∙ sym (h k)

-- A proper prefix comes first, and otherwise the first difference decides.
abbrev pub is_before : Text → Text → Bool
is_before s [] = false
is_before [] (d ∷ t) = true
is_before (c ∷ s) (d ∷ t) = if c == d then is_before s t else ltb c d

-- Every text is before all that follow.
abbrev pub AllAfter : Text → List Text → Type 0
AllAfter k [] = Unit
AllAfter k (j ∷ ks) = (is_before k j ≡ true) × AllAfter k ks

abbrev pub IsSorted : List Text → Type 0
IsSorted [] = Unit
IsSorted (k ∷ ks) = AllAfter k ks × IsSorted ks

is_before-text_lt : (s t : Text) → is_before s t ≡ true → text_lt s t ≡ true
unfolding text_le
is_before-text_lt [] [] h = ground arith
is_before-text_lt (c ∷ s) [] h = ground arith
is_before-text_lt [] (d ∷ t) h = ground arith
is_before-text_lt (c ∷ s) (d ∷ t) h = ground (arith, is_before-text_lt s t)

AllAfter-AllAbove : (k : Text) (ks : List Text) → AllAfter k ks → AllAbove k ks
AllAfter-AllAbove k [] h = tt
AllAfter-AllAbove k (j ∷ ks) h = (is_before-text_lt k j h.0, AllAfter-AllAbove k ks h.1)

IsSorted-IsAscending : (ks : List Text) → IsSorted ks → IsAscending ks
IsSorted-IsAscending [] h = tt
IsSorted-IsAscending (k ∷ ks) h = (AllAfter-AllAbove k ks h.0, IsSorted-IsAscending ks h.1)

-- The environment has one entry KEY=VALUE for each key that some tag sets, with the value of the last
-- such tag, in ascending order of the keys. The keys are given as any strictly ascending list of them,
-- so the environment depends on the keys' last values alone.
pub container_env_from_tags-last_value :
    (ts : List Tag) (ks : List Text)
    → IsSorted ks
    → ((k : Text) → has_text k ks ≡ is_some (last_value k ts none))
    → container_env_from_tags ts
      ≡ map (λ k. k ++ (codes "=" ++ get_or (last_value k ts none) [])) ks
unfolding container_env_from_tags env_settings
container_env_from_tags-last_value ts ks a h =
    ap (λ l. map (λ (k, v). k ++ (codes "=" ++ v)) (with_values (env_map_of [] ts) l))
      (sorted_keys ts ks (IsSorted-IsAscending ks a) h)
    ∙ entries-with_values (env_map_of [] ts) ts ks (λ k. lookup-env_map k ts)
