-- ===== src/RuntimeSpecs/Accepted.antt =====
-- Which tags are accepted, and what the accepted specification holds.
use vmdockerv.Base.{
  Bool, List, Text, [], arith, codes, false, if◌then◌else◌, is_ok, not, ok, refl, reverse,
  reverse-cons, text_eq, ◌&&◌, ◌++◌, ◌||◌, ◌∷◌, ◌≡◌, ◌≢◌,
}
use vmdockerv.RuntimeSpecs.{
  check_module_format, find_backend, runtime_backend_from_tags,
  runtime_spec_from_module_and_spawn_tags,
}
use vmdockerv.Schema.{
  RuntimeSpec, Tag, image_archive_container_tar_gz, image_archive_docker_save_gz, image_archive_tag,
  image_id_tag, image_name_tag, image_source_module_data, image_source_tag, module_format,
  runtime_backend_docker, runtime_backend_sandbox, runtime_backend_tag,
}

-- The value of the last `Runtime-Backend` tag, or `b` where there is none.
abbrev pub last_backend : List Tag → Text → Text
last_backend [] b = b
last_backend (t ∷ ts) b =
    last_backend ts (if text_eq t.name runtime_backend_tag then t.value else b)

abbrev has_backend : List Tag → Bool
has_backend [] = false
has_backend (t ∷ ts) = text_eq t.name runtime_backend_tag || has_backend ts

has_backend-snoc :
    (ts : List Tag) (t : Tag)
    → has_backend (ts ++ t ∷ []) ≡ (has_backend ts || text_eq t.name runtime_backend_tag)
has_backend-snoc [] t = ground arith
has_backend-snoc (u ∷ ts) t = ground (arith, has_backend-snoc ts t)

has_backend-reverse : (ts : List Tag) → has_backend (reverse ts) ≡ has_backend ts
has_backend-reverse [] = refl
has_backend-reverse (t ∷ ts) =
    rw (reverse-cons t ts) (ground (arith, has_backend-snoc (reverse ts) t, has_backend-reverse ts))

find_backend-snoc :
    (ts : List Tag) (t : Tag)
    → find_backend (ts ++ t ∷ []) ≡ (
        if has_backend ts
        then find_backend ts
        else if text_eq t.name runtime_backend_tag
        then t.value
        else [])
unfolding find_backend
find_backend-snoc [] t = refl
find_backend-snoc (u ∷ ts) t = ground (arith, find_backend-snoc ts t)

last_backend-find_backend :
    (ts : List Tag) (b : Text)
    → last_backend ts b ≡ (if has_backend ts then find_backend (reverse ts) else b)
last_backend-find_backend [] b = refl
last_backend-find_backend (t ∷ ts) b = rw (reverse-cons t ts) (
    ground (
      arith,
      last_backend-find_backend ts (if text_eq t.name runtime_backend_tag then t.value else b),
      find_backend-snoc (reverse ts) t,
      has_backend-reverse ts,
    ))

find_backend-absent : (ts : List Tag) → has_backend ts ≡ false → find_backend ts ≡ []
unfolding find_backend
find_backend-absent [] h = refl
find_backend-absent (t ∷ ts) h = ground (arith, find_backend-absent ts)

runtime_backend_from_tags-last_backend :
    (ts : List Tag) → runtime_backend_from_tags ts ≡ last_backend ts []
unfolding runtime_backend_from_tags
runtime_backend_from_tags-last_backend ts = ground (
  arith,
  last_backend-find_backend ts [],
  find_backend-absent (reverse ts),
  has_backend-reverse ts,
)

abbrev pub is_backend : Text → Bool
is_backend b =
    text_eq b [] || (text_eq b runtime_backend_docker || text_eq b runtime_backend_sandbox)

module _ (get_tags_value_by_default : Text → List Tag → Text → Text) where
  abbrev value_of : List Tag → Text → Text
  value_of tags name = get_tags_value_by_default name tags []

  -- What the tags of a module must say.
  abbrev pub is_module : List Tag → Bool
  is_module tags =
      text_eq (value_of tags (codes "Build-Type")) []
      && (not (text_eq (value_of tags image_name_tag) [])
          && (not (text_eq (value_of tags image_id_tag) [])
              && (text_eq (value_of tags image_source_tag) image_source_module_data
                  && (text_eq (value_of tags image_archive_tag) image_archive_docker_save_gz
                      || text_eq (value_of tags image_archive_tag)
                          image_archive_container_tar_gz))))

  -- `CheckModuleFormat` accepts exactly the modules of the one format whose tags name an image, with
  -- its id, in the module's data, in one of the two archive formats, and no build.
  pub check_module_format-is_module :
      (format : Text) (tags : List Tag)
      → is_ok (check_module_format get_tags_value_by_default format tags)
        ≡ (text_eq format module_format && is_module tags)
  unfolding check_module_format
  check_module_format-is_module format tags = ground arith

  -- A spawn's specification is accepted exactly when the module is, and the last `Runtime-Backend` tag
  -- of the spawn, if any, is empty or names one of the two backends.
  pub runtime_spec-accepted :
      (format : Text) (tags spawn : List Tag)
      → is_ok (runtime_spec_from_module_and_spawn_tags get_tags_value_by_default format tags spawn)
        ≡ (text_eq format module_format && (is_module tags && is_backend (last_backend spawn [])))
  unfolding runtime_spec_from_module_and_spawn_tags
  runtime_spec-accepted format tags spawn =
      ground (arith, runtime_backend_from_tags-last_backend spawn)

  -- An accepted specification has the backend of the last `Runtime-Backend` tag of the spawn, and the
  -- image of the module's tags, with its name and ID, which are not empty, its source, which is the
  -- module's data, and its archive format; it names no workspace.
  pub runtime_spec-ok :
      (format : Text) (tags spawn : List Tag) (spec : RuntimeSpec)
      → runtime_spec_from_module_and_spawn_tags get_tags_value_by_default format tags spawn
        ≡ ok spec
      → (spec.backend ≡ last_backend spawn [])
        × (spec.image.name ≡ value_of tags image_name_tag)
        × (spec.image.name ≢ [])
        × (spec.image.sha ≡ value_of tags image_id_tag)
        × (spec.image.sha ≢ [])
        × (spec.image.source ≡ image_source_module_data)
        × (spec.image.archive_format ≡ value_of tags image_archive_tag)
        × (spec.sandbox.workspace ≡ [])
  unfolding runtime_spec_from_module_and_spawn_tags
  runtime_spec-ok format tags spawn spec h =
      ground (arith, runtime_backend_from_tags-last_backend spawn)
