-- ===== src/Quota/Policy/Registry.antt =====
-- internal/domain/policyquota/policy.go: image registries.
use kube_queue.Common.{
  is_listed, Bool, true, not, ◌&&◌, ◌||◌, if◌then◌else◌, Text, text_eq, text_lt, is_empty,
  trim_space, codes, has_prefix, has_suffix, contains_text, contains_any, trim_suffix, to_lower,
  before, List, [], ◌∷◌, Result, ok, err,
}
use kube_queue.Quota.Rules.{EffectivePolicy}

pub data RegistryError : Type 0 where
  invalid_registry invalid_reference : Text → RegistryError

-- NormalizeRegistry
unfoldable pub normalize_registry : Text → Result RegistryError Text
normalize_registry registry =
    let value = trim_suffix (to_lower (trim_space registry)) b'.' in
    if is_empty value
      || contains_text value (codes "://")
      || contains_any value (b'/' ∷ b'@' ∷ b' ' ∷ 9 ∷ 13 ∷ 10 ∷ [])
    then err (invalid_registry registry)
    else if has_prefix value (codes ".") || has_suffix value (codes ":")
    then err (invalid_registry registry)
    else ok value

-- RegistryForImage
unfoldable pub registry_for_image : Text → Result RegistryError Text
registry_for_image image =
    let value = trim_space image in
    if is_empty value
      || contains_text value (codes "://")
      || contains_any value (b' ' ∷ 9 ∷ 13 ∷ 10 ∷ [])
    then err (invalid_reference image)
    else if not (contains_text value (codes "/"))
    then ok (codes "docker.io")
    else let first = before value b'/' in
      if not (contains_text first (codes "."))
        && not (contains_text first (codes ":"))
        && not (text_eq (to_lower first) (codes "localhost"))
      then ok (codes "docker.io")
      else normalize_registry first

abbrev pub image_allowed : List Text → Result RegistryError Text → Result RegistryError Bool
image_allowed allowed (err e) = err e
image_allowed allowed (ok registry) = ok (is_listed registry allowed)

-- EffectivePolicy.AllowsImage
unfoldable pub allows_image : EffectivePolicy → Text → Result RegistryError Bool
allows_image policy image =
    if not policy.rules.has_image_registry_allowlist
    then ok true
    else image_allowed policy.rules.allowed_image_registries (registry_for_image image)

-- sortedStrings of the set that collects a list.
unfoldable pub insert_text : Text → List Text → List Text
insert_text s [] = s ∷ []
insert_text s (t ∷ ts) =
    if text_eq s t then t ∷ ts else if text_lt s t then s ∷ t ∷ ts else t ∷ insert_text s ts
