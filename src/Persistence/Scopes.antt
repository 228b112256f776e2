-- ===== src/Persistence/Scopes.antt =====
-- internal/adapters/persistence/policies.go: the keys of the scopes in the quota tables.
use kube_queue.Common.{
  Bool, true, not, ◌||◌, Text, is_empty, trim_space, codes, byte_length, itoa, ◌∷◌, ◌++◌,
}
use kube_queue.Quota.Rules.{
  Scope, ScopeKind, installation, project_scope, namespace_scope, unknown_scope,
}

-- lengthPrefixed
unfoldable pub length_prefixed : Text → Text
length_prefixed value = itoa (byte_length value) ++ (b':' ∷ value)

abbrev pub key_of_kind : ScopeKind → Scope → Text
key_of_kind installation scope = codes "I"
key_of_kind project_scope scope = codes "P:" ++ length_prefixed scope.project
key_of_kind namespace_scope scope =
    codes "N:" ++ (length_prefixed scope.project ++ length_prefixed scope.namespace)
key_of_kind unknown_scope scope = codes "I"

-- policyScopeKey
abbrev pub policy_scope_key : Scope → Text
policy_scope_key scope = key_of_kind scope.kind scope

abbrev is_invalid_kind : ScopeKind → Scope → Bool
is_invalid_kind installation scope = not (is_empty scope.project) || not (is_empty scope.namespace)
is_invalid_kind project_scope scope =
    is_empty (trim_space scope.project) || not (is_empty scope.namespace)
is_invalid_kind namespace_scope scope =
    is_empty (trim_space scope.project) || is_empty (trim_space scope.namespace)
is_invalid_kind unknown_scope scope = true

-- validatePolicyScope: whether it returns an error.
abbrev pub is_invalid_scope : Scope → Bool
is_invalid_scope scope = is_invalid_kind scope.kind scope
