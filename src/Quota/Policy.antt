-- ===== src/Quota/Policy.antt =====
-- internal/domain/policyquota/policy.go: policies of an installation, a project and a namespace
-- combined into the effective policy.
pub mod Registry
pub mod Normalize
pub mod Narrowing
pub mod Refines
pub mod Composition
use kube_queue.Common.{
  ℕ, zero, suc, ◌+◌, Bool, true, false, not, ◌&&◌, ◌||◌, ltb, ◌==◌, if◌then◌else◌, Text, text_eq,
  is_empty, trim_space, codes, length, is_none, List, [], ◌∷◌, ◌++◌, Option, none, some, Result, ok,
  err, ◌>>=◌, ◌>>◌, fail_if,
}
use kube_queue.Quota.Rules.{
  ScopeKind, installation, project_scope, namespace_scope, unknown_scope, Scope, PolicyRef,
  ScopedLimits, QuotaLimits, Rules, Policy, EffectivePolicy,
}
use Normalize.{RulesError, normalize_rules}
use Narrowing.{NarrowingError, validate_narrowing, overlay, no_rules}

pub data PolicyError : Type 0 where
  required id_and_version scope_position scope_names parent_project : PolicyError
  rules : RulesError → PolicyError
  expansion : NarrowingError → PolicyError
  incomplete : PolicyError

-- `index >= len(expected) || ref.Scope.Kind != expected[index]`
abbrev pub is_misplaced : ℕ → ScopeKind → Bool
is_misplaced zero installation = false
is_misplaced (suc zero) project_scope = false
is_misplaced (suc (suc zero)) namespace_scope = false
is_misplaced _ _ = true

-- `parents[1].Scope.Project`, if there are two parents.
abbrev pub parent_project_of : List PolicyRef → Option Text
parent_project_of (_ ∷ p ∷ _) = some p.scope.project
parent_project_of _ = none

abbrev names_other : Option Text → Text → Bool
names_other none project = true
names_other (some parent) project = not (text_eq project parent)

-- The switch on the kind of the scope.
abbrev check_scope : ScopeKind → Scope → List PolicyRef → Result PolicyError (Unit {0})
check_scope installation s parents =
    fail_if (not (is_empty s.project) || not (is_empty s.namespace)) scope_names
check_scope project_scope s parents =
    fail_if (is_empty (trim_space s.project) || not (is_empty s.namespace)) scope_names
check_scope namespace_scope s parents =
    fail_if (is_empty (trim_space s.project) || is_empty (trim_space s.namespace)) scope_names
    >> fail_if (names_other (parent_project_of parents) s.project) parent_project
check_scope unknown_scope s parents = err scope_names

-- validatePolicyRef
unfoldable pub validate_policy_ref : PolicyRef → ℕ → List PolicyRef → Result PolicyError (Unit {0})
validate_policy_ref ref index parents =
    fail_if (is_empty (trim_space ref.id) || ref.version == 0) id_and_version
    >> (fail_if (is_misplaced index ref.scope.kind) scope_position
        >> check_scope ref.scope.kind ref.scope parents)

abbrev is_incomplete_scope : ScopedLimits → Bool
is_incomplete_scope l = is_none l.max_concurrent || is_none l.max_queued || is_none l.max_retained

-- validateComplete: whether it returns an error.
unfoldable pub is_incomplete : Rules → Bool
is_incomplete r =
    is_incomplete_scope r.quotas.global
    || is_incomplete_scope r.quotas.project
    || is_incomplete_scope r.quotas.namespace
    || is_none r.priority
    || is_none r.max_delayed_start
    || is_none r.max_execution_duration

abbrev normalized : Result RulesError Rules → Result PolicyError Rules
normalized (ok r) = ok r
normalized (err e) = err (rules e)

abbrev narrowed : Option NarrowingError → Result PolicyError (Unit {0})
narrowed none = ok tt
narrowed (some e) = err (expansion e)

-- `if index > 0 { validateNarrowing }`
abbrev check_narrowing : ℕ → Rules → Rules → Result PolicyError (Unit {0})
check_narrowing zero parent child = ok tt
check_narrowing (suc _) parent child = narrowed (validate_narrowing parent child)

-- One round of the loop.
unfoldable pub extend : ℕ → EffectivePolicy → Policy → Result PolicyError EffectivePolicy
extend index effective policy = do
  validate_policy_ref policy.ref index effective.applied
  child ← normalized (normalize_rules policy.rules)
  check_narrowing index effective.rules child
  ok (record {
    applied = effective.applied ++ policy.ref ∷ [];
    rules = overlay effective.rules child;
  })

-- The loop of Compose.
unfoldable pub extend_all : ℕ → EffectivePolicy → List Policy → Result PolicyError EffectivePolicy
extend_all index effective [] = ok effective
extend_all index effective (policy ∷ policies) =
    extend index effective policy >>= λ next. extend_all (index + 1) next policies

-- Compose
unfoldable pub compose : List Policy → Result PolicyError EffectivePolicy
compose policies = do
  fail_if (length policies == 0) required
  effective ← extend_all 0 (record { applied = []; rules = no_rules }) policies
  fail_if (is_incomplete effective.rules) incomplete
  ok effective
