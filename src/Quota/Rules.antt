-- ===== src/Quota/Rules.antt =====
-- internal/domain/policyquota/policy.go: scopes, limits and rules. A nil pointer is `none`; a map from
-- roles is the list of its entries in the order of the iteration.
use kube_queue.Common.{ℕ, Bool, Text, Option, List, ℤ}

-- `unknown_scope` is any other text.
pub data ScopeKind : Type 0 where
  installation project_scope namespace_scope unknown_scope : ScopeKind

pub record Scope : Type 0 where
  pub kind : ScopeKind
  pub project : Text
  pub namespace : Text

pub record PolicyRef : Type 0 where
  pub id : Text
  pub version : ℕ
  pub scope : Scope

pub data LifecycleAction : Type 0 where
  pause resume cancel retry reorder : LifecycleAction
  unknown_action : Text → LifecycleAction

pub record PriorityRange : Type 0 where
  pub min : ℤ
  pub max : ℤ
  pub default : ℤ

pub record ScopedLimits : Type 0 where
  pub max_concurrent : Option ℕ
  pub max_queued : Option ℕ
  pub max_retained : Option ℕ

pub record QuotaLimits : Type 0 where
  pub global : ScopedLimits
  pub project : ScopedLimits
  pub namespace : ScopedLimits

abbrev pub RoleActions : Type 0
RoleActions = List (Text × List LifecycleAction)

pub record Rules : Type 0 where
  pub quotas : QuotaLimits
  pub priority : Option PriorityRange
  pub max_delayed_start : Option ℤ
  pub role_lifecycle_actions : RoleActions
  pub max_execution_duration : Option ℤ
  pub allowed_image_registries : List Text
  pub has_image_registry_allowlist : Bool

pub record Policy : Type 0 where
  pub ref : PolicyRef
  pub rules : Rules

pub record EffectivePolicy : Type 0 where
  pub applied : List PolicyRef
  pub rules : Rules
