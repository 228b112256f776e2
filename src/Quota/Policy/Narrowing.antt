-- ===== src/Quota/Policy/Narrowing.antt =====
-- internal/domain/policyquota/policy.go: a child's rules are compared with its parent's, then laid
-- over them.
use kube_queue.Common.{
  is_listed, ℕ, Bool, true, false, not, ◌&&◌, ◌||◌, ltb, if◌then◌else◌, Text, List, [], ◌∷◌, Option,
  none, some, ℤ, ltb_ℤ,
}
use kube_queue.Quota.Rules.{
  ScopedLimits, QuotaLimits, PriorityRange, LifecycleAction, RoleActions, Rules,
}
use kube_queue.Quota.Policy.Normalize.{has_action, assign, actions_of}

pub data NarrowingError : Type 0 where
  limit_expands priority_widens delayed_start_expands execution_expands : NarrowingError
  role_expands : Text → NarrowingError
  registries_expand : NarrowingError

-- `field.child != nil && field.parent != nil && *field.child > *field.parent`
abbrev pub limit_expands? : Option ℕ → Option ℕ → Bool
limit_expands? (some p) (some c) = ltb p c
limit_expands? _ _ = false

abbrev pub scoped_expands? : ScopedLimits → ScopedLimits → Bool
scoped_expands? p c =
    limit_expands? p.max_concurrent c.max_concurrent
    || limit_expands? p.max_queued c.max_queued
    || limit_expands? p.max_retained c.max_retained

-- validateQuotaNarrowing: whether it returns an error.
abbrev pub quotas_expand? : QuotaLimits → QuotaLimits → Bool
quotas_expand? p c =
    scoped_expands? p.global c.global
    || scoped_expands? p.project c.project
    || scoped_expands? p.namespace c.namespace

abbrev pub priority_widens? : Option PriorityRange → Option PriorityRange → Bool
priority_widens? (some p) (some c) = ltb_ℤ c.min p.min || ltb_ℤ p.max c.max
priority_widens? _ _ = false

-- expandsDuration
abbrev pub duration_expands? : Option ℤ → Option ℤ → Bool
duration_expands? (some p) (some c) = ltb_ℤ p c
duration_expands? _ _ = false

-- isActionSubset
unfoldable pub is_action_subset : List LifecycleAction → List LifecycleAction → Bool
is_action_subset [] parent = true
is_action_subset (a ∷ child) parent = has_action a parent && is_action_subset child parent

-- isStringSubset
unfoldable pub is_string_subset : List Text → List Text → Bool
is_string_subset [] parent = true
is_string_subset (s ∷ child) parent = is_listed s parent && is_string_subset child parent

-- The two tests on one role of the child: a role absent from the parent adds no action.
abbrev pub role_expands? : Option (List LifecycleAction) → List LifecycleAction → Bool
role_expands? none [] = false
role_expands? none (_ ∷ _) = true
role_expands? (some parent) child = not (is_action_subset child parent)

-- The loop over the child's roles.
unfoldable pub first_expanding : RoleActions → RoleActions → Option NarrowingError
first_expanding parent [] = none
first_expanding parent ((role, actions) ∷ child) =
    if role_expands? (actions_of role parent) actions
    then some (role_expands role)
    else first_expanding parent child

abbrev pub registries_narrowed : Rules → Rules → Option NarrowingError
registries_narrowed p c =
    if c.has_image_registry_allowlist
      && p.has_image_registry_allowlist
      && not (is_string_subset c.allowed_image_registries p.allowed_image_registries)
    then some registries_expand
    else none

-- validateNarrowing; `none` is the nil error.
unfoldable pub validate_narrowing : Rules → Rules → Option NarrowingError
validate_narrowing p c =
    if quotas_expand? p.quotas c.quotas
    then some limit_expands
    else if priority_widens? p.priority c.priority
    then some priority_widens
    else if duration_expands? p.max_delayed_start c.max_delayed_start
    then some delayed_start_expands
    else if duration_expands? p.max_execution_duration c.max_execution_duration
    then some execution_expands
    else elim (first_expanding p.role_lifecycle_actions c.role_lifecycle_actions) [
      | some e ↦ some e
      | none ↦ registries_narrowed p c
    ]

-- A copy of the child's value, where it has one: overlayUint and its like.
abbrev pub over {ℓ} : {A : Type ℓ} → Option A → Option A → Option A
over parent (some c) = some c
over parent none = parent

-- overlayLimits
abbrev pub overlay_limits : ScopedLimits → ScopedLimits → ScopedLimits
overlay_limits p c = record {
  max_concurrent = over p.max_concurrent c.max_concurrent;
  max_queued = over p.max_queued c.max_queued;
  max_retained = over p.max_retained c.max_retained;
}

abbrev pub overlay_quotas : QuotaLimits → QuotaLimits → QuotaLimits
overlay_quotas p c = record {
  global = overlay_limits p.global c.global;
  project = overlay_limits p.project c.project;
  namespace = overlay_limits p.namespace c.namespace;
}

-- The loop that copies the child's roles into the result.
unfoldable pub assign_all : RoleActions → RoleActions → RoleActions
assign_all m [] = m
assign_all m ((role, actions) ∷ child) = assign_all (assign role actions m) child

-- overlay. The map of the parent, which the source changes in place, is not used again.
unfoldable pub overlay : Rules → Rules → Rules
overlay p c = record {
  quotas = overlay_quotas p.quotas c.quotas;
  priority = over p.priority c.priority;
  max_delayed_start = over p.max_delayed_start c.max_delayed_start;
  role_lifecycle_actions = assign_all p.role_lifecycle_actions c.role_lifecycle_actions;
  max_execution_duration = over p.max_execution_duration c.max_execution_duration;
  allowed_image_registries =
      if c.has_image_registry_allowlist
      then c.allowed_image_registries
      else p.allowed_image_registries;
  has_image_registry_allowlist = c.has_image_registry_allowlist || p.has_image_registry_allowlist;
}

abbrev no_limits : ScopedLimits
no_limits = record { max_concurrent = none; max_queued = none; max_retained = none }

-- The zero Rules.
abbrev pub no_rules : Rules
no_rules = record {
  quotas = record { global = no_limits; project = no_limits; namespace = no_limits };
  priority = none;
  max_delayed_start = none;
  role_lifecycle_actions = [];
  max_execution_duration = none;
  allowed_image_registries = [];
  has_image_registry_allowlist = false;
}
