-- ===== src/Quota/Policy/Refines.antt =====
-- When one set of rules is at least as restrictive as another: a limit, a duration and a priority
-- range may only shrink, a role that is named keeps a subset of its actions, and an allowlist keeps a
-- subset of its registries.
pub mod Sets
pub mod Laying
use kube_queue.Common.{ℕ, ◌≤◌, ◌≡◌, true, false, Bool, Text, Option, none, some, List, ℤ, ◌≤ℤ◌}
use kube_queue.Quota.Rules.{
  ScopedLimits, QuotaLimits, PriorityRange, LifecycleAction, RoleActions, Rules,
}
use kube_queue.Quota.Policy.Normalize.{actions_of}
use kube_queue.Quota.Policy.Narrowing.{is_action_subset, is_string_subset}

-- A rule that is not set asks for nothing.
abbrev pub LimitLe : Option ℕ → Option ℕ → Type 0
LimitLe e none = Unit {0}
LimitLe none (some n) = ⊥
LimitLe (some m) (some n) = m ≤ n

abbrev pub DurationLe : Option ℤ → Option ℤ → Type 0
DurationLe e none = Unit {0}
DurationLe none (some d) = ⊥
DurationLe (some c) (some d) = c ≤ℤ d

abbrev pub PriorityLe : Option PriorityRange → Option PriorityRange → Type 0
PriorityLe e none = Unit {0}
PriorityLe none (some p) = ⊥
PriorityLe (some e) (some p) = (p.min ≤ℤ e.min) × (e.max ≤ℤ p.max)

abbrev pub RoleLe : Option (List LifecycleAction) → Option (List LifecycleAction) → Type 0
RoleLe e none = Unit {0}
RoleLe none (some old) = ⊥
RoleLe (some bs) (some old) = is_action_subset bs old ≡ true

abbrev pub ScopedLe : ScopedLimits → ScopedLimits → Type 0
ScopedLe e p =
    LimitLe e.max_concurrent p.max_concurrent
    × LimitLe e.max_queued p.max_queued
    × LimitLe e.max_retained p.max_retained

abbrev pub QuotasLe : QuotaLimits → QuotaLimits → Type 0
QuotasLe e p =
    ScopedLe e.global p.global × ScopedLe e.project p.project × ScopedLe e.namespace p.namespace

abbrev pub RegistriesLe : Bool → List Text → Bool → List Text → Type 0
RegistriesLe has allowed has' allowed' =
    has' ≡ true → (has ≡ true) × (is_string_subset allowed allowed' ≡ true)

pub record Refines (e p : Rules) : Type 0 where
  pub quotas : QuotasLe e.quotas p.quotas
  pub priority : PriorityLe e.priority p.priority
  pub delayed_start : DurationLe e.max_delayed_start p.max_delayed_start
  pub execution : DurationLe e.max_execution_duration p.max_execution_duration
  pub roles :
      (role : Text)
      → RoleLe (actions_of role e.role_lifecycle_actions) (actions_of role p.role_lifecycle_actions)
  pub registries :
      RegistriesLe e.has_image_registry_allowlist e.allowed_image_registries
        p.has_image_registry_allowlist p.allowed_image_registries
