-- ===== src/Quota/Policy/Refines/Laying.antt =====
-- Refinement is an order, and rules laid over their parent refine both.
use kube_queue.Common.{
  ℕ, ◌≡◌, refl, false, Text, text_eq, text_eq_iff, Option, none, some, List, [], ◌∷◌, ℤ, arith,
  Bool-cases, inl, inr,
}
use kube_queue.Quota.Rules.{
  ScopedLimits, QuotaLimits, PriorityRange, LifecycleAction, RoleActions, Rules,
}
use kube_queue.Quota.Policy.Normalize.{actions_of}
use kube_queue.Quota.Policy.Narrowing.{
  limit_expands?, scoped_expands?, quotas_expand?, priority_widens?, duration_expands?,
  role_expands?, first_expanding, registries_narrowed, validate_narrowing, over, overlay_limits,
  no_rules, overlay_quotas, overlay,
}
use kube_queue.Quota.Policy.Refines.{
  LimitLe, DurationLe, PriorityLe, RoleLe, ScopedLe, QuotasLe, RegistriesLe, Refines,
}
use kube_queue.Quota.Policy.Refines.Sets.{
  is_string_subset_trans, is_string_subset_refl, is_action_subset_trans, is_action_subset_refl,
  IsMap, actions_of-assign_all,
}

LimitLe-trans : (a b c : Option ℕ) → LimitLe a b → LimitLe b c → LimitLe a c
LimitLe-trans a b none h k = tt
LimitLe-trans a none (some n) h k = absurd k
LimitLe-trans none (some m) (some n) h k = absurd h
LimitLe-trans (some l) (some m) (some n) h k = omega arith

DurationLe-trans : (a b c : Option ℤ) → DurationLe a b → DurationLe b c → DurationLe a c
DurationLe-trans a b none h k = tt
DurationLe-trans a none (some n) h k = absurd k
DurationLe-trans none (some m) (some n) h k = absurd h
DurationLe-trans (some l) (some m) (some n) h k = omega arith

PriorityLe-trans : (a b c : Option PriorityRange) → PriorityLe a b → PriorityLe b c → PriorityLe a c
PriorityLe-trans a b none h k = tt
PriorityLe-trans a none (some n) h k = absurd k
PriorityLe-trans none (some m) (some n) h k = absurd h
PriorityLe-trans (some l) (some m) (some n) h k = omega arith

RoleLe-trans : (a b c : Option (List LifecycleAction)) → RoleLe a b → RoleLe b c → RoleLe a c
RoleLe-trans a b none h k = tt
RoleLe-trans a none (some n) h k = absurd k
RoleLe-trans none (some m) (some n) h k = absurd h
RoleLe-trans (some l) (some m) (some n) h k = is_action_subset_trans l m n h k

ScopedLe-trans : (a b c : ScopedLimits) → ScopedLe a b → ScopedLe b c → ScopedLe a c
ScopedLe-trans a b c h k = (
  LimitLe-trans a.max_concurrent b.max_concurrent c.max_concurrent h.0 k.0,
  LimitLe-trans a.max_queued b.max_queued c.max_queued h.1 k.1,
  LimitLe-trans a.max_retained b.max_retained c.max_retained h.2 k.2,
)

pub Refines-trans : (a b c : Rules) → Refines a b → Refines b c → Refines a c
Refines-trans a b c h k = record {
  quotas = (
    ScopedLe-trans a.quotas.global b.quotas.global c.quotas.global h.quotas.0 k.quotas.0,
    ScopedLe-trans a.quotas.project b.quotas.project c.quotas.project h.quotas.1 k.quotas.1,
    ScopedLe-trans a.quotas.namespace b.quotas.namespace c.quotas.namespace h.quotas.2 k.quotas.2,
  );
  priority = PriorityLe-trans a.priority b.priority c.priority h.priority k.priority;
  delayed_start =
      DurationLe-trans a.max_delayed_start b.max_delayed_start c.max_delayed_start h.delayed_start
        k.delayed_start;
  execution =
      DurationLe-trans a.max_execution_duration b.max_execution_duration c.max_execution_duration
        h.execution k.execution;
  roles = λ role.
      RoleLe-trans (actions_of role a.role_lifecycle_actions)
        (actions_of role b.role_lifecycle_actions) (actions_of role c.role_lifecycle_actions)
        (h.roles role) (k.roles role);
  registries = λ has.
      let (hold, sub) = k.registries has in
      let (hold', sub') = h.registries hold in (hold', is_string_subset_trans _ _ _ sub' sub);
}

LimitLe-refl : (a : Option ℕ) → LimitLe a a
LimitLe-refl none = tt
LimitLe-refl (some n) = omega arith

DurationLe-refl : (a : Option ℤ) → DurationLe a a
DurationLe-refl none = tt
DurationLe-refl (some d) = omega arith

PriorityLe-refl : (a : Option PriorityRange) → PriorityLe a a
PriorityLe-refl none = tt
PriorityLe-refl (some p) = omega arith

RoleLe-refl : (a : Option (List LifecycleAction)) → RoleLe a a
RoleLe-refl none = tt
RoleLe-refl (some old) = is_action_subset_refl old

ScopedLe-refl : (a : ScopedLimits) → ScopedLe a a
ScopedLe-refl a =
    (LimitLe-refl a.max_concurrent, LimitLe-refl a.max_queued, LimitLe-refl a.max_retained)

pub Refines-refl : (a : Rules) → Refines a a
Refines-refl a = record {
  quotas = (
    ScopedLe-refl a.quotas.global,
    ScopedLe-refl a.quotas.project,
    ScopedLe-refl a.quotas.namespace,
  );
  priority = PriorityLe-refl a.priority;
  delayed_start = DurationLe-refl a.max_delayed_start;
  execution = DurationLe-refl a.max_execution_duration;
  roles = λ role. RoleLe-refl (actions_of role a.role_lifecycle_actions);
  registries = λ has. (has, is_string_subset_refl a.allowed_image_registries);
}

-- Laid over a parent, an explicit value counts; where it does not expand, it refines the parent.
over-LimitLe :
    (p c : Option ℕ) → limit_expands? p c ≡ false → LimitLe (over p c) p × LimitLe (over p c) c
over-LimitLe none none h = (tt, tt)
over-LimitLe none (some c) h = (tt, omega arith)
over-LimitLe (some p) none h = (omega arith, tt)
over-LimitLe (some p) (some c) h = ground arith

over-DurationLe :
    (p c : Option ℤ)
    → duration_expands? p c ≡ false
    → DurationLe (over p c) p × DurationLe (over p c) c
over-DurationLe none none h = (tt, tt)
over-DurationLe none (some c) h = (tt, omega arith)
over-DurationLe (some p) none h = (omega arith, tt)
over-DurationLe (some p) (some c) h = ground arith

over-PriorityLe :
    (p c : Option PriorityRange)
    → priority_widens? p c ≡ false
    → PriorityLe (over p c) p × PriorityLe (over p c) c
over-PriorityLe none none h = (tt, tt)
over-PriorityLe none (some c) h = (tt, omega arith)
over-PriorityLe (some p) none h = (omega arith, tt)
over-PriorityLe (some p) (some c) h = ground arith

overlay_limits-ScopedLe :
    (p c : ScopedLimits)
    → scoped_expands? p c ≡ false
    → ScopedLe (overlay_limits p c) p × ScopedLe (overlay_limits p c) c
overlay_limits-ScopedLe p c h = ground (
  arith,
  over-LimitLe p.max_concurrent c.max_concurrent,
  over-LimitLe p.max_queued c.max_queued,
  over-LimitLe p.max_retained c.max_retained,
)

first_expanding-role :
    (parent child : RoleActions) (role : Text) (actions : List LifecycleAction)
    → first_expanding parent child ≡ none
    → actions_of role child ≡ some actions
    → role_expands? (actions_of role parent) actions ≡ false
unfolding first_expanding actions_of
first_expanding-role parent [] role actions h k = cc
first_expanding-role parent ((r, acts) ∷ child) role actions h k =
    elim (Bool-cases (text_eq r role)) [
      | inl same ↦ ground (arith, (text_eq_iff r role).0 same)
      | inr other ↦ first_expanding-role parent child role actions (ground arith) (rw other at k)
    ]

over-RoleLe :
    (p c : Option (List LifecycleAction))
    → ((actions : List LifecycleAction) → c ≡ some actions → role_expands? p actions ≡ false)
    → RoleLe (over p c) p × RoleLe (over p c) c
over-RoleLe none none h = (tt, tt)
over-RoleLe (some p) none h = (is_action_subset_refl p, tt)
over-RoleLe none (some c) h = (tt, is_action_subset_refl c)
over-RoleLe (some p) (some c) h = (ground (arith, h c refl), is_action_subset_refl c)

-- The tests of validateNarrowing, where it returns no error.
record Narrows (p c : Rules) : Type 0 where
  quotas : quotas_expand? p.quotas c.quotas ≡ false
  priority : priority_widens? p.priority c.priority ≡ false
  delayed_start : duration_expands? p.max_delayed_start c.max_delayed_start ≡ false
  execution : duration_expands? p.max_execution_duration c.max_execution_duration ≡ false
  roles : first_expanding p.role_lifecycle_actions c.role_lifecycle_actions ≡ none
  registries : registries_narrowed p c ≡ none

validate_narrowing-Narrows : (p c : Rules) → validate_narrowing p c ≡ none → Narrows p c
unfolding validate_narrowing
validate_narrowing-Narrows p c h = ground arith

overlay-quotas :
    (p c : QuotaLimits)
    → quotas_expand? p c ≡ false
    → QuotasLe (overlay_quotas p c) p × QuotasLe (overlay_quotas p c) c
overlay-quotas p c h =
    let g = overlay_limits-ScopedLe p.global c.global (ground arith) in
    let k = overlay_limits-ScopedLe p.project c.project (ground arith) in
    let n = overlay_limits-ScopedLe p.namespace c.namespace (ground arith) in
    ((g.0, k.0, n.0), (g.1, k.1, n.1))

overlay-roles :
    (p c : Rules) (role : Text)
    → Narrows p c
    → IsMap c.role_lifecycle_actions
    → RoleLe
        (actions_of role (overlay p c).role_lifecycle_actions)
        (actions_of role p.role_lifecycle_actions)
      × RoleLe
          (actions_of role (overlay p c).role_lifecycle_actions)
          (actions_of role c.role_lifecycle_actions)
unfolding overlay
overlay-roles p c role h m =
    rw (actions_of-assign_all role p.role_lifecycle_actions c.role_lifecycle_actions m) (
      over-RoleLe _ _ λ actions e.
        first_expanding-role p.role_lifecycle_actions c.role_lifecycle_actions role actions h.roles
          e)

overlay-registries :
    (p c : Rules)
    → registries_narrowed p c ≡ none
    → RegistriesLe
        (overlay p c).has_image_registry_allowlist
        (overlay p c).allowed_image_registries
        p.has_image_registry_allowlist
        p.allowed_image_registries
      × RegistriesLe
          (overlay p c).has_image_registry_allowlist
          (overlay p c).allowed_image_registries
          c.has_image_registry_allowlist
          c.allowed_image_registries
unfolding overlay
overlay-registries p c h = ground (
  arith,
  is_string_subset_refl c.allowed_image_registries,
  is_string_subset_refl p.allowed_image_registries,
)

-- Rules that pass validateNarrowing, laid over their parent, refine the parent and themselves.
pub overlay-Refines :
    (p c : Rules)
    → validate_narrowing p c ≡ none
    → IsMap c.role_lifecycle_actions
    → Refines (overlay p c) p × Refines (overlay p c) c
unfolding overlay
overlay-Refines p c h m =
    let n = validate_narrowing-Narrows p c h in
    let quotas = overlay-quotas p.quotas c.quotas n.quotas in
    let priority = over-PriorityLe p.priority c.priority n.priority in
    let start = over-DurationLe p.max_delayed_start c.max_delayed_start n.delayed_start in
    let execution = over-DurationLe p.max_execution_duration c.max_execution_duration n.execution in
    let registries = overlay-registries p c n.registries in
    (
      record {
        quotas = quotas.0;
        priority = priority.0;
        delayed_start = start.0;
        execution = execution.0;
        roles = λ role. (overlay-roles p c role n m).0;
        registries = registries.0;
      },
      record {
        quotas = quotas.1;
        priority = priority.1;
        delayed_start = start.1;
        execution = execution.1;
        roles = λ role. (overlay-roles p c role n m).1;
        registries = registries.1;
      },
    )

-- Everything refines the zero rules.
pub Refines-nothing : (e : Rules) → Refines e no_rules
unfolding actions_of
Refines-nothing e = record {
  quotas = omega arith;
  priority = tt;
  delayed_start = tt;
  execution = tt;
  roles = λ role. tt;
  registries = λ h. cc;
}

first_role :
    (role : Text) (c : Option (List LifecycleAction)) → RoleLe (over (actions_of role []) c) c
unfolding actions_of
first_role role none = tt
first_role role (some c) = is_action_subset_refl c

-- The first rules, which are laid over the zero rules, are refined by the result.
pub overlay_first : (c : Rules) → IsMap c.role_lifecycle_actions → Refines (overlay no_rules c) c
unfolding overlay
overlay_first c m = record {
  quotas = (overlay-quotas no_rules.quotas c.quotas refl).1;
  priority = (over-PriorityLe none c.priority refl).1;
  delayed_start = (over-DurationLe none c.max_delayed_start refl).1;
  execution = (over-DurationLe none c.max_execution_duration refl).1;
  roles = λ role.
      rw (actions_of-assign_all role [] c.role_lifecycle_actions m)
        (first_role role (actions_of role c.role_lifecycle_actions));
  registries = (overlay-registries no_rules c (ground arith)).1;
}
