-- ===== src/Quota/Reservation/Limits.antt =====
-- The limits of a policy as one relation on usage, and what the loop over the nine checks decides.
use kube_queue.Common.{ℕ, ◌+◌, ◌≤◌, ◌<◌, ◌^◌, ◌≡◌, ◌↔◌, Option, none, List, [], ◌∷◌, All, arith}
use kube_queue.Quota.Counters.{Counters, Usage}
use kube_queue.Quota.Counters.Laws.{◌⊞◌, UsageInRange}
use kube_queue.Quota.Rules.{ScopedLimits, QuotaLimits, PolicyRef, EffectivePolicy}
use kube_queue.Quota.Reservation.{
  QuotaCheck, limit_value, quota_checks, first_failing, first_rejection,
}

-- A missing limit is 0.
abbrev pub CountersWithin : ScopedLimits → Counters → Type 0
CountersWithin l c =
    (c.concurrent ≤ limit_value l.max_concurrent)
    × (c.queued ≤ limit_value l.max_queued)
    × (c.retained ≤ limit_value l.max_retained)

abbrev pub Within : QuotaLimits → Usage → Type 0
Within l u =
    CountersWithin l.global u.global
    × CountersWithin l.project u.project
    × CountersWithin l.namespace u.namespace

abbrev Fits : QuotaCheck → Type 0
Fits check = check.current + check.demand ≤ check.limit

first_failing_iff :
    (ref : PolicyRef) (checks : List QuotaCheck)
    → (first_failing ref checks ≡ none) ↔ All Fits checks
unfolding first_failing
first_failing_iff ref [] = ground arith
first_failing_iff ref (check ∷ checks) = ground (arith, first_failing_iff ref checks)

-- Nothing is rejected exactly when the usage with the demand added is within all nine limits.
pub first_rejection_iff :
    (ref : PolicyRef) (policy : EffectivePolicy) (usage demand : Usage)
    → (first_rejection ref policy usage demand ≡ none) ↔ Within policy.rules.quotas (usage ⊞ demand)
unfolding first_rejection
first_rejection_iff ref policy usage demand =
    let checks = first_failing_iff ref (quota_checks ref.scope policy.rules.quotas usage demand) in
    (λ e. omega (arith, checks.0 e), λ w. checks.1 (omega arith))

-- The limits are uint64.
abbrev LimitInRange : Option ℕ → Type 0
LimitInRange l = limit_value l < 2 ^ 64

abbrev ScopedInRange : ScopedLimits → Type 0
ScopedInRange l =
    LimitInRange l.max_concurrent × LimitInRange l.max_queued × LimitInRange l.max_retained

abbrev pub LimitsInRange : QuotaLimits → Type 0
LimitsInRange l = ScopedInRange l.global × ScopedInRange l.project × ScopedInRange l.namespace

pub Within-UsageInRange :
    (l : QuotaLimits) (u : Usage) → LimitsInRange l → Within l u → UsageInRange u
Within-UsageInRange l u r w = omega arith
