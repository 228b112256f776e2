-- ===== src/Quota/Counters/Laws.antt =====
-- The exact sums behind the checked ones of quota.go.
use kube_queue.Common.{◌+◌, ◌^◌, ◌≤◌, ◌<◌, ◌≡◌, Result, ok, err, arith, subst}
use kube_queue.Quota.Counters.{
  Counters, Usage, Metric, CounterError, add_counters, release_counters, joined, add, release,
}

-- The specification: componentwise, over unbounded numbers.
infixl 65 ◌⊕◌ ◌⊞◌
abbrev pub ◌⊕◌ : Counters → Counters → Counters
c ⊕ d = record {
  concurrent = c.concurrent + d.concurrent;
  queued = c.queued + d.queued;
  retained = c.retained + d.retained;
}

abbrev pub ◌⊞◌ : Usage → Usage → Usage
u ⊞ v = record {
  global = u.global ⊕ v.global;
  project = u.project ⊕ v.project;
  namespace = u.namespace ⊕ v.namespace;
}

abbrev pub no_usage : Usage
no_usage =
    let none_held : Counters = record { concurrent = 0; queued = 0; retained = 0 } in
    record { global = none_held; project = none_held; namespace = none_held }

-- Every counter is a uint64.
abbrev pub InRange : Counters → Type 0
InRange c = (c.concurrent < 2 ^ 64) × (c.queued < 2 ^ 64) × (c.retained < 2 ^ 64)

abbrev pub UsageInRange : Usage → Type 0
UsageInRange u = InRange u.global × InRange u.project × InRange u.namespace

abbrev pub CountersLe : Counters → Counters → Type 0
CountersLe c d = (c.concurrent ≤ d.concurrent) × (c.queued ≤ d.queued) × (c.retained ≤ d.retained)

abbrev pub UsageLe : Usage → Usage → Type 0
UsageLe u v =
    CountersLe u.global v.global
    × CountersLe u.project v.project
    × CountersLe u.namespace v.namespace

-- What checked sums give: the exact sum where it fits in every counter, an error otherwise.
abbrev pub AddResult : Counters → Counters → Result Metric Counters → Type 0
AddResult c d (ok s) = (s ≡ c ⊕ d) × InRange (c ⊕ d)
AddResult c d (err m) = ¬ InRange (c ⊕ d)

pub add_counters-AddResult :
    (c d : Counters) → InRange c → InRange d → AddResult c d (add_counters c d)
unfolding add_counters
add_counters-AddResult c d h k = ground arith

abbrev pub SubResult : Counters → Counters → Result Metric Counters → Type 0
SubResult c d (ok s) = c ≡ s ⊕ d
SubResult c d (err m) = ¬ CountersLe d c

pub release_counters-SubResult : (c d : Counters) → SubResult c d (release_counters c d)
unfolding release_counters
release_counters-SubResult c d = ground arith

abbrev pub UsageAddResult : Usage → Usage → Result CounterError Usage → Type 0
UsageAddResult u d (ok s) = (s ≡ u ⊞ d) × UsageInRange (u ⊞ d)
UsageAddResult u d (err e) = ¬ UsageInRange (u ⊞ d)

joined-UsageAddResult :
    (u d : Usage) (a b c : Result Metric Counters)
    → AddResult u.global d.global a
    → AddResult u.project d.project b
    → AddResult u.namespace d.namespace c
    → UsageAddResult u d (joined a b c)
joined-UsageAddResult u d (ok a) (ok b) (ok c) h k l = ground arith
joined-UsageAddResult u d (err m) b c h k l = λ r. h r.0
joined-UsageAddResult u d (ok a) (err m) c h k l = λ r. k r.1
joined-UsageAddResult u d (ok a) (ok b) (err m) h k l = λ r. l r.2

-- Adding a demand gives the exact sum where every counter stays a uint64, and an error exactly where
-- one would wrap.
pub add-UsageAddResult :
    (u d : Usage) → UsageInRange u → UsageInRange d → UsageAddResult u d (add u d)
unfolding add
add-UsageAddResult u d h k =
    joined-UsageAddResult u d _ _ _ (add_counters-AddResult u.global d.global h.0 k.0)
      (add_counters-AddResult u.project d.project h.1 k.1)
      (add_counters-AddResult u.namespace d.namespace h.2 k.2)

abbrev pub UsageSubResult : Usage → Usage → Result CounterError Usage → Type 0
UsageSubResult u d (ok s) = u ≡ s ⊞ d
UsageSubResult u d (err e) = ¬ UsageLe d u

joined-UsageSubResult :
    (u d : Usage) (a b c : Result Metric Counters)
    → SubResult u.global d.global a
    → SubResult u.project d.project b
    → SubResult u.namespace d.namespace c
    → UsageSubResult u d (joined a b c)
joined-UsageSubResult u d (ok a) (ok b) (ok c) h k l = ground arith
joined-UsageSubResult u d (err m) b c h k l = λ r. h r.0
joined-UsageSubResult u d (ok a) (err m) c h k l = λ r. k r.1
joined-UsageSubResult u d (ok a) (ok b) (err m) h k l = λ r. l r.2

-- Releasing what is held gives the counters without it, and an error exactly where one would fall
-- below zero.
pub release-UsageSubResult : (u d : Usage) → UsageSubResult u d (release u d)
unfolding release
release-UsageSubResult u d =
    joined-UsageSubResult u d _ _ _ (release_counters-SubResult u.global d.global)
      (release_counters-SubResult u.project d.project)
      (release_counters-SubResult u.namespace d.namespace)

release_counters_sum : (c d : Counters) → release_counters (c ⊕ d) d ≡ ok c
unfolding release_counters
release_counters_sum c d = ground arith

pub release_sum : (u d : Usage) → release (u ⊞ d) d ≡ ok u
unfolding release
release_sum u d = cc (
  release_counters_sum u.global d.global,
  release_counters_sum u.project d.project,
  release_counters_sum u.namespace d.namespace,
)

-- Releasing a demand that was added gives back the usage before.
pub release-add :
    (u d : Usage) {next : Usage}
    → UsageInRange u
    → UsageInRange d
    → add u d ≡ ok next
    → release next d ≡ ok u
release-add u d h k e =
    rw ((subst (UsageAddResult u d) e (add-UsageAddResult u d h k)).0) (release_sum u d)
