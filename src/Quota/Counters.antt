-- ===== src/Quota/Counters.antt =====
-- internal/domain/policyquota/quota.go: counters of uint64 and their checked sums.
pub mod Laws
use kube_queue.Common.{
  ℕ, ◌+◌, ◌-◌, ◌%◌, ◌^◌, ◌≤◌, ◌<◌, Bool, true, false, not, ◌≡◌, ◌≢◌, ◌↔◌, refl, ltb, leb,
  if◌then◌else◌, Result, ok, err, ◌>>=◌, arith, subst,
}

pub record Counters : Type 0 where
  pub concurrent : ℕ
  pub queued : ℕ
  pub retained : ℕ

pub record Usage : Type 0 where
  pub global : Counters
  pub project : Counters
  pub namespace : Counters

-- Which counter an error names, and of which level.
pub data Metric : Type 0 where
  concurrency queued_jobs retained_jobs : Metric

pub data Level : Type 0 where
  global_level project_level namespace_level : Level

-- The errors that name an overflow or an underflow.
pub record CounterError : Type 0 where
  pub level : Level
  pub metric : Metric

abbrev pub u64 : ℕ → ℕ
u64 n = n % 2 ^ 64

-- checkedAdd: the wrapped sum, and whether it did not wrap.
abbrev pub checked_add : ℕ → ℕ → ℕ × Bool
checked_add left right = (u64 (left + right), leb left (u64 (left + right)))

-- `sum, ok := checkedAdd(…); if !ok { return …, err }`
abbrev summed : Metric → ℕ × Bool → Result Metric ℕ
summed metric (sum, fits) = if fits then ok sum else err metric

-- addCounters
unfoldable pub add_counters : Counters → Counters → Result Metric Counters
add_counters current demand = do
  concurrent ← summed concurrency (checked_add current.concurrent demand.concurrent)
  queued ← summed queued_jobs (checked_add current.queued demand.queued)
  retained ← summed retained_jobs (checked_add current.retained demand.retained)
  ok (record { concurrent = concurrent; queued = queued; retained = retained })

-- releaseCounters
unfoldable pub release_counters : Counters → Counters → Result Metric Counters
release_counters current held =
    if ltb current.concurrent held.concurrent
    then err concurrency
    else if ltb current.queued held.queued
    then err queued_jobs
    else if ltb current.retained held.retained
    then err retained_jobs
    else ok (record {
      concurrent = current.concurrent - held.concurrent;
      queued = current.queued - held.queued;
      retained = current.retained - held.retained;
    })

abbrev at_level : Level → Result Metric Counters → Result CounterError Counters
at_level level (ok c) = ok c
at_level level (err metric) = err (record { level = level; metric = metric })

-- The three levels in turn: the first error is returned.
abbrev joined :
    Result Metric Counters
    → Result Metric Counters
    → Result Metric Counters
    → Result CounterError Usage
joined global project namespace = do
  global ← at_level global_level global
  project ← at_level project_level project
  namespace ← at_level namespace_level namespace
  ok (record { global = global; project = project; namespace = namespace })

-- Usage.Add
unfoldable pub add : Usage → Usage → Result CounterError Usage
add usage demand =
    joined (add_counters usage.global demand.global) (add_counters usage.project demand.project)
      (add_counters usage.namespace demand.namespace)

-- Usage.Release
unfoldable pub release : Usage → Usage → Result CounterError Usage
release usage held =
    joined (release_counters usage.global held.global) (release_counters usage.project held.project)
      (release_counters usage.namespace held.namespace)
