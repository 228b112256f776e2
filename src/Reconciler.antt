-- ===== src/Reconciler.antt =====
-- internal/reconciler/reconciler.go and internal/ports/scheduling_repository.go: the pass of the leader
-- over the jobs. What a pass is given, and the rules that it applies to one job.
pub mod Commands
pub mod Fair
pub mod Legacy
pub mod Schedule
pub mod Admit
pub mod Site
mod Examples
use kube_queue.Common.{
  ℕ, suc, ◌+◌, ◌*◌, ◌^◌, ◌≤◌, Bool, true, false, not, ◌&&◌, ◌||◌, ltb, leb, if◌then◌else◌, Text,
  text_eq, is_empty, codes, itoa, List, [], ◌∷◌, ◌++◌, Option, none, some, arith,
}
use kube_queue.Domain.Lifecycle.{JobState, running, paused, cancelled, state_eq}
use kube_queue.Scheduler.Input.{Lane}
use kube_queue.Persistence.Mutations.Table.{MutationRequest}
use kube_queue.Persistence.Jobs.{JobRow, is_managed, is_listed_status}

-- A job with the columns that the table of jobs has beside those of JobRow.
pub record RuntimeJob : Type 0 where
  pub row : JobRow
  pub project_id : Text
  pub namespace : Text
  pub attempt : ℕ

pub record Candidate : Type 0 where
  pub job : RuntimeJob
  pub age : ℕ
  pub lane : Lane
  pub emergency_requested : Bool
  pub emergency_authorized : Bool
  pub emergency_authorization : Text

pub record SchedulingProject : Type 0 where
  pub installation_id : Text
  pub project_id : Text
  pub weight : ℕ
  pub candidates : List Candidate

-- countsTowardConcurrency
unfoldable pub counts_toward_concurrency : JobRow → Bool
counts_toward_concurrency job = is_managed job.management && is_listed_status job.sync_status

-- Whether a job takes one of the places.
abbrev pub takes_place : RuntimeJob → Bool
takes_place j = state_eq j.row.seen running && counts_toward_concurrency j.row

-- The count of the running jobs.
unfoldable pub running_jobs : List RuntimeJob → ℕ
running_jobs [] = 0
running_jobs (j ∷ jobs) = let rest = running_jobs jobs in if takes_place j then suc rest else rest

unfoldable pub running_in : Text → List RuntimeJob → ℕ
running_in namespace [] = 0
running_in namespace (j ∷ jobs) =
    let rest = running_in namespace jobs in
    if takes_place j && text_eq j.namespace namespace then suc rest else rest

-- retryPending
unfoldable pub retry_pending : ℕ → JobRow → Bool
retry_pending now job = elim job.next_reconcile_at [ none ↦ false | some at ↦ ltb now at ]

-- The delay of recordJobError, in nanoseconds.
unfoldable pub retry_delay : ℕ → ℕ
retry_delay retries =
    let delay = 2 * 10 ^ 9 * 2 ^ (if ltb 5 retries then 5 else retries) in
    if ltb (60 * 10 ^ 9) delay then 60 * 10 ^ 9 else delay

-- mutationRequest
unfoldable pub mutation_request : RuntimeJob → Text → MutationRequest
mutation_request job operation =
    let attempt = codes "attempt:" ++ itoa job.attempt in
    record {
      operation = operation;
      job_id = job.row.id;
      attempt_identity = attempt;
      request_identity =
          if text_eq operation (codes "create")
          then attempt
          else codes "version:" ++ itoa job.row.version;
    }

-- mutationEffectPresent
unfoldable pub mutation_effect_present : JobRow → Text → Bool
mutation_effect_present job operation =
    if text_eq operation (codes "create")
    then not (is_empty job.kubernetes_uid)
    else if text_eq operation (codes "suspend")
    then state_eq job.seen paused
    else if text_eq operation (codes "resume")
    then not (is_empty job.kubernetes_uid) && not (state_eq job.seen paused)
    else text_eq operation (codes "delete") && state_eq job.seen cancelled
