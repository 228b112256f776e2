-- ===== src/Persistence/Admission/Conditions.antt =====
-- When a job may be admitted, apart from the tests that the transaction makes of it.
use kube_queue.Common.{
  ℕ, ◌≡◌, ◌≢◌, ◌⊎◌, refl, true, false, inl, inr, Bool-cases, stamp_le, Text, text_eq_iff, List, [],
  ◌∷◌, Option, none, some, All, arith, Option-cases,
}
use kube_queue.Domain.Lifecycle.{
  created, queued, paused, managed, missing, out_of_scope, sync_conflicted,
}
use kube_queue.Quota.Rules.{ScopeKind, PolicyRef, Policy}
use kube_queue.Persistence.Policies.{PolicyRow, current_policy}
use kube_queue.Persistence.Jobs.{JobRow, Store, Claim, get_job}
use kube_queue.Persistence.Jobs.Claims.{is_startable, claim_of}
use kube_queue.Persistence.Admission.Checks.{kind_eq, policy_ref_eq}
use kube_queue.Persistence.Admission.{
  is_outdated, is_free, startable_row, is_eligible, matches_version,
}

-- Each policy that was applied is the current one of its scope, in its version.
abbrev pub IsCurrent : List PolicyRow → List PolicyRef → Type 0
IsCurrent rows refs =
    All
      (λ ref.
        (policy : Policy) × (current_policy ref.scope rows ≡ some policy) × (policy.ref ≡ ref))
      refs

kind_eq-eq : (a b : ScopeKind) → kind_eq a b ≡ true → a ≡ b
kind_eq-eq a b e = ground (arith, e)

policy_ref_eq-eq : (a b : PolicyRef) → policy_ref_eq a b ≡ true → a ≡ b
policy_ref_eq-eq a b e = ground (
  arith,
  e,
  kind_eq-eq a.scope.kind b.scope.kind,
  text_eq_iff a.id b.id,
  text_eq_iff a.scope.project b.scope.project,
  text_eq_iff a.scope.namespace b.scope.namespace,
)

pub is_outdated-IsCurrent :
    (refs : List PolicyRef) (rows : List PolicyRow)
    → is_outdated refs rows ≡ false
    → IsCurrent rows refs
unfolding is_outdated
is_outdated-IsCurrent [] rows e = tt
is_outdated-IsCurrent (ref ∷ refs) rows e = elim (Option-cases (current_policy ref.scope rows)) [
  | inl f ↦ cc (rw (is_outdated, f) at e)
  | inr (policy, f) ↦ elim (Bool-cases (policy_ref_eq policy.ref ref)) [
    | inl same ↦ (
      (policy, f, policy_ref_eq-eq policy.ref ref same),
      is_outdated-IsCurrent refs rows (rw (is_outdated, f, same) at e),
    )
    | inr other ↦ cc (rw (is_outdated, f, other) at e)
  ]
]

-- A time that is not set, or whose text is not after that of the instant.
abbrev pub IsDueAt : ℕ → Option ℕ → Type 0
IsDueAt now none = Unit {0}
IsDueAt now (some at) = stamp_le at now ≡ true

-- A job that waits for its start.
pub record Startable (now : ℕ) (j : JobRow) : Type 0 where
  pub queued_for : j.desired ≡ queued
  pub seen_as : (j.seen ≡ created) ⊎ (j.seen ≡ paused)
  pub managed_by : j.management ≡ managed
  pub in_sync :
      (j.sync_status ≢ missing) × (j.sync_status ≢ out_of_scope) × (j.sync_status ≢ sync_conflicted)
  pub kept : j.archived_at ≡ none
  pub due : IsDueAt now j.next_reconcile_at × IsDueAt now j.scheduled_for

is_startable-Startable : (now : ℕ) (j : JobRow) → is_startable now j ≡ true → Startable now j
is_startable-Startable now j e = record {
  queued_for = ground (arith, e);
  seen_as = ground (arith, e);
  managed_by = ground (arith, e);
  in_sync = ground (arith, e);
  kept = ground (arith, e);
  due = ground (arith, e);
}

-- A job without a claim, or with one that has expired.
abbrev pub IsUnclaimed : Text → ℕ → List Claim → Type 0
IsUnclaimed job now claims =
    (claim_of job claims ≡ none)
    ⊎ ((c : Claim) × (claim_of job claims ≡ some c) × (stamp_le c.expires now ≡ true))

abbrev pub MayStart : Text → ℕ → Store → Type 0
MayStart job now s =
    ((j : JobRow) × (get_job job s.jobs ≡ some j) × Startable now j) × IsUnclaimed job now s.claims

startable_row-Startable :
    (now : ℕ) (o : Option JobRow)
    → startable_row now o ≡ true
    → (j : JobRow) × (o ≡ some j) × Startable now j
startable_row-Startable now none e = cc e
startable_row-Startable now (some j) e = (j, refl, is_startable-Startable now j e)

is_free-unclaimed :
    (now : ℕ) (o : Option Claim)
    → is_free now o ≡ true
    → (o ≡ none) ⊎ ((c : Claim) × (o ≡ some c) × (stamp_le c.expires now ≡ true))
is_free-unclaimed now none e = inl refl
is_free-unclaimed now (some c) e = inr (c, refl, e)

pub is_eligible-MayStart :
    (job : Text) (now : ℕ) (s : Store) → is_eligible job now s ≡ true → MayStart job now s
is_eligible-MayStart job now s e =
    let parts : (startable_row now (get_job job s.jobs) ≡ true)
        × (is_free now (claim_of job s.claims) ≡ true) =
      ground (arith, e) in
    (
      startable_row-Startable now (get_job job s.jobs) parts.0,
      is_free-unclaimed now (claim_of job s.claims) parts.1,
    )

-- The expected version is that of the cursor, and 0 where there is none.
abbrev pub IsAt : ℕ → Option (ℕ × Text) → Type 0
IsAt expected none = expected ≡ 0
IsAt expected (some row) = (expected ≢ 0) × (row.0 ≡ expected)

pub matches_version-IsAt :
    (expected : ℕ) (cursor : Option (ℕ × Text))
    → matches_version expected cursor ≡ true
    → IsAt expected cursor
matches_version-IsAt expected none e = ground (arith, e)
matches_version-IsAt expected (some row) e = ground (arith, e)
