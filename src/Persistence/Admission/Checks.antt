-- ===== src/Persistence/Admission/Checks.antt =====
-- internal/adapters/persistence/scheduling.go: what CommitSchedulingDecision and CommitRuntimeAdmission
-- check before their transaction.
use kube_queue.Common.{
  ℕ, ◌-◌, ◌^◌, pos, leb_ℤ, Bool, true, false, not, ◌&&◌, ◌||◌, ltb, ◌==◌, Text, text_eq, is_empty,
  trim_space, length, List, [], ◌∷◌, Result, ◌>>◌, fail_if,
}
use kube_queue.Scheduler.Input.{standard, emergency, lane_eq, State, Basis, Decision}
use kube_queue.Quota.Rules.{
  ScopeKind, installation, project_scope, namespace_scope, unknown_scope, PolicyRef,
}
use kube_queue.Persistence.Mutations.{StoreError}
use kube_queue.Persistence.Quotas.{QuotaError}
use kube_queue.Persistence.Scopes.{is_invalid_scope}

pub record AdmissionDecision : Type 0 where
  pub id : Text
  pub installation_id : Text
  pub policy : PolicyRef
  pub scheduling : Decision
  pub quota_reservation_key : Text
  pub decided_by : Text

pub data AdmissionError : Type 0 where
  ids_required policy_version_range other_installation project_count : AdmissionError
  unknown_cursor deficit_range identity_required project_absent : AdmissionError
  policy_scope_invalid basis_range unauthorized_emergency : AdmissionError
  ttl_not_positive other_policy fairness_range : AdmissionError
  admission_conflict projects_not_found : AdmissionError
  fenced : StoreError → AdmissionError
  quota_error : QuotaError → AdmissionError

abbrev pub kind_eq : ScopeKind → ScopeKind → Bool
kind_eq installation installation = true
kind_eq project_scope project_scope = true
kind_eq namespace_scope namespace_scope = true
kind_eq unknown_scope unknown_scope = true
kind_eq _ _ = false

-- `==` on PolicyRef.
abbrev pub policy_ref_eq : PolicyRef → PolicyRef → Bool
policy_ref_eq a b =
    text_eq a.id b.id
    && a.version == b.version
    && kind_eq a.scope.kind b.scope.kind
    && text_eq a.scope.project b.scope.project
    && text_eq a.scope.namespace b.scope.namespace

-- `_, exists := deficits[id]`
unfoldable pub has_deficit : Text → List (Text × ℕ) → Bool
has_deficit id [] = false
has_deficit id (entry ∷ entries) = text_eq entry.0 id || has_deficit id entries

-- The loop over the deficits: whether one is outside the durable range.
unfoldable pub exceeds_range : List (Text × ℕ) → Bool
exceeds_range [] = false
exceeds_range (entry ∷ entries) =
    is_empty entry.0 || ltb (2 ^ 63 - 1) entry.1 || exceeds_range entries

abbrev max_projects : ℕ
max_projects = 200

abbrev pub is_out_of_range : Basis → Bool
is_out_of_range b =
    (not (lane_eq b.lane standard) && not (lane_eq b.lane emergency))
    || b.project_weight == 0
    || ltb (2 ^ 63 - 1) b.project_weight
    || ltb (2 ^ 63 - 1) b.deficit_before
    || ltb (2 ^ 63 - 1) b.deficit_after
    || ltb (2 ^ 63 - 1) b.age
    || leb_ℤ b.aging_step (pos 0)

abbrev pub lacks_emergency_authorization : Basis → Bool
lacks_emergency_authorization b =
    lane_eq b.lane emergency
    && (not b.emergency_requested
        || not b.emergency_authorized
        || is_empty (trim_space b.emergency_authorization))

-- validateSchedulingCommit
unfoldable pub validate_scheduling_commit :
    Text → State → AdmissionDecision → Result AdmissionError (Unit {0})
validate_scheduling_commit installation_id state d = do
  fail_if (is_empty installation_id || is_empty d.id || is_empty d.decided_by) ids_required
  fail_if (ltb (2 ^ 63 - 1) d.policy.version) policy_version_range
  fail_if (not (is_empty d.installation_id) && not (text_eq d.installation_id installation_id))
      other_installation
  fail_if (length state.deficits == 0 || ltb max_projects (length state.deficits)) project_count
  fail_if
      (not (is_empty state.next_project_id)
        && not (has_deficit state.next_project_id state.deficits))
      unknown_cursor
  fail_if (exceeds_range state.deficits) deficit_range
  fail_if
      (is_empty d.scheduling.project_id
        || is_empty d.scheduling.job_id
        || is_empty d.scheduling.applied_policy_version
        || is_empty d.policy.id
        || d.policy.version == 0)
      identity_required
  fail_if (not (has_deficit d.scheduling.project_id state.deficits)) project_absent
  fail_if (is_invalid_scope d.policy.scope) policy_scope_invalid
  fail_if (is_out_of_range d.scheduling.basis) basis_range
  fail_if (lacks_emergency_authorization d.scheduling.basis) unauthorized_emergency
