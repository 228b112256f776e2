-- ===== src/Persistence/Policies.antt =====
-- internal/adapters/persistence/policies.go: the current policy of every scope of one installation. The
-- rules are read back as they were encoded, and a scope has one row, which its key finds. The older
-- versions, which nothing reads, are left out.
pub mod Current
pub mod Examples
use kube_queue.Common.{
  ℕ, ◌+◌, ◌-◌, ◌^◌, ◌≤◌, ◌<◌, Bool, true, false, not, ◌&&◌, ◌||◌, ltb, leb, ◌==◌, if◌then◌else◌,
  Text, text_eq, is_empty, trim_space, codes, List, [], ◌∷◌, ◌++◌, Option, none, some, is_none,
  Result, ok, err, ◌>>=◌, ◌>>◌, fail_if,
}
use kube_queue.Quota.Rules.{
  ScopeKind, installation, project_scope, namespace_scope, unknown_scope, Scope, PolicyRef, Rules,
  Policy, EffectivePolicy,
}
use kube_queue.Quota.Policy.{PolicyError, compose}
use kube_queue.Persistence.Scopes.{policy_scope_key, is_invalid_scope}
use kube_queue.Persistence.Quotas.{installation_scope, project_of}

pub record PolicyRow : Type 0 where
  pub key : Text
  pub id : Text
  pub version : ℕ
  pub rules : Rules

pub data PolicyTableError : Type 0 where
  policy_id_required invalid_policy_scope policy_conflict policy_not_found : PolicyTableError
  parent_missing : PolicyTableError
  hierarchy : PolicyError → PolicyTableError

unfoldable pub find_policy : Text → List PolicyRow → Option PolicyRow
find_policy key [] = none
find_policy key (row ∷ rows) = if text_eq row.key key then some row else find_policy key rows

abbrev pub read_policy : Scope → PolicyRow → Policy
read_policy scope row = record {
  ref = record { id = row.id; version = row.version; scope = scope };
  rules = row.rules;
}

-- currentPolicyTx
unfoldable pub current_policy : Scope → List PolicyRow → Option Policy
current_policy scope rows = elim (find_policy (policy_scope_key scope) rows) [
  | none ↦ none
  | some row ↦ some (read_policy scope row)
]

abbrev pub scopes_above : ScopeKind → Scope → List Scope
scopes_above project_scope target = installation_scope ∷ []
scopes_above namespace_scope target = installation_scope ∷ project_of target ∷ []
scopes_above _ target = []

-- hierarchyScopes, of a valid scope: the last one is the target itself.
abbrev pub hierarchy_scopes : Scope → List Scope
hierarchy_scopes target = scopes_above target.kind target ++ (target ∷ [])

-- The loop over the scopes of a hierarchy, which leaves out those without a policy.
unfoldable pub found_policies : List Scope → List PolicyRow → List Policy
found_policies [] rows = []
found_policies (scope ∷ scopes) rows = elim (current_policy scope rows) [
  | none ↦ found_policies scopes rows
  | some policy ↦ policy ∷ found_policies scopes rows
]

-- PolicyHierarchy
unfoldable pub policy_hierarchy : Scope → List PolicyRow → Result PolicyTableError (List Policy)
policy_hierarchy target rows =
    if is_invalid_scope target
    then err invalid_policy_scope
    else if is_none (current_policy installation_scope rows)
    then err policy_not_found
    else ok (found_policies (hierarchy_scopes target) rows)

-- The loop over the parents, each of which has to be there.
unfoldable pub parent_policies : List Scope → List PolicyRow → Result PolicyTableError (List Policy)
parent_policies [] rows = ok []
parent_policies (scope ∷ scopes) rows = elim (current_policy scope rows) [
  | none ↦ err parent_missing
  | some parent ↦ do rest ← parent_policies scopes rows; ok (parent ∷ rest)
]

abbrev pub composed : Result PolicyError EffectivePolicy → Result PolicyTableError (Unit {0})
composed (ok effective) = ok tt
composed (err e) = err (hierarchy e)

-- validatePolicyAgainstParents
unfoldable pub validate_against_parents :
    Policy → List PolicyRow → Result PolicyTableError (Unit {0})
validate_against_parents next rows = do
  parents ← parent_policies (scopes_above next.ref.scope.kind next.ref.scope) rows
  composed (compose (parents ++ (next ∷ [])))

abbrev pub policy_row : Policy → PolicyRow
policy_row next = record {
  key = policy_scope_key next.ref.scope;
  id = next.ref.id;
  version = next.ref.version;
  rules = next.rules;
}

unfoldable pub has_policy_id : Text → List PolicyRow → Bool
has_policy_id id [] = false
has_policy_id id (row ∷ rows) = text_eq row.id id || has_policy_id id rows

unfoldable pub replace_policy : PolicyRow → List PolicyRow → List PolicyRow
replace_policy new [] = []
replace_policy new (row ∷ rows) =
    if text_eq row.key new.key then new ∷ rows else row ∷ replace_policy new rows

-- The INSERT where the expected version is 0, and the UPDATE where it is not.
abbrev pub written : ℕ → PolicyRow → List PolicyRow → Result PolicyTableError (List PolicyRow)
written expected new rows = elim (find_policy new.key rows) [
  | none ↦
      if expected == 0 && not (has_policy_id new.id rows)
      then ok (new ∷ rows)
      else err policy_conflict
  | some row ↦
      if not (expected == 0) && text_eq row.id new.id && row.version == expected
      then ok (replace_policy new rows)
      else err policy_conflict
]

abbrev pub is_version_gap : ℕ → ℕ → Bool
is_version_gap expected version =
    leb (2 ^ 63 - 1) expected
    || ltb (2 ^ 63 - 1) version
    || not (version == expected + 1)
    || version == 0

-- CompareAndSetPolicy
unfoldable pub compare_and_set_policy :
    ℕ → Policy → List PolicyRow → Result PolicyTableError (List PolicyRow)
compare_and_set_policy expected next rows =
    fail_if (is_empty (trim_space next.ref.id)) policy_id_required
    >> (fail_if (is_invalid_scope next.ref.scope) invalid_policy_scope
        >> (fail_if (is_version_gap expected next.ref.version) policy_conflict
            >> (validate_against_parents next rows >> written expected (policy_row next) rows)))
