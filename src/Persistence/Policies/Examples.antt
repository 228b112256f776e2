-- ===== src/Persistence/Policies/Examples.antt =====
-- Two policies that are stored one after the other.
use kube_queue.Common.{
  ℕ, ◌≡◌, refl, true, codes, text_eq, trim_space, is_listed, List, [], ◌∷◌, ◌++◌, some, pos, ok,
  err, contains_text, contains_any, itoa, byte_length, to_lower, is_space, trim_left, trim_suffix,
  has_prefix, has_suffix, is_one_of, text_lt, digits,
}
use kube_queue.Quota.Rules.{
  installation, project_scope, ScopedLimits, Rules, Policy, EffectivePolicy, pause, cancel,
}
use kube_queue.Quota.Policy.{compose, extend_all, extend, validate_policy_ref, is_incomplete}
use kube_queue.Quota.Policy.Normalize
use kube_queue.Quota.Policy.Narrowing
use kube_queue.Quota.Policy.Registry
use kube_queue.Quota.Policy.Normalize.{normalize_rules}
use kube_queue.Persistence.Scopes.{length_prefixed}
use kube_queue.Persistence.Policies.{
  PolicyRow, PolicyTableError, policy_row, find_policy, current_policy, policy_hierarchy,
  parent_policies, has_policy_id, compare_and_set_policy, validate_against_parents,
}
use kube_queue.Persistence.Policies.Current.{
  compare_and_set_policy_once, compare_and_set_policy-compose,
}

abbrev at_most : ℕ → ScopedLimits
at_most n = record { max_concurrent = some n; max_queued = some n; max_retained = some n }

abbrev pub rules_of : ℕ → Rules
rules_of n = record {
  quotas = record { global = at_most n; project = at_most n; namespace = at_most n };
  priority = some (record { min = pos 0; max = pos 100; default = pos 10 });
  max_delayed_start = some (pos 3600);
  role_lifecycle_actions = (codes "a", cancel ∷ pause ∷ []) ∷ [];
  max_execution_duration = some (pos 7200);
  allowed_image_registries = codes "docker.io" ∷ [];
  has_image_registry_allowlist = true;
}

abbrev pub everywhere : Policy
everywhere = record {
  ref = record {
    id = codes "i";
    version = 1;
    scope = record { kind = installation; project = codes ""; namespace = codes "" };
  };
  rules = rules_of 10;
}

abbrev of_project : Policy
of_project = record {
  ref = record {
    id = codes "p";
    version = 1;
    scope = record { kind = project_scope; project = codes "x"; namespace = codes "" };
  };
  rules = rules_of 5;
}

abbrev pub first_rows : List PolicyRow
first_rows = policy_row everywhere ∷ []

abbrev second_rows : List PolicyRow
second_rows = policy_row of_project ∷ first_rows

second_runs : compare_and_set_policy 0 of_project first_rows ≡ ok second_rows
unfolding compare_and_set_policy validate_against_parents parent_policies current_policy find_policy
    has_policy_id compose extend_all extend validate_policy_ref is_incomplete
    Normalize.normalize_rules Normalize.normalize_roles Normalize.check_actions
    Normalize.sorted_actions Normalize.assign Normalize.has_action Normalize.actions_of
    Normalize.action_eq Normalize.normalize_registries Registry.normalize_registry
    Registry.insert_text is_listed Narrowing.validate_narrowing Narrowing.first_expanding
    Narrowing.is_action_subset Narrowing.is_string_subset Narrowing.overlay Narrowing.assign_all
    is_space trim_left trim_space trim_suffix to_lower has_prefix has_suffix contains_text
    contains_any is_one_of text_eq text_lt length_prefixed itoa digits byte_length
second_runs = refl

compare_and_set_policy_once_example :
    (reason : PolicyTableError) × (compare_and_set_policy 0
        (record of_project { rules = rules_of 3 })
        second_rows
      ≡ err reason)
compare_and_set_policy_once_example =
    compare_and_set_policy_once 0 of_project (record of_project { rules = rules_of 3 }) first_rows
      second_rows refl second_runs

compare_and_set_policy-compose_example :
    (parents : List Policy) × (effective : EffectivePolicy) × (policy_hierarchy of_project.ref.scope
        second_rows
      ≡ ok (parents ++ (of_project ∷ [])))
    × (compose (parents ++ (of_project ∷ [])) ≡ ok effective)
compare_and_set_policy-compose_example =
    compare_and_set_policy-compose 0 of_project first_rows second_rows second_runs
