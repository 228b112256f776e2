-- ===== src/Quota/Examples.antt =====
-- Quota decisions, the book and policies at concrete inputs.
use kube_queue.Common.{
  is_listed, ℕ, ◌≡◌, refl, true, Text, codes, text_eq, none, some, ok, List, [], ◌∷◌, arith, pos,
  All, ℕ, is_space, trim_space, trim_left, trim_suffix, to_lower, has_prefix, has_suffix,
  contains_text, contains_any, is_one_of, text_lt,
}
use kube_queue.Quota.Counters.{Counters, Usage, add}
use kube_queue.Quota.Counters.Laws.{UsageAddResult, add-UsageAddResult}
use kube_queue.Quota.Rules.{
  installation, project_scope, PolicyRef, ScopedLimits, QuotaLimits, Rules, Policy, EffectivePolicy,
  pause, cancel,
}
use kube_queue.Quota.Reservation.{
  completed, Reservation, ReservationRequest, ReservationDecision, decide_reservation,
  release_reservation, new_intent,
}
use kube_queue.Quota.Reservation.Decision.{NewDecision, decide_new}
use kube_queue.Quota.Ledger
use kube_queue.Quota.Ledger.{Ledger, empty_ledger}
use kube_queue.Quota.Ledger.Balance.{IsBalanced, GivesBack, release-GivesBack}
use kube_queue.Quota.Ledger.History.{run-IsBalanced}
use kube_queue.Quota.Policy.Normalize
use kube_queue.Quota.Policy.Narrowing
use kube_queue.Quota.Policy.Registry
use kube_queue.Quota.Policy.{compose, extend_all, extend, validate_policy_ref, is_incomplete}
use kube_queue.Quota.Policy.Normalize.{normalize_rules}
use kube_queue.Quota.Policy.Registry.{allows_image}
use kube_queue.Quota.Policy.Composition.{Composed, compose-Composed, compose-allows_image, alone}

abbrev one_each : Counters
one_each = record { concurrent = 1; queued = 1; retained = 1 }

abbrev one_job : Usage
one_job = record { global = one_each; project = one_each; namespace = one_each }

abbrev at_most : ℕ → ScopedLimits
at_most n = record { max_concurrent = some n; max_queued = some n; max_retained = some n }

abbrev limits : ℕ → QuotaLimits
limits n = record { global = at_most n; project = at_most n; namespace = at_most n }

abbrev rules : ℕ → List Text → Rules
rules n registries = record {
  quotas = limits n;
  priority = some (record { min = pos 0; max = pos 100; default = pos 10 });
  max_delayed_start = some (pos 3600);
  role_lifecycle_actions = (codes "a", cancel ∷ pause ∷ []) ∷ [];
  max_execution_duration = some (pos 7200);
  allowed_image_registries = registries;
  has_image_registry_allowlist = true;
}

abbrev installation_ref : PolicyRef
installation_ref = record {
  id = codes "i";
  version = 1;
  scope = record { kind = installation; project = codes ""; namespace = codes "" };
}

abbrev project_ref : PolicyRef
project_ref = record {
  id = codes "p";
  version = 3;
  scope = record { kind = project_scope; project = codes "x"; namespace = codes "" };
}

abbrev policies : List Policy
policies =
    record { ref = installation_ref; rules = rules 2 (codes "docker.io" ∷ codes "ghcr.io" ∷ []) }
    ∷ record { ref = project_ref; rules = rules 1 (codes "docker.io" ∷ []) }
    ∷ []

abbrev effective : EffectivePolicy
effective = record {
  applied = installation_ref ∷ project_ref ∷ [];
  rules = rules 1 (codes "docker.io" ∷ []);
}

composed : compose policies ≡ ok effective
unfolding compose extend_all extend validate_policy_ref is_incomplete Normalize.normalize_rules
    Normalize.normalize_roles Normalize.check_actions Normalize.sorted_actions Normalize.assign
    Normalize.has_action Normalize.actions_of Normalize.action_eq Normalize.normalize_registries
    Registry.normalize_registry Registry.insert_text is_listed Narrowing.validate_narrowing
    Narrowing.first_expanding Narrowing.is_action_subset Narrowing.is_string_subset
    Narrowing.overlay Narrowing.assign_all is_space trim_left trim_space trim_suffix to_lower
    has_prefix has_suffix contains_text contains_any is_one_of text_eq text_lt
composed = refl

abbrev request : ReservationRequest
request = record { idempotency_key = codes "k"; job_id = codes "j"; demand = one_job }

add-UsageAddResult_example : UsageAddResult one_job one_job (add one_job one_job)
add-UsageAddResult_example = add-UsageAddResult one_job one_job (omega arith) (omega arith)

decide_new_example :
    (d : ReservationDecision) × (decide_reservation effective one_job request none ≡ ok d)
    × NewDecision effective project_ref one_job request d
decide_new_example =
    decide_new effective project_ref refl one_job request (refl, refl) (omega arith) (omega arith)
      (omega arith)

abbrev first_intent : Reservation
first_intent = new_intent project_ref request

history : List Ledger.Call
history =
    Ledger.reserves request
    ∷ Ledger.confirms (codes "k")
    ∷ Ledger.reserves (record request { idempotency_key = codes "l"; job_id = codes "m" })
    ∷ Ledger.frees (codes "k") completed
    ∷ []

run-IsBalanced_example : IsBalanced effective (Ledger.run effective empty_ledger history)
unfolding history
run-IsBalanced_example = run-IsBalanced effective history (omega arith) (omega arith)

abbrev one_held : Ledger.Ledger
one_held = record { usage = one_job; reservations = first_intent ∷ [] }

one_held-IsBalanced : IsBalanced effective one_held
unfolding Ledger.total
one_held-IsBalanced = record { balanced = refl; known = (tt, tt); within = omega arith }

release-GivesBack_example :
    GivesBack one_job first_intent (release_reservation first_intent one_job completed)
unfolding Ledger.find_reservation text_eq
release-GivesBack_example =
    release-GivesBack effective one_held (codes "k") completed first_intent refl tt
      one_held-IsBalanced

compose-Composed_example : Composed policies effective
compose-Composed_example = compose-Composed policies effective composed

image_allowed_first : allows_image effective (codes "nginx") ≡ ok true
unfolding allows_image Registry.registry_for_image is_listed trim_space contains_text contains_any
    text_eq
image_allowed_first = refl

compose-allows_image_example :
    All
      (λ p.
        (own : Rules) × (normalize_rules p.rules ≡ ok own)
        × (allows_image (alone own) (codes "nginx") ≡ ok true))
      policies
compose-allows_image_example =
    compose-allows_image policies effective (codes "nginx") composed image_allowed_first
