-- ===== src/Quota/Policy/Normalize.antt =====
-- internal/domain/policyquota/policy.go: the checks and the normal form of one policy's rules.
use kube_queue.Common.{
  Bool, true, false, ◌||◌, if◌then◌else◌, Text, text_eq, is_empty, trim_space, List, [], ◌∷◌,
  Option, none, some, Result, ok, err, ◌>>=◌, ◌>>◌, fail_if, ℤ, pos, leb_ℤ, ltb_ℤ,
}
use kube_queue.Quota.Rules.{
  Rules, RoleActions, LifecycleAction, pause, resume, cancel, retry, reorder, unknown_action,
  PriorityRange,
}
use kube_queue.Quota.Policy.Registry.{RegistryError, normalize_registry, insert_text}

pub data RulesError : Type 0 where
  priority_bounds default_priority delayed_start execution_duration empty_role : RulesError
  action : Text → RulesError
  registry : RegistryError → RulesError

-- positiveDuration: whether it returns an error.
abbrev pub is_not_positive : Option ℤ → Bool
is_not_positive none = false
is_not_positive (some d) = leb_ℤ d (pos 0)

abbrev pub check_priority : Option PriorityRange → Result RulesError (Unit {0})
check_priority none = ok tt
check_priority (some p) = do
  fail_if (ltb_ℤ p.max p.min) priority_bounds
  fail_if (ltb_ℤ p.default p.min || ltb_ℤ p.max p.default) default_priority

-- `==` of two actions that validAction accepts.
unfoldable pub action_eq : LifecycleAction → LifecycleAction → Bool
action_eq pause pause = true
action_eq resume resume = true
action_eq cancel cancel = true
action_eq retry retry = true
action_eq reorder reorder = true
action_eq (unknown_action s) (unknown_action t) = text_eq s t
action_eq _ _ = false

unfoldable pub has_action : LifecycleAction → List LifecycleAction → Bool
has_action a [] = false
has_action a (b ∷ bs) = action_eq a b || has_action a bs

-- The loop that validates the actions of a role.
unfoldable pub check_actions : List LifecycleAction → Result RulesError (Unit {0})
check_actions [] = ok tt
check_actions (unknown_action s ∷ rest) = err (action s)
check_actions (_ ∷ rest) = check_actions rest

abbrev keep : LifecycleAction → List LifecycleAction → List LifecycleAction → List LifecycleAction
keep a actions rest = if has_action a actions then a ∷ rest else rest

-- sortedActions of the set that collects valid actions: the order of their names is CANCEL, PAUSE,
-- REORDER, RESUME, RETRY.
unfoldable pub sorted_actions : List LifecycleAction → List LifecycleAction
unfolding has_action
sorted_actions actions =
    keep cancel actions
      (keep pause actions (keep reorder actions (keep resume actions (keep retry actions []))))

-- `m[role] = actions`
unfoldable pub assign : Text → List LifecycleAction → RoleActions → RoleActions
assign role actions [] = (role, actions) ∷ []
assign role actions ((r, old) ∷ m) =
    if text_eq r role then (r, actions) ∷ m else (r, old) ∷ assign role actions m

-- `m[role]`, with whether it exists.
unfoldable pub actions_of : Text → RoleActions → Option (List LifecycleAction)
actions_of role [] = none
actions_of role ((r, actions) ∷ m) = if text_eq r role then some actions else actions_of role m

-- The loop over the roles, in the order of the list, into the map made so far.
unfoldable pub normalize_roles : RoleActions → RoleActions → Result RulesError RoleActions
normalize_roles [] m = ok m
normalize_roles ((name, actions) ∷ rest) m =
    let role = trim_space name in
    fail_if (is_empty role) empty_role
    >> (check_actions actions >> normalize_roles rest (assign role (sorted_actions actions) m))

-- The loop over the registries, into the sorted set of those before.
unfoldable pub normalize_registries : List Text → List Text → Result RulesError (List Text)
normalize_registries [] known = ok known
normalize_registries (r ∷ rest) known = elim (normalize_registry r) [
  | err e ↦ err (registry e)
  | ok value ↦ normalize_registries rest (insert_text value known)
]

-- normalizeRules
unfoldable pub normalize_rules : Rules → Result RulesError Rules
normalize_rules rules = do
  check_priority rules.priority
  fail_if (is_not_positive rules.max_delayed_start) delayed_start
  fail_if (is_not_positive rules.max_execution_duration) execution_duration
  roles ← normalize_roles rules.role_lifecycle_actions []
  registries ←
      if rules.has_image_registry_allowlist
      then normalize_registries rules.allowed_image_registries []
      else ok []
  ok (record rules { role_lifecycle_actions = roles; allowed_image_registries = registries })
