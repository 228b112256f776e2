-- ===== src/Quota/Policy/Composition.antt =====
-- What Compose promises of the effective policy.
use kube_queue.Common.{
  ℕ, zero, suc, ◌+◌, ◌≡◌, ◌≢◌, refl, sym, ap, subst, ◌∙◌, true, false, Text, is_empty, trim_space,
  List, [], ◌∷◌, ◌++◌, map, Result, ok, err, >>=-eq-ok, ok-injective, fail_if, ◌==◌, All, arith,
  Bool-cases, inl, inr, length, if◌then◌else◌,
}
use mathlib.Core.List.{append_assoc, append-nil}
use kube_queue.Quota.Rules.{RoleActions, Rules, Policy, EffectivePolicy}
use kube_queue.Quota.Policy.{
  required, incomplete, extend, extend_all, compose, is_incomplete, check_narrowing, normalized,
  validate_policy_ref,
}
use kube_queue.Quota.Policy.Registry.{RegistryError, image_allowed, allows_image}
use kube_queue.Quota.Policy.Normalize.{
  check_priority, is_not_positive, delayed_start, execution_duration, empty_role, check_actions,
  sorted_actions, assign, normalize_roles, normalize_registries, normalize_rules,
}
use kube_queue.Quota.Policy.Narrowing.{overlay, no_rules, is_string_subset}
use kube_queue.Quota.Policy.Refines.{Refines}
use kube_queue.Quota.Policy.Refines.Sets.{IsMap, assign-IsMap, is_listed_of_subset}
use kube_queue.Quota.Policy.Refines.Laying.{
  Refines-trans, overlay-Refines, overlay_first, Refines-nothing, Refines-refl,
}

normalize_roles-IsMap :
    (entries m : RoleActions) {out : RoleActions}
    → IsMap m
    → normalize_roles entries m ≡ ok out
    → IsMap out
unfolding normalize_roles
normalize_roles-IsMap [] m h e = subst IsMap (ok-injective e) h
normalize_roles-IsMap ((name, actions) ∷ rest) m h e =
    let role = trim_space name in
    let (_, _, e) = >>=-eq-ok (fail_if (is_empty role) empty_role) _ e in
    let (_, _, e) = >>=-eq-ok (check_actions actions) _ e in
    normalize_roles-IsMap rest (assign role (sorted_actions actions) m)
      (assign-IsMap role (sorted_actions actions) m h) e

normalize_rules-IsMap :
    (r : Rules) {out : Rules} → normalize_rules r ≡ ok out → IsMap out.role_lifecycle_actions
unfolding normalize_rules
normalize_rules-IsMap r e =
    let (_, _, e) = >>=-eq-ok (check_priority r.priority) _ e in
    let (_, _, e) = >>=-eq-ok (fail_if (is_not_positive r.max_delayed_start) delayed_start) _ e in
    let (_, _, e) =
      >>=-eq-ok (fail_if (is_not_positive r.max_execution_duration) execution_duration) _ e in
    let (roles, known, e) = >>=-eq-ok (normalize_roles r.role_lifecycle_actions []) _ e in
    let (registries, _, e) =
      >>=-eq-ok
        (if r.has_image_registry_allowlist
          then normalize_registries r.allowed_image_registries []
          else ok [])
        _ e in
    subst IsMap (ap (λ (x : Rules). x.role_lifecycle_actions) (ok-injective e))
      (normalize_roles-IsMap r.role_lifecycle_actions [] tt known)

-- What a round of the loop did, where it returned no error.
record Extended (index : ℕ) (effective : EffectivePolicy) (policy : Policy) (next : EffectivePolicy)
    : Type 0 where
  child : Rules
  own : normalize_rules policy.rules ≡ ok child
  narrow : check_narrowing index effective.rules child ≡ ok tt
  laid : next.rules ≡ overlay effective.rules child
  listed : next.applied ≡ effective.applied ++ policy.ref ∷ []

extend-Extended :
    (index : ℕ) (effective : EffectivePolicy) (policy : Policy) (next : EffectivePolicy)
    → extend index effective policy ≡ ok next
    → Extended index effective policy next
unfolding extend
extend-Extended index effective policy next e =
    let (_, _, e) = >>=-eq-ok (validate_policy_ref policy.ref index effective.applied) _ e in
    let (child, own, e) = >>=-eq-ok (normalized (normalize_rules policy.rules)) _ e in
    let (_, narrow, e) = >>=-eq-ok (check_narrowing index effective.rules child) _ e in
    record {
      child = child;
      own = ground arith;
      narrow = narrow;
      laid = ground arith;
      listed = ground arith;
    }

-- The rules of a policy, in their normal form, bind the effective rules.
abbrev pub Binds : Rules → Policy → Type 0
Binds effective policy =
    (own : Rules) × (normalize_rules policy.rules ≡ ok own) × Refines effective own

-- A round gives rules that refine those before and the policy's own.
round-Refines :
    (index : ℕ) (effective : EffectivePolicy) (policy : Policy) (next : EffectivePolicy)
    → (index ≡ 0 → effective.rules ≡ no_rules)
    → Extended index effective policy next
    → Refines next.rules effective.rules × Binds next.rules policy
round-Refines zero effective policy next first x =
    let own = overlay_first x.child (normalize_rules-IsMap policy.rules x.own) in
    rw (x.laid, first refl) (Refines-nothing _, (x.child, x.own, own))
round-Refines (suc i) effective policy next first x =
    let both =
      overlay-Refines effective.rules x.child (ground (arith, x.narrow))
        (normalize_rules-IsMap policy.rules x.own) in
    rw x.laid (both.0, (x.child, x.own, both.1))

Binds-Refines :
    (e f : Rules) (policies : List Policy)
    → Refines e f
    → All (Binds f) policies
    → All (Binds e) policies
Binds-Refines e f [] r h = tt
Binds-Refines e f (p ∷ ps) r ((own, normal, le), h) =
    ((own, normal, Refines-trans e f own r le), Binds-Refines e f ps r h)

extend_all-Refines :
    (index : ℕ) (effective : EffectivePolicy) (policies : List Policy) (e : EffectivePolicy)
    → (index ≡ 0 → effective.rules ≡ no_rules)
    → extend_all index effective policies ≡ ok e
    → Refines e.rules effective.rules × All (Binds e.rules) policies
unfolding extend_all
extend_all-Refines index effective [] e first h = (
  subst (λ x. Refines x.rules effective.rules) (ok-injective h) (Refines-refl effective.rules),
  tt,
)
extend_all-Refines index effective (p ∷ ps) e first h =
    let (next, one, rest) = >>=-eq-ok (extend index effective p) _ h in
    let (le, own) =
      round-Refines index effective p next first (extend-Extended index effective p next one) in
    let (later, others) =
      extend_all-Refines (index + 1) next ps e (λ z. absurd (omega arith)) rest in
    (
      Refines-trans e.rules next.rules effective.rules later le,
      ((own.0, own.1, Refines-trans e.rules next.rules own.0 later own.2), others),
    )

extend_all-applied :
    (index : ℕ) (effective : EffectivePolicy) (policies : List Policy) (e : EffectivePolicy)
    → extend_all index effective policies ≡ ok e
    → e.applied ≡ effective.applied ++ map (λ p. p.ref) policies
unfolding extend_all
extend_all-applied index effective [] e h =
    subst (λ x. x.applied ≡ effective.applied ++ []) (ok-injective h)
      (sym (append-nil effective.applied))
extend_all-applied index effective (p ∷ ps) e h =
    let (next, one, rest) = >>=-eq-ok (extend index effective p) _ h in
    extend_all-applied (index + 1) next ps e rest
    ∙ (rw (extend-Extended index effective p next one).listed
        (append_assoc effective.applied (p.ref ∷ []) (map (λ p. p.ref) ps)))

not_empty :
    (policies : List Policy) {u : Unit {0}}
    → fail_if (length policies == 0) required ≡ ok u
    → policies ≢ []
not_empty [] h = λ e. cc
not_empty (p ∷ ps) h = λ e. cc

-- What a successful composition of policies gives.
pub record Composed (policies : List Policy) (e : EffectivePolicy) : Type 0 where
  pub bound : All (Binds e.rules) policies
  pub applied : e.applied ≡ map (λ p. p.ref) policies
  pub complete : is_incomplete e.rules ≡ false
  pub nonempty : policies ≢ []

-- Whenever Compose succeeds, the effective rules refine the normal form of every policy in the list,
-- in each limit, range, duration, role and registry; they are complete, and the policies are applied
-- in order.
pub compose-Composed :
    (policies : List Policy) (e : EffectivePolicy) → compose policies ≡ ok e → Composed policies e
unfolding compose
compose-Composed policies e h =
    let start : EffectivePolicy = record { applied = []; rules = no_rules } in
    let (_, some_policy, h) = >>=-eq-ok (fail_if (length policies == 0) required) _ h in
    let (effective, looped, h) = >>=-eq-ok (extend_all 0 start policies) _ h in
    let (_, full, h) = >>=-eq-ok (fail_if (is_incomplete effective.rules) incomplete) _ h in
    subst (Composed policies) (ok-injective h) (record {
      bound = (extend_all-Refines 0 start policies effective (λ _. refl) looped).1;
      applied = extend_all-applied 0 start policies effective looped;
      complete = ground arith;
      nonempty = not_empty policies some_policy;
    })

-- The rules of one policy alone.
abbrev pub alone : Rules → EffectivePolicy
alone r = record { applied = []; rules = r }

listed-Refines :
    (xs ys : List Text) (registry : Result RegistryError Text)
    → is_string_subset xs ys ≡ true
    → image_allowed xs registry ≡ ok true
    → image_allowed ys registry ≡ ok true
listed-Refines xs ys (err e) sub h = cc
listed-Refines xs ys (ok registry) sub h =
    ap ok (is_listed_of_subset registry xs ys (ok-injective h) sub)

-- An image that refined rules allow is allowed by the rules that they refine.
allows_image-Refines :
    (e : EffectivePolicy) (r : Rules) (image : Text)
    → Refines e.rules r
    → allows_image e image ≡ ok true
    → allows_image (alone r) image ≡ ok true
unfolding allows_image
allows_image-Refines e r image le h = elim (Bool-cases r.has_image_registry_allowlist) [
  | inl has ↦
      let (has', sub) = le.registries has in
      rw has (
        listed-Refines e.rules.allowed_image_registries r.allowed_image_registries _ sub
          (rw has' at h))
  | inr free ↦ rw free
]

bound_images :
    (e : EffectivePolicy) (image : Text) (policies : List Policy)
    → All (Binds e.rules) policies
    → allows_image e image ≡ ok true
    → All
        (λ p.
          (own : Rules) × (normalize_rules p.rules ≡ ok own)
          × (allows_image (alone own) image ≡ ok true))
        policies
bound_images e image [] h allowed = tt
bound_images e image (p ∷ ps) ((own, normal, le), h) allowed =
    ((own, normal, allows_image-Refines e own image le allowed), bound_images e image ps h allowed)

-- An image that the effective policy of a composition allows is allowed by the rules of every policy
-- in it.
pub compose-allows_image :
    (policies : List Policy) (e : EffectivePolicy) (image : Text)
    → compose policies ≡ ok e
    → allows_image e image ≡ ok true
    → All
        (λ p.
          (own : Rules) × (normalize_rules p.rules ≡ ok own)
          × (allows_image (alone own) image ≡ ok true))
        policies
compose-allows_image policies e image h allowed =
    bound_images e image policies (compose-Composed policies e h).bound allowed
