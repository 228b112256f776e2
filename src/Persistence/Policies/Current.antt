-- ===== src/Persistence/Policies/Current.antt =====
-- What a change of the policies leaves.
use kube_queue.Common.{
  ℕ, ◌+◌, ◌≡◌, refl, ap, ◌∙◌, Bool, true, false, if◌then◌else◌, Text, text_eq, text_eq_iff,
  text_eq_refl, is_empty, trim_space, List, [], ◌∷◌, ◌++◌, none, some, is_none, Option-cases,
  Bool-cases, inl, inr, Result, Result-cases, ok, err, ◌>>◌, >>=-eq-ok, fail_if, arith,
}
use kube_queue.Quota.Rules.{
  ScopeKind, installation, project_scope, namespace_scope, unknown_scope, Scope, Policy,
  EffectivePolicy,
}
use kube_queue.Quota.Policy.{PolicyError, compose}
use kube_queue.Persistence.Scopes.{policy_scope_key, is_invalid_scope}
use kube_queue.Persistence.Quotas.{installation_scope, project_of}
use kube_queue.Persistence.Policies.{
  PolicyRow, PolicyTableError, find_policy, read_policy, current_policy, scopes_above,
  hierarchy_scopes, found_policies, policy_hierarchy, parent_policies, composed,
  validate_against_parents, policy_row, replace_policy, written, is_version_gap,
  compare_and_set_policy, policy_conflict, policy_id_required, invalid_policy_scope,
}

-- The parts of a change that succeeds.
set-parts :
    (expected : ℕ) (next : Policy) (rows after : List PolicyRow)
    → compare_and_set_policy expected next rows ≡ ok after
    → (is_invalid_scope next.ref.scope ≡ false)
      × (next.ref.version ≡ expected + 1)
      × (validate_against_parents next rows ≡ ok tt)
      × (written expected (policy_row next) rows ≡ ok after)
unfolding compare_and_set_policy
set-parts expected next rows after e =
    parts (is_empty (trim_space next.ref.id)) (is_invalid_scope next.ref.scope)
      (is_version_gap expected next.ref.version) (validate_against_parents next rows) refl refl refl
      e
  where
    parts :
        (a b c : Bool) (r : Result PolicyTableError (Unit {0}))
        → is_invalid_scope next.ref.scope ≡ b
        → is_version_gap expected next.ref.version ≡ c
        → validate_against_parents next rows ≡ r
        → (fail_if a policy_id_required
            >> (fail_if b invalid_policy_scope
                >> (fail_if c policy_conflict >> (r >> written expected (policy_row next) rows))))
          ≡ ok after
        → (is_invalid_scope next.ref.scope ≡ false)
          × (next.ref.version ≡ expected + 1)
          × (validate_against_parents next rows ≡ ok tt)
          × (written expected (policy_row next) rows ≡ ok after)
    parts true b c r f g h e = cc e
    parts false true c r f g h e = cc e
    parts false false true r f g h e = cc e
    parts false false false (err x) f g h e = cc e
    parts false false false (ok tt) f g h e = (f, ground (arith, g), h, e)

find_policy-replace :
    (key : Text) (new : PolicyRow) (row : PolicyRow) (rows : List PolicyRow)
    → find_policy new.key rows ≡ some row
    → find_policy key (replace_policy new rows)
      ≡ (if text_eq new.key key then some new else find_policy key rows)
unfolding find_policy replace_policy
find_policy-replace key new row [] e = cc
find_policy-replace key new row (r ∷ rows) e = ground (
  arith,
  e,
  find_policy-replace key new row rows,
  text_eq_iff r.key new.key,
  text_eq_iff new.key key,
  text_eq_iff r.key key,
)

-- Under its key the new row is found, under every other key what was there.
find_policy-written :
    (key : Text) (expected : ℕ) (new : PolicyRow) (rows after : List PolicyRow)
    → written expected new rows ≡ ok after
    → find_policy key after ≡ (if text_eq new.key key then some new else find_policy key rows)
unfolding find_policy
find_policy-written key expected new rows after e = elim (Option-cases (find_policy new.key rows)) [
  | inl f ↦ let added : after ≡ new ∷ rows = ground (arith, f) in rw added refl
  | inr (row, f) ↦
      let changed : after ≡ replace_policy new rows = ground (arith, f) in
      rw changed (find_policy-replace key new row rows f)
]

-- A stored version is final for the version that it replaced: no further change that expects the same
-- version of the same scope succeeds.
pub compare_and_set_policy_once :
    (expected : ℕ) (next other : Policy) (rows after : List PolicyRow)
    → policy_scope_key other.ref.scope ≡ policy_scope_key next.ref.scope
    → compare_and_set_policy expected next rows ≡ ok after
    → (reason : PolicyTableError) × (compare_and_set_policy expected other after ≡ err reason)
compare_and_set_policy_once expected next other rows after same e =
    elim (Result-cases (compare_and_set_policy expected other after)) [
      | inl refused ↦ refused
      | inr (final, f) ↦
          let (_, version, _, first) = set-parts expected next rows after e in
          let (_, _, _, second) = set-parts expected other after final f in
          let here =
            find_policy-written (policy_scope_key next.ref.scope) expected (policy_row next) rows
              after first in
          let found : find_policy (policy_scope_key other.ref.scope) after
              ≡ some (policy_row next) =
            rw (same, here, text_eq_refl (policy_scope_key next.ref.scope)) refl in
          absurd (ground (arith, version, found, second))
    ]

-- The scopes above a target have other keys.
OtherKey : Text → List Scope → Type 0
OtherKey key [] = Unit
OtherKey key (scope ∷ scopes) = (text_eq key (policy_scope_key scope) ≡ false) × OtherKey key scopes

current_policy-written :
    (scope : Scope) (expected : ℕ) (new : PolicyRow) (rows after : List PolicyRow)
    → written expected new rows ≡ ok after
    → current_policy scope after ≡ (
        if text_eq new.key (policy_scope_key scope)
        then some (read_policy scope new)
        else current_policy scope rows)
unfolding current_policy
current_policy-written scope expected new rows after e =
    elim (Bool-cases (text_eq new.key (policy_scope_key scope))) [
      | inl f ↦
          rw
            (
              current_policy,
              find_policy-written (policy_scope_key scope) expected new rows after e,
              f,
            )
            refl
      | inr f ↦
          rw
            (
              current_policy,
              find_policy-written (policy_scope_key scope) expected new rows after e,
              f,
            )
            refl
    ]

parents-found :
    (scopes : List Scope) (expected : ℕ) (new : PolicyRow) (rows after : List PolicyRow)
    (parents : List Policy)
    → written expected new rows ≡ ok after
    → OtherKey new.key scopes
    → parent_policies scopes rows ≡ ok parents
    → found_policies scopes after ≡ parents
unfolding OtherKey parent_policies found_policies
parents-found [] expected new rows after parents w o e = ground (arith, e)
parents-found (scope ∷ scopes) expected new rows after parents w (o, os) e =
    let kept : current_policy scope after ≡ current_policy scope rows =
      current_policy-written scope expected new rows after w
      ∙ ap (λ b. if b then some (read_policy scope new) else current_policy scope rows) o in
    elim (Option-cases (current_policy scope rows)) [
      | inl f ↦ cc (rw (parent_policies, f) at e)
      | inr (parent, f) ↦
          let (rest, g, h) =
            >>=-eq-ok (parent_policies scopes rows) (λ tail. ok (parent ∷ tail))
              (rw (parent_policies, f) at e) in
          rw (found_policies, kept, f, parents-found scopes expected new rows after rest w os g)
            (cc h)
    ]

found_policies-append :
    (scopes more : List Scope) (rows : List PolicyRow)
    → found_policies (scopes ++ more) rows ≡ found_policies scopes rows ++ found_policies more rows
unfolding found_policies
found_policies-append [] more rows = refl
found_policies-append (scope ∷ scopes) more rows = elim (Option-cases (current_policy scope rows)) [
  | inl e ↦ rw (found_policies, e) (found_policies-append scopes more rows)
  | inr (policy, e) ↦
      rw (found_policies, e) (ap (λ ps. policy ∷ ps) (found_policies-append scopes more rows))
]

scopes_above-OtherKey :
    (kind : ScopeKind) (target : Scope)
    → target.kind ≡ kind
    → OtherKey (policy_scope_key target) (scopes_above kind target)
unfolding OtherKey text_eq
scopes_above-OtherKey installation target e = tt
scopes_above-OtherKey unknown_scope target e = tt
scopes_above-OtherKey project_scope target e = rw e (refl, tt)
scopes_above-OtherKey namespace_scope target e = rw e (refl, (refl, tt))

first_parent :
    (scope : Scope) (scopes : List Scope) (rows : List PolicyRow) (parents : List Policy)
    → parent_policies (scope ∷ scopes) rows ≡ ok parents
    → (parent : Policy) × (current_policy scope rows ≡ some parent)
unfolding parent_policies
first_parent scope scopes rows parents e = elim (Option-cases (current_policy scope rows)) [
  | inl f ↦ cc (rw (parent_policies, f) at e)
  | inr found ↦ found
]

-- A row that is written for another key leaves the policy of the installation.
module _ (target : Scope) (new : PolicyRow) (named : new.key ≡ policy_scope_key target)
    (expected : ℕ) (rows after : List PolicyRow) (w : written expected new rows ≡ ok after) where
  installation_kept :
      text_eq (policy_scope_key target) (policy_scope_key installation_scope) ≡ false
      → (parent : Policy) → current_policy installation_scope rows ≡ some parent
      → is_none (current_policy installation_scope after) ≡ false
  installation_kept other parent found =
      rw (current_policy-written installation_scope expected new rows after w, named, other, found)
        refl

  installation_found :
      (kind : ScopeKind) (parents : List Policy)
      → target.kind ≡ kind
      → is_invalid_scope target ≡ false
      → parent_policies (scopes_above kind target) rows ≡ ok parents
      → is_none (current_policy installation_scope after) ≡ false
  unfolding text_eq
  installation_found installation parents e v g =
      rw (current_policy-written installation_scope expected new rows after w, named, e) refl
  installation_found project_scope parents e v g =
      let (parent, found) = first_parent installation_scope [] rows parents g in
      installation_kept (rw e refl) parent found
  installation_found namespace_scope parents e v g =
      let (parent, found) =
        first_parent installation_scope (project_of target ∷ []) rows parents g in
      installation_kept (rw e refl) parent found
  installation_found unknown_scope parents e v g = cc (rw e at v)

composed-ok :
    (r : Result PolicyError EffectivePolicy)
    → composed r ≡ ok tt
    → (effective : EffectivePolicy) × (r ≡ ok effective)
composed-ok (err e) h = cc h
composed-ok (ok effective) h = (effective, refl)

-- A policy that is stored composes with the policies above it as they are, and is the last one in the
-- hierarchy of its scope.
pub compare_and_set_policy-compose :
    (expected : ℕ) (next : Policy) (rows after : List PolicyRow)
    → compare_and_set_policy expected next rows ≡ ok after
    → (parents : List Policy) × (effective : EffectivePolicy) × (policy_hierarchy next.ref.scope
          after
        ≡ ok (parents ++ (next ∷ [])))
      × (compose (parents ++ (next ∷ [])) ≡ ok effective)
unfolding policy_hierarchy validate_against_parents found_policies
compare_and_set_policy-compose expected next rows after e =
    let target = next.ref.scope in
    let (valid, _, checked, stored) = set-parts expected next rows after e in
    let (parents, above, joined) =
      >>=-eq-ok (parent_policies (scopes_above target.kind target) rows)
        (λ parents. composed (compose (parents ++ (next ∷ [])))) checked in
    let (effective, works) = composed-ok (compose (parents ++ (next ∷ []))) joined in
    let installed =
      installation_found target (policy_row next) refl expected rows after stored target.kind
        parents refl valid above in
    let last : found_policies (target ∷ []) after ≡ next ∷ [] =
      ap (λ o. elim o [ none ↦ [] | some p ↦ p ∷ [] ])
        (current_policy-written target expected (policy_row next) rows after stored
          ∙ ap (λ b. if b then some next else current_policy target rows)
              (text_eq_refl (policy_scope_key target))) in
    let listed : found_policies (hierarchy_scopes target) after ≡ parents ++ (next ∷ []) =
      found_policies-append (scopes_above target.kind target) (target ∷ []) after
      ∙ ap (λ ps. ps ++ found_policies (target ∷ []) after)
          (parents-found (scopes_above target.kind target) expected (policy_row next) rows after
            parents stored (scopes_above-OtherKey target.kind target refl) above)
      ∙ ap (λ ps. parents ++ ps) last in
    (parents, effective, rw (valid, installed, listed) refl, works)
