-- ===== src/Persistence/Quotas/Balance.antt =====
-- What the counters of every scope hold, and how a change of one reservation keeps them exact.
use kube_queue.Common.{
  ◌≡◌, refl, sym, ap, subst, ◌∙◌, Bool, true, false, ◌||◌, if◌then◌else◌, Text, text_eq,
  text_eq_iff, text_eq_refl, List, [], ◌∷◌, ◌++◌, none, some, arith, Bool-cases, inl, inr,
}
use kube_queue.Quota.Counters.{Counters, Usage}
use kube_queue.Quota.Counters.Laws.{◌⊕◌, ◌⊞◌, no_usage, InRange, UsageInRange}
use kube_queue.Quota.Rules.{Scope}
use kube_queue.Quota.Reservation.{
  ReservationState, intent, reserved, released, unknown_state, Reservation,
}
use kube_queue.Persistence.Scopes.{policy_scope_key, length_prefixed}
use kube_queue.Persistence.Quotas.{
  Row, Tables, no_counters, counters_of, set_counters, target_of, installation_scope, project_of,
  usage_at, update_quota_usage, quota_reservation, update_reservation, retained_demand,
}

-- What a reservation counts for: a released one keeps its retained part until the job is archived.
abbrev pub stored_in : ReservationState → Usage → Usage
stored_in intent demand = demand
stored_in reserved demand = demand
stored_in released demand = retained_demand demand
stored_in (unknown_state _) demand = no_usage

abbrev pub stored : Reservation → Usage
stored r = stored_in r.state r.demand

abbrev at_key : Text → Text → Counters → Counters
at_key key own c = if text_eq own key then c else no_counters

-- What a usage at a target counts for under one key.
abbrev pub part : Text → Scope → Usage → Counters
part key target u =
    at_key key (policy_scope_key installation_scope) u.global
    ⊕ at_key key (policy_scope_key (project_of target)) u.project
    ⊕ at_key key (policy_scope_key target) u.namespace

abbrev pub share : Text → Row → Counters
share key row = part key (target_of row.project row.namespace) (stored row.reservation)

unfoldable pub total_at : Text → List Row → Counters
total_at key [] = no_counters
total_at key (row ∷ rows) = share key row ⊕ total_at key rows

-- No key stands twice.
abbrev pub HasKeys : List Row → Type 0
HasKeys [] = Unit
HasKeys (row ∷ rows) =
    (quota_reservation row.reservation.idempotency_key rows ≡ none) × HasKeys rows

-- Under every key the counters are exactly what the reservations hold, and they are uint64.
pub record IsExact (t : Tables) : Type 0 where
  pub exact : (key : Text) → counters_of key t.usage ≡ total_at key t.reservations
  pub in_range : (key : Text) → InRange (counters_of key t.usage)
  pub keyed : HasKeys t.reservations

counters_of-set_counters :
    (key own : Text) (c : Counters) (rows : List (Text × Counters))
    → counters_of key (set_counters own c rows)
      ≡ (if text_eq own key then c else counters_of key rows)
unfolding counters_of set_counters
counters_of-set_counters key own c [] = refl
counters_of-set_counters key own c (row ∷ rows) = ground (
  arith,
  counters_of-set_counters key own c rows,
  text_eq_iff row.0 own,
  text_eq_iff own key,
  text_eq_iff row.0 key,
)

⊕_swap : (a b c : Counters) → a ⊕ b ⊕ c ≡ c ⊕ b ⊕ a
⊕_swap a b c = ground arith

⊕_shift : (a b c x y : Counters) → b ⊕ x ≡ c ⊕ y → a ⊕ b ⊕ x ≡ a ⊕ c ⊕ y
⊕_shift a b c x y h = ground arith

pub total_at-update :
    (key name : Text) (row : Row) (new : Reservation) (rows : List Row)
    → quota_reservation name rows ≡ some row
    → total_at key (update_reservation name new rows) ⊕ share key row
      ≡ total_at key rows ⊕ share key (record row { reservation = new })
unfolding total_at quota_reservation update_reservation
total_at-update key name row new [] h = cc
total_at-update key name row new (r ∷ rows) h =
    elim (Bool-cases (text_eq r.reservation.idempotency_key name)) [
      | inl e ↦
          let same : r ≡ row = cc (rw e at h) in
          rw e (
            subst
              (λ q.
                share key (record r { reservation = new }) ⊕ total_at key rows ⊕ share key q
                ≡ share key r ⊕ total_at key rows ⊕ share key (record q { reservation = new }))
              same
              (⊕_swap (share key (record r { reservation = new })) (total_at key rows)
                (share key r)))
      | inr e ↦ rw e (
          ⊕_shift (share key r) (total_at key (update_reservation name new rows))
            (total_at key rows) (share key row) (share key (record row { reservation = new }))
            (total_at-update key name row new rows (rw e at h)))
    ]

-- One of three different keys, with what each would give.
abbrev chosen {ℓ} : {A : Type ℓ} → Bool → Bool → Bool → A → A → A → A → A
chosen n p i a b c d = if n then a else if p then b else if i then c else d

-- The three keys differ in their first letter.
abbrev AtMostOne : Bool → Bool → Bool → Type 0
AtMostOne n p i = (n ≡ true → (p || i) ≡ false) × (p ≡ true → i ≡ false)

different_letters :
    (a b : Text) (key : Text)
    → AtMostOne (text_eq (b'N' ∷ a) key) (text_eq (b'P' ∷ b) key) (text_eq (b'I' ∷ []) key)
unfolding text_eq
different_letters a b [] = ground arith
different_letters a b (c ∷ key) = ground arith

-- The arithmetic of one key, by which of the three it is.
exact_at :
    (n p i : Bool) (next before here after : Usage) (other : Counters)
    → AtMostOne n p i
    → next ⊞ before ≡ here ⊞ after
    → chosen n p i next.namespace next.project next.global other
        ⊕ ((if i then before.global else no_counters)
            ⊕ (if p then before.project else no_counters)
            ⊕ (if n then before.namespace else no_counters))
      ≡ chosen n p i here.namespace here.project here.global other
        ⊕ ((if i then after.global else no_counters)
            ⊕ (if p then after.project else no_counters)
            ⊕ (if n then after.namespace else no_counters))
exact_at n p i next before here after other one h = ground arith

module _ (project namespace : Text) where
  abbrev target : Scope
  target = target_of project namespace

  abbrev is_namespace_key : Text → Bool
  is_namespace_key key = text_eq (policy_scope_key target) key

  abbrev is_project_key : Text → Bool
  is_project_key key = text_eq (policy_scope_key (project_of target)) key

  abbrev is_installation_key : Text → Bool
  is_installation_key key = text_eq (policy_scope_key installation_scope) key

  -- After an update the counters under a key are those of the level that has the key.
  counters_of-update :
      (key : Text) (next : Usage) (rows : List (Text × Counters))
      → counters_of key (update_quota_usage target next rows)
        ≡ chosen
            (is_namespace_key key)
            (is_project_key key)
            (is_installation_key key)
            next.namespace
            next.project
            next.global
            (counters_of key rows)
  counters_of-update key next rows =
      let first = set_counters (policy_scope_key installation_scope) next.global rows in
      let second = set_counters (policy_scope_key (project_of target)) next.project first in
      rw
        (
          counters_of-set_counters key (policy_scope_key target) next.namespace second,
          counters_of-set_counters key (policy_scope_key (project_of target)) next.project first,
          counters_of-set_counters key (policy_scope_key installation_scope) next.global rows,
        )
        refl

  counters_of-chosen :
      (key : Text) (rows : List (Text × Counters))
      → counters_of key rows
        ≡ chosen
            (is_namespace_key key)
            (is_project_key key)
            (is_installation_key key)
            (counters_of (policy_scope_key target) rows)
            (counters_of (policy_scope_key (project_of target)) rows)
            (counters_of (policy_scope_key installation_scope) rows)
            (counters_of key rows)
  counters_of-chosen key rows = elim (Bool-cases (is_namespace_key key)) [
    | inl e ↦
        rw e (ap (λ k. counters_of k rows) (sym ((text_eq_iff (policy_scope_key target) key).0 e)))
    | inr e ↦ rw e elim (Bool-cases (is_project_key key)) [
      | inl f ↦ rw f (
          ap (λ k. counters_of k rows)
            (sym ((text_eq_iff (policy_scope_key (project_of target)) key).0 f)))
      | inr f ↦ rw f elim (Bool-cases (is_installation_key key)) [
        | inl g ↦ rw g (
            ap (λ k. counters_of k rows)
              (sym ((text_eq_iff (policy_scope_key installation_scope) key).0 g)))
        | inr g ↦ rw g refl
      ]
    ]
  ]

  -- The three counters that are read after an update are those that were written.
  pub usage_at-update :
      (next : Usage) (rows : List (Text × Counters)) (kept : List Row)
      → usage_at target
          (record { usage = update_quota_usage target next rows; reservations = kept })
        ≡ next
  unfolding text_eq
  usage_at-update next rows kept =
      rw
        (
          counters_of-update (policy_scope_key installation_scope) next rows,
          counters_of-update (policy_scope_key (project_of target)) next rows,
          counters_of-update (policy_scope_key target) next rows,
          text_eq_refl (length_prefixed project ++ length_prefixed namespace),
          text_eq_refl (length_prefixed project),
        )
        refl

  -- An exact change of the usage at a target is exact under every key.
  pub update-part :
      (key : Text) (before after : Usage) (t : Tables) (next : Usage)
      → next ⊞ before ≡ usage_at target t ⊞ after
      → counters_of key (update_quota_usage target next t.usage) ⊕ part key target before
        ≡ counters_of key t.usage ⊕ part key target after
  update-part key before after t next h =
      let one =
        different_letters (b':' ∷ (length_prefixed project ++ length_prefixed namespace))
          (b':' ∷ length_prefixed project) key in
      let here = usage_at target t in
      ap (λ c. c ⊕ part key target before) (counters_of-update key next t.usage)
      ∙ exact_at (is_namespace_key key) (is_project_key key) (is_installation_key key) next before
          here after (counters_of key t.usage) one h
      ∙ ap (λ c. c ⊕ part key target after) (sym (counters_of-chosen key t.usage))

  pub update-InRange :
      (key : Text) (next : Usage) (t : Tables)
      → UsageInRange next
      → InRange (counters_of key t.usage)
      → InRange (counters_of key (update_quota_usage target next t.usage))
  update-InRange key next t h k = rw (counters_of-update key next t.usage) (ground (arith, h, k))
