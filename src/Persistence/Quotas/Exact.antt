-- ===== src/Persistence/Quotas/Exact.antt =====
-- The counters stay exact under an insertion and under a change of one reservation.
use kube_queue.Common.{
  ◌≡◌, refl, sym, ap, ◌∙◌, Text, text_eq, text_eq_iff, text_eq_refl, List, [], ◌∷◌, none, some,
  arith, Bool-cases, inl, inr,
}
use kube_queue.Quota.Counters.{Counters, Usage}
use kube_queue.Quota.Counters.Laws.{◌⊕◌, ◌⊞◌, no_usage, UsageInRange}
use kube_queue.Quota.Rules.{Scope}
use kube_queue.Quota.Reservation.{Reservation}
use kube_queue.Persistence.Quotas.{
  Row, Tables, no_counters, counters_of, target_of, usage_at, update_quota_usage, quota_reservation,
  reservation_by_job, update_reservation, changed,
}
use kube_queue.Persistence.Quotas.Balance.{
  stored, part, share, total_at, HasKeys, IsExact, total_at-update, update-part, update-InRange,
}

⊕_cancel : (a b c t u : Counters) → a ⊕ c ≡ t ⊕ u → b ⊕ c ≡ t ⊕ u → a ≡ b
⊕_cancel a b c t u h k = ground arith

pub quota_reservation_key :
    (key : Text) (row : Row) (rows : List Row)
    → quota_reservation key rows ≡ some row
    → row.reservation.idempotency_key ≡ key
unfolding quota_reservation
quota_reservation_key key row [] h = cc
quota_reservation_key key row (r ∷ rows) h =
    ground
      (arith, quota_reservation_key key row rows, text_eq_iff r.reservation.idempotency_key key)

-- The row that is found by its job is found by its key.
pub reservation_by_job_key :
    (job : Text) (row : Row) (rows : List Row)
    → HasKeys rows
    → reservation_by_job job rows ≡ some row
    → quota_reservation row.reservation.idempotency_key rows ≡ some row
unfolding reservation_by_job quota_reservation
reservation_by_job_key job row [] k h = cc
reservation_by_job_key job row (r ∷ rows) (k, ks) h =
    elim (Bool-cases (text_eq r.reservation.job_id job)) [
      | inl e ↦
          let same : r ≡ row = cc (rw e at h) in
          rw (sym same) (rw (text_eq_refl r.reservation.idempotency_key) refl)
      | inr e ↦
          let later = reservation_by_job_key job row rows ks (rw e at h) in
          elim (Bool-cases
            (text_eq r.reservation.idempotency_key row.reservation.idempotency_key)) [
              | inl f ↦
                  let same =
                    (text_eq_iff r.reservation.idempotency_key row.reservation.idempotency_key).0
                      f in
                  cc (ap (λ key. quota_reservation key rows) same, k, later)
              | inr f ↦ rw f later
            ]
    ]

quota_reservation-update_none :
    (key name : Text) (new : Reservation) (rows : List Row)
    → new.idempotency_key ≡ name
    → quota_reservation key rows ≡ none
    → quota_reservation key (update_reservation name new rows) ≡ none
unfolding quota_reservation update_reservation
quota_reservation-update_none key name new [] e h = refl
quota_reservation-update_none key name new (r ∷ rows) e h = ground (
  arith,
  quota_reservation-update_none key name new rows e,
  text_eq_iff r.reservation.idempotency_key name,
  text_eq_iff r.reservation.idempotency_key key,
  text_eq_iff new.idempotency_key key,
)

update_reservation-HasKeys :
    (name : Text) (new : Reservation) (rows : List Row)
    → new.idempotency_key ≡ name
    → HasKeys rows
    → HasKeys (update_reservation name new rows)
unfolding update_reservation
update_reservation-HasKeys name new [] e k = tt
update_reservation-HasKeys name new (r ∷ rows) e (k, ks) =
    elim (Bool-cases (text_eq r.reservation.idempotency_key name)) [
      | inl f ↦ rw f (rw (e ∙ sym ((text_eq_iff r.reservation.idempotency_key name).0 f)) k, ks)
      | inr f ↦ rw f (
        quota_reservation-update_none r.reservation.idempotency_key name new rows e k,
        update_reservation-HasKeys name new rows e ks,
      )
    ]

-- A reservation is changed and the usage above its target moves by as much.
pub changed-IsExact :
    (t : Tables) (row : Row) (next : Usage) (new : Reservation)
    → quota_reservation row.reservation.idempotency_key t.reservations ≡ some row
    → new.idempotency_key ≡ row.reservation.idempotency_key
    → next ⊞ stored row.reservation ≡ usage_at (target_of row.project row.namespace) t ⊞ stored new
    → UsageInRange next
    → IsExact t
    → IsExact
        (changed t (target_of row.project row.namespace) next row.reservation.idempotency_key new)
changed-IsExact t row next new found same moved range v = record {
  exact = λ key.
      let target = target_of row.project row.namespace in
      let key_of = row.reservation.idempotency_key in
      let counters =
        update-part row.project row.namespace key (stored row.reservation) (stored new) t next
          moved in
      let total = total_at-update key key_of row new t.reservations found in
      ⊕_cancel (counters_of key (update_quota_usage target next t.usage))
        (total_at key (update_reservation key_of new t.reservations)) (share key row)
        (total_at key t.reservations) (part key target (stored new))
        (counters ∙ ap (λ c. c ⊕ part key target (stored new)) (v.exact key)) total;
  in_range = λ key. update-InRange row.project row.namespace key next t range (v.in_range key);
  keyed =
      update_reservation-HasKeys row.reservation.idempotency_key new t.reservations same v.keyed;
}

⊕_same : (a b c : Counters) → a ⊕ c ≡ b ⊕ c → a ≡ b
⊕_same a b c h = ground arith

-- A reservation is changed and holds what it held.
pub unmoved-IsExact :
    (t : Tables) (row : Row) (new : Reservation)
    → quota_reservation row.reservation.idempotency_key t.reservations ≡ some row
    → new.idempotency_key ≡ row.reservation.idempotency_key
    → stored new ≡ stored row.reservation
    → IsExact t
    → IsExact (record t {
      reservations = update_reservation row.reservation.idempotency_key new t.reservations;
    })
unmoved-IsExact t row new found same held v = record {
  exact = λ key.
      let total =
        total_at-update key row.reservation.idempotency_key row new t.reservations found in
      let part_of = part key (target_of row.project row.namespace) in
      v.exact key
      ∙ sym (
          ⊕_same
            (total_at key (update_reservation row.reservation.idempotency_key new t.reservations))
            (total_at key t.reservations) (share key row)
            (total ∙ ap (λ u. total_at key t.reservations ⊕ part_of u) held));
  in_range = v.in_range;
  keyed =
      update_reservation-HasKeys row.reservation.idempotency_key new t.reservations same v.keyed;
}

⊞_no_usage : (next moved : Usage) → next ≡ moved → next ⊞ no_usage ≡ moved
⊞_no_usage next moved h = ground arith

⊕_insert :
    (a c total new nothing : Counters)
    → nothing ≡ no_counters
    → c ≡ total
    → a ⊕ nothing ≡ c ⊕ new
    → a ≡ new ⊕ total
⊕_insert a c total new nothing e f h = ground arith

part_none : (key : Text) (target : Scope) → part key target no_usage ≡ no_counters
part_none key target = ground arith

-- A reservation is added and the usage above its target grows by what it holds.
pub inserted-IsExact :
    (t : Tables) (project namespace : Text) (next : Usage) (new : Reservation)
    → quota_reservation new.idempotency_key t.reservations ≡ none
    → next ≡ usage_at (target_of project namespace) t ⊞ stored new
    → UsageInRange next
    → IsExact t
    → IsExact (record {
      usage = update_quota_usage (target_of project namespace) next t.usage;
      reservations =
          record { reservation = new; project = project; namespace = namespace } ∷ t.reservations;
    })
unfolding total_at
inserted-IsExact t project namespace next new fresh moved range v = record {
  exact = λ key.
      let target = target_of project namespace in
      let counters =
        update-part project namespace key no_usage (stored new) t next (⊞_no_usage next _ moved) in
      ⊕_insert (counters_of key (update_quota_usage target next t.usage)) (counters_of key t.usage)
        (total_at key t.reservations) (part key target (stored new)) (part key target no_usage)
        (part_none key target) (v.exact key) counters;
  in_range = λ key. update-InRange project namespace key next t range (v.in_range key);
  keyed = (fresh, v.keyed);
}
