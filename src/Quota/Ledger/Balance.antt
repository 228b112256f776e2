-- ===== src/Quota/Ledger/Balance.antt =====
-- The quota book balances: usage is what the unreleased reservations hold, and stays in the limits.
use kube_queue.Common.{
  if◌then◌else◌, ◌≡◌, refl, sym, ap, subst, ◌∙◌, Text, text_eq, Option, none, some, Result, ok, err,
  List, [], ◌∷◌, All, arith,
}
use kube_queue.Quota.Counters.{Usage, release}
use kube_queue.Quota.Counters.Laws.{release_sum, ◌⊞◌, no_usage}
use kube_queue.Quota.Rules.{QuotaLimits, EffectivePolicy}
use kube_queue.Quota.Reservation.{
  ReservationState, release_from, marked, intent, reserved, released, unknown_state, ReleaseCause,
  completed, cancelled, failed, unknown_cause, Reservation, ReservationError, mark_reserved,
  release_reservation,
}
use kube_queue.Quota.Reservation.Limits.{Within}
use kube_queue.Quota.Ledger.{
  Ledger, find_reservation, replace, held, total, IsKnown, KnownState, held_in, confirmed, freed,
  confirm_found, free_found,
}

-- What the other reservations hold.
others : Text → List Reservation → Usage
others key [] = no_usage
others key (r ∷ rs) = if text_eq r.idempotency_key key then total rs else held r ⊞ others key rs

total-find :
    (key : Text) (rs : List Reservation) (r : Reservation)
    → find_reservation key rs ≡ some r
    → total rs ≡ held r ⊞ others key rs
unfolding total find_reservation others
total-find key [] r e = cc
total-find key (q ∷ rs) r e = ground (arith, total-find key rs r)

total-replace :
    (key : Text) (rs : List Reservation) (r new : Reservation)
    → find_reservation key rs ≡ some r
    → total (replace key new rs) ≡ held new ⊞ others key rs
unfolding total find_reservation replace others
total-replace key [] r new e = cc
total-replace key (q ∷ rs) r new e = ground (arith, total-replace key rs r new)

All-replace :
    (key : Text) (rs : List Reservation) (new : Reservation)
    → IsKnown new
    → All IsKnown rs
    → All IsKnown (replace key new rs)
unfolding replace
All-replace key [] new k h = h
All-replace key (r ∷ rs) new k h = ground (arith, All-replace key rs new k)

find-IsKnown :
    (key : Text) (rs : List Reservation) (r : Reservation)
    → find_reservation key rs ≡ some r
    → All IsKnown rs
    → IsKnown r
unfolding find_reservation
find-IsKnown key [] r e h = cc
find-IsKnown key (q ∷ rs) r e h = ground (arith, find-IsKnown key rs r)

-- What happens when a found reservation is freed: it is released, and what it held is given back.
abbrev Freed : Usage → Result ReservationError (Reservation × Usage) → Type 0
Freed rest (ok (r, usage)) = (r.state ≡ released) × (usage ≡ rest)
Freed rest (err e) = ⊥

pub ⊞_comm : (u v : Usage) → u ⊞ v ≡ v ⊞ u
⊞_comm u v = ground arith

no_usage-⊞ : (u : Usage) → no_usage ⊞ u ≡ u
no_usage-⊞ u = ground arith

abbrev pub IsCause : ReleaseCause → Type 0
IsCause (unknown_cause _) = ⊥
IsCause _ = Unit {0}

release_demand : (d rest : Usage) → release (d ⊞ rest) d ≡ ok rest
release_demand d rest = rw (⊞_comm d rest) (release_sum rest d)

release_from-Freed :
    (s : ReservationState) (r : Reservation) (rest : Usage) (cause : ReleaseCause)
    → r.state ≡ s
    → KnownState s
    → Freed rest (release_from s r (held_in s r.demand ⊞ rest) cause)
release_from-Freed intent r rest cause e k = rw (release_demand r.demand rest) (refl, refl)
release_from-Freed reserved r rest cause e k = rw (release_demand r.demand rest) (refl, refl)
release_from-Freed released r rest cause e k = (e, no_usage-⊞ rest)
release_from-Freed (unknown_state _) r rest cause e k = absurd k

-- A reservation can always be freed: the book holds at least its demand.
release_reservation-Freed :
    (r : Reservation) (rest : Usage) (cause : ReleaseCause)
    → IsKnown r
    → IsCause cause
    → Freed rest (release_reservation r (held r ⊞ rest) cause)
unfolding release_reservation
release_reservation-Freed r rest (unknown_cause _) k c = absurd c
release_reservation-Freed r rest completed k c = release_from-Freed r.state r rest completed refl k
release_reservation-Freed r rest cancelled k c = release_from-Freed r.state r rest cancelled refl k
release_reservation-Freed r rest failed k c = release_from-Freed r.state r rest failed refl k

-- The book balances, in known states and within the limits.
pub record IsBalanced (policy : EffectivePolicy) (l : Ledger) : Type 0 where
  pub balanced : l.usage ≡ total l.reservations
  pub known : All IsKnown l.reservations
  pub within : Within policy.rules.quotas l.usage

freeing :
    (policy : EffectivePolicy) (l : Ledger) (key : Text) (cause : ReleaseCause) (r : Reservation)
    → find_reservation key l.reservations ≡ some r
    → IsCause cause
    → IsBalanced policy l
    → Freed (others key l.reservations) (release_reservation r l.usage cause)
freeing policy l key cause r f c v =
    rw (v.balanced ∙ total-find key l.reservations r f)
      (release_reservation-Freed r _ cause (find-IsKnown key l.reservations r f v.known) c)

held_given_back : (r : Reservation) (u : Usage) → r.state ≡ released → held r ⊞ u ≡ u
held_given_back r u e = subst (λ s. held_in s r.demand ⊞ u ≡ u) (sym e) (no_usage-⊞ u)

Within-⊞ : (l : QuotaLimits) (u v : Usage) → Within l (u ⊞ v) → Within l v
Within-⊞ l u v w = omega arith

freed-IsBalanced :
    (policy : EffectivePolicy) (l : Ledger) (key : Text) (r : Reservation)
    (a : Result ReservationError (Reservation × Usage))
    → find_reservation key l.reservations ≡ some r
    → Freed (others key l.reservations) a
    → IsBalanced policy l
    → IsBalanced policy (freed l key a)
freed-IsBalanced policy l key r (err e) f h v = v
freed-IsBalanced policy l key r (ok (new, usage)) f h v = record {
  balanced = h.1 ∙ sym (total-replace key l.reservations r new f ∙ held_given_back new _ h.0);
  known = All-replace key l.reservations new (subst KnownState (sym h.0) tt) v.known;
  within = subst (Within policy.rules.quotas) (sym h.1) (
      Within-⊞ policy.rules.quotas (held r) _ (
        subst (Within policy.rules.quotas) (v.balanced ∙ total-find key l.reservations r f)
          v.within));
}

pub free_found-IsBalanced :
    (policy : EffectivePolicy) (l : Ledger) (key : Text) (cause : ReleaseCause)
    (o : Option Reservation)
    → find_reservation key l.reservations ≡ o
    → IsCause cause
    → IsBalanced policy l
    → IsBalanced policy (free_found l key cause o)
free_found-IsBalanced policy l key cause none f c v = v
free_found-IsBalanced policy l key cause (some r) f c v =
    freed-IsBalanced policy l key r _ f (freeing policy l key cause r f c v) v

-- What a call of Release on a found reservation gives.
abbrev pub GivesBack : Usage → Reservation → Result ReservationError (Reservation × Usage) → Type 0
GivesBack before r (ok (new, usage)) =
    (new.state ≡ released) × (new.demand ≡ r.demand) × (held r ⊞ usage ≡ before)
GivesBack before r (err e) = ⊥

freed_demand :
    (r new : Reservation) (usage after : Usage) (cause : ReleaseCause)
    → release_reservation r usage cause ≡ ok (new, after)
    → new.demand ≡ r.demand
unfolding release_reservation
freed_demand r new usage after cause e = ground arith

given_back :
    (policy : EffectivePolicy) (l : Ledger) (key : Text) (cause : ReleaseCause) (r : Reservation)
    (a : Result ReservationError (Reservation × Usage))
    → find_reservation key l.reservations ≡ some r
    → release_reservation r l.usage cause ≡ a
    → Freed (others key l.reservations) a
    → IsBalanced policy l
    → GivesBack l.usage r a
given_back policy l key cause r (err e) f d h v = h
given_back policy l key cause r (ok (new, usage)) f d h v = (
  h.0,
  freed_demand r new l.usage usage cause d,
  ap (◌⊞◌ (held r)) h.1 ∙ sym (v.balanced ∙ total-find key l.reservations r f),
)

-- In a book that balances a reservation can always be released, for any known cause: it ends
-- released with its demand, and exactly what it held is given back.
pub release-GivesBack :
    (policy : EffectivePolicy) (l : Ledger) (key : Text) (cause : ReleaseCause) (r : Reservation)
    → find_reservation key l.reservations ≡ some r
    → IsCause cause
    → IsBalanced policy l
    → GivesBack l.usage r (release_reservation r l.usage cause)
release-GivesBack policy l key cause r f c v =
    given_back policy l key cause r _ f refl (freeing policy l key cause r f c v) v

marked_holds :
    (s : ReservationState) (r : Reservation) {new : Reservation}
    → r.state ≡ s
    → marked s r ≡ ok new
    → (held new ≡ held r) × IsKnown new
marked_holds intent r e h = ground arith
marked_holds reserved r e h = ground arith
marked_holds released r e h = cc
marked_holds (unknown_state _) r e h = cc

confirmed-IsBalanced :
    (policy : EffectivePolicy) (l : Ledger) (key : Text) (r : Reservation)
    (a : Result ReservationError Reservation)
    → find_reservation key l.reservations ≡ some r
    → marked r.state r ≡ a
    → IsBalanced policy l
    → IsBalanced policy (confirmed l key a)
confirmed-IsBalanced policy l key r (err e) f h v = v
confirmed-IsBalanced policy l key r (ok new) f h v =
    let (same, known) = marked_holds r.state r refl h in
    record {
      balanced =
          v.balanced
          ∙ total-find key l.reservations r f
          ∙ sym (
              total-replace key l.reservations r new f
              ∙ ap (λ (u : Usage). u ⊞ others key l.reservations) same);
      known = All-replace key l.reservations new known v.known;
      within = v.within;
    }

pub confirm_found-IsBalanced :
    (policy : EffectivePolicy) (l : Ledger) (key : Text) (o : Option Reservation)
    → find_reservation key l.reservations ≡ o
    → IsBalanced policy l
    → IsBalanced policy (confirm_found l key o)
unfolding mark_reserved
confirm_found-IsBalanced policy l key none f v = v
confirm_found-IsBalanced policy l key (some r) f v = confirmed-IsBalanced policy l key r _ f refl v
