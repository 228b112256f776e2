-- ===== src/Leadership/Session.antt =====
-- internal/leadership/leadership.go: the local view of a lease. A channel made by `make` is a number,
-- the count of those made before it; `done_closed` is the flag of the current one.
use kube_queue.Common.{
  ℕ, ◌+◌, Bool, true, false, not, ◌||◌, ◌≡◌, ◌≢◌, ◌⊎◌, refl, Text, text_eq, text_eq_iff, is_empty,
  ◌==◌, if◌then◌else◌, Result, ok, err, none, List, [], ◌∷◌, arith, ◌↔◌,
}
use kube_queue.Leadership.Lease.{
  Error, invalid_holder, lease_expired, leadership_lost, leadership_paused, Lease, active,
  Authority, authorize,
}

pub data Status : Type 0 where
  active_status paused lost : Status

pub record Session : Type 0 where
  pub holder : Text
  pub generation : ℕ
  pub status : Status
  pub done : ℕ
  pub done_closed : Bool

unfoldable pub new_session : Lease → ℕ → Result Error Session
new_session lease now =
    if is_empty lease.holder
    then err invalid_holder
    else if not (active lease now)
    then err lease_expired
    else ok (record {
      holder = lease.holder;
      generation = lease.generation;
      status = active_status;
      done = 0;
      done_closed = false;
    })

-- cancelCurrent: closing a closed channel would panic, so it is closed at most once.
abbrev pub cancel_current : Session → Session
cancel_current s = if s.done_closed then s else record s { done_closed = true }

abbrev is_lost : Status → Bool
is_lost lost = true
is_lost _ = false

abbrev is_paused : Status → Bool
is_paused paused = true
is_paused _ = false

-- Session.Sync; the status returned is the field of the new session.
unfoldable pub sync : Session → Lease → ℕ → Session
sync s lease now =
    if is_lost s.status
    then s
    else if not (lease.generation == s.generation) || not (text_eq lease.holder s.holder)
    then cancel_current (record s { status = lost })
    else if not (active lease now)
    then cancel_current (record s { status = paused })
    else let t =
        if is_paused s.status then record s { done = s.done + 1; done_closed = false } else s in
      record t { status = active_status }

abbrev pub validated : Session → Lease → Result Error Authority
validated s lease = elim s.status [
  | lost ↦ err leadership_lost
  | paused ↦ err leadership_paused
  | active_status ↦
      ok (record { holder = s.holder; generation = s.generation; valid_until = lease.expires_at })
]

-- Session.Validate
unfoldable pub validate : Session → Lease → ℕ → Session × Result Error Authority
unfolding sync
validate s lease now = let t = sync s lease now in (t, validated t lease)

-- The Done channel is open exactly while mutations are allowed.
pub record IsConsistent (s : Session) : Type 0 where
  pub open_when_active : s.status ≡ active_status → s.done_closed ≡ false
  pub closed_otherwise : s.status ≢ active_status → s.done_closed ≡ true

pub new_session-IsConsistent :
    (lease : Lease) (now : ℕ) {s : Session} → new_session lease now ≡ ok s → IsConsistent s
unfolding new_session
new_session-IsConsistent lease now h = ground arith

-- Whatever lease is observed, the Done channel stays open exactly while the session is active, and
-- a channel is only replaced after it was closed.
pub sync-IsConsistent :
    (s : Session) (lease : Lease) (now : ℕ)
    → IsConsistent s
    → IsConsistent (sync s lease now)
      × (((sync s lease now).done ≡ s.done) ⊎ (s.done_closed ≡ true))
unfolding sync
sync-IsConsistent s lease now v = ground arith

unfoldable pub sync_all : Session → List (Lease × ℕ) → Session
sync_all s [] = s
sync_all s ((lease, now) ∷ seen) = sync_all (sync s lease now) seen

sync_lost : (s : Session) (lease : Lease) (now : ℕ) → s.status ≡ lost → sync s lease now ≡ s
unfolding sync
sync_lost s lease now h = ground arith

-- Loss is definitive: no later observation changes a lost session.
pub sync_all_lost : (s : Session) (seen : List (Lease × ℕ)) → s.status ≡ lost → sync_all s seen ≡ s
unfolding sync_all
sync_all_lost s [] h = refl
sync_all_lost s ((lease, now) ∷ seen) h = rw (sync_lost s lease now h) (sync_all_lost s seen h)

-- Validation gives a token exactly when the session is not lost and the observed lease is active and
-- still carries the session's holder and generation.
pub validate_iff :
    (s : Session) (lease : Lease) (now : ℕ)
    → ((a : Authority) × ((validate s lease now).1 ≡ ok a)) ↔ (
        (s.status ≢ lost)
        × (lease.generation ≡ s.generation)
        × (lease.holder ≡ s.holder)
        × (active lease now ≡ true))
unfolding validate
validate_iff s lease now = (
  λ (a, e). ground (arith, text_eq_iff lease.holder s.holder),
  λ h. (
    record { holder = s.holder; generation = s.generation; valid_until = lease.expires_at },
    ground (arith, text_eq_iff lease.holder s.holder),
  ),
)

-- A token passes the check at the mutation boundary if the lease is still the one that it was
-- validated against and has not run out.
pub authorize-validate :
    (s : Session) (lease : Lease) (now later : ℕ) {a : Authority}
    → (validate s lease now).1 ≡ ok a
    → active lease later ≡ true
    → authorize a lease later ≡ none
unfolding validate authorize
authorize-validate s lease now later h k =
    ground (arith, text_eq_iff lease.holder s.holder, text_eq_iff s.holder lease.holder)

-- A session never changes its holder or its generation.
pub sync_keeps :
    (s : Session) (lease : Lease) (now : ℕ)
    → ((sync s lease now).holder ≡ s.holder) × ((sync s lease now).generation ≡ s.generation)
unfolding sync
sync_keeps s lease now = ground arith

pub new_session_keeps :
    (lease : Lease) (now : ℕ) {s : Session}
    → new_session lease now ≡ ok s
    → (s.holder ≡ lease.holder) × (s.generation ≡ lease.generation)
unfolding new_session
new_session_keeps lease now h = ground arith

-- The token that validation gives is for the session's holder and the observed lease.
pub validate_keeps :
    (s : Session) (lease : Lease) (now : ℕ) {a : Authority}
    → (validate s lease now).1 ≡ ok a
    → (a.holder ≡ s.holder)
      × (a.generation ≡ s.generation)
      × (lease.generation ≡ s.generation)
      × (a.valid_until ≡ lease.expires_at)
      × (active lease now ≡ true)
unfolding validate
validate_keeps s lease now h = ground (arith, text_eq_iff lease.holder s.holder)

pub validate-sync :
    (s : Session) (lease : Lease) (now : ℕ) → (validate s lease now).0 ≡ sync s lease now
unfolding validate
validate-sync s lease now = refl
