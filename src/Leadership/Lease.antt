-- ===== src/Leadership/Lease.antt =====
-- internal/leadership/leadership.go: the durable lease and the token checked at a mutation.
-- An instant is the number of nanoseconds since the zero Time, so `IsZero` is `== 0`.
pub mod Fencing
use kube_queue.Common.{
  ℕ, ◌+◌, ◌-◌, ◌%◌, ◌^◌, ◌<◌, Bool, true, false, not, ◌&&◌, ◌||◌, Text, text_eq, is_empty, ltb,
  leb_ℤ, ◌==◌, if◌then◌else◌, ℤ, pos, add_duration, Result, ok, err, Option, none, some,
}

pub data Error : Type 0 where
  invalid_holder invalid_ttl lease_held lease_expired not_lease_holder stale_generation : Error
  generation_exhausted leadership_lost leadership_paused invalid_authority : Error

abbrev pub max_uint64 : ℕ
max_uint64 = 2 ^ 64 - 1

abbrev pub u64 : ℕ → ℕ
u64 n = n % 2 ^ 64

pub record Lease : Type 0 where
  pub holder : Text
  pub generation : ℕ  -- uint64
  pub expires_at : ℕ

-- Lease.Active
abbrev pub active : Lease → ℕ → Bool
active l now = not (is_empty l.holder) && not (l.generation == 0) && ltb now l.expires_at

unfoldable pub acquire : Lease → Text → ℕ → ℤ → Result Error Lease
acquire current holder now ttl =
    if is_empty holder
    then err invalid_holder
    else if leb_ℤ ttl (pos 0)
    then err invalid_ttl
    else if active current now
    then (if not (text_eq current.holder holder)
        then err lease_held
        else ok (record {
          holder = holder;
          generation = current.generation;
          expires_at = add_duration now ttl;
        }))
    else if current.generation == max_uint64
    then err generation_exhausted
    else ok (record {
      holder = holder;
      generation = u64 (current.generation + 1);
      expires_at = add_duration now ttl;
    })

unfoldable pub renew : Lease → Text → ℕ → ℕ → ℤ → Result Error Lease
renew current holder generation now ttl =
    if is_empty holder
    then err invalid_holder
    else if leb_ℤ ttl (pos 0)
    then err invalid_ttl
    else if not (generation == current.generation)
    then err stale_generation
    else if not (text_eq current.holder holder)
    then err not_lease_holder
    else if not (active current now)
    then err lease_expired
    else ok (record { holder = holder; generation = generation; expires_at = add_duration now ttl })

pub record Authority : Type 0 where
  pub holder : Text
  pub generation : ℕ
  pub valid_until : ℕ

-- The first test of Authorize, Mutation.Begin and Mutation.Observe.
abbrev pub is_malformed : Authority → Bool
is_malformed a = is_empty a.holder || a.generation == 0 || a.valid_until == 0

-- Authorize; `none` is the nil error.
unfoldable pub authorize : Authority → Lease → ℕ → Option Error
authorize a current now =
    if is_malformed a
    then some invalid_authority
    else if not (a.generation == current.generation)
    then some stale_generation
    else if not (text_eq a.holder current.holder)
    then some not_lease_holder
    else if not (active current now) || not (ltb now a.valid_until)
    then some lease_expired
    else none
