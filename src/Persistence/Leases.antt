-- ===== src/Persistence/Leases.antt =====
-- internal/adapters/persistence/leadership.go: the row of leadership_leases under one name. The
-- statement compares the texts of instants.
use kube_queue.Common.{
  ℕ, ◌+◌, ◌-◌, ◌^◌, ◌<◌, Bool, true, false, not, ◌&&◌, ◌||◌, ◌≡◌, ◌≢◌, ltb, stamp_lt, stamp_le, ◌/◌,
  leb_ℤ, ◌==◌, if◌then◌else◌, ℤ, pos, add_duration, Text, text_eq, is_empty, codes, Option, none,
  some, Result, ok, err,
}
use kube_queue.Leadership.Lease.{
  Error, invalid_holder, invalid_ttl, lease_held, generation_exhausted, Lease, active,
}
use kube_queue.Leadership.Manager.{Failure, store_failure, refused}

abbrev pub max_int64 : ℕ
max_int64 = 2 ^ 63 - 1

-- The zero Lease.
abbrev pub no_lease : Lease
no_lease = record { holder = codes ""; generation = 0; expires_at = 0 }

-- The statement INSERT … ON CONFLICT(name) DO UPDATE … WHERE … RETURNING: the row after it, and
-- whether it returned that row.
abbrev upsert : Option Lease → Text → ℕ → ℕ → Option Lease × Bool
upsert none holder now expires =
    (some (record { holder = holder; generation = 1; expires_at = expires }), true)
upsert (some r) holder now expires =
    if text_eq r.holder holder || (stamp_le r.expires_at now && ltb r.generation max_int64)
    then (
      some (record {
        holder = holder;
        generation =
            if text_eq r.holder holder && stamp_lt now r.expires_at
            then r.generation
            else r.generation + 1;
        expires_at = expires;
      }),
      true,
    )
    else (some r, false)

-- LeadershipLease, with the check of scanLeadershipLease.
unfoldable pub leadership_lease : Option Lease → Result Failure Lease
leadership_lease none = err (store_failure (codes "no rows"))
leadership_lease (some r) =
    if r.generation == 0
    then err (store_failure (codes "leadership generation is invalid"))
    else ok r

-- What AcquireLeadership answers where the statement returned no row.
abbrev contended : Result Failure Lease → ℕ → Lease × Option Failure
contended (err e) now = (no_lease, some e)
contended (ok current) now =
    if current.generation == max_int64 && not (active current now)
    then (current, some (refused generation_exhausted))
    else (current, some (refused lease_held))

abbrev returned : Result Failure Lease → Lease × Option Failure
returned (err e) = (no_lease, some e)
returned (ok l) = (l, none)

-- AcquireLeadership: the row after it, and its answer.
unfoldable pub acquire_leadership :
    Text → Text → ℕ → ℤ → Option Lease → Option Lease × (Lease × Option Failure)
unfolding leadership_lease
acquire_leadership name holder now ttl row =
    if is_empty name
    then (
      row,
      (no_lease, some (store_failure (codes "acquire leadership: lease name is required"))),
    )
    else if is_empty holder
    then (row, (no_lease, some (refused invalid_holder)))
    else if leb_ℤ ttl (pos 0)
    then (row, (no_lease, some (refused invalid_ttl)))
    else let (after, found) = upsert row holder now (add_duration now ttl) in
      (
        after,
        if found then returned (leadership_lease after) else contended (leadership_lease row) now,
      )

abbrev pub lease_of : Option Lease → Lease
lease_of none = no_lease
lease_of (some r) = r

-- What the rule Acquire makes of the row: it is replaced on success only, and a refusal names the
-- lease that is held.
abbrev pub by_rule : Option Lease → Result Error Lease → Option Lease × (Lease × Option Failure)
by_rule row (ok l) = (some l, (l, none))
by_rule row (err lease_held) = (row, (lease_of row, some (refused lease_held)))
by_rule row (err e) = (row, (no_lease, some (refused e)))

-- A stored row: named holder, positive generation below the largest int64.
abbrev pub IsStored : Option Lease → Type 0
IsStored none = Unit {0}
IsStored (some r) = (is_empty r.holder ≡ false) × (r.generation ≢ 0) × (r.generation < max_int64)

-- The expiry is not in the second of the present instant.
abbrev pub IsComparable : ℕ → Option Lease → Type 0
IsComparable now none = Unit {0}
IsComparable now (some r) = now / 10 ^ 9 ≢ r.expires_at / 10 ^ 9
