-- ===== src/Reconciler/Legacy.antt =====
-- internal/reconciler/reconciler.go: scheduleLegacy, which starts the jobs that it has claimed in their
-- order, under a limit on each namespace.
pub mod Bounded
pub mod Room
pub mod Kept
use kube_queue.Common.{
  ℕ, suc, ◌+◌, ◌≤◌, ◌≡◌, refl, Bool, true, false, leb, ltb, leb→le, if◌then◌else◌, Text, text_eq,
  List, [], ◌∷◌, ◌++◌, Option, none, some, Result, ok, err, arith, by_if, length,
}
use kube_queue.Reconciler.{RuntimeJob, running_in}
use kube_queue.Reconciler.Fair.{Services}

-- The variables of the loop, with the world. The map from the namespaces is a function.
pub record Sweep (World Error : Type 0) : Type 0 where
  pub world : World
  pub by_namespace : Text → ℕ
  pub admitted : ℕ
  pub errors : List Error

pub record Limits : Type 0 where
  pub available : ℕ
  pub namespace_limit : ℕ

-- byNamespace[namespace]++
unfoldable pub counted : Text → (Text → ℕ) → Text → ℕ
counted namespace counts other =
    if text_eq namespace other then suc (counts other) else counts other

module _ {World Error : Type 0} where
  -- An answer that is an error is added to those of the loop.
  abbrev pub noted : Sweep World Error → Option Error × World → Sweep World Error
  noted s (none, w) = record s { world = w }
  noted s (some e, w) = record s { world = w; errors = s.errors ++ (e ∷ []) }

  abbrev pub added : Error → Sweep World Error → Sweep World Error
  added e s = record s { errors = s.errors ++ (e ∷ []) }

  module _ (services : Services World Error) (limits : Limits) where
    abbrev pub released : RuntimeJob → Sweep World Error → Sweep World Error
    released job s = noted s (services.release_claim job.row.id s.world)

    -- The loop over the jobs that are left once there is no place.
    unfoldable pub release_all : List RuntimeJob → Sweep World Error → Sweep World Error
    release_all [] s = s
    release_all (job ∷ jobs) s = release_all jobs (released job s)

    -- The errors stand in the order of admit, of its record and of the release, which is called first.
    abbrev pub failed :
        RuntimeJob → Error → Sweep World Error → Option Error × World → Sweep World Error
    failed job e s (r, w) =
        let answer = services.record_error job e w in noted (noted (added e s) answer) (r, answer.1)

    abbrev pub stopped :
        RuntimeJob
        → Error
        → Sweep World Error
        → (Sweep World Error → Sweep World Error)
        → Bool
        → Sweep World Error
    stopped job e s rest true = added e s
    stopped job e s rest false = rest (failed job e s (services.release_claim job.row.id s.world))

    -- After admit.
    abbrev pub swept :
        RuntimeJob
        → Sweep World Error
        → (Sweep World Error → Sweep World Error)
        → Option Error × World
        → Sweep World Error
    swept job s rest (none, w) =
        let after = released job (record s { world = w }) in
        rest (record after {
          by_namespace = counted job.namespace s.by_namespace;
          admitted = suc s.admitted;
        })
    swept job s rest (some e, w) = stopped job e (record s { world = w }) rest (services.is_fatal e)

    abbrev pub tried_at :
        RuntimeJob
        → Sweep World Error
        → (Sweep World Error → Sweep World Error)
        → Bool
        → Sweep World Error
    tried_at job s rest true = rest (released job s)
    tried_at job s rest false = swept job s rest (services.admit job s.world)

    abbrev pub swept_at :
        RuntimeJob
        → List RuntimeJob
        → Sweep World Error
        → (Sweep World Error → Sweep World Error)
        → Bool
        → Sweep World Error
    swept_at job jobs s rest true = release_all (job ∷ jobs) s
    swept_at job jobs s rest false =
        tried_at job s rest (leb limits.namespace_limit (s.by_namespace job.namespace))

    -- The loop over the claimed jobs.
    unfoldable pub sweep : List RuntimeJob → Sweep World Error → Sweep World Error
    sweep [] s = s
    sweep (job ∷ jobs) s = swept_at job jobs s (sweep jobs) (leb limits.available s.admitted)

    abbrev pub claimed :
        List RuntimeJob → Result Error (List RuntimeJob) × World → Sweep World Error
    claimed jobs (err e, w) = record {
      world = w;
      by_namespace = λ _. 0;
      admitted = 0;
      errors = e ∷ [];
    }
    claimed jobs (ok eligible, w) =
        sweep eligible
          (record { world = w; by_namespace = λ n. running_in n jobs; admitted = 0; errors = [] })

    abbrev pub validated : List RuntimeJob → Option Error × World → Sweep World Error
    validated jobs (some e, w) = record {
      world = w;
      by_namespace = λ _. 0;
      admitted = 0;
      errors = e ∷ [];
    }
    validated jobs (none, w) =
        claimed jobs (services.claim_eligible (length jobs + limits.available) w)

    -- scheduleLegacy
    unfoldable pub schedule_legacy : List RuntimeJob → World → Sweep World Error
    schedule_legacy jobs w = validated jobs (services.revalidate w)
