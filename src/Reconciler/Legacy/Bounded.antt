-- ===== src/Reconciler/Legacy/Bounded.antt =====
-- internal/reconciler/reconciler.go: the limits that scheduleLegacy keeps. Beside the world stands a log,
-- to which each job is added that is admitted without an error.
use kube_queue.Common.{
  ℕ, ◌+◌, ◌≤◌, ◌<◌, ◌≡◌, refl, sym, ap, ◌∙◌, subst, Bool, true, false, leb, Text, text_eq,
  text_eq_iff, List, [], ◌∷◌, Option, none, some, Result, ok, err, arith, Bool-cases, inl, inr,
  length, if◌then◌else◌, suc,
}
use kube_queue.Reconciler.{RuntimeJob, running_in}
use kube_queue.Reconciler.Fair.{Services}
use kube_queue.Reconciler.Legacy.{
  claimed, validated, schedule_legacy, Sweep, Limits, counted, noted, added, released, release_all,
  failed, stopped, swept, tried_at, swept_at, sweep,
}

-- The jobs of a namespace.
unfoldable pub count_in : Text → List RuntimeJob → ℕ
count_in n [] = 0
count_in n (job ∷ jobs) = if text_eq job.namespace n then suc (count_in n jobs) else count_in n jobs

abbrev Logged : Type 0 → Type 0
Logged World = World × List RuntimeJob

abbrev logging : {A World : Type 0} → List RuntimeJob → A × World → A × Logged World
logging log r = (r.0, (r.1, log))

abbrev logged_if : {Error : Type 0} → RuntimeJob → List RuntimeJob → Option Error → List RuntimeJob
logged_if job log none = job ∷ log
logged_if job log (some e) = log

-- The calls, of which the one that admits a job without an error adds it to the log.
abbrev pub logged : {World Error : Type 0} → Services World Error → Services (Logged World) Error
logged services = record {
  scheduling_candidates = λ w. logging w.1 (services.scheduling_candidates w.0);
  fairness_state = λ ids w. logging w.1 (services.fairness_state ids w.0);
  policy_hierarchy = λ scope w. logging w.1 (services.policy_hierarchy scope w.0);
  revalidate = λ w. logging w.1 (services.revalidate w.0);
  decision_id = λ w. logging w.1 (services.decision_id w.0);
  commit = λ id request w. logging w.1 (services.commit id request w.0);
  admit = λ job w. let r = services.admit job w.0 in (r.0, (r.1, logged_if job w.1 r.0));
  abandon = λ id w. logging w.1 (services.abandon id w.0);
  claim_eligible = λ n w. logging w.1 (services.claim_eligible n w.0);
  release_claim = λ id w. logging w.1 (services.release_claim id w.0);
  record_error = λ job e w. logging w.1 (services.record_error job e w.0);
  is_conflict = services.is_conflict;
  is_fatal = services.is_fatal;
}

module _ {World Error : Type 0} (services : Services World Error) (limits : Limits) (n : Text)
    (base bound : ℕ) where
  -- The counters are those of the log, and under the limits.
  record Within (s : Sweep (Logged World) Error) : Type 0 where
    all_counted : s.admitted ≡ length s.world.1
    namespace_counted : s.by_namespace n ≡ base + count_in n s.world.1
    has_room : s.admitted ≤ limits.available
    is_under : s.by_namespace n ≤ bound

  same_log :
      (s : Sweep (Logged World) Error) (w : World) (log : List RuntimeJob)
      → log ≡ s.world.1
      → Within s
      → Within (record s { world = (w, log) })
  same_log s w log e h = record {
    all_counted = h.all_counted ∙ ap length (sym e);
    namespace_counted = h.namespace_counted ∙ ap (λ l. base + count_in n l) (sym e);
    has_room = h.has_room;
    is_under = h.is_under;
  }

  more_errors :
      (s : Sweep (Logged World) Error) (errors : List Error)
      → Within s
      → Within (record s { errors = errors })
  more_errors s errors h = record {
    all_counted = h.all_counted;
    namespace_counted = h.namespace_counted;
    has_room = h.has_room;
    is_under = h.is_under;
  }

  noted-Within :
      (s : Sweep (Logged World) Error) (answer : Option Error × Logged World)
      → answer.1.1 ≡ s.world.1
      → Within s
      → Within (noted s answer)
  noted-Within s (none, (w, log)) e h = same_log s w log e h
  noted-Within s (some x, (w, log)) e h = more_errors _ _ (same_log s w log e h)

  noted-log :
      (s : Sweep (Logged World) Error) (answer : Option Error × Logged World)
      → (noted s answer).world.1 ≡ answer.1.1
  noted-log s (none, w) = refl
  noted-log s (some e, w) = refl

  released-Within :
      (job : RuntimeJob) (s : Sweep (Logged World) Error)
      → Within s
      → Within (released (logged services) limits job s)
  released-Within job s h =
      noted-Within s ((logged services).release_claim job.row.id s.world) refl h

  release_all-Within :
      (jobs : List RuntimeJob) (s : Sweep (Logged World) Error)
      → Within s
      → Within (release_all (logged services) limits jobs s)
  unfolding release_all
  release_all-Within [] s h = h
  release_all-Within (job ∷ jobs) s h =
      release_all-Within jobs (released (logged services) limits job s) (released-Within job s h)

  module _ (job : RuntimeJob) (jobs : List RuntimeJob)
      (rest : Sweep (Logged World) Error → Sweep (Logged World) Error)
      (keep : (s : Sweep (Logged World) Error) → Within s → Within (rest s)) where
    failed-Within :
        (e : Error) (s : Sweep (Logged World) Error) (answer : Option Error × Logged World)
        → answer.1.1 ≡ s.world.1
        → Within s
        → Within (failed (logged services) limits job e s answer)
    failed-Within e s (r, w) same h =
        let answer = (logged services).record_error job e w in
        noted-Within (noted (added e s) answer) (r, answer.1) (sym (noted-log (added e s) answer))
          (noted-Within (added e s) answer same (more_errors s _ h))

    stopped-Within :
        (e : Error) (s : Sweep (Logged World) Error) (fatal : Bool)
        → Within s
        → Within (stopped (logged services) limits job e s rest fatal)
    stopped-Within e s true h = more_errors s _ h
    stopped-Within e s false h =
        keep _ (failed-Within e s ((logged services).release_claim job.row.id s.world) refl h)

    -- A job that is admitted is counted and stands in the log.
    admitted-Within :
        (s after : Sweep (Logged World) Error)
        → after.world.1 ≡ job ∷ s.world.1
        → Within s
        → s.admitted < limits.available
        → s.by_namespace job.namespace < limits.namespace_limit
        → limits.namespace_limit ≤ bound
        → Within (record after {
          by_namespace = counted job.namespace s.by_namespace;
          admitted = suc s.admitted;
        })
    unfolding counted count_in
    admitted-Within s after e h l k b = record {
      all_counted = ap suc h.all_counted ∙ ap length (sym e);
      namespace_counted =
          subst (λ log. counted job.namespace s.by_namespace n ≡ base + count_in n log) (sym e)
            (elim (Bool-cases (text_eq job.namespace n)) [
              | inl f ↦ ground (arith, f, h.namespace_counted)
              | inr f ↦ ground (arith, f, h.namespace_counted)
            ]);
      has_room = omega (arith, l);
      is_under = elim (Bool-cases (text_eq job.namespace n)) [
        | inl f ↦
            let less =
              subst (λ t. s.by_namespace t < limits.namespace_limit)
                ((text_eq_iff job.namespace n).0 f) k in
            ground (arith, f, less, b)
        | inr f ↦ ground (arith, f, h.is_under)
      ];
    }

    swept-Within :
        (s : Sweep (Logged World) Error) (r : Option Error) (w : World)
        → Within s
        → s.admitted < limits.available
        → s.by_namespace job.namespace < limits.namespace_limit
        → limits.namespace_limit ≤ bound
        → Within (swept (logged services) limits job s rest (r, (w, logged_if job s.world.1 r)))
    swept-Within s none w h l k b =
        let at = record s { world = (w, job ∷ s.world.1) } in
        keep _ (
          admitted-Within s (released (logged services) limits job at)
            (noted-log at ((logged services).release_claim job.row.id at.world)) h l k b)
    swept-Within s (some e) w h l k b =
        stopped-Within e (record s { world = (w, s.world.1) }) (services.is_fatal e)
          (same_log s w s.world.1 refl h)

    tried_at-Within :
        (s : Sweep (Logged World) Error) (full : Bool)
        → leb limits.namespace_limit (s.by_namespace job.namespace) ≡ full
        → Within s
        → s.admitted < limits.available
        → limits.namespace_limit ≤ bound
        → Within (tried_at (logged services) limits job s rest full)
    tried_at-Within s true e h l b = keep _ (released-Within job s h)
    tried_at-Within s false e h l b =
        let r = services.admit job s.world.0 in swept-Within s r.0 r.1 h l (ground (arith, e)) b

    swept_at-Within :
        (s : Sweep (Logged World) Error) (full : Bool)
        → leb limits.available s.admitted ≡ full
        → Within s
        → limits.namespace_limit ≤ bound
        → Within (swept_at (logged services) limits job jobs s rest full)
    swept_at-Within s true e h b = release_all-Within (job ∷ jobs) s h
    swept_at-Within s false e h b =
        tried_at-Within s (leb limits.namespace_limit (s.by_namespace job.namespace)) refl h
          (ground (arith, e)) b

  sweep-Within :
      (jobs : List RuntimeJob) (s : Sweep (Logged World) Error)
      → limits.namespace_limit ≤ bound
      → Within s
      → Within (sweep (logged services) limits jobs s)
  unfolding sweep
  sweep-Within [] s b h = h
  sweep-Within (job ∷ jobs) s b h =
      swept_at-Within job jobs (sweep (logged services) limits jobs)
        (λ t k. sweep-Within jobs t b k) s (leb limits.available s.admitted) refl h b

-- The log has no more jobs than there is room for, and with the jobs that a namespace has at the start no
-- more of it than the bound.
abbrev pub IsBounded :
    {World Error : Type 0} → Limits → Text → ℕ → ℕ → Sweep (Logged World) Error → Type 0
IsBounded limits n base bound s =
    (length s.world.1 ≤ limits.available) × (base + count_in n s.world.1 ≤ bound)

module _ {World Error : Type 0} (services : Services World Error) (limits : Limits) (n : Text)
    (bound : ℕ) (jobs : List RuntimeJob) (starts : running_in n jobs ≤ bound)
    (allowed : limits.namespace_limit ≤ bound) where
  claimed-IsBounded :
      (answer : Result Error (List RuntimeJob)) (w : World)
      → IsBounded limits n
          (running_in n jobs)
          bound
          (claimed (logged services) limits jobs (answer, (w, [])))
  unfolding count_in
  claimed-IsBounded (err e) w = (omega arith, omega (arith, starts))
  claimed-IsBounded (ok eligible) w =
      let start : Sweep (Logged World) Error = record {
        world = (w, []);
        by_namespace = λ t. running_in t jobs;
        admitted = 0;
        errors = [];
      } in
      let first : Within services limits n (running_in n jobs) bound start = record {
        all_counted = refl;
        namespace_counted = omega arith;
        has_room = omega arith;
        is_under = starts;
      } in
      let h =
        sweep-Within services limits n (running_in n jobs) bound eligible start allowed first in
      (omega (arith, h.all_counted, h.has_room), omega (arith, h.namespace_counted, h.is_under))

  validated-IsBounded :
      (answer : Option Error) (w : World)
      → IsBounded limits n
          (running_in n jobs)
          bound
          (validated (logged services) limits jobs (answer, (w, [])))
  unfolding count_in
  validated-IsBounded (some e) w = (omega arith, omega (arith, starts))
  validated-IsBounded none w =
      let r = services.claim_eligible (length jobs + limits.available) w in
      claimed-IsBounded r.0 r.1

-- Whatever the calls answer, scheduleLegacy admits no more jobs than there is room for, and the jobs
-- that run in a namespace are, with those that it admits there, not more than the limit of a namespace
-- or, where more ran at the start, than these.
pub schedule_legacy-IsBounded :
    {World Error : Type 0} (services : Services World Error) (limits : Limits) (n : Text)
    (bound : ℕ) (jobs : List RuntimeJob) (w : World)
    → running_in n jobs ≤ bound
    → limits.namespace_limit ≤ bound
    → IsBounded limits n
        (running_in n jobs)
        bound
        (schedule_legacy (logged services) limits jobs (w, []))
unfolding schedule_legacy
schedule_legacy-IsBounded services limits n bound jobs w starts allowed =
    let r = services.revalidate w in
    validated-IsBounded services limits n bound jobs starts allowed r.0 r.1
