-- ===== src/Scheduler/Fairness/Ahead.antt =====
-- How many decisions may go to other projects before one project has its turn, and that each decision
-- for another project uses up one of them.
use mathlib.Core.List.{append_assoc}
use kube_queue.Common.{
  ℕ, ◌+◌, ◌-◌, ◌≤◌, ◌<◌, ◌≡◌, ◌≢◌, refl, sym, subst, Bool, true, false, ◌||◌, ◌==◌, if◌then◌else◌,
  Text, text_eq, text_eq_iff, text_eq_refl, codes, List, [], ◌∷◌, ◌++◌, All, All-map, Option, none,
  some, arith, ◌⊎◌, inl, inr, Bool-cases,
}
use kube_queue.Scheduler.Input.{standard, Policy, Job, Project, State, Decision, Outcome}
use kube_queue.Scheduler.Order.{best_job}
use kube_queue.Scheduler.Select.{
  deficit_of, set_deficit, deficit_before, decision, head_id, serve, scan,
}
use kube_queue.Scheduler.Select.Selected.{visited}
use kube_queue.Scheduler.Fairness.Turn.{IsTurn, IsTurn-next, IsDistinct}

pub deficit_of-set_deficit :
    (id : Text) (n : ℕ) (entries : List (Text × ℕ)) → deficit_of id (set_deficit id n entries) ≡ n
unfolding deficit_of set_deficit
deficit_of-set_deficit id n [] = rw (text_eq_refl id) refl
deficit_of-set_deficit id n (e ∷ entries) = elim (Bool-cases (text_eq e.0 id)) [
  | inl same ↦ rw (same, text_eq_refl id) refl
  | inr other ↦ rw (other, other) (deficit_of-set_deficit id n entries)
]

pub deficit_of-set_deficit_ne :
    (id key : Text) (n : ℕ) (entries : List (Text × ℕ))
    → text_eq id key ≡ false
    → deficit_of id (set_deficit key n entries) ≡ deficit_of id entries
unfolding deficit_of set_deficit
deficit_of-set_deficit_ne id key n [] h = ground (arith, text_eq_iff key id, text_eq_iff id key)
deficit_of-set_deficit_ne id key n (e ∷ entries) h = ground (
  arith,
  text_eq_iff key id,
  text_eq_iff id key,
  text_eq_iff e.0 key,
  text_eq_iff e.0 id,
  deficit_of-set_deficit_ne id key n entries,
)

-- The same projects with the jobs that are queued in a round.
abbrev pub with_jobs : (Text → List Job) → Project → Project
with_jobs stock p = record p { jobs = stock p.id }

abbrev pub stocked : (Text → List Job) → List Project → List Project
stocked stock [] = []
stocked stock (p ∷ ps) = with_jobs stock p ∷ stocked stock ps

-- Whether a decision is for a project.
abbrev pub is_named : Text → Option Decision → Bool
is_named id none = false
is_named id (some d) = text_eq d.project_id id

abbrev pub has_id : Text → List Project → Bool
has_id id [] = false
has_id id (p ∷ ps) = text_eq p.id id || has_id id ps

-- What the projects before one may still be given.
unfoldable pub ahead : Text → State → List Project → ℕ
ahead id state [] = 0
ahead id state (p ∷ ps) = if text_eq p.id id then 0 else deficit_before state p + ahead id state ps

pub ahead_same :
    (id : Text) (s s' : State) (ps : List Project)
    → All (λ p. deficit_of p.id s.deficits ≡ deficit_of p.id s'.deficits) ps
    → ahead id s ps ≡ ahead id s' ps
unfolding ahead
ahead_same id s s' [] h = refl
ahead_same id s s' (p ∷ ps) (h, hs) = rw (h, ahead_same id s s' ps hs) refl

ahead-append :
    (id : Text) (s : State) (ps qs : List Project)
    → has_id id ps ≡ true
    → ahead id s (ps ++ qs) ≡ ahead id s ps
unfolding ahead
ahead-append id s [] qs h = cc
ahead-append id s (p ∷ ps) qs h = ground (arith, ahead-append id s ps qs)

has_id-append :
    (id : Text) (ps qs : List Project) → has_id id ps ≡ true → has_id id (ps ++ qs) ≡ true
has_id-append id [] qs h = cc
has_id-append id (p ∷ ps) qs h = ground (arith, has_id-append id ps qs)

head_id-append :
    (id other another : Text) (ps qs : List Project)
    → has_id id ps ≡ true
    → head_id ps other ≡ head_id (ps ++ qs) another
head_id-append id other another [] qs h = cc
head_id-append id other another (p ∷ ps) qs h = refl

head_id-stocked :
    (stock : Text → List Job) (ps : List Project) (other : Text)
    → head_id (stocked stock ps) other ≡ head_id ps other
head_id-stocked stock [] other = refl
head_id-stocked stock (p ∷ ps) other = refl

-- A decision for the project, or a state and a rotation with fewer decisions ahead of it.
abbrev pub Progress : Text → List Project → ℕ → Outcome → Type 0
Progress id ordered bound outcome =
    (is_named id outcome.decision ≡ true)
    ⊎ ((turn : List Project) × IsTurn ordered turn
        × (has_id id turn ≡ true)
        × (outcome.state.next_project_id ≡ head_id turn (codes ""))
        × (ahead id outcome.state turn < bound))

Progress-mono :
    (id : Text) (ordered : List Project) (m n : ℕ) (o : Outcome)
    → m ≤ n
    → Progress id ordered m o
    → Progress id ordered n o
Progress-mono id ordered m n o l (inl e) = inl e
Progress-mono id ordered m n o l (inr (turn, t, h, e, b)) = inr (turn, t, h, e, omega arith)

-- Setting the deficit of one project leaves what the others may be given.
ahead-set_deficit :
    (id key : Text) (n : ℕ) (s s' : State) (ps : List Project)
    → s'.deficits ≡ set_deficit key n s.deficits
    → All (λ q. text_eq q.id key ≡ false) ps
    → ahead id s' ps ≡ ahead id s ps
ahead-set_deficit id key n s s' ps e h =
    ahead_same id s' s ps
      (All-map ps (λ q f. rw e (deficit_of-set_deficit_ne q.id key n s.deficits f)) h)

deficit_before_pos : (s : State) (p : Project) → p.weight ≢ 0 → 1 ≤ deficit_before s p
deficit_before_pos s p w = ground arith

-- A deficit that is set and not 0 is what the project may be given.
deficit_before-set_deficit :
    (n : ℕ) (s s' : State) (p : Project)
    → s'.deficits ≡ set_deficit p.id n s.deficits
    → (n == 0) ≡ false
    → deficit_before s' p ≡ n
deficit_before-set_deficit n s s' p e h = rw (e, deficit_of-set_deficit p.id n s.deficits, h) refl

module _ (policy : Policy) (stock : Text → List Job) (id : Text) (ordered : List Project) where
  serve-Progress :
      (skipped ps : List Project) (p : Project) (state : State) (job : Job) (first : Text)
      → IsTurn ordered (skipped ++ (p ∷ ps))
      → All (λ q. text_eq q.id p.id ≡ false) ps
      → p.weight ≢ 0
      → text_eq p.id id ≡ false
      → has_id id ps ≡ true
      → Progress id ordered
          (ahead id state (p ∷ ps))
          (serve policy state (with_jobs stock p) job (head_id (stocked stock ps) first))
  unfolding serve decision ahead
  serve-Progress skipped ps p state job first t d w o h =
      let before = deficit_before state p in
      let next =
        (serve policy state (with_jobs stock p) job (head_id (stocked stock ps) first)).state in
      let same = ahead-set_deficit id p.id (before - 1) state next ps refl d in
      let positive = deficit_before_pos state p w in
      elim (Bool-cases (before - 1 == 0)) [
        | inl last ↦
            let turn = ps ++ (skipped ++ (p ∷ [])) in
            inr (
              turn,
              IsTurn-next ordered (skipped ++ (p ∷ [])) ps
                  (subst (λ r. IsTurn ordered r) (sym (append_assoc skipped (p ∷ []) ps)) t),
              has_id-append id ps (skipped ++ (p ∷ [])) h,
              ground (
                arith,
                last,
                head_id-stocked stock ps first,
                head_id-append id first (codes "") ps (skipped ++ (p ∷ [])) h,
              ),
              rw (o, ahead-append id next ps (skipped ++ (p ∷ [])) h, same) (omega arith),
            )
        | inr more ↦ inr (
          (p ∷ ps) ++ skipped,
          IsTurn-next ordered skipped (p ∷ ps) t,
          has_id-append id (p ∷ ps) skipped (rw o h),
          ground (arith, more),
          rw
              (
                o,
                ahead-append id next ps skipped h,
                same,
                deficit_before-set_deficit (before - 1) state next p refl more,
              )
              (omega arith),
        )
      ]

  visited-Progress :
      (skipped ps : List Project) (p : Project) (state : State) (first : Text) (found : Option Job)
      → IsTurn ordered (skipped ++ (p ∷ ps))
      → All (λ q. text_eq q.id p.id ≡ false) ps
      → p.weight ≢ 0
      → has_id id (p ∷ ps) ≡ true
      → (text_eq p.id id ≡ true → (j : Job) × (found ≡ some j))
      → ((next : State)
          → has_id id ps ≡ true
          → Progress id ordered (ahead id next ps) (scan policy first (stocked stock ps) next))
      → Progress id ordered
          (ahead id state (p ∷ ps))
          (visited policy first (with_jobs stock p) (stocked stock ps) state found)
  unfolding serve decision ahead
  visited-Progress skipped ps p state first none t d w h c rest =
      elim (Bool-cases (text_eq p.id id)) [
        | inl e ↦ cc (c e).1
        | inr o ↦
            let next : State = record state { deficits = set_deficit p.id 0 state.deficits } in
            let fewer : ahead id next ps ≤ ahead id state (p ∷ ps) =
              rw (o, ahead-set_deficit id p.id 0 state next ps refl d) (omega arith) in
            Progress-mono id ordered (ahead id next ps) (ahead id state (p ∷ ps))
              (scan policy first (stocked stock ps) next) fewer (rest next (rw o at h))
      ]
  visited-Progress skipped ps p state first (some j) t d w h c rest =
      elim (Bool-cases (text_eq p.id id)) [
        | inl e ↦ inl e
        | inr o ↦ serve-Progress skipped ps p state j first t d w o (rw o at h)
      ]

  pub scan-Progress :
      (skipped ps : List Project) (state : State) (first : Text)
      → IsTurn ordered (skipped ++ ps)
      → IsDistinct ps
      → All (λ p. p.weight ≢ 0) ps
      → has_id id ps ≡ true
      → ((j : Job) × (best_job (stock id) standard policy ≡ some j))
      → Progress id ordered (ahead id state ps) (scan policy first (stocked stock ps) state)
  unfolding scan
  scan-Progress skipped [] state first t d w h c = cc
  scan-Progress skipped (p ∷ ps) state first t (d, ds) (w, ws) h c =
      visited-Progress skipped ps p state first (best_job (stock p.id) standard policy) t d w h
        (λ e. rw ((text_eq_iff p.id id).0 e) c)
        (λ next g.
          scan-Progress (skipped ++ (p ∷ [])) ps next first
            (subst (λ r. IsTurn ordered r) (sym (append_assoc skipped (p ∷ []) ps)) t) ds ws g c)
