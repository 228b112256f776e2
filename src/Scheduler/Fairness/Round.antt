-- ===== src/Scheduler/Fairness/Round.antt =====
-- One round of Select without emergency work.
use mathlib.Core.List.{Memᴰ}
use kube_queue.Common.{
  ◌≡◌, ◌≢◌, ◌∙◌, refl, ap, true, false, Text, text_eq, text_eq_iff, text_eq_refl, codes, List, [],
  ◌∷◌, All, All-map, none, some, arith, inl, inr, Bool-cases, Option-cases,
}
use kube_queue.Scheduler.Input.{standard, emergency, Policy, Job, Project, State}
use kube_queue.Scheduler.Order.{best_job, best_emergency, is_candidate}
use kube_queue.Scheduler.Order.Best.{best_job-Best}
use kube_queue.Scheduler.Order.Urgent.{best_emergency-MostUrgent}
use kube_queue.Scheduler.Select.{
  deficit_of, normalized_state, start_index, rotated, head_id, scan, round_robin, select_ordered,
}
use kube_queue.Scheduler.Select.Carried.{All-of_member, All-rotated}
use kube_queue.Scheduler.Select.Selected.{HasNone, dispatched}
use kube_queue.Scheduler.Fairness.Turn.{IsTurn, IsAscending, IsTurn-IsDistinct, rotated-IsTurn}
use kube_queue.Scheduler.Fairness.Ahead.{stocked, has_id, ahead, Progress, scan-Progress}
use kube_queue.Scheduler.Fairness.Stocked.{start_index-stocked, rotated-stocked}

-- A lane with an eligible job has a best one.
pub best_job-of_candidate :
    (policy : Policy) (jobs : List Job) (j : Job)
    → Memᴰ j jobs
    → is_candidate standard j ≡ true
    → (b : Job) × (best_job jobs standard policy ≡ some b)
best_job-of_candidate policy jobs j m c = elim (Option-cases (best_job jobs standard policy)) [
  | inr found ↦ found
  | inl e ↦
      let best = best_job-Best standard policy jobs in
      cc (c, All-of_member (λ k. is_candidate standard k ≡ false) j jobs m (rw e at best))
]

-- Without an eligible emergency job there is no best one.
pub best_emergency-none :
    (policy : Policy) (ps : List Project) → HasNone emergency ps → best_emergency ps policy ≡ none
best_emergency-none policy ps h = elim (Option-cases (best_emergency ps policy)) [
  | inl e ↦ e
  | inr ((p, j), e) ↦
      let urgent = best_emergency-MostUrgent policy ps in
      let ((m, k, c), _) = rw e at urgent in
      absurd (
        All-of_member (λ q. is_candidate emergency q ≡ true → ⊥) j p.jobs k
          (All-of_member _ p ps m h) c)
]

pub select_ordered-calm :
    (policy : Policy) (next : State) (ps : List Project)
    → best_emergency ps policy ≡ none
    → select_ordered policy next ps ≡ round_robin policy next ps
unfolding select_ordered
select_ordered-calm policy next ps e = ap (dispatched policy next ps) e

-- The deficits that a round starts from are those of the state.
pub deficit_of-normalized_state :
    (id : Text) (state : State) (ps : List Project)
    → has_id id ps ≡ true
    → deficit_of id (normalized_state state ps).deficits ≡ deficit_of id state.deficits
unfolding deficit_of normalized_state
deficit_of-normalized_state id state [] h = cc
deficit_of-normalized_state id state (p ∷ ps) h = elim (Bool-cases (text_eq p.id id)) [
  | inl e ↦ rw e (ap (λ i. deficit_of i state.deficits) ((text_eq_iff p.id id).0 e))
  | inr e ↦ rw e (deficit_of-normalized_state id state ps (rw e at h))
]

pub has_id_self :
    (stock : Text → List Job) (ps : List Project)
    → All (λ p. has_id p.id (stocked stock ps) ≡ true) ps
has_id_self stock [] = tt
has_id_self stock (p ∷ ps) =
    (rw (text_eq_refl p.id) refl, All-map ps (λ q h. ground (arith, h)) (has_id_self stock ps))

has_id-stocked :
    (stock : Text → List Job) (id : Text) (ps : List Project)
    → has_id id (stocked stock ps) ≡ has_id id ps
has_id-stocked stock id [] = refl
has_id-stocked stock id (p ∷ ps) = rw (has_id-stocked stock id ps) refl

round_robin-scan :
    (policy : Policy) (next : State) (id : Text) (ps turn : List Project)
    → rotated (start_index ps next.next_project_id) ps ≡ turn
    → has_id id turn ≡ true
    → round_robin policy next ps ≡ scan policy (head_id turn (codes "")) turn next
unfolding round_robin start_index
round_robin-scan policy next id [] turn r h = cc (r, h)
round_robin-scan policy next id (p ∷ ps) turn r h = rw r refl

pub round_robin-Progress :
    (policy : Policy) (stock : Text → List Job) (id : Text) (ordered turn : List Project)
    (next : State)
    → IsAscending ordered
    → All (λ p. p.weight ≢ 0) ordered
    → ((j : Job) × (best_job (stock id) standard policy ≡ some j))
    → rotated (start_index ordered next.next_project_id) ordered ≡ turn
    → has_id id turn ≡ true
    → Progress id ordered (ahead id next turn) (round_robin policy next (stocked stock ordered))
round_robin-Progress policy stock id ordered turn next asc w found r h =
    let start = start_index ordered next.next_project_id in
    let stocked_turn : rotated (start_index (stocked stock ordered) next.next_project_id)
          (stocked stock ordered)
        ≡ stocked stock turn =
      rw (start_index-stocked stock ordered next.next_project_id)
        (rotated-stocked stock start ordered ∙ ap (stocked stock) r) in
    let is_turn : IsTurn ordered turn = rw r at (rotated-IsTurn start ordered) in
    let weights : All (λ p. p.weight ≢ 0) turn =
      rw r at (All-rotated (λ p. p.weight ≢ 0) start ordered w) in
    rw
      (round_robin-scan policy next id (stocked stock ordered) (stocked stock turn) stocked_turn
        (has_id-stocked stock id turn ∙ h))
      (scan-Progress policy stock id ordered [] turn next (head_id (stocked stock turn) (codes ""))
        is_turn (IsTurn-IsDistinct ordered turn asc is_turn) weights h found)
