-- ===== src/Scheduler/Fairness/Weights.antt =====
-- The weights of the projects, and the projects that validation lets through.
use mathlib.Core.List.{Memᴰ}
use mathlib.Core.List.Memᴰ.{head, tail}
use kube_queue.Common.{
  ℕ, ◌+◌, ◌≤◌, ◌<◌, ◌≡◌, ◌≢◌, refl, true, false, Text, text_eq_iff, text_eq_refl, List, [], ◌∷◌,
  ◌++◌, All, All-map, arith, ok, is_listed,
}
use kube_queue.Scheduler.Input.{Project, State, validate_projects, exceeds_weight}
use kube_queue.Scheduler.Select.{deficit_before, insert_project, sort_projects}
use kube_queue.Scheduler.Select.Validated.{validate_projects-parts, validate_projects-fresh}
use kube_queue.Scheduler.Fairness.Turn.{IsTurn, IsDistinct}
use kube_queue.Scheduler.Fairness.Ahead.{has_id, ahead}

-- The sum of the weights.
abbrev pub total_weight : List Project → ℕ
total_weight [] = 0
total_weight (p ∷ ps) = p.weight + total_weight ps

pub total_weight-append :
    (u v : List Project) → total_weight (u ++ v) ≡ total_weight u + total_weight v
total_weight-append [] v = ground arith
total_weight-append (p ∷ u) v = ground (arith, total_weight-append u v)

pub total_weight-IsTurn :
    (ordered turn : List Project) → IsTurn ordered turn → total_weight turn ≡ total_weight ordered
total_weight-IsTurn ordered turn (u, v, o, t) =
    rw (o, t, total_weight-append u v, total_weight-append v u) (omega arith)

pub total_weight-insert_project :
    (p : Project) (ps : List Project)
    → total_weight (insert_project p ps) ≡ p.weight + total_weight ps
unfolding insert_project
total_weight-insert_project p [] = refl
total_weight-insert_project p (q ∷ ps) = ground (arith, total_weight-insert_project p ps)

pub total_weight-sort_projects :
    (ps : List Project) → total_weight (sort_projects ps) ≡ total_weight ps
unfolding sort_projects
total_weight-sort_projects [] = refl
total_weight-sort_projects (p ∷ ps) =
    ground (arith, total_weight-insert_project p (sort_projects ps), total_weight-sort_projects ps)

-- What is ahead of a project is less than the sum of the weights.
pub ahead-lt-total_weight :
    (id : Text) (s : State) (ps : List Project)
    → All (λ p. (p.weight ≢ 0) × (deficit_before s p ≤ p.weight)) ps
    → has_id id ps ≡ true
    → ahead id s ps < total_weight ps
unfolding ahead
ahead-lt-total_weight id s [] h k = cc
ahead-lt-total_weight id s (p ∷ ps) (h, hs) k = ground (arith, ahead-lt-total_weight id s ps hs)

pub has_id-carried :
    (id : Text) (ps qs : List Project)
    → All (λ p. has_id p.id qs ≡ true) ps
    → has_id id ps ≡ true
    → has_id id qs ≡ true
has_id-carried id [] qs h k = cc
has_id-carried id (p ∷ ps) qs (h, hs) k =
    ground (arith, h, has_id-carried id ps qs hs, text_eq_iff p.id id)

pub validate_projects-IsDistinct :
    (seen : List Text) (ps : List Project) → validate_projects seen ps ≡ ok tt → IsDistinct ps
unfolding is_listed
validate_projects-IsDistinct seen [] h = tt
validate_projects-IsDistinct seen (p ∷ ps) h =
    let (_, _, rest) = validate_projects-parts seen p ps h in
    (
      All-map ps (λ q f. ground (arith, f)) (validate_projects-fresh (p.id ∷ seen) ps rest),
      validate_projects-IsDistinct (p.id ∷ seen) ps rest,
    )

pub exceeds_weight_member :
    (p : Project) (n : ℕ) (ps : List Project)
    → Memᴰ p ps
    → exceeds_weight (p.id, n) ps ≡ false
    → n < p.weight
unfolding exceeds_weight
exceeds_weight_member p n [] m h = elim m [ ]
exceeds_weight_member p n (q ∷ ps) (head e) h =
    rw e (ground (arith, text_eq_refl q.id, (rw e at h)))
exceeds_weight_member p n (q ∷ ps) (tail m) h = ground (arith, exceeds_weight_member p n ps m)

pub has_id-All : (ps : List Project) → All (λ p. has_id p.id ps ≡ true) ps
has_id-All [] = tt
has_id-All (p ∷ ps) =
    (rw (text_eq_refl p.id) refl, All-map ps (λ q h. ground (arith, h)) (has_id-All ps))
