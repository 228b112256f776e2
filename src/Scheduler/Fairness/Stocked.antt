-- ===== src/Scheduler/Fairness/Stocked.antt =====
-- Sorting and rotating projects leaves their jobs aside.
use kube_queue.Common.{
  ℕ, zero, suc, ◌≡◌, ◌∙◌, refl, ap, Text, text_lt, length, take, List, [], ◌∷◌, ◌++◌, Bool-cases,
  inl, inr,
}
use kube_queue.Scheduler.Input.{Job, Project, exceeds_weight, validate_deficits}
use kube_queue.Scheduler.Select.{
  insert_project, sort_projects, position, start_index, drop, rotated,
}
use kube_queue.Scheduler.Fairness.Ahead.{stocked, with_jobs}

module _ (stock : Text → List Job) where
  insert_project-stocked :
      (p : Project) (ps : List Project)
      → insert_project (with_jobs stock p) (stocked stock ps) ≡ stocked stock (insert_project p ps)
  unfolding insert_project
  insert_project-stocked p [] = refl
  insert_project-stocked p (q ∷ ps) = elim (Bool-cases (text_lt q.id p.id)) [
    | inl e ↦ rw e (ap (λ r. with_jobs stock q ∷ r) (insert_project-stocked p ps))
    | inr e ↦ rw e refl
  ]

  pub sort_projects-stocked :
      (ps : List Project) → sort_projects (stocked stock ps) ≡ stocked stock (sort_projects ps)
  unfolding sort_projects
  sort_projects-stocked [] = refl
  sort_projects-stocked (p ∷ ps) =
      ap (insert_project (with_jobs stock p)) (sort_projects-stocked ps)
      ∙ insert_project-stocked p (sort_projects ps)

  length-stocked : (ps : List Project) → length (stocked stock ps) ≡ length ps
  length-stocked [] = refl
  length-stocked (p ∷ ps) = ap suc (length-stocked ps)

  position-stocked :
      (ps : List Project) (id : Text) → position (stocked stock ps) id ≡ position ps id
  unfolding position
  position-stocked [] id = refl
  position-stocked (p ∷ ps) id = rw (position-stocked ps id) refl

  pub start_index-stocked :
      (ps : List Project) (id : Text) → start_index (stocked stock ps) id ≡ start_index ps id
  unfolding start_index
  start_index-stocked ps id = rw (position-stocked ps id, length-stocked ps) refl

  append-stocked :
      (ps qs : List Project) → stocked stock ps ++ stocked stock qs ≡ stocked stock (ps ++ qs)
  append-stocked [] qs = refl
  append-stocked (p ∷ ps) qs = ap (λ r. with_jobs stock p ∷ r) (append-stocked ps qs)

  drop-stocked : (n : ℕ) (ps : List Project) → drop n (stocked stock ps) ≡ stocked stock (drop n ps)
  drop-stocked zero ps = refl
  drop-stocked (suc n) [] = refl
  drop-stocked (suc n) (p ∷ ps) = drop-stocked n ps

  take-stocked : (n : ℕ) (ps : List Project) → take n (stocked stock ps) ≡ stocked stock (take n ps)
  take-stocked zero ps = refl
  take-stocked (suc n) [] = refl
  take-stocked (suc n) (p ∷ ps) = ap (λ r. with_jobs stock p ∷ r) (take-stocked n ps)

  pub rotated-stocked :
      (n : ℕ) (ps : List Project) → rotated n (stocked stock ps) ≡ stocked stock (rotated n ps)
  rotated-stocked n ps =
      rw (drop-stocked n ps, take-stocked n ps) (append-stocked (drop n ps) (take n ps))

  pub exceeds_weight-stocked :
      (entry : Text × ℕ) (ps : List Project)
      → exceeds_weight entry (stocked stock ps) ≡ exceeds_weight entry ps
  unfolding exceeds_weight
  exceeds_weight-stocked entry [] = refl
  exceeds_weight-stocked entry (p ∷ ps) = rw (exceeds_weight-stocked entry ps) refl

  pub validate_deficits-stocked :
      (entries : List (Text × ℕ)) (ps : List Project)
      → validate_deficits entries (stocked stock ps) ≡ validate_deficits entries ps
  unfolding validate_deficits
  validate_deficits-stocked [] ps = refl
  validate_deficits-stocked (e ∷ entries) ps =
      rw (exceeds_weight-stocked e ps, validate_deficits-stocked entries ps) refl
