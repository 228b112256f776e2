-- ===== src/Scheduler/Select/Carried.antt =====
-- Predicates of all projects, carried to the sorted list and to a rotation, and back.
use mathlib.Core.List.{Memᴰ}
use mathlib.Core.List.Memᴰ.{head, tail}
use kube_queue.Common.{
  refl, zero, suc, ℕ, List, [], ◌∷◌, ◌++◌, take, All, All-map, inl, inr, Bool-cases, text_lt,
}
use kube_queue.Scheduler.Input.{Project}
use kube_queue.Scheduler.Select.{insert_project, sort_projects, drop, rotated}

module _ {κ} (P : Project → Type κ) where
  pub insert_project-All :
      (p : Project) (ps : List Project) → P p → All P ps → All P (insert_project p ps)
  unfolding insert_project
  insert_project-All p [] h hs = (h, tt)
  insert_project-All p (q ∷ qs) h (hq, hs) = elim (Bool-cases (text_lt q.id p.id)) [
    | inl e ↦ rw e (hq, insert_project-All p qs h hs)
    | inr e ↦ rw e (h, (hq, hs))
  ]

  All-insert_project :
      (p : Project) (ps : List Project) → All P (insert_project p ps) → P p × All P ps
  unfolding insert_project
  All-insert_project p [] h = h
  All-insert_project p (q ∷ qs) h = elim (Bool-cases (text_lt q.id p.id)) [
    | inr e ↦ rw e at h
    | inl e ↦
        let both : P q × All P (insert_project p qs) = rw e at h in
        let (hp, rest) = All-insert_project p qs both.1 in (hp, (both.0, rest))
  ]

  pub sort_projects-All : (ps : List Project) → All P ps → All P (sort_projects ps)
  unfolding sort_projects
  sort_projects-All [] h = tt
  sort_projects-All (p ∷ ps) h =
      insert_project-All p (sort_projects ps) h.0 (sort_projects-All ps h.1)

  pub All-sort_projects : (ps : List Project) → All P (sort_projects ps) → All P ps
  unfolding sort_projects
  All-sort_projects [] h = tt
  All-sort_projects (p ∷ ps) h =
      let (hp, rest) = All-insert_project p (sort_projects ps) h in (hp, All-sort_projects ps rest)

  All-join : (xs ys : List Project) → All P xs → All P ys → All P (xs ++ ys)
  All-join [] ys h k = k
  All-join (x ∷ xs) ys h k = (h.0, All-join xs ys h.1 k)

  All-parts : (xs ys : List Project) → All P (xs ++ ys) → All P xs × All P ys
  All-parts [] ys h = (tt, h)
  All-parts (x ∷ xs) ys h = let (hx, hy) = All-parts xs ys h.1 in ((h.0, hx), hy)

  All-split : (n : ℕ) (xs : List Project) → All P xs → All P (drop n xs) × All P (take n xs)
  All-split zero xs h = (h, tt)
  All-split (suc n) [] h = (tt, tt)
  All-split (suc n) (x ∷ xs) h = let (d, t) = All-split n xs h.1 in (d, (h.0, t))

  All-unsplit : (n : ℕ) (xs : List Project) → All P (drop n xs) → All P (take n xs) → All P xs
  All-unsplit zero xs d t = d
  All-unsplit (suc n) [] d t = tt
  All-unsplit (suc n) (x ∷ xs) d t = (t.0, All-unsplit n xs d t.1)

  pub All-rotated : (n : ℕ) (xs : List Project) → All P xs → All P (rotated n xs)
  All-rotated n xs h = let (d, t) = All-split n xs h in All-join (drop n xs) (take n xs) d t

  pub rotated-All : (n : ℕ) (xs : List Project) → All P (rotated n xs) → All P xs
  rotated-All n xs h = let (d, t) = All-parts (drop n xs) (take n xs) h in All-unsplit n xs d t

pub All-self : (ps : List Project) → All (λ p. Memᴰ p ps) ps
All-self [] = tt
All-self (p ∷ ps) = (head refl, All-map ps (λ q m. tail m) (All-self ps))

pub All-of_member {ℓ κ} :
    {A : Type ℓ} (P : A → Type κ) (x : A) (xs : List A) → Memᴰ x xs → All P xs → P x
All-of_member P x [] m h = elim m [ ]
All-of_member P x (y ∷ xs) (head e) h = rw e h.0
All-of_member P x (y ∷ xs) (tail m) h = All-of_member P x xs m h.1

pub from_sorted : (ps : List Project) (p : Project) → Memᴰ p (sort_projects ps) → Memᴰ p ps
from_sorted ps p m =
    All-of_member (λ q. Memᴰ q ps) p (sort_projects ps) m
      (sort_projects-All (λ q. Memᴰ q ps) ps (All-self ps))
