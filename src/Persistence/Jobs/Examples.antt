-- ===== src/Persistence/Jobs/Examples.antt =====
-- A queued job that is placed, and a queue that is reordered.
use kube_queue.Common.{
  ◌≡◌, inl, inr, refl, pos, codes, text_eq, text_eq_iff, is_listed, none, ok, err, [], ◌∷◌,
}
use kube_queue.Domain.Lifecycle.{created, queued, managed, synced}
use kube_queue.Persistence.Quotas.History.{no_tables}
use kube_queue.Persistence.Jobs.{JobRow, Store, JobError, get_job, update_job}
use kube_queue.Persistence.Jobs.Marks.{update_queue, placed}
use kube_queue.Persistence.Jobs.Reorder.{
  at_position, queued_jobs, has_duplicate, lacks_job, is_inverted, place_from, reorder,
}
use kube_queue.Persistence.Jobs.Ids.{IsDistinct}
use kube_queue.Persistence.Jobs.Queued.{ids_of}
use kube_queue.Persistence.Jobs.Reordered.{IsReordered, reorder-IsReordered}
use kube_queue.Persistence.Jobs.Versions.{update_queue_once}

abbrev waiting : JobRow
waiting = record {
  id = codes "j";
  desired = queued;
  seen = created;
  management = managed;
  sync_status = synced;
  priority = pos 0;
  position = pos 1;
  scheduled_for = none;
  kubernetes_uid = codes "u";
  resource_version = codes "7";
  pending_action = none;
  reconcile_retries = 0;
  next_reconcile_at = none;
  archived_at = none;
  version = 1;
  created_at = 10;
}

abbrev store : Store
store = record {
  jobs = waiting ∷ [];
  queue_version = 4;
  claims = record { job = codes "j"; holder = codes "w"; expires = 50 } ∷ [];
  events = [];
  quota = no_tables;
}

abbrev moved : Store
moved = placed (codes "j") (pos 5) (pos 1) none store

update_queue_once_example :
    (reason : JobError) × (update_queue (codes "j") (pos 1) (pos 9) 1 none moved ≡ err reason)
unfolding update_queue get_job text_eq
update_queue_once_example =
    update_queue_once (codes "j") (pos 5) (pos 1) (pos 1) (pos 9) 1 none none store moved refl

abbrev behind : JobRow
behind = record waiting { id = codes "k"; position = pos 2 }

abbrev both : Store
both = record store { jobs = waiting ∷ behind ∷ [] }

abbrev swapped : Store
swapped = record both {
  jobs = at_position 2 waiting ∷ at_position 1 behind ∷ [];
  queue_version = 5;
  events =
      record { job_id = codes "j"; kind = codes "QUEUE_REORDERED" }
      ∷ record { job_id = codes "k"; kind = codes "QUEUE_REORDERED" }
      ∷ [];
}

swap_runs : reorder (codes "k" ∷ codes "j" ∷ []) 4 both ≡ ok (5, swapped)
unfolding reorder queued_jobs has_duplicate lacks_job is_inverted place_from get_job update_job
    text_eq is_listed
swap_runs = refl

keys_differ : ¬ (codes "j" ≡ codes "k")
unfolding text_eq
keys_differ e = cc ((text_eq_iff (codes "j") (codes "k")).1 e)

both_keys : IsDistinct (ids_of both.jobs)
both_keys = ((λ m. elim m [ inl e ↦ keys_differ e | inr n ↦ elim n [ ] ]), ((λ m. elim m [ ]), tt))

reorder-IsReordered_example : IsReordered (codes "k" ∷ codes "j" ∷ []) 4 both 5 swapped
reorder-IsReordered_example =
    reorder-IsReordered (codes "k" ∷ codes "j" ∷ []) 4 both 5 swapped both_keys swap_runs
