-- ===== src/Persistence/Admission/Fairness.antt =====
-- internal/adapters/persistence/scheduling.go: FairnessState and the batch of projects that it checks. The
-- map of deficits is the list of its entries, in the order of the batch.
use kube_queue.Common.{
  ℕ, Bool, true, not, ◌&&◌, ◌||◌, ltb, Text, is_empty, is_listed, codes, List, [], ◌∷◌, map, length,
  Option, none, some, Result, ok, ◌>>◌, fail_if, ◌==◌,
}
use kube_queue.Scheduler.Input.{State}
use kube_queue.Scheduler.Select.{deficit_of}
use kube_queue.Persistence.Admission.{Database}

pub data FairnessError : Type 0 where
  installation_required batch_size project_required project_duplicate project_unknown :
      FairnessError

-- The loop of validateProjectBatch.
unfoldable pub validate_batch : List Text → List Text → Result FairnessError (Unit {0})
validate_batch seen [] = ok tt
validate_batch seen (id ∷ ids) =
    fail_if (is_empty id) project_required
    >> (fail_if (is_listed id seen) project_duplicate >> validate_batch (id ∷ seen) ids)

-- validateProjectBatch
unfoldable pub validate_project_batch : Text → List Text → Bool → Result FairnessError (Unit {0})
validate_project_batch installation_id ids allow_empty =
    fail_if (is_empty installation_id) installation_required
    >> (fail_if (not allow_empty && (length ids == 0) || ltb 200 (length ids)) batch_size
        >> validate_batch [] ids)

unfoldable pub all_listed : List Text → List Text → Bool
all_listed [] projects = true
all_listed (id ∷ ids) projects = is_listed id projects && all_listed ids projects

-- COALESCE on the joined cursor.
abbrev pub cursor_or : Option (ℕ × Text) → ℕ × Text
cursor_or none = (0, codes "")
cursor_or (some cursor) = cursor

-- FairnessState: the version and the state.
unfoldable pub fairness_state : Text → List Text → Database → Result FairnessError (ℕ × State)
fairness_state installation_id ids db = do
  validate_project_batch installation_id ids true
  fail_if (not (all_listed ids db.projects)) project_unknown
  let cursor = cursor_or db.cursor
  ok (
    cursor.0,
    record {
      next_project_id = cursor.1;
      deficits = map (λ (id : Text). (id, deficit_of id db.deficits)) ids;
    },
  )
