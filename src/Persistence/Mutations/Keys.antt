-- ===== src/Persistence/Mutations/Keys.antt =====
-- The rows that two requests of one key read, and what a completed row reads as.
use kube_queue.Common.{
  ◌≡◌, refl, sym, ap, subst, inl, inr, true, text_eq_iff, List, [], ◌∷◌, Result, ok, err,
  ok-injective, arith, Bool-cases,
}
use kube_queue.Leadership.Mutation.{MutationState}
use kube_queue.Persistence.Mutations.Table.{
  MutationRequest, MutationRecord, Row, ReadError, read_mutation, read_row, is_same_request,
  record_of, parse_mutation_state,
}

-- Two requests of one key read the same row.
pub read_same_key :
    (table : List Row) (r s : MutationRequest)
    → is_same_request r s ≡ true
    → read_mutation table r ≡ read_mutation table s
unfolding read_mutation
read_same_key [] r s e = refl
read_same_key (row ∷ table) r s e =
    let key : is_same_request row.request r ≡ is_same_request row.request s = ground (
      arith,
      text_eq_iff r.job_id s.job_id,
      text_eq_iff r.operation s.operation,
      text_eq_iff r.request_identity s.request_identity,
    ) in
    rw (key, read_same_key table r s e) refl

read_row_key : (row : Row) (r : MutationRecord) → read_row row ≡ ok r → r.request ≡ row.request
unfolding read_row
read_row_key row r e = keyed_by (parse_mutation_state row.state) e
  where
    keyed_by :
        (parsed : Result ReadError MutationState)
        → (elim parsed as (λ _. Result ReadError MutationRecord) [
          | err e ↦ err e
          | ok state ↦ ok (record_of row state)
        ])
          ≡ ok r
        → r.request ≡ row.request
    keyed_by (err f) e = cc
    keyed_by (ok state) e = ap (λ (t : MutationRecord). t.request) (sym (ok-injective e))

-- What is read under a request has its key.
pub read_key :
    (table : List Row) (q : MutationRequest) (r : MutationRecord)
    → read_mutation table q ≡ ok r
    → is_same_request r.request q ≡ true
unfolding read_mutation
read_key [] q r e = cc
read_key (row ∷ table) q r e = elim (Bool-cases (is_same_request row.request q)) [
  | inl same ↦
      let e' : read_row row ≡ ok r = rw same at e in
      subst (λ t. is_same_request t q ≡ true) (sym (read_row_key row r e')) same
  | inr other ↦ read_key table q r (rw other at e)
]
