-- ===== src/Persistence/Mutations/Table.antt =====
-- The rows of reconciliation_mutations, and their reading and writing. A text column of a time stands for
-- the instant, which its parsing gives back, and the generation is an int64.
use kube_queue.Common.{
  ℤ, to_uint64, to_int64, ◌-◌, ℕ, ◌+◌, Bool, true, false, ◌&&◌, ◌≡◌, refl, ltb, if◌then◌else◌, Text,
  text_eq, text_eq_iff, text_eq_refl, trim_space, codes, Option, Result, ok, err, List, [], ◌∷◌,
  arith, Bool-cases, inl, inr,
}
use kube_queue.Leadership.Mutation.{
  Mutation, MutationState, zero_state, ready, in_flight, observation_required, succeeded,
  unknown_state,
}

pub record MutationRequest : Type 0 where
  pub operation : Text
  pub job_id : Text
  pub attempt_identity : Text
  pub request_identity : Text

pub record MutationRecord : Type 0 where
  pub mutation : Mutation
  pub request : MutationRequest
  pub attempt_id : Text
  pub error_class : Text
  pub started_at : ℕ
  pub updated_at : ℕ
  pub observed_at : Option ℕ

pub record Row : Type 0 where
  pub request : MutationRequest
  pub attempt_id : Text
  pub generation : ℤ
  pub state : Text
  pub error_class : Text
  pub started_at : ℕ
  pub updated_at : ℕ
  pub observed_at : Option ℕ

pub data ReadError : Type 0 where
  no_rows : ReadError
  unknown_mutation_state : Text → ReadError

-- len(s), for the UTF-8 of the code points.
abbrev width : ℕ → ℕ
width c = if ltb c 0x80 then 1 else if ltb c 0x800 then 2 else if ltb c 0x10000 then 3 else 4

abbrev pub byte_length : Text → ℕ
byte_length [] = 0
byte_length (c ∷ s) = width c + byte_length s

-- `value[:limit]`, less the bytes of a character that the limit splits, which are no text.
unfoldable pub take_bytes : ℕ → Text → Text
take_bytes limit [] = []
take_bytes limit (c ∷ s) =
    let rest = take_bytes (limit - width c) s in if ltb limit (width c) then [] else c ∷ rest

-- boundedMutationValue
unfoldable pub bounded_mutation_value : Text → ℕ → Text
bounded_mutation_value value limit =
    let value = trim_space value in
    if ltb limit (byte_length value) then take_bytes limit value else value

unfoldable pub mutation_state_text : MutationState → Text
mutation_state_text ready = codes "READY"
mutation_state_text in_flight = codes "IN_FLIGHT"
mutation_state_text observation_required = codes "OBSERVATION_REQUIRED"
mutation_state_text succeeded = codes "SUCCEEDED"
mutation_state_text zero_state = codes ""
mutation_state_text unknown_state = codes ""

unfoldable pub parse_mutation_state : Text → Result ReadError MutationState
parse_mutation_state value =
    if text_eq value (codes "READY")
    then ok ready
    else if text_eq value (codes "IN_FLIGHT")
    then ok in_flight
    else if text_eq value (codes "OBSERVATION_REQUIRED")
    then ok observation_required
    else if text_eq value (codes "SUCCEEDED")
    then ok succeeded
    else err (unknown_mutation_state value)

-- WHERE job_id=? AND operation=? AND request_identity=?
abbrev pub is_same_request : MutationRequest → MutationRequest → Bool
is_same_request r q =
    text_eq r.job_id q.job_id
    && text_eq r.operation q.operation
    && text_eq r.request_identity q.request_identity

abbrev pub record_of : Row → MutationState → MutationRecord
record_of row state = record {
  mutation = record { state = state; generation = to_uint64 row.generation };
  request = row.request;
  attempt_id = row.attempt_id;
  error_class = row.error_class;
  started_at = row.started_at;
  updated_at = row.updated_at;
  observed_at = row.observed_at;
}

-- readMutationRow
unfoldable pub read_row : Row → Result ReadError MutationRecord
read_row row = elim (parse_mutation_state row.state) [
  | err e ↦ err e
  | ok state ↦ ok (record_of row state)
]

-- readMutationTx
unfoldable pub read_mutation : List Row → MutationRequest → Result ReadError MutationRecord
read_mutation [] request = err no_rows
read_mutation (row ∷ table) request =
    if is_same_request row.request request then read_row row else read_mutation table request

abbrev pub row_of : MutationRecord → Row
row_of r = record {
  request = r.request;
  attempt_id = r.attempt_id;
  generation = to_int64 r.mutation.generation;
  state = mutation_state_text r.mutation.state;
  error_class = bounded_mutation_value r.error_class 64;
  started_at = r.started_at;
  updated_at = r.updated_at;
  observed_at = r.observed_at;
}

-- The row keeps its key columns on a conflict; the attempt identity is written anew.
unfoldable pub keyed : Row → MutationRequest → Row
keyed row old = record row {
  request = record old { attempt_identity = row.request.attempt_identity };
}

-- writeMutationTx: the upsert on the key.
unfoldable pub write_mutation : List Row → MutationRecord → List Row
write_mutation [] r = row_of r ∷ []
write_mutation (row ∷ table) r =
    if is_same_request row.request r.request
    then keyed (row_of r) row.request ∷ table
    else row ∷ write_mutation table r

-- A state that has a name in the table.
abbrev pub IsNamed : MutationState → Type 0
IsNamed zero_state = ⊥
IsNamed unknown_state = ⊥
IsNamed _ = Unit {0}

pub parse-mutation_state_text :
    (s : MutationState) → IsNamed s → parse_mutation_state (mutation_state_text s) ≡ ok s
unfolding parse_mutation_state mutation_state_text text_eq
parse-mutation_state_text ready h = refl
parse-mutation_state_text in_flight h = refl
parse-mutation_state_text observation_required h = refl
parse-mutation_state_text succeeded h = refl
parse-mutation_state_text zero_state h = absurd h
parse-mutation_state_text unknown_state h = absurd h

-- What a read gives of a written record: the error class is cut to its bound.
abbrev pub stored : MutationRecord → MutationRecord
stored r = record r {
  mutation = record {
    state = r.mutation.state;
    generation = to_uint64 (to_int64 r.mutation.generation);
  };
  error_class = bounded_mutation_value r.error_class 64;
}

read-row_of :
    (r : MutationRecord) (q : MutationRequest)
    → IsNamed r.mutation.state
    → read_row (record (row_of r) { request = q }) ≡ ok (record (stored r) { request = q })
unfolding read_row
read-row_of r q h = rw (read_row, parse-mutation_state_text r.mutation.state h)

is_same_request_refl : (r : MutationRequest) → is_same_request r r ≡ true
is_same_request_refl r = simp text_eq_refl

-- On a conflict the key columns that are kept are those of the record.
keyed_request :
    (r : MutationRecord) (old : MutationRequest)
    → is_same_request old r.request ≡ true
    → keyed (row_of r) old ≡ row_of r
unfolding keyed
keyed_request r old h = ground (
  arith,
  text_eq_iff old.job_id r.request.job_id,
  text_eq_iff old.operation r.request.operation,
  text_eq_iff old.request_identity r.request.request_identity,
)

-- A record that was written is read back, with its error class cut to its bound.
pub read-write_mutation :
    (table : List Row) (r : MutationRecord)
    → IsNamed r.mutation.state
    → read_mutation (write_mutation table r) r.request ≡ ok (stored r)
unfolding read_mutation write_mutation
read-write_mutation [] r h = rw (is_same_request_refl r.request) (read-row_of r r.request h)
read-write_mutation (row ∷ table) r h = elim (Bool-cases (is_same_request row.request r.request)) [
  | inl same ↦
      rw (same, keyed_request r row.request same, is_same_request_refl r.request)
        (read-row_of r r.request h)
  | inr other ↦ rw (other, other) (read-write_mutation table r h)
]

same_request_trans :
    (r s q : MutationRequest)
    → is_same_request r s ≡ true
    → is_same_request r q ≡ is_same_request s q
same_request_trans r s q h = ground (
  arith,
  text_eq_iff r.job_id s.job_id,
  text_eq_iff r.operation s.operation,
  text_eq_iff r.request_identity s.request_identity,
)

-- A write leaves what is read for every other request as it was.
pub read-write_other :
    (table : List Row) (r : MutationRecord) (q : MutationRequest)
    → is_same_request r.request q ≡ false
    → read_mutation (write_mutation table r) q ≡ read_mutation table q
unfolding read_mutation write_mutation
read-write_other [] r q h = rw h
read-write_other (row ∷ table) r q h = elim (Bool-cases (is_same_request row.request r.request)) [
  | inl same ↦ rw (
    same,
    keyed_request r row.request same,
    h,
    same_request_trans row.request r.request q same,
    h,
  )
  | inr other ↦ rw (other, read-write_other table r q h)
]
