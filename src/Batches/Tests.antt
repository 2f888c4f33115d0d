-- ===== src/Batches/Tests.antt =====
-- Runs of the batch loops, and the theorems about them at concrete inputs.
use solidity_contracts.Base.{
  ℕ, ◌≡◌, ◌+◌, refl, List, [], ◌∷◌, some, Result, ok, err, type_error, arith, traverse, concat,
  if◌then◌else◌, ltb,
}
use solidity_contracts.Batches.{split_to_batches, chunk, batch_processing}
use solidity_contracts.Batches.Split.{split_to_batches_lem, IsBatched}
use solidity_contracts.Batches.Process.{batch_processing-traverse}

abbrev users : List ℕ
users = 1 ∷ 2 ∷ 3 ∷ 4 ∷ 5 ∷ []

abbrev below_four : ℕ → Result ℕ
below_four x = if ltb x 4 then ok (x + 10) else err type_error

splits_in_twos : split_to_batches 6 users 2 ≡ some ((1 ∷ 2 ∷ []) ∷ (3 ∷ 4 ∷ []) ∷ (5 ∷ []) ∷ [])
unfolding split_to_batches
splits_in_twos = refl

chunks_in_twos : chunk users 2 ≡ (1 ∷ 2 ∷ []) ∷ (3 ∷ 4 ∷ []) ∷ (5 ∷ []) ∷ []
unfolding chunk
chunks_in_twos = refl

chunks_of_zero : chunk {A = ℕ} (1 ∷ 2 ∷ []) 0 ≡ [] ∷ [] ∷ []
unfolding chunk
chunks_of_zero = refl

stops_at_a_throw : batch_processing 6 users 2 below_four ≡ some (err type_error)
unfolding batch_processing
stops_at_a_throw = refl

split_to_batches_lem_example :
    (bs : List (List ℕ)) × (split_to_batches 6 users 2 ≡ some bs)
    × (concat bs ≡ users)
    × IsBatched 2 bs
split_to_batches_lem_example = split_to_batches_lem users 2 6 (omega arith) (omega arith)

batch_processing-traverse_example :
    batch_processing 6 users 2 below_four ≡ some (traverse below_four users)
batch_processing-traverse_example =
    batch_processing-traverse users 2 6 below_four (omega arith) (omega arith)
