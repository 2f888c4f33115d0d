-- ===== src/Batches.antt =====
-- Work in batches: `batchedPromiseAll`, `batchProcessing` and `splitToBatches` of utils/utils.ts,
-- and `chunk` of utils/lending/utils.ts. The loops `for (let i = 0; i < n; i += batchSize)` take
-- fuel, and `none` means that the fuel ran out. What runs within one batch runs concurrently;
-- here the members of a batch settle in order, so the batch's exception is that of the first member
-- that throws. Progress messages and pauses are left out.
pub mod Split
pub mod Chunk
pub mod Process
mod Tests
use solidity_contracts.Base.{
  ℕ, zero, suc, ◌+◌, ◌%◌, Bool, true, List, [], ◌∷◌, ◌++◌, Option, none, some, ltb, ◌==◌,
  if◌then◌else◌, length, slice, Result, ok, ◌>>=◌, traverse,
}

-- `!(index % size)`: the remainder by zero is not a number, and so also falsy.
unfoldable pub starts_chunk : ℕ → ℕ → Bool
starts_chunk index zero = true
starts_chunk index (suc size) = index % suc size == 0

module _ {ℓ} {A : Type ℓ} where
  -- The loop of `splitToBatches`, at index `i` with the batches so far.
  unfoldable pub split_loop : ℕ → List A → ℕ → ℕ → List (List A) → Option (List (List A))
  split_loop zero array batch_size i result = none
  split_loop (suc fuel) array batch_size i result =
      let rest =
        split_loop fuel array batch_size (i + batch_size)
          (result ++ (slice array i (i + batch_size) ∷ [])) in
      if ltb i (length array) then rest else some result

  unfoldable pub split_to_batches : ℕ → List A → ℕ → Option (List (List A))
  unfolding split_loop
  split_to_batches fuel array batch_size = split_loop fuel array batch_size 0 []

  -- The reduction of `chunk` over the elements left, the first at `index` of `array`.
  unfoldable pub chunk_from : List A → ℕ → ℕ → List A → List (List A) → List (List A)
  unfolding starts_chunk
  chunk_from array chunk_size index [] prev_val = prev_val
  chunk_from array chunk_size index (x ∷ left) prev_val =
      chunk_from array chunk_size (index + 1) left (
        if starts_chunk index chunk_size
        then prev_val ++ (slice array index (index + chunk_size) ∷ [])
        else prev_val)

  unfoldable pub chunk : List A → ℕ → List (List A)
  unfolding chunk_from
  chunk arr chunk_size = chunk_from arr chunk_size 0 arr []

module _ {ℓ κ} {T : Type ℓ} {R : Type κ} where
  unfoldable pub process_loop :
      ℕ → List T → ℕ → (T → Result R) → ℕ → List R → Option (Result (List R))
  process_loop zero inputs batch_size processor i result = none
  process_loop (suc fuel) inputs batch_size processor i result =
      let rest : Option (Result (List R)) =
        elim (traverse processor (slice inputs i (i + batch_size))) [
          | ok batch_result ↦
              process_loop fuel inputs batch_size processor (i + batch_size)
                (result ++ batch_result)
          | Result.err e ↦ some (Result.err e)
        ] in
      if ltb i (length inputs) then rest else some (ok result)

  unfoldable pub batch_processing : ℕ → List T → ℕ → (T → Result R) → Option (Result (List R))
  unfolding process_loop
  batch_processing fuel inputs batch_size processor =
      process_loop fuel inputs batch_size processor 0 []

-- The promises are running when the batches are awaited: each is the result that it settles with.
module _ {ℓ} {T : Type ℓ} where
  unfoldable pub batched_promise_all : ℕ → List (Result T) → ℕ → Option (Result (List T))
  unfolding process_loop
  batched_promise_all fuel promises batch_size = process_loop fuel promises batch_size (λ p. p) 0 []
