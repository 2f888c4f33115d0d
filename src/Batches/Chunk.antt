-- ===== src/Batches/Chunk.antt =====
-- The reduction of `chunk` cuts the same batches as the loop of `splitToBatches`.
use native.Mathlib.Nat.{mod-add-mod, mod-eq_of_lt, add-mod_right}
use solidity_contracts.Base.{
  ℕ, zero, suc, ◌+◌, ◌%◌, ◌<◌, ◌≡◌, refl, sym, ap, ◌∙◌, ◌≢◌, true, false, List, [], ◌∷◌, ◌++◌, some,
  append-nil, append_assoc, arith, length, take, drop, drop-nil, drop-drop, concat,
}
use solidity_contracts.Batches.{split_to_batches, starts_chunk, chunk_from, chunk}
use solidity_contracts.Batches.Split.{
  batches, batches_done, slice-drop, split_loop-batches, concat-batches, batches-IsBatched,
  IsBatched,
}

boundary : (i m : ℕ) → i % suc m ≡ 0 → starts_chunk i (suc m) ≡ true
unfolding starts_chunk
boundary i m h = ground arith

not_boundary :
    (i s m : ℕ) → suc s < suc m → (i + suc s) % suc m ≡ 0 → starts_chunk i (suc m) ≡ false
unfolding starts_chunk
not_boundary i s m h e =
    let ne : i % suc m ≢ 0 = λ z.
      let same : (i % suc m + suc s) % suc m ≡ suc s % suc m =
        ap (λ (k : ℕ). k % suc m) (omega arith) in
      absurd (omega (arith, mod-add-mod i (suc m) (suc s), mod-eq_of_lt h)) in
    ground arith

next_boundary : (i m : ℕ) → i % suc m ≡ 0 → (i + 1 + m) % suc m ≡ 0
next_boundary i m h = ap (λ (k : ℕ). k % suc m) (omega arith) ∙ add-mod_right i (suc m) ∙ h

module _ {ℓ} {A : Type ℓ} where
  -- `s` elements before the next multiple of the chunk size, the elements up to it are passed over.
  chunk_from-batches :
      (array left : List A) (m i s fuel : ℕ) (prev : List (List A))
      → left ≡ drop i array
      → s < suc m
      → (i + s) % suc m ≡ 0
      → length left < fuel
      → chunk_from array (suc m) i left prev ≡ prev ++ batches fuel (suc m) (drop s left)
  unfolding chunk_from batches
  chunk_from-batches array [] m i s fuel prev e h b l =
      rw (drop-nil s, batches_done fuel (suc m), append-nil)
  chunk_from-batches array (x ∷ left) m i s zero prev e h b l = absurd (omega arith)
  chunk_from-batches array (x ∷ left) m i zero (suc fuel) prev e h b l =
      let at : i % suc m ≡ 0 = ap (λ (k : ℕ). k % suc m) (omega arith) ∙ b in
      let next : left ≡ drop (i + 1) array = ap (drop 1) e ∙ drop-drop 1 i array in
      rw (boundary i m at, slice-drop (suc m) i array, ← e)
        (chunk_from-batches array left m (i + 1) m fuel (prev ++ (take (suc m) (x ∷ left) ∷ []))
            next (omega arith) (next_boundary i m at) (omega arith)
          ∙ append_assoc prev _ _)
  chunk_from-batches array (x ∷ left) m i (suc s) (suc fuel) prev e h b l =
      let next : left ≡ drop (i + 1) array = ap (drop 1) e ∙ drop-drop 1 i array in
      let on : (i + 1 + s) % suc m ≡ 0 = ap (λ (k : ℕ). k % suc m) (omega arith) ∙ b in
      rw (not_boundary i s m h b) (
        chunk_from-batches array left m (i + 1) s (suc fuel) prev next (omega arith) on
          (omega arith))

  -- For a positive chunk size, `chunk` and `splitToBatches` give the same batches.
  pub chunk-eq-split_to_batches :
      (arr : List A) (chunk_size fuel : ℕ)
      → 0 < chunk_size
      → length arr < fuel
      → split_to_batches fuel arr chunk_size ≡ some (chunk arr chunk_size)
  unfolding split_to_batches chunk
  chunk-eq-split_to_batches arr zero fuel p h = absurd (omega arith)
  chunk-eq-split_to_batches arr (suc m) fuel p h =
      split_loop-batches fuel (suc m) 0 arr [] p (omega arith) (omega arith)
      ∙ ap some (sym (chunk_from-batches arr arr m 0 0 fuel [] refl (omega arith) (omega arith) h))

  -- `chunk` keeps every element, in order, in batches that are full but for the last.
  pub chunk-IsBatched :
      (arr : List A) (chunk_size : ℕ)
      → 0 < chunk_size
      → (concat (chunk arr chunk_size) ≡ arr) × IsBatched chunk_size (chunk arr chunk_size)
  unfolding chunk
  chunk-IsBatched arr zero p = absurd (omega arith)
  chunk-IsBatched arr (suc m) p =
      let fuel = length arr + 1 in
      rw (chunk_from-batches arr arr m 0 0 fuel [] refl (omega arith) (omega arith) (omega arith)) (
        concat-batches fuel (suc m) arr p (omega arith),
        batches-IsBatched fuel (suc m) arr p (omega arith),
      )
