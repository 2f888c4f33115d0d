-- ===== src/Batches/Split.antt =====
-- What the batches of `splitToBatches` and `chunk` are.
use mathlib.Core.Path.{subst}
use solidity_contracts.Base.{
  ℕ, zero, suc, ◌+◌, ◌-◌, ◌≤◌, ◌<◌, ◌≡◌, refl, ap, ◌∙◌, inl, inr, List, [], ◌∷◌, ◌++◌, none, some,
  append-nil, append_assoc, arith, ltb, Bool-cases, length, take, drop, slice, concat,
  take-append-drop, length-drop, length-take-le, length-append, drop-drop, drop_all, ltb→lt, ltb→ge,
}
use solidity_contracts.Batches.{split_loop, split_to_batches}

module _ {ℓ} {A : Type ℓ} where
  -- The batches, cut off the front one by one.
  unfoldable pub batches : ℕ → ℕ → List A → List (List A)
  batches zero n xs = []
  batches (suc fuel) n [] = []
  batches (suc fuel) n (x ∷ xs) = take n (x ∷ xs) ∷ batches fuel n (drop n (x ∷ xs))

  -- Every batch is full, but the last, which has at least one element and is not over-full.
  abbrev pub IsBatched : ℕ → List (List A) → Type 0
  IsBatched n [] = Unit
  IsBatched n (b ∷ []) = (0 < length b) × (length b ≤ n)
  IsBatched n (b ∷ c ∷ cs) = (length b ≡ n) × IsBatched n (c ∷ cs)

  pub concat-batches :
      (fuel n : ℕ) (xs : List A) → 0 < n → length xs < fuel → concat (batches fuel n xs) ≡ xs
  unfolding batches
  concat-batches zero n xs p h = absurd (omega arith)
  concat-batches (suc fuel) n [] p h = refl
  concat-batches (suc fuel) n (x ∷ xs) p h =
      ap (◌++◌ (take n (x ∷ xs)))
        (concat-batches fuel n (drop n (x ∷ xs)) p (omega (arith, length-drop n (x ∷ xs))))
      ∙ take-append-drop n (x ∷ xs)

  length-take_full : (n : ℕ) (xs : List A) → n ≤ length xs → length (take n xs) ≡ n
  length-take_full zero xs h = refl
  length-take_full (suc n) [] h = absurd (omega arith)
  length-take_full (suc n) (x ∷ xs) h = omega (arith, length-take_full n xs)

  concat-pos :
      (n : ℕ) (b : List A) (bs : List (List A))
      → IsBatched (suc n) (b ∷ bs)
      → 0 < length (concat (b ∷ bs))
  concat-pos n b [] h = omega (arith, length-append b [])
  concat-pos n b (c ∷ cs) h = omega (arith, length-append b (concat (c ∷ cs)))

  push-IsBatched :
      (n : ℕ) (x : A) (xs : List A) (bs : List (List A))
      → concat bs ≡ drop (suc n) (x ∷ xs)
      → IsBatched (suc n) bs
      → IsBatched (suc n) (take (suc n) (x ∷ xs) ∷ bs)
  push-IsBatched n x xs [] e h = (omega arith, length-take-le (suc n) (x ∷ xs))
  push-IsBatched n x xs (b ∷ bs) e h =
      let left : 0 < length (drop n xs) = subst (λ ys. 0 < length ys) e (concat-pos n b bs h) in
      (length-take_full (suc n) (x ∷ xs) (omega (arith, length-drop n xs)), h)

  pub batches-IsBatched :
      (fuel n : ℕ) (xs : List A) → 0 < n → length xs < fuel → IsBatched n (batches fuel n xs)
  unfolding batches
  batches-IsBatched zero n xs p h = absurd (omega arith)
  batches-IsBatched (suc fuel) n [] p h = tt
  batches-IsBatched (suc fuel) zero (x ∷ xs) p h = absurd (omega arith)
  batches-IsBatched (suc fuel) (suc n) (x ∷ xs) p h =
      push-IsBatched n x xs (batches fuel (suc n) (drop n xs))
        (concat-batches fuel (suc n) (drop n xs) p (omega (arith, length-drop n xs)))
        (batches-IsBatched fuel (suc n) (drop n xs) p (omega (arith, length-drop n xs)))

  pub slice-drop : (n i : ℕ) (xs : List A) → slice xs i (i + n) ≡ take n (drop i xs)
  slice-drop n i xs = let e : i + n - i ≡ n = omega arith in ap (λ (k : ℕ). take k (drop i xs)) e

  batches-step :
      (fuel n : ℕ) (xs : List A)
      → 0 < length xs
      → batches (suc fuel) n xs ≡ take n xs ∷ batches fuel n (drop n xs)
  unfolding batches
  batches-step fuel n [] h = absurd (omega arith)
  batches-step fuel n (x ∷ xs) h = refl

  pub batches_done : (fuel n : ℕ) → batches fuel n [] ≡ []
  unfolding batches
  batches_done zero n = refl
  batches_done (suc fuel) n = refl

  pub split_loop-batches :
      (fuel n i : ℕ) (array : List A) (result : List (List A))
      → 0 < n
      → 0 < fuel
      → length array < i + fuel
      → split_loop fuel array n i result ≡ some (result ++ batches fuel n (drop i array))
  unfolding split_loop
  split_loop-batches zero n i array result p q h = absurd (omega arith)
  split_loop-batches (suc fuel) n i array result p q h = elim (Bool-cases (ltb i (length array))) [
    | inl more ↦
        let left = ltb→lt i (length array) more in
        rw
          (
            more,
            batches-step fuel n (drop i array) (omega (arith, length-drop i array)),
            drop-drop n i array,
            slice-drop n i array,
          )
          (split_loop-batches fuel n (i + n) array (result ++ (take n (drop i array) ∷ [])) p
              (omega arith) (omega arith)
            ∙ ap some (append_assoc result _ _))
    | inr done ↦
        let all = drop_all i array (ltb→ge i (length array) done) in
        rw (done, all, batches_done (suc fuel) n, append-nil)
  ]

  -- With a positive batch size `splitToBatches` ends, and its batches are the input in order, each
  -- batch full but the last, which has between one element and the batch size.
  pub split_to_batches_lem :
      (array : List A) (batch_size fuel : ℕ)
      → 0 < batch_size
      → length array < fuel
      → (bs : List (List A)) × (split_to_batches fuel array batch_size ≡ some bs)
        × (concat bs ≡ array)
        × IsBatched batch_size bs
  unfolding split_to_batches
  split_to_batches_lem array n fuel p h = (
    batches fuel n array,
    split_loop-batches fuel n 0 array [] p (omega arith) (omega arith),
    concat-batches fuel n array p h,
    batches-IsBatched fuel n array p h,
  )

  split_loop-zero :
      (fuel : ℕ) (x : A) (xs : List A) (result : List (List A))
      → split_loop fuel (x ∷ xs) 0 0 result ≡ none
  unfolding split_loop
  split_loop-zero zero x xs result = refl
  split_loop-zero (suc fuel) x xs result =
      ground (arith, split_loop-zero fuel x xs (result ++ ([] ∷ [])))
