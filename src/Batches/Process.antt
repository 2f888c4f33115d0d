-- ===== src/Batches/Process.antt =====
-- `batchProcessing` and `batchedPromiseAll` give what one pass over all the inputs gives.
use solidity_contracts.Base.{
  ℕ, zero, suc, ◌+◌, ◌<◌, ◌≡◌, refl, sym, ap, ◌∙◌, inl, inr, List, [], ◌∷◌, ◌++◌, some, none, map,
  append-nil, append_assoc, arith, ltb, Bool-cases, length, take, drop, drop-drop, drop_all, ltb→lt,
  ltb→ge, Result, ok, err, ◌>>=◌, traverse, take-append-drop, Result-cases,
}
use solidity_contracts.Batches.{process_loop, batch_processing, batched_promise_all}
use solidity_contracts.Batches.Split.{slice-drop}

abbrev prepend {ℓ} : {R : Type ℓ} → List R → Result (List R) → Result (List R)
prepend xs (ok ys) = ok (xs ++ ys)
prepend xs (err e) = err e

prepend-append {ℓ} :
    {R : Type ℓ} (xs ys : List R) (r : Result (List R))
    → prepend (xs ++ ys) r ≡ prepend xs (prepend ys r)
prepend-append xs ys (ok zs) = ap ok (append_assoc xs ys zs)
prepend-append xs ys (err e) = refl

prepend-nil {ℓ} : {R : Type ℓ} (r : Result (List R)) → prepend [] r ≡ r
prepend-nil (ok zs) = refl
prepend-nil (err e) = refl

module _ {ℓ κ} {T : Type ℓ} {R : Type κ} where
  traverse-append :
      (f : T → Result R) (xs ys : List T)
      → traverse f (xs ++ ys) ≡ (traverse f xs >>= λ us. prepend us (traverse f ys))
  traverse-append f [] ys = sym (prepend-nil (traverse f ys))
  traverse-append f (x ∷ xs) ys = ground (arith, traverse-append f xs ys)

  traverse-take :
      (n : ℕ) (f : T → Result R) (xs : List T)
      → traverse f xs ≡ (traverse f (take n xs) >>= λ us. prepend us (traverse f (drop n xs)))
  traverse-take n f xs =
      sym (ap (traverse f) (take-append-drop n xs)) ∙ traverse-append f (take n xs) (drop n xs)

  process_loop-traverse :
      (fuel n i : ℕ) (inputs : List T) (f : T → Result R) (result : List R)
      → 0 < n
      → 0 < fuel
      → length inputs < i + fuel
      → process_loop fuel inputs n f i result ≡ some (prepend result (traverse f (drop i inputs)))
  unfolding process_loop
  process_loop-traverse zero n i inputs f result p q h = absurd (omega arith)
  process_loop-traverse (suc fuel) n i inputs f result p q h =
      elim (Bool-cases (ltb i (length inputs))) [
        | inl more ↦
            let left = ltb→lt i (length inputs) more in
            let whole = traverse-take n f (drop i inputs) in
            elim (Result-cases (traverse f (take n (drop i inputs)))) [
              | inl (b, e) ↦
                  rw (more, slice-drop n i inputs, whole, e)
                    (process_loop-traverse fuel n (i + n) inputs f (result ++ b) p (omega arith)
                        (omega arith)
                      ∙ ap some (rw (drop-drop n i inputs) (prepend-append result b _)))
              | inr (x, e) ↦ rw (more, slice-drop n i inputs, whole, e)
            ]
        | inr done ↦
            let all = drop_all i inputs (ltb→ge i (length inputs) done) in
            rw (done, all) (ap some (ap ok (sym (append-nil result))))
      ]

  -- With a positive batch size `batchProcessing` ends, with the result of processing all the inputs
  -- in one pass: every output in the order of the inputs, or the exception of the first input that
  -- throws.
  pub batch_processing-traverse :
      (inputs : List T) (batch_size fuel : ℕ) (processor : T → Result R)
      → 0 < batch_size
      → length inputs < fuel
      → batch_processing fuel inputs batch_size processor ≡ some (traverse processor inputs)
  unfolding batch_processing
  batch_processing-traverse inputs n fuel f p h =
      process_loop-traverse fuel n 0 inputs f [] p (omega arith) (omega arith)
      ∙ ap some (prepend-nil (traverse f inputs))

  process_loop-zero :
      (fuel : ℕ) (x : T) (inputs : List T) (f : T → Result R) (result : List R)
      → process_loop fuel (x ∷ inputs) 0 f 0 result ≡ none
  unfolding process_loop
  process_loop-zero zero x inputs f result = refl
  process_loop-zero (suc fuel) x inputs f result =
      ground (arith, process_loop-zero fuel x inputs f (result ++ []))

  -- With batch size 0 and an input that is not empty, `batchProcessing` never ends.
  pub batch_processing-zero :
      (x : T) (inputs : List T) (processor : T → Result R) (fuel : ℕ)
      → batch_processing fuel (x ∷ inputs) 0 processor ≡ none
  unfolding batch_processing
  batch_processing-zero x inputs f fuel = process_loop-zero fuel x inputs f []

module _ {ℓ} {T : Type ℓ} where
  all_settled : (ps : List T) → traverse (λ p. p) (map ok ps) ≡ ok ps
  all_settled [] = refl
  all_settled (p ∷ ps) = ground (arith, all_settled ps)

  -- With a positive batch size `batchedPromiseAll` over promises that all resolve gives their values,
  -- in order.
  pub batched_promise_all-ok :
      (values : List T) (batch_size fuel : ℕ)
      → 0 < batch_size
      → length (map ok values) < fuel
      → batched_promise_all fuel (map ok values) batch_size ≡ some (ok values)
  unfolding batched_promise_all
  batched_promise_all-ok values n fuel p h =
      process_loop-traverse fuel n 0 (map ok values) (λ r. r) [] p (omega arith) (omega arith)
      ∙ ap some (prepend-nil (traverse (λ r. r) (map ok values)) ∙ all_settled values)
