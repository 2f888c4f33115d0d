-- ===== src/Base/Lists.antt =====
-- Lists over the native numbers, with JavaScript's `slice` and `filter`.
use Prim.Native.Nat.{ℕ, zero, suc, ◌+◌, ◌-◌, ◌≤◌}
use mathlib.Core.Path.{subst, ◌≡◌, refl, sym, ap, ◌∙◌}
use mathlib.Core.Bool.{Bool, true}
use mathlib.Core.Logic.{◌⊎◌, inl, inr}
use mathlib.Core.Option.{Option, none, some}
use mathlib.Core.List.{List, [], ◌∷◌, ◌++◌}
use native.Mathlib.Omega.{arith}
use solidity_contracts.Base.Bools.{if◌then◌else◌, Bool-cases}

module _ {ℓ} {A : Type ℓ} where
  abbrev pub length : List A → ℕ
  length [] = 0
  length (x ∷ xs) = suc (length xs)

  -- `xs[i]`; out of range it is `undefined`.
  abbrev pub get_elem? : List A → ℕ → Option A
  get_elem? [] i = none
  get_elem? (x ∷ xs) zero = some x
  get_elem? (x ∷ xs) (suc i) = get_elem? xs i

  abbrev pub take : ℕ → List A → List A
  take zero xs = []
  take (suc n) [] = []
  take (suc n) (x ∷ xs) = x ∷ take n xs

  abbrev pub drop : ℕ → List A → List A
  drop zero xs = xs
  drop (suc n) [] = []
  drop (suc n) (x ∷ xs) = drop n xs

  -- `xs.slice(i, j)` for `i` and `j` from 0 up.
  abbrev pub slice : List A → ℕ → ℕ → List A
  slice xs i j = take (j - i) (drop i xs)

  -- `xs.filter(p)`.
  abbrev pub filter : (A → Bool) → List A → List A
  filter p [] = []
  filter p (x ∷ xs) = if p x then x ∷ filter p xs else filter p xs

  -- `xs.flat()` of a list of lists.
  abbrev pub concat : List (List A) → List A
  concat [] = []
  concat (xs ∷ xss) = xs ++ concat xss

  abbrev pub reverse : List A → List A
  reverse [] = []
  reverse (x ∷ xs) = reverse xs ++ (x ∷ [])

  abbrev pub All {κ} : (A → Type κ) → List A → Type κ
  All P [] = Unit
  All P (x ∷ xs) = P x × All P xs

  -- `a` is an element of the list.
  pub data Member (a : A) : List A → Type ℓ where
    here : {x : A} {xs : List A} → a ≡ x → Member a (x ∷ xs)
    there : {x : A} {xs : List A} → Member a xs → Member a (x ∷ xs)

  pub not-Member-nil : {a : A} → Member a [] → ⊥
  not-Member-nil h = elim h [ ]

  pub Member-cases : {a x : A} {xs : List A} → Member a (x ∷ xs) → (a ≡ x) ⊎ Member a xs
  Member-cases (here e) = inl e
  Member-cases (there m) = inr m

  pub Member-filter :
      {m : A} (p : A → Bool) (xs : List A) → Member m (filter p xs) → Member m xs × (p m ≡ true)
  Member-filter p [] d = absurd (not-Member-nil d)
  Member-filter {m} p (x ∷ xs) d = elim (Bool-cases (p x)) [
    | inl h ↦
        let kept : filter p (x ∷ xs) ≡ x ∷ filter p xs = rw h refl in
        elim (Member-cases (subst (Member m) kept d)) [
          | inl e ↦ (here e, ap p e ∙ h)
          | inr t ↦ let r = Member-filter p xs t in (there r.0, r.1)
        ]
    | inr h ↦
        let dropped : filter p (x ∷ xs) ≡ filter p xs = rw h refl in
        let r = Member-filter p xs (subst (Member m) dropped d) in (there r.0, r.1)
  ]

  pub filter-Member :
      {m : A} (p : A → Bool) (xs : List A) → Member m xs → p m ≡ true → Member m (filter p xs)
  filter-Member p [] d h = absurd (not-Member-nil d)
  filter-Member {m} p (x ∷ xs) d h = elim (Bool-cases (p x)) [
    | inl k ↦
        rw k (elim (Member-cases d) [ inl e ↦ here e | inr t ↦ there (filter-Member p xs t h) ])
    | inr k ↦ rw k (elim (Member-cases d) [
      | inl e ↦ let bad = sym (ap p e) ∙ h in cc
      | inr t ↦ filter-Member p xs t h
    ])
  ]

  pub length-append : (xs ys : List A) → length (xs ++ ys) ≡ length xs + length ys
  length-append [] ys = omega arith
  length-append (x ∷ xs) ys = omega (arith, length-append xs ys)

  pub length-reverse : (xs : List A) → length (reverse xs) ≡ length xs
  length-reverse [] = refl
  length-reverse (x ∷ xs) = omega (arith, length-append (reverse xs) (x ∷ []), length-reverse xs)

  pub take-append-drop : (n : ℕ) (xs : List A) → take n xs ++ drop n xs ≡ xs
  take-append-drop zero xs = refl
  take-append-drop (suc n) [] = refl
  take-append-drop (suc n) (x ∷ xs) = ap (◌∷◌ x) (take-append-drop n xs)

  pub length-drop : (n : ℕ) (xs : List A) → length (drop n xs) ≡ length xs - n
  length-drop zero xs = omega arith
  length-drop (suc n) [] = omega arith
  length-drop (suc n) (x ∷ xs) = omega (arith, length-drop n xs)

  pub length-take-le : (n : ℕ) (xs : List A) → length (take n xs) ≤ n
  length-take-le zero xs = omega arith
  length-take-le (suc n) [] = omega arith
  length-take-le (suc n) (x ∷ xs) = omega (arith, length-take-le n xs)

  pub drop-nil : (n : ℕ) → drop n [] ≡ []
  drop-nil zero = refl
  drop-nil (suc n) = refl

  pub drop-drop : (m n : ℕ) (xs : List A) → drop m (drop n xs) ≡ drop (n + m) xs
  drop-drop m zero xs = ap (λ (k : ℕ). drop k xs) (omega arith)
  drop-drop m (suc n) [] = cc (drop-nil m, drop-nil (suc n + m))
  drop-drop m (suc n) (x ∷ xs) =
      let e : suc (n + m) ≡ suc n + m = omega arith in
      drop-drop m n xs ∙ ap (λ (k : ℕ). drop k (x ∷ xs)) e

  pub drop_all : (n : ℕ) (xs : List A) → length xs ≤ n → drop n xs ≡ []
  drop_all zero [] h = refl
  drop_all zero (x ∷ xs) h = absurd (omega arith)
  drop_all (suc n) [] h = refl
  drop_all (suc n) (x ∷ xs) h = drop_all n xs (omega arith)

  pub All-append {κ} : (P : A → Type κ) (xs ys : List A) → All P xs → All P ys → All P (xs ++ ys)
  All-append P [] ys _ q = q
  All-append P (x ∷ xs) ys (p, ps) q = (p, All-append P xs ys ps q)

  pub All-filter {κ} :
      (P : A → Type κ) (p : A → Bool) (xs : List A) → All P xs → All P (filter p xs)
  All-filter P p [] h = tt
  All-filter P p (x ∷ xs) h = ground (arith, All-filter P p xs h.1)
