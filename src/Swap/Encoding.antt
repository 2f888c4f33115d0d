-- ===== src/Swap/Encoding.antt =====
-- The encoding of a route for an exact output is that of the reversed route for an exact input.
use solidity_contracts.Base.{
  ℕ, ◌+◌, ◌≡◌, refl, sym, ap, ◌∙◌, true, false, inl, inr, List, [], ◌∷◌, ◌++◌, append_assoc, length,
  String, reverse, length-reverse, length-append, arith, ◌==◌, Bool-cases,
}
use solidity_contracts.Swap.{
  Packed, SolidityType, values_behind, values_array, types_behind, type_array, convert_to_swap_path,
}

types-snoc :
    (t : String) (ts : List String)
    → types_behind (ts ++ (t ∷ []))
      ≡ types_behind ts ++ (SolidityType.uint24_type ∷ SolidityType.address_type ∷ [])
types-snoc t [] = refl
types-snoc t (u ∷ ts) = ground (arith, types-snoc t ts)

types-length : (ts us : List String) → length ts ≡ length us → types_behind ts ≡ types_behind us
types-length [] [] h = refl
types-length [] (u ∷ us) h = absurd (omega arith)
types-length (t ∷ ts) [] h = absurd (omega arith)
types-length (t ∷ ts) (u ∷ us) h = let r = types-length ts us (omega arith) in ground (arith, r)

-- The types read the same in both directions.
reverse-types :
    (ts : List String)
    → reverse (types_behind ts) ++ (SolidityType.address_type ∷ [])
      ≡ SolidityType.address_type ∷ types_behind ts
reverse-types [] = refl
reverse-types (t ∷ ts) =
    let u = SolidityType.uint24_type in
    let a = SolidityType.address_type in
    ap (λ l. (l ++ (u ∷ [])) ++ (a ∷ [])) (reverse-types ts)
    ∙ ap (◌∷◌ a) (
        append_assoc (types_behind ts) (u ∷ []) (a ∷ [])
        ∙ sym (types-snoc t ts)
        ∙ types-length (ts ++ (t ∷ [])) (t ∷ ts) (omega (arith, length-append ts (t ∷ []))))

values-snoc :
    (t : String) (f : ℕ) (ts : List String) (fs : List ℕ)
    → length fs ≡ length ts
    → values_behind (fs ++ (f ∷ [])) (ts ++ (t ∷ []))
      ≡ values_behind fs ts ++ (Packed.uint24 f ∷ Packed.address t ∷ [])
values-snoc t f [] [] h = refl
values-snoc t f [] (g ∷ fs) h = absurd (omega arith)
values-snoc t f (u ∷ ts) [] h = absurd (omega arith)
values-snoc t f (u ∷ ts) (g ∷ fs) h =
    let r = values-snoc t f ts fs (omega arith) in ground (arith, r)

values_array-snoc :
    (t : String) (f : ℕ) (ts : List String) (fs : List ℕ)
    → length ts ≡ length fs + 1
    → values_array (ts ++ (t ∷ [])) (fs ++ (f ∷ []))
      ≡ values_array ts fs ++ (Packed.uint24 f ∷ Packed.address t ∷ [])
values_array-snoc t f [] fs h = absurd (omega arith)
values_array-snoc t f (u ∷ ts) fs h =
    ap (◌∷◌ (Packed.address u)) (values-snoc t f ts fs (omega arith))

reverse-values :
    (t : String) (ts : List String) (fs : List ℕ)
    → length fs ≡ length ts
    → reverse (values_array (t ∷ ts) fs) ≡ values_array (reverse (t ∷ ts)) (reverse fs)
reverse-values t [] [] h = refl
reverse-values t [] (f ∷ fs) h = absurd (omega arith)
reverse-values t (u ∷ ts) [] h = absurd (omega arith)
reverse-values t (u ∷ ts) (f ∷ fs) h =
    ap (λ l. (l ++ (Packed.uint24 f ∷ [])) ++ (Packed.address t ∷ []))
      (reverse-values u ts fs (omega arith))
    ∙ append_assoc (values_array (reverse (u ∷ ts)) (reverse fs)) (Packed.uint24 f ∷ [])
        (Packed.address t ∷ [])
    ∙ sym (
        values_array-snoc t f (reverse (u ∷ ts)) (reverse fs)
          (omega (arith, length-reverse (u ∷ ts), length-reverse fs)))

type_array-length : (ts us : List String) → length ts ≡ length us → type_array ts ≡ type_array us
type_array-length [] [] h = refl
type_array-length [] (u ∷ us) h = absurd (omega arith)
type_array-length (t ∷ ts) [] h = absurd (omega arith)
type_array-length (t ∷ ts) (u ∷ us) h =
    ap (◌∷◌ SolidityType.address_type) (types-length ts us (omega arith))

module _ {Bytes : Type 0} (solidity_packed : List SolidityType → List Packed → Bytes) where
  -- The encoding of a route for an exact output is the encoding of the reversed tokens and fees for
  -- an exact input; where the lists do not fit, both throw the same.
  pub convert_to_swap_path-reverse :
      (tokens : List String) (fees : List ℕ)
      → convert_to_swap_path solidity_packed tokens fees false
        ≡ convert_to_swap_path solidity_packed (reverse tokens) (reverse fees) true
  unfolding convert_to_swap_path
  convert_to_swap_path-reverse [] fees = refl
  convert_to_swap_path-reverse (t ∷ ts) fees =
      let fits = length (t ∷ ts) == length fees + 1 in
      let tl = length-reverse (t ∷ ts) in
      let fl = length-reverse fees in
      elim (Bool-cases fits) [
        | inl h ↦
            let n : length fees ≡ length ts = ground (arith, h) in
            let vs = reverse-values t ts fees n in
            let ks = reverse-types ts ∙ sym (type_array-length (reverse (t ∷ ts)) (t ∷ ts) tl) in
            rw (tl, fl, vs, ks) refl
        | inr h ↦ rw (tl, fl, h) refl
      ]
