-- ===== src/Swap/Route.antt =====
-- The routes of `getSwapPath` consist of pools that exist.
use mathlib.Core.Path.{subst}
use solidity_contracts.Base.{
  ok_inj, then_eq, else_eq, ◌⊎◌, ℕ, ◌≡◌, refl, sym, ap, ◌∙◌, inl, inr, true, false, not, List, [],
  ◌∷◌, String, str_eq, str_eq_iff, ok, ◌>>◌, >>=-eq-ok, throw_if, Bool-cases, same_token,
}
use solidity_contracts.Chain.{Chain}
use solidity_contracts.Swap.{
  Factory, zero_address, fee_schemas, first_pool, get_dex_pool_address_for_pair, existing_pool,
  swap_route, check_pair, check_pairs, check_if_swap_path_exists,
}

module _ (get_pool : Factory) where
  -- The pool of a pair of tokens with a fee exists.
  abbrev pub IsPool : String → String → ℕ → Type 0
  IsPool a b fee =
      (pool : String) × (get_pool a b fee ≡ ok pool) × (str_eq pool zero_address ≡ false)

  first_pool-IsPool :
      (a b pool : String) (fee : ℕ) (fees : List ℕ)
      → first_pool get_pool a b fees ≡ ok (pool, fee)
      → str_eq pool zero_address ≡ false
      → IsPool a b fee
  unfolding first_pool
  first_pool-IsPool a b pool fee [] h e =
      let same : zero_address ≡ pool = ap (λ r. r.0) (ok_inj h) in
      absurd (no_pool (subst (λ x. str_eq x zero_address ≡ false) (sym same) e))
    where
      no_pool : true ≡ false → ⊥
      no_pool x = cc
  first_pool-IsPool a b pool fee (f ∷ fees) h e =
      let (found, read, rest) = >>=-eq-ok (get_pool a b f) _ h in
      elim (Bool-cases (str_eq found zero_address)) [
        | inl none_here ↦ first_pool-IsPool a b pool fee fees (then_eq _ none_here rest) e
        | inr here ↦
            let same = ok_inj (else_eq _ here rest) in
            (found, subst (λ x. get_pool a b x ≡ ok found) (ap (λ r. r.1) same) read, here)
      ]

  existing_pool-IsPool :
      (a b : String) (fee : ℕ) → existing_pool get_pool a b ≡ ok fee → IsPool a b fee
  unfolding get_dex_pool_address_for_pair
  existing_pool-IsPool a b fee h =
      let ((pool, f), read, rest) = >>=-eq-ok (first_pool get_pool a b fee_schemas) _ h in
      elim (Bool-cases (str_eq pool zero_address)) [
        | inl gone ↦ let r = then_eq _ gone rest in cc
        | inr here ↦
            let same = ok_inj (else_eq _ here rest) in
            subst (IsPool a b) same (first_pool-IsPool a b pool f fee_schemas read here)
      ]

  pub pair-IsPool :
      (a b pool : String) (fee : ℕ)
      → get_dex_pool_address_for_pair get_pool a b ≡ ok (pool, fee)
      → str_eq pool zero_address ≡ false
      → IsPool a b fee
  unfolding get_dex_pool_address_for_pair
  pair-IsPool a b pool fee h e = first_pool-IsPool a b pool fee fee_schemas h e

  pub IsPool-sym :
      ((a b : String) (fee : ℕ) → get_pool a b fee ≡ get_pool b a fee)
      → {a b : String} {fee : ℕ} → IsPool a b fee
      → IsPool b a fee
  IsPool-sym s {a} {b} {fee} (pool, read, e) = (pool, s b a fee ∙ read, e)

  module _ (c : Chain) where
    check_pair-IsPool :
        {a b : String} {fee : ℕ} → IsPool a b fee → check_pair get_pool c a b fee ≡ ok tt
    check_pair-IsPool (pool, read, e) = rw (read, e) refl

    pub one_hop :
        {a b : String} {fee : ℕ}
        → IsPool a b fee
        → check_if_swap_path_exists get_pool c (a ∷ b ∷ []) (fee ∷ []) ≡ ok tt
    unfolding check_if_swap_path_exists
    one_hop p = ap (λ r. r >> ok tt) (check_pair-IsPool p)

    pub two_hops :
        {a b d : String} {fee1 fee2 : ℕ}
        → IsPool a b fee1
        → IsPool b d fee2
        → check_if_swap_path_exists get_pool c (a ∷ b ∷ d ∷ []) (fee1 ∷ fee2 ∷ []) ≡ ok tt
    unfolding check_if_swap_path_exists check_pairs
    two_hops p q = rw (check_pair-IsPool p, check_pair-IsPool q) refl

    -- A route from `input` to `output`, of pools that exist, directly or over the token `quote`.
    abbrev pub IsRoute : String → String → String → List String × List ℕ → Type 0
    IsRoute quote input output route =
        ((route.0 ≡ input ∷ output ∷ []) ⊎ (route.0 ≡ input ∷ quote ∷ output ∷ []))
        × (check_if_swap_path_exists get_pool c route.0 route.1 ≡ ok tt)

    -- If the factory's `getPool` does not depend on the order of the tokens, then a route that
    -- `getSwapPath` encodes starts at the input token, goes to the output token directly or over the
    -- oracle's quote token, and passes `checkIfSwapPathExists`.
    pub swap_route-IsRoute :
        ((a b : String) (fee : ℕ) → get_pool a b fee ≡ get_pool b a fee)
        → (quote input output : String) (route : List String × List ℕ)
        → swap_route get_pool (ok quote) input output ≡ ok route
        → IsRoute quote input output route
    unfolding swap_route
    swap_route-IsRoute s quote input output route h =
        let (_, different, rest) = >>=-eq-ok (throw_if (str_eq input output) same_token) _ h in
        elim (Bool-cases (str_eq quote output)) [
          | inl to_quote ↦
              let (fee, found, r) =
                >>=-eq-ok (existing_pool get_pool output input) _ (then_eq _ to_quote rest) in
              let p = IsPool-sym s (existing_pool-IsPool output input fee found) in
              subst (IsRoute quote input output) (ok_inj r) (inl refl, one_hop p)
          | inr not_to_quote ↦ elim (Bool-cases (str_eq quote input)) [
            | inl from_quote ↦
                let (fee, found, r) =
                  >>=-eq-ok (existing_pool get_pool output quote) _
                    (then_eq _ from_quote (else_eq _ not_to_quote rest)) in
                let p = IsPool-sym s (existing_pool-IsPool output quote fee found) in
                let same = (str_eq_iff quote input).0 from_quote in
                subst (IsRoute quote input output) (ok_inj r)
                  (inl (ap (λ q. q ∷ output ∷ []) same), one_hop p)
            | inr not_from_quote ↦
                let ((pool, fee), found, r) =
                  >>=-eq-ok (get_dex_pool_address_for_pair get_pool output input) _
                    (else_eq _ not_from_quote (else_eq _ not_to_quote rest)) in
                elim (Bool-cases (str_eq pool zero_address)) [
                  | inr direct ↦
                      let p = IsPool-sym s (pair-IsPool output input pool fee found direct) in
                      subst (IsRoute quote input output) (ok_inj (then_eq _ (ap not direct) r))
                        (inl refl, one_hop p)
                  | inl gone ↦
                      let (fee1, found1, r1) =
                        >>=-eq-ok (existing_pool get_pool output quote) _
                          (else_eq _ (ap not gone) r) in
                      let (fee2, found2, r2) =
                        >>=-eq-ok (existing_pool get_pool quote input) _ r1 in
                      let p1 = IsPool-sym s (existing_pool-IsPool output quote fee1 found1) in
                      let p2 = IsPool-sym s (existing_pool-IsPool quote input fee2 found2) in
                      subst (IsRoute quote input output) (ok_inj r2) (inr refl, two_hops p2 p1)
                ]
          ]
        ]
