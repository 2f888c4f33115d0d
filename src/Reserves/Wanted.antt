-- ===== src/Reserves/Wanted.antt =====
-- What `configureReservesByHelper` configures, and the calls it sends if none throws.
use solidity_contracts.Base.{
  ℕ, ◌≡◌, refl, ap, ◌∙◌, Bool, true, false, Bool-cases, then_eq, else_eq, List, [], ◌∷◌, ◌++◌,
  append-nil, append_assoc, Option, none, some, Option-cases, String, str_eq, Result, ok, err,
  ◌>>=◌, or_throw, type_error, inl, inr, if◌then◌else◌,
}
use solidity_contracts.Base.Dict.{Dict, lookup}
use solidity_contracts.Reserves.{ReserveParams, token_address_of}
use solidity_contracts.Reserves.Cache.{truthy_text-some}
use solidity_contracts.Reserves.Configure.{
  ConfigureInput, Setup, find_index, next_index, entry_at, configure_input, collect_input,
  collect_inputs,
}

entry_at-next_index :
    (e : String × String) (entries : Dict String) (i : Option ℕ)
    → entry_at (e ∷ entries) (next_index i) ≡ entry_at entries i
entry_at-next_index e entries none = refl
entry_at-next_index e entries (some i) = refl

-- The entry at the index of a key is the one that the key finds.
entry_at-find_index :
    (symbol token : String) (entries : Dict String)
    → lookup symbol entries ≡ some token
    → entry_at entries (find_index symbol entries) ≡ ok token
unfolding lookup find_index
entry_at-find_index symbol token [] h = cc
entry_at-find_index symbol token ((key, value) ∷ entries) h =
    elim (Bool-cases (str_eq key symbol)) [
      | inl t ↦ rw t (ap (λ v. or_throw v type_error) (then_eq _ t h))
      | inr t ↦ rw t (
          entry_at-next_index (key, value) entries (find_index symbol entries)
          ∙ entry_at-find_index symbol token entries (else_eq _ t h))
    ]

token_address_of-lookup :
    (token_addresses : Dict String) (symbol token : String)
    → token_address_of token_addresses symbol ≡ some token
    → lookup symbol token_addresses ≡ some token
unfolding token_address_of
token_address_of-lookup token_addresses symbol token h = truthy_text-some _ h

-- Adding what is here and then the rest is adding both.
added_after :
    (inputs : List ConfigureInput) (rest : Result (List ConfigureInput))
    (loop : List ConfigureInput → Result (List ConfigureInput))
    → ((next : List ConfigureInput) → loop next ≡ (rest >>= λ xs. ok (next ++ xs)))
    → (here : Result (List ConfigureInput))
    → ((here >>= λ xs. ok (inputs ++ xs)) >>= loop)
      ≡ (here >>= (λ xs. rest >>= λ ys. ok (xs ++ ys)) >>= λ zs. ok (inputs ++ zs))
added_after inputs rest loop h (err e) = refl
added_after inputs rest loop h (ok xs) = h (inputs ++ xs) ∙ joined rest
  where
    joined :
        (r : Result (List ConfigureInput))
        → (r >>= λ ys. ok ((inputs ++ xs) ++ ys))
          ≡ (r >>= (λ ys. ok (xs ++ ys)) >>= λ zs. ok (inputs ++ zs))
    joined (err e) = refl
    joined (ok ys) = ap ok (append_assoc inputs xs ys)

module _ (s : Setup) where
  -- The input of a reserve by itself: none where it has no address, is no collateral or is enabled as
  -- one already.
  abbrev pub wanted_of_token : ReserveParams → String → Result (List ConfigureInput)
  wanted_of_token params token =
      if str_eq params.base_ltv_as_collateral "-1"
      then ok []
      else (s.usage_as_collateral_enabled token >>= λ enabled.
          ok (if enabled then [] else configure_input params token ∷ []))

  abbrev pub wanted_of : Dict String → String → ReserveParams → Result (List ConfigureInput)
  wanted_of token_addresses symbol params = elim (token_address_of token_addresses symbol) [
    | none ↦ ok []
    | some token ↦ wanted_of_token params token
  ]

  unfoldable pub wanted_inputs : Dict String → Dict ReserveParams → Result (List ConfigureInput)
  wanted_inputs token_addresses [] = ok []
  wanted_inputs token_addresses ((symbol, params) ∷ reserves) =
      wanted_of token_addresses symbol params >>= λ here.
      wanted_inputs token_addresses reserves >>= λ rest. ok (here ++ rest)

  collect_input-wanted_of_token :
      (token_addresses : Dict String) (inputs : List ConfigureInput) (symbol token : String)
      (params : ReserveParams)
      → lookup symbol token_addresses ≡ some token
      → collect_input s token_addresses inputs symbol params
        ≡ (wanted_of_token params token >>= λ xs. ok (inputs ++ xs))
  unfolding collect_input
  collect_input-wanted_of_token token_addresses inputs symbol token params h =
      elim (Bool-cases (str_eq params.base_ltv_as_collateral "-1")) [
        | inl t ↦ rw (t, append-nil inputs) refl
        | inr t ↦
            rw (t, entry_at-find_index symbol token token_addresses h)
              (enabled (s.usage_as_collateral_enabled token))
      ]
    where
      enabled :
          (r : Result Bool)
          → (r >>= λ b. if b then ok inputs else ok (inputs ++ (configure_input params token ∷ [])))
            ≡ (r >>= (λ b. ok (if b then [] else configure_input params token ∷ [])) >>= λ xs.
                ok (inputs ++ xs))
      enabled (err e) = refl
      enabled (ok true) = rw (append-nil inputs) refl
      enabled (ok false) = refl

  -- The loop adds the inputs of the reserves, each taken for itself.
  pub collect_inputs-wanted_inputs :
      (token_addresses : Dict String) (inputs : List ConfigureInput) (reserves : Dict ReserveParams)
      → collect_inputs s token_addresses inputs reserves
        ≡ (wanted_inputs token_addresses reserves >>= λ xs. ok (inputs ++ xs))
  unfolding collect_inputs wanted_inputs
  collect_inputs-wanted_inputs token_addresses inputs [] = rw (append-nil inputs) refl
  collect_inputs-wanted_inputs token_addresses inputs ((symbol, params) ∷ reserves) =
      ap (λ r. r >>= λ next. collect_inputs s token_addresses next reserves)
        (elim (Option-cases (token_address_of token_addresses symbol)) [
          | inl e ↦ rw (wanted_of, e, append-nil inputs) refl
          | inr (token, e) ↦
              rw (wanted_of, e)
                (collect_input-wanted_of_token token_addresses inputs symbol token params
                  (token_address_of-lookup token_addresses symbol token e))
        ])
      ∙ added_after inputs (wanted_inputs token_addresses reserves) _
          (λ next. collect_inputs-wanted_inputs token_addresses next reserves)
          (wanted_of token_addresses symbol params)
