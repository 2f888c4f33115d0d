-- ===== src/Reserves/Loop.antt =====
-- The loops of `initReservesByHelper` over the reserves.
use solidity_contracts.Reserves.Described.{input_of_token, input_of, inputs_of}
use solidity_contracts.Reserves.Cache.{IsCoherent, strategy_address-ok, not_some}
use solidity_contracts.Base.{
  ◌≡◌, ◌≢◌, refl, sym, ap, ◌∙◌, arith, Bool, true, false, List, [], ◌∷◌, ◌++◌, append-nil,
  append_assoc, map, none, some, String, str_eq, str_eq_iff, str_eq_refl, Result, ok, err, ◌>>=◌,
  All, All-append, Error, Bool-cases, then_eq, else_eq, Result-cases, Option-cases, inl, inr,
}
use solidity_contracts.Base.Dict.{Dict, lookup, insert, lookup-insert, IsDistinct}
use solidity_contracts.Swap.{zero_address}
use solidity_contracts.Reserves.{ReserveParams, token_address_of}
use solidity_contracts.Reserves.Init.{
  InitInput, Implementations, Deployed, Found, InitState, is_generic, strategy_deployment,
  add_reserve, collect_token, collect, init_input_from, is_true, init_inputs,
}

module _ (d : Deployed) where
  abbrev pub IsOther : String → Found → Type 0
  IsOther symbol f = f.symbol ≢ symbol

  -- The reserves that are left have other symbols.
  abbrev pub IsApart : InitState → Dict ReserveParams → Type 0
  IsApart st [] = Unit
  IsApart st ((symbol, params) ∷ reserves) = All (IsOther symbol) st.found × IsApart st reserves

  module _ (impl : Implementations) where
    -- What `init_inputs` makes of an index, by the two dictionaries.
    abbrev indexed : Dict Bool → Dict String → Found → InitInput
    indexed types strategies f =
        init_input_from d impl (is_true d (lookup f.symbol types)) (lookup f.symbol strategies) f

    map-indexed :
        (symbol : String) (b : Bool) (a : String) (types : Dict Bool) (strategies : Dict String)
        (fs : List Found)
        → All (IsOther symbol) fs
        → map (indexed (insert symbol b types) (insert symbol a strategies)) fs
          ≡ map (indexed types strategies) fs
    map-indexed symbol b a types strategies [] h = refl
    map-indexed symbol b a types strategies (f ∷ fs) (h, hs) =
        let e : str_eq symbol f.symbol ≡ false = ground (arith, str_eq_iff symbol f.symbol, h) in
        let e1 : lookup f.symbol (insert symbol b types) ≡ lookup f.symbol types =
          rw (lookup-insert symbol f.symbol b types, e) refl in
        let e2 : lookup f.symbol (insert symbol a strategies) ≡ lookup f.symbol strategies =
          rw (lookup-insert symbol f.symbol a strategies, e) refl in
        rw (e1, e2, map-indexed symbol b a types strategies fs hs) refl

    map-append :
        (g : Found → InitInput) (xs : List Found) (x : Found)
        → map g (xs ++ (x ∷ [])) ≡ map g xs ++ (g x ∷ [])
    map-append g [] x = refl
    map-append g (y ∷ xs) x = ap (◌∷◌ (g y)) (map-append g xs x)

    -- A reserve whose symbol is new adds its own input and changes none that is there.
    init_inputs-add_reserve :
        (st : InitState) (symbol : String) (params : ReserveParams) (token a : String)
        (cache : Dict String)
        → All (IsOther symbol) st.found
        → init_inputs d impl (add_reserve d st symbol params token (a, cache))
          ≡ init_inputs d impl st
            ++ (init_input_from d impl
                  (is_generic params.a_token_impl)
                  (some a)
                  (record { symbol = symbol; token = token; decimals = params.reserve_decimals })
                ∷ [])
    unfolding init_inputs
    init_inputs-add_reserve st symbol params token a cache h =
        let b = is_generic params.a_token_impl in
        let f : Found = record {
          symbol = symbol;
          token = token;
          decimals = params.reserve_decimals;
        } in
        let t : str_eq symbol symbol ≡ true = str_eq_refl symbol in
        let e1 : lookup symbol (insert symbol b st.a_token_type) ≡ some b =
          rw (lookup-insert symbol symbol b st.a_token_type, t) refl in
        let e2 : lookup symbol (insert symbol a st.strategy_address_per_asset) ≡ some a =
          rw (lookup-insert symbol symbol a st.strategy_address_per_asset, t) refl in
        map-append _ st.found f
        ∙ rw
            (
              map-indexed symbol b a st.a_token_type st.strategy_address_per_asset st.found h,
              e1,
              e2,
            )
            refl

    -- A step of the loop, with what is still ahead of it.
    data Step (st : InitState) (reserves : Dict ReserveParams) (r : Result InitState)
        (here : Result (List InitInput)) : Type 0 where
      throws : {e : Error} → r ≡ err e → here ≡ err e → Step st reserves r here
      goes :
          {next : InitState} {xs : List InitInput}
          → r ≡ ok next
          → here ≡ ok xs
          → init_inputs d impl next ≡ init_inputs d impl st ++ xs
          → IsCoherent d next.strategy_addresses
          → IsApart next reserves
          → Step st reserves r here

    keeps :
        (st : InitState) (reserves : Dict ReserveParams) {r : Result InitState}
        {here : Result (List InitInput)}
        → IsCoherent d st.strategy_addresses
        → IsApart st reserves
        → r ≡ ok st
        → here ≡ ok []
        → Step st reserves r here
    keeps st reserves co apart e f = Step.goes e f (sym (append-nil _)) co apart

    IsApart-add_reserve :
        (st : InitState) (symbol : String) (params : ReserveParams) (token a : String)
        (cache : Dict String) (reserves : Dict ReserveParams)
        → lookup symbol reserves ≡ none
        → IsApart st reserves
        → IsApart (add_reserve d st symbol params token (a, cache)) reserves
    unfolding lookup
    IsApart-add_reserve st symbol params token a cache [] h p = tt
    IsApart-add_reserve st symbol params token a cache ((other, q) ∷ reserves) h (all, p) =
        elim (Bool-cases (str_eq other symbol)) [
          | inl t ↦ absurd (not_some (then_eq _ t h))
          | inr t ↦ (
            All-append (IsOther other) st.found _ all
                ((λ e. ground (arith, str_eq_iff other symbol, e, t)), tt),
            IsApart-add_reserve st symbol params token a cache reserves (else_eq _ t h) p,
          )
        ]

    collect_token-Step :
        (st : InitState) (symbol : String) (params : ReserveParams) (token : String)
        (reserves : Dict ReserveParams)
        → IsCoherent d st.strategy_addresses
        → All (IsOther symbol) st.found
        → lookup symbol reserves ≡ none
        → IsApart st reserves
        → Step st reserves
            (collect_token d st symbol params token)
            (input_of_token d impl symbol params token)
    unfolding collect_token
    collect_token-Step st symbol params token reserves co other new apart =
        elim (Result-cases (d.get_a_token token)) [
          | inr (e, h) ↦ Step.throws {e = e} (rw h refl) (rw h refl)
          | inl (a_token, h) ↦ elim (Bool-cases (str_eq a_token zero_address)) [
            | inr z ↦ keeps st reserves co apart (rw (h, z) refl) (rw (h, z) refl)
            | inl z ↦
                let (failing, going) =
                  strategy_address-ok d params.strategy_name st.strategy_addresses co _ refl in
                elim (Result-cases (strategy_deployment d params.strategy_name)) [
                  | inr (e, g) ↦
                      Step.throws {e = e} (rw (h, z, failing e g) refl) (rw (h, z, g) refl)
                  | inl (a, g) ↦
                      let (next, found, co') = going a g in
                      Step.goes (rw (h, z, found) refl) (rw (h, z, g) refl)
                        (init_inputs-add_reserve st symbol params token a next other) co'
                        (IsApart-add_reserve st symbol params token a next reserves new apart)
                ]
          ]
        ]

    joined :
        (st next : InitState) (xs : List InitInput) (r : Result (List InitInput))
        → init_inputs d impl next ≡ init_inputs d impl st ++ xs
        → (r >>= λ ys. ok (init_inputs d impl next ++ ys))
          ≡ (r >>= (λ ys. ok (xs ++ ys)) >>= λ zs. ok (init_inputs d impl st ++ zs))
    joined st next xs (err x) e = refl
    joined st next xs (ok ys) e = rw e (ap ok (append_assoc (init_inputs d impl st) xs ys))

    collect_after-Step :
        (token_addresses : Dict String) (st : InitState) (reserves : Dict ReserveParams)
        {r : Result InitState} {here : Result (List InitInput)}
        → ((next : InitState)
            → IsCoherent d next.strategy_addresses
            → IsApart next reserves
            → (collect d token_addresses next reserves >>= λ last. ok (init_inputs d impl last)) ≡ (
                inputs_of d impl token_addresses reserves >>= λ xs.
                ok (init_inputs d impl next ++ xs)))
        → Step st reserves r here
        → (r >>= (λ next. collect d token_addresses next reserves) >>= λ last.
            ok (init_inputs d impl last))
          ≡ (here
              >>= (λ xs. inputs_of d impl token_addresses reserves >>= λ ys. ok (xs ++ ys))
              >>= λ xs. ok (init_inputs d impl st ++ xs))
    collect_after-Step token_addresses st reserves ih (Step.throws e f) = rw (e, f) refl
    collect_after-Step token_addresses st reserves ih (Step.goes {next} {xs} e f g co apart) =
        rw (e, f)
          (ih next co apart ∙ joined st next xs (inputs_of d impl token_addresses reserves) g)

    -- The loop adds the inputs of the reserves, each taken for itself.
    pub collect-inputs_of :
        (token_addresses : Dict String) (st : InitState) (reserves : Dict ReserveParams)
        → IsCoherent d st.strategy_addresses
        → IsApart st reserves
        → IsDistinct reserves
        → (collect d token_addresses st reserves >>= λ last. ok (init_inputs d impl last))
          ≡ (inputs_of d impl token_addresses reserves >>= λ xs. ok (init_inputs d impl st ++ xs))
    unfolding collect inputs_of
    collect-inputs_of token_addresses st [] co apart distinct =
        rw (append-nil (init_inputs d impl st)) refl
    collect-inputs_of token_addresses st ((symbol, params) ∷ reserves) co (other, apart)
          (new, distinct) =
        collect_after-Step token_addresses st reserves
          (λ next co' apart'. collect-inputs_of token_addresses next reserves co' apart' distinct)
          (elim (Option-cases (token_address_of token_addresses symbol)) [
            | inl e ↦ keeps st reserves co apart (rw e refl) (rw (input_of, e) refl)
            | inr (token, e) ↦
                rw (input_of, e)
                  (collect_token-Step st symbol params token reserves co other new apart)
          ])
