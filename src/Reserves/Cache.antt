-- ===== src/Reserves/Cache.antt =====
-- The cache of strategy addresses in `initReservesByHelper`.
use solidity_contracts.Base.{
  ◌≡◌, refl, sym, ap, ◌∙◌, arith, Option, none, some, String, str_eq, str_eq_iff, Result, ok, err,
  ◌>>=◌, ok_inj, Error, Bool-cases, then_eq, else_eq, inl, inr,
}
use solidity_contracts.Base.Dict.{Dict, lookup, insert, lookup-insert}
use mathlib.Core.Path.{subst}
use solidity_contracts.Reserves.{ReserveParams, truthy_text}
use solidity_contracts.Reserves.Init.{Deployed, strategy_deployment, strategy_address, behind_cache}

some_inj : {a b : String} → some a ≡ some b → a ≡ b
some_inj e = cc

pub not_some : {v : ReserveParams} → some v ≡ none → ⊥
not_some e = cc

pub truthy_text-some : {a : String} (m : Option String) → truthy_text m ≡ some a → m ≡ some a
truthy_text-some none e = cc
truthy_text-some (some x) e = ground (arith, e)

module _ (d : Deployed) where
  -- The cache holds the addresses of the deployments.
  abbrev pub IsCoherent : Dict String → Type 0
  IsCoherent cache =
      (name address : String)
      → lookup name cache ≡ some address
      → strategy_deployment d name ≡ ok address

  pub insert-IsCoherent :
      (name address : String) (cache : Dict String)
      → IsCoherent cache
      → strategy_deployment d name ≡ ok address
      → IsCoherent (insert name address cache)
  insert-IsCoherent name address cache co e n a f =
      let l = sym (lookup-insert name n address cache) ∙ f in
      elim (Bool-cases (str_eq name n)) [
        | inl t ↦
            ap (strategy_deployment d) (sym ((str_eq_iff name n).0 t))
            ∙ e
            ∙ ap ok (some_inj (then_eq _ t l))
        | inr t ↦ co n a (else_eq _ t l)
      ]

  behind_cache-none :
      (name : String) (cache : Dict String) {r : Result String}
      → strategy_deployment d name ≡ r
      → behind_cache d name cache none ≡ (r >>= λ address. ok (address, insert name address cache))
  behind_cache-none name cache e =
      ap (λ v. v >>= λ address. ok (address, insert name address cache)) e

  -- The cache does not change what a strategy's address is, and stays coherent.
  behind_cache-ok :
      (name : String) (cache : Dict String)
      → IsCoherent cache
      → (m : Option String) → ((a : String) → m ≡ some a → strategy_deployment d name ≡ ok a)
      → (r : Result String) → strategy_deployment d name ≡ r
      → ((e : Error) → r ≡ err e → behind_cache d name cache m ≡ err e)
        × ((a : String)
            → r ≡ ok a
            → (next : Dict String) × (behind_cache d name cache m ≡ ok (a, next)) × IsCoherent next)
  behind_cache-ok name cache co (some x) h r e =
      (λ y z. cc (h x refl), λ a z. (cache, cc (h x refl), co))
  behind_cache-ok name cache co none h (err x) e =
      (λ y z. behind_cache-none name cache e ∙ cc z, λ a z. cc)
  behind_cache-ok name cache co none h (ok x) e = (
    λ y z. cc,
    λ a z. (
      insert name a cache,
      behind_cache-none name cache e ∙ ap (λ v. ok (v, insert name v cache)) (ok_inj z),
      subst (λ v. IsCoherent (insert name v cache)) (ok_inj z)
          (insert-IsCoherent name x cache co e),
    ),
  )

  pub strategy_address-ok :
      (name : String) (cache : Dict String)
      → IsCoherent cache
      → (r : Result String) → strategy_deployment d name ≡ r
      → ((e : Error) → r ≡ err e → strategy_address d name cache ≡ err e)
        × ((a : String)
            → r ≡ ok a
            → (next : Dict String) × (strategy_address d name cache ≡ ok (a, next))
              × IsCoherent next)
  unfolding strategy_address
  strategy_address-ok name cache co =
      behind_cache-ok name cache co (truthy_text (lookup name cache))
        λ a e. co name a (truthy_text-some (lookup name cache) e)
