-- ===== src/Tokens/Cache.antt =====
-- The cache answers as the token contracts do, and keeps its answers.
use solidity_contracts.Base.{
  ◌≡◌, refl, sym, ap, ◌∙◌, inl, inr, Option, none, some, String, str_eq, str_eq_iff, str_eq_refl,
  Result, ok, err, if◌then◌else◌, Bool-cases, arith,
}
use solidity_contracts.Base.Dict.{Dict, lookup, insert, lookup-insert}
use solidity_contracts.Chain.{TokenInfo}
use solidity_contracts.Tokens.{
  TokenReads, fetch_token_info_implementation, fetch_token_info, store, behind_lookup,
}

-- Every entry is what the contract answers.
abbrev pub IsCoherent : TokenReads → Dict TokenInfo → Type 0
IsCoherent reads cache =
    (a : String) (t : TokenInfo)
    → lookup a cache ≡ some t
    → fetch_token_info_implementation reads a ≡ ok t

insert-IsCoherent :
    (reads : TokenReads) (a : String) (t : TokenInfo) (cache : Dict TokenInfo)
    → IsCoherent reads cache
    → fetch_token_info_implementation reads a ≡ ok t
    → IsCoherent reads (insert a t cache)
insert-IsCoherent reads a t cache h e b u found =
    let at = sym (lookup-insert a b t cache) ∙ found in
    elim (Bool-cases (str_eq a b)) [
      | inl same ↦
          let t_is_u = some_inj (ap (λ x. if x then some t else lookup b cache) (sym same) ∙ at) in
          ap (fetch_token_info_implementation reads) (sym ((str_eq_iff a b).0 same))
          ∙ e
          ∙ ap ok t_is_u
      | inr other ↦ h b u (ap (λ x. if x then some t else lookup b cache) (sym other) ∙ at)
    ]
  where
    some_inj : {x y : TokenInfo} → some x ≡ some y → x ≡ y
    some_inj e = cc

store-IsCoherent :
    (reads : TokenReads) (a : String) (cache : Dict TokenInfo) (r : Result TokenInfo)
    → IsCoherent reads cache
    → fetch_token_info_implementation reads a ≡ r
    → ((store a cache r).0 ≡ r) × IsCoherent reads (store a cache r).1
store-IsCoherent reads a cache (ok t) h e = (refl, insert-IsCoherent reads a t cache h e)
store-IsCoherent reads a cache (err x) h e = (refl, h)

behind_lookup-IsCoherent :
    (reads : TokenReads) (a : String) (cache : Dict TokenInfo) (found : Option TokenInfo)
    → IsCoherent reads cache
    → lookup a cache ≡ found
    → let r = behind_lookup reads a cache found in
      (r.0 ≡ fetch_token_info_implementation reads a) × IsCoherent reads r.1
behind_lookup-IsCoherent reads a cache (some t) h e = (sym (h a t e), h)
behind_lookup-IsCoherent reads a cache none h e = store-IsCoherent reads a cache _ h refl

-- From a cache whose entries are what the contracts answer, the information is what the contract
-- answers, or what the reads throw, and the new cache is again such a cache.
pub fetch_token_info-IsCoherent :
    (reads : TokenReads) (address : String) (cache : Dict TokenInfo)
    → IsCoherent reads cache
    → let r = fetch_token_info reads address cache in
      (r.0 ≡ fetch_token_info_implementation reads address) × IsCoherent reads r.1
unfolding fetch_token_info
fetch_token_info-IsCoherent reads address cache h =
    behind_lookup-IsCoherent reads address cache (lookup address cache) h refl

-- What was returned once is returned ever after, without a change of the cache, whatever the contract
-- answers then.
pub fetch_token_info_stable :
    (reads later : TokenReads) (address : String) (cache : Dict TokenInfo) (t : TokenInfo)
    → (fetch_token_info reads address cache).0 ≡ ok t
    → let cached = (fetch_token_info reads address cache).1 in
      fetch_token_info later address cached ≡ (ok t, cached)
unfolding fetch_token_info
fetch_token_info_stable reads later address cache t h =
    ground (arith, h, lookup-insert address address t cache, str_eq_refl address)
