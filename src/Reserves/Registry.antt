-- ===== src/Reserves/Registry.antt =====
-- `addMarketToRegistry`, with `isEqualAddress` and `isValidAddress` of utils/address.ts. `isAddress` and
-- `getAddress` of the library ethers are parameters.
use solidity_contracts.Base.{
  ℕ, ◌≡◌, refl, ap, ◌∙◌, ◌⊎◌, inl, inr, Bool, true, false, not, [], ◌∷◌, String, str_eq, Result, ok,
  ◌>>=◌, bad_provider_address, Traced, reading, reading-ok, throw_if, if◌then◌else◌,
}
use solidity_contracts.Swap.{zero_address}

-- `isAddress`, and `getAddress`, which gives the spelling with a checksum or throws.
pub record Addresses : Type 0 where
  pub is_address : String → Bool
  pub get_address : String → Result String

-- `registerAddressesProvider`: the signer, the address and the identifier.
pub data RegistryCall : Type 0 where
  register_addresses_provider : String → String → ℕ → RegistryCall

-- The deployed registry, its owner, the signers, the provider by its identifier, and whether a call
-- goes through.
pub record Registry : Type 0 where
  pub deployment : Result (Unit {0})
  pub owner : Result String
  pub get_signer : String → Result (Unit {0})
  pub get_addresses_provider_address_by_id : ℕ → Result String
  pub send : RegistryCall → Result (Unit {0})

module _ (a : Addresses) where
  unfoldable pub is_equal_address : String → String → Result Bool
  is_equal_address x y =
      a.get_address x >>= λ left. a.get_address y >>= λ right. ok (str_eq left right)

  unfoldable pub is_valid_address : String → Result Bool
  unfolding is_equal_address
  is_valid_address value =
      if str_eq value ""
      then ok false
      else if not (a.is_address value)
      then ok false
      else (is_equal_address value zero_address >>= λ same. ok (not same))

  module _ (r : Registry) where
    -- Whether the identifier is taken is known.
    abbrev pub unless_registered : Bool → RegistryCall → Traced RegistryCall (Unit {0})
    unless_registered true call = (ok tt, [])
    unless_registered false call = (r.send call, call ∷ [])

    unfoldable pub add_market_to_registry : ℕ → String → Traced RegistryCall (Unit {0})
    unfolding is_valid_address
    add_market_to_registry provider_id addresses_provider_address = reading r.deployment (λ _.
        reading r.owner (λ owner. reading (is_valid_address addresses_provider_address) (λ valid.
          reading (throw_if (not valid) bad_provider_address) (λ _.
            reading (r.get_signer owner) (λ _.
              reading (r.get_addresses_provider_address_by_id provider_id) (λ provider_address.
                unless_registered (not (str_eq provider_address zero_address)) (
                  RegistryCall.register_addresses_provider owner addresses_provider_address
                    provider_id)))))))

    unless_registered-ok :
        (free : Bool) (call : RegistryCall)
        → let run = unless_registered (not free) call in
          run.0 ≡ ok tt
          → ((free ≡ false) × (run.1 ≡ []))
            ⊎ ((free ≡ true) × (run.1 ≡ call ∷ []) × (r.send call ≡ ok tt))
    unless_registered-ok true call h = inr (refl, refl, h)
    unless_registered-ok false call h = inl (refl, refl)

    -- If it returns, the address is a valid one, and either a provider with the identifier is there and
    -- nothing was sent, or the registration in the name of the registry's owner was sent and went
    -- through.
    pub add_market_to_registry-ok :
        (provider_id : ℕ) (address : String)
        → let run = add_market_to_registry provider_id address in
          run.0 ≡ ok tt
          → (owner : String) × (provider : String) × (r.owner ≡ ok owner)
            × (is_valid_address address ≡ ok true)
            × (r.get_addresses_provider_address_by_id provider_id ≡ ok provider)
            × (((str_eq provider zero_address ≡ false) × (run.1 ≡ []))
                ⊎ ((str_eq provider zero_address ≡ true)
                    × (run.1
                        ≡ RegistryCall.register_addresses_provider owner address provider_id ∷ [])
                    × (r.send (RegistryCall.register_addresses_provider owner address provider_id)
                        ≡ ok tt)))
    unfolding add_market_to_registry
    add_market_to_registry-ok provider_id address h =
        let (_, _, h1, e1) = reading-ok r.deployment _ h in
        let (owner, o, h2, e2) = reading-ok r.owner _ h1 in
        let (valid, v, h3, e3) = reading-ok (is_valid_address address) _ h2 in
        let (_, t, h4, e4) = reading-ok (throw_if (not valid) bad_provider_address) _ h3 in
        let (_, _, h5, e5) = reading-ok (r.get_signer owner) _ h4 in
        let (provider, p, h6, e6) =
          reading-ok (r.get_addresses_provider_address_by_id provider_id) _ h5 in
        (
          owner,
          provider,
          o,
          v ∙ ap ok (is_true valid t),
          p,
          rw (e1 ∙ e2 ∙ e3 ∙ e4 ∙ e5 ∙ e6)
              (unless_registered-ok (str_eq provider zero_address) _ h6),
        )
      where
        is_true : (b : Bool) → throw_if (not b) bad_provider_address ≡ ok tt → b ≡ true
        is_true true t = refl
        is_true false t = cc
