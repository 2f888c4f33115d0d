-- ===== src/Reserves/Roles.antt =====
-- The calls of `configureReservesByHelper` and the role of its helper contract.
use mathlib.Core.Path.{subst}
use solidity_contracts.Base.{
  ◌≡◌, refl, sym, ap, ◌∙◌, Bool, true, false, List, [], ◌∷◌, ◌++◌, map, String, Result, ok, err,
  Result-cases, ok_inj, >>=-eq-ok, reading, and_then-ok, reading-ok, All, All-append, inl, inr,
}
use solidity_contracts.Base.Dict.{Dict}
use solidity_contracts.Batches.{chunk}
use solidity_contracts.Reserves.{ReserveParams}
use solidity_contracts.Reserves.Configure.{
  ConfigureInput, SetupCall, Setup, sent_setup, collect_inputs, configure_chunks, configure_all,
  configure_as_admin, configure_if_any, configure_reserves_by_helper,
}
use solidity_contracts.Reserves.Wanted.{wanted_inputs, collect_inputs-wanted_inputs}

module _ (s : Setup) where
  -- What a call does to the role, if it goes through.
  abbrev pub after_setup : Bool → SetupCall → Result (Unit {0}) → Bool
  after_setup role call (err e) = role
  after_setup role (SetupCall.add_risk_admin manager helper) (ok _) = true
  after_setup role (SetupCall.remove_risk_admin manager helper) (ok _) = false
  after_setup role (SetupCall.configure_reserves configurator inputs) (ok _) = role

  -- Whether the helper is a risk admin after the calls.
  abbrev pub is_risk_admin : Bool → List SetupCall → Bool
  is_risk_admin role [] = role
  is_risk_admin role (call ∷ calls) = is_risk_admin (after_setup role call (s.send call)) calls

  abbrev pub GoesThrough : SetupCall → Type 0
  GoesThrough call = s.send call ≡ ok tt

  configure_chunks-ok :
      (configurator : String) (chunks : List (List ConfigureInput))
      → (configure_chunks s configurator chunks).0 ≡ ok tt
      → ((configure_chunks s configurator chunks).1
          ≡ map (SetupCall.configure_reserves configurator) chunks)
        × All GoesThrough (map (SetupCall.configure_reserves configurator) chunks)
  unfolding configure_chunks
  configure_chunks-ok configurator [] h = (refl, tt)
  configure_chunks-ok configurator (inputs ∷ chunks) h =
      let call = SetupCall.configure_reserves configurator inputs in
      let (_, sent, rest, calls) =
        and_then-ok (sent_setup s call) (λ _. configure_chunks s configurator chunks) h in
      let (all, through) = configure_chunks-ok configurator chunks rest in
      (calls ∙ ap (◌∷◌ call) all, (sent, through))

  kept_role :
      (role : Bool) (configurator : String) (inputs : List ConfigureInput) (r : Result (Unit {0}))
      → after_setup role (SetupCall.configure_reserves configurator inputs) r ≡ role
  kept_role role configurator inputs (err e) = refl
  kept_role role configurator inputs (ok _) = refl

  -- The chunks change no role.
  is_risk_admin-configure_chunks :
      (role : Bool) (configurator : String) (chunks : List (List ConfigureInput))
      → is_risk_admin role (configure_chunks s configurator chunks).1 ≡ role
  unfolding configure_chunks
  is_risk_admin-configure_chunks role configurator [] = refl
  is_risk_admin-configure_chunks role configurator (inputs ∷ chunks) =
      let kept =
        kept_role role configurator inputs
          (s.send (SetupCall.configure_reserves configurator inputs)) in
      elim (Result-cases (s.send (SetupCall.configure_reserves configurator inputs))) [
        | inr (e, h) ↦ rw h kept
        | inl (_, h) ↦ rw (h, kept) (is_risk_admin-configure_chunks role configurator chunks)
      ]

  pub is_risk_admin-configure_all :
      (role : Bool) (inputs : List ConfigureInput)
      → is_risk_admin role (configure_all s inputs).1 ≡ role
  unfolding configure_all
  is_risk_admin-configure_all role inputs = elim (Result-cases s.get_pool_configurator) [
    | inr (e, h) ↦ rw h refl
    | inl (configurator, h) ↦
        rw h (is_risk_admin-configure_chunks role configurator (chunk inputs 20))
  ]

  -- The calls for the inputs: the role is given, every chunk is configured, the role is taken.
  pub data Configured (helper : String) : List ConfigureInput → List SetupCall → Type 0 where
    nothing : Configured helper [] []
    configured :
        {input : ConfigureInput} {inputs : List ConfigureInput} (manager configurator : String)
        → Configured helper (input ∷ inputs) (
            SetupCall.add_risk_admin manager helper
              ∷ map (SetupCall.configure_reserves configurator) (chunk (input ∷ inputs) 20)
            ++ (SetupCall.remove_risk_admin manager helper ∷ []))

  configure_as_admin-ok :
      (helper : String) (input : ConfigureInput) (inputs : List ConfigureInput)
      → let run = configure_as_admin s helper (input ∷ inputs) in
        run.0 ≡ ok tt → Configured helper (input ∷ inputs) run.1 × All GoesThrough run.1
  unfolding configure_as_admin configure_all
  configure_as_admin-ok helper input inputs h =
      let (admin, a, h1, e1) = reading-ok s.get_acl_admin _ h in
      let (_, b, h2, e2) = reading-ok (s.get_signer admin) _ h1 in
      let (manager, m, h3, e3) = reading-ok s.get_acl_manager _ h2 in
      let (_, added, h4, e4) =
        and_then-ok (sent_setup s (SetupCall.add_risk_admin manager helper)) _ h3 in
      let (_, all, h5, e5) = and_then-ok (configure_all s (input ∷ inputs)) _ h4 in
      let (same, m', h6, e6) = reading-ok s.get_acl_manager _ h5 in
      let (configurator, p, h7, e7) = reading-ok s.get_pool_configurator _ all in
      let (calls, through) = configure_chunks-ok configurator (chunk (input ∷ inputs) 20) h7 in
      let add = SetupCall.add_risk_admin manager helper in
      let chunks = map (SetupCall.configure_reserves configurator) (chunk (input ∷ inputs) 20) in
      let e8 : same ≡ manager = ok_inj (sym m' ∙ m) in
      let removed : s.send (SetupCall.remove_risk_admin manager helper) ≡ ok tt =
        ap (λ a. s.send (SetupCall.remove_risk_admin a helper)) (sym e8) ∙ h6 in
      let sent : (configure_as_admin s helper (input ∷ inputs)).1
          ≡ add ∷ chunks ++ (SetupCall.remove_risk_admin manager helper ∷ []) =
        ap (λ r. r.1) (e1 ∙ e2 ∙ e3)
        ∙ e4
        ∙ ap (◌∷◌ add) (
            e5
            ∙ ap
                (λ c.
                  c
                  ++ (reading s.get_acl_manager
                      (λ a. sent_setup s (SetupCall.remove_risk_admin a helper))).1)
                (ap (λ r. r.1) e7 ∙ calls)
            ∙ ap (λ r. chunks ++ r.1) e6
            ∙ ap (λ a. chunks ++ (SetupCall.remove_risk_admin a helper ∷ [])) e8) in
      subst (λ c. Configured helper (input ∷ inputs) c × All GoesThrough c) (sym sent)
        (
          Configured.configured manager configurator,
          (added, All-append GoesThrough chunks _ through (removed, tt)),
        )

  configure_if_any-ok :
      (helper : String) (inputs : List ConfigureInput)
      → let run = configure_if_any s helper inputs in
        run.0 ≡ ok tt → Configured helper inputs run.1 × All GoesThrough run.1
  configure_if_any-ok helper [] h = (Configured.nothing, tt)
  configure_if_any-ok helper (input ∷ inputs) h = configure_as_admin-ok helper input inputs h

  closed :
      (role : Bool) (manager helper configurator : String) (chunks : List (List ConfigureInput))
      → All GoesThrough (
          map (SetupCall.configure_reserves configurator) chunks
          ++ (SetupCall.remove_risk_admin manager helper ∷ []))
      → is_risk_admin role (
          map (SetupCall.configure_reserves configurator) chunks
          ++ (SetupCall.remove_risk_admin manager helper ∷ []))
        ≡ false
  closed role manager helper configurator [] (h, _) = rw (is_risk_admin, h) refl
  closed role manager helper configurator (c ∷ chunks) (h, hs) =
      rw (is_risk_admin, h) (closed role manager helper configurator chunks hs)

  -- The calls of a run that returns leave the helper without the role.
  Configured-is_risk_admin :
      {helper : String} {inputs : List ConfigureInput} {calls : List SetupCall}
      → Configured helper inputs calls
      → All GoesThrough calls
      → is_risk_admin false calls ≡ false
  Configured-is_risk_admin Configured.nothing h = refl
  Configured-is_risk_admin (Configured.configured {input} {inputs} manager configurator)
        (added, through) =
      closed _ manager _ configurator (chunk (input ∷ inputs) 20) through

  -- If `configureReservesByHelper` returns, then its calls went through, and they are none where no
  -- reserve has to be configured, and otherwise: the role for the helper, the reserves that the
  -- description picks, in order and in chunks of twenty, and the end of the role,
  -- which the helper contract then does not have.
  pub configure_reserves_by_helper-ok :
      (reserves_params : Dict ReserveParams) (token_addresses : Dict String)
      → let run = configure_reserves_by_helper s reserves_params token_addresses in
        run.0 ≡ ok tt
        → (helper : String) × (inputs : List ConfigureInput) × (s.reserves_setup_helper ≡ ok helper)
          × (wanted_inputs s token_addresses reserves_params ≡ ok inputs)
          × Configured helper inputs run.1
          × All GoesThrough run.1
          × (is_risk_admin false run.1 ≡ false)
  unfolding configure_reserves_by_helper
  configure_reserves_by_helper-ok reserves_params token_addresses h =
      let (_, a, h1, e1) = reading-ok s.address_provider _ h in
      let (helper, b, h2, e2) = reading-ok s.reserves_setup_helper _ h1 in
      let (_, c, h3, e3) = reading-ok s.pool_data_provider _ h2 in
      let (inputs, w, h4, e4) =
        reading-ok (collect_inputs s token_addresses [] reserves_params) _ h3 in
      let (x, wanted, y) =
        >>=-eq-ok (wanted_inputs s token_addresses reserves_params) _
          (sym (collect_inputs-wanted_inputs s token_addresses [] reserves_params) ∙ w) in
      let (course, through) = configure_if_any-ok helper inputs h4 in
      let e = sym (e1 ∙ e2 ∙ e3 ∙ e4) in
      (
        helper,
        inputs,
        b,
        wanted ∙ y,
        subst (λ r. Configured helper inputs r.1) e course,
        subst (λ r. All GoesThrough r.1) e through,
        subst (λ r. is_risk_admin false r.1 ≡ false) e (Configured-is_risk_admin course through),
      )
