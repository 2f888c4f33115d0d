-- ===== src/Reserves/Leftover.antt =====
-- The role of the helper contract where `configureReservesByHelper` throws.
use mathlib.Core.Path.{subst}
use solidity_contracts.Base.{
  ◌≡◌, ◌≢◌, refl, sym, ap, ◌∙◌, true, false, List, [], ◌∷◌, String, ok, err, Error, ok_inj, Traced,
  and_then, reading, reading-started, append_calls,
}
use solidity_contracts.Base.Dict.{Dict}
use solidity_contracts.Reserves.{ReserveParams}
use solidity_contracts.Reserves.Configure.{
  ConfigureInput, SetupCall, Setup, sent_setup, collect_inputs, configure_all, configure_as_admin,
  configure_if_any, configure_reserves_by_helper,
}
use solidity_contracts.Reserves.Roles.{is_risk_admin, is_risk_admin-configure_all}

not_thrown : {u : Unit {0}} {e : Error} → ok u ≡ err e → ⊥
not_thrown h = cc

module _ (s : Setup) where
  module _ (helper manager : String) (e : Error) (m : s.get_acl_manager ≡ ok manager)
      (removed : s.send (SetupCall.remove_risk_admin manager helper) ≡ ok tt) where
    closing_throws :
        (between : Traced SetupCall (Unit {0}))
        → is_risk_admin s true between.1 ≡ true
        → let run = and_then between (λ _.
          reading s.get_acl_manager
            (λ same. sent_setup s (SetupCall.remove_risk_admin same helper))) in
          run.0 ≡ err e → is_risk_admin s true run.1 ≡ true
    closing_throws (err _, calls) r h = r
    closing_throws (ok _, calls) r h = absurd (not_thrown (run_closed ∙ h))
      where
        run_closed :
            ok tt
            ≡ (reading s.get_acl_manager
                (λ same. sent_setup s (SetupCall.remove_risk_admin same helper))).0
        run_closed = rw (m, removed) refl

    configure_as_admin-is_risk_admin :
        (inputs : List ConfigureInput)
        → s.send (SetupCall.add_risk_admin manager helper) ≡ ok tt
        → let run = configure_as_admin s helper inputs in
          run.0 ≡ err e → run.1 ≢ [] → is_risk_admin s false run.1 ≡ true
    unfolding configure_as_admin
    configure_as_admin-is_risk_admin inputs added h sent =
        let (admin, a, s1, e1) = reading-started s.get_acl_admin _ sent in
        let (_, b, s2, e2) = reading-started (s.get_signer admin) _ s1 in
        let (same, m', s3, e3) = reading-started s.get_acl_manager _ s2 in
        let sames : same ≡ manager = ok_inj (sym m' ∙ m) in
        let k : Unit {0} → Traced SetupCall (Unit {0}) = λ x.
          and_then (configure_all s inputs) (λ _.
            reading s.get_acl_manager
              (λ other. sent_setup s (SetupCall.remove_risk_admin other helper))) in
        let run : configure_as_admin s helper inputs
            ≡ append_calls (SetupCall.add_risk_admin manager helper ∷ []) (k tt) =
          e1
          ∙ e2
          ∙ e3
          ∙ ap (λ a. and_then (sent_setup s (SetupCall.add_risk_admin a helper)) k) sames
          ∙ ap (λ r. and_then (r, SetupCall.add_risk_admin manager helper ∷ []) k) added in
        subst (λ r. is_risk_admin s false r.1 ≡ true) (sym run)
          (rw (is_risk_admin, added)
            (closing_throws (configure_all s inputs) (is_risk_admin-configure_all s true inputs)
              (ap (λ r. r.0) (sym run) ∙ h)))

  -- If `configureReservesByHelper` throws after a call was sent, where the ACL manager would both give
  -- and take the role, then the helper contract is left a risk admin.
  pub configure_reserves_by_helper-is_risk_admin :
      (reserves_params : Dict ReserveParams) (token_addresses : Dict String)
      (helper manager : String) (e : Error)
      → s.reserves_setup_helper ≡ ok helper
      → s.get_acl_manager ≡ ok manager
      → s.send (SetupCall.add_risk_admin manager helper) ≡ ok tt
      → s.send (SetupCall.remove_risk_admin manager helper) ≡ ok tt
      → let run = configure_reserves_by_helper s reserves_params token_addresses in
        run.0 ≡ err e → run.1 ≢ [] → is_risk_admin s false run.1 ≡ true
  unfolding configure_reserves_by_helper
  configure_reserves_by_helper-is_risk_admin reserves_params token_addresses helper manager e at m
        added removed h sent =
      let (_, a, s1, e1) = reading-started s.address_provider _ sent in
      let (same, b, s2, e2) = reading-started s.reserves_setup_helper _ s1 in
      let (_, c, s3, e3) = reading-started s.pool_data_provider _ s2 in
      let (inputs, w, s4, e4) =
        reading-started (collect_inputs s token_addresses [] reserves_params) _ s3 in
      let run = e1 ∙ e2 ∙ e3 ∙ e4 ∙ ap (λ a. configure_if_any s a inputs) (ok_inj (sym b ∙ at)) in
      subst (λ r. is_risk_admin s false r.1 ≡ true) (sym run)
        (any inputs (ap (λ r. r.0) (sym run) ∙ h) (subst (λ r. r.1 ≢ []) run sent))
    where
      any :
          (inputs : List ConfigureInput)
          → (configure_if_any s helper inputs).0 ≡ err e
          → (configure_if_any s helper inputs).1 ≢ []
          → is_risk_admin s false (configure_if_any s helper inputs).1 ≡ true
      any [] h sent = cc
      any (input ∷ inputs) h sent =
          configure_as_admin-is_risk_admin helper manager e m removed (input ∷ inputs) added h sent
