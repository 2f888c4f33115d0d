-- ===== src/Odos/Calls.antt =====
-- The course of a liquidation over Odos: which calls are sent, in which order.
use mathlib.Core.Path.{subst}
use solidity_contracts.Base.{
  none, no_config, Traced, ℕ, ◌≡◌, refl, sym, ap, ◌∙◌, inl, inr, Bool, List, [], ◌∷◌, some, String,
  ok, err, Error, Result-cases,
}
use solidity_contracts.Chain.{Chain, Number}
use solidity_contracts.Perform.{Target}
use solidity_contracts.Odos.Client.{Decimals, OdosApi, QuoteResponse, assemble_transaction}
use solidity_contracts.Odos.Liquidate.{
  OdosSettings, OdosContracts, OdosLiquidation, OdosCall, Position, in_amount, liquidation_of,
  prepare_odos, get_assembled_quote, execute_liquidation, perform_odos_liquidation_default,
}
use solidity_contracts.Odos.Arguments.{assemble_request, IsArgument, liquidation_of-IsArgument}

module _ (n : Number) (d : Decimals n.Num) (api : OdosApi n.Num) (c : Chain)
    (contracts : OdosContracts) where
  -- How far a liquidation comes. `router` and `bot` are the approvals, `p` says what is known of the
  -- arguments of `liquidate`.
  pub data Course (router bot : OdosCall) (target : Target) (p : OdosLiquidation → Type 0)
      : Traced OdosCall String → Type 0 where
    not_started : {e : Error} → Course router bot target p (err e, [])
    router_only : {e : Error} → Course router bot target p (err e, router ∷ [])
    both_approved :
        {e : Error} {h : String}
        → contracts.send router ≡ ok h
        → Course router bot target p (err e, router ∷ bot ∷ [])
    submitted :
        {h k : String} {l : OdosLiquidation}
        → contracts.send router ≡ ok h
        → contracts.send bot ≡ ok k
        → p l
        → Course router bot target p (
          contracts.send (OdosCall.liquidate target l),
          router ∷ bot ∷ OdosCall.liquidate target l ∷ [],
        )

  module _ (position : Position) (chain_id : ℕ) (is_unstake : Bool) (q : QuoteResponse)
      (target : Target) (address : String) where
    -- The course of `execute_liquidation` for the first input amount of the quote. Whatever fails, the
    -- calls that were sent are a first part of: the approval of the router, the approval of the
    -- liquidator contract, the liquidation.
    execute_liquidation-Course :
        (amount router : String)
        → in_amount q ≡ ok amount
        → Course
            (OdosCall.approve position.collateral_token router amount)
            (OdosCall.approve position.collateral_token address amount)
            target
            (IsArgument n d api c contracts position chain_id is_unstake q target address)
            (execute_liquidation n d api c contracts target address router position chain_id
              is_unstake q)
    unfolding execute_liquidation get_assembled_quote
    execute_liquidation-Course amount router e =
        let a1 = OdosCall.approve position.collateral_token router amount in
        let a2 = OdosCall.approve position.collateral_token address amount in
        elim (Result-cases (contracts.send a1)) [
          | inr (x, e1) ↦ rw (e, e1) Course.router_only
          | inl (h1, e1) ↦
              elim (Result-cases (
                assemble_transaction n d api (
                  assemble_request n d api c contracts position chain_id is_unstake q target
                    address))) [
                      | inr (x, e2) ↦ rw (e, e1, e2) Course.router_only
                      | inl (assembled, e2) ↦ elim (Result-cases (contracts.send a2)) [
                        | inr (x, e3) ↦ rw (e, e1, e2, e3) (Course.both_approved e1)
                        | inl (h2, e3) ↦
                            elim (Result-cases
                              (liquidation_of n d api c contracts position is_unstake assembled)) [
                                | inr (x, e4) ↦ rw (e, e1, e2, e3, e4) (Course.both_approved e1)
                                | inl (l, e4) ↦
                                    rw (e, e1, e2, e3, e4)
                                      (Course.submitted e1 e3 (
                                        liquidation_of-IsArgument n d api c contracts position
                                          chain_id is_unstake q target address assembled l e2 e4))
                              ]
                      ]
                    ]
        ]

  -- The call goes through.
  abbrev pub IsAccepted : OdosCall → Type 0
  IsAccepted call = (h : String) × (contracts.send call ≡ ok h)

  Course-ok :
      {router bot : OdosCall} {target : Target} {p : OdosLiquidation → Type 0}
      (r : Traced OdosCall String) {hash : String}
      → Course router bot target p r
      → r.0 ≡ ok hash
      → (l : OdosLiquidation) × p l
        × IsAccepted router
        × IsAccepted bot
        × (contracts.send (OdosCall.liquidate target l) ≡ ok hash)
        × (r.1 ≡ router ∷ bot ∷ OdosCall.liquidate target l ∷ [])
  Course-ok r Course.not_started h = cc
  Course-ok r Course.router_only h = cc
  Course-ok r (Course.both_approved a) h = cc
  Course-ok r (Course.submitted {h = x} {k} {l} a b q) h = (l, q, (x, a), (k, b), h, refl)

  no_amount :
      (target : Target) (address router : String) (position : Position) (chain_id : ℕ)
      (is_unstake : Bool) (q : QuoteResponse) {e : Error}
      → in_amount q ≡ err e
      → execute_liquidation n d api c contracts target address router position chain_id is_unstake q
        ≡ (err e, [])
  unfolding execute_liquidation get_assembled_quote
  no_amount target address router position chain_id is_unstake q e = rw e refl

  prepared :
      (settings : OdosSettings) (chain_id : ℕ) (position : Position)
      (found : Bool × QuoteResponse × Target × String)
      → prepare_odos n d api c contracts settings chain_id position ≡ ok found
      → perform_odos_liquidation_default n d api c contracts (some settings) chain_id position
        ≡ execute_liquidation n d api c contracts found.2 found.3 settings.odos_router position
            chain_id found.0 found.1
  unfolding perform_odos_liquidation_default
  prepared settings chain_id position found e = rw e refl

  -- Without a configuration, or where the liquidation cannot be prepared, it throws and nothing is
  -- sent. Otherwise, with an input amount in the quote, the calls that are sent are a first part of:
  -- the approval of the router for that amount, the approval of the liquidator contract for it, and
  -- the liquidation with the aTokens of the two tokens and the data that the service answered to the
  -- request to assemble this quote for the contract. Each is sent only after the ones before have
  -- gone through, and the result is that of the liquidation or an exception.
  pub perform_odos-Course :
      (settings : OdosSettings) (chain_id : ℕ) (position : Position)
      → let run = perform_odos_liquidation_default n d api c contracts in
        (run none chain_id position ≡ (err no_config, []))
        × ((e : Error)
            → prepare_odos n d api c contracts settings chain_id position ≡ err e
            → run (some settings) chain_id position ≡ (err e, []))
        × ((found : Bool × QuoteResponse × Target × String) (amount : String)
            → prepare_odos n d api c contracts settings chain_id position ≡ ok found
            → in_amount found.1 ≡ ok amount
            → Course
                (OdosCall.approve position.collateral_token settings.odos_router amount)
                (OdosCall.approve position.collateral_token found.3 amount)
                found.2
                (IsArgument n d api c contracts position chain_id found.0 found.1 found.2 found.3)
                (run (some settings) chain_id position))
  unfolding perform_odos_liquidation_default
  perform_odos-Course settings chain_id position = (
    refl,
    λ e h. rw h refl,
    λ found amount h a. subst (Course _ _ _ _) (sym (prepared settings chain_id position found h)) (
        execute_liquidation-Course position chain_id found.0 found.1 found.2 found.3 amount
          settings.odos_router a),
  )

  -- If the liquidation returns a hash, then it was prepared, and exactly three calls were sent, each of
  -- which went through: the approvals of the router and of the liquidator contract for the first input
  -- amount of the quote, and the liquidation, whose hash it is, with the aTokens of the two tokens and
  -- the data that the service assembled for the quote.
  pub perform_odos-ok :
      (settings : OdosSettings) (chain_id : ℕ) (position : Position) (hash : String)
      (calls : List OdosCall)
      → perform_odos_liquidation_default n d api c contracts (some settings) chain_id position
        ≡ (ok hash, calls)
      → (found : Bool × QuoteResponse × Target × String) × (amount : String) × (l : OdosLiquidation)
        × (prepare_odos n d api c contracts settings chain_id position ≡ ok found)
        × (in_amount found.1 ≡ ok amount)
        × IsArgument n d api c contracts position chain_id found.0 found.1 found.2 found.3 l
        × IsAccepted (OdosCall.approve position.collateral_token settings.odos_router amount)
        × IsAccepted (OdosCall.approve position.collateral_token found.3 amount)
        × (contracts.send (OdosCall.liquidate found.2 l) ≡ ok hash)
        × (calls
            ≡ OdosCall.approve position.collateral_token settings.odos_router amount
              ∷ OdosCall.approve position.collateral_token found.3 amount
              ∷ OdosCall.liquidate found.2 l
              ∷ [])
  perform_odos-ok settings chain_id position hash calls h =
      let (_, unprepared, course) = perform_odos-Course settings chain_id position in
      elim (Result-cases (prepare_odos n d api c contracts settings chain_id position)) [
        | inr (e, p) ↦ absurd (refused (sym (ap (λ r. r.0) (unprepared e p)) ∙ ap (λ r. r.0) h))
        | inl (found, p) ↦ elim (Result-cases (in_amount found.1)) [
          | inr (e, a) ↦ absurd (
              refused (
                sym (
                  ap (λ r. r.0)
                    (prepared settings chain_id position found p
                      ∙ no_amount found.2 found.3 settings.odos_router position chain_id found.0
                          found.1 a))
                ∙ ap (λ r. r.0) h))
          | inl (amount, a) ↦
              let (l, arg, router, bot, sent_, all) =
                Course-ok _ (course found amount p a) (ap (λ r. r.0) h) in
              (found, amount, l, p, a, arg, router, bot, sent_, sym (ap (λ r. r.1) h) ∙ all)
        ]
      ]
    where
      refused : {e : Error} {x : String} → err e ≡ ok x → ⊥
      refused e = cc
