-- ===== src/Odos/Quotes.antt =====
-- What is known of a quote that the client returns, and of what is prepared with it.
use mathlib.Core.Path.{subst}
use solidity_contracts.Base.{
  ℕ, ◌≡◌, refl, ap, ◌∙◌, inl, inr, Bool, true, false, Option, none, some, String, str_eq, Result,
  ok, >>=-eq-ok, ok_inj, then_eq, else_eq, Bool-cases, throw_if, chain_mismatch, Error,
}
use solidity_contracts.Chain.{Chain, Number, TokenInfo}
use solidity_contracts.Perform.{Target}
use solidity_contracts.Odos.Client.{
  Decimals, OdosApi, Fetched, QuoteRequest, QuoteResponse, chain_differs, check_quote, or_rethrow,
  get_quote, is_missing, is_missing_text, calculate_input_amount, format_token_amount,
  parse_token_amount,
}
use solidity_contracts.Odos.Choices.{
  IsSold, IsContract, IsUnstaked, effective_collateral-IsSold, contract_for-IsContract,
  is_unstake_token-IsUnstaked,
}
use solidity_contracts.Odos.Liquidate.{
  OdosSettings, OdosContracts, Position, is_unstake_token, effective_collateral,
  get_odos_swap_quote, prepare_odos, contract_for, swap_slippage_buffer_percentage, quote_request,
}

-- The quote has an id that is not empty, and its output tokens and amounts.
abbrev pub IsComplete : QuoteResponse → Type 0
IsComplete q =
    (is_missing_text q.path_id ≡ false)
    × (is_missing q.out_tokens ≡ false)
    × (is_missing q.out_amounts ≡ false)

check_quote-IsComplete :
    (data_ : Option QuoteResponse) (q : QuoteResponse)
    → check_quote data_ ≡ ok q
    → (data_ ≡ some q) × IsComplete q
unfolding check_quote
check_quote-IsComplete none q h = cc
check_quote-IsComplete (some r) q h = elim (Bool-cases (is_missing_text r.path_id)) [
  | inl gone ↦ let e = then_eq _ gone h in cc
  | inr id ↦ elim (Bool-cases (is_missing r.out_tokens)) [
    | inl gone ↦ let e = then_eq _ gone (else_eq _ id h) in cc
    | inr tokens ↦ elim (Bool-cases (is_missing r.out_amounts)) [
      | inl gone ↦ let e = then_eq _ gone (else_eq _ tokens (else_eq _ id h)) in cc
      | inr amounts ↦
          let same = ok_inj (else_eq _ amounts (else_eq _ tokens (else_eq _ id h))) in
          (ap some same, subst IsComplete same (id, tokens, amounts))
    ]
  ]
]

pub or_rethrow-ok :
    {A B : Type 0} (message : String) (f : Fetched A) (k : A → Result B) {b : B}
    → or_rethrow message f k ≡ ok b
    → (a : A) × (f ≡ Fetched.answered a) × (k a ≡ ok b)
or_rethrow-ok message (Fetched.answered a) k h = (a, refl, h)
or_rethrow-ok message (Fetched.refused r) k h = cc
or_rethrow-ok message (Fetched.broken e) k h = cc

module _ (n : Number) (d : Decimals n.Num) (api : OdosApi n.Num) where
  open n use {Num}

  -- A quote that is returned answers the request, is complete, and is for the client's chain id, if
  -- the client has one.
  pub get_quote-IsComplete :
      (expected : Option ℕ) (request : QuoteRequest Num) (q : QuoteResponse)
      → get_quote n d api expected request ≡ ok q
      → (chain_differs expected request.chain_id ≡ false)
        × (api.post_quote request ≡ Fetched.answered (some q))
        × IsComplete q
  unfolding get_quote
  get_quote-IsComplete expected request q h =
      let (_, same_chain, rest) =
        >>=-eq-ok (throw_if (chain_differs expected request.chain_id) chain_mismatch) _ h in
      let (data_, answer, checked) =
        or_rethrow-ok "Quote failed" (api.post_quote request) check_quote rest in
      let (e, complete) = check_quote-IsComplete data_ q checked in
      (
        throw_if-ok chain_mismatch (chain_differs expected request.chain_id) same_chain,
        answer ∙ ap Fetched.answered e,
        complete,
      )
    where
      throw_if-ok : (e : Error) (b : Bool) {u : Unit {0}} → throw_if b e ≡ ok u → b ≡ false
      throw_if-ok e true x = cc
      throw_if-ok e false x = refl

  module _ (c : Chain) (contracts : OdosContracts) where
    -- What was asked: the token to sell for the borrow token.
    abbrev pub IsAsked : OdosSettings → Position → Bool → QuoteResponse → Type 0
    IsAsked settings position is_unstake q =
        (request : QuoteRequest Num) × (api.post_quote request ≡ Fetched.answered (some q))
        × IsSold n d api c contracts settings is_unstake position.collateral_token
            request.input_token
        × (request.output_token ≡ position.borrow_token)
        × (request.user_addr ≡ position.liquidator)

    get_odos_swap_quote-IsAsked :
        (settings : OdosSettings) (position : Position) (chain_id : ℕ) (is_unstake : Bool)
        (q : QuoteResponse)
        → get_odos_swap_quote n d api c contracts (some settings) position chain_id is_unstake
          ≡ ok q
        → IsAsked settings position is_unstake q × IsComplete q
    unfolding get_odos_swap_quote
    get_odos_swap_quote-IsAsked settings position chain_id is_unstake q h =
        let (cd, _, h1) = >>=-eq-ok (contracts.decimals position.collateral_token) _ h in
        let (bd, _, h2) = >>=-eq-ok (contracts.decimals position.borrow_token) _ h1 in
        let (readable, _, h3) =
          >>=-eq-ok (parse_token_amount n d api position.repay_amount bd) _ h2 in
        let (effective, sold, h4) =
          >>=-eq-ok
            (effective_collateral n d api c contracts (some settings) is_unstake
              position.collateral_token)
            _ h3 in
        let (amount, _, h5) =
          >>=-eq-ok
            (calculate_input_amount n d api none readable position.borrow_token effective chain_id
              (swap_slippage_buffer_percentage n d api c contracts))
            _ h4 in
        let (formatted, _, h6) = >>=-eq-ok (format_token_amount n d api amount cd) _ h5 in
        let (_, answer, complete) =
          get_quote-IsComplete none
            (quote_request n d api c contracts position chain_id effective formatted) q h6 in
        (
          (
            quote_request n d api c contracts position chain_id effective formatted,
            answer,
            effective_collateral-IsSold n d api c contracts settings is_unstake
                position.collateral_token effective sold,
            refl,
            refl,
          ),
          complete,
        )

    abbrev pub IsReady : OdosSettings → Position → Bool → QuoteResponse → Target → String → Type 0
    IsReady settings position is_unstake q target address =
        (ci : TokenInfo) × (bi : TokenInfo) × (c.fetch_token_info position.collateral_token ≡ ok ci)
        × (c.fetch_token_info position.borrow_token ≡ ok bi)
        × IsUnstaked n d api c contracts settings ci.address is_unstake
        × IsContract n d api c contracts settings bi.address target address
        × IsAsked settings position is_unstake q
        × IsComplete q

    -- If the liquidation is prepared, then the collateral is unstaked exactly if it is configured so,
    -- the contract is a given one, that for flash minting exactly if the borrow token is dUSD, and the
    -- quote is complete and answers a request of the liquidator to sell, for the borrow token, the
    -- collateral, or if it is unstaked the asset of its vault, which is the configured proxy or the
    -- collateral itself.
    pub prepare_odos-ok :
        (settings : OdosSettings) (chain_id : ℕ) (position : Position) (is_unstake : Bool)
        (q : QuoteResponse) (target : Target) (address : String)
        → prepare_odos n d api c contracts settings chain_id position
          ≡ ok (is_unstake, q, target, address)
        → IsReady settings position is_unstake q target address
    unfolding prepare_odos
    prepare_odos-ok settings chain_id position is_unstake q target address h =
        let (ci, e1, h1) = >>=-eq-ok (c.fetch_token_info position.collateral_token) _ h in
        let (bi, e2, h2) = >>=-eq-ok (c.fetch_token_info position.borrow_token) _ h1 in
        let unstake = is_unstake_token settings.is_unstake_tokens ci.address in
        let (_, _, h3) =
          >>=-eq-ok (effective_collateral n d api c contracts (some settings) unstake ci.address) _
            h2 in
        let (quote, asked, h4) =
          >>=-eq-ok
            (get_odos_swap_quote n d api c contracts (some settings) position chain_id unstake) _
            h3 in
        let (contract, e5, h5) =
          >>=-eq-ok (contract_for n d api c contracts (str_eq bi.address settings.dusd_address)) _
            h4 in
        let (a, complete) =
          get_odos_swap_quote-IsAsked settings position chain_id unstake quote asked in
        subst (λ r. IsReady settings position r.0 r.1 r.2 r.3) (ok_inj h5)
          (
            ci,
            bi,
            e1,
            e2,
            is_unstake_token-IsUnstaked n d api c contracts settings ci.address,
            contract_for-IsContract n d api c contracts settings bi.address contract e5,
            a,
            complete,
          )
