-- ===== src/Odos/Client.antt =====
-- `OdosClient` of utils/odos/client.ts. The service's answers are parameters, and so are the
-- operations on floating-point numbers and texts. An amount in base units is an integer here, where
-- the code has the text of its digits.
use solidity_contracts.Base.{
  ℕ, zero, suc, Bool, true, false, not, List, Option, none, some, String, str_eq, Result, ok, err,
  ◌>>=◌, ◌>>◌, throw_if, Error, external, chain_mismatch, invalid_quote, simulation_failed,
  invalid_price, invalid_amount, if◌then◌else◌, ◌==◌,
}
use solidity_contracts.Base.Int.{ℤ, pos}
use solidity_contracts.Chain.{Number}

-- What a request comes back with: an answer, an error response of the service with its message, or
-- another exception.
pub data Fetched (A : Type 0) : Type 0 where
  answered : A → Fetched A
  refused : String → Fetched A
  broken : Error → Fetched A

-- `QuoteRequest` of utils/odos/types.ts, with one input and one output token.
pub record QuoteRequest (Num : Type 0) : Type 0 where
  pub chain_id : ℕ
  pub input_token : String
  pub input_amount : ℤ
  pub output_token : String
  pub user_addr : String
  pub slippage_limit_percent : Num

-- `QuoteResponse`, the fields in use; any of them may be missing.
pub record QuoteResponse : Type 0 where
  pub path_id : Option String
  pub in_amounts : Option (List String)
  pub out_tokens : Option (List String)
  pub out_amounts : Option (List String)

pub record AssembleRequest : Type 0 where
  pub chain_id : ℕ
  pub path_id : Option String
  pub user_addr : String
  pub receiver : String

-- The answer to an assembly request: whether the simulation was a success, if there was one, and the
-- data of the transaction, if there is a transaction.
pub record AssembleResponse : Type 0 where
  pub simulation : Option Bool
  pub transaction_data : Option String

-- The service. `none` is an answer without data, or a price that is not a number.
pub record OdosApi (Num : Type 0) : Type 0 where
  pub post_quote : QuoteRequest Num → Fetched (Option QuoteResponse)
  pub post_assemble : AssembleRequest → Fetched (Option AssembleResponse)
  pub get_price : ℕ → String → Fetched (Option Num)

-- `*`, `+`, `Number(text)`, `toString`, `isNaN`, `toFixed`, and `formatUnits` and `parseUnits` of ethers.
pub record Decimals (Num : Type 0) : Type 0 where
  pub times : Num → Num → Num
  pub plus : Num → Num → Num
  pub number_of : String → Num
  pub to_string : Num → String
  pub is_nan : Num → Bool
  pub to_fixed : Num → ℕ → Result String
  pub format_units : ℤ → ℕ → Result String
  pub parse_units : String → ℕ → Result ℤ

-- What the `catch` clauses make of a request: a message of their own for an error response.
abbrev pub or_rethrow {ℓ} :
    {A : Type 0} {B : Type ℓ} → String → Fetched A → (A → Result B) → Result B
or_rethrow message (Fetched.answered a) k = k a
or_rethrow message (Fetched.refused reason) k = err (external message)
or_rethrow message (Fetched.broken e) k = err e

-- `this.chainId && chainId !== this.chainId`: neither a missing chain id nor 0 is checked.
unfoldable pub chain_differs : Option ℕ → ℕ → Bool
chain_differs none chain_id = false
chain_differs (some zero) chain_id = false
chain_differs (some (suc expected)) chain_id = not (chain_id == suc expected)

abbrev pub is_missing : {A : Type 0} → Option A → Bool
is_missing none = true
is_missing (some a) = false

-- `!response.data.pathId`: the empty text is falsy.
abbrev pub is_missing_text : Option String → Bool
is_missing_text none = true
is_missing_text (some t) = str_eq t ""

-- The check of a quote.
unfoldable pub check_quote : Option QuoteResponse → Result QuoteResponse
check_quote none = err invalid_quote
check_quote (some data_) =
    if is_missing_text data_.path_id
    then err invalid_quote
    else if is_missing data_.out_tokens
    then err invalid_quote
    else if is_missing data_.out_amounts
    then err invalid_quote
    else ok data_

-- The check of an assembled transaction; an answer without data passes.
unfoldable pub check_assembled : Option AssembleResponse → Result (Option AssembleResponse)
check_assembled none = ok none
check_assembled (some data_) = elim data_.simulation [
  | none ↦ ok (some data_)
  | some is_success ↦ if is_success then ok (some data_) else err simulation_failed
]

module _ (n : Number) (d : Decimals n.Num) (api : OdosApi n.Num) where
  open n use {Num, quotient, of_big}

  -- `getQuote` of a client with the chain id `expected`.
  unfoldable pub get_quote : Option ℕ → QuoteRequest Num → Result QuoteResponse
  unfolding chain_differs check_quote
  get_quote expected request =
      throw_if (chain_differs expected request.chain_id) chain_mismatch
      >> or_rethrow "Quote failed" (api.post_quote request) check_quote

  unfoldable pub assemble_transaction : AssembleRequest → Result (Option AssembleResponse)
  unfolding check_assembled
  assemble_transaction request =
      or_rethrow "Assembly failed" (api.post_assemble request) check_assembled

  -- `getTokenPrice`
  abbrev pub check_price : Option Num → Result Num
  check_price none = err invalid_price
  check_price (some price) = ok price

  unfoldable pub get_token_price : ℕ → String → Result Num
  get_token_price chain_id token_address =
      or_rethrow "Failed to get token price" (api.get_price chain_id token_address) check_price

  -- `calculateInputAmount`; what `getTokenPrice` throws is no error response any more.
  unfoldable pub calculate_input_amount :
      Option ℕ → String → String → String → ℕ → Num → Result String
  unfolding chain_differs get_token_price
  calculate_input_amount expected output_amount output_token_address input_token_address chain_id
        slippage_percentage =
      do
        throw_if (chain_differs expected chain_id) chain_mismatch
        input_price ← get_token_price chain_id input_token_address
        output_price ← get_token_price chain_id output_token_address
        let output_amount_in_usd = d.times (d.number_of output_amount) output_price
        let base_input_amount = quotient output_amount_in_usd input_price
        let slippage_multiplier =
            d.plus (of_big (pos 1)) (quotient slippage_percentage (of_big (pos 100)))
        ok (d.to_string (d.times base_input_amount slippage_multiplier))

  -- `formatTokenAmount`
  unfoldable pub format_token_amount : String → ℕ → Result ℤ
  format_token_amount amount decimals = do
    let num = d.number_of amount
    throw_if (d.is_nan num) invalid_amount
    fixed_amount ← d.to_fixed num decimals
    d.parse_units fixed_amount decimals

  -- `parseTokenAmount`
  abbrev pub parse_token_amount : ℤ → ℕ → Result String
  parse_token_amount amount decimals = d.format_units amount decimals
