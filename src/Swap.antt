-- ===== src/Swap.antt =====
-- Routes over Uniswap V3 pools: `convertToSwapPath` of utils/dex/utils.ts, the pool look-ups of
-- utils/dex/pool.ts, and `getSwapPath` of utils/liquidator-bot/utils.ts. The factory's `getPool`,
-- the oracle's quote token and `solidityPacked` of ethers are parameters.
pub mod Encoding
pub mod Route
mod Tests
use solidity_contracts.Base.{
  ℕ, ◌+◌, ◌-◌, Bool, true, false, not, List, [], ◌∷◌, String, str_eq, length, reverse, ltb, ◌==◌,
  Result, ok, err, ◌>>=◌, ◌>>◌, throw_if, if◌then◌else◌, too_few_tokens, fees_do_not_fit,
  same_token, no_swap_path, no_swap_pool, invalid_fee,
}
use solidity_contracts.Chain.{Chain, TokenInfo}

-- `ethers.ZeroAddress`
abbrev pub zero_address : String
zero_address = "0x0000000000000000000000000000000000000000"

-- A value with its Solidity type, as `solidityPacked` takes them.
pub data Packed : Type 0 where
  address : String → Packed
  uint24 : ℕ → Packed

pub data SolidityType : Type 0 where
  address_type uint24_type : SolidityType

-- The entries of the value and the type array behind the first token. The two lists are as long as
-- each other where it is called.
abbrev pub values_behind : List ℕ → List String → List Packed
values_behind (fee ∷ fees) (token ∷ tokens) =
    Packed.uint24 fee ∷ Packed.address token ∷ values_behind fees tokens
values_behind [] tokens = []
values_behind (fee ∷ fees) [] = []

abbrev pub types_behind : List String → List SolidityType
types_behind [] = []
types_behind (token ∷ tokens) =
    SolidityType.uint24_type ∷ SolidityType.address_type ∷ types_behind tokens

abbrev pub values_array : List String → List ℕ → List Packed
values_array [] fees = []
values_array (token ∷ tokens) fees = Packed.address token ∷ values_behind fees tokens

abbrev pub type_array : List String → List SolidityType
type_array [] = []
type_array (token ∷ tokens) = SolidityType.address_type ∷ types_behind tokens

module _ {Bytes : Type 0} (solidity_packed : List SolidityType → List Packed → Bytes) where
  unfoldable pub convert_to_swap_path : List String → List ℕ → Bool → Result Bytes
  convert_to_swap_path token_paths fee_paths is_exact_input = do
    throw_if (ltb (length token_paths) 2) too_few_tokens
    throw_if (not (length token_paths == length fee_paths + 1)) fees_do_not_fit
    let types = type_array token_paths
    let values = values_array token_paths fee_paths
    ok (
        if is_exact_input
        then solidity_packed types values
        else solidity_packed (reverse types) (reverse values))

-- `sortPoolPair`: the two tokens with what goes with them, the second one first if its address is
-- before that of the first by `localeCompare`.
unfoldable pub sort_pool_pair :
    {T : Type 0} → (String → String → Bool) → String → T → String → T → List (String × T)
sort_pool_pair before token0_address token0_info token1_address token1_info =
    if before token1_address token0_address
    then (token1_address, token1_info) ∷ (token0_address, token0_info) ∷ []
    else (token0_address, token0_info) ∷ (token1_address, token1_info) ∷ []

-- `convertNumberToFeeAmount`; a `FeeAmount` is the number itself.
unfoldable pub convert_number_to_fee_amount : ℕ → Result ℕ
convert_number_to_fee_amount fee =
    if fee == 100
    then ok 100
    else if fee == 500
    then ok 500
    else if fee == 3000
    then ok 3000
    else if fee == 10000
    then ok 10000
    else err invalid_fee

-- `feeSchemas`: `FeeAmount.HIGH`, `MEDIUM`, `LOW` and `LOWEST`.
abbrev pub fee_schemas : List ℕ
fee_schemas = 10000 ∷ 3000 ∷ 500 ∷ 100 ∷ []

-- `getPool` of the factory: a token, another token and the fee.
abbrev pub Factory : Type 0
Factory = String → String → ℕ → Result String

module _ (get_pool : Factory) where
  unfoldable pub is_dex_pool_existing : String → String → ℕ → Result Bool
  is_dex_pool_existing token0_address token1_address fee = do
    pool_address ← get_pool token0_address token1_address fee
    ok (not (str_eq pool_address zero_address))

  -- The loop of `getDEXPoolAddressForPair`: the pool and its fee.
  unfoldable pub first_pool : String → String → List ℕ → Result (String × ℕ)
  first_pool token0_address token1_address [] = ok (zero_address, 500)
  first_pool token0_address token1_address (fee ∷ fees) =
      get_pool token0_address token1_address fee >>= λ pool_address.
      if str_eq pool_address zero_address
      then first_pool token0_address token1_address fees
      else ok (pool_address, fee)

  unfoldable pub get_dex_pool_address_for_pair : String → String → Result (String × ℕ)
  unfolding first_pool
  get_dex_pool_address_for_pair token0_address token1_address =
      first_pool token0_address token1_address fee_schemas

  module _ (c : Chain) where
    -- One round of `checkIfSwapPathExists`; the symbols are read for the message.
    abbrev pub check_pair : String → String → ℕ → Result (Unit {0})
    check_pair token0 token1 fee = get_pool token0 token1 fee >>= λ pool_address.
        if str_eq pool_address zero_address
        then (c.fetch_token_info token0 >>= λ _.
            c.fetch_token_info token1 >>= λ _. err no_swap_path)
        else ok tt

    unfoldable pub check_pairs : List String → List ℕ → Result (Unit {0})
    check_pairs (token0 ∷ token1 ∷ tokens) (fee ∷ fees) =
        check_pair token0 token1 fee >> check_pairs (token1 ∷ tokens) fees
    check_pairs (token ∷ []) fees = ok tt
    check_pairs [] fees = ok tt
    check_pairs (token0 ∷ token1 ∷ tokens) [] = ok tt

    unfoldable pub check_if_swap_path_exists : List String → List ℕ → Result (Unit {0})
    unfolding check_pairs
    check_if_swap_path_exists tokens_path fees_path = do
      throw_if (ltb (length tokens_path) 2) too_few_tokens
      throw_if (not (length fees_path == length tokens_path - 1)) fees_do_not_fit
      check_pairs tokens_path fees_path

  -- The pool of a pair and its fee, or the exception that there is none.
  abbrev pub existing_pool : String → String → Result ℕ
  existing_pool token0_address token1_address =
      get_dex_pool_address_for_pair token0_address token1_address >>= λ found.
      if str_eq found.0 zero_address then err no_swap_pool else ok found.1

  -- The tokens and fees that `getSwapPath` encodes.
  unfoldable pub swap_route : Result String → String → String → Result (List String × List ℕ)
  unfolding get_dex_pool_address_for_pair
  swap_route quote_token input output =
      throw_if (str_eq input output) same_token
      >> (quote_token >>= λ quote.
          if str_eq quote output
          then (existing_pool output input >>= λ fee. ok (input ∷ output ∷ [], fee ∷ []))
          else if str_eq quote input
          then (existing_pool output quote >>= λ fee. ok (quote ∷ output ∷ [], fee ∷ []))
          else (get_dex_pool_address_for_pair output input >>= λ found.
              if not (str_eq found.0 zero_address)
              then ok (input ∷ output ∷ [], found.1 ∷ [])
              else (existing_pool output quote >>= λ fee1. existing_pool quote input >>= λ fee2.
                  ok (input ∷ quote ∷ output ∷ [], fee2 ∷ fee1 ∷ []))))

  unfoldable pub get_swap_path :
      {Bytes : Type 0}
      → (List SolidityType → List Packed → Bytes)
      → Result String
      → TokenInfo
      → TokenInfo
      → Bool
      → Result Bytes
  unfolding swap_route convert_to_swap_path
  get_swap_path solidity_packed quote_token input_token_info output_token_info is_exact_input =
      swap_route quote_token input_token_info.address output_token_info.address >>= λ route.
      convert_to_swap_path solidity_packed route.0 route.1 is_exact_input
