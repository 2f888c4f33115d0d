-- ===== src/Curve.antt =====
-- The liquidation over Curve: utils/liquidator-bot/curve/utils.ts. The calls that change the chain are
-- kept as a list in the order in which they are sent; whether they go through is a parameter, and the
-- wait for a receipt belongs to its call. The bot around it, utils/liquidator-bot/curve/run.ts, has the
-- code of the Odos bot (Bot), with a branch for one more message that has the same effect.
pub mod Liquidate
pub mod Paths
mod Tests
use Prim.Native.Char.{Char, code}
use solidity_contracts.Base.{
  ℕ, Bool, true, false, not, ◌||◌, ◌&&◌, ◌==◌, List, [], ◌∷◌, Option, none, some, String, str_eq,
  Result, ok, err, ◌>>=◌, ◌>>◌, or_throw, throw_if, Error, type_error, external, no_config,
  no_curve_tools, no_curve_params, no_curve_route, if◌then◌else◌, map,
}
use solidity_contracts.Base.Dict.{Dict, lookup, contains}
use solidity_contracts.Swap.{zero_address}
use solidity_contracts.Odos.Client.{Fetched, or_rethrow}

-- `toLowerCase`, on the letters of ASCII.
abbrev pub lower_by : String → String → Char → Char
lower_by String.[] lowers c = c
lower_by (String.◌∷◌ u uppers) String.[] c = c
lower_by (String.◌∷◌ u uppers) (String.◌∷◌ l lowers) c =
    if code u == code c then l else lower_by uppers lowers c

unfoldable pub to_lower_case : String → String
to_lower_case String.[] = String.[]
to_lower_case (String.◌∷◌ c s) =
    String.◌∷◌ (lower_by "ABCDEFGHIJKLMNOPQRSTUVWXYZ" "abcdefghijklmnopqrstuvwxyz" c)
      (to_lower_case s)

-- An element of `defaultSwapParamsList`, with the route of its `swapExtraParams`.
pub record SwapParams : Type 0 where
  pub input_token : String
  pub output_token : String
  pub route : List String

-- `config.liquidatorBotCurve`, the fields in use.
pub record CurveSettings : Type 0 where
  pub dusd_address : String
  pub is_unstake_tokens : Dict Bool
  pub default_swap_params_list : List SwapParams
  pub proxy_contract_map : Dict String

-- The configuration of the Curve bot, and the proxies of the bot for Uniswap V3, if they are there.
pub record CurveConfig : Type 0 where
  pub liquidator_bot_curve : Option CurveSettings
  pub liquidator_bot_uniswap_v3 : Option (Dict String)

-- The proxy of a token if it is truthy, and otherwise the token.
unfoldable pub proxy_or_token : Dict String → String → String
unfolding lookup
proxy_or_token proxies token_address = elim (lookup token_address proxies) [
  | none ↦ token_address
  | some proxy ↦ if str_eq proxy "" then token_address else proxy
]

-- `getProxyContract`
unfoldable pub get_proxy_contract : CurveConfig → String → Result String
unfolding proxy_or_token
get_proxy_contract config token_address = elim config.liquidator_bot_curve [
  | some settings ↦ ok (proxy_or_token settings.proxy_contract_map token_address)
  | none ↦ elim config.liquidator_bot_uniswap_v3 [
    | some proxies ↦ ok (proxy_or_token proxies token_address)
    | none ↦ err no_config
  ]
]

-- The loop over `defaultSwapParamsList`: whether a route has the token, in any case of its letters.
unfoldable pub has_path : String → List SwapParams → Bool
unfolding contains to_lower_case
has_path token [] = false
has_path token (params ∷ list) =
    if contains (to_lower_case token) (map to_lower_case params.route)
    then true
    else has_path token list

-- `CurveRouteResponse`, the fields in use; they may be missing.
pub record CurveRouteResponse : Type 0 where
  pub route : Option (List String)
  pub swap_params : Option (List (List ℕ))

-- `_route.every((route) => route === ethers.ZeroAddress)`
abbrev pub all_zero : List String → Bool
all_zero [] = true
all_zero (address ∷ route) = str_eq address zero_address && all_zero route

-- The checks of the answer.
unfoldable pub check_route : CurveRouteResponse → Result (List String × List (List ℕ))
check_route response = do
  route ← or_throw response.route no_curve_params
  swap_params ← or_throw response.swap_params no_curve_params
  throw_if (all_zero route) no_curve_route
  ok (route, swap_params)

-- The answer `refused` stands for every exception of axios here, also without a response.
-- `getCurveSwapParams`, for the host of the service, if it is configured. The service is asked with the
-- input and the output token and the amount.
unfoldable pub get_curve_swap_params :
    {Num : Type 0}
    → Option String
    → (String → String → Num → Fetched CurveRouteResponse)
    → String
    → String
    → Num
    → Result (List String × List (List ℕ))
unfolding check_route
get_curve_swap_params host post token_in token_out amount_in = elim host [
  | none ↦ err no_curve_tools
  | some url ↦
      if str_eq url ""
      then err no_curve_tools
      else or_rethrow "Failed to get Curve swap params" (post token_in token_out amount_in)
          check_route
]
