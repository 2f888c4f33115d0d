-- ===== src/Tokens.antt =====
-- Token information and its cache: `fetchTokenInfo` and `symbolsToAddresses` of utils/token.ts. The
-- reads of a token contract are parameters; the cache is passed in and returned.
pub mod Cache
mod Tests
use solidity_contracts.Base.{
  ℕ, List, Option, none, some, String, Result, ok, err, ◌>>=◌, traverse, or_throw, type_error,
}
use solidity_contracts.Base.Dict.{Dict, lookup, insert}
use solidity_contracts.Chain.{TokenInfo}

-- What the contract at an address answers.
pub record TokenReads : Type 0 where
  pub symbol : String → Result String
  pub name : String → Result String
  pub decimals : String → Result ℕ

unfoldable pub fetch_token_info_implementation : TokenReads → String → Result TokenInfo
fetch_token_info_implementation reads token_address = do
  symbol ← reads.symbol token_address
  name ← reads.name token_address
  decimals ← reads.decimals token_address
  ok (record { address = token_address; symbol = symbol; name = name; decimals = decimals })

-- `tokenInfoCache.set`, unless the reads throw.
abbrev pub store : String → Dict TokenInfo → Result TokenInfo → Result TokenInfo × Dict TokenInfo
store token_address cache (ok token_info) = (ok token_info, insert token_address token_info cache)
store token_address cache (err e) = (err e, cache)

-- What follows on the look-up in the cache.
abbrev pub behind_lookup :
    TokenReads → String → Dict TokenInfo → Option TokenInfo → Result TokenInfo × Dict TokenInfo
behind_lookup reads token_address cache (some token_info) = (ok token_info, cache)
behind_lookup reads token_address cache none =
    store token_address cache (fetch_token_info_implementation reads token_address)

-- `fetchTokenInfo`, from a cache, with the cache that it leaves behind.
unfoldable pub fetch_token_info :
    TokenReads → String → Dict TokenInfo → Result TokenInfo × Dict TokenInfo
unfolding fetch_token_info_implementation lookup insert
fetch_token_info reads token_address cache =
    behind_lookup reads token_address cache (lookup token_address cache)

-- `symbolsToAddresses`: the address of a missing symbol is a field of `undefined`.
unfoldable pub symbols_to_addresses : List String → Dict String → Result (List String)
unfolding lookup
symbols_to_addresses symbols token_info =
    traverse (λ symbol. or_throw (lookup symbol token_info) type_error) symbols
