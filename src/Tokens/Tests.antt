-- ===== src/Tokens/Tests.antt =====
-- Token contracts that answer, and later throw.
use solidity_contracts.Base.{◌≡◌, refl, [], ok, err, external}
use solidity_contracts.Base.Dict.{lookup}
use solidity_contracts.Chain.{TokenInfo}
use solidity_contracts.Tokens.{TokenReads, fetch_token_info, fetch_token_info_implementation}
use solidity_contracts.Tokens.Cache.{IsCoherent, fetch_token_info-IsCoherent}

abbrev answering : TokenReads
answering = record {
  symbol = λ a. ok "WETH";
  name = λ a. ok "Wrapped Ether";
  decimals = λ a. ok 18;
}

abbrev throwing : TokenReads
throwing = record {
  symbol = λ a. err (external "rpc");
  name = λ a. err (external "rpc");
  decimals = λ a. err (external "rpc");
}

abbrev weth : TokenInfo
weth = record { address = "0xe"; symbol = "WETH"; name = "Wrapped Ether"; decimals = 18 }

nothing-IsCoherent : IsCoherent answering []
unfolding lookup
nothing-IsCoherent a t h = cc

returned : (fetch_token_info answering "0xe" []).0 ≡ ok weth
unfolding fetch_token_info
returned = refl

fetch_token_info-IsCoherent_example :
    ((fetch_token_info answering "0xe" []).0 ≡ fetch_token_info_implementation answering "0xe")
    × IsCoherent answering (fetch_token_info answering "0xe" []).1
fetch_token_info-IsCoherent_example =
    fetch_token_info-IsCoherent answering "0xe" [] nothing-IsCoherent
