-- ===== src/Accounts/Tests.antt =====
-- A service with three accounts, ordered by the length of their ids.
use solidity_contracts.Base.{
  ◌≡◌, refl, Bool, true, false, List, [], ◌∷◌, some, String, ltb, take, filter, ok, arith,
}
use solidity_contracts.Accounts.{Graph, GraphConfig, get_all_lending_user_addresses, text_length}
use solidity_contracts.Accounts.Pages.{get_all_lending_user_addresses_lem}

abbrev shorter : String → String → Bool
shorter a b = ltb (text_length a) (text_length b)

abbrev accounts : List String
accounts = "a" ∷ "bb" ∷ "ccc" ∷ []

abbrev served : Graph
served last_id first = ok (take first (filter (shorter last_id) accounts))

abbrev config : GraphConfig
config = record { url = "http://graph"; batch_size = 2 }

asymmetric : (a b : String) → shorter a b ≡ true → shorter b a ≡ false
asymmetric a b h = ground arith

reads_all :
    get_all_lending_user_addresses 3 served "fraxtal_mainnet" [] (some config) ≡ some (ok accounts)
unfolding get_all_lending_user_addresses
reads_all = refl

get_all_lending_user_addresses_lem_example :
    get_all_lending_user_addresses 4 served "fraxtal_mainnet" ("0x1" ∷ []) (some config)
    ≡ some (ok accounts)
get_all_lending_user_addresses_lem_example =
    get_all_lending_user_addresses_lem shorter served accounts
      (asymmetric, (refl, (refl, (refl, tt)))) ((refl, (refl, tt)), ((refl, tt), (tt, tt)))
      (λ last_id first. refl) 4 "fraxtal_mainnet" ("0x1" ∷ []) config refl (omega arith)
      (omega arith) (omega arith)
