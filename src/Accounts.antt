-- ===== src/Accounts.antt =====
-- The borrowers that a bot looks at: `getAllLendingUserAddresses` of
-- utils/liquidator-bot/odos/utils.run.ts, page by page from the graph service, whose answers are a
-- parameter. The loop over the pages takes fuel, and `none` means that the fuel ran out.
pub mod Pages
mod Tests
use solidity_contracts.Base.{
  ℕ, zero, suc, ◌+◌, Bool, true, false, ◌||◌, List, [], ◌∷◌, ◌++◌, Option, none, some, String,
  str_eq, ltb, ◌==◌, length, Result, ok, err, Error, if◌then◌else◌, no_config, invalid_graph_url,
  invalid_batch_size,
}

-- `isLocalNetwork` of utils/utils.ts.
abbrev pub is_local_network : String → Bool
is_local_network network =
    str_eq network "localhost" || str_eq network "hardhat" || str_eq network "local_ethereum"

-- The length of a text without characters outside the basic plane.
abbrev pub text_length : String → ℕ
text_length String.[] = 0
text_length (String.◌∷◌ c s) = suc (text_length s)

-- `liquidatorBotOdos.graphConfig`
pub record GraphConfig : Type 0 where
  pub url : String
  pub batch_size : ℕ

-- The service: the ids of the accounts behind the id `lastId`, `first` of them at most, or what the
-- request throws.
abbrev pub Graph : Type 0
Graph = String → ℕ → Result (List String)

-- `users[users.length - 1]`, for a list that starts with `user`.
abbrev pub last_of : String → List String → String
last_of user [] = user
last_of user (next ∷ users) = last_of next users

module _ (graph : Graph) (batch_size : ℕ) where
  -- The loop over the pages, with the last id and the users so far.
  unfoldable pub page_loop : ℕ → String → List String → Option (Result (List String))
  page_loop zero last_id all_users = none
  page_loop (suc fuel) last_id all_users = elim (graph last_id batch_size) [
    | Result.err e ↦ some (Result.err e)
    | Result.ok users ↦
        let rest = page_loop fuel (last_of last_id users) (all_users ++ users) in
        if length users == 0 then some (Result.ok (all_users ++ users)) else rest
  ]

-- The addresses, for the name of the network, the addresses of the deployers and test accounts, and
-- the configuration, if there is one.
unfoldable pub get_all_lending_user_addresses :
    ℕ → Graph → String → List String → Option GraphConfig → Option (Result (List String))
unfolding page_loop
get_all_lending_user_addresses fuel graph network named_accounts none =
    some (if is_local_network network then ok named_accounts else err no_config)
get_all_lending_user_addresses fuel graph network named_accounts (some config) =
    if is_local_network network
    then some (ok named_accounts)
    else if ltb (text_length config.url) 10
    then some (err invalid_graph_url)
    else if ltb config.batch_size 1
    then some (err invalid_batch_size)
    else page_loop graph config.batch_size fuel "" []
