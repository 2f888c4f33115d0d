-- ===== src/Reporter.antt =====
-- The Slack reporter of the liquidator bots: scripts/liquidator-bot/slack-reporter/run.ts. One round,
-- `checkHealthFactors`, takes the variables that are kept between the rounds and returns them, also when
-- it throws; a message that cannot be sent is only logged, so the messages are kept as a list. A
-- message is what its text is made of, without the address of the machine. The content of the detailed
-- report is a parameter, see Report. `Date.now()` is an argument. The loop over the batches takes fuel.
pub mod Alerts
pub mod Addresses
pub mod Danger
pub mod Order
pub mod Rounds
mod Tests
use solidity_contracts.Base.{
  ℕ, zero, suc, ◌+◌, ◌-◌, ◌*◌, ◌^◌, Bool, true, false, not, ◌||◌, List, [], ◌∷◌, ◌++◌, Option, none,
  some, String, length, ltb, leb, ◌==◌, Result, ok, err, Error, external, throw_if, or_throw,
  filter, if◌then◌else◌, ◌>>=◌, ◌>>◌, invalid_batch_size, no_config,
}
use solidity_contracts.Base.Int.{ℤ, pos}
use solidity_contracts.Base.Dict.{Dict, lookup, insert}
use solidity_contracts.Batches.{batch_processing}
use solidity_contracts.Chain.{Number}

-- What `getUserAccountData` gives, the fields in use.
pub record AccountData : Type 0 where
  pub health_factor : ℤ
  pub total_collateral_base : ℤ
  pub total_debt_base : ℤ

-- An element of `userDetails`.
pub record UserDetail (Num : Type 0) : Type 0 where
  pub address : String
  pub health_factor : Num
  pub total_collateral : Num
  pub total_debt : Num

-- The numbers of the status message.
pub record Stats (Num : Type 0) : Type 0 where
  pub total_users : ℕ
  pub liquidatable_users : ℕ
  pub filtered_liquidatable_users : ℕ
  pub active_users : ℕ
  pub total_collateral : Num
  pub total_debt : Num
  pub lowest_health_factor_user : Option (UserDetail Num)
  pub lowest_health_factor_user_filtered : Option (UserDetail Num)

pub data Message (Num : Type 0) : Type 0 where
  alert : List (UserDetail Num) → Message Num
  status : Stats Num → Message Num

-- `lastHealthFactors`, `lastStatsTime` and the messages so far.
pub record Reporting (Num : Type 0) : Type 0 where
  pub last_health_factors : Dict Num
  pub last_stats_time : ℕ
  pub sent : List (Message Num)

-- What the round asks for: the addresses of all users, the data of an account, and the content of the
-- detailed report, which may throw; `a === b` and `a + b` on floating-point numbers.
pub record Sources (Num : Type 0) : Type 0 where
  pub get_all_lending_user_addresses : Result (List String)
  pub get_user_account_data : String → Result AccountData
  pub detailed_report : List (UserDetail Num) → Result (Unit {0})
  pub same : Num → Num → Bool
  pub plus : Num → Num → Num

-- `STATS_INTERVAL`, in milliseconds.
abbrev pub stats_interval : ℕ
stats_interval = 30 * 60 * 1000

module _ (n : Number) (s : Sources n.Num) where
  open n use {Num, lt, quotient, of_big}
  open s use {same, plus}

  abbrev pub Round : Type 0
  Round = Result (Unit {0}) × Reporting Num

  abbrev pub detail_of : String → AccountData → UserDetail Num
  detail_of address data_ = record {
    address = address;
    health_factor = quotient (of_big data_.health_factor) (of_big (pos (10 ^ 18)));
    total_collateral = quotient (of_big data_.total_collateral_base) (of_big (pos (10 ^ 8)));
    total_debt = quotient (of_big data_.total_debt_base) (of_big (pos (10 ^ 8)));
  }

  -- The addresses with the data at the same index; beyond the end of the data is `undefined`, which is
  -- left out.
  abbrev pub details_of : List String → List AccountData → List (UserDetail Num)
  details_of [] data_ = []
  details_of (user ∷ users) [] = []
  details_of (user ∷ users) (d ∷ data_) = detail_of user d ∷ details_of users data_

  -- `userDetails.sort((a, b) => a.healthFactor - b.healthFactor)`, which is stable.
  abbrev pub insert_detail : UserDetail Num → List (UserDetail Num) → List (UserDetail Num)
  insert_detail u [] = u ∷ []
  insert_detail u (v ∷ vs) =
      if lt u.health_factor v.health_factor then u ∷ v ∷ vs else v ∷ insert_detail u vs

  abbrev pub sort_onto : List (UserDetail Num) → List (UserDetail Num) → List (UserDetail Num)
  sort_onto sorted [] = sorted
  sort_onto sorted (u ∷ us) = sort_onto (insert_detail u sorted) us

  abbrev pub is_liquidatable : UserDetail Num → Bool
  is_liquidatable u = lt u.health_factor (of_big (pos 1))

  -- `user.totalDebt > mintDebtThreshold`, the threshold 1e-3.
  abbrev pub has_debt : UserDetail Num → Bool
  has_debt u = lt (quotient (of_big (pos 1)) (of_big (pos 1000))) u.total_debt

  -- `user.totalCollateral > 0 || user.totalDebt > 0`
  abbrev pub is_active : UserDetail Num → Bool
  is_active u = lt (of_big (pos 0)) u.total_collateral || lt (of_big (pos 0)) u.total_debt

  abbrev pub filtered_liquidatable : List (UserDetail Num) → List (UserDetail Num)
  filtered_liquidatable details = filter has_debt (filter is_liquidatable details)

  -- Whether the health factor is not the last one.
  abbrev pub health_factor_changed : Option Num → Num → Bool
  health_factor_changed none now = true
  health_factor_changed (some last) now = not (same last now)

  -- The filter that keeps the users with a changed health factor and updates the last ones.
  unfoldable pub changed_users : Dict Num → List (UserDetail Num) → List (UserDetail Num) × Dict Num
  unfolding lookup insert
  changed_users last [] = ([], last)
  changed_users last (u ∷ us) =
      let rest = changed_users (insert u.address u.health_factor last) us in
      (
        if health_factor_changed (lookup u.address last) u.health_factor
            then u ∷ rest.0
            else rest.0,
        rest.1,
      )

  abbrev pub alert_if_any : List (UserDetail Num) → List (Message Num)
  alert_if_any [] = []
  alert_if_any (u ∷ us) = Message.alert (u ∷ us) ∷ []

  -- The alert; without liquidatable users the last health factors are forgotten.
  abbrev pub alert_on : List (UserDetail Num) → Reporting Num → Reporting Num
  alert_on [] st = record st { last_health_factors = [] }
  alert_on (u ∷ us) st =
      let changed = changed_users st.last_health_factors (u ∷ us) in
      record st { last_health_factors = changed.1; sent = st.sent ++ alert_if_any changed.0 }

  abbrev pub first : List (UserDetail Num) → Option (UserDetail Num)
  first [] = none
  first (u ∷ us) = some u

  abbrev pub sum : (UserDetail Num → Num) → Num → List (UserDetail Num) → Num
  sum f total [] = total
  sum f total (u ∷ us) = sum f (plus total (f u)) us

  abbrev pub stats_of : ℕ → List (UserDetail Num) → Stats Num
  stats_of total details = record {
    total_users = total;
    liquidatable_users = length (filter is_liquidatable details);
    filtered_liquidatable_users = length (filtered_liquidatable details);
    active_users = length (filter is_active details);
    total_collateral = sum (λ u. u.total_collateral) (of_big (pos 0)) details;
    total_debt = sum (λ u. u.total_debt) (of_big (pos 0)) details;
    lowest_health_factor_user = first details;
    lowest_health_factor_user_filtered = first (filter has_debt details);
  }

  abbrev pub behind_report :
      ℕ → ℕ → List (UserDetail Num) → Reporting Num → Result (Unit {0}) → Round
  behind_report now total details st (err e) = (err e, st)
  behind_report now total details st (ok _) = (
    ok tt,
    record st {
      last_stats_time = now;
      sent = st.sent ++ (Message.status (stats_of total details) ∷ []);
    },
  )

  -- The status message, if it is time for it; `now` is not before the last time.
  unfoldable pub send_stats : ℕ → ℕ → List (UserDetail Num) → Reporting Num → Round
  send_stats now total details st =
      if leb stats_interval (now - st.last_stats_time)
      then behind_report now total details st (s.detailed_report details)
      else (ok tt, st)

  -- The round behind the fetched data.
  unfoldable pub report : ℕ → List String → List AccountData → Reporting Num → Round
  unfolding changed_users send_stats
  report now users data_ st =
      let details = sort_onto [] (details_of users data_) in
      if length data_ == 0
      then (ok tt, st)
      else send_stats now (length users) details (alert_on (filtered_liquidatable details) st)

  abbrev pub behind_data :
      ℕ → List String → Reporting Num → Option (Result (List AccountData)) → Option Round
  behind_data now users st none = none
  behind_data now users st (some (err e)) = some (err e, st)
  behind_data now users st (some (ok data_)) = some (report now users data_ st)

  abbrev pub behind_addresses : ℕ → ℕ → ℕ → Reporting Num → Result (List String) → Option Round
  behind_addresses fuel batch_size now st (err e) = some (err e, st)
  behind_addresses fuel batch_size now st (ok users) =
      behind_data now users st (batch_processing fuel users batch_size s.get_user_account_data)

  -- `checkHealthFactors`. The promises are returned and not awaited within the `try` block, so a
  -- failed one fails its batch, and the batch the round; no entry is `undefined`.
  unfoldable pub check_health_factors : ℕ → ℕ → ℕ → Reporting Num → Option Round
  unfolding batch_processing report
  check_health_factors fuel health_factor_batch_size now st =
      behind_addresses fuel health_factor_batch_size now st s.get_all_lending_user_addresses
