-- ===== src/Reporter/Tests.antt =====
-- Rounds over three users, two of them in danger, one of these with little debt.
use solidity_contracts.Base.{
  Member, ◌≡◌, ◌≢◌, ◌^◌, ◌*◌, refl, arith, Bool, true, false, not, ◌&&◌, List, [], ◌∷◌, ◌++◌, some,
  String, str_eq, str_eq_iff, ok, err, Error, traverse, if◌then◌else◌,
}
use solidity_contracts.Base.Int.{ℤ, pos, negsuc, gt}
use solidity_contracts.Chain.Samples.{whole}
use solidity_contracts.Reporter.{AccountData, Sources, Reporting, Round, check_health_factors}
use solidity_contracts.Reporter.Alerts.{Detail, IsSingle}
use solidity_contracts.Reporter.Danger.{rated, IsInDanger, IsNews}
use solidity_contracts.Reporter.Order.{IsAscending}
use solidity_contracts.Markets.Choice.{gt_irrefl, not_gt_above, not_gt_trans}
use solidity_contracts.Reporter.Addresses.{IsApart}
use solidity_contracts.Reporter.Rounds.{
  alerted, in_danger, check_health_factors_lem, check_health_factors_again,
}

abbrev equal : ℤ → ℤ → Bool
equal a b = not (gt a b) && not (gt b a)

equal_refl : (x : ℤ) → equal x x ≡ true
equal_refl (pos k) = ground arith
equal_refl (negsuc k) = ground arith

abbrev account : ℤ → ℤ → AccountData
account health debt = record {
  health_factor = health;
  total_collateral_base = pos (10 ^ 10);
  total_debt_base = debt;
}

abbrev users : List String
users = "0xa" ∷ "0xb" ∷ "0xc" ∷ []

abbrev data_of : String → AccountData
data_of user =
    if str_eq user "0xa"
    then account (pos (2 * 10 ^ 18)) (pos (10 ^ 9))
    else if str_eq user "0xb"
    then account (pos 0) (pos (10 ^ 9))
    else account (pos 0) (pos 0)

abbrev sources : Sources ℤ
sources = record {
  get_all_lending_user_addresses = ok users;
  get_user_account_data = λ user. ok (data_of user);
  detailed_report = λ details. ok tt;
  same = equal;
  plus = λ a b. a;
}

abbrev started : Reporting ℤ
started = record { last_health_factors = []; last_stats_time = 0; sent = [] }

differ : (a b : String) → str_eq a b ≡ false → a ≢ b
differ a b h e = ground (arith, str_eq_iff a b, e, h)

users-IsApart : IsApart users
users-IsApart = (
  (differ "0xb" "0xa" refl, (differ "0xc" "0xa" refl, tt)),
  ((differ "0xc" "0xb" refl, tt), (tt, tt)),
)

-- Only "0xb" is in danger.
alerts_of_one :
    in_danger whole sources users (data_of "0xa" ∷ data_of "0xb" ∷ data_of "0xc" ∷ [])
    ≡ record {
      address = "0xb";
      health_factor = pos 0;
      total_collateral = pos 100;
      total_debt = pos 10;
    }
      ∷ []
alerts_of_one = refl

-- Comparisons of integers, turned around.
asymmetric : (a b : ℤ) → whole.lt a b ≡ true → whole.lt b a ≡ false
asymmetric a b h = not_gt_above a b b h (gt_irrefl b)

check_health_factors_lem_example :
    ((e : Error)
      → traverse sources.get_user_account_data users ≡ err e
      → check_health_factors whole sources 4 2 1000 started ≡ some (err e, started))
    × ((data_ : List AccountData)
        → traverse sources.get_user_account_data users ≡ ok data_
        → (r : Round whole sources) × (new : List (Detail whole sources)) × (check_health_factors
              whole sources 4 2 1000 started
            ≡ some r)
          × (alerted whole sources r.1.sent ≡ alerted whole sources [] ++ new)
          × IsAscending whole sources new
          × IsSingle whole sources new
          × ((u : Detail whole sources)
              → Member u new
              → IsInDanger whole sources users u × IsNews whole sources [] u)
          × ((u : Detail whole sources)
              → IsInDanger whole sources users u
              → IsNews whole sources [] u
              → Member u new))
check_health_factors_lem_example =
    check_health_factors_lem whole sources 4 2 1000 started users refl (omega arith) (omega arith)
      users-IsApart (λ a b. asymmetric (rated whole sources a) (rated whole sources b))
      (λ a b c.
        not_gt_trans (rated whole sources a) (rated whole sources b) (rated whole sources c))

check_health_factors_again_example :
    (one : Round whole sources) × (two : Round whole sources) × (check_health_factors whole sources
        4 2 1000 started
      ≡ some one)
    × (check_health_factors whole sources 4 2 3000 one.1 ≡ some two)
    × (alerted whole sources two.1.sent ≡ alerted whole sources one.1.sent)
check_health_factors_again_example =
    check_health_factors_again whole sources 4 2 1000 3000 started users refl (omega arith)
      (omega arith) users-IsApart equal_refl
