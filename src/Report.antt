-- ===== src/Report.antt =====
-- The detailed report of the Slack reporter: `generateDetailedStatsCSVContent` of
-- scripts/liquidator-bot/slack-reporter/run.ts, first as tables of cells and then as texts. The
-- floating-point operations and their formats are parameters; so are the oracle and the two calls of
-- a token. The loop over the batches of users takes fuel.
pub mod Columns
mod Tests
use Prim.Native.String.{◌++◌ as ◌+++◌}
use solidity_contracts.Base.{
  ℕ, ◌^◌, Bool, true, false, List, [], ◌∷◌, ◌++◌, map, Option, none, some, String, Result, ok, err,
  ◌>>=◌, traverse, or_throw, type_error, if◌then◌else◌, filter,
}
use solidity_contracts.Base.Int.{ℤ, pos, gt}
use solidity_contracts.Base.Dict.{Dict, lookup, insert}
use solidity_contracts.Chain.{Chain, Number}
use solidity_contracts.Lending.{ReserveBalances, get_users_reserve_balances}
use solidity_contracts.Reporter.{UserDetail}

-- An entry of `reservesInfoMap`.
pub record ReserveInfo (Num : Type 0) : Type 0 where
  pub symbol : String
  pub decimals : ℕ
  pub price : Num
  pub ltv : Num
  pub is_active : Bool
  pub is_frozen : Bool
  pub can_be_borrowed : Bool
  pub can_be_collateral : Bool
  pub liquidation_bonus : Num
  pub liquidation_threshold : Num

-- `getOraclePrice`, `symbol()` and `decimals()` of a token, `Number(formatUnits(value, decimals))`, `*`,
-- `+` and `-` on floating-point numbers, `toFixed`, and the text of a whole number.
pub record ReportSources (Num : Type 0) : Type 0 where
  pub get_oracle_price : String → Result ℤ
  pub symbol_of : String → Result String
  pub decimals_of : String → Result ℕ
  pub units : ℤ → ℕ → Num
  pub times : Num → Num → Num
  pub plus : Num → Num → Num
  pub minus : Num → Num → Num
  pub to_fixed : ℕ → Num → String
  pub shown : ℕ → String

abbrev pub Cells : Type 0
Cells = List String

-- `cells.join(separator)`
unfoldable pub join : String → List String → String
join separator [] = ""
join separator (x ∷ []) = x
join separator (x ∷ y ∷ rest) = x +++ separator +++ join separator (y ∷ rest)

abbrev pub table_text : List Cells → String
unfolding join
table_text rows = join "\n" (map (join ",") rows)

-- The text of the assets, where a line break follows the headers also without a row.
abbrev pub asset_text : List Cells → String
unfolding table_text
asset_text [] = ""
asset_text (header ∷ rows) = join "," header +++ "\n" +++ table_text rows

-- The object that entries fill, in the order of the writes.
abbrev pub object_of : {V : Type 0} → Dict V → Dict V → Dict V
unfolding insert
object_of filled [] = filled
object_of filled ((k, v) ∷ rest) = object_of (insert k v filled) rest

abbrev pub asset_info_headers : Cells
asset_info_headers =
    "address" ∷ "symbol" ∷ "decimals" ∷ "price_usd" ∷ "ltv" ∷ "is_active" ∷ "is_frozen"
    ∷ "can_be_borrowed" ∷ "can_be_collateral" ∷ "liquidation_bonus" ∷ "liquidation_threshold" ∷ []

abbrev pub bool_text : Bool → String
bool_text true = "true"
bool_text false = "false"

module _ (c : Chain) (n : Number) (f : ReportSources n.Num) where
  open n use {Num, quotient, of_big}
  open f use {units, times, plus, minus, to_fixed, shown}

  unfoldable pub reserve_info : String → Result (ReserveInfo Num)
  reserve_info reserve = do
    price ← f.get_oracle_price reserve
    reserve_data ← c.get_reserve_configuration_data reserve
    symbol ← f.symbol_of reserve
    decimals ← f.decimals_of reserve
    ok (record {
      symbol = symbol;
      decimals = decimals;
      price = quotient (of_big price) (of_big (pos (10 ^ 8)));
      ltv = quotient (of_big reserve_data.ltv) (of_big (pos 10000));
      is_active = reserve_data.is_active;
      is_frozen = reserve_data.is_frozen;
      can_be_borrowed = reserve_data.borrowing_enabled;
      can_be_collateral = gt reserve_data.ltv (pos 0);
      liquidation_bonus = quotient (of_big reserve_data.liquidation_bonus) (of_big (pos 10000));
      liquidation_threshold =
          quotient (of_big reserve_data.liquidation_threshold) (of_big (pos 10000));
    })

  -- The loop that fills `reservesInfoMap`.
  unfoldable pub reserves_info_map :
      Dict (ReserveInfo Num) → List String → Result (Dict (ReserveInfo Num))
  unfolding reserve_info insert
  reserves_info_map filled [] = ok filled
  reserves_info_map filled (reserve ∷ reserves) =
      reserve_info reserve >>= λ info. reserves_info_map (insert reserve info filled) reserves

  -- `collateralReservesList`, with the entry of each.
  abbrev pub collateral_reserves : Dict (ReserveInfo Num) → Dict (ReserveInfo Num)
  collateral_reserves infos = filter (λ entry. entry.1.can_be_collateral) infos

  abbrev pub collateral_header : String × ReserveInfo Num → String
  collateral_header (reserve, info) = "collateral_" +++ info.symbol +++ "_usd"

  abbrev pub headers : Dict (ReserveInfo Num) → Cells
  headers collaterals =
      "user_address"
        ∷ "health_factor"
        ∷ "ltv"
        ∷ "total_collateral_usd"
        ∷ "dUSD_deposit_usd"
        ∷ map collateral_header collaterals
      ++ ("total_debt_usd" ∷ "net_worth_usd" ∷ "delta_to_liquidation" ∷ [])

  abbrev pub collateral_or_zero : Option ReserveBalances → ℤ
  collateral_or_zero none = pos 0
  collateral_or_zero (some b) = b.collateral

  abbrev pub balances_or_empty : Option (Dict ReserveBalances) → Dict ReserveBalances
  balances_or_empty none = []
  balances_or_empty (some b) = b

  abbrev pub collateral_cell : Dict ReserveBalances → String × ReserveInfo Num → String
  unfolding lookup
  collateral_cell user_balances (reserve, info) =
      to_fixed 2
        (times (units (collateral_or_zero (lookup reserve user_balances)) info.decimals) info.price)

  -- The cells of a user, for the value of the deposited dUSD.
  abbrev pub cells_of : Dict (ReserveInfo Num) → UserDetail Num → Dict ReserveBalances → Num → Cells
  unfolding collateral_cell
  cells_of collaterals user user_balances dusd_balance_usd =
      user.address
        ∷ to_fixed 4 user.health_factor
        ∷ to_fixed 4 (quotient user.total_debt user.total_collateral)
        ∷ to_fixed 2 user.total_collateral
        ∷ to_fixed 2 dusd_balance_usd
        ∷ map (collateral_cell user_balances) collaterals
      ++ (to_fixed 2 user.total_debt
          ∷ to_fixed 2 (minus (plus user.total_collateral dusd_balance_usd) user.total_debt)
          ∷ to_fixed 4 (minus (quotient (of_big (pos 1)) user.health_factor) (of_big (pos 1)))
          ∷ [])

  -- A row; the fields of an entry that is not there throw.
  unfoldable pub row_of :
      String → Dict (ReserveInfo Num) → Dict (Dict ReserveBalances) → UserDetail Num → Result Cells
  unfolding lookup cells_of
  row_of dusd infos balances user = do
    let user_balances = balances_or_empty (lookup user.address balances)
    dusd_balance ← or_throw (lookup dusd user_balances) type_error
    dusd_info ← or_throw (lookup dusd infos) type_error
    ok (
        cells_of (collateral_reserves infos) user user_balances
          (times (units dusd_balance.collateral dusd_info.decimals) dusd_info.price))

  abbrev pub asset_row : String × ReserveInfo Num → Cells
  asset_row (address, info) =
      address
      ∷ info.symbol
      ∷ shown info.decimals
      ∷ to_fixed 2 info.price
      ∷ to_fixed 4 info.ltv
      ∷ bool_text info.is_active
      ∷ bool_text info.is_frozen
      ∷ bool_text info.can_be_borrowed
      ∷ bool_text info.can_be_collateral
      ∷ to_fixed 4 info.liquidation_bonus
      ∷ to_fixed 4 info.liquidation_threshold
      ∷ []

  -- The two tables, behind the reads.
  unfoldable pub tables :
      String
      → List (UserDetail Num)
      → Dict (ReserveInfo Num)
      → Dict (Dict ReserveBalances)
      → Result (List Cells × List Cells)
  unfolding row_of
  tables dusd details infos balances = do
    rows ← traverse (row_of dusd infos balances) details
    ok (headers (collateral_reserves infos) ∷ rows, asset_info_headers ∷ map asset_row infos)

  abbrev pub behind_balances :
      String
      → List (UserDetail Num)
      → Dict (ReserveInfo Num)
      → Option (Result (List (String × Dict ReserveBalances)))
      → Option (Result (List Cells × List Cells))
  unfolding object_of
  behind_balances dusd details infos none = none
  behind_balances dusd details infos (some (err e)) = some (err e)
  behind_balances dusd details infos (some (ok entries)) = some (
      tables dusd details infos
        (object_of [] (map (λ entry. (entry.0, object_of [] entry.1)) entries)))

  abbrev pub behind_infos :
      ℕ
      → String
      → List (UserDetail Num)
      → ℕ
      → Result (Dict (ReserveInfo Num))
      → Option (Result (List Cells × List Cells))
  behind_infos fuel dusd details batch_size (err e) = some (err e)
  behind_infos fuel dusd details batch_size (ok infos) =
      behind_balances dusd details infos
        (get_users_reserve_balances c fuel (map (λ user. user.address) details) batch_size)

  -- The tables of `generateDetailedStatsCSVContent`.
  unfoldable pub detailed_tables :
      ℕ → String → List (UserDetail Num) → ℕ → Option (Result (List Cells × List Cells))
  unfolding reserves_info_map get_users_reserve_balances tables behind_balances
  detailed_tables fuel dusd details batch_size =
      behind_infos fuel dusd details batch_size (c.get_reserves_list >>= reserves_info_map [])

  abbrev pub texts_of :
      Option (Result (List Cells × List Cells)) → Option (Result (String × String))
  unfolding table_text asset_text
  texts_of none = none
  texts_of (some (err e)) = some (err e)
  texts_of (some (ok (report, assets))) = some (ok (table_text report, asset_text assets))

  -- `generateDetailedStatsCSVContent`: the content of the report and that of the assets.
  unfoldable pub generate_detailed_stats_csv_content :
      ℕ → String → List (UserDetail Num) → ℕ → Option (Result (String × String))
  unfolding detailed_tables texts_of
  generate_detailed_stats_csv_content fuel dusd details batch_size =
      texts_of (detailed_tables fuel dusd details batch_size)
