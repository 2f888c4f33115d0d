-- ===== src/Report/Tests.antt =====
-- The report for two users over the sample chain.
use solidity_contracts.Base.{
  length, ◌≡◌, refl, List, [], ◌∷◌, String, some, Result, ok, err, arith, type_error, map,
}
use solidity_contracts.Base.Int.{ℤ, pos, ◌+ℤ◌}
use solidity_contracts.Chain.{Chain}
use solidity_contracts.Chain.Samples.{whole, chain}
use solidity_contracts.Reporter.{UserDetail}
use solidity_contracts.Report.{
  ReportSources, Cells, detailed_tables, generate_detailed_stats_csv_content,
}
use solidity_contracts.Report.Columns.{HasRows, detailed_tables-HasRows}

abbrev holding : Chain
holding = record chain {
  get_user_reserve_data = λ asset user. ok (record {
    current_a_token_balance = pos 3;
    current_stable_debt = pos 1;
    current_variable_debt = pos 2;
  });
}

-- Every number is shown alike.
abbrev formats : ReportSources ℤ
formats = record {
  get_oracle_price = λ asset. ok (pos 100000000);
  symbol_of = λ asset. ok asset;
  decimals_of = λ asset. ok 6;
  units = λ value decimals. value;
  times = λ a b. a;
  plus = λ a b. a +ℤ b;
  minus = λ a b. a;
  to_fixed = λ digits value. "1.5";
  shown = λ value. "6";
}

abbrev detail : String → UserDetail ℤ
detail user = record {
  address = user;
  health_factor = pos 1;
  total_collateral = pos 2;
  total_debt = pos 1;
}

abbrev details : List (UserDetail ℤ)
details = detail "0xf" ∷ detail "0xc" ∷ []

report_text :
    generate_detailed_stats_csv_content holding whole formats 3 "0xd" [] 2
    ≡ some (
        ok (
          "user_address,health_factor,ltv,total_collateral_usd,dUSD_deposit_usd,collateral_0xe_usd,collateral_0xd_usd,total_debt_usd,net_worth_usd,delta_to_liquidation",
          "address,symbol,decimals,price_usd,ltv,is_active,is_frozen,can_be_borrowed,can_be_collateral,liquidation_bonus,liquidation_threshold\n0xe,0xe,6,1.5,1.5,true,false,true,true,1.5,1.5\n0xd,0xd,6,1.5,1.5,true,false,true,true,1.5,1.5",
        ))
unfolding generate_detailed_stats_csv_content
report_text = refl

two_rows :
    (t : List Cells × List Cells) × (detailed_tables holding whole formats 3 "0xd" details 2
      ≡ some (ok t))
    × (map (λ row. length row) t.0 ≡ 10 ∷ 10 ∷ 10 ∷ [])
unfolding detailed_tables
two_rows = (_, refl, refl)

-- Without dUSD among the reserves.
without_dusd : detailed_tables holding whole formats 3 "0x9" details 2 ≡ some (err type_error)
unfolding detailed_tables
without_dusd = refl

detailed_tables-HasRows_example :
    (t : Result (List Cells × List Cells)) × (detailed_tables holding whole formats 3 "0xd" details
        2
      ≡ some t)
    × HasRows holding whole formats details t
detailed_tables-HasRows_example =
    detailed_tables-HasRows holding whole formats 3 "0xd" details 2 (omega arith) (omega arith)
