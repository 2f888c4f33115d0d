-- ===== src/Report/Columns.antt =====
-- The tables of the detailed report have a cell for every column.
use mathlib.Core.Path.{subst}
use solidity_contracts.Base.{
  ℕ, suc, ◌<◌, ◌≡◌, refl, sym, ap, ◌∙◌, inl, inr, List, [], ◌∷◌, ◌++◌, map, some, String, length,
  Result, ok, err, >>=-eq-ok, ok_inj, Result-cases, traverse, or_throw, type_error, All, arith,
}
use solidity_contracts.Base.Dict.{Dict, lookup}
use solidity_contracts.Batches.Process.{batch_processing-traverse}
use solidity_contracts.Chain.{Chain, Number}
use solidity_contracts.Lending.{ReserveBalances, user_balances, get_users_reserve_balances}
use solidity_contracts.Reporter.{UserDetail}
use solidity_contracts.Report.{
  ReserveInfo, ReportSources, Cells, asset_info_headers, collateral_reserves, headers,
  collateral_header, collateral_cell, cells_of, row_of, asset_row, tables, behind_balances,
  behind_infos, detailed_tables, balances_or_empty,
}

length-map : {A B : Type 0} (f : A → B) (xs : List A) → length (map f xs) ≡ length xs
length-map f [] = refl
length-map f (x ∷ xs) = ap suc (length-map f xs)

length-append-map :
    {A B : Type 0} (f g : A → B) (xs : List A) (ys zs : List B)
    → length ys ≡ length zs
    → length (map f xs ++ ys) ≡ length (map g xs ++ zs)
length-append-map f g [] ys zs h = h
length-append-map f g (x ∷ xs) ys zs h = ap suc (length-append-map f g xs ys zs h)

abbrev pub first_cell : Cells → String
first_cell [] = ""
first_cell (x ∷ rest) = x

-- Every row has as many cells as the header, and the first column is the given one.
abbrev pub IsTable : List String → List Cells → Type 0
IsTable column [] = ⊥
IsTable column (header ∷ rows) =
    All (λ row. length row ≡ length header) rows × (map first_cell rows ≡ column)

module _ (c : Chain) (n : Number) (f : ReportSources n.Num) where
  open n use {Num}

  length-cells_of :
      (collaterals : Dict (ReserveInfo Num)) (user : UserDetail Num) (b : Dict ReserveBalances)
      (dusd_usd : Num)
      → length (cells_of c n f collaterals user b dusd_usd) ≡ length (headers c n f collaterals)
  unfolding cells_of
  length-cells_of collaterals user b dusd_usd =
      ap (λ k. suc (suc (suc (suc (suc k)))))
        (length-append-map (collateral_cell c n f b) (collateral_header c n f) collaterals _ _ refl)

  row_of-ok :
      (dusd : String) (infos : Dict (ReserveInfo Num)) (balances : Dict (Dict ReserveBalances))
      (user : UserDetail Num) (row : Cells)
      → row_of c n f dusd infos balances user ≡ ok row
      → (length row ≡ length (headers c n f (collateral_reserves c n f infos)))
        × (first_cell row ≡ user.address)
  unfolding row_of
  row_of-ok dusd infos balances user row h =
      let b = balances_or_empty c n f (lookup user.address balances) in
      let (x, _, h1) = >>=-eq-ok (or_throw (lookup dusd b) type_error) _ h in
      let (i, _, h2) = >>=-eq-ok (or_throw (lookup dusd infos) type_error) _ h1 in
      let same = ok_inj h2 in
      (
        ap length (sym same) ∙ length-cells_of (collateral_reserves c n f infos) user b _,
        ap first_cell (sym same),
      )

  rows-IsTable :
      (dusd : String) (infos : Dict (ReserveInfo Num)) (balances : Dict (Dict ReserveBalances))
      (details : List (UserDetail Num)) (rows : List Cells)
      → traverse (row_of c n f dusd infos balances) details ≡ ok rows
      → IsTable
          (map (λ u. u.address) details)
          (headers c n f (collateral_reserves c n f infos) ∷ rows)
  rows-IsTable dusd infos balances [] rows h =
      subst (λ r. IsTable [] (headers c n f (collateral_reserves c n f infos) ∷ r)) (ok_inj h)
        (tt, refl)
  rows-IsTable dusd infos balances (user ∷ details) rows h =
      let (row, e, h1) = >>=-eq-ok (row_of c n f dusd infos balances user) _ h in
      let (rest, es, h2) = >>=-eq-ok (traverse (row_of c n f dusd infos balances) details) _ h1 in
      let (long, first) = row_of-ok dusd infos balances user row e in
      let (longs, firsts) = rows-IsTable dusd infos balances details rest es in
      subst
        (λ r.
          IsTable (user.address ∷ map (λ u. u.address) details)
            (headers c n f (collateral_reserves c n f infos) ∷ r))
        (ok_inj h2)
        (
          (long, longs),
          ap (λ x. x ∷ map first_cell rest) first ∙ ap (λ xs. user.address ∷ xs) firsts,
        )

  asset_rows-IsTable :
      (infos : Dict (ReserveInfo Num))
      → IsTable (map (λ entry. entry.0) infos) (asset_info_headers ∷ map (asset_row c n f) infos)
  asset_rows-IsTable [] = (tt, refl)
  asset_rows-IsTable ((address, info) ∷ infos) =
      let (longs, firsts) = asset_rows-IsTable infos in
      ((refl, longs), ap (λ xs. address ∷ xs) firsts)

  -- The report is a table with a row for each user, in their order; the assets are a table.
  abbrev pub HasRows : List (UserDetail Num) → Result (List Cells × List Cells) → Type 0
  HasRows details (err e) = Unit
  HasRows details (ok (report, assets)) =
      IsTable (map (λ u. u.address) details) report
      × (reserves : List String) × IsTable reserves assets

  tables-HasRows :
      (dusd : String) (details : List (UserDetail Num)) (infos : Dict (ReserveInfo Num))
      (balances : Dict (Dict ReserveBalances))
      → HasRows details (tables c n f dusd details infos balances)
  unfolding tables
  tables-HasRows dusd details infos balances =
      elim (Result-cases (traverse (row_of c n f dusd infos balances) details)) [
        | inl (rows, e) ↦ rw e (
          rows-IsTable dusd infos balances details rows e,
          map (λ entry. entry.0) infos,
          asset_rows-IsTable infos,
        )
        | inr (x, e) ↦ rw e tt
      ]

  get_users_reserve_balances-ends :
      (fuel : ℕ) (users : List String) (batch_size : ℕ)
      → 0 < batch_size
      → length users < fuel
      → (r : Result (List (String × Dict ReserveBalances))) × (get_users_reserve_balances c fuel
            users batch_size
          ≡ some r)
  unfolding get_users_reserve_balances
  get_users_reserve_balances-ends fuel users batch_size b l =
      elim (Result-cases c.get_reserves_list) [
        | inl (reserves, e) ↦ (
          traverse (user_balances c reserves) users,
          rw e (batch_processing-traverse users batch_size fuel (user_balances c reserves) b l),
        )
        | inr (x, e) ↦ (err x, rw e refl)
      ]

  behind_balances-HasRows :
      (dusd : String) (details : List (UserDetail Num)) (infos : Dict (ReserveInfo Num))
      (r : Result (List (String × Dict ReserveBalances)))
      → (t : Result (List Cells × List Cells)) × (behind_balances c n f dusd details infos (some r)
          ≡ some t)
        × HasRows details t
  unfolding behind_balances
  behind_balances-HasRows dusd details infos (err e) = (err e, refl, tt)
  behind_balances-HasRows dusd details infos (ok entries) =
      (_, refl, tables-HasRows dusd details infos _)

  behind_infos-HasRows :
      (fuel : ℕ) (dusd : String) (details : List (UserDetail Num)) (batch_size : ℕ)
      (r : Result (Dict (ReserveInfo Num)))
      → 0 < batch_size
      → length details < fuel
      → (t : Result (List Cells × List Cells)) × (behind_infos c n f fuel dusd details batch_size r
          ≡ some t)
        × HasRows details t
  behind_infos-HasRows fuel dusd details batch_size (err e) b l = (err e, refl, tt)
  behind_infos-HasRows fuel dusd details batch_size (ok infos) b l =
      let users = map (λ u. u.address) details in
      let (r, e) =
        get_users_reserve_balances-ends fuel users batch_size b
          (omega (arith, l, length-map (λ u. u.address) details)) in
      let (t, same, good) = behind_balances-HasRows dusd details infos r in
      (t, ap (behind_balances c n f dusd details infos) e ∙ same, good)

  -- For a positive batch size and more fuel than users, the report ends. Unless something throws, each
  -- of its two tables has as many cells in every row as in its header, and the rows of the first are
  -- those of the users, in their order.
  pub detailed_tables-HasRows :
      (fuel : ℕ) (dusd : String) (details : List (UserDetail Num)) (batch_size : ℕ)
      → 0 < batch_size
      → length details < fuel
      → (t : Result (List Cells × List Cells)) × (detailed_tables c n f fuel dusd details batch_size
          ≡ some t)
        × HasRows details t
  unfolding detailed_tables
  detailed_tables-HasRows fuel dusd details batch_size b l =
      behind_infos-HasRows fuel dusd details batch_size _ b l
