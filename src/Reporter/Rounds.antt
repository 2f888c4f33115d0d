-- ===== src/Reporter/Rounds.antt =====
-- What a round of the reporter sends and remembers.
use mathlib.Core.Path.{subst}
use solidity_contracts.Base.{
  ℕ, ◌≡◌, ◌<◌, ◌-◌, refl, sym, ap, ◌∙◌, arith, inl, inr, true, false, Bool-cases, List, [], ◌∷◌,
  ◌++◌, append-nil, append_assoc, some, String, length, leb, ◌==◌, Result, ok, err, Error,
  Result-cases, traverse, All, filter, Member,
}
use solidity_contracts.Batches.Process.{batch_processing-traverse}
use solidity_contracts.Chain.{Number}
use solidity_contracts.Reporter.{
  AccountData, Sources, Message, Reporting, Round, details_of, sort_onto, filtered_liquidatable,
  changed_users, alert_on, alert_if_any, send_stats, behind_report, stats_of, report, behind_data,
  check_health_factors, stats_interval,
}
use solidity_contracts.Reporter.Alerts.{
  Detail, IsSingle, IsKnown, is_changed, changed_users-IsKnown, changed_users-filter,
  filter-IsKnown,
}
use solidity_contracts.Reporter.Addresses.{IsApart, filtered_liquidatable-IsSingle, filter-IsSingle}
use solidity_contracts.Reporter.Danger.{rated, IsInDanger, IsNews, news, Member-news, news-Member}
use solidity_contracts.Reporter.Order.{IsAscending, news-IsAscending}
use solidity_contracts.Base.Int.{ℤ}

module _ (n : Number) (s : Sources n.Num) where
  open n use {Num, lt}
  open s use {same}

  -- The users of an alert, none for another message.
  abbrev pub users_of : Message Num → List (Detail n s)
  users_of (Message.alert us) = us
  users_of (Message.status st) = []

  -- All users alerted of, in order.
  abbrev pub alerted : List (Message Num) → List (Detail n s)
  alerted [] = []
  alerted (m ∷ ms) = users_of m ++ alerted ms

  alerted-append : (xs ys : List (Message Num)) → alerted (xs ++ ys) ≡ alerted xs ++ alerted ys
  alerted-append [] ys = refl
  alerted-append (x ∷ xs) ys =
      ap (λ zs. users_of x ++ zs) (alerted-append xs ys)
      ∙ sym (append_assoc (users_of x) (alerted xs) (alerted ys))

  alerted-alert_if_any : (us : List (Detail n s)) → alerted (alert_if_any n s us) ≡ us
  alerted-alert_if_any [] = refl
  alerted-alert_if_any (u ∷ us) = append-nil (u ∷ us)

  -- The users in danger, from the addresses and the data.
  abbrev pub in_danger : List String → List AccountData → List (Detail n s)
  in_danger users data_ = filtered_liquidatable n s (sort_onto n s [] (details_of n s users data_))

  alert_on-alerted :
      (us : List (Detail n s)) (st : Reporting Num)
      → IsSingle n s us
      → alerted (alert_on n s us st).sent
        ≡ alerted st.sent ++ filter (is_changed n s st.last_health_factors) us
  alert_on-alerted [] st h = sym (append-nil _)
  alert_on-alerted (u ∷ us) st h =
      let changed = changed_users n s st.last_health_factors (u ∷ us) in
      alerted-append st.sent (alert_if_any n s changed.0)
      ∙ ap (λ c. alerted st.sent ++ c)
          (alerted-alert_if_any changed.0
            ∙ changed_users-filter n s st.last_health_factors (u ∷ us) h)

  alert_on-IsKnown :
      (us : List (Detail n s)) (st : Reporting Num)
      → IsSingle n s us
      → All (IsKnown n s (alert_on n s us st).last_health_factors) us
  alert_on-IsKnown [] st h = tt
  alert_on-IsKnown (u ∷ us) st h = changed_users-IsKnown n s st.last_health_factors (u ∷ us) h

  -- The status message is no alert, and leaves the health factors.
  send_stats-alerted :
      (now total : ℕ) (details : List (Detail n s)) (st : Reporting Num)
      → let r = send_stats n s now total details st in
        (alerted r.1.sent ≡ alerted st.sent) × (r.1.last_health_factors ≡ st.last_health_factors)
  unfolding send_stats
  send_stats-alerted now total details st =
      elim (Bool-cases (leb stats_interval (now - st.last_stats_time))) [
        | inr e ↦ rw e (refl, refl)
        | inl e ↦ rw e (reported (s.detailed_report details))
      ]
    where
      reported :
          (r : Result (Unit {0}))
          → let x = behind_report n s now total details st r in
            (alerted x.1.sent ≡ alerted st.sent)
            × (x.1.last_health_factors ≡ st.last_health_factors)
      reported (err x) = (refl, refl)
      reported (ok _) = (
        alerted-append st.sent (Message.status (stats_of n s total details) ∷ []) ∙ append-nil _,
        refl,
      )

  none_in_danger : (users : List String) → in_danger users [] ≡ []
  none_in_danger [] = refl
  none_in_danger (user ∷ users) = refl

  some_data : (d : AccountData) (data_ : List AccountData) → (length (d ∷ data_) == 0) ≡ false
  some_data d data_ = ground arith

  -- The users a round alerts of.
  report-alerted :
      (now : ℕ) (users : List String) (data_ : List AccountData) (st : Reporting Num)
      → IsApart users
      → alerted (report n s now users data_ st).1.sent
        ≡ alerted st.sent ++ filter (is_changed n s st.last_health_factors) (in_danger users data_)
  unfolding report
  report-alerted now users [] st h = rw (none_in_danger users) (sym (append-nil _))
  report-alerted now users (d ∷ data_) st h =
      let us = in_danger users (d ∷ data_) in
      let e = alert_on-alerted us st (filtered_liquidatable-IsSingle n s users (d ∷ data_) h) in
      rw (some_data d data_) (
        (send_stats-alerted now (length users) (sort_onto n s [] (details_of n s users (d ∷ data_)))
          (alert_on n s us st)).0
        ∙ e)

  -- The health factors a round remembers.
  report-IsKnown :
      (now : ℕ) (users : List String) (data_ : List AccountData) (st : Reporting Num)
      → IsApart users
      → All
          (IsKnown n s (report n s now users data_ st).1.last_health_factors)
          (in_danger users data_)
  unfolding report
  report-IsKnown now users [] st h = rw (none_in_danger users) tt
  report-IsKnown now users (d ∷ data_) st h =
      let us = in_danger users (d ∷ data_) in
      let kept =
        (send_stats-alerted now (length users) (sort_onto n s [] (details_of n s users (d ∷ data_)))
          (alert_on n s us st)).1 in
      rw (some_data d data_) (
        subst (λ last. All (IsKnown n s last) us) (sym kept)
          (alert_on-IsKnown us st (filtered_liquidatable-IsSingle n s users (d ∷ data_) h)))

  fetched :
      (fuel batch_size now : ℕ) (st : Reporting Num) (users : List String)
      → s.get_all_lending_user_addresses ≡ ok users
      → 0 < batch_size
      → length users < fuel
      → check_health_factors n s fuel batch_size now st
        ≡ behind_data n s now users st (some (traverse s.get_user_account_data users))
  unfolding check_health_factors
  fetched fuel batch_size now st users listed b l =
      rw (listed, batch_processing-traverse users batch_size fuel s.get_user_account_data b l) refl

  -- With a positive batch size, more fuel than users and distinct addresses, a round ends. If the data
  -- of an account cannot be read, it throws the same, sends nothing and remembers nothing new.
  -- Otherwise it alerts anew of exactly the listed users, each once, with a health factor below 1 and
  -- a debt above 1 / 1000 whose health factor is not the same as the one remembered, in ascending
  -- order of the health factors, if the comparison orders the numbers that are health factors.
  pub check_health_factors_lem :
      (fuel batch_size now : ℕ) (st : Reporting Num) (users : List String)
      → s.get_all_lending_user_addresses ≡ ok users
      → 0 < batch_size
      → length users < fuel
      → IsApart users
      → ((a b : ℤ) → lt (rated n s a) (rated n s b) ≡ true → lt (rated n s b) (rated n s a) ≡ false)
      → ((a b c : ℤ)
          → lt (rated n s b) (rated n s a) ≡ false
          → lt (rated n s c) (rated n s b) ≡ false
          → lt (rated n s c) (rated n s a) ≡ false)
      → ((e : Error)
          → traverse s.get_user_account_data users ≡ err e
          → check_health_factors n s fuel batch_size now st ≡ some (err e, st))
        × ((data_ : List AccountData)
            → traverse s.get_user_account_data users ≡ ok data_
            → (r : Round n s) × (new : List (Detail n s)) × (check_health_factors n s fuel
                  batch_size now st
                ≡ some r)
              × (alerted r.1.sent ≡ alerted st.sent ++ new)
              × IsAscending n s new
              × IsSingle n s new
              × ((u : Detail n s)
                  → Member u new
                  → IsInDanger n s users u × IsNews n s st.last_health_factors u)
              × ((u : Detail n s)
                  → IsInDanger n s users u
                  → IsNews n s st.last_health_factors u
                  → Member u new))
  check_health_factors_lem fuel batch_size now st users listed b l apart asymmetric transitive =
      let run = fetched fuel batch_size now st users listed b l in
      let last = st.last_health_factors in
      (
        λ e h. run ∙ ap (λ d. behind_data n s now users st (some d)) h,
        λ data_ h. (
          report n s now users data_ st,
          news n s last users data_,
          run ∙ ap (λ d. behind_data n s now users st (some d)) h,
          report-alerted now users data_ st apart,
          news-IsAscending n s asymmetric transitive last users data_,
          filter-IsSingle n s (is_changed n s last) _
              (filtered_liquidatable-IsSingle n s users data_ apart),
          λ u. Member-news n s last users data_ u h,
          λ u. news-Member n s last users data_ u h,
        ),
      )

  -- Two rounds that read the same alert of nobody twice: the second adds no user to those alerted of,
  -- if every number is the same as itself.
  pub check_health_factors_again :
      (fuel batch_size now later : ℕ) (st : Reporting Num) (users : List String)
      → s.get_all_lending_user_addresses ≡ ok users
      → 0 < batch_size
      → length users < fuel
      → IsApart users
      → ((x : Num) → same x x ≡ true)
      → (one : Round n s) × (two : Round n s) × (check_health_factors n s fuel batch_size now st
          ≡ some one)
        × (check_health_factors n s fuel batch_size later one.1 ≡ some two)
        × (alerted two.1.sent ≡ alerted one.1.sent)
  check_health_factors_again fuel batch_size now later st users listed b l apart reflexive =
      let run =
        λ (time : ℕ) (from : Reporting Num). fetched fuel batch_size time from users listed b l in
      elim (Result-cases (traverse s.get_user_account_data users)) [
        | inr (e, h) ↦ (
          (err e, st),
          (err e, st),
          run now st ∙ ap (λ d. behind_data n s now users st (some d)) h,
          run later st ∙ ap (λ d. behind_data n s later users st (some d)) h,
          refl,
        )
        | inl (data_, h) ↦
            let one = report n s now users data_ st in
            let two = report n s later users data_ one.1 in
            (
              one,
              two,
              run now st ∙ ap (λ d. behind_data n s now users st (some d)) h,
              run later one.1 ∙ ap (λ d. behind_data n s later users one.1 (some d)) h,
              report-alerted later users data_ one.1 apart
                  ∙ ap (λ us. alerted one.1.sent ++ us)
                      (filter-IsKnown n s reflexive one.1.last_health_factors
                        (in_danger users data_) (report-IsKnown now users data_ st apart))
                  ∙ append-nil _,
            )
      ]
