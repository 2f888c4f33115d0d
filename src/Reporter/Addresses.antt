-- ===== src/Reporter/Addresses.antt =====
-- The steps of the reporter from the addresses to the users keep the addresses apart.
use solidity_contracts.Base.{
  ◌≢◌, sym, arith, inl, inr, Bool, Bool-cases, List, [], ◌∷◌, String, All, filter,
}
use solidity_contracts.Chain.{Number}
use solidity_contracts.Reporter.{
  AccountData, Sources, details_of, insert_detail, sort_onto, is_liquidatable, has_debt,
  filtered_liquidatable,
}
use solidity_contracts.Base.{All-filter}
use solidity_contracts.Reporter.Alerts.{Detail, IsOther, IsSingle}

-- No address stands twice.
abbrev pub IsApart : List String → Type 0
IsApart [] = Unit
IsApart (user ∷ users) = All (λ b. b ≢ user) users × IsApart users

module _ (n : Number) (s : Sources n.Num) where
  open n use {Num, lt}

  -- The steps from the addresses to the users keep the addresses apart.
  All-insert_detail :
      (a : String) (u : Detail n s) (vs : List (Detail n s))
      → IsOther n s a u
      → All (IsOther n s a) vs
      → All (IsOther n s a) (insert_detail n s u vs)
  All-insert_detail a u [] h hs = (h, tt)
  All-insert_detail a u (v ∷ vs) h hs = ground (arith, All-insert_detail a u vs h hs.1)

  insert_detail-IsSingle :
      (u : Detail n s) (vs : List (Detail n s))
      → All (IsOther n s u.address) vs
      → IsSingle n s vs
      → IsSingle n s (insert_detail n s u vs)
  insert_detail-IsSingle u [] h hs = (tt, tt)
  insert_detail-IsSingle u (v ∷ vs) h hs =
      let all = All-insert_detail v.address u vs (λ f. h.0 (sym f)) hs.0 in
      elim (Bool-cases (lt u.health_factor v.health_factor)) [
        | inl e ↦ rw e (h, hs)
        | inr e ↦ rw e (all, insert_detail-IsSingle u vs h.1 hs.1)
      ]

  insert_detail-IsOther :
      (u : Detail n s) (sorted us : List (Detail n s))
      → All (IsOther n s u.address) us
      → All (λ v. All (IsOther n s v.address) sorted) us
      → All (λ v. All (IsOther n s v.address) (insert_detail n s u sorted)) us
  insert_detail-IsOther u sorted [] h hs = tt
  insert_detail-IsOther u sorted (v ∷ us) (h, hs) (k, ks) = (
    All-insert_detail v.address u sorted (λ e. h (sym e)) k,
    insert_detail-IsOther u sorted us hs ks,
  )

  sort_onto-IsSingle :
      (sorted us : List (Detail n s))
      → IsSingle n s sorted
      → IsSingle n s us
      → All (λ v. All (IsOther n s v.address) sorted) us
      → IsSingle n s (sort_onto n s sorted us)
  sort_onto-IsSingle sorted [] h k l = h
  sort_onto-IsSingle sorted (u ∷ us) h (k, ks) (l, ls) =
      sort_onto-IsSingle (insert_detail n s u sorted) us (insert_detail-IsSingle u sorted l h) ks
        (insert_detail-IsOther u sorted us k ls)

  none_sorted : (us : List (Detail n s)) → All (λ v. All (IsOther n s v.address) []) us
  none_sorted [] = tt
  none_sorted (u ∷ us) = (tt, none_sorted us)

  details_of-IsOther :
      (a : String) (users : List String) (data_ : List AccountData)
      → All (λ b. b ≢ a) users
      → All (IsOther n s a) (details_of n s users data_)
  details_of-IsOther a [] data_ h = tt
  details_of-IsOther a (user ∷ users) [] h = tt
  details_of-IsOther a (user ∷ users) (d ∷ data_) (h, hs) = (h, details_of-IsOther a users data_ hs)

  details_of-IsSingle :
      (users : List String) (data_ : List AccountData)
      → IsApart users
      → IsSingle n s (details_of n s users data_)
  details_of-IsSingle [] data_ h = tt
  details_of-IsSingle (user ∷ users) [] h = tt
  details_of-IsSingle (user ∷ users) (d ∷ data_) (h, hs) =
      (details_of-IsOther user users data_ h, details_of-IsSingle users data_ hs)

  pub filter-IsSingle :
      (p : Detail n s → Bool) (us : List (Detail n s))
      → IsSingle n s us
      → IsSingle n s (filter p us)
  filter-IsSingle p [] h = tt
  filter-IsSingle p (u ∷ us) (h, hs) =
      let rest = filter-IsSingle p us hs in
      elim (Bool-cases (p u)) [
        | inl e ↦ rw e (All-filter (IsOther n s u.address) p us h, rest)
        | inr e ↦ rw e rest
      ]

  -- The users that an alert may be about have different addresses.
  pub filtered_liquidatable-IsSingle :
      (users : List String) (data_ : List AccountData)
      → IsApart users
      → IsSingle n s (filtered_liquidatable n s (sort_onto n s [] (details_of n s users data_)))
  filtered_liquidatable-IsSingle users data_ h =
      let details = details_of n s users data_ in
      filter-IsSingle (has_debt n s) _ (
        filter-IsSingle (is_liquidatable n s) _ (
          sort_onto-IsSingle [] details tt (details_of-IsSingle users data_ h)
            (none_sorted details)))
