-- ===== src/Reporter/Danger.antt =====
-- The users that a round alerts of, described by what is read of them.
use mathlib.Core.Path.{subst}
use solidity_contracts.Base.{
  ◌^◌, ◌≡◌, refl, sym, ap, ◌∙◌, ◌⊎◌, inl, inr, arith, Bool, true, false, not, Bool-cases, List, [],
  ◌∷◌, Option, none, some, String, ok, >>=-eq-ok, ok_inj, traverse, filter, Member, here, there,
  Member-cases, not-Member-nil, Member-filter, filter-Member,
}
use solidity_contracts.Base.Int.{ℤ, pos}
use solidity_contracts.Base.Dict.{Dict, lookup}
use solidity_contracts.Chain.{Number}
use solidity_contracts.Reporter.{
  AccountData, Sources, detail_of, details_of, insert_detail, sort_onto, is_liquidatable, has_debt,
  filtered_liquidatable, health_factor_changed,
}
use solidity_contracts.Reporter.Alerts.{Detail, is_changed}

module _ (n : Number) (s : Sources n.Num) where
  open n use {Num, lt, quotient, of_big}
  open s use {same}

  -- The floating-point number of a health factor with 18 decimals.
  abbrev pub rated : ℤ → Num
  rated h = quotient (of_big h) (of_big (pos (10 ^ 18)))

  -- A user of the list, with the data that is read, a health factor below 1 and a debt above 1 / 1000.
  abbrev pub IsInDanger : List String → Detail n s → Type 0
  IsInDanger users u =
      Member u.address users
      × (d : AccountData) × (s.get_user_account_data u.address ≡ ok d)
      × (u ≡ record {
        address = u.address;
        health_factor = rated d.health_factor;
        total_collateral = quotient (of_big d.total_collateral_base) (of_big (pos (10 ^ 8)));
        total_debt = quotient (of_big d.total_debt_base) (of_big (pos (10 ^ 8)));
      })
      × (lt u.health_factor (of_big (pos 1)) ≡ true)
      × (lt (quotient (of_big (pos 1)) (of_big (pos 1000))) u.total_debt ≡ true)

  -- The user's health factor is not the one remembered, if any is.
  abbrev pub IsNews : Dict Num → Detail n s → Type 0
  IsNews last u =
      (known : Num) → lookup u.address last ≡ some known → same known u.health_factor ≡ false

  Member-insert_detail :
      {x : Detail n s} (u : Detail n s) (vs : List (Detail n s))
      → (Member x (insert_detail n s u vs) → Member x (u ∷ vs))
        × (Member x (u ∷ vs) → Member x (insert_detail n s u vs))
  Member-insert_detail u [] = (λ d. d, λ d. d)
  Member-insert_detail {x} u (v ∷ vs) =
      let (out, in_) = Member-insert_detail {x = x} u vs in
      elim (Bool-cases (lt u.health_factor v.health_factor)) [
        | inl e ↦ rw e (λ d. d, λ d. d)
        | inr e ↦ rw e (λ d. swapped v u vs d out, λ d. swapped_back u v vs d in_)
      ]
    where
      swapped :
          (v u : Detail n s) (vs : List (Detail n s))
          → Member x (v ∷ insert_detail n s u vs)
          → (Member x (insert_detail n s u vs) → Member x (u ∷ vs))
          → Member x (u ∷ v ∷ vs)
      swapped v u vs d out = elim (Member-cases d) [
        | inl e ↦ there (here e)
        | inr t ↦ elim (Member-cases (out t)) [ inl e ↦ here e | inr k ↦ there (there k) ]
      ]

      swapped_back :
          (u v : Detail n s) (vs : List (Detail n s))
          → Member x (u ∷ v ∷ vs)
          → (Member x (u ∷ vs) → Member x (insert_detail n s u vs))
          → Member x (v ∷ insert_detail n s u vs)
      swapped_back u v vs d in_ = elim (Member-cases d) [
        | inl e ↦ there (in_ (here e))
        | inr t ↦ elim (Member-cases t) [ inl e ↦ here e | inr k ↦ there (in_ (there k)) ]
      ]

  Member-sort_onto :
      {x : Detail n s} (sorted us : List (Detail n s))
      → (Member x (sort_onto n s sorted us) → Member x sorted ⊎ Member x us)
        × (Member x sorted ⊎ Member x us → Member x (sort_onto n s sorted us))
  Member-sort_onto sorted [] =
      (λ d. inl d, λ d. elim d [ inl k ↦ k | inr k ↦ absurd (not-Member-nil k) ])
  Member-sort_onto {x} sorted (u ∷ us) =
      let (out, in_) = Member-sort_onto {x = x} (insert_detail n s u sorted) us in
      let (o, i) = Member-insert_detail {x = x} u sorted in
      (
        λ d. elim (out d) [
          | inl k ↦ elim (Member-cases (o k)) [ inl e ↦ inr (here e) | inr t ↦ inl t ]
          | inr k ↦ inr (there k)
        ],
        λ d. elim d [
          | inl k ↦ in_ (inl (i (there k)))
          | inr k ↦ elim (Member-cases k) [ inl e ↦ in_ (inl (i (here e))) | inr t ↦ in_ (inr t) ]
        ],
      )

  Member-details_of :
      (u : Detail n s) (users : List String) (data_ : List AccountData)
      → traverse s.get_user_account_data users ≡ ok data_
      → Member u (details_of n s users data_)
      → Member u.address users
        × (d : AccountData) × (s.get_user_account_data u.address ≡ ok d)
        × (u ≡ detail_of n s u.address d)
  Member-details_of u [] data_ h m = absurd (not-Member-nil m)
  Member-details_of u (user ∷ users) data_ h m =
      let (d, read, h1) = >>=-eq-ok (s.get_user_account_data user) _ h in
      let (rest, reads, h2) = >>=-eq-ok (traverse s.get_user_account_data users) _ h1 in
      elim (Member-cases
        (subst (λ ds. Member u (details_of n s (user ∷ users) ds)) (sym (ok_inj h2)) m)) [
          | inl e ↦
              let same = ap (λ x. x.address) e in
              (
                here same,
                d,
                ap s.get_user_account_data same ∙ read,
                e ∙ ap (λ a. detail_of n s a d) (sym same),
              )
          | inr t ↦
              let found = Member-details_of u users rest reads t in
              (there found.0, found.1, found.2, found.3)
        ]

  details_of-Member :
      (u : Detail n s) (users : List String) (data_ : List AccountData) (d : AccountData)
      → traverse s.get_user_account_data users ≡ ok data_
      → Member u.address users
      → s.get_user_account_data u.address ≡ ok d
      → u ≡ detail_of n s u.address d
      → Member u (details_of n s users data_)
  details_of-Member u [] data_ d h m k e = absurd (not-Member-nil m)
  details_of-Member u (user ∷ users) data_ d h m k e =
      let (x, read, h1) = >>=-eq-ok (s.get_user_account_data user) _ h in
      let (rest, reads, h2) = >>=-eq-ok (traverse s.get_user_account_data users) _ h1 in
      subst (λ ds. Member u (details_of n s (user ∷ users) ds)) (ok_inj h2)
        (elim (Member-cases m) [
          | inl a ↦
              let same : d ≡ x = ok_inj (sym k ∙ ap s.get_user_account_data a ∙ read) in
              here (e ∙ ap (λ y. detail_of n s y d) a ∙ ap (detail_of n s user) same)
          | inr t ↦ there (details_of-Member u users rest d reads t k e)
        ])

  is_changed-IsNews :
      (last : Dict Num) (u : Detail n s)
      → (is_changed n s last u ≡ true → IsNews last u)
        × (IsNews last u → is_changed n s last u ≡ true)
  is_changed-IsNews last u = by_known (lookup u.address last) refl
    where
      by_known :
          (o : Option Num)
          → lookup u.address last ≡ o
          → (is_changed n s last u ≡ true → IsNews last u)
            × (IsNews last u → is_changed n s last u ≡ true)
      by_known none e = (λ h known k. absurd (nothing_known (sym e ∙ k)), λ h. rw e refl)
        where
          nothing_known : {x : Num} → none ≡ some x → ⊥
          nothing_known k = cc
      by_known (some x) e =
          let changed : is_changed n s last u ≡ not (same x u.health_factor) =
            ap (λ o. health_factor_changed n s o u.health_factor) e in
          (
            λ h known k.
                let one : x ≡ known = some_one (sym e ∙ k) in
                subst (λ y. same y u.health_factor ≡ false) one (not_true (sym changed ∙ h)),
            λ h. changed ∙ ap not (h x e),
          )
        where
          some_one : {y z : Num} → some y ≡ some z → y ≡ z
          some_one k = cc

          not_true : {b : Bool} → not b ≡ true → b ≡ false
          not_true {b} k = ground (arith, k)

  -- The users that a round alerts of, from the data that was read.
  abbrev pub news : Dict Num → List String → List AccountData → List (Detail n s)
  news last users data_ =
      filter (is_changed n s last)
        (filtered_liquidatable n s (sort_onto n s [] (details_of n s users data_)))

  pub Member-news :
      (last : Dict Num) (users : List String) (data_ : List AccountData) (u : Detail n s)
      → traverse s.get_user_account_data users ≡ ok data_
      → Member u (news last users data_)
      → IsInDanger users u × IsNews last u
  Member-news last users data_ u h m =
      let (kept, changed) = Member-filter (is_changed n s last) _ m in
      let (low, debt) = Member-filter (has_debt n s) _ kept in
      let (sorted, danger) = Member-filter (is_liquidatable n s) _ low in
      elim ((Member-sort_onto {x = u} [] (details_of n s users data_)).0 sorted) [
        | inl k ↦ absurd (not-Member-nil k)
        | inr k ↦
            let found = Member-details_of u users data_ h k in
            (
              (found.0, found.1, found.2, found.3, danger, debt),
              (is_changed-IsNews last u).0 changed,
            )
      ]

  pub news-Member :
      (last : Dict Num) (users : List String) (data_ : List AccountData) (u : Detail n s)
      → traverse s.get_user_account_data users ≡ ok data_
      → IsInDanger users u
      → IsNews last u
      → Member u (news last users data_)
  news-Member last users data_ u h (listed, d, read, e, danger, debt) fresh =
      filter-Member (is_changed n s last) _
        (filter-Member (has_debt n s) _
          (filter-Member (is_liquidatable n s) _
            ((Member-sort_onto {x = u} [] (details_of n s users data_)).1
              (inr (details_of-Member u users data_ d h listed read e)))
            danger)
          debt)
        ((is_changed-IsNews last u).1 fresh)
