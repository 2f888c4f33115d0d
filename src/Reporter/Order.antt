-- ===== src/Reporter/Order.antt =====
-- The order in which the reporter alerts.
use mathlib.Core.Path.{subst}
use solidity_contracts.Base.{
  ◌≡◌, refl, sym, inl, inr, Bool, true, false, Bool-cases, List, [], ◌∷◌, String, All, All-filter,
  filter,
}
use solidity_contracts.Base.Int.{ℤ}
use solidity_contracts.Base.Dict.{Dict}
use solidity_contracts.Chain.{Number}
use solidity_contracts.Reporter.{
  AccountData, Sources, details_of, insert_detail, sort_onto, is_liquidatable, has_debt,
}
use solidity_contracts.Reporter.Alerts.{Detail, is_changed}
use solidity_contracts.Reporter.Danger.{rated, news}

module _ (n : Number) (s : Sources n.Num) where
  open n use {Num, lt}

  -- No health factor is below an earlier one.
  abbrev pub IsAscending : List (Detail n s) → Type 0
  IsAscending [] = Unit
  IsAscending (u ∷ us) = All (λ v. lt v.health_factor u.health_factor ≡ false) us × IsAscending us

  abbrev IsRated : Detail n s → Type 0
  IsRated u = (h : ℤ) × (u.health_factor ≡ rated n s h)

  details_of-IsRated :
      (users : List String) (data_ : List AccountData) → All IsRated (details_of n s users data_)
  details_of-IsRated [] data_ = tt
  details_of-IsRated (user ∷ users) [] = tt
  details_of-IsRated (user ∷ users) (d ∷ data_) =
      ((d.health_factor, refl), details_of-IsRated users data_)

  All-inserted :
      (P : Detail n s → Type 0) (u : Detail n s) (vs : List (Detail n s))
      → P u
      → All P vs
      → All P (insert_detail n s u vs)
  All-inserted P u [] h hs = (h, tt)
  All-inserted P u (v ∷ vs) h (k, ks) = elim (Bool-cases (lt u.health_factor v.health_factor)) [
    | inl e ↦ rw e (h, (k, ks))
    | inr e ↦ rw e (k, All-inserted P u vs h ks)
  ]

  moved : {x y v w : Num} {b : Bool} → x ≡ v → y ≡ w → lt x y ≡ b → lt v w ≡ b
  moved {y} {v} {b} e f h = subst (λ z. lt v z ≡ b) f (subst (λ z. lt z y ≡ b) e h)

  module _
      (asymmetric : (a b : ℤ)
        → lt (rated n s a) (rated n s b) ≡ true
        → lt (rated n s b) (rated n s a) ≡ false)
      (transitive : (a b c : ℤ)
        → lt (rated n s b) (rated n s a) ≡ false
        → lt (rated n s c) (rated n s b) ≡ false
        → lt (rated n s c) (rated n s a) ≡ false) where
    flipped :
        (u v : Detail n s)
        → IsRated u
        → IsRated v
        → lt u.health_factor v.health_factor ≡ true
        → lt v.health_factor u.health_factor ≡ false
    flipped u v (a, e) (b, f) h = moved (sym f) (sym e) (asymmetric a b (moved e f h))

    chained :
        (u v w : Detail n s)
        → IsRated u
        → IsRated v
        → IsRated w
        → lt v.health_factor u.health_factor ≡ false
        → lt w.health_factor v.health_factor ≡ false
        → lt w.health_factor u.health_factor ≡ false
    chained u v w (a, e) (b, f) (c, g) h k =
        moved (sym g) (sym e) (transitive a b c (moved f e h) (moved g f k))

    All-chained :
        (u v : Detail n s) (ws : List (Detail n s))
        → IsRated u
        → IsRated v
        → All IsRated ws
        → lt v.health_factor u.health_factor ≡ false
        → All (λ w. lt w.health_factor v.health_factor ≡ false) ws
        → All (λ w. lt w.health_factor u.health_factor ≡ false) ws
    All-chained u v [] ru rv rs h ks = tt
    All-chained u v (w ∷ ws) ru rv (r, rs) h (k, ks) =
        (chained u v w ru rv r h k, All-chained u v ws ru rv rs h ks)

    insert_detail-IsAscending :
        (u : Detail n s) (vs : List (Detail n s))
        → IsRated u
        → All IsRated vs
        → IsAscending vs
        → IsAscending (insert_detail n s u vs)
    insert_detail-IsAscending u [] r rs h = (tt, tt)
    insert_detail-IsAscending u (v ∷ vs) r (k, ks) (h, hs) =
        elim (Bool-cases (lt u.health_factor v.health_factor)) [
          | inl e ↦
              let first = flipped u v r k e in
              rw e ((first, All-chained u v vs r k ks first h), (h, hs))
          | inr e ↦ rw e (
            All-inserted (λ w. lt w.health_factor v.health_factor ≡ false) u vs e h,
            insert_detail-IsAscending u vs r ks hs,
          )
        ]

    sort_onto-IsAscending :
        (sorted us : List (Detail n s))
        → All IsRated sorted
        → All IsRated us
        → IsAscending sorted
        → IsAscending (sort_onto n s sorted us)
    sort_onto-IsAscending sorted [] rs ks h = h
    sort_onto-IsAscending sorted (u ∷ us) rs (k, ks) h =
        sort_onto-IsAscending (insert_detail n s u sorted) us (All-inserted IsRated u sorted k rs)
          ks (insert_detail-IsAscending u sorted k rs h)

  filter-IsAscending :
      (p : Detail n s → Bool) (us : List (Detail n s)) → IsAscending us → IsAscending (filter p us)
  filter-IsAscending p [] h = tt
  filter-IsAscending p (u ∷ us) (h, hs) =
      let rest = filter-IsAscending p us hs in
      elim (Bool-cases (p u)) [
        | inl e ↦ rw e (All-filter (λ v. lt v.health_factor u.health_factor ≡ false) p us h, rest)
        | inr e ↦ rw e rest
      ]

  pub news-IsAscending :
      ((a b : ℤ) → lt (rated n s a) (rated n s b) ≡ true → lt (rated n s b) (rated n s a) ≡ false)
      → ((a b c : ℤ)
          → lt (rated n s b) (rated n s a) ≡ false
          → lt (rated n s c) (rated n s b) ≡ false
          → lt (rated n s c) (rated n s a) ≡ false)
      → (last : Dict Num) (users : List String) (data_ : List AccountData)
      → IsAscending (news n s last users data_)
  news-IsAscending asymmetric transitive last users data_ =
      filter-IsAscending (is_changed n s last) _ (
        filter-IsAscending (has_debt n s) _ (
          filter-IsAscending (is_liquidatable n s) _ (
            sort_onto-IsAscending asymmetric transitive [] (details_of n s users data_) tt
              (details_of-IsRated users data_) tt)))
