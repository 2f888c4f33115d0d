-- ===== src/Markets/Choice.antt =====
-- The market that is chosen is a largest one.
use mathlib.Core.Path.{subst}
use solidity_contracts.Base.{
  Member-filter, Member, here, there, not-Member-nil, Member-cases, ◌≡◌, refl, sym, ap, ◌∙◌, ◌&&◌,
  inl, inr, Bool, true, false, List, [], ◌∷◌, Option, none, some, arith, filter, All, if◌then◌else◌,
  Bool-cases,
}
use solidity_contracts.Base.Int.{ℤ, pos, negsuc, gt}
use solidity_contracts.Markets.{
  UserReserveInfo, insert_sorted, sort_onto, sort_descending, first, choose_debt_market,
  choose_collateral_market,
}

pub not_gt_above : (a b c : ℤ) → gt b a ≡ true → gt b c ≡ false → gt a c ≡ false
not_gt_above (pos a) (pos b) (pos c) h k = ground arith
not_gt_above (pos a) (pos b) (negsuc c) h k = ground arith
not_gt_above (pos a) (negsuc b) c h k = ground arith
not_gt_above (negsuc a) (pos b) (pos c) h k = ground arith
not_gt_above (negsuc a) (pos b) (negsuc c) h k = ground arith
not_gt_above (negsuc a) (negsuc b) (pos c) h k = ground arith
not_gt_above (negsuc a) (negsuc b) (negsuc c) h k = ground arith

pub gt_irrefl : (a : ℤ) → gt a a ≡ false
gt_irrefl (pos a) = ground arith
gt_irrefl (negsuc a) = ground arith

pub not_gt_trans : (a b c : ℤ) → gt a b ≡ false → gt b c ≡ false → gt a c ≡ false
not_gt_trans (pos a) (pos b) (pos c) h k = ground arith
not_gt_trans (pos a) (pos b) (negsuc c) h k = ground arith
not_gt_trans (pos a) (negsuc b) c h k = ground arith
not_gt_trans (negsuc a) (pos b) (pos c) h k = ground arith
not_gt_trans (negsuc a) (pos b) (negsuc c) h k = ground arith
not_gt_trans (negsuc a) (negsuc b) (pos c) h k = ground arith
not_gt_trans (negsuc a) (negsuc b) (negsuc c) h k = ground arith

module _ {A : Type 0} where
  skip : {a : A} (x m : A) (xs : List A) → Member a (m ∷ xs) → Member a (m ∷ x ∷ xs)
  skip x m xs (here e) = here e
  skip x m xs (there d) = there (there d)

  larger : (A → ℤ) → A → A → A
  larger key x m = if gt (key x) (key m) then x else m

  larger-first : (key : A → ℤ) (x m : A) → gt (key x) (key m) ≡ true → larger key x m ≡ x
  unfolding larger
  larger-first key x m h = rw h refl

  larger-second : (key : A → ℤ) (x m : A) → gt (key x) (key m) ≡ false → larger key x m ≡ m
  unfolding larger
  larger-second key x m h = rw h refl

  -- The element that is first after the insertion of `xs` before or behind `m`.
  largest : (A → ℤ) → A → List A → A
  unfolding larger
  largest key m [] = m
  largest key m (x ∷ xs) = largest key (larger key x m) xs

  first-sort_onto :
      (key : A → ℤ) (m : A) (ys xs : List A)
      → first (sort_onto key (m ∷ ys) xs) ≡ some (largest key m xs)
  unfolding largest larger
  first-sort_onto key m ys [] = refl
  first-sort_onto key m ys (x ∷ xs) = elim (Bool-cases (gt (key x) (key m))) [
    | inl h ↦ rw h (first-sort_onto key x (m ∷ ys) xs)
    | inr h ↦ rw h (first-sort_onto key m (insert_sorted key x ys) xs)
  ]

  IsBest : (A → ℤ) → A → List A → A → Type 0
  IsBest key m xs b =
      Member b (m ∷ xs) × (gt (key m) (key b) ≡ false) × All (λ x. gt (key x) (key b) ≡ false) xs

  largest-lem : (key : A → ℤ) (m : A) (xs : List A) → IsBest key m xs (largest key m xs)
  unfolding largest larger IsBest
  largest-lem key m [] = (here refl, gt_irrefl (key m), tt)
  largest-lem key m (x ∷ xs) = elim (Bool-cases (gt (key x) (key m))) [
    | inl h ↦
        let (at, le, rest) = largest-lem key x xs in
        let b : IsBest key m (x ∷ xs) (largest key x xs) =
          (there at, not_gt_above (key m) (key x) (key (largest key x xs)) h le, (le, rest)) in
        subst (λ y. IsBest key m (x ∷ xs) (largest key y xs)) (sym (larger-first key x m h)) b
    | inr h ↦
        let (at, le, rest) = largest-lem key m xs in
        let b : IsBest key m (x ∷ xs) (largest key m xs) = (
          skip x m xs at,
          le,
          (not_gt_trans (key x) (key m) (key (largest key m xs)) h le, rest),
        ) in
        subst (λ y. IsBest key m (x ∷ xs) (largest key y xs)) (sym (larger-second key x m h)) b
  ]

  filter-kept :
      (p : A → Bool) (x : A) (xs : List A) → p x ≡ true → filter p (x ∷ xs) ≡ x ∷ filter p xs
  filter-kept p x xs h = rw h refl

  filter-dropped :
      (p : A → Bool) (x : A) (xs : List A) → p x ≡ false → filter p (x ∷ xs) ≡ filter p xs
  filter-dropped p x xs h = rw h refl

  unfilter :
      (P : A → Type 0) (p : A → Bool) (xs : List A)
      → All P (filter p xs)
      → All (λ x. p x ≡ true → P x) xs
  unfilter P p [] h = tt
  unfilter P p (x ∷ xs) h = elim (Bool-cases (p x)) [
    | inl e ↦
        let kept = subst (All P) (filter-kept p x xs e) h in (λ _. kept.0, unfilter P p xs kept.1)
    | inr e ↦ (λ e'. cc, unfilter P p xs (subst (All P) (filter-dropped p x xs e) h))
  ]

  All-dropped : (p : A → Bool) (xs : List A) → filter p xs ≡ [] → All (λ x. p x ≡ false) xs
  All-dropped p [] h = tt
  All-dropped p (x ∷ xs) h = elim (Bool-cases (p x)) [
    | inl e ↦ let impossible = sym (filter-kept p x xs e) ∙ h in cc
    | inr e ↦ (e, All-dropped p xs (sym (filter-dropped p x xs e) ∙ h))
  ]

  -- The elements with `p` have a largest one at `m`, or there is none.
  abbrev pub IsChosen : (A → Bool) → (A → ℤ) → List A → Option A → Type 0
  IsChosen p key xs none = All (λ x. p x ≡ false) xs
  IsChosen p key xs (some m) =
      Member m xs × (p m ≡ true) × All (λ x. p x ≡ true → gt (key x) (key m) ≡ false) xs

  no_element :
      (p : A → Bool) {m : A} (xs : List A) → All (λ x. p x ≡ false) xs → Member m xs → p m ≡ false
  no_element p [] h d = absurd (not-Member-nil d)
  no_element p (x ∷ xs) (h, hs) d = elim (Member-cases d) [
    | inl e ↦ ap p e ∙ h
    | inr t ↦ no_element p xs hs t
  ]

  pub chosen-none :
      (p : A → Bool) (key : A → ℤ) (xs : List A) (o : Option A)
      → IsChosen p key xs o
      → All (λ x. p x ≡ false) xs
      → o ≡ none
  chosen-none p key xs none c h = refl
  chosen-none p key xs (some m) (d, good, best) h = let bad = no_element p xs h d in cc

  first-sort_descending :
      (key : A → ℤ) (x : A) (xs : List A)
      → first (sort_descending key (x ∷ xs)) ≡ some (largest key x xs)
  first-sort_descending key x xs = first-sort_onto key x [] xs

  chosen :
      (p : A → Bool) (key : A → ℤ) (xs kept : List A)
      → filter p xs ≡ kept
      → IsChosen p key xs (first (sort_descending key kept))
  unfolding IsBest
  chosen p key xs [] e = All-dropped p xs e
  chosen p key xs (x ∷ kept) e =
      let (at, le, rest) = largest-lem key x kept in
      let m = largest key x kept in
      let all = subst (All (λ y. gt (key y) (key m) ≡ false)) (sym e) (le, rest) in
      let (mem, holds) = Member-filter p xs (subst (λ l. Member m l) (sym e) at) in
      rw (first-sort_descending key x kept) (mem, holds, unfilter _ p xs all)

  filter-filter :
      (p q : A → Bool) (xs : List A) → filter (λ x. q x && p x) xs ≡ filter p (filter q xs)
  filter-filter p q [] = refl
  filter-filter p q (x ∷ xs) = ground (arith, filter-filter p q xs)

-- The debt market is one of the borrowable markets with the largest debt, in units of its own token;
-- there is none only if no market is borrowable.
pub choose_debt_market_lem :
    (reserve_infos : List UserReserveInfo)
    → IsChosen
        (λ r. r.borrowing_enabled)
        (λ r. r.total_debt)
        reserve_infos
        (choose_debt_market reserve_infos)
unfolding choose_debt_market
choose_debt_market_lem infos = chosen (λ r. r.borrowing_enabled) (λ r. r.total_debt) infos _ refl

-- The collateral market is one with the largest supply, in units of its own token, among those that
-- are usable as collateral and have a positive bonus; there is none only if no market is both.
pub choose_collateral_market_lem :
    (reserve_infos : List UserReserveInfo)
    → IsChosen
        (λ r. r.usage_as_collateral_enabled && gt r.liquidation_bonus (pos 0))
        (λ r. r.total_supply)
        reserve_infos
        (choose_collateral_market reserve_infos)
unfolding choose_collateral_market
choose_collateral_market_lem infos =
    chosen (λ r. r.usage_as_collateral_enabled && gt r.liquidation_bonus (pos 0))
      (λ r. r.total_supply) infos _
      (filter-filter (λ r. gt r.liquidation_bonus (pos 0)) (λ r. r.usage_as_collateral_enabled)
        infos)
