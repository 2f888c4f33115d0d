-- ===== src/Reporter/Alerts.antt =====
-- Which users the reporter alerts of, by the health factors it remembers.
use solidity_contracts.Base.{
  ◌≡◌, ◌≢◌, refl, sym, ◌∙◌, arith, Bool, true, false, List, [], ◌∷◌, some, String, str_eq,
  str_eq_iff, str_eq_refl, All, filter,
}
use solidity_contracts.Base.Dict.{Dict, lookup, insert, lookup-insert}
use solidity_contracts.Chain.{Number}
use solidity_contracts.Reporter.{UserDetail, Sources, changed_users, health_factor_changed}

module _ (n : Number) (s : Sources n.Num) where
  open n use {Num, lt}
  open s use {same}

  abbrev pub Detail : Type 0
  Detail = UserDetail Num

  abbrev pub IsOther : String → Detail → Type 0
  IsOther a u = u.address ≢ a

  -- No address stands twice.
  abbrev pub IsSingle : List Detail → Type 0
  IsSingle [] = Unit
  IsSingle (u ∷ us) = All (IsOther u.address) us × IsSingle us

  abbrev pub IsKnown : Dict Num → Detail → Type 0
  IsKnown last u = lookup u.address last ≡ some u.health_factor

  -- The test for one user.
  abbrev pub is_changed : Dict Num → Detail → Bool
  is_changed last u = health_factor_changed n s (lookup u.address last) u.health_factor

  lookup_other :
      (a : String) (u : Detail) (last : Dict Num)
      → IsOther a u
      → lookup a (insert u.address u.health_factor last) ≡ lookup a last
  lookup_other a u last h =
      let e : str_eq u.address a ≡ false = ground (arith, str_eq_iff u.address a, h) in
      rw (lookup-insert u.address a u.health_factor last, e) refl

  lookup_own :
      (u : Detail) (last : Dict Num)
      → lookup u.address (insert u.address u.health_factor last) ≡ some u.health_factor
  lookup_own u last =
      let e : str_eq u.address u.address ≡ true = str_eq_refl u.address in
      rw (lookup-insert u.address u.address u.health_factor last, e) refl

  -- The health factors of other users stay.
  lookup-changed_users :
      (a : String) (last : Dict Num) (us : List Detail)
      → All (IsOther a) us
      → lookup a (changed_users n s last us).1 ≡ lookup a last
  unfolding changed_users
  lookup-changed_users a last [] h = refl
  lookup-changed_users a last (u ∷ us) (h, hs) =
      lookup-changed_users a (insert u.address u.health_factor last) us hs ∙ lookup_other a u last h

  -- Afterwards every user's health factor is the last one.
  pub changed_users-IsKnown :
      (last : Dict Num) (us : List Detail)
      → IsSingle us
      → All (IsKnown (changed_users n s last us).1) us
  unfolding changed_users
  changed_users-IsKnown last [] h = tt
  changed_users-IsKnown last (u ∷ us) (h, hs) = (
    lookup-changed_users u.address (insert u.address u.health_factor last) us h ∙ lookup_own u last,
    changed_users-IsKnown (insert u.address u.health_factor last) us hs,
  )

  filter-is_changed :
      (u : Detail) (last : Dict Num) (us : List Detail)
      → All (IsOther u.address) us
      → filter (is_changed (insert u.address u.health_factor last)) us ≡ filter (is_changed last) us
  filter-is_changed u last [] h = refl
  filter-is_changed u last (v ∷ us) (h, hs) =
      let e = lookup_other v.address u last (λ f. h (sym f)) in
      rw (e, filter-is_changed u last us hs) refl

  -- The users that are kept are, in order, the ones whose health factor was not the last one.
  pub changed_users-filter :
      (last : Dict Num) (us : List Detail)
      → IsSingle us
      → (changed_users n s last us).0 ≡ filter (is_changed last) us
  unfolding changed_users
  changed_users-filter last [] h = refl
  changed_users-filter last (u ∷ us) (h, hs) =
      rw
        (
          changed_users-filter (insert u.address u.health_factor last) us hs,
          filter-is_changed u last us h,
        )
        refl

  pub filter-IsKnown :
      ((x : Num) → same x x ≡ true)
      → (last : Dict Num) (us : List Detail) → All (IsKnown last) us
      → filter (is_changed last) us ≡ []
  filter-IsKnown r last [] h = refl
  filter-IsKnown r last (u ∷ us) (h, hs) = rw (h, r u.health_factor) (filter-IsKnown r last us hs)
