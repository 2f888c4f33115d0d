-- ===== src/Bot/Selection.antt =====
-- Which users of a batch are taken for liquidation.
use solidity_contracts.Base.{
  ◌≡◌, refl, true, List, [], ◌∷◌, map, Option, none, some, String, ok, arith, if◌then◌else◌, All,
}
use solidity_contracts.Chain.{Number}
use solidity_contracts.IgnoreMemory.Files.{Platform}
use solidity_contracts.Bot.{Services, fetch_health_factor, defined, liquidatable_users}

module _ (p : Platform) (n : Number) (s : Services p n) where
  open n use {Num, lt}

  abbrev add_if_below : Num → String → Option Num → List (String × Num) → List (String × Num)
  add_if_below threshold user none rest = rest
  add_if_below threshold user (some h) rest = if lt h threshold then (user, h) ∷ rest else rest

  -- The users whose own health factor is read and below the threshold, with it.
  unfoldable pub below : Num → List String → List (String × Num)
  below threshold [] = []
  below threshold (user ∷ users) =
      add_if_below threshold user (fetch_health_factor p n s user) (below threshold users)

  abbrev pub IsRead : String → Type 0
  IsRead user = (h : Num) × (s.get_user_health_factor user ≡ ok h)

  abbrev pub selected : Num → List String → List (String × Num)
  selected threshold users =
      liquidatable_users p n s threshold users
        (defined p n s (map (fetch_health_factor p n s) users))

  -- If every health factor of the batch can be read, then the users taken for liquidation are, in
  -- order, those whose own health factor is below the threshold.
  pub selected-eq-below :
      (threshold : Num) (users : List String)
      → All IsRead users
      → selected threshold users ≡ below threshold users
  unfolding liquidatable_users defined below
  selected-eq-below threshold [] h = refl
  selected-eq-below threshold (u ∷ users) ((x, read), rest) =
      let r = selected-eq-below threshold users rest in ground (arith, read, r)

  -- If the health factor of the first user cannot be read and that of the second is below the
  -- threshold, then the first user is taken for liquidation, with the health factor of the second.
  pub selected_shifted :
      (threshold h : Num) (user next : String) (users : List String)
      → fetch_health_factor p n s user ≡ none
      → s.get_user_health_factor next ≡ ok h
      → lt h threshold ≡ true
      → (rest : List (String × Num)) × (selected threshold (user ∷ next ∷ users) ≡ (user, h) ∷ rest)
  unfolding liquidatable_users defined
  selected_shifted threshold h user next users unread read low = (
    liquidatable_users p n s threshold (next ∷ users)
        (defined p n s (map (fetch_health_factor p n s) users)),
    ground (arith, unread, read, low),
  )
