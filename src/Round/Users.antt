-- ===== src/Round/Users.antt =====
-- The users that a round leaves out.
use solidity_contracts.Base.{
  ℕ, ◌≡◌, refl, sym, ap, ◌∙◌, Bool, true, false, not, List, [], ◌∷◌, String, filter, ok, ok_inj,
  arith, if◌then◌else◌,
}
use solidity_contracts.Base.Dict.{lookup}
use solidity_contracts.IgnoreMemory.Files.{Platform}
use solidity_contracts.IgnoreMemory.{World, Outcome, is_ignored}
use solidity_contracts.IgnoreMemory.Expiry.{
  IsValid, not_expired, initialize_again, is_ignored-eq-not_expired, is_ignored_stable,
}
use solidity_contracts.Round.{filter_ignored}

filter-ext :
    (p q : String → Bool) (xs : List String)
    → ((x : String) → p x ≡ q x)
    → filter p xs ≡ filter q xs
filter-ext p q [] h = refl
filter-ext p q (x ∷ xs) h = rw (h x, filter-ext p q xs h) refl

filter-not :
    (b : Bool) (x : String) (xs : List String)
    → (if b then xs else x ∷ xs) ≡ (if not b then x ∷ xs else xs)
filter-not true x xs = refl
filter-not false x xs = refl

module _ (p : Platform) where
  open p use {Text}

  -- A user is ignored if its expiry lies ahead.
  abbrev pub ignored : ℕ → World Text → String → Bool
  ignored now w user = not_expired now (lookup user w.self.memory)

  answers :
      (now : ℕ) (user : String) (w : World Text)
      → IsValid p w
      → is_ignored p now user w ≡ (ok (ignored now w user), (is_ignored p now user w).1)
  answers now user w h =
      pair_eq (is_ignored p now user w)
        (is_ignored-eq-not_expired p now user w w (initialize_again p w h.0))
    where
      pair_eq : (o : Outcome p Bool) {b : Bool} → o.0 ≡ ok b → o ≡ (ok b, o.1)
      pair_eq o e = ap (λ r. (r, o.1)) e

  still :
      (now : ℕ) (user other : String) (w : World Text)
      → IsValid p w
      → ignored now (is_ignored p now user w).1 other ≡ ignored now w other
  still now user other w h =
      let (valid, same) = is_ignored_stable p now now user other w (omega arith) h in
      let w' = (is_ignored p now user w).1 in
      ok_inj (
        sym (is_ignored-eq-not_expired p now other w' w' (initialize_again p w' valid.0))
        ∙ same
        ∙ is_ignored-eq-not_expired p now other w w (initialize_again p w h.0))

  -- With an initialized memory, the filter does not throw and leaves it valid, and it keeps, in order,
  -- the users whose expiry does not lie ahead.
  pub filter_ignored_lem :
      (now : ℕ) (users : List String) (w : World Text)
      → IsValid p w
      → (w' : World Text) × (filter_ignored p now users w
          ≡ (ok (filter (λ u. not (ignored now w u)) users), w'))
        × IsValid p w'
  unfolding filter_ignored
  filter_ignored_lem now [] w h = (w, refl, h)
  filter_ignored_lem now (u ∷ users) w h =
      let o = (is_ignored p now u w).1 in
      let (valid, _) = is_ignored_stable p now now u u w (omega arith) h in
      let (last, rest, good) = filter_ignored_lem now users o valid in
      let same =
        filter-ext (λ x. not (ignored now o x)) (λ x. not (ignored now w x)) users
          (λ x. ap not (still now u x w h)) in
      let kept = filter (λ x. not (ignored now w x)) users in
      (
        last,
        rw (answers now u w h, rest, same)
            (ap (λ l. (ok l, last)) (filter-not (ignored now w u) u kept)),
        good,
      )
