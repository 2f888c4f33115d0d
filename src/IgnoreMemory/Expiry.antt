-- ===== src/IgnoreMemory/Expiry.antt =====
-- When the ignore memory ignores a value, over the calls of one object.
use solidity_contracts.Base.{
  ℕ, ◌+◌, ◌≤◌, ◌≡◌, refl, sym, ap, ◌∙◌, Bool, true, false, Option, none, some, String, arith, ltb,
  if◌then◌else◌, str_eq, str_eq_iff, ok, err, Error,
}
use solidity_contracts.Base.Dict.{
  lookup, erase, IsDistinct, lookup-insert, lookup-erase, insert-IsDistinct, erase-IsDistinct,
}
use solidity_contracts.IgnoreMemory.Files.{Platform}
use solidity_contracts.IgnoreMemory.{
  World, initialize_if_needed, load, dump_to_file_if_needed, put, check_expiry, is_ignored, write,
  after, Outcome, set_expiry, with_memory,
}

-- What the expiry of a value says at the time `now`.
abbrev pub not_expired : ℕ → Option ℕ → Bool
not_expired now none = false
not_expired now (some t) = ltb now t

module _ (p : Platform) where
  open p use {Text}

  pub initialize_again :
      (w : World Text) → w.self.is_initialized ≡ true → initialize_if_needed p w ≡ (ok tt, w)
  unfolding initialize_if_needed
  initialize_again w h = rw h

  load_initializes :
      (dir : String) (w wi : World Text)
      → load p dir w ≡ (ok tt, wi)
      → wi.self.is_initialized ≡ true
  unfolding load
  load_initializes dir w wi h = ground arith

  pub initialize_initializes :
      (w wi : World Text) → initialize_if_needed p w ≡ (ok tt, wi) → wi.self.is_initialized ≡ true
  unfolding initialize_if_needed
  initialize_initializes w wi h = ground arith

  pub dump-eq-write :
      (w : World Text) → w.self.is_initialized ≡ true → dump_to_file_if_needed p w ≡ write p w
  unfolding dump_to_file_if_needed
  dump-eq-write w h = rw h

  pub write-keeps : (w : World Text) → ((write p w).0 ≡ ok tt) × ((write p w).1.self ≡ w.self)
  write-keeps w = ground arith

  check_expiry-eq-not_expired :
      (now : ℕ) (k : String) (w : World Text)
      → w.self.is_initialized ≡ true
      → (check_expiry p now k w).0 ≡ ok (not_expired now (lookup k w.self.memory))
  unfolding check_expiry
  check_expiry-eq-not_expired now k w h = ground arith

  -- What `isIgnored` answers, once the object is initialized.
  pub is_ignored-eq-not_expired :
      (now : ℕ) (k : String) (w wi : World Text)
      → initialize_if_needed p w ≡ (ok tt, wi)
      → (is_ignored p now k w).0 ≡ ok (not_expired now (lookup k wi.self.memory))
  unfolding is_ignored
  is_ignored-eq-not_expired now k w wi h =
      rw h (check_expiry-eq-not_expired now k wi (initialize_initializes w wi h))

  pub put-eq-write :
      (now : ℕ) (v : String) (w wi : World Text)
      → initialize_if_needed p w ≡ (ok tt, wi)
      → put p now v w ≡ write p (set_expiry p now v wi)
  unfolding put
  put-eq-write now v w wi h =
      rw h (dump-eq-write (set_expiry p now v wi) (initialize_initializes w wi h))

  after_ok :
      {B : Type 0} (m : Outcome p (Unit {0})) (k : World Text → Outcome p B) {b : B}
      → (after p m k).0 ≡ ok b
      → m ≡ (ok tt, m.1)
  after_ok (ok _, w) k h = refl
  after_ok (err e, w) k h = cc

  after_err :
      {B : Type 0} (m : Outcome p (Unit {0})) (k : World Text → Outcome p B) {e : Error}
      → m.0 ≡ err e
      → after p m k ≡ (err e, m.1)
  after_err (ok _, w) k h = cc
  after_err (err x, w) k h = cc

  -- Where the initialization throws, the methods throw the same and do nothing more.
  pub initialize_throws :
      (now : ℕ) (u : String) (w : World Text) {e : Error}
      → (initialize_if_needed p w).0 ≡ err e
      → (is_ignored p now u w ≡ (err e, (initialize_if_needed p w).1))
        × (put p now u w ≡ (err e, (initialize_if_needed p w).1))
  unfolding is_ignored put
  initialize_throws now u w h =
      (after_err (initialize_if_needed p w) _ h, after_err (initialize_if_needed p w) _ h)

  pub is_ignored_again :
      (now : ℕ) (k : String) (w : World Text)
      → w.self.is_initialized ≡ true
      → is_ignored p now k w ≡ check_expiry p now k w
  unfolding is_ignored
  is_ignored_again now k w h = rw (initialize_again w h)

  put_initializes :
      (now : ℕ) (v : String) (w : World Text)
      → (put p now v w).0 ≡ ok tt
      → initialize_if_needed p w ≡ (ok tt, (initialize_if_needed p w).1)
  unfolding put
  put_initializes now v w h = after_ok (initialize_if_needed p w) _ h

  -- After a `put` that goes through, the value is ignored until the duration has passed, whatever it
  -- was before, and for every other value `isIgnored` answers as if there had been no `put`.
  pub put-is_ignored :
      (now later : ℕ) (v u : String) (w : World Text)
      → (put p now v w).0 ≡ ok tt
      → let w' = (put p now v w).1 in
        (is_ignored p later u w').0 ≡ (
          if str_eq v u
          then ok (ltb later (now + w'.self.ignore_duration))
          else (is_ignored p later u w).0)
  put-is_ignored now later v u w h =
      let wi = (initialize_if_needed p w).1 in
      let i = put_initializes now v w h in
      let s = set_expiry p now v wi in
      let kept = (write-keeps s).1 in
      let again =
        initialize_again (write p s).1
          (ap (λ x. x.is_initialized) kept ∙ initialize_initializes w wi i) in
      rw (put-eq-write now v w wi i) (
        ground (
          arith,
          kept,
          is_ignored-eq-not_expired later u (write p s).1 (write p s).1 again,
          is_ignored-eq-not_expired later u w wi i,
          lookup-insert v u (now + wi.self.ignore_duration) wi.self.memory,
        ))

  -- The objects in use: initialized, and with no key twice.
  abbrev pub IsValid : World Text → Type 0
  IsValid w = (w.self.is_initialized ≡ true) × IsDistinct w.self.memory

  pub put-IsValid : (now : ℕ) (v : String) (w : World Text) → IsValid w → IsValid (put p now v w).1
  put-IsValid now v w h =
      let s = set_expiry p now v w in
      rw (put-eq-write now v w w (initialize_again w h.0), (write-keeps s).1)
        (h.0, insert-IsDistinct v (now + w.self.ignore_duration) w.self.memory h.1)

  -- After `check_expiry` at `now`, what is not expired later is what was not expired later before.
  pub check_expiry_stable :
      (now later : ℕ) (u k : String) (w : World Text)
      → now ≤ later
      → IsValid w
      → let w' = (check_expiry p now u w).1 in
        IsValid w'
        × (not_expired later (lookup k w'.self.memory) ≡ not_expired later (lookup k w.self.memory))
  unfolding check_expiry
  check_expiry_stable now later u k w l h =
      let s = with_memory p (erase u w.self.memory) w in
      ground (
        arith,
        dump-eq-write s h.0,
        write-keeps s,
        lookup-erase u k w.self.memory h.1,
        erase-IsDistinct u w.self.memory h.1,
        str_eq_iff u k,
      )

  -- On an initialized object, asking about one value changes no later answer about any value.
  pub is_ignored_stable :
      (now later : ℕ) (u k : String) (w : World Text)
      → now ≤ later
      → IsValid w
      → let w' = (is_ignored p now u w).1 in
        IsValid w' × ((is_ignored p later k w').0 ≡ (is_ignored p later k w).0)
  is_ignored_stable now later u k w l h =
      let c = check_expiry p now u w in
      let (valid, same) = check_expiry_stable now later u k w l h in
      rw (is_ignored_again now u w h.0) (
        valid,
        is_ignored-eq-not_expired later k c.1 c.1 (initialize_again c.1 valid.0)
            ∙ ap ok same
            ∙ sym (is_ignored-eq-not_expired later k w w (initialize_again w h.0)),
      )
