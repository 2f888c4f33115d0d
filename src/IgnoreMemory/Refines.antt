-- ===== src/IgnoreMemory/Refines.antt =====
-- The ignore memory against its abstract view: for every value, the time until which it is ignored. The
-- view has no files and forgets nothing.
use mathlib.Core.Path.{subst}
use solidity_contracts.Base.{
  ℕ, ◌+◌, ◌≤◌, ◌≡◌, refl, sym, ap, ◌∙◌, Bool, true, false, List, [], ◌∷◌, Option, none, some,
  String, arith, ltb, if◌then◌else◌, str_eq, Result, ok, ◌>>=◌,
}
use solidity_contracts.Base.Dict.{lookup, erase, IsDistinct, lookup-insert}
use solidity_contracts.IgnoreMemory.Files.{Platform}
use solidity_contracts.IgnoreMemory.{
  World, initialize_if_needed, put, is_ignored, check_expiry, set_expiry, with_memory,
}
use solidity_contracts.IgnoreMemory.Expiry.{
  not_expired, initialize_again, initialize_initializes, write-keeps, dump-eq-write,
  is_ignored-eq-not_expired, put-eq-write, IsValid, put-IsValid, check_expiry_stable,
  is_ignored_again,
}

-- A call of a method.
pub data Call : Type 0 where
  add ask : String → Call

-- The calls with their times, which do not go back.
abbrev pub IsOrdered : ℕ → List (ℕ × Call) → Type 0
IsOrdered now [] = Unit
IsOrdered now ((time, call) ∷ calls) = (now ≤ time) × IsOrdered time calls

-- The time until which each value is ignored.
abbrev pub Expiries : Type 0
Expiries = String → ℕ

abbrev pub with_expiry : String → ℕ → Expiries → Expiries
with_expiry value time m = λ k. if str_eq value k then time else m k

-- The answers of the calls by the view, for a duration.
unfoldable pub view_answers : ℕ → Expiries → List (ℕ × Call) → List Bool
view_answers duration m [] = []
view_answers duration m ((time, Call.add value) ∷ calls) =
    view_answers duration (with_expiry value (time + duration) m) calls
view_answers duration m ((time, Call.ask value) ∷ calls) =
    ltb time (m value) ∷ view_answers duration m calls

module _ (p : Platform) where
  open p use {Text}

  -- The answers of the calls by the object, up to the first that throws.
  unfoldable pub answers : World Text → List (ℕ × Call) → Result (List Bool)
  unfolding put is_ignored
  answers w [] = ok []
  answers w ((time, Call.add value) ∷ calls) =
      let done = put p time value w in let rest = answers done.1 calls in done.0 >>= λ _. rest
  answers w ((time, Call.ask value) ∷ calls) =
      let done = is_ignored p time value w in
      let rest = answers done.1 calls in done.0 >>= λ answer. rest >>= λ more. ok (answer ∷ more)

  abbrev pub expiry : Option ℕ → ℕ
  expiry none = 0
  expiry (some t) = t

  -- The view of an object.
  abbrev pub expiries : World Text → Expiries
  expiries w = λ k. expiry (lookup k w.self.memory)

  -- From `now` on, the object and the view agree.
  abbrev pub IsAbout : ℕ → World Text → Expiries → Type 0
  IsAbout now w m =
      IsValid p w
      × ((later : ℕ) (k : String)
          → now ≤ later
          → not_expired later (lookup k w.self.memory) ≡ ltb later (m k))

  expiries-IsAbout : (now : ℕ) (w : World Text) → IsValid p w → IsAbout now w (expiries w)
  expiries-IsAbout now w h = (h, λ later k l. read later (lookup k w.self.memory))
    where
      read : (later : ℕ) (m : Option ℕ) → not_expired later m ≡ ltb later (expiry m)
      read later none = ground arith
      read later (some t) = refl

  added :
      (a : Option ℕ) (b : ℕ) (c : Bool) (later time : ℕ)
      → not_expired later a ≡ ltb later b
      → not_expired later (if c then some time else a) ≡ ltb later (if c then time else b)
  added a b true later time h = refl
  added a b false later time h = h

  put-IsAbout :
      (now time : ℕ) (value : String) (w : World Text) (m : Expiries)
      → now ≤ time
      → IsAbout now w m
      → let done = put p time value w in
        (done.0 ≡ ok tt)
        × (done.1.self.ignore_duration ≡ w.self.ignore_duration)
        × IsAbout time done.1 (with_expiry value (time + w.self.ignore_duration) m)
  put-IsAbout now time value w m l (valid, same) =
      let s = set_expiry p time value w in
      let e = put-eq-write p time value w w (initialize_again p w valid.0) in
      let kept = write-keeps p s in
      let self = ap (λ r. r.1.self) e ∙ kept.1 in
      (
        ap (λ r. r.0) e ∙ kept.0,
        ap (λ x. x.ignore_duration) self,
        (
          put-IsValid p time value w valid,
          λ later k l'.
              ap (λ x. not_expired later (lookup k x.memory)) self
              ∙ ap (not_expired later)
                  (lookup-insert value k (time + w.self.ignore_duration) w.self.memory)
              ∙ added (lookup k w.self.memory) (m k) (str_eq value k) later
                  (time + w.self.ignore_duration) (same later k (omega arith)),
        ),
      )

  check_expiry_duration :
      (now : ℕ) (k : String) (w : World Text)
      → IsValid p w
      → (check_expiry p now k w).1.self.ignore_duration ≡ w.self.ignore_duration
  unfolding check_expiry
  check_expiry_duration now k w h =
      let s = with_memory p (erase k w.self.memory) w in
      ground (arith, dump-eq-write p s h.0, write-keeps p s)

  is_ignored_first :
      (now : ℕ) (k : String) (w : World Text)
      → IsValid p w
      → (check_expiry p now k w).0 ≡ ok (not_expired now (lookup k w.self.memory))
  is_ignored_first now k w h =
      ap (λ r. r.0) (sym (is_ignored_again p now k w h.0))
      ∙ is_ignored-eq-not_expired p now k w w (initialize_again p w h.0)

  is_ignored-IsAbout :
      (now time : ℕ) (value : String) (w : World Text) (m : Expiries)
      → now ≤ time
      → IsAbout now w m
      → let done = is_ignored p time value w in
        (done.0 ≡ ok (ltb time (m value)))
        × (done.1.self.ignore_duration ≡ w.self.ignore_duration)
        × IsAbout time done.1 m
  is_ignored-IsAbout now time value w m l (valid, same) =
      let e = is_ignored_again p time value w valid.0 in
      let (valid', same') = check_expiry_stable p time time value value w (omega arith) valid in
      (
        ap (λ r. r.0) e ∙ rw (is_ignored_first time value w valid) (ap ok (same time value l)),
        ap (λ r. r.1.self.ignore_duration) e ∙ check_expiry_duration time value w valid,
        (
          subst (λ r. IsValid p r.1) (sym e) valid',
          λ later k l'.
              ap (λ r. not_expired later (lookup k r.1.self.memory)) e
              ∙ (check_expiry_stable p time later value k w l' valid).1
              ∙ same later k (omega arith),
        ),
      )

  -- From an object and a view that agree, every sequence of calls has the answers of the view.
  answers-view_answers :
      (now : ℕ) (w : World Text) (m : Expiries) (calls : List (ℕ × Call))
      → IsOrdered now calls
      → IsAbout now w m
      → answers w calls ≡ ok (view_answers w.self.ignore_duration m calls)
  unfolding answers view_answers
  answers-view_answers now w m [] l h = refl
  answers-view_answers now w m ((time, Call.add value) ∷ calls) (l, ls) h =
      let (went, duration, h') = put-IsAbout now time value w m l h in
      rw
        (
          went,
          answers-view_answers time (put p time value w).1
              (with_expiry value (time + w.self.ignore_duration) m) calls ls h',
          duration,
        )
        refl
  answers-view_answers now w m ((time, Call.ask value) ∷ calls) (l, ls) h =
      let (answer, duration, h') = is_ignored-IsAbout now time value w m l h in
      rw (answer, answers-view_answers time (is_ignored p time value w).1 m calls ls h', duration)
        refl

  is_ignored_initialized :
      (now : ℕ) (k : String) (w wi : World Text)
      → initialize_if_needed p w ≡ (ok tt, wi)
      → is_ignored p now k w ≡ check_expiry p now k wi
  unfolding is_ignored
  is_ignored_initialized now k w wi h = rw h refl

  -- The initialization may be left to the first call.
  answers_initialized :
      (w wi : World Text) (calls : List (ℕ × Call))
      → initialize_if_needed p w ≡ (ok tt, wi)
      → answers w calls ≡ answers wi calls
  unfolding answers
  answers_initialized w wi [] h = refl
  answers_initialized w wi ((time, Call.add value) ∷ calls) h =
      let again = initialize_again p wi (initialize_initializes p w wi h) in
      rw (put-eq-write p time value w wi h, put-eq-write p time value wi wi again) refl
  answers_initialized w wi ((time, Call.ask value) ∷ calls) h =
      let again = initialize_again p wi (initialize_initializes p w wi h) in
      rw (is_ignored_initialized time value w wi h, is_ignored_initialized time value wi wi again)
        refl

  -- Where the initialization of an object does not throw, and what it reads has no key twice, the
  -- object answers every sequence of calls whose times do not go back without an exception, and as the
  -- view of what was read does.
  pub answers_lem :
      (now : ℕ) (w wi : World Text) (calls : List (ℕ × Call))
      → initialize_if_needed p w ≡ (ok tt, wi)
      → IsDistinct wi.self.memory
      → IsOrdered now calls
      → answers w calls ≡ ok (view_answers wi.self.ignore_duration (expiries wi) calls)
  answers_lem now w wi calls h distinct l =
      answers_initialized w wi calls h
      ∙ answers-view_answers now wi (expiries wi) calls l
          (expiries-IsAbout now wi (initialize_initializes p w wi h, distinct))
