-- ===== src/Bot/Users.antt =====
-- What becomes of a user that is taken for liquidation.
use mathlib.Core.Path.{subst}
use solidity_contracts.Base.{
  ℕ, ◌+◌, ◌≡◌, refl, sym, ap, ◌∙◌, ◌⊎◌, inl, inr, Bool, true, false, Option, none, some, String,
  str_eq_refl, Result, ok, err, if◌then◌else◌, Bool-cases,
}
use solidity_contracts.Base.Int.{is_zero}
use solidity_contracts.Base.Dict.{lookup, lookup-insert}
use solidity_contracts.Chain.{Number}
use solidity_contracts.Markets.{LiquidationParams}
use solidity_contracts.IgnoreMemory.Files.{Platform, save_to_file}
use solidity_contracts.IgnoreMemory.{World, Outcome, put, set_expiry, write, after}
use solidity_contracts.IgnoreMemory.Expiry.{
  IsValid, put-IsValid, put-eq-write, write-keeps, initialize_again,
}
use solidity_contracts.Bot.{
  Services, Attempt, Failure, UserStateLog, Tried, behind_attempt, behind_profit, behind_params,
  try_user, finish_user, process_user, user_state_path, behind_put, put_and, save_state, caught,
}

module _ (p : Platform) (n : Number) (s : Services p n) where
  open p use {Text}
  open n use {Num, ge}

  pair_eta : (o : Outcome p (Unit {0})) → o.0 ≡ ok tt → o ≡ (ok tt, o.1)
  pair_eta (ok _, w) h = refl
  pair_eta (err e, w) h = cc

  then_some : {t : Bool} {x : ℕ} (o : Option ℕ) → t ≡ true → (if t then some x else o) ≡ some x
  then_some {x} o h = ap (λ b. if b then some x else o) h

  then_text :
      {t : Bool} {x : Text} (o : Option Text) → t ≡ true → (if t then some x else o) ≡ some x
  then_text {x} o h = ap (λ b. if b then some x else o) h

  -- An initialized memory takes a value without a throw, and keeps it with its expiry.
  put_works :
      (now : ℕ) (user : String) (w : World Text)
      → IsValid p w
      → (put p now user w ≡ (ok tt, (put p now user w).1))
        × (lookup user (put p now user w).1.self.memory ≡ some (now + w.self.ignore_duration))
        × ((put p now user w).1.self.ignore_duration ≡ w.self.ignore_duration)
  put_works now user w h =
      let x = set_expiry p now user w in
      let kept = write-keeps p x in
      rw (put-eq-write p now user w w (initialize_again p w h.0), kept.1)
        (
          pair_eta (write p x) kept.0,
          lookup-insert user user (now + w.self.ignore_duration) w.self.memory
              ∙ then_some _ (str_eq_refl user),
          refl,
        )

  -- The user was liquidated: there is an amount to liquidate, at a profit from the threshold up, and
  -- the transaction went through.
  abbrev pub IsLiquidated : Num → String → Type 0
  IsLiquidated profitable_threshold user =
      (params : LiquidationParams) × (profit : Num) × (hash : String)
      × (s.get_user_liquidation_params user ≡ ok params)
      × (is_zero params.to_liquidate_amount ≡ false)
      × (s.get_liquidation_profit_in_usd params.debt_token.reserve_token_info
            params.debt_token.price_in_usd params.debt_token.price_decimals
            params.to_liquidate_amount
          ≡ ok profit)
      × (ge profit profitable_threshold ≡ true)
      × (s.perform_odos_liquidation params ≡ Attempt.done hash)

  -- The world is as good as the one before, `before`, and the user is liquidated, or ignored from `now`.
  abbrev pub IsSettled : ℕ → Num → String → World Text → UserStateLog Num → World Text → Type 0
  IsSettled now threshold user before state w =
      IsValid p w
      × (w.self.ignore_duration ≡ before.self.ignore_duration)
      × (((state.success ≡ true) × IsLiquidated threshold user)
          ⊎ ((state.success ≡ false)
              × (lookup user w.self.memory ≡ some (now + before.self.ignore_duration))))

  -- The same at the end of the `try` block; what was thrown is dealt with behind it.
  IsTried : ℕ → Num → String → World Text → Tried p n s → Type 0
  IsTried now threshold user before (none, state, w) = IsSettled now threshold user before state w
  IsTried now threshold user before (some f, state, w) =
      IsValid p w × (w.self.ignore_duration ≡ before.self.ignore_duration)

  put_and-IsTried :
      (now : ℕ) (threshold : Num) (user : String) (before later : UserStateLog Num) (w : World Text)
      → IsValid p w
      → later.success ≡ false
      → IsTried now threshold user w (put_and p n s now user before later w)
  unfolding IsTried
  put_and-IsTried now threshold user before later w h e =
      let (works, kept, same) = put_works now user w h in
      subst (λ o. IsTried now threshold user w (behind_put p n s before later o)) (sym works)
        (put-IsValid p now user w h, same, inr (e, kept))

  behind_attempt-IsTried :
      (now : ℕ) (threshold profit : Num) (user : String) (params : LiquidationParams)
      (state : UserStateLog Num) (w : World Text) (a : Attempt)
      → IsValid p w
      → (a ≡ s.perform_odos_liquidation params)
      → ((hash : String)
          → s.perform_odos_liquidation params ≡ Attempt.done hash
          → IsLiquidated threshold user)
      → IsTried now threshold user w (behind_attempt p n s state w a)
  unfolding IsTried
  behind_attempt-IsTried now threshold profit user params state w (Attempt.done hash) h e k =
      (h, refl, inl (refl, k hash (sym e)))
  behind_attempt-IsTried now threshold profit user params state w (Attempt.failed f) h e k =
      (h, refl)

  behind_profit-IsTried :
      (now : ℕ) (threshold : Num) (user : String) (params : LiquidationParams)
      (state : UserStateLog Num) (w : World Text) (r : Result Num)
      → IsValid p w
      → s.get_user_liquidation_params user ≡ ok params
      → is_zero params.to_liquidate_amount ≡ false
      → (s.get_liquidation_profit_in_usd params.debt_token.reserve_token_info
            params.debt_token.price_in_usd params.debt_token.price_decimals
            params.to_liquidate_amount
          ≡ r)
      → IsTried now threshold user w (behind_profit p n s now threshold user params state w r)
  unfolding IsTried behind_profit
  behind_profit-IsTried now threshold user params state w (err e) h g z r = (h, refl)
  behind_profit-IsTried now threshold user params state w (ok profit) h g z r =
      elim (Bool-cases (ge profit threshold)) [
        | inl t ↦
            let done =
              behind_attempt-IsTried now threshold profit user params _ w
                (s.perform_odos_liquidation params) h refl
                (λ hash e. (params, profit, hash, g, z, r, t, e)) in
            rw t done
        | inr t ↦ rw t (put_and-IsTried now threshold user _ _ w h refl)
      ]

  behind_params-IsTried :
      (now : ℕ) (threshold : Num) (user : String) (state : UserStateLog Num) (w : World Text)
      (r : Result LiquidationParams)
      → IsValid p w
      → s.get_user_liquidation_params user ≡ r
      → IsTried now threshold user w (behind_params p n s now threshold user state w r)
  unfolding IsTried behind_params
  behind_params-IsTried now threshold user state w (err e) h g = (h, refl)
  behind_params-IsTried now threshold user state w (ok params) h g =
      elim (Bool-cases (is_zero params.to_liquidate_amount)) [
        | inl z ↦ rw z (put_and-IsTried now threshold user _ _ w h refl)
        | inr z ↦ rw z (behind_profit-IsTried now threshold user params _ w _ h g z refl)
      ]

  try_user-IsTried :
      (now : ℕ) (threshold : Num) (user : String) (hf : Num) (w : World Text)
      → IsValid p w
      → IsTried now threshold user w (try_user p n s now threshold user hf w)
  unfolding try_user
  try_user-IsTried now threshold user hf w h =
      behind_params-IsTried now threshold user _ w (s.get_user_liquidation_params user) h refl

  -- The user's state is in its file.
  abbrev pub IsRecorded : String → UserStateLog Num → World Text → Type 0
  IsRecorded user state w =
      lookup (user_state_path p n s user) w.fs.files ≡ some (s.stringify_state state)

  save_state-IsRecorded :
      (user : String) (state : UserStateLog Num) (w : World Text)
      → IsRecorded user state (save_state p n s user state w).1
  unfolding save_to_file
  save_state-IsRecorded user state w =
      lookup-insert (user_state_path p n s user) (user_state_path p n s user)
        (s.stringify_state state) _
      ∙ then_text _ (str_eq_refl (user_state_path p n s user))

  -- What `process_user` leaves behind.
  abbrev pub IsProcessed : ℕ → Num → String → World Text → Outcome p (Unit {0}) → Type 0
  IsProcessed now threshold user before r =
      (state : UserStateLog Num) × (r.0 ≡ ok tt)
      × IsSettled now threshold user before state r.1
      × IsRecorded user state r.1

  finish_user-IsProcessed :
      (now : ℕ) (threshold : Num) (user : String) (before : World Text) (t : Tried p n s)
      → IsTried now threshold user before t
      → IsProcessed now threshold user before (finish_user p n s now user t)
  unfolding IsTried
  finish_user-IsProcessed now threshold user before (none, state, w) h =
      (state, refl, h, save_state-IsRecorded user state w)
  finish_user-IsProcessed now threshold user before (some f, state, w) (h, same) =
      let (works, kept, same') = put_works now user w h in
      let w' = (put p now user w).1 in
      let late : IsSettled now threshold user before (caught p n s f state) w' = (
        put-IsValid p now user w h,
        same' ∙ same,
        inr (failed f state, kept ∙ ap (λ d. some (now + d)) same),
      ) in
      subst
        (λ o.
          IsProcessed now threshold user before
            (after p o (save_state p n s user (caught p n s f state))))
        (sym works)
        (caught p n s f state, refl, late, save_state-IsRecorded user (caught p n s f state) w')
    where
      failed : (f : Failure) (state : UserStateLog Num) → (caught p n s f state).success ≡ false
      failed (Failure.not_profitable a b) state = refl
      failed (Failure.other e) state = refl

  -- With an initialized memory, processing a user goes through whatever the calls throw. The user is
  -- liquidated then, at a profit from the threshold up and with success in the state, or without
  -- success in the state and ignored for the duration of the memory. The state is in the user's
  -- file.
  pub process_user_lem :
      (now : ℕ) (threshold : Num) (user : String) (health_factor : Num) (w : World Text)
      → IsValid p w
      → IsProcessed now threshold user w (process_user p n s now threshold user health_factor w)
  unfolding process_user
  process_user_lem now threshold user hf w h =
      finish_user-IsProcessed now threshold user w (try_user p n s now threshold user hf w)
        (try_user-IsTried now threshold user hf w h)
