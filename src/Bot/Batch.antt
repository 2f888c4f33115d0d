-- ===== src/Bot/Batch.antt =====
-- A whole batch of the bot.
use mathlib.Core.Path.{subst}
use solidity_contracts.Base.{
  ℕ, ◌+◌, ◌<◌, ◌≡◌, refl, sym, ap, ◌∙◌, inl, inr, true, List, [], ◌∷◌, map, Option, some, String,
  length, ◌==◌, ok, err, arith, Bool-cases, traverse,
}
use solidity_contracts.Batches.Process.{batch_processing-traverse}
use solidity_contracts.Chain.{Number}
use solidity_contracts.IgnoreMemory.Files.{Platform}
use solidity_contracts.IgnoreMemory.{World, Outcome, after}
use solidity_contracts.IgnoreMemory.Expiry.{IsValid}
use solidity_contracts.Bot.{
  Services, fetch_health_factor, defined, liquidatable_users, process_user, process_users,
  run_bot_batch, with_raw,
}
use solidity_contracts.Bot.Selection.{selected}
use solidity_contracts.Bot.Users.{IsProcessed, process_user_lem}

module _ (p : Platform) (n : Number) (s : Services p n) where
  open p use {Text}
  open n use {Num}

  -- Every user of the list is processed, one after the other.
  abbrev pub IsRun : (ℕ → ℕ) → ℕ → Num → List (String × Num) → World Text → World Text → Type 0
  IsRun clock i threshold [] w last = w ≡ last
  IsRun clock i threshold ((user, h) ∷ users) w last =
      (next : World Text) × IsProcessed p n s (clock i) threshold user w (ok tt, next)
      × IsRun clock (i + 1) threshold users next last

  IsProcessed-pair :
      (now : ℕ) (threshold : Num) (user : String) (w : World Text) (o : Outcome p (Unit {0}))
      → IsProcessed p n s now threshold user w o
      → (o ≡ (ok tt, o.1)) × IsProcessed p n s now threshold user w (ok tt, o.1)
  IsProcessed-pair now threshold user before (ok _, w) (state, _, settled, recorded) =
      (refl, (state, refl, settled, recorded))
  IsProcessed-pair now threshold user before (err e, w) (state, h, settled, recorded) = cc

  pub process_users_lem :
      (clock : ℕ → ℕ) (i : ℕ) (threshold : Num) (users : List (String × Num)) (w : World Text)
      → IsValid p w
      → (last : World Text) × (process_users p n s clock i threshold users w ≡ (ok tt, last))
        × IsRun clock i threshold users w last
  unfolding process_users
  process_users_lem clock i threshold [] w h = (w, refl, refl)
  process_users_lem clock i threshold ((user, hf) ∷ users) w h =
      let o = process_user p n s (clock i) threshold user hf w in
      let (same, one) =
        IsProcessed-pair (clock i) threshold user w o
          (process_user_lem p n s (clock i) threshold user hf w h) in
      let (last, rest, run) = process_users_lem clock (i + 1) threshold users o.1 one.2.0 in
      (
        last,
        ap (λ r. after p r (process_users p n s clock (i + 1) threshold users)) same ∙ rest,
        (o.1, one, run),
      )

  traverse-map :
      (f : String → Option Num) (users : List String)
      → traverse (λ u. ok (f u)) users ≡ ok (map f users)
  traverse-map f [] = refl
  traverse-map f (u ∷ users) = rw (traverse-map f users) refl

  pub none_selected :
      (threshold : Num) (users : List String) (hs : List Num)
      → (length hs == 0) ≡ true
      → liquidatable_users p n s threshold users hs ≡ []
  unfolding liquidatable_users
  none_selected threshold [] hs h = refl
  none_selected threshold (u ∷ users) [] h = refl
  none_selected threshold (u ∷ users) (x ∷ hs) h = absurd (ground arith)

  -- With a positive batch size, enough fuel and an initialized memory, a batch ends without a throw,
  -- whatever the calls for its users throw, and every user that was selected has been processed, one
  -- after the other: liquidated, or put on the ignore list, with its state in its file.
  pub run_bot_batch_lem :
      (fuel : ℕ) (clock : ℕ → ℕ) (users : List String) (batch_size : ℕ)
      (threshold profitable_threshold : Num) (w : World Text)
      → 0 < batch_size
      → length users < fuel
      → IsValid p w
      → (last : World Text) × (run_bot_batch p n s fuel clock users batch_size threshold
            profitable_threshold w
          ≡ some (ok tt, last))
        × IsRun clock 0 profitable_threshold (selected p n s threshold users) w last
  unfolding run_bot_batch
  run_bot_batch_lem fuel clock users batch_size threshold profitable_threshold w b l h =
      let fetch = fetch_health_factor p n s in
      let raw =
        batch_processing-traverse users batch_size fuel (λ u. ok (fetch u)) b l
        ∙ ap some (traverse-map fetch users) in
      let hs = defined p n s (map fetch users) in
      let (last, ran, run) =
        process_users_lem clock 0 profitable_threshold (selected p n s threshold users) w h in
      elim (Bool-cases (length hs == 0)) [
        | inl empty ↦
            let none_ = none_selected threshold users hs empty in
            (
              w,
              ap (with_raw p n s clock threshold profitable_threshold users w) raw ∙ rw empty refl,
              subst (λ us. IsRun clock 0 profitable_threshold us w w) (sym none_) refl,
            )
        | inr some_ ↦ (
          last,
          ap (with_raw p n s clock threshold profitable_threshold users w) raw
              ∙ rw some_ (ap some ran),
          run,
        )
      ]
