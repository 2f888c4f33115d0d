-- ===== src/UniswapV3/Batch.antt =====
-- A batch of the bot for Uniswap V3.
use solidity_contracts.Base.{
  ℕ, ◌<◌, ◌≡◌, refl, sym, ap, ◌∙◌, inl, inr, List, [], ◌∷◌, ◌++◌, some, String, length, ◌==◌, ok,
  err, Error, arith, Bool-cases, traverse, All,
}
use solidity_contracts.Batches.Process.{batch_processing-traverse}
use solidity_contracts.Chain.{Number}
use solidity_contracts.IgnoreMemory.Files.{Platform}
use solidity_contracts.IgnoreMemory.{World}
use solidity_contracts.IgnoreMemory.Expiry.{IsValid}
use solidity_contracts.Bot.{Services, liquidatable_users}
use solidity_contracts.Bot.Selection.{below, IsRead}
use solidity_contracts.Bot.Batch.{IsRun, process_users_lem, none_selected}
use solidity_contracts.UniswapV3.{with_health_factors, run_uniswap_v3_batch}

module _ (p : Platform) (n : Number) (s : Services p n) where
  open p use {Text}
  open n use {Num, lt}

  read_together :
      (threshold : Num) (users : List String)
      → All (IsRead p n s) users
      → (hs : List Num) × (traverse s.get_user_health_factor users ≡ ok hs)
        × (liquidatable_users p n s threshold users hs ≡ below p n s threshold users)
  unfolding liquidatable_users below
  read_together threshold [] h = ([], refl, refl)
  read_together threshold (u ∷ users) ((x, read), rest) =
      let (hs, all, same) = read_together threshold users rest in
      (x ∷ hs, rw (read, all) refl, ground (arith, read, same))

  -- With a positive batch size, enough fuel and an initialized memory, a batch in which every health
  -- factor can be read ends without a throw, and exactly the users whose own health factor is below
  -- the threshold have been processed, one after the other.
  pub run_uniswap_v3_batch-IsRun :
      (fuel : ℕ) (clock : ℕ → ℕ) (users : List String) (batch_size : ℕ)
      (threshold profitable_threshold : Num) (w : World Text)
      → 0 < batch_size
      → length users < fuel
      → IsValid p w
      → All (IsRead p n s) users
      → (last : World Text) × (run_uniswap_v3_batch p n s fuel clock users batch_size threshold
            profitable_threshold w
          ≡ some (ok tt, last))
        × IsRun p n s clock 0 profitable_threshold (below p n s threshold users) w last
  unfolding run_uniswap_v3_batch
  run_uniswap_v3_batch-IsRun fuel clock users batch_size threshold profitable_threshold w b l h
        read =
      let (hs, all, same) = read_together threshold users read in
      let fetched = ap (with_health_factors p n s clock threshold profitable_threshold users w) (
        batch_processing-traverse users batch_size fuel s.get_user_health_factor b l
        ∙ ap some all) in
      let (last, ran, run) =
        process_users_lem p n s clock 0 profitable_threshold (below p n s threshold users) w h in
      elim (Bool-cases (length hs == 0)) [
        | inl empty ↦
            let none_ = sym same ∙ none_selected p n s threshold users hs empty in
            (w, fetched ∙ rw empty refl, rw none_ refl)
        | inr some_ ↦ (last, fetched ∙ rw (some_, same) (ap some ran), run)
      ]

  traverse-stops :
      (before : List String) (user : String) (after_ : List String) (e : Error)
      → All (IsRead p n s) before
      → s.get_user_health_factor user ≡ err e
      → traverse s.get_user_health_factor (before ++ (user ∷ after_)) ≡ err e
  traverse-stops [] user after_ e h unread = rw unread refl
  traverse-stops (u ∷ before) user after_ e ((x, read), rest) unread =
      rw (read, traverse-stops before user after_ e rest unread) refl

  -- With a positive batch size and enough fuel, the first health factor that cannot be read ends the
  -- whole batch with its exception: no user is processed, those before it included, and nothing is
  -- saved or remembered.
  pub run_uniswap_v3_batch-err :
      (fuel : ℕ) (clock : ℕ → ℕ) (before : List String) (user : String) (after_ : List String)
      (batch_size : ℕ) (threshold profitable_threshold : Num) (w : World Text) (e : Error)
      → 0 < batch_size
      → length (before ++ (user ∷ after_)) < fuel
      → All (IsRead p n s) before
      → s.get_user_health_factor user ≡ err e
      → run_uniswap_v3_batch p n s fuel clock
          (before ++ (user ∷ after_))
          batch_size
          threshold
          profitable_threshold
          w
        ≡ some (err e, w)
  unfolding run_uniswap_v3_batch
  run_uniswap_v3_batch-err fuel clock before user after_ batch_size threshold profitable_threshold w
        e b l h unread =
      ap
        (with_health_factors p n s clock threshold profitable_threshold (before ++ (user ∷ after_))
          w)
        (batch_processing-traverse (before ++ (user ∷ after_)) batch_size fuel
            s.get_user_health_factor b l
          ∙ ap some (traverse-stops before user after_ e h unread))
