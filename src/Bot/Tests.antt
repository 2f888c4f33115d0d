-- ===== src/Bot/Tests.antt =====
-- The theorems about the bot at concrete batches.
use solidity_contracts.Base.{◌+◌, ◌≡◌, refl, List, [], ◌∷◌, some, String, ok, arith}
use solidity_contracts.Base.Int.{ℤ, pos}
use solidity_contracts.Chain.Samples.{whole}
use solidity_contracts.IgnoreMemory.{World}
use solidity_contracts.Bot.{
  Services, Attempt, Failure, UserStateLog, process_user, run_bot_batch, liquidatable_users,
}
use solidity_contracts.Bot.Selection.{selected, below, selected-eq-below, selected_shifted}
use solidity_contracts.Bot.Users.{IsProcessed, process_user_lem}
use solidity_contracts.Bot.Batch.{IsRun, run_bot_batch_lem}
use solidity_contracts.Bot.Samples.{Content, disk, bot, started, started-IsValid}

-- "0xa" is taken with the health factor of "0xf".
takes_the_wrong_user : selected disk whole bot (pos 1) ("0xa" ∷ "0xf" ∷ []) ≡ ("0xa", pos 0) ∷ []
unfolding liquidatable_users solidity_contracts.Bot.defined
takes_the_wrong_user = refl

selected-eq-below_example :
    selected disk whole bot (pos 1) ("0xf" ∷ "0xc" ∷ [])
    ≡ below disk whole bot (pos 1) ("0xf" ∷ "0xc" ∷ [])
selected-eq-below_example =
    selected-eq-below disk whole bot (pos 1) ("0xf" ∷ "0xc" ∷ [])
      ((pos 0, refl), ((pos 0, refl), tt))

selected_shifted_example :
    (rest : List (String × ℤ)) × (selected disk whole bot (pos 1) ("0xa" ∷ "0xf" ∷ [])
      ≡ ("0xa", pos 0) ∷ rest)
selected_shifted_example =
    selected_shifted disk whole bot (pos 1) (pos 0) "0xa" "0xf" [] refl refl refl

process_user_lem_example :
    IsProcessed disk whole bot 1000
      (pos 1)
      "0xf"
      started
      (process_user disk whole bot 1000 (pos 1) "0xf" (pos 0) started)
process_user_lem_example =
    process_user_lem disk whole bot 1000 (pos 1) "0xf" (pos 0) started started-IsValid

run_bot_batch_lem_example :
    (last : World Content) × (run_bot_batch disk whole bot 4
        (λ i. 1000 + i)
        ("0xa" ∷ "0xf" ∷ "0xc" ∷ [])
        2
        (pos 1)
        (pos 1)
        started
      ≡ some (ok tt, last))
    × IsRun disk whole bot
        (λ i. 1000 + i)
        0
        (pos 1)
        (selected disk whole bot (pos 1) ("0xa" ∷ "0xf" ∷ "0xc" ∷ []))
        started
        last
run_bot_batch_lem_example =
    run_bot_batch_lem disk whole bot 4 (λ i. 1000 + i) ("0xa" ∷ "0xf" ∷ "0xc" ∷ []) 2 (pos 1)
      (pos 1) started (omega arith) (omega arith) started-IsValid
