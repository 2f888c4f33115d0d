-- ===== src/IgnoreMemory/Tests.antt =====
-- A platform whose files hold the saved objects themselves, runs of the ignore memory on it, and the
-- theorems at concrete calls.
use solidity_contracts.Base.{ℕ, List, ◌≡◌, refl, true, false, [], ◌∷◌, some, arith, ok}
use solidity_contracts.IgnoreMemory.Files.{Platform, Parsed, Saved, IsFaithful}
use solidity_contracts.IgnoreMemory.{World, new, put, is_ignored, initialize_if_needed}
use solidity_contracts.IgnoreMemory.Expiry.{IsValid}
use solidity_contracts.IgnoreMemory.Refines.{
  Call, IsOrdered, view_answers, answers, expiries, answers_lem,
}
use solidity_contracts.IgnoreMemory.Restart.{restart, restart_remembers}

abbrev disk : Platform
disk = record {
  Text = Saved;
  dirname = λ path. "state";
  stringify = λ s. s;
  parse = λ s. Parsed.object (some s.ignore_duration) (some s.memory);
}

disk-IsFaithful : IsFaithful disk
disk-IsFaithful d h = (d.memory, refl, h, λ k. refl)

-- Three minutes, as the bots have it, and no file yet.
abbrev fresh : World Saved
unfolding new
fresh = record { self = new 180 (some "state"); fs = record { dirs = []; files = [] } }

abbrev started : World Saved
unfolding new
started = record {
  self = record (new 180 (some "state")) { is_initialized = true };
  fs = record { dirs = "state" ∷ []; files = [] };
}

started-IsValid : IsValid disk started
unfolding new
started-IsValid = (refl, tt)

ignores_for_three_minutes :
    let w = (put disk 1000 "0xa" fresh).1 in
    ((is_ignored disk 180999 "0xa" w).0 ≡ ok true)
    × ((is_ignored disk 181000 "0xa" w).0 ≡ ok false)
    × ((is_ignored disk 2000 "0xb" w).0 ≡ ok false)
unfolding new put is_ignored
ignores_for_three_minutes = (refl, refl, refl)

forgets_on_disk :
    let w = (is_ignored disk 181000 "0xa" (put disk 1000 "0xa" fresh).1).1 in
    w.fs.files ≡ ("state/ignoreMemory.json", record { ignore_duration = 180000; memory = [] }) ∷ []
unfolding new put is_ignored
forgets_on_disk = refl

restart_remembers_example :
    let w' = (put disk 1000 "0xa" started).1 in
    (is_ignored disk 2000 "0xa" (restart disk w'.self.ignore_duration w')).0
    ≡ (is_ignored disk 2000 "0xa" w').0
unfolding new
restart_remembers_example =
    restart_remembers disk 1000 2000 "state" "0xa" "0xa" started disk-IsFaithful started-IsValid
      refl

-- "0xa" is ignored, then no longer, then again.
abbrev calls : List (ℕ × Call)
calls =
    (1000, Call.add "0xa")
    ∷ (2000, Call.ask "0xb")
    ∷ (2000, Call.ask "0xa")
    ∷ (181000, Call.ask "0xa")
    ∷ (181000, Call.add "0xa")
    ∷ (190000, Call.ask "0xa")
    ∷ []

calls-IsOrdered : IsOrdered 0 calls
calls-IsOrdered =
    (omega arith, (omega arith, (omega arith, (omega arith, (omega arith, (omega arith, tt))))))

answered : answers disk fresh calls ≡ ok (false ∷ true ∷ false ∷ true ∷ [])
unfolding answers new
answered = refl

answers_lem_example :
    answers disk fresh calls ≡ ok (view_answers 180000 (expiries disk started) calls)
unfolding new initialize_if_needed
answers_lem_example = answers_lem disk 0 fresh started calls refl tt calls-IsOrdered
