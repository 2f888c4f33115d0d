-- ===== src/IgnoreMemory.antt =====
-- The memory of users that the liquidator bots leave alone for a while: `ShortTermIgnoreMemory` of
-- utils/utils.ts, with the file that keeps it across restarts (IgnoreMemory/Files). A method takes
-- the object and the files and returns them with its result; what was changed before a throw stays
-- changed. `Date.now()` is an argument of the methods that read it.
pub mod Files
pub mod Expiry
pub mod Restart
pub mod Refines
mod Tests
use Prim.Native.String.{◌++◌}
use solidity_contracts.Base.{
  ℕ, zero, suc, ◌+◌, ◌*◌, Bool, true, false, not, [], Option, none, some, String, ltb, ◌==◌,
  if◌then◌else◌, Result, ok, err, external, invalid_json, duration_mismatch, invalid_memory, Error,
  str_eq,
}
use solidity_contracts.Base.Dict.{Dict, lookup, insert, erase}
use Files.{Platform, Parsed, Saved, Fs, exists_sync, ensure_dir, save_to_file}

pub record IgnoreMemory : Type 0 where
  pub memory : Dict ℕ
  pub ignore_duration : ℕ
  pub state_dir_path : Option String
  pub is_initialized : Bool

-- The object and the files around it.
pub record World (Text : Type 0) : Type 0 where
  pub self : IgnoreMemory
  pub fs : Fs Text

-- The constructor; the duration in seconds is kept in milliseconds.
unfoldable pub new : ℕ → Option String → IgnoreMemory
new ignore_duration_in_seconds state_dir_path = record {
  memory = [];
  ignore_duration = ignore_duration_in_seconds * 1000;
  state_dir_path = state_dir_path;
  is_initialized = false;
}

abbrev pub memory_file_path : String → String
memory_file_path dir = dir ++ "/ignoreMemory.json"

-- The directory path if it is truthy: the empty text is not.
abbrev pub truthy_path : Option String → Option String
truthy_path none = none
truthy_path (some dir) = if str_eq dir "" then none else some dir

module _ (p : Platform) where
  open p use {Text, dirname, stringify, parse}

  -- What a method leaves behind: its result or exception, and the object and files.
  abbrev pub Outcome : Type 0 → Type 0
  Outcome A = Result A × World Text

  -- `k` on what a call left behind, unless the call threw.
  abbrev pub after : {A B : Type 0} → Outcome A → (World Text → Outcome B) → Outcome B
  after (ok _, w) k = k w
  after (Result.err e, w) k = (err e, w)

  -- The object that was read, or the exception for what is wrong with it.
  unfoldable pub check_saved : ℕ → Parsed → Result Saved
  check_saved duration Parsed.invalid = err (external "JSON.parse")
  check_saved duration Parsed.falsy = err invalid_json
  check_saved duration (Parsed.object none m) = err duration_mismatch
  check_saved duration (Parsed.object (some d) none) =
      if d == duration then err invalid_memory else err duration_mismatch
  check_saved duration (Parsed.object (some d) (some m)) =
      if d == duration
      then ok (record { ignore_duration = d; memory = m })
      else err duration_mismatch

  abbrev initialized : IgnoreMemory → IgnoreMemory
  initialized self = record self { is_initialized = true }

  -- The part of `initializeIfNeeded` for a directory that is set.
  unfoldable pub load : String → World Text → Outcome (Unit {0})
  unfolding check_saved ensure_dir lookup
  load dir w =
      let fs = ensure_dir dir w.fs in
      elim (lookup (memory_file_path dir) fs.files) [
        | none ↦ (ok tt, record { self = initialized w.self; fs = fs })
        | some text ↦ elim (check_saved w.self.ignore_duration (parse text)) [
          | Result.err e ↦ (err e, record w { fs = fs })
          | Result.ok s ↦ (
            ok tt,
            record {
              self = record w.self {
                memory = s.memory;
                ignore_duration = s.ignore_duration;
                is_initialized = true;
              };
              fs = fs;
            },
          )
        ]
      ]

  unfoldable pub initialize_if_needed : World Text → Outcome (Unit {0})
  unfolding load
  initialize_if_needed w =
      if w.self.is_initialized then (ok tt, w) else elim (truthy_path w.self.state_dir_path) [
        | none ↦ (ok tt, record w { self = initialized w.self })
        | some dir ↦ load dir w
      ]

  abbrev pub write : World Text → Outcome (Unit {0})
  write w = elim (truthy_path w.self.state_dir_path) [
    | none ↦ (ok tt, w)
    | some dir ↦
        let saved : Saved = record {
          ignore_duration = w.self.ignore_duration;
          memory = w.self.memory;
        } in
        (
          ok tt,
          record w { fs = save_to_file dirname (memory_file_path dir) (stringify saved) w.fs },
        )
  ]

  unfoldable pub dump_to_file_if_needed : World Text → Outcome (Unit {0})
  unfolding initialize_if_needed save_to_file
  dump_to_file_if_needed w = after (initialize_if_needed w) write

  abbrev pub with_memory : Dict ℕ → World Text → World Text
  with_memory memory w = record w { self = record w.self { memory = memory } }

  abbrev pub set_expiry : ℕ → String → World Text → World Text
  set_expiry now value w = with_memory (insert value (now + w.self.ignore_duration) w.self.memory) w

  -- `put(value)` at the time `now`.
  unfoldable pub put : ℕ → String → World Text → Outcome (Unit {0})
  unfolding initialize_if_needed dump_to_file_if_needed insert
  put now value w =
      after (initialize_if_needed w) (λ w'. dump_to_file_if_needed (set_expiry now value w'))

  -- The body of `isIgnored` behind the initialization; `undefined` and 0 are both falsy.
  unfoldable pub check_expiry : ℕ → String → World Text → Outcome Bool
  unfolding lookup erase dump_to_file_if_needed
  check_expiry now value w = elim (lookup value w.self.memory) [
    | none ↦ (ok false, w)
    | some zero ↦ (ok false, w)
    | some (suc t) ↦
        if ltb now (suc t)
        then (ok true, w)
        else after (dump_to_file_if_needed (with_memory (erase value w.self.memory) w))
            (λ w'. (ok false, w'))
  ]

  -- `isIgnored(value)` at the time `now`.
  unfoldable pub is_ignored : ℕ → String → World Text → Outcome Bool
  unfolding initialize_if_needed check_expiry
  is_ignored now value w = after (initialize_if_needed w) (check_expiry now value)
