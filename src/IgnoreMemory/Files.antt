-- ===== src/IgnoreMemory/Files.antt =====
-- The files that the code keeps its state in: `saveToFile` of utils/utils.ts, and what it calls of
-- the platform. The contents of a file are an abstract type, with `JSON.stringify` and `JSON.parse`
-- of what the ignore memory writes as parameters.
use solidity_contracts.Base.{
  ℕ, ◌≡◌, Bool, true, false, ◌||◌, List, ◌∷◌, Option, none, some, String, arith, if◌then◌else◌,
}
use solidity_contracts.Base.Dict.{Dict, contains, lookup, insert, IsDistinct}

-- The object that `dumpToFileIfNeeded` writes.
pub record Saved : Type 0 where
  pub ignore_duration : ℕ
  pub memory : Dict ℕ

-- What `JSON.parse` makes of a text: it throws, or gives `null` or another falsy value, or an object
-- with the two fields, each of which may be missing.
pub data Parsed : Type 0 where
  invalid falsy : Parsed
  object : Option ℕ → Option (Dict ℕ) → Parsed

pub record Platform : Type 1 where
  pub Text : Type 0
  pub dirname : String → String
  pub stringify : Saved → Text
  pub parse : Text → Parsed

-- A saved object is parsed to an object with the same duration and the same entry at every key.
abbrev pub IsFaithful : Platform → Type 0
IsFaithful p =
    (d : Saved)
    → IsDistinct d.memory
    → (m : Dict ℕ) × (p.parse (p.stringify d) ≡ Parsed.object (some d.ignore_duration) (some m))
      × IsDistinct m
      × ((k : String) → lookup k m ≡ lookup k d.memory)

pub record Fs (Text : Type 0) : Type 0 where
  pub dirs : List String
  pub files : Dict Text

module _ {Text : Type 0} where
  abbrev is_file : Option Text → Bool
  is_file none = false
  is_file (some t) = true

  -- `fs.existsSync(path)`
  unfoldable pub exists_sync : String → Fs Text → Bool
  unfolding contains
  exists_sync path fs = contains path fs.dirs || is_file (lookup path fs.files)

  -- `fs.mkdirSync(path, { recursive: true })`, where the path does not exist.
  abbrev pub mkdir : String → Fs Text → Fs Text
  mkdir path fs = record fs { dirs = path ∷ fs.dirs }

  -- Only what is looked at again is kept of the directories made on the way.
  unfoldable pub ensure_dir : String → Fs Text → Fs Text
  unfolding exists_sync
  ensure_dir path fs = if exists_sync path fs then fs else mkdir path fs

  unfoldable pub save_to_file : (String → String) → String → Text → Fs Text → Fs Text
  unfolding ensure_dir
  save_to_file dirname file_path text fs =
      let made = ensure_dir (dirname file_path) fs in
      record made { files = insert file_path text made.files }

  pub files-ensure_dir : (path : String) (fs : Fs Text) → (ensure_dir path fs).files ≡ fs.files
  unfolding ensure_dir
  files-ensure_dir path fs = ground arith
