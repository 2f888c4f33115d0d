-- ===== src/IgnoreMemory/Restart.antt =====
-- What a new object reads back from the file that an earlier one wrote.
use solidity_contracts.Base.{
  ℕ, ◌+◌, ◌≡◌, sym, ap, ◌∙◌, true, false, [], some, String, str_eq_refl, arith, ok,
}
use solidity_contracts.Base.Dict.{
  Dict, lookup, insert, IsDistinct, lookup-insert, insert-IsDistinct,
}
use solidity_contracts.IgnoreMemory.Files.{
  Platform, Parsed, Saved, IsFaithful, save_to_file, ensure_dir, files-ensure_dir,
}
use solidity_contracts.IgnoreMemory.{
  World, truthy_path, memory_file_path, initialize_if_needed, put, is_ignored, write, set_expiry,
}
use solidity_contracts.IgnoreMemory.Expiry.{
  IsValid, not_expired, initialize_again, put-eq-write, write-keeps, is_ignored-eq-not_expired,
}

module _ (p : Platform) where
  open p use {Text, parse, stringify}

  -- A new object with a duration of `d` milliseconds and the same directory, over the same files.
  abbrev pub restart : ℕ → World Text → World Text
  restart d w = record w {
    self = record w.self { memory = []; ignore_duration = d; is_initialized = false };
  }

  -- The file of the object holds its duration and its entries.
  abbrev pub IsSaved : String → World Text → Type 0
  IsSaved dir w =
      (t : Text) × (m : Dict ℕ) × (lookup (memory_file_path dir) w.fs.files ≡ some t)
      × (parse t ≡ Parsed.object (some w.self.ignore_duration) (some m))
      × IsDistinct m
      × ((k : String) → lookup k m ≡ lookup k w.self.memory)

  write-IsSaved :
      (dir : String) (w : World Text)
      → IsFaithful p
      → truthy_path w.self.state_dir_path ≡ some dir
      → IsDistinct w.self.memory
      → IsSaved dir (write p w).1
  unfolding save_to_file
  write-IsSaved dir w faithful e h =
      let s : Saved = record { ignore_duration = w.self.ignore_duration; memory = w.self.memory } in
      let (m, parsed, distinct, same) = faithful s h in
      let files = (ensure_dir (p.dirname (memory_file_path dir)) w.fs).files in
      let at : lookup (memory_file_path dir) (insert (memory_file_path dir) (stringify s) files)
          ≡ some (stringify s) =
        lookup-insert _ _ _ files ∙ rw (str_eq_refl (memory_file_path dir)) in
      rw (e, write) (stringify s, m, at, parsed, distinct, same)

  restart-initializes :
      (dir : String) (w : World Text) (saved : IsSaved dir w)
      → truthy_path w.self.state_dir_path ≡ some dir
      → (initialize_if_needed p (restart w.self.ignore_duration w)).0 ≡ ok tt
        × ((initialize_if_needed p (restart w.self.ignore_duration w)).1.self.memory ≡ saved.1)
  unfolding initialize_if_needed
  restart-initializes dir w (t, m, at, parsed, h, same) e =
      ground (arith, files-ensure_dir dir w.fs)

  -- A new object over the file of an initialized one answers as that one does.
  saved_restart :
      (later : ℕ) (dir u : String) (w : World Text)
      → IsSaved dir w
      → w.self.is_initialized ≡ true
      → truthy_path w.self.state_dir_path ≡ some dir
      → (is_ignored p later u (restart w.self.ignore_duration w)).0 ≡ (is_ignored p later u w).0
  saved_restart later dir u w saved h e =
      let r = initialize_if_needed p (restart w.self.ignore_duration w) in
      let (settled, loaded) = restart-initializes dir w saved e in
      let same = saved.5 u in
      let i : r ≡ (ok tt, r.1) = ground arith in
      is_ignored-eq-not_expired p later u (restart w.self.ignore_duration w) r.1 i
      ∙ ap (λ (m : Dict ℕ). ok (not_expired later (lookup u m))) loaded
      ∙ ap (λ o. ok (not_expired later o)) same
      ∙ sym (is_ignored-eq-not_expired p later u w w (initialize_again p w h))

  -- After a `put` on an initialized object with a directory, a new object with the same duration and
  -- directory ignores exactly what the old one ignores.
  pub restart_remembers :
      (now later : ℕ) (dir v u : String) (w : World Text)
      → IsFaithful p
      → IsValid p w
      → truthy_path w.self.state_dir_path ≡ some dir
      → let w' = (put p now v w).1 in
        (is_ignored p later u (restart w'.self.ignore_duration w')).0 ≡ (is_ignored p later u w').0
  restart_remembers now later dir v u w faithful valid e =
      let s = set_expiry p now v w in
      let kept = (write-keeps p s).1 in
      let distinct = insert-IsDistinct v (now + w.self.ignore_duration) w.self.memory valid.1 in
      rw (put-eq-write p now v w w (initialize_again p w valid.0)) (
        saved_restart later dir u (write p s).1 (write-IsSaved dir s faithful e distinct)
          (ap (λ x. x.is_initialized) kept ∙ valid.0)
          (ap (λ x. truthy_path x.state_dir_path) kept ∙ e))
