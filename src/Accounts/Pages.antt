-- ===== src/Accounts/Pages.antt =====
-- The pages together are all the accounts.
use mathlib.Core.Path.{subst}
use solidity_contracts.Base.{
  ℕ, zero, suc, ◌-◌, ◌<◌, ◌≤◌, ◌≡◌, refl, sym, ap, ◌∙◌, inl, inr, Bool, true, false, List, [], ◌∷◌,
  ◌++◌, append_assoc, none, some, String, ge→ltb, lt→ltb, take-append-drop, ◌==◌, no_config,
  invalid_graph_url, invalid_batch_size, length, length-drop, take, drop, filter, All, ok, err,
  arith, if◌then◌else◌, Bool-cases,
}
use solidity_contracts.Accounts.{
  Graph, GraphConfig, last_of, page_loop, get_all_lending_user_addresses, is_local_network,
  text_length,
}

module _ (before : String → String → Bool) where
  -- A strict order, in which the empty text stands before the accounts.
  abbrev pub IsOrder : List String → Type 0
  IsOrder accounts =
      ((a b : String) → before a b ≡ true → before b a ≡ false)
      × All (λ a. before "" a ≡ true) accounts

  -- Ascending ids, each once.
  abbrev pub IsAscending : List String → Type 0
  IsAscending [] = Unit
  IsAscending (a ∷ accounts) = All (λ b. before a b ≡ true) accounts × IsAscending accounts

  -- The service answers with the first accounts behind an id.
  abbrev pub IsServed : Graph → List String → Type 0
  IsServed graph accounts =
      (last_id : String) (first : ℕ)
      → graph last_id first ≡ ok (take first (filter (before last_id) accounts))

  filter-All : (p : String → Bool) (xs : List String) → All (λ x. p x ≡ true) xs → filter p xs ≡ xs
  filter-All p [] h = refl
  filter-All p (x ∷ xs) (h, hs) = rw (h, filter-All p xs hs) refl

  All-middle :
      (P : String → Type 0) (xs : List String) (y : String) (ys : List String)
      → All P (xs ++ (y ∷ ys))
      → P y
  All-middle P [] y ys (h, hs) = h
  All-middle P (x ∷ xs) y ys (h, hs) = All-middle P xs y ys hs

  irreflexive :
      ((a b : String) → before a b ≡ true → before b a ≡ false) → (a : String) → before a a ≡ false
  irreflexive asym a = elim (Bool-cases (before a a)) [ inl h ↦ asym a a h | inr h ↦ h ]

  -- What stands behind an account.
  filter-behind :
      ((a b : String) → before a b ≡ true → before b a ≡ false)
      → (xs : List String) (y : String) (ys : List String) → IsAscending (xs ++ (y ∷ ys))
      → filter (before y) (xs ++ (y ∷ ys)) ≡ ys
  filter-behind asym [] y ys (h, hs) = rw (irreflexive asym y) (filter-All (before y) ys h)
  filter-behind asym (x ∷ xs) y ys (h, hs) =
      rw (asym x y (All-middle (λ b. before x b ≡ true) xs y ys h)) (filter-behind asym xs y ys hs)

  -- A page ends with its last account.
  page_end :
      (f : ℕ) (r : String) (rs : List String)
      → (init : List String) × (r ∷ rs ≡ init ++ (last_of r (take f rs) ∷ drop f rs))
  page_end zero r rs = ([], refl)
  page_end (suc f) r [] = ([], refl)
  page_end (suc f) r (q ∷ rs) = let (init, e) = page_end f q rs in (r ∷ init, ap (◌∷◌ r) e)

  module _ (graph : Graph) (accounts : List String) (order : IsOrder accounts)
      (ascending : IsAscending accounts) (served : IsServed graph accounts) where
    page_loop-step :
        (fuel first : ℕ) (last_id : String) (all page : List String)
        → graph last_id first ≡ ok page
        → page_loop graph first (suc fuel) last_id all ≡ (
            if length page == 0
            then some (ok (all ++ page))
            else page_loop graph first fuel (last_of last_id page) (all ++ page))
    unfolding page_loop
    page_loop-step fuel first last_id all page e = ground (arith, e)

    page_loop-more :
        (fuel first : ℕ) (last_id x : String) (all page : List String)
        → graph last_id first ≡ ok (x ∷ page)
        → page_loop graph first (suc fuel) last_id all
          ≡ page_loop graph first fuel (last_of x page) (all ++ (x ∷ page))
    page_loop-more fuel first last_id x all page e =
        let some_left : (suc (length page) == 0) ≡ false = ground arith in
        page_loop-step fuel first last_id all (x ∷ page) e ∙ rw some_left refl

    page_loop-accounts :
        (fuel f : ℕ) (last_id : String) (done rest : List String)
        → accounts ≡ done ++ rest
        → filter (before last_id) accounts ≡ rest
        → length rest < fuel
        → page_loop graph (suc f) fuel last_id done ≡ some (ok accounts)
    page_loop-accounts zero f last_id done rest e behind l = absurd (omega arith)
    page_loop-accounts (suc fuel) f last_id done [] e behind l =
        page_loop-step fuel (suc f) last_id done []
          (served last_id (suc f) ∙ ap (λ xs. ok (take (suc f) xs)) behind)
        ∙ ap (λ xs. some (ok xs)) (sym e)
    page_loop-accounts (suc fuel) f last_id done (r ∷ rs) e behind l =
        let (init, at) = page_end f r rs in
        let page = r ∷ take f rs in
        let next = last_of r (take f rs) in
        let whole : accounts ≡ (done ++ init) ++ (next ∷ drop f rs) =
          e ∙ ap (◌++◌ done) at ∙ sym (append_assoc done init (next ∷ drop f rs)) in
        let ascending' = subst IsAscending whole ascending in
        let behind' : filter (before next) accounts ≡ drop f rs =
          ap (filter (before next)) whole
          ∙ filter-behind order.0 (done ++ init) next (drop f rs) ascending' in
        let shorter = length-drop f rs in
        let covered : accounts ≡ (done ++ page) ++ drop f rs =
          e
          ∙ ap (λ xs. done ++ (r ∷ xs)) (sym (take-append-drop f rs))
          ∙ sym (append_assoc done page (drop f rs)) in
        page_loop-more fuel (suc f) last_id r done (take f rs)
          (served last_id (suc f) ∙ ap (λ xs. ok (take (suc f) xs)) behind)
        ∙ page_loop-accounts fuel f next (done ++ page) (drop f rs) covered behind' (omega arith)

    -- Outside the local networks, with a URL of ten characters or more and a positive batch size, all
    -- the accounts of the service are returned, each once and in order, whatever the batch size, if
    -- the service answers with the first accounts behind an id in the order of the ids.
    pub get_all_lending_user_addresses_lem :
        (fuel : ℕ) (network : String) (named_accounts : List String) (config : GraphConfig)
        → is_local_network network ≡ false
        → 10 ≤ text_length config.url
        → 0 < config.batch_size
        → length accounts < fuel
        → get_all_lending_user_addresses fuel graph network named_accounts (some config)
          ≡ some (ok accounts)
    unfolding get_all_lending_user_addresses
    get_all_lending_user_addresses_lem fuel network named config remote long b l =
        let size_pred = config.batch_size - 1 in
        let size : suc size_pred ≡ config.batch_size = omega arith in
        let loop =
          page_loop-accounts fuel size_pred "" [] accounts refl
            (filter-All (before "") accounts order.1) l in
        rw
          (
            remote,
            ge→ltb (text_length config.url) 10 long,
            ge→ltb config.batch_size 1 (omega arith),
            ← size,
          )
          loop

-- What goes wrong before the first request: no configuration, a URL that is too short, a batch size
-- below one; on a local network the named accounts are returned whatever the configuration is.
pub get_all_lending_user_addresses-err :
    (fuel : ℕ) (graph : Graph) (network : String) (named_accounts : List String)
    (config : GraphConfig)
    → let run = get_all_lending_user_addresses fuel graph network named_accounts in
      (is_local_network network ≡ true
        → (run none ≡ some (ok named_accounts)) × (run (some config) ≡ some (ok named_accounts)))
      × (is_local_network network ≡ false → run none ≡ some (err no_config))
      × (is_local_network network ≡ false
          → text_length config.url < 10
          → run (some config) ≡ some (err invalid_graph_url))
      × (is_local_network network ≡ false
          → 10 ≤ text_length config.url
          → config.batch_size ≡ 0
          → run (some config) ≡ some (err invalid_batch_size))
unfolding get_all_lending_user_addresses
get_all_lending_user_addresses-err fuel graph network named config = (
  λ h. (rw h refl, rw h refl),
  λ h. rw h refl,
  λ h short. rw (h, lt→ltb (text_length config.url) 10 short) refl,
  λ h long none_. rw (h, ge→ltb (text_length config.url) 10 long, none_) refl,
)
