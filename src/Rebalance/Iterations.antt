-- ===== src/Rebalance/Iterations.antt =====
-- An iteration of the rebalancing bot over all vaults.
use solidity_contracts.Base.{
  ◌≡◌, refl, sym, ap, ◌∙◌, List, [], ◌∷◌, ◌++◌, append_assoc, map, concat, ok, err, Error, and_then,
  All,
}
use solidity_contracts.Rebalance.{Vault, visit, visit_all}

abbrev pub Visited : Vault → Type 0
Visited v = (visit v).0 ≡ ok tt

visit_next :
    (v : Vault) (vs : List Vault)
    → Visited v
    → visit_all (v ∷ vs) ≡ ((visit_all vs).0, (visit v).1 ++ (visit_all vs).1)
unfolding visit_all
visit_next v vs h = ap (λ r. and_then (r, (visit v).1) (λ _. visit_all vs)) h

-- Where every vault goes through, the loop sends the calls of all of them, in order.
pub visit_all-ok :
    (vs : List Vault) → All Visited vs → visit_all vs ≡ (ok tt, concat (map (λ v. (visit v).1) vs))
unfolding visit_all
visit_all-ok [] h = refl
visit_all-ok (v ∷ vs) (h, hs) =
    visit_next v vs h ∙ ap (λ r. (r.0, (visit v).1 ++ r.1)) (visit_all-ok vs hs)

visit_all-stops :
    (v : Vault) (after_ : List Vault) (e : Error)
    → (visit v).0 ≡ err e
    → visit_all (v ∷ after_) ≡ (err e, (visit v).1)
unfolding visit_all
visit_all-stops v after_ e h = ap (λ r. and_then (r, (visit v).1) (λ _. visit_all after_)) h

-- The loop sends, in order, the calls of the vaults before the first that throws, and what that one
-- sent; the vaults behind it are not looked at.
pub visit_all-err :
    (before : List Vault) (v : Vault) (after_ : List Vault) (e : Error)
    → All Visited before
    → (visit v).0 ≡ err e
    → visit_all (before ++ (v ∷ after_))
      ≡ (err e, concat (map (λ u. (visit u).1) before) ++ (visit v).1)
visit_all-err [] v after_ e h throws = visit_all-stops v after_ e throws
visit_all-err (u ∷ before) v after_ e (h, hs) throws =
    visit_next u (before ++ (v ∷ after_)) h
    ∙ ap (λ r. (r.0, (visit u).1 ++ r.1)) (visit_all-err before v after_ e hs throws)
    ∙ ap (λ c. (err e, c))
        (sym (append_assoc (visit u).1 (concat (map (λ x. (visit x).1) before)) (visit v).1))
