-- ===== src/Base/Dict.antt =====
-- A JavaScript `Map` or object keyed by texts, in insertion order.
use text.Mathlib.Text.{◌==◌}
use text.Mathlib.TextEquality.{eq_iff}
use Prim.Native.String.{String}
use mathlib.Core.Path.{◌≡◌, refl}
use mathlib.Core.Logic.{◌≢◌}
use mathlib.Core.Bool.{Bool, false, ◌||◌}
use mathlib.Core.Option.{Option, none, some}
use mathlib.Core.List.{List, [], ◌∷◌}
use native.Mathlib.Omega.{arith}
use solidity_contracts.Base.Bools.{if◌then◌else◌}

abbrev pub Dict {ℓ} : Type ℓ → Type ℓ
Dict V = List (String × V)

pub different : (a b : String) → (a == b) ≡ false → a ≢ b
different a b h e = ground (arith, eq_iff a b, e, h)

-- `xs.includes(a)`
unfoldable pub contains : String → List String → Bool
contains a [] = false
contains a (x ∷ xs) = (x == a) || contains a xs

module _ {ℓ} {V : Type ℓ} where
  -- `m.get(k)`, or `m[k]`; `none` is `undefined`.
  unfoldable pub lookup : String → Dict V → Option V
  lookup wanted [] = none
  lookup wanted ((key, value) ∷ rest) = if key == wanted then some value else lookup wanted rest

  -- `m.set(k, v)`, or `m[k] = v`: a key that is there keeps its place.
  unfoldable pub insert : String → V → Dict V → Dict V
  insert new v [] = (new, v) ∷ []
  insert new v ((key, value) ∷ rest) =
      if key == new then (new, v) ∷ rest else (key, value) ∷ insert new v rest

  -- `m.delete(k)`
  unfoldable pub erase : String → Dict V → Dict V
  erase k [] = []
  erase k ((j, w) ∷ m) = if j == k then m else (j, w) ∷ erase k m

  -- No key stands twice.
  abbrev pub IsDistinct : Dict V → Type ℓ
  IsDistinct [] = Unit
  IsDistinct ((k, v) ∷ m) = (lookup k m ≡ none) × IsDistinct m

  pub lookup-insert :
      (new wanted : String) (v : V) (entries : Dict V)
      → lookup wanted (insert new v entries)
        ≡ (if new == wanted then some v else lookup wanted entries)
  unfolding insert lookup
  lookup-insert new wanted v [] = refl
  lookup-insert new wanted v ((key, value) ∷ rest) =
      let in_rest = lookup-insert new wanted v rest in
      ground (arith, in_rest, eq_iff key wanted, eq_iff key new, eq_iff new wanted)

  pub insert-IsDistinct :
      (k : String) (v : V) (m : Dict V) → IsDistinct m → IsDistinct (insert k v m)
  unfolding lookup insert
  insert-IsDistinct k v [] h = (refl, tt)
  insert-IsDistinct k v ((j, w) ∷ m) h =
      ground (arith, insert-IsDistinct k v m h.1, lookup-insert k j v m, eq_iff j k, eq_iff k j)

  pub lookup-erase :
      (k j : String) (m : Dict V)
      → IsDistinct m
      → lookup j (erase k m) ≡ (if k == j then none else lookup j m)
  unfolding lookup erase
  lookup-erase k j [] h = ground arith
  lookup-erase k j ((i, w) ∷ m) h =
      ground (arith, eq_iff k j, eq_iff i k, eq_iff i j, lookup-erase k j m h.1)

  pub erase-IsDistinct : (k : String) (m : Dict V) → IsDistinct m → IsDistinct (erase k m)
  unfolding lookup erase
  erase-IsDistinct k [] h = tt
  erase-IsDistinct k ((j, w) ∷ m) h =
      ground (arith, erase-IsDistinct k m h.1, lookup-erase k j m h.1, eq_iff j k, eq_iff k j)
