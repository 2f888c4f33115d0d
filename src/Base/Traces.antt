-- ===== src/Base/Traces.antt =====
-- A result with the calls that were sent on the way to it, also where it is an exception.
use mathlib.Core.Path.{◌≡◌, refl}
use mathlib.Core.Logic.{◌≢◌}
use mathlib.Core.List.{List, [], ◌++◌}
use solidity_contracts.Base.Results.{Result, ok, err}

abbrev pub Traced : Type 0 → Type 0 → Type 0
Traced C A = Result A × List C

abbrev pub append_calls : {C A : Type 0} → List C → Traced C A → Traced C A
append_calls calls (r, more) = (r, calls ++ more)

abbrev pub and_then : {C A B : Type 0} → Traced C A → (A → Traced C B) → Traced C B
and_then (ok a, calls) k = append_calls calls (k a)
and_then (err e, calls) k = (err e, calls)

-- A read sends nothing.
abbrev pub reading : {C A B : Type 0} → Result A → (A → Traced C B) → Traced C B
reading (ok a) k = k a
reading (err e) k = (err e, [])

pub and_then-ok :
    {C A B : Type 0} {b : B} (m : Traced C A) (k : A → Traced C B)
    → (and_then m k).0 ≡ ok b
    → (a : A) × (m.0 ≡ ok a) × ((k a).0 ≡ ok b) × ((and_then m k).1 ≡ m.1 ++ (k a).1)
and_then-ok (ok a, calls) k h = (a, refl, h, refl)
and_then-ok (err e, calls) k h = cc

pub reading-ok :
    {C A B : Type 0} {b : B} (r : Result A) (k : A → Traced C B)
    → (reading r k).0 ≡ ok b
    → (a : A) × (r ≡ ok a) × ((k a).0 ≡ ok b) × (reading r k ≡ k a)
reading-ok (ok a) k h = (a, refl, h, refl)
reading-ok (err e) k h = cc

-- What is read before the first call did not throw.
pub reading-started :
    {C A B : Type 0} (r : Result A) (k : A → Traced C B)
    → (reading r k).1 ≢ []
    → (a : A) × (r ≡ ok a) × ((k a).1 ≢ []) × (reading r k ≡ k a)
reading-started (ok a) k h = (a, refl, h, refl)
reading-started (err e) k h = absurd (h refl)
