-- ===== src/Base/Results.antt =====
-- The result of code that may throw, with every exception that the modelled code throws itself,
-- and those that come from the libraries and services that it calls.
use Prim.Native.String.{String}
use mathlib.Core.Path.{◌≡◌, refl, ap}
use mathlib.Core.Logic.{◌⊎◌, inl, inr}
use mathlib.Core.Bool.{Bool, true, false}
use mathlib.Core.Option.{Option, none, some}
use mathlib.Core.List.{List, [], ◌∷◌}

pub data Error : Type 0 where
  -- `BigNumber` divided by zero, and `toNumber` out of the safe integers.
  division_by_zero number_overflow : Error
  -- A field of `undefined` is read.
  type_error : Error
  -- What a contract call, a web request or a library throws.
  external : String → Error
  -- utils/utils.ts.
  invalid_json duration_mismatch invalid_memory : Error
  -- utils/dex/utils.ts and utils/dex/pool.ts.
  too_few_tokens fees_do_not_fit no_swap_path invalid_fee : Error
  -- utils/liquidator-bot.
  same_token no_swap_pool not_profitable invalid_graph_url invalid_batch_size : Error
  no_config no_flash_mint_bot no_flash_loan_bot no_unstake_path bad_token_address : Error
  empty_dusd_address not_erc4626 : Error
  -- utils/liquidator-bot/curve.
  no_curve_tools no_curve_params no_curve_route : Error
  -- utils/lending.
  bad_provider_address missing_block : Error
  -- utils/odos/client.ts.
  chain_mismatch invalid_quote simulation_failed invalid_price invalid_amount : Error

pub data Result {ℓ} (A : Type ℓ) : Type ℓ where
  ok : A → Result A
  err : Error → Result A

infixl 5 ◌>>◌ ◌>>=◌
abbrev pub ◌>>=◌ {ℓ κ} : {A : Type ℓ} → {B : Type κ} → Result A → (A → Result B) → Result B
err thrown >>= next = err thrown
ok value >>= next = next value

-- The second after the first, whose value is not looked at.
abbrev pub ◌>>◌ {ℓ} : {B : Type ℓ} → Result (Unit {0}) → Result B → Result B
first >> second = first >>= (λ done. second)

-- `if (c) throw e`.
abbrev pub throw_if : Bool → Error → Result (Unit {0})
throw_if true e = err e
throw_if false e = ok tt

abbrev pub or_throw {ℓ} : {A : Type ℓ} → Option A → Error → Result A
or_throw none e = err e
or_throw (some a) e = ok a

-- `for (const x of xs) …`, each round awaited before the next; the first throw ends it.
abbrev pub traverse {ℓ κ} : {A : Type ℓ} {B : Type κ} → (A → Result B) → List A → Result (List B)
traverse f [] = ok []
traverse f (x ∷ xs) = f x >>= λ y. traverse f xs >>= λ ys. ok (y ∷ ys)

pub >>=-eq-ok {ℓ κ} :
    {A : Type ℓ}
    → {B : Type κ} → {y : B} → (r : Result A) → (next : A → Result B) → (r >>= next) ≡ ok y
    → (x : A) × (r ≡ ok x) × (next x ≡ ok y)
>>=-eq-ok (err thrown) next e = cc
>>=-eq-ok (ok value) next e = (value, refl, e)

pub or_throw-eq-ok {ℓ} :
    {A : Type ℓ} (m : Option A) (e : Error) {a : A} → or_throw m e ≡ ok a → m ≡ some a
or_throw-eq-ok none e h = cc
or_throw-eq-ok (some a) e h = cc

pub ok_inj {ℓ} : {A : Type ℓ} {a b : A} → ok a ≡ ok b → a ≡ b
ok_inj h = cc

pub Result-cases {ℓ} :
    {A : Type ℓ} (r : Result A) → ((a : A) × (r ≡ ok a)) ⊎ ((e : Error) × (r ≡ err e))
Result-cases (ok a) = inl (a, refl)
Result-cases (err e) = inr (e, refl)

pub >>=-congr {ℓ κ} :
    {A : Type ℓ} {B : Type κ} (r : Result A) {f g : A → Result B}
    → ((a : A) → f a ≡ g a)
    → (r >>= f) ≡ (r >>= g)
>>=-congr (err e) h = refl
>>=-congr (ok a) h = h a

-- What is done with a value may be put behind an equation on the values.
pub >>=-mapped {ℓ κ μ} :
    {A : Type ℓ} {B : Type κ} {C : Type μ} (f : A → B) (r : Result A) (s : Result B)
    (next : B → Result C)
    → (r >>= λ a. ok (f a)) ≡ (s >>= λ b. ok b)
    → (r >>= λ a. next (f a)) ≡ (s >>= next)
>>=-mapped f (err e) (err e') next h = cc
>>=-mapped f (err e) (ok b) next h = cc
>>=-mapped f (ok a) (err e') next h = cc
>>=-mapped f (ok a) (ok b) next h = ap next (ok_inj h)
