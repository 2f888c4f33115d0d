-- ===== src/Reserves/Chunks.antt =====
-- The calls of `initReserves` that `initReservesByHelper` sends.
use solidity_contracts.Base.{
  ◌≡◌, refl, sym, ap, ◌∙◌, arith, List, [], ◌∷◌, String, Result, ok, err, All, concat,
}
use solidity_contracts.Base.Dict.{Dict, IsDistinct}
use solidity_contracts.Batches.{chunk}
use solidity_contracts.Batches.Chunk.{chunk-IsBatched}
use solidity_contracts.Batches.Split.{IsBatched}
use solidity_contracts.Reserves.{ReserveParams, send_chunks, after_send}
use solidity_contracts.Reserves.Init.{InitInput, Deployed, send_inputs, init_reserves_by_helper}
use solidity_contracts.Reserves.Inputs.{prepare_init-described_inputs}
use solidity_contracts.Reserves.Described.{described_inputs}

module _ {ℓ} {I : Type ℓ} where
  after_send-ok :
      (inputs : List I) (rest : Result (Unit {0}) × List (List I)) (r : Result (Unit {0}))
      → (after_send inputs rest r).0 ≡ ok tt
      → (r ≡ ok tt) × (rest.0 ≡ ok tt) × ((after_send inputs rest r).1 ≡ inputs ∷ rest.1)
  after_send-ok inputs rest (err e) h = cc
  after_send-ok inputs rest (ok _) h = (refl, h, refl)

  -- Without an exception every chunk was sent, and went through.
  pub send_chunks-ok :
      (send : List I → Result (Unit {0})) (chunks : List (List I))
      → (send_chunks send chunks).0 ≡ ok tt
      → ((send_chunks send chunks).1 ≡ chunks) × All (λ inputs. send inputs ≡ ok tt) chunks
  send_chunks-ok send [] h = (refl, tt)
  send_chunks-ok send (inputs ∷ chunks) h =
      let (r, rest, calls) = after_send-ok inputs (send_chunks send chunks) (send inputs) h in
      let (all, sent) = send_chunks-ok send chunks rest in (calls ∙ ap (◌∷◌ inputs) all, (r, sent))

module _ (d : Deployed) where
  send_inputs-ok :
      (r : Result (List InitInput))
      → (send_inputs d r).0 ≡ ok tt
      → (r ≡ ok (concat (send_inputs d r).1))
        × IsBatched 3 (send_inputs d r).1
        × All (λ inputs. d.init_reserves inputs ≡ ok tt) (send_inputs d r).1
  send_inputs-ok (err e) h = cc
  send_inputs-ok (ok inputs) h =
      let (all, sent) = send_chunks-ok d.init_reserves (chunk inputs 3) h in
      let (complete, batched) = chunk-IsBatched inputs 3 (omega arith) in
      rw all (ap ok (sym complete), batched, sent)

  -- If `initReservesByHelper` returns for distinct symbols, the inputs it sent are, in their order, the
  -- ones of the description, in chunks of three of which at most the last is shorter, and every call
  -- went through.
  pub init_reserves_by_helper-ok :
      (reserves_params : Dict ReserveParams) (token_addresses : Dict String)
      (treasury_address : String)
      → IsDistinct reserves_params
      → let run = init_reserves_by_helper d reserves_params token_addresses treasury_address in
        run.0 ≡ ok tt
        → (described_inputs d reserves_params token_addresses treasury_address ≡ ok (concat run.1))
          × IsBatched 3 run.1
          × All (λ inputs. d.init_reserves inputs ≡ ok tt) run.1
  unfolding init_reserves_by_helper
  init_reserves_by_helper-ok reserves_params token_addresses treasury_address distinct h =
      let e =
        prepare_init-described_inputs d reserves_params token_addresses treasury_address distinct in
      let (inputs, batched, sent) = send_inputs-ok _ h in (sym e ∙ inputs, batched, sent)
