-- ===== src/Odos/Choices.antt =====
-- What is chosen for a liquidation over Odos: the token that is sold, the contract, and whether the
-- collateral is unstaked first.
use mathlib.Core.Path.{subst}
use solidity_contracts.Base.{
  ◌≡◌, refl, sym, ap, ◌∙◌, inl, inr, Bool, true, false, Option, none, some, String, str_eq,
  not_erc4626, Result, ok, err, ◌>>=◌, >>=-eq-ok, ok_inj, ◌⊎◌, ◌≢◌, ◌||◌, arith, str_eq_iff,
  or_throw, or_throw-eq-ok, no_flash_mint_bot, no_flash_loan_bot, then_eq, else_eq, Bool-cases,
  Error,
}
use solidity_contracts.Base.Dict.{lookup, different}
use solidity_contracts.Swap.{zero_address}
use solidity_contracts.Chain.{Chain, Number}
use solidity_contracts.Perform.{Target}
use solidity_contracts.Odos.Client.{Decimals, OdosApi}
use solidity_contracts.Odos.Liquidate.{
  OdosSettings, OdosContracts, is_unstake_token, effective_collateral, get_proxy_contract,
  get_erc4626_underlying_asset, contract_for,
}

asset_read :
    {A : Type 0} (thrown : Error) {sold : String} (r : Result String) (info : Result A)
    → (elim r [ ok asset ↦ ok asset | Result.err e ↦ (info >>= λ i. err thrown) ]) ≡ ok sold
    → r ≡ ok sold
asset_read thrown (ok a) info h = h
asset_read thrown (err e) (ok i) h = cc
asset_read thrown (err e) (err f) h = cc

module _ (n : Number) (d : Decimals n.Num) (api : OdosApi n.Num) (c : Chain)
    (contracts : OdosContracts) where
  -- The vault of a token: the configured proxy, if there is one that is not empty, and otherwise
  -- the token.
  abbrev pub IsVault : OdosSettings → String → String → Type 0
  IsVault settings token vault =
      ((lookup token settings.proxy_contract_map ≡ some vault) × (vault ≢ ""))
      ⊎ (((lookup token settings.proxy_contract_map ≡ none)
            ⊎ (lookup token settings.proxy_contract_map ≡ some ""))
          × (vault ≡ token))

  -- The token that is sold: the collateral, or the asset of its vault if it is unstaked first.
  abbrev pub IsSold : OdosSettings → Bool → String → String → Type 0
  IsSold settings is_unstake collateral sold =
      ((is_unstake ≡ false) × (sold ≡ collateral))
      ⊎ ((is_unstake ≡ true)
          × (vault : String) × IsVault settings collateral vault
          × (contracts.asset vault ≡ ok sold))

  get_proxy_contract-IsVault :
      (settings : OdosSettings) (token vault : String)
      → get_proxy_contract (some settings) token ≡ ok vault
      → IsVault settings token vault
  unfolding get_proxy_contract
  get_proxy_contract-IsVault settings token vault h =
      by_proxy (lookup token settings.proxy_contract_map) refl
    where
      by_proxy :
          (o : Option String)
          → lookup token settings.proxy_contract_map ≡ o
          → IsVault settings token vault
      by_proxy none e = inr (inl e, ok_inj (ground (arith, e, h)))
      by_proxy (some proxy) e = elim (Bool-cases (str_eq proxy "")) [
        | inl gone ↦
            inr (
              inr (e ∙ ap some ((str_eq_iff proxy "").0 gone)),
              ok_inj (ground (arith, e, gone, h)),
            )
        | inr there_ ↦
            let same : proxy ≡ vault = ok_inj (ground (arith, e, there_, h)) in
            inl (e ∙ ap some same, subst (λ x. x ≢ "") same (different proxy "" there_))
      ]

  pub effective_collateral-IsSold :
      (settings : OdosSettings) (is_unstake : Bool) (collateral sold : String)
      → effective_collateral n d api c contracts (some settings) is_unstake collateral ≡ ok sold
      → IsSold settings is_unstake collateral sold
  unfolding get_erc4626_underlying_asset
  effective_collateral-IsSold settings false collateral sold h = inl (refl, sym (ok_inj h))
  effective_collateral-IsSold settings true collateral sold h =
      elim (Bool-cases (str_eq collateral zero_address || str_eq collateral "")) [
        | inl bad ↦ let e = then_eq _ bad h in cc
        | inr good ↦
            let (vault, found, rest) =
              >>=-eq-ok (get_proxy_contract (some settings) collateral) _ (else_eq _ good h) in
            inr (
              refl,
              vault,
              get_proxy_contract-IsVault settings collateral vault found,
              asset_read not_erc4626 (contracts.asset vault) (c.fetch_token_info collateral) rest,
            )
      ]

  -- The contract that is given, for flash minting exactly for dUSD.
  abbrev pub IsContract : OdosSettings → String → Target → String → Type 0
  IsContract settings borrow target address =
      ((borrow ≡ settings.dusd_address)
        × (target ≡ Target.flash_mint)
        × (contracts.flash_mint_address ≡ some address))
      ⊎ ((borrow ≢ settings.dusd_address)
          × (target ≡ Target.flash_loan)
          × (contracts.flash_loan_address ≡ some address))

  pub contract_for-IsContract :
      (settings : OdosSettings) (borrow : String) (found : Target × String)
      → contract_for n d api c contracts (str_eq borrow settings.dusd_address) ≡ ok found
      → IsContract settings borrow found.0 found.1
  contract_for-IsContract settings borrow found h =
      elim (Bool-cases (str_eq borrow settings.dusd_address)) [
        | inl e ↦
            let given : contract_for n d api c contracts true ≡ ok found =
              ap (contract_for n d api c contracts) (sym e) ∙ h in
            let (a, o, same) =
              >>=-eq-ok (or_throw contracts.flash_mint_address no_flash_mint_bot) _ given in
            subst (λ r. IsContract settings borrow r.0 r.1) (ok_inj same)
              (inl (
                (str_eq_iff borrow settings.dusd_address).0 e,
                refl,
                or_throw-eq-ok contracts.flash_mint_address no_flash_mint_bot o,
              ))
        | inr e ↦
            let given : contract_for n d api c contracts false ≡ ok found =
              ap (contract_for n d api c contracts) (sym e) ∙ h in
            let (a, o, same) =
              >>=-eq-ok (or_throw contracts.flash_loan_address no_flash_loan_bot) _ given in
            subst (λ r. IsContract settings borrow r.0 r.1) (ok_inj same)
              (inr (
                different borrow settings.dusd_address e,
                refl,
                or_throw-eq-ok contracts.flash_loan_address no_flash_loan_bot o,
              ))
      ]

  -- The collateral is unstaked exactly if its entry is `true`.
  abbrev pub IsUnstaked : OdosSettings → String → Bool → Type 0
  IsUnstaked settings token is_unstake =
      ((is_unstake ≡ true) × (lookup token settings.is_unstake_tokens ≡ some true))
      ⊎ ((is_unstake ≡ false) × (lookup token settings.is_unstake_tokens ≢ some true))

  pub is_unstake_token-IsUnstaked :
      (settings : OdosSettings) (token : String)
      → IsUnstaked settings token (is_unstake_token settings.is_unstake_tokens token)
  unfolding is_unstake_token
  is_unstake_token-IsUnstaked settings token =
      by_entry (lookup token settings.is_unstake_tokens) refl
    where
      by_entry :
          (o : Option Bool)
          → lookup token settings.is_unstake_tokens ≡ o
          → IsUnstaked settings token (is_unstake_token settings.is_unstake_tokens token)
      by_entry none e = ground (arith, e)
      by_entry (some true) e = ground (arith, e)
      by_entry (some false) e = ground (arith, e)
