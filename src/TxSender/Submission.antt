-- ===== src/TxSender/Submission.antt =====
-- Proofs on what the sender of src/tx_sender_pipeline.rs posts to the sequencer.
use mathlib.Core.Path.{subst}
use arb_bot.Prelude.{
  ℕ, ◌≡◌, ◌⊎◌, inl, inr, refl, ap, Bool, true, false, List, [], ◌∷◌, none, some, Option, ◌≢◌, sym,
  arith, if◌then◌else◌, >>=-eq-some, some_inj, nat_eq, contains, Bool-cases, ◌==◌,
}
use arb_bot.Prelude.Text.{Text, codes, Result, ok, err}
use arb_bot.Gas.{GasStation}
use arb_bot.Simulator.{ValidPath}
use arb_bot.TxSender.Worker.{TxSenderConfig, Outside, gas_params}
use arb_bot.TxSender.Preflight.{is_instant_blacklist_error}
use arb_bot.TxSender.Send.{
  FlashSwapParams, Outbox, Outcome, transaction, sign_and_submit, encode_calldata_with_provider,
  checked, after_failure, after_check, try_providers, providers, is_char_boundary, build_and_send,
}
use arb_bot.TxSender.Signing.{Uses, has_signer, sign_and_submit-Signs}

cons_some : (x : ℕ) (xs : List ℕ) → (x ∷ xs) ≢ []
cons_some x xs h = absurd (cc)

module _ (abi_encode : FlashSwapParams → List ℕ) where
  -- The check of the calldata for a provider.
  abbrev pub check_of : Outside → TxSenderConfig → ValidPath → ℕ → Result (Unit {0})
  check_of out config valid provider =
      checked abi_encode out config (encode_calldata_with_provider abi_encode valid provider)

  -- A check fails with the error of a blocked token, or the check fails for every provider.
  abbrev pub IsRefused : Outside → TxSenderConfig → ValidPath → List ℕ → Type 0
  IsRefused out config valid from =
      ((provider : ℕ) × (e : Text) × (contains provider from ≡ true)
        × (check_of out config valid provider ≡ err e)
        × (is_instant_blacklist_error e ≡ true))
      ⊎ ((provider : ℕ)
          → contains provider from ≡ true
          → (e : Text) × (check_of out config valid provider ≡ err e))

  -- Why nothing is signed: a dry run, no key, or failed checks.
  abbrev pub IsHindered : Outside → TxSenderConfig → ValidPath → List ℕ → Type 0
  IsHindered out config valid from =
      (config.dry_run ≡ true)
      ⊎ ((has_signer out config.signer_key ≡ false) ⊎ IsRefused out config valid from)

  -- A transaction for one of some providers, which passed the check, is signed in a live run.
  abbrev pub IsSigned :
      Outside → TxSenderConfig → ValidPath → ℕ → ℕ → List ℕ → Outbox → Outcome → Type 0
  IsSigned out config valid max_fee priority_fee from box o =
      (provider : ℕ) × (contains provider from ≡ true)
      × (config.dry_run ≡ false)
      × (has_signer out config.signer_key ≡ true)
      × (check_of out config valid provider ≡ ok tt)
      × Uses out
          (transaction config (encode_calldata_with_provider abi_encode valid provider) max_fee
            priority_fee box.nonce)
          box o

  -- Nothing changes, for a reason, or a transaction is signed.
  abbrev pub Effect :
      Outside → TxSenderConfig → ValidPath → ℕ → ℕ → List ℕ → Outbox → Outcome → Type 0
  Effect out config valid max_fee priority_fee from box o =
      (IsHindered out config valid from × (o.1 ≡ box))
      ⊎ IsSigned out config valid max_fee priority_fee from box o

  -- The three ways on after a failed check.
  abbrev AfterFailure : Text → List ℕ → Option Outcome → Outbox → Outcome → Type 0
  AfterFailure e rest next box o =
      ((is_instant_blacklist_error e ≡ true) × (o.1 ≡ box))
      ⊎ (((rest ≡ []) × (o.1 ≡ box)) ⊎ ((rest ≢ []) × (next ≡ some o)))

  after_failure-AfterFailure :
      (e : Text) (rest : List ℕ) (next : Option Outcome) (box : Outbox) (o : Outcome)
      → after_failure abi_encode e rest next box ≡ some o
      → AfterFailure e rest next box o
  after_failure-AfterFailure e [] next box o h = elim (Bool-cases (is_instant_blacklist_error e)) [
    | inl i ↦ inl (i, sym (ap (λ (p : Outcome). p.1) (some_inj (rw i at h))))
    | inr n ↦ inr (inl (refl, sym (ap (λ (p : Outcome). p.1) (some_inj (rw n at h)))))
  ]
  after_failure-AfterFailure e (p ∷ ps) next box o h =
      elim (Bool-cases (is_instant_blacklist_error e)) [
        | inl i ↦ inl (i, sym (ap (λ (p : Outcome). p.1) (some_inj (rw i at h))))
        | inr n ↦ elim (Bool-cases (is_char_boundary 120 e)) [
          | inl cut ↦ inr (inr ((λ q. absurd (cc)), rw (n, cut) at h))
          | inr bad ↦ let wrong : none ≡ some o = rw (n, bad) at h in absurd (cc)
        ]
      ]

  -- One round of the loop, by what the later rounds do.
  module _ (out : Outside) (config : TxSenderConfig) (valid : ValidPath) (max_fee priority_fee : ℕ)
      (box : Outbox) where
    -- A provider whose check failed, before others.
    failed_cons :
        (p q : ℕ) (from : List ℕ) (e : Text)
        → check_of out config valid p ≡ err e
        → (contains q from ≡ true → (e' : Text) × (check_of out config valid q ≡ err e'))
        → contains q (p ∷ from) ≡ true
        → (e' : Text) × (check_of out config valid q ≡ err e')
    unfolding contains
    failed_cons p q from e failed others mem = elim (Bool-cases (p == q)) [
      | inl i ↦
          let same : p ≡ q = ground arith in
          (e, subst (λ x. check_of out config valid x ≡ err e) same failed)
      | inr i ↦ others (rw i at mem)
    ]

    Effect-cons :
        (p : ℕ) (from : List ℕ) (e : Text) (o : Outcome)
        → check_of out config valid p ≡ err e
        → Effect out config valid max_fee priority_fee from box o
        → Effect out config valid max_fee priority_fee (p ∷ from) box o
    unfolding contains
    Effect-cons p from e o failed (inl (inl dry, same)) = inl (inl dry, same)
    Effect-cons p from e o failed (inl (inr (inl key), same)) = inl (inr (inl key), same)
    Effect-cons p from e o failed (inl (inr (inr (inl (q, e', mem, fails, instant))), same)) =
        inl (inr (inr (inl (q, e', ground arith, fails, instant))), same)
    Effect-cons p from e o failed (inl (inr (inr (inr all)), same)) =
        inl (inr (inr (inr (λ q. failed_cons p q from e failed (all q)))), same)
    Effect-cons p from e o failed (inr (q, mem, dry, key, passed, uses)) =
        inr (q, ground arith, dry, key, passed, uses)

    contains_head : (p : ℕ) (from : List ℕ) → contains p (p ∷ from) ≡ true
    unfolding contains
    contains_head p from = ground arith

    none_in : (q : ℕ) (rest : List ℕ) → rest ≡ [] → contains q rest ≢ true
    unfolding contains
    none_in q [] empty mem = absurd (cc)
    none_in q (p ∷ ps) empty mem = absurd (cc)

    after_check-Effect :
        (provider : ℕ) (rest : List ℕ) (next : Text → Option Outcome) (r : Result (Unit {0}))
        (o : Outcome)
        → check_of out config valid provider ≡ r
        → config.dry_run ≡ false
        → ((e : Text)
            → rest ≢ []
            → next e ≡ some o
            → Effect out config valid max_fee priority_fee rest box o)
        → after_check abi_encode r
            (sign_and_submit out config
              (encode_calldata_with_provider abi_encode valid provider)
              max_fee
              priority_fee
              box)
            (λ e. after_failure abi_encode e rest (next e) box)
          ≡ some o
        → Effect out config valid max_fee priority_fee (provider ∷ rest) box o
    after_check-Effect provider rest next (ok tt) o passed dry later h =
        let calldata = encode_calldata_with_provider abi_encode valid provider in
        subst (λ x. Effect out config valid max_fee priority_fee (provider ∷ rest) box x)
          (some_inj h)
          (elim (sign_and_submit-Signs out config calldata max_fee priority_fee box) [
            | inl (key, same) ↦ inl (inr (inl key), same)
            | inr (key, uses) ↦ inr (provider, contains_head provider rest, dry, key, passed, uses)
          ])
    after_check-Effect provider rest next (err e) o failed dry later h =
        elim (after_failure-AfterFailure e rest (next e) box o h) [
          | inl (instant, same) ↦
              inl
                (inr (inr (inl (provider, e, contains_head provider rest, failed, instant))), same)
          | inr (inl (last, same)) ↦ inl (
            inr (
                inr (
                  inr (λ q.
                    failed_cons provider q rest e failed
                      (λ mem. absurd (none_in q rest last mem))))),
            same,
          )
          | inr (inr (more, q)) ↦ Effect-cons provider rest e o failed (later e more q)
        ]

    by_mode :
        (provider : ℕ) (rest : List ℕ) (next : Text → Option Outcome) (o : Outcome)
        → ((e : Text)
            → rest ≢ []
            → next e ≡ some o
            → Effect out config valid max_fee priority_fee rest box o)
        → (dry : Bool) → config.dry_run ≡ dry
        → (if dry
            then some (ok (codes "0x_dry_run"), box)
            else after_check abi_encode
                (check_of out config valid provider)
                (sign_and_submit out config
                  (encode_calldata_with_provider abi_encode valid provider)
                  max_fee
                  priority_fee
                  box)
                (λ e. after_failure abi_encode e rest (next e) box))
          ≡ some o
        → Effect out config valid max_fee priority_fee (provider ∷ rest) box o
    by_mode provider rest next o later true mode h =
        inl (inl mode, sym (ap (λ (p : Outcome). p.1) (some_inj h)))
    by_mode provider rest next o later false mode h =
        after_check-Effect provider rest next (check_of out config valid provider) o refl mode later
          h

    try_providers-Effect :
        (from : List ℕ) (last_err : Text) (o : Outcome)
        → from ≢ []
        → try_providers abi_encode out config valid max_fee priority_fee from last_err box ≡ some o
        → Effect out config valid max_fee priority_fee from box o
    unfolding try_providers
    try_providers-Effect [] last_err o ne h = absurd (ne refl)
    try_providers-Effect (provider ∷ rest) last_err o ne h =
        by_mode provider rest
          (λ e. try_providers abi_encode out config valid max_fee priority_fee rest e box) o
          (λ e more q. try_providers-Effect rest e o more q) config.dry_run refl h

  providers_some : (config : TxSenderConfig) → providers abi_encode config ≢ []
  providers_some config = elim (Bool-cases (config.flash_loan_provider == 0)) [
    | inl e ↦ rw e (cons_some 0 [])
    | inr e ↦ rw e (cons_some config.flash_loan_provider (0 ∷ []))
  ]

  -- What one opportunity does that does not panic, with the computed fees. Either it leaves nonce and
  -- posted transactions as they are, and the run is dry, there is no usable key, a check failed with
  -- the error of a blocked token, or the check failed for every provider. Or the run is live, a transaction for the configured provider or the fallback,
  -- whose calldata has passed the check or checks are switched off, takes the next nonce: it is
  -- posted once if its signature succeeds, and the result is read from the sequencer's answer; if the
  -- signature fails, nothing is posted.
  pub build_and_send-Effect :
      (station : GasStation) (out : Outside) (config : TxSenderConfig) (valid : ValidPath)
      (box box' : Outbox) (result : Result Text)
      → build_and_send abi_encode station out config valid box ≡ some (result, box')
      → (priority_fee : ℕ) × (max_fee : ℕ) × (gas_params station config valid
          ≡ some (priority_fee, max_fee))
        × Effect out config valid max_fee priority_fee
            (providers abi_encode config)
            box
            (result, box')
  unfolding build_and_send
  build_and_send-Effect station out config valid box box' result h =
      let ((priority_fee, max_fee), e, q) =
        >>=-eq-some (gas_params station config valid)
          (λ p.
            try_providers abi_encode out config valid p.1 p.0 (providers abi_encode config) [] box)
          h in
      (
        priority_fee,
        max_fee,
        e,
        try_providers-Effect out config valid max_fee priority_fee box (providers abi_encode config)
            [] (result, box') (providers_some config) q,
      )
