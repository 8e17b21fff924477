-- ===== src/TxSender/Reverts.antt =====
-- Proofs on how the sender of src/tx_sender_pipeline.rs reports a failed check.
use arb_bot.Prelude.{
  ℕ, ◌≡◌, inl, inr, refl, Bool, true, false, List, [], ◌∷◌, ◌++◌, Option, some, if◌then◌else◌,
  nat_eq, Bool-cases,
}
use arb_bot.Prelude.Text.{Text, codes, has_text-append, Result, ok, err}
use arb_bot.Gas.{GasStation}
use arb_bot.Simulator.{ValidPath}
use arb_bot.TxSender.Worker.{TxSenderConfig, Outside, gas_params}
use arb_bot.TxSender.Preflight.{preflight_eth_call, is_instant_blacklist_error}
use arb_bot.TxSender.Send.{
  FlashSwapParams, Outbox, Outcome, encode_calldata_with_provider, after_failure, after_check,
  try_providers, providers, build_and_send, is_char_boundary,
}
use arb_bot.TxSender.Strikes.{is_revert}

is_revert_prefix : (rest : Text) → is_revert (codes "preflight eth_call reverted" ++ rest) ≡ true
is_revert_prefix rest = has_text-append b'p' (codes "reflight eth_call reverted") rest

module _ (abi_encode : FlashSwapParams → List ℕ) where
  -- The error of a failed check starts with the words that count as a revert.
  abbrev Reverts : Option Outcome → Outbox → Type 0
  Reverts o box = (t : Text) × (o ≡ some (err t, box)) × (is_revert t ≡ true)

  after_failure-Reverts :
      (e : Text) (rest : List ℕ) (next : Option Outcome) (box : Outbox)
      → is_char_boundary 120 e ≡ true
      → Reverts next box
      → Reverts (after_failure abi_encode e rest next box) box
  after_failure-Reverts e [] next box cut h = elim (Bool-cases (is_instant_blacklist_error e)) [
    | inl i ↦ rw i (_, refl, is_revert_prefix (codes ": INSTANT_BLACKLIST " ++ e))
    | inr o ↦ rw o (_, refl, is_revert_prefix (codes ": " ++ e))
  ]
  after_failure-Reverts e (p ∷ ps) next box cut h =
      elim (Bool-cases (is_instant_blacklist_error e)) [
        | inl i ↦ rw i (_, refl, is_revert_prefix (codes ": INSTANT_BLACKLIST " ++ e))
        | inr o ↦ rw (o, cut) h
      ]

  round-Reverts :
      (dry skip : Bool) (r : Result (Unit {0})) (e : Text) (send : Outcome)
      (fail : Text → Option Outcome) (box : Outbox)
      → dry ≡ false
      → skip ≡ false
      → r ≡ err e
      → Reverts (fail e) box
      → Reverts
          (if dry
            then some (ok (codes "0x_dry_run"), box)
            else after_check abi_encode (if skip then ok tt else r) send fail)
          box
  round-Reverts true skip r e send fail box d k q h = absurd (cc)
  round-Reverts false true r e send fail box d k q h = absurd (cc)
  round-Reverts false false r e send fail box d k q h = rw q h

  -- The check of a calldata fails, and its error can be cut after 120 bytes.
  abbrev pub Fails : Outside → TxSenderConfig → List ℕ → Type 0
  Fails out config calldata =
      (e : Text) × (preflight_eth_call out config.signer_key calldata ≡ err e)
      × (is_char_boundary 120 e ≡ true)

  try_providers-Reverts :
      (out : Outside) (config : TxSenderConfig) (valid : ValidPath) (max_fee priority_fee : ℕ)
      (from : List ℕ) (last_err : Text) (box : Outbox)
      → config.dry_run ≡ false
      → out.skip_preflight ≡ false
      → ((calldata : List ℕ) → Fails out config calldata)
      → Reverts
          (try_providers abi_encode out config valid max_fee priority_fee from last_err box)
          box
  unfolding try_providers
  try_providers-Reverts out config valid max_fee priority_fee [] last_err box dry skip fails =
      (_, refl, is_revert_prefix (codes ": " ++ last_err))
  try_providers-Reverts out config valid max_fee priority_fee (provider ∷ rest) last_err box dry
        skip fails =
      let (e, q, cut) = fails (encode_calldata_with_provider abi_encode valid provider) in
      round-Reverts config.dry_run out.skip_preflight
        (preflight_eth_call out config.signer_key
          (encode_calldata_with_provider abi_encode valid provider))
        e _ _ box dry skip q
        (after_failure-Reverts e rest
          (try_providers abi_encode out config valid max_fee priority_fee rest e box) box cut
          (try_providers-Reverts out config valid max_fee priority_fee rest e box dry skip fails))

  -- Failures of the check are reported as reverts, also where the node does not answer: with checks
  -- on and no dry run, and gas parameters that can be computed, if the check of every calldata fails
  -- with an error whose first 120 bytes end at a character, then nothing panics, the error has the words that the sender counts as a revert, no nonce is used up and
  -- nothing is posted.
  pub build_and_send-is_revert :
      (station : GasStation) (out : Outside) (config : TxSenderConfig) (valid : ValidPath)
      (box : Outbox) (fees : ℕ × ℕ)
      → gas_params station config valid ≡ some fees
      → config.dry_run ≡ false
      → out.skip_preflight ≡ false
      → ((calldata : List ℕ)
          → (e : Text) × (preflight_eth_call out config.signer_key calldata ≡ err e)
            × (is_char_boundary 120 e ≡ true))
      → (t : Text) × (build_and_send abi_encode station out config valid box ≡ some (err t, box))
        × (is_revert t ≡ true)
  unfolding build_and_send
  build_and_send-is_revert station out config valid box fees e dry skip fails =
      let (t, q, revert) =
        try_providers-Reverts out config valid fees.1 fees.0 (providers abi_encode config) [] box
          dry skip fails in
      (t, rw e q, revert)
