-- ===== src/TxSender/Signing.antt =====
-- What signing and posting a transaction does, in `build_raw_tx` and `submit_raw_tx` of
-- src/tx_sender_pipeline.rs.
use arb_bot.Prelude.{ℕ, ◌≡◌, ◌⊎◌, inl, inr, refl, Bool, true, false, List, [], ◌∷◌, ◌++◌, nat_eq}
use arb_bot.Prelude.Text.{Text, codes, Result, ok, err}
use arb_bot.Word.{add64}
use arb_bot.TxSender.Worker.{
  TxSenderConfig, TransactionRequest, KeyCheck, bad_hex, bad_key, signer, Outside,
}
use arb_bot.TxSender.Send.{
  Outbox, Outcome, transaction, submit_signed, sign_as, sign_and_submit, submitted_as,
}

-- The nonce of a transaction is used up, and the transaction is posted if the signature succeeds; the
-- result is the sequencer's answer or the failure of the signature.
abbrev pub Uses : Outside → TransactionRequest → Outbox → Outcome → Type 0
Uses out tx box (result, box') =
    (box'.nonce ≡ add64 box.nonce 1)
    × (((e : Text) × (out.sign tx ≡ err e)
          × (box'.posted ≡ box.posted)
          × (result ≡ err (codes "Transaction signing failed: " ++ e)))
        ⊎ ((raw : List ℕ) × (out.sign tx ≡ ok raw)
            × (box'.posted ≡ box.posted ++ tx ∷ [])
            × (result ≡ submitted_as (out.send_raw raw))))

submit_signed-Uses :
    (out : Outside) (tx : TransactionRequest) (box : Outbox) (signed : Result (List ℕ))
    → out.sign tx ≡ signed
    → Uses out tx box (submit_signed out tx box signed)
submit_signed-Uses out tx box (err e) h = (refl, inl (e, h, refl, refl))
submit_signed-Uses out tx box (ok raw) h = (refl, inr (raw, h, refl, refl))

abbrev pub is_signer : KeyCheck → Bool
is_signer (bad_hex e) = false
is_signer (bad_key e) = false
is_signer (signer a) = true

-- The configured key is there and is one.
abbrev pub has_signer : Outside → Text → Bool
has_signer out [] = false
has_signer out (c ∷ cs) = is_signer (out.check_key (c ∷ cs))

-- Without a key nothing happens, with one the transaction is signed.
abbrev pub Signs : Outside → TransactionRequest → Text → Outbox → Outcome → Type 0
Signs out tx key box o =
    ((has_signer out key ≡ false) × (o.1 ≡ box)) ⊎ ((has_signer out key ≡ true) × Uses out tx box o)

sign_as-Signs :
    (out : Outside) (tx : TransactionRequest) (box : Outbox) (key : KeyCheck)
    → ((is_signer key ≡ false) × ((sign_as out tx box key).1 ≡ box))
      ⊎ ((is_signer key ≡ true) × Uses out tx box (sign_as out tx box key))
sign_as-Signs out tx box (bad_hex e) = inl (refl, refl)
sign_as-Signs out tx box (bad_key e) = inl (refl, refl)
sign_as-Signs out tx box (signer a) = inr (refl, submit_signed-Uses out tx box (out.sign tx) refl)

pub sign_and_submit-Signs :
    (out : Outside) (config : TxSenderConfig) (calldata : List ℕ) (max_fee priority_fee : ℕ)
    (box : Outbox)
    → Signs out
        (transaction config calldata max_fee priority_fee box.nonce)
        config.signer_key
        box
        (sign_and_submit out config calldata max_fee priority_fee box)
unfolding sign_and_submit
sign_and_submit-Signs out config calldata max_fee priority_fee box =
    by_key (transaction config calldata max_fee priority_fee box.nonce) config.signer_key
  where
    by_key :
        (tx : TransactionRequest) (key : Text)
        → Signs out tx key box (elim key as (λ _. Outcome) [
          | [] ↦ (err (codes "No signer key configured — set signer_key in PipelineConfig"), box)
          | c ∷ cs ↦ sign_as out tx box (out.check_key (c ∷ cs))
        ])
    by_key tx [] = inl (refl, refl)
    by_key tx (c ∷ cs) = sign_as-Signs out tx box (out.check_key (c ∷ cs))
