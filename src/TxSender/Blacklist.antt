-- ===== src/TxSender/Blacklist.antt =====
-- Proofs on the strikes of src/tx_sender_pipeline.rs: which paths and tokens a history blacklists.
use arb_bot.Prelude.{
  ℕ, ◌+◌, ◌^◌, ◌<◌, ◌≡◌, refl, ap, sym, ◌∙◌, Bool, true, false, not, ◌&&◌, ◌||◌, List, [], ◌∷◌,
  ◌++◌, arith, leb, ◌==◌, if◌then◌else◌, nat_eq, lookup, contains, Bool-cases, inl, inr,
}
use arb_bot.Swap.Path.{Address, SwapStep}
use arb_bot.Prelude.Text.{Text}
use arb_bot.Simulator.{ValidPath}
use arb_bot.TxSender.Worker.{TxSenderConfig}
use arb_bot.TxSender.Strikes.{
  Tally, strike, strike_token, strike_steps, is_revert, is_repay_insufficient, is_instant, Tallies,
  on_error,
}
use arb_bot.TxSender.Tally.{strike_all, times, at_once, contains-strike_all}

-- A strike against a token, unless the bot starts from it.
abbrev pub unless_start : List Address → Bool → Address → List (ℕ × Bool) → List (ℕ × Bool)
unless_start start_tokens i token blows =
    if contains token start_tokens then blows else (token, i) ∷ blows

-- The strikes that the two loops make are strikes one after another.
abbrev pub token_blows : List Address → Bool → List SwapStep → List (ℕ × Bool)
token_blows start_tokens i [] = []
token_blows start_tokens i (step ∷ steps) =
    unless_start start_tokens i step.token_in
      (unless_start start_tokens i step.token_out (token_blows start_tokens i steps))

strike_all-append :
    (threshold : ℕ) (xs ys : List (ℕ × Bool)) (t : Tally)
    → strike_all threshold (xs ++ ys) t ≡ strike_all threshold ys (strike_all threshold xs t)
unfolding strike_all
strike_all-append threshold [] ys t = refl
strike_all-append threshold ((k, i) ∷ xs) ys t =
    strike_all-append threshold xs ys (strike threshold i k t)

strike_token_lem :
    (start_tokens : List Address) (threshold : ℕ) (i : Bool) (token : Address)
    (blows : List (ℕ × Bool)) (t : Tally)
    → strike_all threshold (unless_start start_tokens i token blows) t
      ≡ strike_all threshold blows (strike_token start_tokens threshold i token t)
strike_token_lem start_tokens threshold i token blows t =
    elim (Bool-cases (contains token start_tokens)) [
      | inl e ↦ rw e refl
      | inr e ↦ rw e (unfold strike_all in refl)
    ]

strike_steps_lem :
    (start_tokens : List Address) (threshold : ℕ) (i : Bool) (steps : List SwapStep) (t : Tally)
    → strike_steps start_tokens threshold i steps t
      ≡ strike_all threshold (token_blows start_tokens i steps) t
unfolding strike_steps
strike_steps_lem start_tokens threshold i [] t = unfold strike_all in refl
strike_steps_lem start_tokens threshold i (step ∷ steps) t =
    strike_steps_lem start_tokens threshold i steps (
      strike_token start_tokens threshold i step.token_out
        (strike_token start_tokens threshold i step.token_in t))
    ∙ sym (
        strike_token_lem start_tokens threshold i step.token_out (token_blows start_tokens i steps)
          (strike_token start_tokens threshold i step.token_in t))
    ∙ sym (
        strike_token_lem start_tokens threshold i step.token_in
          (unless_start start_tokens i step.token_out (token_blows start_tokens i steps)) t)

-- A history of failures: the opportunity and its error.
abbrev pub counts_strike : Text → Bool
counts_strike e = is_revert e && not (is_repay_insufficient e)

abbrev pub path_history : List (ValidPath × Text) → List (ℕ × Bool)
path_history [] = []
path_history ((valid, e) ∷ failures) =
    if counts_strike e
    then (valid.arb.path.hash, is_instant e) ∷ path_history failures
    else path_history failures

abbrev pub token_history : List Address → List (ValidPath × Text) → List (ℕ × Bool)
token_history start_tokens [] = []
token_history start_tokens ((valid, e) ∷ failures) =
    if counts_strike e
    then token_blows start_tokens (is_instant e) valid.arb.path.steps
      ++ token_history start_tokens failures
    else token_history start_tokens failures

unfoldable pub on_errors :
    TxSenderConfig → List Address → List (ValidPath × Text) → Tallies → Tallies
on_errors config start_tokens [] t = t
on_errors config start_tokens ((valid, e) ∷ failures) t =
    on_errors config start_tokens failures (on_error config start_tokens valid e t)

abbrev struck_by : TxSenderConfig → List Address → ValidPath → Text → Tallies → Tallies
struck_by config start_tokens valid e t = record {
  paths = strike config.strike_threshold (is_instant e) valid.arb.path.hash t.paths;
  tokens =
      strike_steps start_tokens config.strike_threshold (is_instant e) valid.arb.path.steps
        t.tokens;
}

on_error_lem :
    (config : TxSenderConfig) (start_tokens : List Address) (valid : ValidPath) (e : Text)
    (t : Tallies)
    → on_error config start_tokens valid e t
      ≡ (if counts_strike e then struck_by config start_tokens valid e t else t)
unfolding on_error
on_error_lem config start_tokens valid e t = elim (Bool-cases (is_revert e)) [
  | inr other ↦ rw other refl
  | inl revert ↦ elim (Bool-cases (is_repay_insufficient e)) [
    | inl marginal ↦ rw (revert, marginal) refl
    | inr counted ↦ rw (revert, counted) refl
  ]
]

on_errors_lem :
    (config : TxSenderConfig) (start_tokens : List Address) (failures : List (ValidPath × Text))
    (t : Tallies)
    → ((on_errors config start_tokens failures t).paths
        ≡ strike_all config.strike_threshold (path_history failures) t.paths)
      × ((on_errors config start_tokens failures t).tokens
          ≡ strike_all config.strike_threshold (token_history start_tokens failures) t.tokens)
unfolding on_errors
on_errors_lem config start_tokens [] t = unfold strike_all in (refl, refl)
on_errors_lem config start_tokens ((valid, e) ∷ failures) t =
    rw (on_error_lem config start_tokens valid e t, on_errors)
      (elim (Bool-cases (counts_strike e)) [
        | inr other ↦ rw other (on_errors_lem config start_tokens failures t)
        | inl counted ↦
            let (ih, ih') =
              on_errors_lem config start_tokens failures
                (struck_by config start_tokens valid e t) in
            rw counted (
              ih ∙ unfold strike_all in refl,
              ih'
                  ∙ ap (strike_all config.strike_threshold (token_history start_tokens failures)) (
                      strike_steps_lem start_tokens config.strike_threshold (is_instant e)
                        valid.arb.path.steps t.tokens)
                  ∙ sym (
                      strike_all-append config.strike_threshold
                        (token_blows start_tokens (is_instant e) valid.arb.path.steps)
                        (token_history start_tokens failures) t.tokens),
            )
      ])

abbrev pub empty_tally : Tally
empty_tally = record { counts = []; blacklisted = [] }

abbrev pub no_strikes : Tallies
no_strikes = record { paths = empty_tally; tokens = empty_tally }

-- After any history of failures, a path or a token is blacklisted exactly if a failure that counts
-- has struck it at once, or as often as the threshold says. A failure counts if it is a revert that
-- is not a missing repayment; a token that the bot starts from is never struck, and any other token
-- once for each swap that it enters or leaves. The threshold is positive, and the strikes are fewer
-- than 2^32.
pub blacklisted-on_errors :
    (config : TxSenderConfig) (start_tokens : List Address) (failures : List (ValidPath × Text))
    (key : ℕ)
    → 0 < config.strike_threshold
    → times key (path_history failures) < 2 ^ 32
    → times key (token_history start_tokens failures) < 2 ^ 32
    → (contains key (on_errors config start_tokens failures no_strikes).paths.blacklisted ≡ (
        at_once key (path_history failures)
        || leb config.strike_threshold (times key (path_history failures))))
      × (contains key (on_errors config start_tokens failures no_strikes).tokens.blacklisted ≡ (
          at_once key (token_history start_tokens failures)
          || leb config.strike_threshold (times key (token_history start_tokens failures))))
unfolding contains lookup
blacklisted-on_errors config start_tokens failures key pos few few' =
    let (paths, tokens) = on_errors_lem config start_tokens failures no_strikes in
    let zero_add = λ (n : ℕ). let e : 0 + n ≡ n = omega arith in e in
    (
      rw paths (
          contains-strike_all config.strike_threshold key (path_history failures) empty_tally
            (omega arith) (λ h. ground arith)
          ∙ ap (λ (n : ℕ). at_once key (path_history failures) || leb config.strike_threshold n)
              (zero_add _)),
      rw tokens (
          contains-strike_all config.strike_threshold key (token_history start_tokens failures)
            empty_tally (omega arith) (λ h. ground arith)
          ∙ ap
              (λ (n : ℕ).
                at_once key (token_history start_tokens failures) || leb config.strike_threshold n)
              (zero_add _)),
    )

times-unless_start :
    (start_tokens : List Address) (i : Bool) (k token : Address) (blows : List (ℕ × Bool))
    → contains token start_tokens ≡ true
    → times token (unless_start start_tokens i k blows) ≡ times token blows
times-unless_start start_tokens i k token blows h = elim (Bool-cases (k == token)) [
  | inl same ↦ let e : k ≡ token = ground arith in rw e (rw h refl)
  | inr other ↦ elim (Bool-cases (contains k start_tokens)) [
    | inl start ↦ rw start refl
    | inr free ↦ rw free (rw other refl)
  ]
]

times-append :
    (key : ℕ) (xs ys : List (ℕ × Bool)) → times key (xs ++ ys) ≡ times key xs + times key ys
times-append key [] ys = omega arith
times-append key ((k, i) ∷ xs) ys = ground (arith, times-append key xs ys)

times-token_blows :
    (start_tokens : List Address) (i : Bool) (steps : List SwapStep) (token : Address)
    → contains token start_tokens ≡ true
    → times token (token_blows start_tokens i steps) ≡ 0
times-token_blows start_tokens i [] token h = refl
times-token_blows start_tokens i (step ∷ steps) token h =
    times-unless_start start_tokens i step.token_in token
      (unless_start start_tokens i step.token_out (token_blows start_tokens i steps)) h
    ∙ times-unless_start start_tokens i step.token_out token (token_blows start_tokens i steps) h
    ∙ times-token_blows start_tokens i steps token h

times-token_history :
    (start_tokens : List Address) (failures : List (ValidPath × Text)) (token : Address)
    → contains token start_tokens ≡ true
    → times token (token_history start_tokens failures) ≡ 0
times-token_history start_tokens [] token h = refl
times-token_history start_tokens ((valid, e) ∷ failures) token h =
    elim (Bool-cases (counts_strike e)) [
      | inr other ↦ rw other (times-token_history start_tokens failures token h)
      | inl counted ↦ rw counted (
          times-append token (token_blows start_tokens (is_instant e) valid.arb.path.steps)
            (token_history start_tokens failures)
          ∙ omega (
            arith,
            times-token_blows start_tokens (is_instant e) valid.arb.path.steps token h,
            times-token_history start_tokens failures token h,
          ))
    ]

at_once_untouched :
    (key : ℕ) (blows : List (ℕ × Bool)) → times key blows ≡ 0 → at_once key blows ≡ false
at_once_untouched key [] h = refl
at_once_untouched key ((k, i) ∷ blows) h = ground (arith, at_once_untouched key blows)

-- No history of failures, whatever their errors, blacklists a token that the bot starts from; the
-- threshold is positive.
pub start_tokens_kept :
    (config : TxSenderConfig) (start_tokens : List Address) (failures : List (ValidPath × Text))
    (token : Address)
    → 0 < config.strike_threshold
    → contains token start_tokens ≡ true
    → contains token (on_errors config start_tokens failures no_strikes).tokens.blacklisted ≡ false
start_tokens_kept config start_tokens failures token pos h =
    let none_struck = times-token_history start_tokens failures token h in
    rw (on_errors_lem config start_tokens failures no_strikes).1 (
      contains-strike_all config.strike_threshold token (token_history start_tokens failures)
        empty_tally (rw none_struck (unfold lookup in omega arith))
        (λ l. absurd (unfold lookup in ground arith))
      ∙ rw (none_struck, at_once_untouched token (token_history start_tokens failures) none_struck)
          (unfold contains lookup in ground arith))
