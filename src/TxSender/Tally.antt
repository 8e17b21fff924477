-- ===== src/TxSender/Tally.antt =====
-- Proofs on the counts of strikes of src/tx_sender_pipeline.rs, for one kind of key.
use arb_bot.Prelude.{
  ℕ, ◌+◌, ◌%◌, ◌^◌, ◌<◌, ◌≡◌, refl, ap, sym, ◌∙◌, Bool, true, false, ◌&&◌, ◌||◌, List, [], ◌∷◌,
  arith, leb, ◌==◌, if◌then◌else◌, nat_eq, contains, lookup-insert, Bool-cases, inl, inr,
}
use arb_bot.TxSender.Strikes.{Tally, count_of, add_key, strike, is_instant}

-- A list of strikes: the key, and whether it is instant.
unfoldable pub strike_all : ℕ → List (ℕ × Bool) → Tally → Tally
strike_all threshold [] t = t
strike_all threshold ((key, is_instant) ∷ blows) t =
    strike_all threshold blows (strike threshold is_instant key t)

-- How often a key is struck, and whether it is ever struck at once.
abbrev pub times : ℕ → List (ℕ × Bool) → ℕ
times key [] = 0
times key ((k, is_instant) ∷ blows) =
    let rest = times key blows in if k == key then rest + 1 else rest

abbrev pub at_once : ℕ → List (ℕ × Bool) → Bool
at_once key [] = false
at_once key ((k, is_instant) ∷ blows) = ((k == key) && is_instant) || at_once key blows

-- A key whose count has reached the threshold is blacklisted.
abbrev pub IsSettled : ℕ → ℕ → Tally → Type 0
IsSettled threshold key t =
    leb threshold (count_of key t) ≡ true → contains key t.blacklisted ≡ true

pub contains-add_key :
    (key j : ℕ) (keys : List ℕ) → contains j (add_key key keys) ≡ ((key == j) || contains j keys)
unfolding contains
contains-add_key key j keys = elim (Bool-cases (contains key keys)) [
  | inl old ↦ rw old (known key j keys old)
  | inr new ↦ rw new (ground arith)
]
  where
    known :
        (key j : ℕ) (keys : List ℕ)
        → contains key keys ≡ true
        → contains j keys ≡ ((key == j) || contains j keys)
    known key j keys old = elim (Bool-cases (key == j)) [
      | inl same ↦ let e : key ≡ j = ground arith in rw same (rw (← e) old)
      | inr other ↦ rw other refl
    ]

pub count_of-strike :
    (threshold : ℕ) (i : Bool) (k key : ℕ) (t : Tally)
    → count_of key (strike threshold i k t) ≡ (
        if k == key
        then (if i then threshold else (count_of key t + 1) % 2 ^ 32)
        else count_of key t)
unfolding strike
count_of-strike threshold i k key t =
    ground
      (arith, lookup-insert k key (if i then threshold else (count_of k t + 1) % 2 ^ 32) t.counts)

pub blacklisted-strike :
    (threshold : ℕ) (i : Bool) (k key : ℕ) (t : Tally)
    → contains key (strike threshold i k t).blacklisted ≡ (
        contains key t.blacklisted
        || ((k == key) && (i || leb threshold ((count_of key t + 1) % 2 ^ 32))))
unfolding strike
blacklisted-strike threshold i k key t = ground (arith, contains-add_key k key t.blacklisted)

-- What is blacklisted stays blacklisted.
pub strike_all_mono :
    (threshold key : ℕ) (blows : List (ℕ × Bool)) (t : Tally)
    → contains key t.blacklisted ≡ true
    → contains key (strike_all threshold blows t).blacklisted ≡ true
unfolding strike_all
strike_all_mono threshold key [] t h = h
strike_all_mono threshold key ((k, i) ∷ blows) t h =
    strike_all_mono threshold key blows (strike threshold i k t)
      (blacklisted-strike threshold i k key t ∙ rw h refl)

-- A threshold that is reached now is reached later.
pub later_reaches :
    (x o : Bool) (threshold count rest : ℕ)
    → ((x || leb threshold (count + 1)) || (o || leb threshold (count + 1 + rest)))
      ≡ (x || (o || leb threshold (count + (rest + 1))))
later_reaches x o threshold count rest = ground arith

pub contains-strike_all :
    (threshold key : ℕ) (blows : List (ℕ × Bool)) (t : Tally)
    → count_of key t + times key blows < 2 ^ 32
    → IsSettled threshold key t
    → contains key (strike_all threshold blows t).blacklisted ≡ (
        contains key t.blacklisted
        || (at_once key blows || leb threshold (count_of key t + times key blows)))
unfolding strike_all
contains-strike_all threshold key [] t h settled = ground (arith, settled)
contains-strike_all threshold key ((k, i) ∷ blows) t h settled =
    let t' = strike threshold i k t in
    elim (Bool-cases (k == key)) [
      | inr other ↦
          let c : count_of key t' ≡ count_of key t =
            count_of-strike threshold i k key t ∙ rw other refl in
          let b : contains key t'.blacklisted ≡ contains key t.blacklisted =
            blacklisted-strike threshold i k key t ∙ rw other (ground arith) in
          contains-strike_all threshold key blows t' (rw c (ground arith))
            (λ l. b ∙ settled (ap (leb threshold) (sym c) ∙ l))
          ∙ rw c (rw b (rw other refl))
      | inl same ↦
          struck threshold key k i blows t h same (contains-strike_all threshold key blows t')
    ]
  where
    struck :
        (threshold key k : ℕ) (i : Bool) (blows : List (ℕ × Bool)) (t : Tally)
        → count_of key t + times key ((k, i) ∷ blows) < 2 ^ 32
        → (k == key) ≡ true
        → (count_of key (strike threshold i k t) + times key blows < 2 ^ 32
            → IsSettled threshold key (strike threshold i k t)
            → contains key (strike_all threshold blows (strike threshold i k t)).blacklisted ≡ (
                contains key (strike threshold i k t).blacklisted
                || (at_once key blows
                    || leb threshold (count_of key (strike threshold i k t) + times key blows))))
        → contains key (strike_all threshold blows (strike threshold i k t)).blacklisted ≡ (
            contains key t.blacklisted
            || (at_once key ((k, i) ∷ blows)
                || leb threshold (count_of key t + times key ((k, i) ∷ blows))))
    struck threshold key k true blows t h same ih =
        rw
          (strike_all_mono threshold key blows (strike threshold true k t)
            (blacklisted-strike threshold true k key t ∙ rw same (ground arith)))
          (rw same (ground arith))
    struck threshold key k false blows t h same ih =
        let c : count_of key (strike threshold false k t) ≡ count_of key t + 1 =
          count_of-strike threshold false k key t ∙ rw same (ground arith) in
        let b : contains key (strike threshold false k t).blacklisted
            ≡ (contains key t.blacklisted || leb threshold (count_of key t + 1)) =
          blacklisted-strike threshold false k key t ∙ rw same (ground arith) in
        ih (rw c (ground arith)) (rw c (rw b (λ l. rw l (ground arith))))
        ∙ rw c (
            rw b (
              rw same (
                later_reaches (contains key t.blacklisted) (at_once key blows) threshold
                  (count_of key t) (times key blows))))
