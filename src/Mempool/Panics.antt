-- ===== src/Mempool/Panics.antt =====
-- Proofs on when the V2 decoder of src/mempool.rs panics, which ends the listener's task.
use native.Mathlib.Nat.{pow-suc}
use arb_bot.Prelude.{
  ℕ, zero, suc, ◌+◌, ◌-◌, ◌*◌, ◌^◌, ◌<◌, ◌≤◌, ◌≡◌, ◌≢◌, ◌↔◌, ◌⊎◌, inl, inr, refl, ◌∙◌, List, [],
  ◌∷◌, some, arith, length, All, take, drop, ltb, ◌||◌, Bool-cases, Option-cases,
}
use arb_bot.Prelude.Arith.{mul-le-bound}
use arb_bot.Prelude.Fallible.{
  Fallible, found, panic, ◌>>=◌, ◌>>◌, refuse_if, slice_lem, slice_reversed,
}
use arb_bot.Word.{add64, add64_exact}
use arb_bot.Swap.Path.{Address}
use arb_bot.StateDb.Slots.{from_be_bytes}
use arb_bot.Mempool.Decode.{
  path_word_idx, selector_of, read_word, read_address, read_path, has_len, decode_v2_swap_path,
}
use arb_bot.Mempool.Encoding.{IsSmall, has_len_passes}

-- A byte string that fits into memory.
pub record IsBytes (calldata : List ℕ) : Type 0 where
  pub small : IsSmall calldata
  pub bytes : All (λ b. b < 256) calldata

from_be_bytes-lt :
    (acc : ℕ) (xs : List ℕ)
    → All (λ b. b < 256) xs
    → from_be_bytes acc xs < (acc + 1) * 256 ^ length xs
unfolding from_be_bytes
from_be_bytes-lt acc [] h = omega arith
from_be_bytes-lt acc (x ∷ xs) h =
    let ih = from_be_bytes-lt (acc * 256 + x) xs h.1 in
    let bound =
      mul-le-bound (acc * 256 + x + 1) (256 ^ length xs) (acc * 256 + 256) (256 ^ length xs)
        (omega arith) (omega arith) in
    rw (pow-suc 256 (length xs)) (omega arith)

All-drop : (n : ℕ) (xs : List ℕ) → All (λ b. b < 256) xs → All (λ b. b < 256) (drop n xs)
All-drop zero xs h = h
All-drop (suc n) [] h = h
All-drop (suc n) (x ∷ xs) h = All-drop n xs h.1

All-take : (n : ℕ) (xs : List ℕ) → All (λ b. b < 256) xs → All (λ b. b < 256) (take n xs)
All-take zero xs h = tt
All-take (suc n) [] h = h
All-take (suc n) (x ∷ xs) h = (h.0, All-take n xs h.1)

length-drop : (n : ℕ) (xs : List ℕ) → length (drop n xs) ≡ length xs - n
length-drop zero xs = omega arith
length-drop (suc n) [] = omega arith
length-drop (suc n) (x ∷ xs) = omega (arith, length-drop n xs)

length-take : (n : ℕ) (xs : List ℕ) → n ≤ length xs → length (take n xs) ≡ n
length-take zero xs h = refl
length-take (suc n) [] h = omega arith
length-take (suc n) (x ∷ xs) h = omega (arith, length-take n xs)

-- A read within the calldata finds a `u64`.
read_word_safe :
    (calldata : List ℕ) (start : ℕ)
    → IsBytes calldata
    → start + 32 ≤ length calldata
    → (v : ℕ) × (read_word calldata start ≡ found v) × (v < 2 ^ 64)
unfolding read_word
read_word_safe calldata start b h =
    let small = b.small in
    let e : add64 start 32 ≡ start + 32 = unfold add64 in omega arith in
    let word = take (start + 32 - start) (drop start calldata) in
    let last = take 8 (drop 24 word) in
    let long : length word ≡ 32 =
      length-take (start + 32 - start) (drop start calldata)
        (omega (arith, length-drop start calldata))
      ∙ omega arith in
    let eight : length last ≡ 8 =
      length-take 8 (drop 24 word) (omega (arith, length-drop 24 word)) in
    let bound = from_be_bytes-lt 0 last (
      All-take 8 (drop 24 word) (
        All-drop 24 word (
          All-take (start + 32 - start) (drop start calldata)
            (All-drop start calldata b.bytes)))) in
    (
      from_be_bytes 0 last,
      rw e (
          rw (slice_lem calldata start (start + 32) (omega arith) h)
            (rw (slice_lem word 24 32 (omega arith) (omega arith)) refl)),
      rw eight at bound,
    )

selector_of_safe :
    (calldata : List ℕ) → 4 ≤ length calldata → (v : ℕ) × (selector_of calldata ≡ found v)
unfolding selector_of
selector_of_safe calldata h =
    (from_be_bytes 0 (take 4 calldata), rw (slice_lem calldata 0 4 (omega arith) h) refl)

cons_found :
    (a : Address) (x : Fallible (List Address))
    → (addrs : List Address) × (x ≡ found addrs)
    → (addrs : List Address) × ((x >>= λ rest. found (a ∷ rest)) ≡ found addrs)
cons_found a x (addrs, e) = (a ∷ addrs, rw e refl)

found-ne-panic :
    (x : Fallible (List Address)) → (addrs : List Address) × (x ≡ found addrs) → x ≢ panic
found-ne-panic x (addrs, e) p = cc

read_path_safe :
    (calldata : List ℕ) (data_start i rounds : ℕ)
    → IsSmall calldata
    → data_start + (i + rounds) * 32 ≤ length calldata
    → (addrs : List Address) × (read_path calldata data_start i rounds ≡ found addrs)
unfolding read_path read_address
read_path_safe calldata data_start i zero small h = ([], refl)
read_path_safe calldata data_start i (suc rounds) small h =
    let start = data_start + i * 32 + 12 in
    let e : add64 (add64 data_start (i * 32)) 12 ≡ start = unfold add64 in omega arith in
    let e' : add64 start 20 ≡ start + 20 = unfold add64 in omega arith in
    rw e (
      rw e' (
        rw (has_len_passes calldata (start + 20) (omega arith)) (
          rw (slice_lem calldata start (start + 20) (omega arith) (omega arith)) (
            cons_found _ _
              (read_path_safe calldata data_start (suc i) rounds small (omega arith))))))

-- What makes the decoder panic: the word that points to the path lies in the last 36 numbers below
-- 2^64 but the last 4, so that the end of the path's length wraps around and its start does not.
pub record HasWrappingOffset (calldata : List ℕ) : Type 0 where
  pub selector : ℕ
  pub word : ℕ
  pub offset : ℕ
  pub selects : selector_of calldata ≡ found selector
  pub is_swap : path_word_idx selector ≡ some word
  pub reaches : 4 + word * 32 + 32 ≤ length calldata
  pub points : read_word calldata (4 + word * 32) ≡ found offset
  pub at_least : 2 ^ 64 - 36 ≤ offset
  pub below : offset < 2 ^ 64 - 4

-- The decoder from the offset on.
decode_from : List ℕ → ℕ → Fallible (List Address)
decode_from calldata offset = do
  has_len calldata (add64 (add64 4 offset) 32)
  path_len ← read_word calldata (add64 4 offset)
  refuse_if (ltb path_len 2 || ltb 10 path_len)
  has_len calldata (add64 (add64 (add64 4 offset) 32) (path_len * 32))
  read_path calldata (add64 (add64 4 offset) 32) 0 path_len

decode_from_wrapping :
    (calldata : List ℕ) (offset : ℕ)
    → 36 ≤ length calldata
    → 2 ^ 64 - 36 ≤ offset
    → offset < 2 ^ 64 - 4
    → decode_from calldata offset ≡ panic
unfolding decode_from read_word
decode_from_wrapping calldata offset len h k =
    let e : add64 4 offset ≡ 4 + offset = unfold add64 in omega arith in
    let e' : add64 (4 + offset) 32 < 32 = unfold add64 in omega arith in
    rw e (
      rw (has_len_passes calldata (add64 (4 + offset) 32) (omega arith))
        (rw (slice_reversed calldata (4 + offset) (add64 (4 + offset) 32) (omega arith)) refl))

-- The tail of the decoder once the path's position does not wrap around.
decode_at_safe :
    (calldata : List ℕ) (start : ℕ)
    → IsBytes calldata
    → start + 32 < 2 ^ 64
    → (has_len calldata (start + 32)
        >> (read_word calldata start >>= λ path_len.
            refuse_if (ltb path_len 2 || ltb 10 path_len)
            >> (has_len calldata (add64 (start + 32) (path_len * 32))
                >> read_path calldata (start + 32) 0 path_len)))
      ≢ panic
decode_at_safe calldata start b h =
    let small = b.small in
    elim (Bool-cases (ltb (length calldata) (start + 32))) [
      | inl short ↦ rw short (λ p. cc)
      | inr long ↦
          let (v, q, r) = read_word_safe calldata start b (ground arith) in
          rw (long, q)
            (elim (Bool-cases (ltb v 2 || ltb 10 v)) [
              | inl odd ↦ rw odd (λ p. cc)
              | inr few ↦
                  let e : add64 (start + 32) (v * 32) ≡ start + 32 + v * 32 =
                    unfold add64 in ground arith in
                  rw (few, e)
                    (elim (Bool-cases (ltb (length calldata) (start + 32 + v * 32))) [
                      | inl cut ↦ rw cut (λ p. cc)
                      | inr fits ↦ rw fits (
                          found-ne-panic _
                            (read_path_safe calldata (start + 32) 0 v b.small (ground arith)))
                    ])
            ])
    ]

decode_from_safe :
    (calldata : List ℕ) (offset : ℕ)
    → IsBytes calldata
    → offset < 2 ^ 64
    → (offset < 2 ^ 64 - 36) ⊎ (2 ^ 64 - 4 ≤ offset)
    → decode_from calldata offset ≢ panic
unfolding decode_from
decode_from_safe calldata offset b small outside =
    let start = add64 4 offset in
    let h : start + 32 < 2 ^ 64 = unfold add64 in ground arith in
    let e : add64 start 32 ≡ start + 32 = add64_exact start 32 h in
    rw e (decode_at_safe calldata start b h)

decode_from-cases :
    (calldata : List ℕ) (offset : ℕ)
    → IsBytes calldata
    → offset < 2 ^ 64
    → (decode_from calldata offset ≢ panic) ⊎ ((2 ^ 64 - 36 ≤ offset) × (offset < 2 ^ 64 - 4))
decode_from-cases calldata offset b h = elim (Bool-cases (ltb offset (2 ^ 64 - 36))) [
  | inl low ↦ inl (decode_from_safe calldata offset b h (inl (ground arith)))
  | inr above ↦ elim (Bool-cases (ltb offset (2 ^ 64 - 4))) [
    | inl e ↦ inr (ground arith, ground arith)
    | inr e ↦ inl (decode_from_safe calldata offset b h (inr (ground arith)))
  ]
]

decode_v2_swap_path-cases :
    (calldata : List ℕ)
    → IsBytes calldata
    → (decode_v2_swap_path calldata ≢ panic) ⊎ HasWrappingOffset calldata
unfolding decode_v2_swap_path
decode_v2_swap_path-cases calldata b = elim (Bool-cases (ltb (length calldata) 4)) [
  | inl short ↦ rw short (inl (λ p. cc))
  | inr long ↦
      let (selector, selects) = selector_of_safe calldata (ground arith) in
      rw (long, selects)
        (elim (Option-cases (path_word_idx selector)) [
          | inl other ↦ rw other (inl (λ p. cc))
          | inr (word, is_swap) ↦
              rw is_swap (elim (Bool-cases (ltb (length calldata) (4 + word * 32 + 32))) [
                | inl cut ↦ rw cut (inl (λ p. cc))
                | inr reaches ↦
                    let (offset, points, small) =
                      read_word_safe calldata (4 + word * 32) b (ground arith) in
                    rw (reaches, points)
                      (elim (decode_from-cases calldata offset b small) [
                        | inl safe ↦ inl (unfold decode_from in safe)
                        | inr (h, k) ↦ inr (record {
                          selector = selector;
                          word = word;
                          offset = offset;
                          selects = selects;
                          is_swap = is_swap;
                          reaches = ground arith;
                          points = points;
                          at_least = h;
                          below = k;
                        })
                      ])
              ])
        ])
]

decode_v2_swap_path-HasWrappingOffset :
    (calldata : List ℕ) → HasWrappingOffset calldata → decode_v2_swap_path calldata ≡ panic
unfolding decode_v2_swap_path
decode_v2_swap_path-HasWrappingOffset calldata w =
    let reaches = w.reaches in
    rw (has_len_passes calldata 4 (omega arith)) (
      rw w.selects (
        rw w.is_swap (
          rw (has_len_passes calldata (4 + w.word * 32 + 32) reaches) (
            rw w.points (
              unfold decode_from in
              decode_from_wrapping calldata w.offset (omega arith) w.at_least w.below)))))

-- The decoder of V2 swaps panics exactly for the calldata whose path offset lies in the last 36
-- numbers below 2^64 but the last 4, after a known selector; the calldata is a byte string shorter
-- than 2^63.
pub decode_v2_swap_path-eq-panic :
    (calldata : List ℕ)
    → IsBytes calldata
    → (decode_v2_swap_path calldata ≡ panic) ↔ HasWrappingOffset calldata
decode_v2_swap_path-eq-panic calldata b = (
  λ p. elim (decode_v2_swap_path-cases calldata b) [ inl safe ↦ absurd (safe p) | inr w ↦ w ],
  decode_v2_swap_path-HasWrappingOffset calldata,
)
