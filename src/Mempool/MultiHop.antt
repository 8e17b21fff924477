-- ===== src/Mempool/MultiHop.antt =====
-- Proofs on the decoder of packed paths in src/mempool.rs, and on the calls that carry one.
use mathlib.Core.List.{append-nil}
use arb_bot.Prelude.{
  ℕ, zero, suc, ◌+◌, ◌-◌, ◌*◌, ◌/◌, ◌^◌, ◌<◌, ◌≤◌, ◌≡◌, refl, ap, sym, ◌∙◌, List, [], ◌∷◌, ◌++◌,
  arith, length, length-append, All, take, drop, ltb, true, false, Bool-cases, inl, inr,
}
use arb_bot.Prelude.Fallible.{Fallible, found, missing, ◌>>=◌, slice, slice_lem}
use arb_bot.Word.{add64, add64_exact}
use arb_bot.Swap.Path.{Address}
use arb_bot.StateDb.Slots.{be_bytes, from_be_bytes}
use arb_bot.Mempool.Decode.{read_address, read_hops, decode_v3_path_bytes, decode_v3_multi_swap}
use arb_bot.Mempool.Encoding.{
  At, At-le, At-first, At-second, At-move, IsSmall, length-be_bytes, read_address-At, read_word-At,
  encode_words, slice-At, has_len_passes,
}

read_address_safe :
    (bytes : List ℕ) (start : ℕ)
    → IsSmall bytes
    → start + 20 ≤ length bytes
    → (a : Address) × (read_address bytes start ≡ found a)
unfolding read_address
read_address_safe bytes start small h =
    let e : add64 start 20 ≡ start + 20 = add64_exact start 20 (omega arith) in
    (
      from_be_bytes 0 (take (start + 20 - start) (drop start bytes)),
      rw e (rw (slice_lem bytes start (start + 20) (omega arith) h) refl),
    )

-- The number of hops of 23 bytes that are left at a position.
abbrev hops_left : List ℕ → ℕ → ℕ
hops_left path position = (length path - position) / 23

-- What a loop has found, and how much of it.
abbrev Finds : Fallible (List Address) → ℕ → Type 0
Finds x n = (addrs : List Address) × (x ≡ found addrs) × (length addrs ≡ n)

cons_hop :
    (a : Address) (x : Fallible (List Address)) (n : ℕ)
    → Finds x n
    → Finds (x >>= λ rest. found (a ∷ rest)) (suc n)
cons_hop a x n (addrs, e, len) = (a ∷ addrs, rw e refl, ap suc len)

read_hops_total :
    (fuel : ℕ) (path : List ℕ) (position : ℕ)
    → IsSmall path
    → position ≤ length path
    → hops_left path position < fuel
    → Finds (read_hops fuel path position) (hops_left path position)
unfolding read_hops
read_hops_total zero path position small h lt = absurd (omega arith)
read_hops_total (suc fuel) path position small h lt =
    elim (Bool-cases (ltb (length path) (position + 23))) [
      | inl done ↦ rw (done, read_hops) ([], refl, ground arith)
      | inr more ↦
          let (a, q) = read_address_safe path (position + 3) small (ground arith) in
          let e : hops_left path position ≡ suc (hops_left path (position + 3 + 20)) =
            ground arith in
          rw (more, read_hops)
            (rw q (
              rw e (
                cons_hop a _ _ (
                  read_hops_total fuel path (position + 3 + 20) small (ground arith)
                    (omega arith)))))
    ]

-- Every packed path of at least 43 bytes is decoded, into one address and one more for each further
-- 23 bytes; a shorter one is refused.
pub decode_v3_path_bytes_total :
    (path : List ℕ)
    → IsSmall path
    → (length path < 43 → decode_v3_path_bytes path ≡ missing)
      × (43 ≤ length path
          → (addrs : List Address) × (decode_v3_path_bytes path ≡ found addrs)
            × (length addrs ≡ 1 + (length path - 20) / 23))
unfolding decode_v3_path_bytes
decode_v3_path_bytes_total path small = (
  λ short. let e : ltb (length path) 43 ≡ true = ground arith in rw e refl,
  λ long.
      let e : ltb (length path) 43 ≡ false = ground arith in
      let (first, q) = read_address_safe path 0 small (omega arith) in
      let (others, r, len) =
        read_hops_total (length path) path 20 small (omega arith) (omega arith) in
      let many : ltb (suc (length others)) 2 ≡ false = ground arith in
      (first ∷ others, rw (e, q) (rw r (rw many refl)), omega arith),
)

-- The packed encoding: each further token behind the three bytes of a fee tier.
abbrev pub encode_hops : List (ℕ × Address) → List ℕ
encode_hops [] = []
encode_hops ((fee, token) ∷ hops) = be_bytes 3 fee ++ (be_bytes 20 token ++ encode_hops hops)

abbrev pub tokens_of : List (ℕ × Address) → List Address
tokens_of [] = []
tokens_of ((fee, token) ∷ hops) = token ∷ tokens_of hops

length-encode_hops : (hops : List (ℕ × Address)) → length (encode_hops hops) ≡ length hops * 23
length-encode_hops [] = refl
length-encode_hops ((fee, token) ∷ hops) =
    length-append (be_bytes 3 fee) (be_bytes 20 token ++ encode_hops hops)
    ∙ omega (
      arith,
      length-append (be_bytes 20 token) (encode_hops hops),
      length-be_bytes 3 fee,
      length-be_bytes 20 token,
      length-encode_hops hops,
    )

read_hops-encode_hops :
    (fuel : ℕ) (path : List ℕ) (position : ℕ) (hops : List (ℕ × Address))
    → IsSmall path
    → All (λ a. a < 2 ^ 160) (tokens_of hops)
    → At path position (encode_hops hops)
    → length path ≡ position + length hops * 23
    → length hops < fuel
    → read_hops fuel path position ≡ found (tokens_of hops)
unfolding read_hops
read_hops-encode_hops zero path position hops small addrs at len lt = absurd (omega arith)
read_hops-encode_hops (suc fuel) path position [] small addrs at len lt =
    let done : ltb (length path) (position + 23) ≡ true = ground arith in rw (done, read_hops) refl
read_hops-encode_hops (suc fuel) path position ((fee, token) ∷ hops) small addrs at len lt =
    let more : ltb (length path) (position + 23) ≡ false = ground arith in
    let l3 = length-be_bytes 3 fee in
    let l20 = length-be_bytes 20 token in
    let rest =
      At-move path (position + length (be_bytes 3 fee)) (position + 3) _ (omega arith)
        (At-second path position (be_bytes 3 fee) (be_bytes 20 token ++ encode_hops hops) at) in
    let token_at = At-first path (position + 3) (be_bytes 20 token) (encode_hops hops) rest in
    let hops_at =
      At-move path (position + 3 + length (be_bytes 20 token)) (position + 3 + 20) _ (omega arith)
        (At-second path (position + 3) (be_bytes 20 token) (encode_hops hops) rest) in
    rw (more, read_hops)
      (rw (read_address-At path (position + 3) token small addrs.0 token_at) (
        rw
          (read_hops-encode_hops fuel path (position + 3 + 20) hops small addrs.1 hops_at
            (omega arith) (omega arith))
          refl))

-- A packed path is read back: its first token and the tokens behind its fee tiers, of which there is
-- at least one; tokens are addresses, and the path is shorter than 2^63 bytes.
pub decode_v3_path_bytes-encode_hops :
    (first fee token : ℕ) (hops : List (ℕ × Address))
    → first < 2 ^ 160
    → All (λ a. a < 2 ^ 160) (tokens_of ((fee, token) ∷ hops))
    → IsSmall (be_bytes 20 first ++ encode_hops ((fee, token) ∷ hops))
    → decode_v3_path_bytes (be_bytes 20 first ++ encode_hops ((fee, token) ∷ hops))
      ≡ found (first ∷ tokens_of ((fee, token) ∷ hops))
unfolding decode_v3_path_bytes
decode_v3_path_bytes-encode_hops first fee token hops h addrs small =
    let path = be_bytes 20 first ++ encode_hops ((fee, token) ∷ hops) in
    let all = encode_hops ((fee, token) ∷ hops) in
    let l20 = length-be_bytes 20 first in
    let len : length path ≡ 20 + length ((fee, token) ∷ hops) * 23 =
      length-append (be_bytes 20 first) all
      ∙ omega (arith, length-encode_hops ((fee, token) ∷ hops)) in
    let at_first : At path 0 (be_bytes 20 first) = ([], all, refl, refl) in
    let at_hops : At path 20 all = (
      be_bytes 20 first,
      [],
      ap (λ (l : List ℕ). be_bytes 20 first ++ l) (sym (append-nil all)),
      sym l20,
    ) in
    rw (has_len_passes path 43 (omega arith)) (
      rw (read_address-At path 0 first small h at_first) (
        rw
          (read_hops-encode_hops (length path) path 20 ((fee, token) ∷ hops) small addrs at_hops len
            (omega arith))
          (let many : ltb (suc (suc (length (tokens_of hops)))) 2 ≡ false = ground arith in
            rw many refl)))

-- A call of `exactInput` as a contract decodes it: its one argument is a tuple with a member of
-- varying size, so the first word points to the tuple, whose own first word points to the path.
pub record IsExactInput (calldata : List ℕ) (recipient deadline amount_in least : ℕ)
    (packed : List ℕ) : Type 0 where
  pub small : IsSmall calldata
  pub tuple : At calldata 4 (be_bytes 32 32)
  pub members :
      At calldata 36
        (encode_words (160 ∷ recipient ∷ deadline ∷ amount_in ∷ least ∷ length packed ∷ []))
  pub path : At calldata 228 packed

-- What the decoder takes for the path of such a call: the other members of the tuple.
pub mistaken : ℕ → ℕ → ℕ → ℕ → List ℕ → List ℕ
mistaken recipient deadline amount_in least packed =
    encode_words (recipient ∷ deadline ∷ amount_in ∷ least ∷ length packed ∷ [])

length-mistaken :
    (recipient deadline amount_in least : ℕ) (packed : List ℕ)
    → length (mistaken recipient deadline amount_in least packed) ≡ 160
unfolding mistaken be_bytes
length-mistaken recipient deadline amount_in least packed = refl

decode_v3_multi_swap_tuple :
    (calldata : List ℕ) (recipient deadline amount_in least : ℕ) (packed : List ℕ)
    → IsExactInput calldata recipient deadline amount_in least packed
    → decode_v3_multi_swap calldata
      ≡ decode_v3_path_bytes (mistaken recipient deadline amount_in least packed)
unfolding decode_v3_multi_swap
decode_v3_multi_swap_tuple calldata recipient deadline amount_in least packed c =
    let bytes = mistaken recipient deadline amount_in least packed in
    let len = length-mistaken recipient deadline amount_in least packed in
    let l32 = length-be_bytes 32 160 in
    let word = At-first calldata 36 (be_bytes 32 160) bytes (unfold mistaken in c.members) in
    let rest : At calldata 68 bytes =
      At-move calldata (36 + length (be_bytes 32 160)) 68 bytes (omega arith)
        (At-second calldata 36 (be_bytes 32 160) bytes (unfold mistaken in c.members)) in
    let le = At-le calldata 68 bytes rest in
    let small = c.small in
    let e : 228 ≤ length calldata = omega arith in
    let cut : slice calldata 68 228 ≡ found bytes =
      ap (slice calldata 68) (omega arith) ∙ slice-At calldata 68 bytes rest in
    rw (has_len_passes calldata 36 (omega arith)) (
      rw (read_word-At calldata 4 32 c.small (omega arith) c.tuple) (
        unfold add64 in
        rw (has_len_passes calldata 68 (omega arith)) (
          rw (read_word-At calldata 36 160 c.small (omega arith) word)
            (rw (has_len_passes calldata 228 e) (rw cut refl)))))

-- A genuine call of `exactInput` is decoded into seven tokens, whatever path it carries: they are
-- cut out of the recipient, the deadline, the two amounts and the length of the path, and the path
-- itself is never read.
pub decode_v3_multi_swap-IsExactInput :
    (calldata : List ℕ) (recipient deadline amount_in least : ℕ) (packed : List ℕ)
    → IsExactInput calldata recipient deadline amount_in least packed
    → (addrs : List Address) × (decode_v3_multi_swap calldata ≡ found addrs)
      × (decode_v3_path_bytes (mistaken recipient deadline amount_in least packed) ≡ found addrs)
      × (length addrs ≡ 7)
decode_v3_multi_swap-IsExactInput calldata recipient deadline amount_in least packed c =
    let bytes = mistaken recipient deadline amount_in least packed in
    let len = length-mistaken recipient deadline amount_in least packed in
    let (addrs, e, l) = (decode_v3_path_bytes_total bytes (omega arith)).1 (omega arith) in
    (
      addrs,
      decode_v3_multi_swap_tuple calldata recipient deadline amount_in least packed c ∙ e,
      e,
      l ∙ rw len refl,
    )
