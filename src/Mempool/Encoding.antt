-- ===== src/Mempool/Encoding.antt =====
-- The encoding of calldata that the decoders of Mempool.Decode are to read: words of 32 bytes and
-- packed paths, with what the readers find in them.
use mathlib.Core.List.{append_assoc}
use native.Mathlib.Nat.{div-lt_iff_lt-mul, pow-suc}
use arb_bot.Prelude.{
  ℕ, zero, suc, ◌+◌, ◌*◌, ◌/◌, ◌%◌, ◌^◌, ◌<◌, ◌≤◌, ◌≡◌, refl, ap, sym, ◌∙◌, List, [], ◌∷◌, ◌++◌,
  arith, length, length-append, All,
}
use arb_bot.Prelude.Fallible.{found, slice, slice-append}
use arb_bot.Word.{add64, add64_exact}
use arb_bot.Swap.Path.{Address}
use arb_bot.StateDb.Slots.{be_bytes, from_be_bytes}
use arb_bot.Mempool.Decode.{read_word, read_address, read_path, has_len}

pub length-be_bytes : (n v : ℕ) → length (be_bytes n v) ≡ n
unfolding be_bytes
length-be_bytes zero v = refl
length-be_bytes (suc n) v =
    length-append (be_bytes n (v / 256)) (v % 256 ∷ []) ∙ omega (arith, length-be_bytes n (v / 256))

from_be_bytes-append :
    (acc : ℕ) (xs ys : List ℕ)
    → from_be_bytes acc (xs ++ ys) ≡ from_be_bytes (from_be_bytes acc xs) ys
unfolding from_be_bytes
from_be_bytes-append acc [] ys = refl
from_be_bytes-append acc (x ∷ xs) ys = from_be_bytes-append (acc * 256 + x) xs ys

-- Big-endian bytes are read back.
pub from_be_bytes-be_bytes : (n v : ℕ) → v < 256 ^ n → from_be_bytes 0 (be_bytes n v) ≡ v
unfolding be_bytes from_be_bytes
from_be_bytes-be_bytes zero v h = omega arith
from_be_bytes-be_bytes (suc n) v h =
    from_be_bytes-append 0 (be_bytes n (v / 256)) (v % 256 ∷ [])
    ∙ rw
        (from_be_bytes-be_bytes n (v / 256)
          ((div-lt_iff_lt-mul (omega arith)).1 (rw (← pow-suc 256 n) h)))
        (omega arith)

-- A string of bytes that stands at a position of the calldata.
abbrev pub At : List ℕ → ℕ → List ℕ → Type 0
At calldata start bytes =
    (pre : List ℕ) × (post : List ℕ) × (calldata ≡ pre ++ (bytes ++ post)) × (start ≡ length pre)

abbrev pub IsSmall : List ℕ → Type 0
IsSmall calldata = length calldata < 2 ^ 63

pub At-le :
    (calldata : List ℕ) (start : ℕ) (bytes : List ℕ)
    → At calldata start bytes
    → start + length bytes ≤ length calldata
At-le calldata start bytes (pre, post, e, s) =
    rw e (omega (arith, length-append pre (bytes ++ post), length-append bytes post))

pub slice-At :
    (calldata : List ℕ) (start : ℕ) (bytes : List ℕ)
    → At calldata start bytes
    → slice calldata start (start + length bytes) ≡ found bytes
slice-At calldata start bytes (pre, post, e, s) =
    rw e (slice-append pre bytes post start (start + length bytes) s (omega arith))

-- The last 8 of the 32 bytes of a word.
word_bytes : (v : ℕ) → slice (be_bytes 32 v) 24 32 ≡ found (be_bytes 8 v)
unfolding slice be_bytes
word_bytes v = refl

shift_bytes : ℕ → ℕ → ℕ
shift_bytes zero v = v
shift_bytes (suc n) v = shift_bytes n (v / 256)

-- The last 20 of the 32 bytes of a word.
word_address : (v : ℕ) → (pre : List ℕ) × (length pre ≡ 12) × (be_bytes 32 v ≡ pre ++ be_bytes 20 v)
unfolding be_bytes shift_bytes
word_address v = (be_bytes 12 (shift_bytes 20 v), refl, refl)

pub read_word-At :
    (calldata : List ℕ) (start v : ℕ)
    → IsSmall calldata
    → v < 2 ^ 64
    → At calldata start (be_bytes 32 v)
    → read_word calldata start ≡ found v
unfolding read_word
read_word-At calldata start v small h at =
    let le = At-le calldata start (be_bytes 32 v) at in
    let len = length-be_bytes 32 v in
    let e : add64 start 32 ≡ start + length (be_bytes 32 v) =
      add64_exact start 32 (omega arith) ∙ omega arith in
    rw e (
      rw (slice-At calldata start (be_bytes 32 v) at)
        (rw (word_bytes v) (ap found (from_be_bytes-be_bytes 8 v (omega arith)))))

pub read_address-At :
    (calldata : List ℕ) (start v : ℕ)
    → IsSmall calldata
    → v < 2 ^ 160
    → At calldata start (be_bytes 20 v)
    → read_address calldata start ≡ found v
unfolding read_address
read_address-At calldata start v small h at =
    let le = At-le calldata start (be_bytes 20 v) at in
    let len = length-be_bytes 20 v in
    let e : add64 start 20 ≡ start + length (be_bytes 20 v) =
      add64_exact start 20 (omega arith) ∙ omega arith in
    rw e (
      rw (slice-At calldata start (be_bytes 20 v) at)
        (ap found (from_be_bytes-be_bytes 20 v (omega arith))))

-- An address is right-aligned in its word.
At-address :
    (calldata : List ℕ) (start v : ℕ)
    → At calldata start (be_bytes 32 v)
    → At calldata (start + 12) (be_bytes 20 v)
At-address calldata start v (pre, post, e, s) =
    let (zeros, len, split) = word_address v in
    (
      pre ++ zeros,
      post,
      e ∙ ap (λ (w : List ℕ). pre ++ (w ++ post)) split ∙ simp append_assoc,
      rw (length-append pre zeros) (omega arith),
    )

-- The first and the second of two strings that stand one after the other.
pub At-first :
    (calldata : List ℕ) (start : ℕ) (xs ys : List ℕ)
    → At calldata start (xs ++ ys)
    → At calldata start xs
At-first calldata start xs ys (pre, post, e, s) = (pre, ys ++ post, e ∙ simp append_assoc, s)

pub At-second :
    (calldata : List ℕ) (start : ℕ) (xs ys : List ℕ)
    → At calldata start (xs ++ ys)
    → At calldata (start + length xs) ys
At-second calldata start xs ys (pre, post, e, s) =
    (pre ++ xs, post, e ∙ simp append_assoc, rw (length-append pre xs) (omega arith))

pub At-move :
    (calldata : List ℕ) (start start' : ℕ) (bytes : List ℕ)
    → start ≡ start'
    → At calldata start bytes
    → At calldata start' bytes
At-move calldata start start' bytes e (pre, post, q, s) = (pre, post, q, sym e ∙ s)

-- Words one after another.
abbrev pub encode_words : List ℕ → List ℕ
encode_words [] = []
encode_words (w ∷ ws) = be_bytes 32 w ++ encode_words ws

pub has_len_passes :
    (calldata : List ℕ) (n : ℕ) → n ≤ length calldata → has_len calldata n ≡ found tt
has_len_passes calldata n h = ground arith

abbrev pub AreAddresses : List ℕ → Type 0
AreAddresses = All (λ a. a < 2 ^ 160)

-- The loop of `decode_v2_swap_path` reads an encoded list of addresses.
pub read_path-encode_words :
    (calldata : List ℕ) (data_start i : ℕ) (path : List Address)
    → IsSmall calldata
    → AreAddresses path
    → At calldata (data_start + i * 32) (encode_words path)
    → read_path calldata data_start i (length path) ≡ found path
unfolding read_path
read_path-encode_words calldata data_start i [] small addrs at = refl
read_path-encode_words calldata data_start i (a ∷ path) small addrs at =
    let here =
      At-address calldata (data_start + i * 32) a
        (At-first calldata (data_start + i * 32) (be_bytes 32 a) (encode_words path) at) in
    let le = At-le calldata (data_start + i * 32 + 12) (be_bytes 20 a) here in
    let len = length-be_bytes 20 a in
    let len' = length-be_bytes 32 a in
    let there = At-second calldata (data_start + i * 32) (be_bytes 32 a) (encode_words path) at in
    let e : add64 (add64 data_start (i * 32)) 12 ≡ data_start + i * 32 + 12 =
      unfold add64 in omega arith in
    let e' : add64 (data_start + i * 32 + 12) 20 ≡ data_start + i * 32 + 12 + 20 =
      unfold add64 in omega arith in
    rw e (
      rw e' (
        rw (has_len_passes calldata (data_start + i * 32 + 12 + 20) (omega arith)) (
          rw (read_address-At calldata (data_start + i * 32 + 12) a small addrs.0 here) (
            rw
              (read_path-encode_words calldata data_start (suc i) path small addrs.1 (
                At-move calldata _ (data_start + suc i * 32) (encode_words path) (omega arith)
                  there))
              refl))))
