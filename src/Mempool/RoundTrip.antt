-- ===== src/Mempool/RoundTrip.antt =====
-- Proofs that the decoders of src/mempool.rs read back what the calls were encoded from.
use arb_bot.Prelude.{
  ℕ, suc, ◌+◌, ◌*◌, ◌^◌, ◌<◌, ◌≤◌, ◌≡◌, refl, ap, ◌∙◌, List, [], ◌∷◌, some, arith, length,
  length-append, ltb, ◌||◌,
}
use arb_bot.Prelude.Fallible.{found, refuse_if, slice}
use arb_bot.Word.{add64}
use arb_bot.Swap.Path.{Address}
use arb_bot.StateDb.Slots.{be_bytes}
use arb_bot.Mempool.Decode.{
  v2_swap, path_word_idx, swap_call, selector_of, decode_v2_swap_path, decode_any_swap,
}
use arb_bot.Mempool.Encoding.{
  At, At-le, At-move, IsSmall, AreAddresses, encode_words, length-be_bytes, from_be_bytes-be_bytes,
  slice-At, read_word-At, read_path-encode_words, has_len_passes,
}

selector_of-At :
    (calldata : List ℕ) (selector : ℕ)
    → selector < 2 ^ 32
    → At calldata 0 (be_bytes 4 selector)
    → selector_of calldata ≡ found selector
unfolding selector_of
selector_of-At calldata selector h at =
    let len = length-be_bytes 4 selector in
    let cut : slice calldata 0 4 ≡ found (be_bytes 4 selector) =
      ap (slice calldata 0) (omega arith) ∙ slice-At calldata 0 (be_bytes 4 selector) at in
    rw cut (ap found (from_be_bytes-be_bytes 4 selector (omega arith)))

swap_call-v2 :
    (selector : ℕ) {word : ℕ} → path_word_idx selector ≡ some word → swap_call selector ≡ v2_swap
unfolding swap_call path_word_idx
swap_call-v2 selector h = ground arith

-- The functions of a V2 router that swap along a path, with their selectors and parameters.
pub data RouterFunction : Type 0 where
  exact_tokens_for_tokens tokens_for_exact_tokens exact_eth_for_tokens : RouterFunction
  exact_tokens_for_eth exact_tokens_for_tokens_fee exact_tokens_for_eth_fee : RouterFunction

pub data Parameter : Type 0 where
  amount path to deadline : Parameter

abbrev pub router_selector : RouterFunction → ℕ
router_selector exact_tokens_for_tokens = 0x38ed1739
router_selector tokens_for_exact_tokens = 0x8803dbee
router_selector exact_eth_for_tokens = 0x7ff36ab5
router_selector exact_tokens_for_eth = 0x18cbafe5
router_selector exact_tokens_for_tokens_fee = 0x5c11d795
router_selector exact_tokens_for_eth_fee = 0x791ac947

-- The input of a swap of native coins is no parameter.
abbrev pub parameters : RouterFunction → List Parameter
parameters exact_eth_for_tokens = amount ∷ path ∷ to ∷ deadline ∷ []
parameters exact_tokens_for_tokens = amount ∷ amount ∷ path ∷ to ∷ deadline ∷ []
parameters tokens_for_exact_tokens = amount ∷ amount ∷ path ∷ to ∷ deadline ∷ []
parameters exact_tokens_for_eth = amount ∷ amount ∷ path ∷ to ∷ deadline ∷ []
parameters exact_tokens_for_tokens_fee = amount ∷ amount ∷ path ∷ to ∷ deadline ∷ []
parameters exact_tokens_for_eth_fee = amount ∷ amount ∷ path ∷ to ∷ deadline ∷ []

-- The number of words before that of the path.
abbrev pub words_before_path : List Parameter → ℕ
words_before_path [] = 0
words_before_path (path ∷ ps) = 0
words_before_path (amount ∷ ps) = suc (words_before_path ps)
words_before_path (to ∷ ps) = suc (words_before_path ps)
words_before_path (deadline ∷ ps) = suc (words_before_path ps)

path_word_idx_lem :
    (f : RouterFunction)
    → path_word_idx (router_selector f) ≡ some (words_before_path (parameters f))
unfolding path_word_idx
path_word_idx_lem exact_tokens_for_tokens = refl
path_word_idx_lem tokens_for_exact_tokens = refl
path_word_idx_lem exact_eth_for_tokens = refl
path_word_idx_lem exact_tokens_for_eth = refl
path_word_idx_lem exact_tokens_for_tokens_fee = refl
path_word_idx_lem exact_tokens_for_eth_fee = refl

router_selector_small : (f : RouterFunction) → router_selector f < 2 ^ 32
router_selector_small exact_tokens_for_tokens = omega arith
router_selector_small tokens_for_exact_tokens = omega arith
router_selector_small exact_eth_for_tokens = omega arith
router_selector_small exact_tokens_for_eth = omega arith
router_selector_small exact_tokens_for_tokens_fee = omega arith
router_selector_small exact_tokens_for_eth_fee = omega arith

-- The calldata of a call of such a function: the selector, the word that points to the path, the
-- number of its tokens, and the tokens.
pub record IsV2Call (calldata : List ℕ) (f : RouterFunction) (offset : ℕ) (tokens : List Address)
    : Type 0 where
  pub small : IsSmall calldata
  pub starts : At calldata 0 (be_bytes 4 (router_selector f))
  pub points : At calldata (4 + words_before_path (parameters f) * 32) (be_bytes 32 offset)
  pub counts : At calldata (4 + offset) (be_bytes 32 (length tokens))
  pub holds : At calldata (4 + offset + 32) (encode_words tokens)
  pub addresses : AreAddresses tokens
  pub at_least : 2 ≤ length tokens
  pub at_most : length tokens ≤ 10

length-encode_words : (path : List ℕ) → length (encode_words path) ≡ length path * 32
length-encode_words [] = refl
length-encode_words (w ∷ ws) =
    length-append (be_bytes 32 w) (encode_words ws)
    ∙ omega (arith, length-be_bytes 32 w, length-encode_words ws)

decode_v2_swap_path-IsV2Call :
    (calldata : List ℕ) (f : RouterFunction) (offset : ℕ) (tokens : List Address)
    → IsV2Call calldata f offset tokens
    → decode_v2_swap_path calldata ≡ found tokens
unfolding decode_v2_swap_path
decode_v2_swap_path-IsV2Call calldata f offset tokens c =
    let selector = router_selector f in
    let word = words_before_path (parameters f) in
    let le1 = At-le calldata (4 + word * 32) (be_bytes 32 offset) c.points in
    let le2 = At-le calldata (4 + offset) (be_bytes 32 (length tokens)) c.counts in
    let le3 = At-le calldata (4 + offset + 32) (encode_words tokens) c.holds in
    let l1 = length-be_bytes 32 offset in
    let l2 = length-be_bytes 32 (length tokens) in
    let l3 = length-encode_words tokens in
    let small = c.small in
    let e1 : add64 4 offset ≡ 4 + offset = unfold add64 in omega arith in
    let e2 : add64 (4 + offset) 32 ≡ 4 + offset + 32 = unfold add64 in omega arith in
    let e3 : add64 (4 + offset + 32) (length tokens * 32) ≡ 4 + offset + 32 + length tokens * 32 =
      unfold add64 in omega arith in
    let few = c.at_least in
    let many = c.at_most in
    let fits : refuse_if (ltb (length tokens) 2 || ltb 10 (length tokens)) ≡ found tt =
      ground arith in
    rw (has_len_passes calldata 4 (omega arith)) (
      rw (selector_of-At calldata selector (router_selector_small f) c.starts) (
        rw (path_word_idx_lem f) (
          rw (has_len_passes calldata (4 + word * 32 + 32) (omega arith)) (
            rw (read_word-At calldata (4 + word * 32) offset c.small (omega arith) c.points) (
              rw e1 (
                rw e2 (
                  rw (has_len_passes calldata (4 + offset + 32) (omega arith)) (
                    rw
                      (read_word-At calldata (4 + offset) (length tokens) c.small (omega arith)
                        c.counts)
                      (rw fits (
                        rw e3 (
                          rw
                            (has_len_passes calldata (4 + offset + 32 + length tokens * 32)
                              (omega arith))
                            (read_path-encode_words calldata (4 + offset + 32) 0 tokens c.small
                              c.addresses
                              (At-move calldata _ (4 + offset + 32 + 0 * 32) (encode_words tokens)
                                (omega arith) c.holds)))))))))))))

-- Every well-formed V2 swap call is recognised, and its token path is read back exactly: it calls
-- one of the router's six functions, whose parameter for the path points to a list of 2 to 10
-- addresses, wherever in the calldata that is, and the calldata is shorter than 2^63 bytes.
pub decode_any_swap-IsV2Call :
    (calldata : List ℕ) (f : RouterFunction) (offset : ℕ) (tokens : List Address)
    → IsV2Call calldata f offset tokens
    → decode_any_swap calldata ≡ found tokens
unfolding decode_any_swap
decode_any_swap-IsV2Call calldata f offset tokens c =
    let selector = router_selector f in
    let le = At-le calldata 0 (be_bytes 4 selector) c.starts in
    let len = length-be_bytes 4 selector in
    rw (has_len_passes calldata 4 (omega arith)) (
      rw (selector_of-At calldata selector (router_selector_small f) c.starts) (
        rw (swap_call-v2 selector (path_word_idx_lem f))
          (decode_v2_swap_path-IsV2Call calldata f offset tokens c)))
