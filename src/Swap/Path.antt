-- ===== src/Swap/Path.antt =====
-- `SwapStep` and `SwapPath` of src/swap_types.rs. The hasher of the standard library is a parameter.
use arb_bot.Prelude.{ℕ, Bool, List, [], ◌∷◌, map, ◌==◌, length, any}
use arb_bot.Swap.Protocol.{PoolProtocol, to_quoter_version}

-- An address, by its twenty bytes read as a number: the order of the bytes is that of the numbers.
abbrev pub Address : Type 0
Address = ℕ

pub record SwapStep : Type 0 where
  pub pool_address : Address
  pub token_in : Address
  pub token_out : Address
  pub protocol : PoolProtocol
  pub fee : ℕ

pub record SwapPath : Type 0 where
  pub steps : List SwapStep
  pub hash : ℕ

-- `SwapPath::new`, over the hash of a list of steps
unfoldable pub new : (List SwapStep → ℕ) → List SwapStep → SwapPath
new hasher steps = record { steps = steps; hash = hasher steps }

unfoldable pub len : SwapPath → ℕ
len path = length path.steps

unfoldable pub contains_pool : SwapPath → Address → Bool
contains_pool path pool = any (λ s. s.pool_address == pool) path.steps

-- `FlashQuoter::SwapParams` of src/gen_alloy.rs
pub record SwapParams : Type 0 where
  pub pools : List Address
  pub pool_versions : List ℕ
  pub fees : List ℕ
  pub amount_in : ℕ
  pub start_token : Address

abbrev pub first_token : List SwapStep → Address → Address
first_token [] d = d
first_token (s ∷ steps) d = s.token_in

unfoldable pub to_quoter_params : SwapPath → ℕ → SwapParams
to_quoter_params path amount_in = record {
  pools = map (λ s. s.pool_address) path.steps;
  pool_versions = map (λ s. to_quoter_version s.protocol) path.steps;
  fees = map (λ s. s.fee) path.steps;
  amount_in = amount_in;
  start_token = first_token path.steps 0;
}
