-- ===== src/Tests/Loading.antt =====
-- The pool loader, on concrete inputs.
use arb_bot.Prelude.{
  ℕ, ◌≡◌, ◌≢◌, refl, arith, Bool, List, [], ◌∷◌, ◌++◌, Option, none, some, ◌-◌, suc,
}
use arb_bot.Prelude.Int.{pos}
use arb_bot.Prelude.Text.{Text, codes}
use arb_bot.Swap.Path.{Address}
use arb_bot.Swap.Protocol.{pancake_swap_v2, uniswap_v2, is_v3}
use arb_bot.StateDb.Slots.{fill, from_be_bytes}
use arb_bot.PoolLoader.{RawPool, read_v2_record, write_v2_record}
use arb_bot.PoolLoader.Fields.{parse_unsigned, parse_signed, parse_digits, to_string, digits}
use arb_bot.PoolLoader.RoundTrip.{read_v2_record-write_v2_record}
use arb_bot.PoolLoader.Crawl.{FactorySpec, Log, crawl_factory_logs, decode_logs, decode_log}
use arb_bot.PoolLoader.Crawl.Complete.{logs_of_blocks, crawl_factory_logs_complete}

-- Addresses of one letter.
abbrev print_letter : Address → Text
print_letter a = a ∷ []

abbrev parse_letter : Text → Option Address
parse_letter [] = none
parse_letter (a ∷ _) = some a

abbrev pancake_pool : RawPool
pancake_pool = record {
  address = 7;
  token0 = 1;
  token1 = 2;
  decimals0 = 18;
  decimals1 = 6;
  fee = 25;
  tick_spacing = pos 0;
  protocol = pancake_swap_v2;
}

read_v2_record-write_v2_record_example :
    read_v2_record parse_letter (write_v2_record print_letter 4 pancake_pool)
    ≡ some (record pancake_pool { protocol = uniswap_v2 })
read_v2_record-write_v2_record_example =
    read_v2_record-write_v2_record parse_letter print_letter (λ a. refl) 4 pancake_pool
      (record {
        decimals0_small = omega arith;
        decimals1_small = omega arith;
        fee_small = omega arith;
      })

printed : to_string 1_207 ≡ codes "1207"
unfolding to_string digits
printed = refl

negative : parse_signed (codes "-60") ≢ none
unfolding parse_signed parse_digits
negative = λ e. absurd (cc)

too_large : parse_unsigned 256 (codes "256") ≡ none
unfolding parse_unsigned parse_digits
too_large = refl

abbrev factory : FactorySpec
factory = record {
  address = 9;
  protocol = uniswap_v2;
  from_block = 3;
  default_tick_spacing = pos 0;
}

-- One pool in each block: its number is the address.
abbrev created : ℕ → List Log
created block = record { topics = 5 ∷ 1 ∷ 2 ∷ []; data_bytes = fill 31 0 ++ block ∷ [] } ∷ []

abbrev node : Address → Bool → ℕ → ℕ → Option (List Log)
node address v3 first last = some (logs_of_blocks created first (suc last - first))

crawl_factory_logs_complete_example :
    crawl_factory_logs node factory 7 2 5 ≡ some (decode_logs factory (logs_of_blocks created 3 5))
crawl_factory_logs_complete_example =
    crawl_factory_logs_complete node created factory (λ first last h. refl) 7 2 (omega arith)
      (omega arith) 5 (omega arith)

first_pool :
    decode_logs factory (created 3)
    ≡ record pancake_pool { address = 3; decimals1 = 18; fee = 30; protocol = uniswap_v2 } ∷ []
unfolding decode_logs decode_log from_be_bytes is_v3
first_pool = refl
