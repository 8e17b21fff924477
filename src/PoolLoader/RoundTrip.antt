-- ===== src/PoolLoader/RoundTrip.antt =====
-- What the file of V2 pools of src/pool_loader.rs keeps of a pool: `append_v2_pools_to_csv` writes the
-- record that `load_v2_pools` reads.
use arb_bot.Prelude.{ℕ, ◌^◌, ◌<◌, ◌≡◌, refl, Option, some, ◌==◌, if◌then◌else◌, arith}
use arb_bot.Prelude.Int.{ℤ, pos}
use arb_bot.Prelude.Text.{Text}
use arb_bot.Swap.Path.{Address}
use arb_bot.Swap.Protocol.{
  PoolProtocol, uniswap_v2, sushi_swap_v2, pancake_swap_v2, base_swap_v2, alien_base_v2, aerodrome,
  uniswap_v3, sushi_swap_v3, base_swap_v3, pancake_swap_v3, alien_base_v3, slipstream, algebra_v1,
  balancer_v2, curve_two_crypto, curve_tri_crypto, maverick_v2,
}
use arb_bot.PoolLoader.{
  RawPool, protocol_of_version, version_of, read_v2_record, write_v2_record, addr_from_field,
}
use arb_bot.PoolLoader.Fields.{parse_unsigned-to_string}

-- The file tells Aerodrome's pools from all others, and nothing else of a protocol.
abbrev pub kept_protocol : PoolProtocol → PoolProtocol
kept_protocol aerodrome = aerodrome
kept_protocol _ = uniswap_v2

-- Aerodrome's pools are read as volatile ones, with spacing 1.
abbrev pub kept_spacing : PoolProtocol → ℤ
kept_spacing aerodrome = pos 1
kept_spacing _ = pos 0

record Version (protocol : PoolProtocol) : Type 0 where
  small : version_of protocol < 256
  kept : protocol_of_version (version_of protocol) ≡ kept_protocol protocol
  spacing : (if version_of protocol == 5 then pos 1 else pos 0) ≡ kept_spacing protocol

version : (protocol : PoolProtocol) → Version protocol
unfolding protocol_of_version
version uniswap_v2 = record { small = omega arith; kept = refl; spacing = refl }
version sushi_swap_v2 = record { small = omega arith; kept = refl; spacing = refl }
version pancake_swap_v2 = record { small = omega arith; kept = refl; spacing = refl }
version base_swap_v2 = record { small = omega arith; kept = refl; spacing = refl }
version alien_base_v2 = record { small = omega arith; kept = refl; spacing = refl }
version aerodrome = record { small = omega arith; kept = refl; spacing = refl }
version uniswap_v3 = record { small = omega arith; kept = refl; spacing = refl }
version sushi_swap_v3 = record { small = omega arith; kept = refl; spacing = refl }
version base_swap_v3 = record { small = omega arith; kept = refl; spacing = refl }
version pancake_swap_v3 = record { small = omega arith; kept = refl; spacing = refl }
version alien_base_v3 = record { small = omega arith; kept = refl; spacing = refl }
version slipstream = record { small = omega arith; kept = refl; spacing = refl }
version algebra_v1 = record { small = omega arith; kept = refl; spacing = refl }
version balancer_v2 = record { small = omega arith; kept = refl; spacing = refl }
version curve_two_crypto = record { small = omega arith; kept = refl; spacing = refl }
version curve_tri_crypto = record { small = omega arith; kept = refl; spacing = refl }
version maverick_v2 = record { small = omega arith; kept = refl; spacing = refl }

-- A pool whose numbers fit the fields of the source's struct.
pub record IsStorable (p : RawPool) : Type 0 where
  pub decimals0_small : p.decimals0 < 256
  pub decimals1_small : p.decimals1 < 256
  pub fee_small : p.fee < 2 ^ 32

-- A pool whose decimals fit a byte and whose fee fits 32 bits, written as a record of the file and
-- read back, is the same pool but for its protocol and tick spacing: Aerodrome's pools come back
-- with spacing 1, all others as Uniswap V2 pools with spacing 0, provided a printed address is read
-- back.
pub read_v2_record-write_v2_record :
    (parse_address : Text → Option Address) (print_address : Address → Text)
    → ((a : Address) → parse_address (print_address a) ≡ some a)
    → (i : ℕ) (p : RawPool) → IsStorable p
    → read_v2_record parse_address (write_v2_record print_address i p)
      ≡ some (record {
        address = p.address;
        token0 = p.token0;
        token1 = p.token1;
        decimals0 = p.decimals0;
        decimals1 = p.decimals1;
        fee = p.fee;
        tick_spacing = kept_spacing p.protocol;
        protocol = kept_protocol p.protocol;
      })
unfolding read_v2_record write_v2_record addr_from_field
read_v2_record-write_v2_record parse print law i p h =
    let v = version p.protocol in
    rw
      (
        law p.address,
        law p.token0,
        law p.token1,
        parse_unsigned-to_string 256 (version_of p.protocol) v.small,
        parse_unsigned-to_string 256 p.decimals0 h.decimals0_small,
        parse_unsigned-to_string 256 p.decimals1 h.decimals1_small,
        parse_unsigned-to_string (2 ^ 32) p.fee h.fee_small,
        v.kept,
        v.spacing,
      )
      refl
