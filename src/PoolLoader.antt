-- ===== src/PoolLoader.antt =====
-- src/pool_loader.rs: the pools of the cache files and of the factories' logs. Reading a file into
-- records and asking a node are input; a record is the list of its fields.
pub mod Fields
pub mod Crawl
pub mod RoundTrip
use arb_bot.Prelude.{
  ℕ, ◌+◌, ◌*◌, ◌^◌, Bool, true, false, ◌&&◌, ◌||◌, List, [], ◌∷◌, ◌++◌, map, Option, none, some,
  ◌==◌, ltb, leb, if◌then◌else◌, unwrap_or, get_elem?, ◌>>=◌,
}
use arb_bot.Prelude.Int.{ℤ, pos, negsuc}
use arb_bot.Prelude.Text.{Text, codes, has_text}
use arb_bot.Swap.Path.{Address}
use arb_bot.Swap.Protocol.{
  PoolProtocol, uniswap_v2, sushi_swap_v2, pancake_swap_v2, base_swap_v2, alien_base_v2, aerodrome,
  uniswap_v3, sushi_swap_v3, base_swap_v3, pancake_swap_v3, alien_base_v3, slipstream, algebra_v1,
  balancer_v2, curve_two_crypto, curve_tri_crypto, maverick_v2, is_v3,
}
use arb_bot.Searcher.{PoolMeta}
use arb_bot.PoolLoader.Fields.{parse_unsigned, parse_signed, to_string, to_lowercase}

pub record RawPool : Type 0 where
  pub address : Address
  pub token0 : Address
  pub token1 : Address
  pub decimals0 : ℕ
  pub decimals1 : ℕ
  pub fee : ℕ
  pub tick_spacing : ℤ
  pub protocol : PoolProtocol

unfoldable pub to_pool_meta : RawPool → PoolMeta
to_pool_meta p = record {
  address = p.address;
  token0 = p.token0;
  token1 = p.token1;
  decimals0 = p.decimals0;
  decimals1 = p.decimals1;
  meta_is_v3 = is_v3 p.protocol;
  fee = p.fee;
  tick_spacing = p.tick_spacing;
  protocol = p.protocol;
}

-- The codes of the files.
unfoldable pub protocol_of_version : ℕ → PoolProtocol
protocol_of_version version =
    if version == 2
    then uniswap_v2
    else if version == 3
    then pancake_swap_v2
    else if version == 4
    then aerodrome
    else if version == 5
    then aerodrome
    else if version == 10
    then balancer_v2
    else if version == 11
    then curve_two_crypto
    else if version == 12
    then curve_tri_crypto
    else if version == 13
    then maverick_v2
    else uniswap_v2

-- `rec.get(i).unwrap_or(text).parse().unwrap_or(default)`, below a bound
abbrev pub number_field : ℕ → List Text → ℕ → Text → ℕ → ℕ
number_field bound rec i text default =
    unwrap_or (parse_unsigned bound (unwrap_or (get_elem? rec i) text)) default

unfoldable pub map_v3_protocol : Text → Text → PoolProtocol
map_v3_protocol protocol dex =
    let combined = to_lowercase (protocol ++ dex) in
    if has_text combined (codes "sushi")
    then sushi_swap_v3
    else if has_text combined (codes "pancake")
    then pancake_swap_v3
    else if has_text combined (codes "baseswap")
    then base_swap_v3
    else if has_text combined (codes "alienbase")
    then alien_base_v3
    else if has_text combined (codes "aero") || has_text combined (codes "slipstream")
    then slipstream
    else if has_text combined (codes "algebra")
        || has_text combined (codes "thena")
        || has_text combined (codes "fusion")
    then algebra_v1
    else if has_text combined (codes "maverick")
    then maverick_v2
    else if has_text combined (codes "balancer")
    then balancer_v2
    else if has_text combined (codes "curve") && has_text combined (codes "tri")
    then curve_tri_crypto
    else if has_text combined (codes "curve")
    then curve_two_crypto
    else uniswap_v3

-- The library's reading of an address, around which the code trims a field.
module _ (parse_address : Text → Option Address) where
  abbrev pub zero_address : Text
  zero_address = codes "0x0000000000000000000000000000000000000000"

  unfoldable pub addr_from_field : List Text → ℕ → Option Address
  addr_from_field rec idx = parse_address (unwrap_or (get_elem? rec idx) zero_address)

  -- One record of the file of V2 pools; `none` is an error, which ends the loading.
  unfoldable pub read_v2_record : List Text → Option RawPool
  read_v2_record rec = do
    address ← addr_from_field rec 0
    let version = number_field 256 rec 1 (codes "2") 2
    token0 ← addr_from_field rec 2
    token1 ← addr_from_field rec 3
    some (record {
      address = address;
      token0 = token0;
      token1 = token1;
      decimals0 = number_field 256 rec 4 (codes "18") 18;
      decimals1 = number_field 256 rec 5 (codes "18") 18;
      fee = number_field (2 ^ 32) rec 6 (codes "30") 30;
      tick_spacing = if version == 5 then pos 1 else pos 0;
      protocol = protocol_of_version version;
    })

  unfoldable pub read_v3_record : List Text → Option RawPool
  read_v3_record rec = do
    address ← addr_from_field rec 1
    token0 ← addr_from_field rec 6
    token1 ← addr_from_field rec 7
    some (record {
      address = address;
      token0 = token0;
      token1 = token1;
      decimals0 = number_field 256 rec 8 (codes "18") 18;
      decimals1 = number_field 256 rec 9 (codes "18") 18;
      fee = number_field (2 ^ 32) rec 5 (codes "500") 500;
      tick_spacing = unwrap_or (parse_signed (unwrap_or (get_elem? rec 4) (codes "1"))) (pos 1);
      protocol =
          map_v3_protocol (unwrap_or (get_elem? rec 0) (codes "UniswapV3CL"))
            (unwrap_or (get_elem? rec 10) []);
    })

  -- The records of a file, each of which may be unreadable; `none` of the file is that it is missing.
  unfoldable pub read_all :
      (List Text → Option RawPool) → List (Option (List Text)) → Option (List RawPool)
  read_all read [] = some []
  read_all read (result ∷ results) = do
    rec ← result
    pool ← read rec
    pools ← read_all read results
    some (pool ∷ pools)

  abbrev pub load :
      (List Text → Option RawPool) → Option (List (Option (List Text))) → Option (List RawPool)
  load read none = some []
  load read (some results) = read_all read results

  unfoldable pub load_all_pools_from_cache :
      Option (List (Option (List Text)))
      → Option (List (Option (List Text)))
      → Option (List RawPool)
  load_all_pools_from_cache v2_file v3_file = do
    v2_pools ← load read_v2_record v2_file
    v3_pools ← load read_v3_record v3_file
    some (v2_pools ++ v3_pools)

abbrev pub version_of : PoolProtocol → ℕ
version_of aerodrome = 5
version_of _ = 2

module _ (print_address : Address → Text) where
  -- The record of pool number `i` that `append_v2_pools_to_csv` writes.
  unfoldable pub write_v2_record : ℕ → RawPool → List Text
  write_v2_record i p =
      print_address p.address
      ∷ to_string (version_of p.protocol)
      ∷ print_address p.token0
      ∷ print_address p.token1
      ∷ to_string p.decimals0
      ∷ to_string p.decimals1
      ∷ to_string p.fee
      ∷ codes "0"
      ∷ codes "0"
      ∷ to_string i
      ∷ []

unfoldable pub raw_to_pool_metas : List RawPool → List PoolMeta
raw_to_pool_metas pools = map to_pool_meta pools

unfoldable pub raw_to_addresses : List RawPool → List Address
raw_to_addresses pools = map (λ p. p.address) pools

unfoldable pub raw_to_pools_vec : List RawPool → List (Address × Bool)
raw_to_pools_vec pools = map (λ p. (p.address, is_v3 p.protocol)) pools
