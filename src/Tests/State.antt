-- ===== src/Tests/State.antt =====
-- The state of src/state_db.rs and src/cache_v2.rs on concrete inputs.
use arb_bot.Prelude.{
  ℕ, ◌^◌, ◌<◌, ◌≡◌, arith, ◌==◌, ◌&&◌, true, if◌then◌else◌, List, [], ◌∷◌, none, some, contains,
  unwrap_or, nat_eq, length,
}
use arb_bot.Prelude.Int.{negsuc}
use arb_bot.Swap.Path.{Address}
use arb_bot.StateDb.Slots.{v2_reserves_slot, v3_slot0}
use arb_bot.StateDb.Store.{
  BlockStateDb, Remote, AccountInfo, new, track_pool, update_slot, apply_state_diffs, storage,
}
use arb_bot.StateDb.Read.{stored, read_v2_reserves, read_v3_slot0}
use arb_bot.StateDb.Reads.{
  pack_reserves, pack_slot0, read_v2_reserves-update_slot, read_v2_reserves_bounds,
  read_v3_slot0-update_slot,
}
use arb_bot.StateDb.Writes.{diffs_value, stored-apply_state_diffs, storage_lem}
use arb_bot.Cache
use arb_bot.Cache.{
  CalcCache, CacheKey, CacheValue, PathRateCache, get, get_fresh, put, invalidate_pool,
  retain_fresh, put_rate, get_fresh_rate, key_beq,
}
use arb_bot.Cache.Index.{
  Call, cached, retained, run, IsIndexed, new-IsIndexed, run-IsIndexed, get-invalidate_pool,
}
use arb_bot.Cache.Fresh.{get_fresh-put, get_fresh-retain_fresh}

abbrev empty_info : AccountInfo
empty_info = record { balance = 0; nonce = 0; code_hash = 0; code = none }

-- A node whose every slot holds the slot's number.
abbrev node : Remote
node = record {
  fetch_code = λ b a. [];
  fetch_account = λ b a. empty_info;
  fetch_storage = λ b a s. s;
  keccak256 = length;
  keccak_empty = 0;
  default_info = empty_info;
}

abbrev db : BlockStateDb
db = track_pool (new 7) 1

abbrev diffs : List (Address × List (ℕ × ℕ))
diffs = (1, (8, 40) ∷ (8, 50) ∷ []) ∷ (2, (8, 60) ∷ []) ∷ []

stored-apply_state_diffs_example : stored (apply_state_diffs node db diffs) 1 8 ≡ (
    if contains 1 db.tracked_pools
    then diffs_value node diffs 1 8 (stored db 1 8)
    else stored db 1 8)
stored-apply_state_diffs_example = stored-apply_state_diffs node diffs db 1 8

storage_lem_example :
    ((storage node db 1 9).0 ≡ unwrap_or (stored db 1 9) (node.fetch_storage db.block_number 1 9))
    × (stored (storage node db 1 9).1 1 9
        ≡ (if (1 == 1) && (9 == 9) then some (storage node db 1 9).0 else stored db 1 9))
storage_lem_example = storage_lem node db 1 1 9 9

read_v2_reserves-update_slot_example :
    read_v2_reserves (update_slot node db 1 v2_reserves_slot (pack_reserves 1000 2000 99)) 1
    ≡ some (1000, 2000)
read_v2_reserves-update_slot_example =
    read_v2_reserves-update_slot node db 1 1000 2000 99 (omega arith) (omega arith)

read_v2_reserves_bounds_example : (1000 < 2 ^ 112) × (2000 < 2 ^ 112)
read_v2_reserves_bounds_example =
    read_v2_reserves_bounds (update_slot node db 1 v2_reserves_slot (pack_reserves 1000 2000 99)) 1
      read_v2_reserves-update_slot_example

read_v3_slot0-update_slot_example :
    read_v3_slot0 (update_slot node db 1 v3_slot0 (pack_slot0 12345 (negsuc 99) 1)) 1
    ≡ some (12345, negsuc 99)
read_v3_slot0-update_slot_example =
    read_v3_slot0-update_slot node db 1 12345 (negsuc 99) 1 (omega arith) (ground arith)
      (ground arith)

abbrev key : CacheKey
key = record { pool = 1; amount_in = 100; zero_for_one = true }

abbrev other_key : CacheKey
other_key = record { pool = 2; amount_in = 100; zero_for_one = true }

abbrev value : CacheValue
value = record { amount_out = 90; block_number = 7 }

abbrev calls : List Call
calls = cached key value ∷ cached other_key value ∷ retained 7 ∷ []

run-IsIndexed_example : IsIndexed (run calls Cache.new)
run-IsIndexed_example = run-IsIndexed calls Cache.new new-IsIndexed

get-invalidate_pool_example :
    get (invalidate_pool (run calls Cache.new) 1) other_key
    ≡ (if 2 == 1 then none else get (run calls Cache.new) other_key)
get-invalidate_pool_example = get-invalidate_pool calls 1 other_key

get_fresh-put_example :
    get_fresh (put Cache.new key value) key 7
    ≡ (if key_beq key key then (if 7 == 7 then some 90 else none) else get_fresh Cache.new key 7)
get_fresh-put_example = get_fresh-put Cache.new key key value 7

get_fresh-retain_fresh_example :
    get_fresh (retain_fresh (run calls Cache.new) 7) key 7
    ≡ (if 7 == 7 then get_fresh (run calls Cache.new) key 7 else none)
get_fresh-retain_fresh_example = get_fresh-retain_fresh calls key 7 7

abbrev rate_cache : PathRateCache
rate_cache = record { rates = [] }
