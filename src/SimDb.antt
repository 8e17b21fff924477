-- ===== src/SimDb.antt =====
-- src/sim_db.rs: the database of one simulation, copied from the shared state and merged back into
-- it. What it asks a node for is a parameter.
pub mod WriteBack
use arb_bot.Prelude.{
  ℕ, Bool, true, false, ◌&&◌, ◌||◌, not, List, [], ◌∷◌, Option, none, some, ◌==◌, if◌then◌else◌,
  ◌>>=◌, map, is_some, unwrap_or, nat_eq, lookup, insert, contains_key,
}
use arb_bot.Swap.Path.{Address}
use arb_bot.StateDb.Store.{
  BlockStateDb, BlockStateAccount, BlockStateSlot, AccountInfo, Bytes, on_chain,
}

pub record SimAccount : Type 0 where
  pub info : AccountInfo
  pub storage : List (ℕ × ℕ)

pub record SimDb : Type 0 where
  pub accounts : List (Address × SimAccount)

abbrev pub sim_account : BlockStateAccount → SimAccount
sim_account acct = record { info = acct.info; storage = map (λ (k, v). (k, v.value)) acct.storage }

unfoldable pub snapshot : BlockStateDb → SimDb
snapshot db = record { accounts = map (λ (addr, acct). (addr, sim_account acct)) db.accounts }

-- The loop that merges the slots: only those that the state does not have.
unfoldable pub merge_storage : List (ℕ × ℕ) → List (ℕ × BlockStateSlot) → List (ℕ × BlockStateSlot)
merge_storage [] storage = storage
merge_storage ((slot, val) ∷ slots) storage = merge_storage slots (
    if contains_key slot storage
    then storage
    else insert slot (record { value = val; insertion_type = on_chain }) storage)

abbrev pub merge_code : AccountInfo → AccountInfo → AccountInfo
merge_code fetched info =
    if is_some fetched.code && not (is_some info.code)
    then record info { code = fetched.code; code_hash = fetched.code_hash }
    else info

abbrev pub entry_or_new : SimAccount → Option BlockStateAccount → BlockStateAccount
entry_or_new acct none = record { info = acct.info; storage = [] }
entry_or_new acct (some entry) = entry

-- the body of the loop over the accounts
unfoldable pub write_account : Address → SimAccount → BlockStateDb → BlockStateDb
unfolding merge_storage
write_account addr acct db =
    let entry = entry_or_new acct (lookup addr db.accounts) in
    record db {
      accounts =
          insert addr
            (record {
              info = merge_code acct.info entry.info;
              storage = merge_storage acct.storage entry.storage;
            })
            db.accounts;
    }

unfoldable pub write_accounts : List (Address × SimAccount) → BlockStateDb → BlockStateDb
unfolding write_account
write_accounts [] db = db
write_accounts ((addr, acct) ∷ accounts) db = write_accounts accounts (write_account addr acct db)

unfoldable pub write_back : SimDb → BlockStateDb → BlockStateDb
unfolding write_accounts
write_back sim db = write_accounts sim.accounts db

-- `SimDb::storage`, where a node answers at the latest block
unfoldable pub sim_storage : (Address → ℕ → ℕ) → AccountInfo → SimDb → Address → ℕ → ℕ × SimDb
sim_storage fetch_storage default_info sim address index =
    let value = fetch_storage address index in
    let empty : SimAccount = record { info = default_info; storage = [] } in
    let entry = unwrap_or (lookup address sim.accounts) empty in
    let fetched = record sim {
      accounts =
          insert address (record entry { storage = insert index value entry.storage }) sim.accounts;
    } in
    elim (lookup address sim.accounts >>= λ acct. lookup index acct.storage) [
      | some val ↦ (val, sim)
      | none ↦ (value, fetched)
    ]

-- `SimDb::basic`, which never fails. An account without code is asked for again.
unfoldable pub sim_basic : (Address → AccountInfo) → ℕ → SimDb → Address → AccountInfo × SimDb
sim_basic fetch_account keccak_empty sim address =
    let full_info = fetch_account address in
    elim (lookup address sim.accounts) [
      | some acct ↦
          let refreshed = record sim {
            accounts = insert address (record acct { info = full_info }) sim.accounts;
          } in
          if not (is_some acct.info.code) && acct.info.code_hash == keccak_empty
          then (full_info, refreshed)
          else (acct.info, sim)
      | none ↦ (
        full_info,
        record sim {
          accounts = insert address (record { info = full_info; storage = [] }) sim.accounts;
        },
      )
    ]

-- The code of the first account with the hash, and the empty code if that account has none.
abbrev pub code_in : Bytes → ℕ → List (Address × SimAccount) → Bytes
code_in empty code_hash [] = empty
code_in empty code_hash ((addr, acct) ∷ accounts) =
    if acct.info.code_hash == code_hash
    then unwrap_or acct.info.code empty
    else code_in empty code_hash accounts

-- `SimDb::code_by_hash`, where the accounts are in the order of the map's values
unfoldable pub sim_code_by_hash : Bytes → ℕ → SimDb → ℕ → Bytes
sim_code_by_hash empty keccak_empty sim code_hash =
    if code_hash == 0 || code_hash == keccak_empty
    then empty
    else code_in empty code_hash sim.accounts
