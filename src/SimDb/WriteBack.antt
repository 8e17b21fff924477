-- ===== src/SimDb/WriteBack.antt =====
-- What merging a simulation's database back into the shared state changes: only slots that were
-- missing.
use arb_bot.Prelude.{
  ℕ, ◌≡◌, List, [], ◌∷◌, some, arith, if◌then◌else◌, >>=-eq-some, nat_eq, lookup, insert,
  lookup-insert, contains_key,
}
use arb_bot.Swap.Path.{Address}
use arb_bot.StateDb.Store.{BlockStateDb, BlockStateAccount, BlockStateSlot, on_chain}
use arb_bot.StateDb.Read.{stored}
use arb_bot.SimDb.{
  SimDb, SimAccount, merge_storage, entry_or_new, merge_code, write_account, write_accounts,
  write_back,
}

added_keeps :
    (slot val : ℕ) (storage : List (ℕ × BlockStateSlot)) (s : ℕ) (entry : BlockStateSlot)
    → lookup s storage ≡ some entry
    → lookup s (
        if contains_key slot storage
        then storage
        else insert slot (record { value = val; insertion_type = on_chain }) storage)
      ≡ some entry
unfolding contains_key
added_keeps slot val storage s entry h =
    ground (arith, lookup-insert slot s (record { value = val; insertion_type = on_chain }) storage)

merge_storage_keeps :
    (slots : List (ℕ × ℕ)) (storage : List (ℕ × BlockStateSlot)) (s : ℕ) (entry : BlockStateSlot)
    → lookup s storage ≡ some entry
    → lookup s (merge_storage slots storage) ≡ some entry
unfolding merge_storage
merge_storage_keeps [] storage s entry h = h
merge_storage_keeps ((slot, val) ∷ slots) storage s entry h =
    merge_storage_keeps slots
      (if contains_key slot storage
        then storage
        else insert slot (record { value = val; insertion_type = on_chain }) storage)
      s entry (added_keeps slot val storage s entry h)

write_account_keeps :
    (addr : Address) (acct : SimAccount) (db : BlockStateDb) (a : Address) (s v : ℕ)
    → stored db a s ≡ some v
    → stored (write_account addr acct db) a s ≡ some v
unfolding write_account stored
write_account_keeps addr acct db a s v h =
    let (account, known, rest) = >>=-eq-some (lookup a db.accounts) _ h in
    let (entry, found, value) = >>=-eq-some (lookup s account.storage) _ rest in
    let old = entry_or_new acct (lookup addr db.accounts) in
    let written : BlockStateAccount = record {
      info = merge_code acct.info old.info;
      storage = merge_storage acct.storage old.storage;
    } in
    ground (
      arith,
      lookup-insert addr a written db.accounts,
      merge_storage_keeps acct.storage account.storage s entry found,
    )

write_accounts_keeps :
    (accounts : List (Address × SimAccount)) (db : BlockStateDb) (a : Address) (s v : ℕ)
    → stored db a s ≡ some v
    → stored (write_accounts accounts db) a s ≡ some v
unfolding write_accounts
write_accounts_keeps [] db a s v h = h
write_accounts_keeps ((addr, acct) ∷ accounts) db a s v h =
    write_accounts_keeps accounts (write_account addr acct db) a s v
      (write_account_keeps addr acct db a s v h)

-- Writing a simulation back never changes a slot that the shared state has: its version counts,
-- whatever the simulation fetched meanwhile.
pub stored-write_back :
    (sim : SimDb) (db : BlockStateDb) (a : Address) (s v : ℕ)
    → stored db a s ≡ some v
    → stored (write_back sim db) a s ≡ some v
unfolding write_back
stored-write_back sim db a s v h = write_accounts_keeps sim.accounts db a s v h
