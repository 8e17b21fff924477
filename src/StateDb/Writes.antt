-- ===== src/StateDb/Writes.antt =====
-- What the writes of src/state_db.rs change: one slot of one account.
use arb_bot.Prelude.{
  ℕ, ◌≡◌, refl, ◌&&◌, List, [], ◌∷◌, Option, some, arith, ◌==◌, ==_iff, if◌then◌else◌, ◌>>=◌,
  Option-cases, Bool-cases, inl, inr, nat_eq, lookup, insert, lookup-insert, lookup-nil, contains,
  unwrap_or,
}
use arb_bot.Swap.Path.{Address}
use arb_bot.StateDb.Store.{
  BlockStateDb, Remote, update_slot, inject_slot, update_slots, apply_state_diffs, storage,
  inject_account, account_or_default, BlockStateSlot, BlockStateAccount, AccountInfo, on_chain,
  custom,
}
use arb_bot.StateDb.Read.{stored}

-- Account data that is injected leaves the storage alone.
pub stored-inject_account :
    (db : BlockStateDb) (a b : Address) (info : AccountInfo) (s : ℕ)
    → stored (inject_account db a info) b s ≡ stored db b s
unfolding stored inject_account
stored-inject_account db a b info s = elim (Option-cases (lookup a db.accounts)) [
  | inl new_account ↦ ground (
    arith,
    lookup-insert a b (record { info = info; storage = [] }) db.accounts,
    lookup-nil {V = BlockStateSlot} s,
  )
  | inr (account, known) ↦
      ground (arith, lookup-insert a b (record account { info = info }) db.accounts)
]

module _ (remote : Remote) where
  -- A written slot is read back, and no other slot changes.
  pub stored-update_slot :
      (db : BlockStateDb) (a b : Address) (slot s v : ℕ)
      → stored (update_slot remote db a slot v) b s
        ≡ (if (a == b) && (slot == s) then some v else stored db b s)
  unfolding stored update_slot
  stored-update_slot db a b slot s v =
      let account = account_or_default remote db a in
      let entry : BlockStateSlot = record { value = v; insertion_type = on_chain } in
      let written = record account { storage = insert slot entry account.storage } in
      ground (
        arith,
        lookup-insert a b written db.accounts,
        lookup-insert slot s entry account.storage,
        lookup-nil {V = BlockStateSlot} s,
      )

  -- The same for a slot that the bot injects.
  pub stored-inject_slot :
      (db : BlockStateDb) (a b : Address) (slot s v : ℕ)
      → stored (inject_slot remote db a slot v) b s
        ≡ (if (a == b) && (slot == s) then some v else stored db b s)
  unfolding stored inject_slot
  stored-inject_slot db a b slot s v =
      let fetched : BlockStateAccount = record {
        info = remote.fetch_account db.block_number a;
        storage = [];
      } in
      let account = unwrap_or (lookup a db.accounts) fetched in
      let entry : BlockStateSlot = record { value = v; insertion_type = custom } in
      let written = record account { storage = insert slot entry account.storage } in
      ground (
        arith,
        lookup-insert a b written db.accounts,
        lookup-insert slot s entry account.storage,
        lookup-nil {V = BlockStateSlot} s,
      )

  -- The value of the last entry for a slot.
  abbrev pub last_value : List (ℕ × ℕ) → ℕ → Option ℕ → Option ℕ
  last_value [] s before = before
  last_value ((slot, value) ∷ slots) s before =
      last_value slots s (if slot == s then some value else before)

  pub stored-update_slots :
      (slots : List (ℕ × ℕ)) (db : BlockStateDb) (a b : Address) (s : ℕ)
      → stored (update_slots remote db a slots) b s
        ≡ (if a == b then last_value slots s (stored db b s) else stored db b s)
  unfolding update_slots
  stored-update_slots [] db a b s = ground arith
  stored-update_slots ((slot, value) ∷ slots) db a b s = ground (
    arith,
    stored-update_slots slots (update_slot remote db a slot value) a b s,
    stored-update_slot db a b slot s value,
  )

  pub tracked-update_slots :
      (slots : List (ℕ × ℕ)) (db : BlockStateDb) (a : Address)
      → (update_slots remote db a slots).tracked_pools ≡ db.tracked_pools
  unfolding update_slots update_slot
  tracked-update_slots [] db a = refl
  tracked-update_slots ((slot, value) ∷ slots) db a =
      tracked-update_slots slots (update_slot remote db a slot value) a

  -- The value that a block's diffs leave in a slot.
  abbrev pub diffs_value : List (Address × List (ℕ × ℕ)) → Address → ℕ → Option ℕ → Option ℕ
  diffs_value [] b s before = before
  diffs_value ((a, slots) ∷ diffs) b s before =
      diffs_value diffs b s (if a == b then last_value slots s before else before)

  -- The diffs of a block change the slots that they name of the tracked pools, the last diff of a
  -- slot counting, and no slot of any other account.
  pub stored-apply_state_diffs :
      (diffs : List (Address × List (ℕ × ℕ))) (db : BlockStateDb) (b : Address) (s : ℕ)
      → stored (apply_state_diffs remote db diffs) b s ≡ (
          if contains b db.tracked_pools
          then diffs_value diffs b s (stored db b s)
          else stored db b s)
  unfolding apply_state_diffs
  stored-apply_state_diffs [] db b s = ground arith
  stored-apply_state_diffs ((a, slots) ∷ diffs) db b s =
      elim (Bool-cases (contains a db.tracked_pools)) [
        | inl tracked ↦
            let db' = update_slots remote db a slots in
            ground (
              arith,
              stored-apply_state_diffs diffs db' b s,
              tracked-update_slots slots db a,
              stored-update_slots slots db a b s,
            )
        | inr untracked ↦ ground (arith, stored-apply_state_diffs diffs db b s, ==_iff a b)
      ]

  stored-account :
      (db : BlockStateDb) (a : Address) (index : ℕ)
      → stored db a index
        ≡ (do entry ← lookup index (account_or_default remote db a).storage; some entry.value)
  unfolding stored
  stored-account db a index = ground (arith, lookup-nil {V = BlockStateSlot} index)

  -- A storage read of the EVM returns the local value where the slot is loaded and asks the node
  -- otherwise; afterwards the slot is loaded with that value and no other slot has changed.
  pub storage_lem :
      (db : BlockStateDb) (a b : Address) (index s : ℕ)
      → ((storage remote db a index).0
          ≡ unwrap_or (stored db a index) (remote.fetch_storage db.block_number a index))
        × (stored (storage remote db a index).1 b s ≡ (
            if (a == b) && (index == s) then some (storage remote db a index).0 else stored db b s))
  unfolding storage
  storage_lem db a b index s =
      elim (Option-cases (lookup index (account_or_default remote db a).storage)) [
        | inl miss ↦ ground (
          arith,
          stored-account db a index,
          stored-update_slot db a b index s (remote.fetch_storage db.block_number a index),
        )
        | inr (slot, hit) ↦ ground (arith, stored-account db a index, ==_iff a b, ==_iff index s)
      ]
