-- ===== src/StateDb/Store.antt =====
-- The state of `BlockStateDB` in src/state_db.rs and the operations that change it.
use arb_bot.Prelude.{
  ℕ, Bool, true, false, ◌&&◌, not, List, [], ◌∷◌, Option, none, some, ◌==◌, if◌then◌else◌, is_some,
  nat_eq, lookup, insert, contains, unwrap_or,
}
use arb_bot.Swap.Path.{Address}

-- A code is its bytes.
abbrev pub Bytes : Type 0
Bytes = List ℕ

-- `AccountInfo` of the EVM library: the fields that the bot reads and writes.
pub record AccountInfo : Type 0 where
  pub balance : ℕ
  pub nonce : ℕ
  pub code_hash : ℕ
  pub code : Option Bytes

pub data InsertionType : Type 0 where
  on_chain custom : InsertionType

pub record BlockStateSlot : Type 0 where
  pub value : ℕ
  pub insertion_type : InsertionType

pub record BlockStateAccount : Type 0 where
  pub info : AccountInfo
  pub storage : List (ℕ × BlockStateSlot)

pub record BlockStateDb : Type 0 where
  pub accounts : List (Address × BlockStateAccount)
  pub block_number : ℕ
  pub tracked_pools : List Address
  pub pancake_v3_pools : List Address

unfoldable pub new : ℕ → BlockStateDb
new block_number = record {
  accounts = [];
  block_number = block_number;
  tracked_pools = [];
  pancake_v3_pools = [];
}

-- `HashSet::insert`
abbrev pub add_to : Address → List Address → List Address
add_to a xs = if contains a xs then xs else a ∷ xs

unfoldable pub track_pool : BlockStateDb → Address → BlockStateDb
track_pool db pool = record db { tracked_pools = add_to pool db.tracked_pools }

unfoldable pub set_block : BlockStateDb → ℕ → BlockStateDb
set_block db block_number = record db { block_number = block_number }

-- What the database asks a node for, at a block, and the EVM library's constants.
pub record Remote : Type 0 where
  pub fetch_code : ℕ → Address → Bytes
  pub fetch_account : ℕ → Address → AccountInfo
  pub fetch_storage : ℕ → Address → ℕ → ℕ
  pub keccak256 : Bytes → ℕ
  pub keccak_empty : ℕ
  pub default_info : AccountInfo

unfoldable pub inject_account : BlockStateDb → Address → AccountInfo → BlockStateDb
inject_account db address info = elim (lookup address db.accounts) [
  | some account ↦ record db {
    accounts = insert address (record account { info = info }) db.accounts;
  }
  | none ↦ record db {
    accounts = insert address (record { info = info; storage = [] }) db.accounts;
  }
]

module _ (remote : Remote) where
  -- `entry(address).or_insert_with(…)`: the account, or an empty one with the default info
  abbrev pub account_or_default : BlockStateDb → Address → BlockStateAccount
  account_or_default db address =
      unwrap_or (lookup address db.accounts) (record { info = remote.default_info; storage = [] })

  unfoldable pub update_slot : BlockStateDb → Address → ℕ → ℕ → BlockStateDb
  update_slot db address slot value =
      let account = account_or_default db address in
      let entry : BlockStateSlot = record { value = value; insertion_type = on_chain } in
      record db {
        accounts =
            insert address (record account { storage = insert slot entry account.storage })
              db.accounts;
      }

  unfoldable pub inject_slot : BlockStateDb → Address → ℕ → ℕ → BlockStateDb
  inject_slot db address slot value =
      let fetched : BlockStateAccount = record {
        info = remote.fetch_account db.block_number address;
        storage = [];
      } in
      let account = unwrap_or (lookup address db.accounts) fetched in
      let entry : BlockStateSlot = record { value = value; insertion_type = custom } in
      record db {
        accounts =
            insert address (record account { storage = insert slot entry account.storage })
              db.accounts;
      }

  -- the inner loop of `apply_state_diffs`
  unfoldable pub update_slots : BlockStateDb → Address → List (ℕ × ℕ) → BlockStateDb
  unfolding update_slot
  update_slots db address [] = db
  update_slots db address ((slot, value) ∷ slots) =
      update_slots (update_slot db address slot value) address slots

  unfoldable pub apply_state_diffs : BlockStateDb → List (Address × List (ℕ × ℕ)) → BlockStateDb
  unfolding update_slots
  apply_state_diffs db [] = db
  apply_state_diffs db ((address, slots) ∷ diffs) =
      apply_state_diffs
        (if contains address db.tracked_pools then update_slots db address slots else db) diffs

  -- `Database::storage`: the value, and the database that has it
  unfoldable pub storage : BlockStateDb → Address → ℕ → ℕ × BlockStateDb
  unfolding update_slot
  storage db address index =
      let value = remote.fetch_storage db.block_number address index in
      elim (lookup index (account_or_default db address).storage) [
        | some slot ↦ (slot.value, db)
        | none ↦ (value, update_slot db address index value)
      ]

  abbrev pub is_empty_code : Bytes → Bool
  is_empty_code [] = true
  is_empty_code (b ∷ bs) = false

  -- `Database::basic`
  unfoldable pub basic : BlockStateDb → Address → AccountInfo × BlockStateDb
  basic db address = elim (lookup address db.accounts) [
    | some account ↦
        let info = account.info in
        let code = remote.fetch_code db.block_number address in
        let fetched : AccountInfo = record info {
          code_hash = remote.keccak256 code;
          code = some code;
        } in
        if not (is_some info.code)
          && info.code_hash == remote.keccak_empty
          && not (is_empty_code code)
        then (
          fetched,
          record db { accounts = insert address (record account { info = fetched }) db.accounts },
        )
        else (info, db)
    | none ↦
        let info = remote.fetch_account db.block_number address in
        (
          info,
          record db {
            accounts = insert address (record { info = info; storage = [] }) db.accounts;
          },
        )
  ]

  abbrev pub stub_bytecode : Bytes
  stub_bytecode = 0x60 ∷ 0x01 ∷ 0x60 ∷ 0x00 ∷ 0x52 ∷ 0x60 ∷ 0x20 ∷ 0x60 ∷ 0x00 ∷ 0xf3 ∷ []

  abbrev pub has_code : BlockStateDb → Address → Bool
  has_code db address = elim (lookup address db.accounts) [
    | some account ↦ is_some account.info.code
    | none ↦ false
  ]

  deploy_stub : BlockStateDb → Address → BlockStateDb
  deploy_stub db address =
      let account = account_or_default db address in
      let info = account.info in
      let stubbed : AccountInfo = record info {
        code_hash = remote.keccak256 stub_bytecode;
        code = some stub_bytecode;
      } in
      record db { accounts = insert address (record account { info = stubbed }) db.accounts }

  unfoldable pub deploy_token_stubs : BlockStateDb → List Address → BlockStateDb
  unfolding deploy_stub
  deploy_token_stubs db [] = db
  deploy_token_stubs db (address ∷ addresses) =
      deploy_token_stubs (if has_code db address then db else deploy_stub db address) addresses
