-- ===== src/BlockStream.antt =====
-- src/block_stream.rs: the blocks that several endpoints announce, each passed on once. The lock makes
-- the endpoints' headers a sequence; connections and the waiting between them are input and output.
pub mod Window
use arb_bot.Prelude.{
  ℕ, ◌+◌, ◌*◌, ◌%◌, Bool, true, false, List, [], ◌∷◌, Option, none, some, min, ◌==◌, if◌then◌else◌,
  ◌>>=◌, nat_eq, contains, erase, get_elem?, set, unwrap_or,
}
use arb_bot.Word.{u64_mod}
use arb_bot.StateDb.Slots.{fill}

abbrev pub dedup_window : ℕ
dedup_window = 64

pub record BlockDedup : Type 0 where
  pub seen : List ℕ
  pub ring : List ℕ
  pub head : ℕ

abbrev pub new : BlockDedup
new = record { seen = []; ring = fill dedup_window 0; head = 0 }

-- Whether the number is new; `none` is an index out of the ring.
unfoldable pub try_insert : BlockDedup → ℕ → Option (Bool × BlockDedup)
try_insert d block_number = if contains block_number d.seen then some (false, d) else (do
  evicted ← get_elem? d.ring d.head
  let seen = block_number ∷ d.seen
  some (
    true,
    record {
      seen = if evicted == 0 then seen else erase evicted seen;
      ring = set d.ring d.head block_number;
      head = (d.head + 1) % dedup_window;
    },
  ))

-- A block's header, of which the base fee may be missing.
pub record Header : Type 0 where
  pub number : ℕ
  pub base_fee_per_gas : Option ℕ
  pub header_gas_used : ℕ
  pub header_gas_limit : ℕ
  pub header_timestamp : ℕ

-- `PipelineEvent::NewBlock` of src/pipeline_events.rs
pub record NewBlock : Type 0 where
  pub block_number : ℕ
  pub base_fee : ℕ
  pub gas_used : ℕ
  pub gas_limit : ℕ
  pub timestamp : ℕ

abbrev pub new_block : Header → NewBlock
new_block header = record {
  block_number = header.number;
  base_fee = unwrap_or header.base_fee_per_gas 0 % u64_mod;
  gas_used = header.header_gas_used;
  gas_limit = header.header_gas_limit;
  timestamp = header.header_timestamp;
}

abbrev pub send_first : Bool → Header → List NewBlock → List NewBlock
send_first true header events = new_block header ∷ events
send_first false header events = events

-- The loops of all `gossip_endpoint`s on their headers, in the order of the lock: the events sent.
unfoldable pub gossip : BlockDedup → List Header → Option (List NewBlock × BlockDedup)
gossip d [] = some ([], d)
gossip d (header ∷ headers) = do
  (is_first, d') ← try_insert d header.number
  (events, last) ← gossip d' headers
  some (send_first is_first header events, last)

-- The wait before the next connection, in milliseconds.
unfoldable pub next_backoff : ℕ → ℕ
next_backoff backoff_ms = min (backoff_ms * 2) 30_000
