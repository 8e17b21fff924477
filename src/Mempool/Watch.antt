-- ===== src/Mempool/Watch.antt =====
-- The watcher of src/mempool.rs: the table from pairs of tokens to pools, and what it does with one
-- pending transaction. The subscription and the counters for the log are left out.
use arb_bot.Prelude.{
  ℕ, Bool, true, ◌&&◌, ◌≡◌, ◌↔◌, arith, List, [], ◌∷◌, ◌++◌, Option, none, some, ltb, ◌==◌,
  if◌then◌else◌, Eq, nat_eq, lookup, insert, contains, unwrap_or,
}
use arb_bot.Prelude.Fallible.{Fallible, found, missing, ◌>>=◌}
use arb_bot.Swap.Path.{Address}
use arb_bot.Searcher.{PoolMeta}
use arb_bot.Mempool.Decode.{decode_any_swap}

-- The key of a pair of tokens.
abbrev pub tokens_beq : Address × Address → Address × Address → Bool
tokens_beq p q = p.0 == q.0 && p.1 == q.1

pub tokens_beq_iff : (p q : Address × Address) → (tokens_beq p q ≡ true) ↔ (p ≡ q)
tokens_beq_iff p q = ground arith

instance abbrev pub tokens_eq : Eq (Address × Address)
tokens_eq = record { beq = tokens_beq; beq_iff = tokens_beq_iff }

abbrev pub PairTable : Type 0
PairTable = List ((Address × Address) × List Address)

pub record MempoolConfig : Type 0 where
  pub router_addresses : List Address
  pub token_pair_to_pool : PairTable

-- `PoolsTouched` of src/pipeline_events.rs
pub record PoolsTouched : Type 0 where
  pub block_number : ℕ
  pub touched_pools : List Address

abbrev pub canonical : Address → Address → Address × Address
canonical a b = if ltb a b then (a, b) else (b, a)

-- `sort` of addresses
unfoldable pub insert_address : Address → List Address → List Address
insert_address a [] = a ∷ []
insert_address a (b ∷ bs) =
    let rest = insert_address a bs in if ltb b a then b ∷ rest else a ∷ b ∷ bs

unfoldable pub sort : List Address → List Address
unfolding insert_address
sort [] = []
sort (a ∷ rest) = insert_address a (sort rest)

-- `dedup`: an element that repeats the one before it is dropped.
unfoldable pub dedup_after : Address → List Address → List Address
dedup_after a [] = []
dedup_after a (b ∷ bs) = let rest = dedup_after b bs in if a == b then rest else b ∷ rest

unfoldable pub dedup : List Address → List Address
unfolding dedup_after
dedup [] = []
dedup (a ∷ rest) = a ∷ dedup_after a rest

abbrev pub pools_of : Address × Address → PairTable → List Address
pools_of key m = unwrap_or (lookup key m) []

-- The first loop of `build_token_pair_lookup`.
unfoldable pub push_metas : List PoolMeta → PairTable → PairTable
push_metas [] m = m
push_metas (meta ∷ metas) m =
    let key = canonical meta.token0 meta.token1 in
    push_metas metas (insert key (pools_of key m ++ meta.address ∷ []) m)

-- Its second loop, over `values_mut`.
unfoldable pub tidy : PairTable → PairTable
unfolding sort dedup
tidy [] = []
tidy ((key, pools) ∷ m) = (key, dedup (sort pools)) ∷ tidy m

unfoldable pub build_token_pair_lookup : List PoolMeta → PairTable
unfolding push_metas tidy
build_token_pair_lookup metas = tidy (push_metas metas [])

-- The loop over `token_path.windows(2)`.
unfoldable pub affected_pools : PairTable → List Address → List Address
affected_pools table [] = []
affected_pools table (a ∷ []) = []
affected_pools table (a ∷ b ∷ path) =
    pools_of (canonical a b) table ++ affected_pools table (b ∷ path)

-- The event of a token path; an event is sent only if a pool is affected.
unfoldable pub touch : PairTable → List Address → Option PoolsTouched
unfolding affected_pools sort dedup
touch table path = elim (affected_pools table path) [
  | [] ↦ none
  | p ∷ ps ↦ some (record { block_number = 0; touched_pools = dedup (sort (p ∷ ps)) })
]

-- The body of the loop of `stream_pending_swaps` on one transaction: its receiver, if it is no
-- creation of a contract, and its input. `missing` is a transaction that sends no event.
unfoldable pub pending_swap : MempoolConfig → Option Address → List ℕ → Fallible PoolsTouched
unfolding touch
pending_swap config none input = missing
pending_swap config (some to_addr) input =
    if contains to_addr config.router_addresses
    then (do
      token_path ← decode_any_swap input
      elim (touch config.token_pair_to_pool token_path) [
        | none ↦ missing
        | some event ↦ found event
      ])
    else missing
