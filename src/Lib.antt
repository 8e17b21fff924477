-- ===== src/Lib.antt =====
-- Verification library of the arbitrage bot: the parts of the Rust program under src/ that decide
-- which swaps it makes. All paths are from the repository's root.
--
-- The bot keeps a local copy of the chain's state, estimates a rate for every pool from it, searches
-- the known cycles of pools for those that gain, and hands these on to be simulated and sent.
--   Prelude        shared names: maps and sets as lists, options, lists, integers, arithmetic
--   Word           the machine integers: u64, and U256 with wrapping and saturating operations
--   Swap           src/swap_types.rs: Protocol is PoolProtocol, Path has SwapStep and SwapPath
--   PoolLoader     src/pool_loader.rs: RawPool, the readers and the writer of the cache files; Fields
--                  parses and prints their numbers, Crawl is crawl_factory_logs; proofs in RoundTrip
--                  and Crawl/Complete
--   Gas            src/gas_station.rs: GasStation, with Bounds on its fees
--   StateDb        src/state_db.rs: Slots is the storage layout, Store the state of BlockStateDB with
--                  its writes, Read its readers; Writes and Reads hold the proofs
--   BlockStream    src/block_stream.rs: the new blocks that the endpoints announce; proof in Window
--   Tracing        src/tracing_revm.rs: the storage that a block changed; proofs in Effect
--   MarketState    src/market_state.rs: MarketStateWorker, which applies a block's trace to the state
--                  database; proof in Refine
--   Cache          src/cache_v2.rs: CalcCache, where `insert` is `put`, and PathRateCache, whose
--                  methods end in _rate; Index and Fresh hold the proofs
--   Calculation    src/calculation/: V2 is v2.rs (proofs in Isqrt, Product, RoundTrip), V3 is v3.rs
--                  (Bitmap finds the next tick, Swap walks), Aerodrome is aerodrome.rs (proofs in
--                  Bounds), Rates is rates.rs (Seed fills it; proofs in Evaluate, Frame, Prices)
--   PathBuilder    src/path_builder.rs: the cycles of the token graph; Cycles says what a cycle is,
--                  Scan and Total hold the proofs on the search, Build those on the whole
--   Searcher       src/searcher_pipeline.rs: the index of the paths, the updates of the rates, the
--                  affected paths, and their evaluation; proofs in Affected, Capped, Update,
--                  Evaluation
--   SimDb          src/sim_db.rs: the database of one simulation; proof in WriteBack
--   Quoter         src/quoter_revm.rs: the search for the best input; proof in Best
--   Simulator      src/simulator_pipeline.rs: the decision on a path; proof in Balance
--   Mempool        src/mempool.rs: Decode has the decoders of calldata, Watch the table of pairs and
--                  the handling of a transaction; Encoding says how calldata is laid out, and
--                  RoundTrip, MultiHop, Panics and Affected hold the proofs
--   TxSender       src/tx_sender_pipeline.rs: Worker has the configuration, Preflight the check by the
--                  node, Send the submission, Strikes the loop; proofs in Tally, Blacklist,
--                  Signing, Submission, Reverts, Fees
--   Tests          runs on concrete inputs, and the theorems applied to them
--
-- State is a record, and each method is a function on it; locks and atomics are passed through
-- as plain state, so every theorem is about calls that happen one after another. Amounts are native
-- numbers: U256 arithmetic wraps at 2^256 where the Rust code has plain operators, and u64 arithmetic
-- as in a release build. A panic, such as a division by zero, is `none`, or the constructor `panic`
-- where the code returns an Option itself (Prelude.Fallible). Addresses are numbers, and texts lists of characters.
--
-- Loops are recursive functions on lists, or on a number of rounds: the integer square root has as
-- many rounds as its input, which suffices since each round lowers the estimate; the solver of
-- stable pools has the 255 rounds and the walk over the ticks the 500 rounds of the code; the search
-- for cycles has one level more than `max_hops`, which no path exceeds; the loop over the hops of a
-- packed path has as many rounds as the path has bytes, and each reads 23 of them; the crawl of a
-- factory needs as many rounds as there are blocks; a printed number has at most as many digits as
-- its value.
--
-- Parameters stand for code outside the repository: the hash keccak256, the answers of a node and
-- the constants of the EVM library (StateDb.Store.Remote), the crate uniswap_v3_math
-- (Calculation.V3.Swap.V3Math), the crate petgraph (PathBuilder.Petgraph, with the laws that the
-- proofs use in PathBuilder.Build.PetgraphLaws), the hasher of paths, the quote of the EVM library
-- (an argument of Quoter and Simulator), the ABI encoder, the keys, the node and the sequencer
-- of the sender (TxSender.Worker.Outside), the shuffle of the random number
-- generator, the library's reading and printing of addresses (PoolLoader), and the node's logs and
-- storage (arguments of PoolLoader.Crawl and Tracing).
--
-- Not modelled: requests to nodes, channels, logging and signing, which are input and output; the
-- simulation in the EVM library; floating point (estimate_l1_data_fee); the contracts and scripts,
-- which are not Rust.
pub mod Prelude
pub mod Word
pub mod Swap
pub mod PoolLoader
pub mod Gas
pub mod StateDb
pub mod Cache
pub mod Calculation
pub mod Searcher
pub mod PathBuilder
pub mod SimDb
pub mod Quoter
pub mod Simulator
pub mod Mempool
pub mod TxSender
pub mod BlockStream
pub mod Tracing
pub mod MarketState
mod Tests
