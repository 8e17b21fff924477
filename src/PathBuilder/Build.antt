-- ===== src/PathBuilder/Build.antt =====
-- `build_arb_paths` of src/path_builder.rs over the laws of the graph library.
use arb_bot.Prelude.{
  ℕ, suc, ◌+◌, ◌≤◌, ◌<◌, ◌≡◌, refl, List, [], ◌∷◌, Option, none, some, arith, length, All, nat_eq,
  lookup,
}
use arb_bot.Swap.Path.{Address, SwapStep, SwapPath}
use arb_bot.PoolLoader.{RawPool}
use arb_bot.PathBuilder.{
  Edge, Petgraph, Search, search_tokens, node_of, node_or_add, build_graph, build_arb_paths,
}
use arb_bot.PathBuilder.Cycles.{IsCycle, Distinct}
use arb_bot.PathBuilder.Scan.{emitted_cycles}
use arb_bot.PathBuilder.Total.{Returns, bind-Returns, search_tokens-Returns}

-- What the search relies on of petgraph: a new graph has no edges, a new node adds none, and a new
-- edge adds edges of its weight only.
pub record PetgraphLaws (petgraph : Petgraph) : Type 1 where
  pub edges_new : (n : ℕ) → petgraph.edges petgraph.new_undirected n ≡ []
  pub edges_add_node :
      (g : petgraph.Graph) (token : Address) (n : ℕ)
      → petgraph.edges (petgraph.add_node g token).1 n ≡ petgraph.edges g n
  pub edges_add_edge :
      (g : petgraph.Graph) (a b weight n : ℕ) (P : ℕ → Type 0)
      → P weight
      → All (λ e. P e.weight) (petgraph.edges g n)
      → All (λ e. P e.weight) (petgraph.edges (petgraph.add_edge g a b weight) n)

module _ (petgraph : Petgraph) (laws : PetgraphLaws petgraph) (hasher : List SwapStep → ℕ)
    (pools : List RawPool) where
  -- The edges of a graph name pools below a bound.
  abbrev Known : ℕ → petgraph.Graph → Type 0
  Known bound g = (n : ℕ) → All (λ e. e.weight < bound) (petgraph.edges g n)

  node_or_add-Known :
      (bound : ℕ) (built : petgraph.Graph × List (Address × ℕ)) (token : Address) (node : Option ℕ)
      → Known bound built.0
      → Known bound (node_or_add petgraph hasher pools built token node).1.0
  node_or_add-Known bound built token (some node) h n = h n
  node_or_add-Known bound built token none h n = rw (laws.edges_add_node built.0 token n) (h n)

  All-bound_mono :
      (m n : ℕ) (edges : List Edge)
      → m ≤ n
      → All (λ e. e.weight < m) edges
      → All (λ e. e.weight < n) edges
  All-bound_mono m n [] h k = tt
  All-bound_mono m n (e ∷ edges) h k = (omega (arith, k.0), All-bound_mono m n edges h k.1)

  build_graph-Known :
      (i : ℕ) (rest : List RawPool) (built : petgraph.Graph × List (Address × ℕ))
      → Known i built.0
      → Known (i + length rest) (build_graph petgraph hasher pools i rest built).0
  unfolding build_graph
  build_graph-Known i [] built h n =
      All-bound_mono i (i + 0) (petgraph.edges built.0 n) (omega arith) (h n)
  build_graph-Known i (pool ∷ rest) built h n =
      let first = node_of petgraph hasher pools built pool.token0 in
      let second = node_of petgraph hasher pools first.1 pool.token1 in
      let known0 = node_or_add-Known i built pool.token0 (lookup pool.token0 built.1) h in
      let known1 = node_or_add-Known i first.1 pool.token1 (lookup pool.token1 first.1.1) known0 in
      let g = petgraph.add_edge second.1.0 first.0 second.0 i in
      let known : Known (suc i) g = λ m.
        laws.edges_add_edge second.1.0 first.0 second.0 i m (λ (w : ℕ). w < suc i) (omega arith)
          (All-bound_mono i (suc i) (petgraph.edges second.1.0 m) (omega arith) (known1 m)) in
      let same : suc i + length rest ≡ i + suc (length rest) = omega arith in
      All-bound_mono (suc i + length rest) (i + suc (length rest)) _ (omega arith)
        (build_graph-Known (suc i) rest (g, second.1.1) known n)

-- With a graph library that keeps its laws, the builder always returns: no index of a pool is out of
-- range and the depth of the search stays within the fuel of `max_hops + 1`. Every path that it
-- returns is a cycle of at least 3 and at most `max_hops + 1` swaps, each swap leaving the token that
-- the one before reached, and no two paths have the same hash, for any hasher.
pub build_arb_paths-IsCycle :
    (petgraph : Petgraph) (laws : PetgraphLaws petgraph) (hasher : List SwapStep → ℕ)
    (pools : List RawPool) (start_tokens : List Address) (max_hops max_paths_per_token : ℕ)
    → (paths : List SwapPath) × (build_arb_paths petgraph hasher pools start_tokens max_hops
          max_paths_per_token
        ≡ some paths)
      × All (IsCycle max_hops) paths
      × Distinct paths
unfolding build_arb_paths
build_arb_paths-IsCycle petgraph laws hasher pools start_tokens max_hops limit =
    let (paths, e) = returns in
    let (cycles, distinct) = emitted_cycles petgraph hasher pools start_tokens max_hops limit e in
    (paths, e, cycles, distinct)
  where
    returns : Returns (build_arb_paths petgraph hasher pools start_tokens max_hops limit)
    returns =
        let built = build_graph petgraph hasher pools 0 pools (petgraph.new_undirected, []) in
        let nothing : Search = record {
          current_path = [];
          visited = [];
          all_paths = [];
          seen_hashes = [];
          count = 0;
        } in
        let known : (n : ℕ) → All (λ e. e.weight < length pools) (petgraph.edges built.0 n) = λ n.
          All-bound_mono petgraph laws hasher pools (0 + length pools) (length pools)
            (petgraph.edges built.0 n) (omega arith)
            (build_graph-Known petgraph laws hasher pools 0 pools (petgraph.new_undirected, [])
              (λ m. rw (laws.edges_new m) tt) n) in
        bind-Returns
          (search_tokens petgraph hasher pools built.0 built.1 max_hops limit start_tokens nothing)
          _
          (search_tokens-Returns petgraph hasher pools built.0 known built.1 max_hops limit
            start_tokens nothing (record { cycles = tt; seen = refl; distinct = tt }))
          (λ s e. (_, refl))
