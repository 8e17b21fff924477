-- ===== src/PathBuilder.antt =====
-- src/path_builder.rs: the search for the cycles of pools. The graph is the crate petgraph, a
-- parameter; a node is a number, and an edge carries the index of its pool.
pub mod Cycles
pub mod Scan
pub mod Total
pub mod Build
use arb_bot.Prelude.{
  ℕ, zero, suc, ◌+◌, Bool, true, false, ◌&&◌, not, List, [], ◌∷◌, ◌++◌, Option, none, some, ltb,
  leb, ◌==◌, if◌then◌else◌, ◌>>=◌, length, get_elem?, nat_eq, lookup, insert, contains, erase,
}
use arb_bot.Swap.Path.{Address, SwapStep, SwapPath, new}
use arb_bot.PoolLoader.{RawPool}

pub record Edge : Type 0 where
  pub source : ℕ
  pub target : ℕ
  pub weight : ℕ

-- What is used of petgraph's `UnGraph<Address, usize>`.
pub record Petgraph : Type 1 where
  pub Graph : Type 0
  pub new_undirected : Graph
  pub add_node : Graph → Address → ℕ × Graph
  pub add_edge : Graph → ℕ → ℕ → ℕ → Graph
  pub edges : Graph → ℕ → List Edge
  pub node_weight : Graph → ℕ → Address

-- A swap on the path: the node it leaves, the index of its pool, and the node it reaches.
abbrev pub Hop : Type 0
Hop = ℕ × ℕ × ℕ

-- What the search mutates.
pub record Search : Type 0 where
  pub current_path : List Hop
  pub visited : List ℕ
  pub all_paths : List SwapPath
  pub seen_hashes : List ℕ
  pub count : ℕ

-- `Vec::pop`
unfoldable pub drop_last : List Hop → List Hop
drop_last [] = []
drop_last (h ∷ []) = []
drop_last (h ∷ i ∷ hops) = h ∷ drop_last (i ∷ hops)

-- `current_path.push`, `visited.insert`, and `current_path.pop`, `visited.remove`
abbrev pub enter : Hop → ℕ → Search → Search
enter hop next s = record s {
  current_path = s.current_path ++ hop ∷ [];
  visited = next ∷ s.visited;
}

abbrev pub leave : ℕ → Search → Search
leave next s = record s { current_path = drop_last s.current_path; visited = erase next s.visited }

abbrev pub emit : SwapPath → Search → Search
emit path s = record s {
  all_paths = s.all_paths ++ path ∷ [];
  seen_hashes = s.seen_hashes ++ path.hash ∷ [];
  count = s.count + 1;
}

module _ (petgraph : Petgraph) (hasher : List SwapStep → ℕ) (pools : List RawPool) where
  -- The step of a hop; `none` is the panic where the pool's index is out of range.
  unfoldable pub hop_step : petgraph.Graph → Hop → Option SwapStep
  hop_step graph (from, pool_idx, to) = do
    pool ← get_elem? pools pool_idx
    some (record {
      pool_address = pool.address;
      token_in = petgraph.node_weight graph from;
      token_out = petgraph.node_weight graph to;
      protocol = pool.protocol;
      fee = pool.fee;
    })

  unfoldable pub hop_steps : petgraph.Graph → List Hop → Option (List SwapStep)
  unfolding hop_step
  hop_steps graph [] = some []
  hop_steps graph (hop ∷ hops) = do
    step ← hop_step graph hop
    steps ← hop_steps graph hops
    some (step ∷ steps)

  unfoldable pub build_swap_path : petgraph.Graph → List Hop → ℕ → ℕ → ℕ → Option SwapPath
  unfolding hop_steps hop_step
  build_swap_path graph current_path closing_from closing_pool_idx closing_to = do
    steps ← hop_steps graph current_path
    closing ← hop_step graph (closing_from, closing_pool_idx, closing_to)
    some (new hasher (steps ++ closing ∷ []))

  module _ (graph : petgraph.Graph) (start_node max_hops max_paths_per_token : ℕ) where
    -- The loop over the edges of a node; `recurse` is the recursive call.
    unfoldable pub scan_edges :
        (ℕ → Search → Option Search) → ℕ → List Edge → Search → Option Search
    unfolding build_swap_path
    scan_edges recurse current [] s = some s
    scan_edges recurse current (edge ∷ edges) s =
        let next = if edge.source == current then edge.target else edge.source in
        let skip = scan_edges recurse current edges s in
        let close = build_swap_path graph s.current_path current edge.weight start_node >>= λ path.
        (let rest = scan_edges recurse current edges (emit path s) in
          if contains path.hash s.seen_hashes
          then skip
          else if leb max_paths_per_token (s.count + 1)
          then some (emit path s)
          else rest) in
        let descend = recurse next (enter (current, edge.weight, next) next s) >>= λ s'.
        scan_edges recurse current edges (leave next s') in
        if next == start_node
        then (if leb 2 (length s.current_path) then close else skip)
        else if not (contains next s.visited) && ltb (length s.current_path) max_hops
        then descend
        else skip

    -- `none` is a panic, or the end of the fuel.
    unfoldable pub find_cycles : ℕ → ℕ → Search → Option Search
    unfolding scan_edges
    find_cycles zero current s = none
    find_cycles (suc fuel) current s =
        let scan = scan_edges (find_cycles fuel) current (petgraph.edges graph current) s in
        if leb max_paths_per_token s.count then some s else scan

  -- The node of a token, which is added where the token has none.
  abbrev pub node_or_add :
      petgraph.Graph × List (Address × ℕ)
      → Address
      → Option ℕ
      → ℕ × (petgraph.Graph × List (Address × ℕ))
  node_or_add built token (some node) = (node, built)
  node_or_add built token none =
      let added = petgraph.add_node built.0 token in
      (added.0, (added.1, insert token added.0 built.1))

  abbrev pub node_of :
      petgraph.Graph × List (Address × ℕ) → Address → ℕ × (petgraph.Graph × List (Address × ℕ))
  node_of built token = node_or_add built token (lookup token built.1)

  unfoldable pub build_graph :
      ℕ → List RawPool → petgraph.Graph × List (Address × ℕ) → petgraph.Graph × List (Address × ℕ)
  build_graph i [] built = built
  build_graph i (pool ∷ rest) built =
      let (n0, built0) = node_of built pool.token0 in
      let (n1, (graph, node_map)) = node_of built0 pool.token1 in
      build_graph (suc i) rest (petgraph.add_edge graph n0 n1 i, node_map)

  -- The loop over the start tokens. A path has at most `max_hops` hops before it closes, so the fuel
  -- for a search is one more.
  unfoldable pub search_tokens :
      petgraph.Graph → List (Address × ℕ) → ℕ → ℕ → List Address → Search → Option Search
  unfolding find_cycles
  search_tokens graph node_map max_hops max_paths [] s = some s
  search_tokens graph node_map max_hops max_paths (token ∷ tokens) s =
      elim (lookup token node_map) [
        | none ↦ search_tokens graph node_map max_hops max_paths tokens s
        | some start_node ↦
            find_cycles graph start_node max_hops max_paths (suc max_hops) start_node
              (record s { current_path = []; visited = start_node ∷ []; count = 0 })
            >>= λ s'. search_tokens graph node_map max_hops max_paths tokens s'
      ]

  unfoldable pub build_arb_paths : List Address → ℕ → ℕ → Option (List SwapPath)
  unfolding build_graph search_tokens
  build_arb_paths start_tokens max_hops max_paths_per_token =
      let (graph, node_map) = build_graph 0 pools (petgraph.new_undirected, []) in
      do
        s ← search_tokens graph node_map max_hops max_paths_per_token start_tokens (record {
          current_path = [];
          visited = [];
          all_paths = [];
          seen_hashes = [];
          count = 0;
        })
        some s.all_paths
