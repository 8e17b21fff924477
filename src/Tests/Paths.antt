-- ===== src/Tests/Paths.antt =====
-- The path builder over a small graph library.
use arb_bot.Prelude.{
  ℕ, zero, suc, ◌+◌, ◌*◌, ◌>>=◌, map, ◌≡◌, refl, Bool, true, false, ◌||◌, List, [], ◌∷◌, ◌++◌, some,
  All, length, ◌==◌, if◌then◌else◌, nat_eq, lookup, insert, contains, erase,
}
use arb_bot.Prelude.Int.{pos}
use arb_bot.Swap.Protocol.{uniswap_v2}
use arb_bot.Swap.Path.{Address, SwapStep, SwapPath, new}
use arb_bot.PoolLoader.{RawPool}
use arb_bot.PathBuilder.{
  Edge, Petgraph, drop_last, hop_step, hop_steps, build_swap_path, scan_edges, find_cycles,
  build_graph, search_tokens, build_arb_paths,
}
use arb_bot.PathBuilder.Cycles.{IsCycle, Distinct}
use arb_bot.PathBuilder.Build.{PetgraphLaws, build_arb_paths-IsCycle}

-- A graph as its tokens and its edges.
abbrev Listed : Type 0
Listed = List Address × List Edge

abbrev incident : ℕ → List Edge → List Edge
incident n [] = []
incident n (e ∷ edges) =
    if e.source == n || e.target == n then e ∷ incident n edges else incident n edges

abbrev weight_of : List Address → ℕ → Address
weight_of [] n = 0
weight_of (token ∷ tokens) zero = token
weight_of (token ∷ tokens) (suc n) = weight_of tokens n

abbrev listed : Petgraph
listed = record {
  Graph = Listed;
  new_undirected = ([], []);
  add_node = λ (g : Listed) token. (length g.0, (g.0 ++ token ∷ [], g.1));
  add_edge = λ (g : Listed) a b w. (g.0, record { source = a; target = b; weight = w } ∷ g.1);
  edges = λ (g : Listed) n. incident n g.1;
  node_weight = λ (g : Listed) n. weight_of g.0 n;
}

All-if :
    (P : ℕ → Type 0) (b : Bool) (e : Edge) (edges : List Edge)
    → P e.weight
    → All (λ f. P f.weight) edges
    → All (λ f. P f.weight) (if b then e ∷ edges else edges)
All-if P true e edges h k = (h, k)
All-if P false e edges h k = k

listed_laws : PetgraphLaws listed
listed_laws = record {
  edges_new = λ n. refl;
  edges_add_node = λ g token n. refl;
  edges_add_edge = λ g a b w n P h k. All-if P (a == n || b == n) _ (incident n g.1) h k;
}

abbrev pool : Address → Address → Address → RawPool
pool address token0 token1 = record {
  address = address;
  token0 = token0;
  token1 = token1;
  decimals0 = 18;
  decimals1 = 18;
  fee = 30;
  tick_spacing = pos 0;
  protocol = uniswap_v2;
}

-- A triangle of tokens 10, 20 and 30.
abbrev triangle : List RawPool
triangle = pool 1 10 20 ∷ pool 2 20 30 ∷ pool 3 30 10 ∷ []

-- The addresses of the pools as the digits of a number.
abbrev digits : List SwapStep → ℕ
digits [] = 0
digits (s ∷ steps) = s.pool_address + 10 * digits steps

program : Unit {0}
unfolding drop_last hop_step hop_steps build_swap_path scan_edges find_cycles build_graph
    search_tokens build_arb_paths lookup insert contains erase new
program = tt

-- The triangle is found in both directions, with a limit of 2 hops already.
both_ways :
    (build_arb_paths listed digits triangle (10 ∷ []) 2 100 >>= λ paths.
    some (map (λ p. p.hash) paths))
    ≡ some (123 ∷ 321 ∷ [])
unfolding program
both_ways = refl

-- No cycle of 2 swaps is found, by two pools of the same tokens.
no_pairs :
    build_arb_paths listed digits (pool 1 10 20 ∷ pool 2 10 20 ∷ []) (10 ∷ []) 3 100 ≡ some []
unfolding program
no_pairs = refl

abbrev square : List RawPool
square = pool 1 30 10 ∷ pool 2 40 10 ∷ pool 3 30 40 ∷ pool 4 20 30 ∷ pool 5 20 10 ∷ []

-- A limit of 1 path for each start token, and 2 paths come: the callers of the call that meets the
-- limit go on with their loops.
over_limit :
    (build_arb_paths listed digits square (10 ∷ []) 3 1 >>= λ paths. some (map (λ p. p.hash) paths))
    ≡ some (2345 ∷ 145 ∷ [])
unfolding program
over_limit = refl

build_arb_paths-IsCycle_example :
    (paths : List SwapPath) × (build_arb_paths listed digits triangle (10 ∷ []) 2 100 ≡ some paths)
    × All (IsCycle 2) paths
    × Distinct paths
build_arb_paths-IsCycle_example =
    build_arb_paths-IsCycle listed listed_laws digits triangle (10 ∷ []) 2 100
