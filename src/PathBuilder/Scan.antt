-- ===== src/PathBuilder/Scan.antt =====
-- The search of src/path_builder.rs keeps its invariant and restores what it pushes.
use mathlib.Core.Path.{subst}
use mathlib.Core.List.{map-append}
use arb_bot.Prelude.{
  ℕ, zero, suc, ◌+◌, ◌≤◌, ◌<◌, ◌≡◌, refl, ap, ◌∙◌, inl, inr, false, ◌&&◌, not, List, [], ◌∷◌, map,
  Option, some, arith, ltb, leb, ◌==◌, ==_iff, if◌then◌else◌, ◌>>=◌, >>=-eq-some, some_inj,
  Bool-cases, Option-cases, length, length-append, All, All-append, nat_eq, lookup, contains, erase,
  erase_absent,
}
use arb_bot.Swap.Path.{Address, SwapStep, SwapPath}
use arb_bot.PoolLoader.{RawPool}
use arb_bot.PathBuilder.{
  Edge, Petgraph, Hop, Search, drop_last, build_swap_path, enter, leave, emit, scan_edges,
  find_cycles, search_tokens, build_graph, build_arb_paths,
}
use arb_bot.PathBuilder.Cycles.{
  IsCycle, Distinct, IsChain, IsChain-append, Distinct-append, if_true, if_false, drop_last-append,
  build_swap_path-IsCycle,
}

-- To remove the node that was inserted last restores the set.
pub erase-enter :
    (node : ℕ) (visited : List ℕ)
    → contains node visited ≡ false
    → erase node (node ∷ visited) ≡ visited
unfolding erase
erase-enter node visited h = ground (arith, erase_absent node visited h, ==_iff node node)

-- What the search keeps: it has emitted cycles only, and it has seen just their hashes.
pub record Inv (max_hops : ℕ) (s : Search) : Type 0 where
  pub cycles : All (IsCycle max_hops) s.all_paths
  pub seen : s.seen_hashes ≡ map (λ q. q.hash) s.all_paths
  pub distinct : Distinct s.all_paths

pub emit-Inv :
    (max_hops : ℕ) (s : Search) (path : SwapPath)
    → Inv max_hops s
    → IsCycle max_hops path
    → contains path.hash s.seen_hashes ≡ false
    → Inv max_hops (emit path s)
emit-Inv max_hops s path inv cycle unseen = record {
  cycles = All-append (IsCycle max_hops) s.all_paths (path ∷ []) inv.cycles (cycle, tt);
  seen = ground (arith, inv.seen, map-append (λ r. r.hash) s.all_paths (path ∷ []));
  distinct = Distinct-append s.all_paths path (rw inv.seen at unseen) inv.distinct;
}

-- Where the search stands: at a node that the hops lead to from the start, within the limit.
pub record At (start max_hops node : ℕ) (s : Search) : Type 0 where
  pub chain : IsChain start s.current_path node
  pub within : length s.current_path ≤ max_hops

-- A call leaves the hops and the visited nodes as it found them.
pub record Back (max_hops : ℕ) (s s' : Search) : Type 0 where
  pub inv : Inv max_hops s'
  pub path : s'.current_path ≡ s.current_path
  pub visited : s'.visited ≡ s.visited

Back-trans :
    (max_hops : ℕ) (s t u : Search)
    → t.current_path ≡ s.current_path
    → t.visited ≡ s.visited
    → Back max_hops t u
    → Back max_hops s u
Back-trans max_hops s t u p v b = record { inv = b.inv; path = b.path ∙ p; visited = b.visited ∙ v }

module _ (petgraph : Petgraph) (hasher : List SwapStep → ℕ) (pools : List RawPool)
    (graph : petgraph.Graph) where
  module _ (start max_hops cap : ℕ) where
    -- The recursive call does what the search does.
    abbrev pub RecursesBack : (ℕ → Search → Option Search) → Type 0
    RecursesBack recurse =
        (node : ℕ) (s s' : Search)
        → recurse node s ≡ some s'
        → Inv max_hops s
        → At start max_hops node s
        → Back max_hops s s'

    module _ (recurse : ℕ → Search → Option Search) (ok : RecursesBack recurse) (cur : ℕ)
        (edge : Edge) (scan : Search → Option Search) (s s' : Search)
        (later : (t : Search)
          → scan t ≡ some s'
          → Inv max_hops t
          → At start max_hops cur t
          → Back max_hops t s')
        (inv : Inv max_hops s) (here : At start max_hops cur s) where
      abbrev next : ℕ
      next = if edge.source == cur then edge.target else edge.source

      emitted :
          (path : SwapPath)
          → Inv max_hops (emit path s)
          → (if leb cap (s.count + 1) then some (emit path s) else scan (emit path s)) ≡ some s'
          → Back max_hops s s'
      emitted path inv' e = elim (Bool-cases (leb cap (s.count + 1))) [
        | inl full ↦
            subst (λ (t : Search). Back max_hops s t) (some_inj (if_true _ full e))
              (record { inv = inv'; path = refl; visited = refl })
        | inr room ↦ Back-trans max_hops s (emit path s) s' refl refl (
            later (emit path s) (if_false _ room e) inv'
              (record { chain = here.chain; within = here.within }))
      ]

      closing :
          (build_swap_path petgraph hasher pools graph s.current_path cur edge.weight start
              >>= λ path.
                  (if contains path.hash s.seen_hashes
                    then scan s
                    else if leb cap (s.count + 1)
                    then some (emit path s)
                    else scan (emit path s)))
            ≡ some s'
          → 2 ≤ length s.current_path
          → Back max_hops s s'
      closing e long =
          let (path, e1, e2) =
            >>=-eq-some
              (build_swap_path petgraph hasher pools graph s.current_path cur edge.weight start) _
              e in
          let cycle =
            build_swap_path-IsCycle petgraph hasher pools graph start max_hops cur edge.weight
              s.current_path path e1 here.chain long here.within in
          elim (Bool-cases (contains path.hash s.seen_hashes)) [
            | inl old ↦ later s (if_true _ old e2) inv here
            | inr fresh ↦
                emitted path (emit-Inv max_hops s path inv cycle fresh) (if_false _ fresh e2)
          ]

      descending :
          (recurse next (enter (cur, edge.weight, next) next s) >>= λ t. scan (leave next t))
            ≡ some s'
          → contains next s.visited ≡ false
          → length s.current_path < max_hops
          → Back max_hops s s'
      descending e unvisited shorter =
          let hop : Hop = (cur, edge.weight, next) in
          let (t, e1, e2) = >>=-eq-some (recurse next (enter hop next s)) _ e in
          let back =
            ok next (enter hop next s) t e1
              (record { cycles = inv.cycles; seen = inv.seen; distinct = inv.distinct })
              (record {
                chain = IsChain-append start cur edge.weight next s.current_path here.chain;
                within = omega (arith, length-append s.current_path (hop ∷ []));
              }) in
          let path : drop_last t.current_path ≡ s.current_path =
            ap drop_last back.path ∙ drop_last-append s.current_path hop in
          let visited : erase next t.visited ≡ s.visited =
            ap (λ (v : List ℕ). erase next v) back.visited ∙ erase-enter next s.visited unvisited in
          Back-trans max_hops s (leave next t) s' path visited (
            later (leave next t) e2
              (record {
                cycles = back.inv.cycles;
                seen = back.inv.seen;
                distinct = back.inv.distinct;
              })
              (record { chain = rw path here.chain; within = rw path here.within }))

    pub scan_edges-Back :
        (recurse : ℕ → Search → Option Search)
        → RecursesBack recurse
        → (cur : ℕ) (edges : List Edge) (s s' : Search)
        → scan_edges petgraph hasher pools graph start max_hops cap recurse cur edges s ≡ some s'
        → Inv max_hops s
        → At start max_hops cur s
        → Back max_hops s s'
    unfolding scan_edges
    scan_edges-Back recurse ok cur [] s s' h inv here =
        subst (λ (t : Search). Back max_hops s t) (some_inj h)
          (record { inv = inv; path = refl; visited = refl })
    scan_edges-Back recurse ok cur (edge ∷ edges) s s' h inv here =
        let scan : Search → Option Search =
          λ t. scan_edges petgraph hasher pools graph start max_hops cap recurse cur edges t in
        let later : (t : Search)
            → scan t ≡ some s'
            → Inv max_hops t
            → At start max_hops cur t
            → Back max_hops t s' =
          λ t e i a. scan_edges-Back recurse ok cur edges t s' e i a in
        let node = next recurse ok cur edge scan s s' later inv here in
        elim (Bool-cases (node == start)) [
          | inl closes ↦ elim (Bool-cases (leb 2 (length s.current_path))) [
            | inl long ↦
                closing recurse ok cur edge scan s s' later inv here
                  (if_true _ long (if_true _ closes h)) (ground arith)
            | inr short ↦ later s (if_false _ short (if_true _ closes h)) inv here
          ]
          | inr open_end ↦
              elim (Bool-cases
                (not (contains node s.visited) && ltb (length s.current_path) max_hops)) [
                  | inl deeper ↦
                      descending recurse ok cur edge scan s s' later inv here
                        (if_true _ deeper (if_false _ open_end h)) (ground arith) (ground arith)
                  | inr blocked ↦ later s (if_false _ blocked (if_false _ open_end h)) inv here
                ]
        ]

    pub find_cycles-Back :
        (fuel : ℕ) → RecursesBack (find_cycles petgraph hasher pools graph start max_hops cap fuel)
    unfolding find_cycles
    find_cycles-Back zero cur s s' h inv here = cc
    find_cycles-Back (suc fuel) cur s s' h inv here = elim (Bool-cases (leb cap s.count)) [
      | inl full ↦
          subst (λ (t : Search). Back max_hops s t) (some_inj (if_true _ full h))
            (record { inv = inv; path = refl; visited = refl })
      | inr room ↦
          scan_edges-Back (find_cycles petgraph hasher pools graph start max_hops cap fuel)
            (find_cycles-Back fuel) cur (petgraph.edges graph cur) s s' (if_false _ room h) inv here
    ]

  pub search_tokens-Inv :
      (node_map : List (Address × ℕ)) (max_hops cap : ℕ) (tokens : List Address) (s s' : Search)
      → search_tokens petgraph hasher pools graph node_map max_hops cap tokens s ≡ some s'
      → Inv max_hops s
      → Inv max_hops s'
  unfolding search_tokens
  search_tokens-Inv node_map max_hops cap [] s s' h inv =
      subst (λ (t : Search). Inv max_hops t) (some_inj h) inv
  search_tokens-Inv node_map max_hops cap (token ∷ tokens) s s' h inv =
      elim (Option-cases (lookup token node_map)) [
        | inl unknown ↦ search_tokens-Inv node_map max_hops cap tokens s s' (ground arith) inv
        | inr (start, known) ↦
            let begun : Search = record s { current_path = []; visited = start ∷ []; count = 0 } in
            let found = rw (search_tokens, known) at h in
            let (t, e1, e2) =
              >>=-eq-some
                (find_cycles petgraph hasher pools graph start max_hops cap (suc max_hops) start
                  begun)
                _ found in
            let back =
              find_cycles-Back start max_hops cap (suc max_hops) start begun t e1
                (record { cycles = inv.cycles; seen = inv.seen; distinct = inv.distinct })
                (record { chain = refl; within = omega arith }) in
            search_tokens-Inv node_map max_hops cap tokens t s' e2 back.inv
      ]

-- What a run of the builder returns.
pub emitted_cycles :
    (petgraph : Petgraph) (hasher : List SwapStep → ℕ) (pools : List RawPool)
    (start_tokens : List Address) (max_hops max_paths_per_token : ℕ) {paths : List SwapPath}
    → build_arb_paths petgraph hasher pools start_tokens max_hops max_paths_per_token ≡ some paths
    → All (IsCycle max_hops) paths × Distinct paths
unfolding build_arb_paths
emitted_cycles petgraph hasher pools start_tokens max_hops limit {paths} h =
    let built = build_graph petgraph hasher pools 0 pools (petgraph.new_undirected, []) in
    let nothing : Search = record {
      current_path = [];
      visited = [];
      all_paths = [];
      seen_hashes = [];
      count = 0;
    } in
    let (s, e1, e2) =
      >>=-eq-some
        (search_tokens petgraph hasher pools built.0 built.1 max_hops limit start_tokens nothing) _
        h in
    let inv =
      search_tokens-Inv petgraph hasher pools built.0 built.1 max_hops limit start_tokens nothing s
        e1 (record { cycles = tt; seen = refl; distinct = tt }) in
    subst (λ (l : List SwapPath). All (IsCycle max_hops) l × Distinct l) (some_inj e2)
      (inv.cycles, inv.distinct)
