-- ===== src/PathBuilder/Total.antt =====
-- The search of src/path_builder.rs always ends with a result: its fuel is enough and no index of a
-- pool is out of range.
use arb_bot.Prelude.{
  ℕ, zero, suc, ◌+◌, ◌≤◌, ◌<◌, ◌≡◌, refl, ap, ◌∙◌, inl, inr, Bool, true, false, ◌&&◌, not, List, [],
  ◌∷◌, Option, none, some, arith, ltb, leb, ◌==◌, if◌then◌else◌, ◌>>=◌, Option-cases, length,
  length-append, get_elem?, All, All-append, nat_eq, lookup, contains,
}
use arb_bot.Swap.Path.{Address, SwapStep}
use arb_bot.PoolLoader.{RawPool}
use arb_bot.PathBuilder.{
  Edge, Petgraph, Hop, Search, drop_last, hop_step, hop_steps, build_swap_path, enter, leave, emit,
  scan_edges, find_cycles, search_tokens,
}
use arb_bot.PathBuilder.Cycles.{IsChain-append, build_swap_path-IsCycle, drop_last-append}
use arb_bot.PathBuilder.Scan.{Inv, At, Back, RecursesBack, emit-Inv, find_cycles-Back}

-- A result exists.
abbrev pub Returns {ℓ} : {A : Type ℓ} → Option A → Type ℓ
Returns {A = A} m = (a : A) × (m ≡ some a)

get_elem?-Returns {ℓ} :
    {A : Type ℓ} (xs : List A) (i : ℕ) → i < length xs → Returns (get_elem? xs i)
get_elem?-Returns [] i h = absurd (omega arith)
get_elem?-Returns (x ∷ xs) zero h = (x, refl)
get_elem?-Returns (x ∷ xs) (suc i) h = get_elem?-Returns xs i (omega arith)

pub bind-Returns {ℓ κ} :
    {A : Type ℓ} {B : Type κ} (m : Option A) (f : A → Option B)
    → Returns m
    → ((a : A) → m ≡ some a → Returns (f a))
    → Returns (m >>= f)
bind-Returns none f h k = absurd (ground (arith, h.1))
bind-Returns (some a) f h k = k a refl

if-Returns {ℓ} :
    {A : Type ℓ} (b : Bool) (x y : Option A)
    → (b ≡ true → Returns x)
    → (b ≡ false → Returns y)
    → Returns (if b then x else y)
if-Returns true x y h k = h refl
if-Returns false x y h k = k refl

module _ (petgraph : Petgraph) (hasher : List SwapStep → ℕ) (pools : List RawPool)
    (graph : petgraph.Graph) where
  -- The pools of the hops are there.
  abbrev InRange : List Hop → Type 0
  InRange hops = All (λ hop. hop.1 < length pools) hops

  hop_step-Returns :
      (hop : Hop) → hop.1 < length pools → Returns (hop_step petgraph hasher pools graph hop)
  unfolding hop_step
  hop_step-Returns (f, p, t) h =
      bind-Returns (get_elem? pools p) _ (get_elem?-Returns pools p h) (λ pool e. (_, refl))

  hop_steps-Returns :
      (hops : List Hop) → InRange hops → Returns (hop_steps petgraph hasher pools graph hops)
  unfolding hop_steps
  hop_steps-Returns [] h = ([], refl)
  hop_steps-Returns (hop ∷ hops) h =
      bind-Returns (hop_step petgraph hasher pools graph hop) _ (hop_step-Returns hop h.0)
        (λ step e.
          bind-Returns (hop_steps petgraph hasher pools graph hops) _ (hop_steps-Returns hops h.1)
            (λ rest k. (_, refl)))

  build_swap_path-Returns :
      (hops : List Hop) (cur pool_idx start : ℕ)
      → InRange hops
      → pool_idx < length pools
      → Returns (build_swap_path petgraph hasher pools graph hops cur pool_idx start)
  unfolding build_swap_path
  build_swap_path-Returns hops cur pool_idx start h k =
      bind-Returns (hop_steps petgraph hasher pools graph hops) _ (hop_steps-Returns hops h)
        (λ steps e.
          bind-Returns (hop_step petgraph hasher pools graph (cur, pool_idx, start)) _
            (hop_step-Returns (cur, pool_idx, start) k) (λ closing l. (_, refl)))

  module _ (start max_hops cap : ℕ) where
    -- A state from which the search is started with some fuel.
    record Ready (fuel cur : ℕ) (s : Search) : Type 0 where
      inv : Inv max_hops s
      here : At start max_hops cur s
      range : InRange s.current_path
      enough : max_hops + 1 ≤ fuel + length s.current_path

    entered :
        (fuel cur pool_idx next : ℕ) (s : Search)
        → Ready (suc fuel) cur s
        → pool_idx < length pools
        → length s.current_path < max_hops
        → Ready fuel next (enter (cur, pool_idx, next) next s)
    entered fuel cur pool_idx next s r h k =
        let hop : Hop = (cur, pool_idx, next) in
        let longer = length-append s.current_path (hop ∷ []) in
        record {
          inv = record { cycles = r.inv.cycles; seen = r.inv.seen; distinct = r.inv.distinct };
          here = record {
            chain = IsChain-append start cur pool_idx next s.current_path r.here.chain;
            within = omega (arith, longer);
          };
          range =
              All-append (λ (i : Hop). i.1 < length pools) s.current_path (hop ∷ []) r.range
                (h, tt);
          enough = omega (arith, longer, r.enough);
        }

    left :
        (fuel cur pool_idx next : ℕ) (s t : Search)
        → Ready (suc fuel) cur s
        → Back max_hops (enter (cur, pool_idx, next) next s) t
        → Ready (suc fuel) cur (leave next t)
    left fuel cur pool_idx next s t r back =
        let path : drop_last t.current_path ≡ s.current_path =
          ap drop_last back.path ∙ drop_last-append s.current_path (cur, pool_idx, next) in
        record {
          inv = record {
            cycles = back.inv.cycles;
            seen = back.inv.seen;
            distinct = back.inv.distinct;
          };
          here = record { chain = rw path r.here.chain; within = rw path r.here.within };
          range = rw path r.range;
          enough = rw path r.enough;
        }

    scan_edges-Returns :
        (fuel : ℕ) (recurse : ℕ → Search → Option Search)
        → RecursesBack petgraph hasher pools graph start max_hops cap recurse
        → ((node : ℕ) (s : Search) → Ready fuel node s → Returns (recurse node s))
        → (cur : ℕ) (edges : List Edge) (s : Search) → All (λ e. e.weight < length pools) edges
        → Ready (suc fuel) cur s
        → Returns (scan_edges petgraph hasher pools graph start max_hops cap recurse cur edges s)
    unfolding scan_edges
    scan_edges-Returns fuel recurse ok total cur [] s known r = (s, refl)
    scan_edges-Returns fuel recurse ok total cur (edge ∷ edges) s known r =
        let next : ℕ = if edge.source == cur then edge.target else edge.source in
        let hop : Hop = (cur, edge.weight, next) in
        let skip = scan_edges-Returns fuel recurse ok total cur edges s known.1 r in
        if-Returns (next == start) _ _
          (λ closes.
            if-Returns (leb 2 (length s.current_path)) _ _
              (λ long.
                bind-Returns
                  (build_swap_path petgraph hasher pools graph s.current_path cur edge.weight start)
                  _ (build_swap_path-Returns s.current_path cur edge.weight start r.range known.0)
                  (λ path built.
                    let cycle =
                      build_swap_path-IsCycle petgraph hasher pools graph start max_hops cur
                        edge.weight s.current_path path built r.here.chain (ground arith)
                        r.here.within in
                    if-Returns (contains path.hash s.seen_hashes) _ _ (λ old. skip)
                      (λ fresh.
                        if-Returns (leb cap (s.count + 1)) _ _ (λ full. (_, refl))
                          (λ room.
                            scan_edges-Returns fuel recurse ok total cur edges (emit path s) known.1
                              (record {
                                inv = emit-Inv max_hops s path r.inv cycle fresh;
                                here = record { chain = r.here.chain; within = r.here.within };
                                range = r.range;
                                enough = r.enough;
                              })))))
              (λ short. skip))
          (λ open_end.
            if-Returns (not (contains next s.visited) && ltb (length s.current_path) max_hops) _ _
              (λ deeper.
                let ready = entered fuel cur edge.weight next s r known.0 (ground arith) in
                bind-Returns (recurse next (enter hop next s)) _
                  (total next (enter hop next s) ready)
                  (λ t e.
                    scan_edges-Returns fuel recurse ok total cur edges (leave next t) known.1 (
                      left fuel cur edge.weight next s t r
                        (ok next (enter hop next s) t e ready.inv ready.here))))
              (λ blocked. skip))

    find_cycles-Returns :
        ((node : ℕ) → All (λ e. e.weight < length pools) (petgraph.edges graph node))
        → (fuel cur : ℕ) (s : Search) → Ready fuel cur s
        → Returns (find_cycles petgraph hasher pools graph start max_hops cap fuel cur s)
    unfolding find_cycles
    find_cycles-Returns known zero cur s r = absurd (omega (arith, r.enough, r.here.within))
    find_cycles-Returns known (suc fuel) cur s r =
        if-Returns (leb cap s.count) _ _ (λ full. (s, refl))
          (λ room.
            scan_edges-Returns fuel
              (find_cycles petgraph hasher pools graph start max_hops cap fuel)
              (find_cycles-Back petgraph hasher pools graph start max_hops cap fuel)
              (find_cycles-Returns known fuel) cur (petgraph.edges graph cur) s (known cur) r)

  pub search_tokens-Returns :
      ((node : ℕ) → All (λ e. e.weight < length pools) (petgraph.edges graph node))
      → (node_map : List (Address × ℕ)) (max_hops limit : ℕ) (tokens : List Address) (s : Search)
      → Inv max_hops s
      → Returns (search_tokens petgraph hasher pools graph node_map max_hops limit tokens s)
  unfolding search_tokens
  search_tokens-Returns known node_map max_hops limit [] s inv = (s, refl)
  search_tokens-Returns known node_map max_hops limit (token ∷ tokens) s inv =
      elim (Option-cases (lookup token node_map)) [
        | inl unknown ↦
            rw (search_tokens, unknown)
              (search_tokens-Returns known node_map max_hops limit tokens s inv)
        | inr (start, found) ↦
            let begun : Search = record s { current_path = []; visited = start ∷ []; count = 0 } in
            let inv' : Inv max_hops begun = record {
              cycles = inv.cycles;
              seen = inv.seen;
              distinct = inv.distinct;
            } in
            let here : At start max_hops start begun = record {
              chain = refl;
              within = omega arith;
            } in
            rw (search_tokens, found)
              (bind-Returns
                (find_cycles petgraph hasher pools graph start max_hops limit (suc max_hops) start
                  begun)
                _
                (find_cycles-Returns start max_hops limit known (suc max_hops) start begun
                  (record { inv = inv'; here = here; range = tt; enough = omega arith }))
                (λ t e.
                  search_tokens-Returns known node_map max_hops limit tokens t
                    (find_cycles-Back petgraph hasher pools graph start max_hops limit
                      (suc max_hops) start begun t e inv' here).inv))
      ]
