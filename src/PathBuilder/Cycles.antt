-- ===== src/PathBuilder/Cycles.antt =====
-- What the search of src/path_builder.rs emits: cycles, each hash once.
use mathlib.Core.Path.{subst}
use mathlib.Core.List.{map-append}
use arb_bot.Prelude.{
  ℕ, suc, ◌+◌, ◌≤◌, ◌≡◌, refl, sym, ap, ◌∙◌, Bool, true, false, List, [], ◌∷◌, ◌++◌, map, some,
  arith, if◌then◌else◌, >>=-eq-some, some_inj, length, length-append, get_elem?, nat_eq, contains,
  contains-concat,
}
use arb_bot.Swap.Path.{Address, SwapStep, SwapPath, new}
use arb_bot.PoolLoader.{RawPool}
use arb_bot.PathBuilder.{Petgraph, Hop, drop_last, hop_step, hop_steps, build_swap_path}

-- Steps that lead from one token to another, each leaving the token that the one before reached.
abbrev pub IsRoute : Address → List SwapStep → Address → Type 0
IsRoute a [] b = a ≡ b
IsRoute a (s ∷ steps) b = (s.token_in ≡ a) × IsRoute s.token_out steps b

-- A path that ends at the token where it starts, after at least 3 and at most `max_hops + 1` swaps.
pub IsCycle : ℕ → SwapPath → Type 0
IsCycle max_hops path =
    (token : Address) × IsRoute token path.steps token
    × (3 ≤ length path.steps)
    × (length path.steps ≤ max_hops + 1)

-- No two paths have the same hash.
abbrev pub Distinct : List SwapPath → Type 0
Distinct [] = Unit
Distinct (p ∷ paths) = (contains p.hash (map (λ q. q.hash) paths) ≡ false) × Distinct paths

-- The hops lead from one node to another.
abbrev pub IsChain : ℕ → List Hop → ℕ → Type 0
IsChain a [] b = a ≡ b
IsChain a ((from, pool_idx, to) ∷ hops) b = (from ≡ a) × IsChain to hops b

IsRoute-append :
    (a b : Address) (steps : List SwapStep) (last : SwapStep)
    → IsRoute a steps b
    → last.token_in ≡ b
    → IsRoute a (steps ++ last ∷ []) last.token_out
IsRoute-append a b [] last h k = (k ∙ sym h, refl)
IsRoute-append a b (s ∷ steps) last h k = (h.0, IsRoute-append s.token_out b steps last h.1 k)

pub IsChain-append :
    (a b pool_idx c : ℕ) (hops : List Hop)
    → IsChain a hops b
    → IsChain a (hops ++ (b, pool_idx, c) ∷ []) c
IsChain-append a b pool_idx c [] h = (sym h, refl)
IsChain-append a b pool_idx c ((f, p, t) ∷ hops) h = (h.0, IsChain-append t b pool_idx c hops h.1)

pub drop_last-append : (hops : List Hop) (hop : Hop) → drop_last (hops ++ hop ∷ []) ≡ hops
unfolding drop_last
drop_last-append [] hop = refl
drop_last-append (h ∷ []) hop = refl
drop_last-append (h ∷ i ∷ hops) hop = ap (λ (t : List Hop). h ∷ t) (drop_last-append (i ∷ hops) hop)

pub Distinct-append :
    (paths : List SwapPath) (p : SwapPath)
    → contains p.hash (map (λ q. q.hash) paths) ≡ false
    → Distinct paths
    → Distinct (paths ++ p ∷ [])
unfolding contains
Distinct-append [] p h k = (refl, tt)
Distinct-append (q ∷ paths) p h k = (
  ground (
    arith,
    map-append (λ r. r.hash) paths (p ∷ []),
    contains-concat q.hash p.hash (map (λ r. r.hash) paths),
    k.0,
  ),
  Distinct-append paths p (ground arith) k.1,
)

pub if_true {ℓ} :
    {A : Type ℓ} {b : Bool} {x : A} (y : A) {z : A} → b ≡ true → (if b then x else y) ≡ z → x ≡ z
if_true y e h = ground arith

pub if_false {ℓ} :
    {A : Type ℓ} {b : Bool} (x : A) {y z : A} → b ≡ false → (if b then x else y) ≡ z → y ≡ z
if_false x e h = ground arith

module _ (petgraph : Petgraph) (hasher : List SwapStep → ℕ) (pools : List RawPool)
    (graph : petgraph.Graph) where
  abbrev token : ℕ → Address
  token node = petgraph.node_weight graph node

  hop_step_lem :
      (f p t : ℕ) (step : SwapStep)
      → hop_step petgraph hasher pools graph (f, p, t) ≡ some step
      → (step.token_in ≡ token f) × (step.token_out ≡ token t)
  unfolding hop_step
  hop_step_lem f p t step h =
      let (pool, e1, e2) = >>=-eq-some (get_elem? pools p) _ h in ground arith

  hop_steps-IsRoute :
      (hops : List Hop) (a b : ℕ) (steps : List SwapStep)
      → hop_steps petgraph hasher pools graph hops ≡ some steps
      → IsChain a hops b
      → IsRoute (token a) steps (token b) × (length steps ≡ length hops)
  unfolding hop_steps
  hop_steps-IsRoute [] a b steps h c =
      let same : [] ≡ steps = some_inj h in
      subst (λ (l : List SwapStep). IsRoute (token a) l (token b) × (length l ≡ 0)) same
        (ap (λ (n : ℕ). token n) c, refl)
  hop_steps-IsRoute ((f, p, t) ∷ hops) a b steps h c =
      let (step, e1, e2) = >>=-eq-some (hop_step petgraph hasher pools graph (f, p, t)) _ h in
      let (rest, e3, e4) = >>=-eq-some (hop_steps petgraph hasher pools graph hops) _ e2 in
      let (route, len) = hop_steps-IsRoute hops t b rest e3 c.1 in
      let ends = hop_step_lem f p t step e1 in
      let same : step ∷ rest ≡ steps = some_inj e4 in
      subst (λ (l : List SwapStep). IsRoute (token a) l (token b) × (length l ≡ suc (length hops)))
        same
        (
          (
            ends.0 ∙ ap (λ (n : ℕ). token n) c.0,
            subst (λ (x : Address). IsRoute x rest (token b)) (sym ends.1) route,
          ),
          ap suc len,
        )

  pub build_swap_path-IsCycle :
      (start max_hops cur pool_idx : ℕ) (hops : List Hop) (path : SwapPath)
      → build_swap_path petgraph hasher pools graph hops cur pool_idx start ≡ some path
      → IsChain start hops cur
      → 2 ≤ length hops
      → length hops ≤ max_hops
      → IsCycle max_hops path
  unfolding build_swap_path IsCycle new
  build_swap_path-IsCycle start max_hops cur pool_idx hops path h c lo hi =
      let (steps, e1, e2) = >>=-eq-some (hop_steps petgraph hasher pools graph hops) _ h in
      let (closing, e3, e4) =
        >>=-eq-some (hop_step petgraph hasher pools graph (cur, pool_idx, start)) _ e2 in
      let (route, len) = hop_steps-IsRoute hops start cur steps e1 c in
      let ends = hop_step_lem cur pool_idx start closing e3 in
      let same : steps ++ closing ∷ [] ≡ path.steps =
        ap (λ (p : SwapPath). p.steps) (some_inj e4) in
      subst
        (λ (l : List SwapStep).
          (a : Address) × IsRoute a l a × (3 ≤ length l) × (length l ≤ max_hops + 1))
        same
        (
          token start,
          subst (λ (x : Address). IsRoute (token start) (steps ++ closing ∷ []) x) ends.1
              (IsRoute-append (token start) (token cur) steps closing route ends.0),
          omega (arith, length-append steps (closing ∷ [])),
          omega (arith, length-append steps (closing ∷ [])),
        )
