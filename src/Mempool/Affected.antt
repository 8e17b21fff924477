-- ===== src/Mempool/Affected.antt =====
-- Proofs on the pools that a pending transaction touches.
use arb_bot.Prelude.{
  ℕ, ◌<◌, ◌≤◌, ◌≡◌, refl, ap, ◌∙◌, Bool, true, false, ◌&&◌, ◌||◌, List, [], ◌∷◌, ◌++◌, Option, none,
  some, arith, ◌==◌, any, inl, inr, Bool-cases, nat_eq, lookup, insert, contains, lookup-insert,
  contains-append, contains-concat,
}
use arb_bot.Prelude.Fallible.{Fallible, found, missing, panic}
use arb_bot.Swap.Path.{Address}
use arb_bot.Searcher.{PoolMeta}
use arb_bot.Mempool.Decode.{decode_any_swap}
use arb_bot.Mempool.Watch.{
  MempoolConfig, PoolsTouched, PairTable, tokens_eq, tokens_beq, tokens_beq_iff, canonical,
  insert_address, sort, dedup_after, dedup, pools_of, push_metas, tidy, build_token_pair_lookup,
  affected_pools, touch, pending_swap,
}

-- The description of the answer: a pool of some pair of neighbours of the path, in either order.
abbrev pub trades : PoolMeta → Address → Address → Bool
trades meta a b = (meta.token0 == a && meta.token1 == b) || (meta.token0 == b && meta.token1 == a)

abbrev pub is_pool_of : Address → Address → Address → PoolMeta → Bool
is_pool_of p a b meta = trades meta a b && (meta.address == p)

abbrev pub touches : List PoolMeta → Address → List Address → Bool
touches metas p [] = false
touches metas p (a ∷ []) = false
touches metas p (a ∷ b ∷ path) = any (is_pool_of p a b) metas || touches metas p (b ∷ path)

-- Each address of a list is above the one before it.
abbrev pub IsAbove : Address → List Address → Type 0
IsAbove a [] = Unit
IsAbove a (b ∷ bs) = (a < b) × IsAbove b bs

abbrev pub IsIncreasing : List Address → Type 0
IsIncreasing [] = Unit
IsIncreasing (a ∷ rest) = IsAbove a rest

contains-insert_address :
    (x a : Address) (xs : List Address)
    → contains x (insert_address a xs) ≡ ((a == x) || contains x xs)
unfolding contains insert_address
contains-insert_address x a [] = ground arith
contains-insert_address x a (b ∷ bs) = ground (arith, contains-insert_address x a bs)

contains-sort : (x : Address) (xs : List Address) → contains x (sort xs) ≡ contains x xs
unfolding contains sort
contains-sort x [] = refl
contains-sort x (a ∷ rest) =
    ground (arith, contains-sort x rest, contains-insert_address x a (sort rest))

contains-dedup_after :
    (x a : Address) (xs : List Address)
    → ((a == x) || contains x (dedup_after a xs)) ≡ ((a == x) || contains x xs)
unfolding contains dedup_after
contains-dedup_after x a [] = refl
contains-dedup_after x a (b ∷ bs) = ground (arith, contains-dedup_after x b bs)

contains-dedup : (x : Address) (xs : List Address) → contains x (dedup xs) ≡ contains x xs
unfolding contains dedup
contains-dedup x [] = refl
contains-dedup x (a ∷ rest) = ground (arith, contains-dedup_after x a rest)

-- The elements never fall, from `a` on.
abbrev IsFrom : Address → List Address → Type 0
IsFrom a [] = Unit
IsFrom a (b ∷ bs) = (a ≤ b) × IsFrom b bs

abbrev IsRising : List Address → Type 0
IsRising [] = Unit
IsRising (a ∷ rest) = IsFrom a rest

insert_address-IsFrom :
    (c a : Address) (xs : List Address) → c ≤ a → IsFrom c xs → IsFrom c (insert_address a xs)
unfolding insert_address
insert_address-IsFrom c a [] h k = (h, tt)
insert_address-IsFrom c a (b ∷ bs) h k = ground (arith, insert_address-IsFrom b a bs)

insert_address-IsRising :
    (a : Address) (xs : List Address) → IsRising xs → IsRising (insert_address a xs)
unfolding insert_address
insert_address-IsRising a [] k = tt
insert_address-IsRising a (b ∷ bs) k = ground (arith, insert_address-IsFrom b a bs)

sort-IsRising : (xs : List Address) → IsRising (sort xs)
unfolding sort
sort-IsRising [] = tt
sort-IsRising (a ∷ rest) = insert_address-IsRising a (sort rest) (sort-IsRising rest)

dedup_after-IsAbove : (a : Address) (xs : List Address) → IsFrom a xs → IsAbove a (dedup_after a xs)
unfolding dedup_after
dedup_after-IsAbove a [] k = tt
dedup_after-IsAbove a (b ∷ bs) k = ground (arith, dedup_after-IsAbove b bs k.1)

dedup-IsIncreasing : (xs : List Address) → IsRising xs → IsIncreasing (dedup xs)
unfolding dedup
dedup-IsIncreasing [] k = tt
dedup-IsIncreasing (a ∷ rest) k = dedup_after-IsAbove a rest k

pools_of-tidy :
    (key : Address × Address) (m : PairTable)
    → pools_of key (tidy m) ≡ dedup (sort (pools_of key m))
unfolding lookup tidy
pools_of-tidy key [] = unfold dedup sort in refl
pools_of-tidy key ((k, pools) ∷ m) = elim (Bool-cases (tokens_beq k key)) [
  | inl e ↦ rw e refl
  | inr e ↦ rw e (pools_of-tidy key m)
]

canonical_iff :
    (a b c d : Address)
    → tokens_beq (canonical c d) (canonical a b) ≡ ((c == a && d == b) || (c == b && d == a))
canonical_iff a b c d = ground arith

-- One round of the first loop adds one pool to one pair.
contains-push_meta :
    (p a b : Address) (meta : PoolMeta) (m : PairTable)
    → (let key = canonical meta.token0 meta.token1 in
        contains p (pools_of (canonical a b) (insert key (pools_of key m ++ meta.address ∷ []) m)))
      ≡ (contains p (pools_of (canonical a b) m) || is_pool_of p a b meta)
contains-push_meta p a b meta m =
    let key = canonical meta.token0 meta.token1 in
    let pools = pools_of key m ++ meta.address ∷ [] in
    rw (lookup-insert key (canonical a b) pools m)
      (elim (Bool-cases (tokens_beq key (canonical a b))) [
        | inl e ↦
            let same : pools_of key m ≡ pools_of (canonical a b) m =
              ap (λ (k : Address × Address). pools_of k m)
                ((tokens_beq_iff key (canonical a b)).0 e) in
            rw e (
              rw (contains-concat p meta.address (pools_of key m))
                (rw same (ground (arith, canonical_iff a b meta.token0 meta.token1))))
        | inr e ↦ rw e (ground (arith, canonical_iff a b meta.token0 meta.token1))
      ])

contains-push_metas :
    (p a b : Address) (metas : List PoolMeta) (m : PairTable)
    → contains p (pools_of (canonical a b) (push_metas metas m))
      ≡ (contains p (pools_of (canonical a b) m) || any (is_pool_of p a b) metas)
unfolding push_metas
contains-push_metas p a b [] m = ground arith
contains-push_metas p a b (meta ∷ metas) m =
    let key = canonical meta.token0 meta.token1 in
    rw (contains-push_metas p a b metas (insert key (pools_of key m ++ meta.address ∷ []) m))
      (rw (contains-push_meta p a b meta m) (ground arith))

-- The table answers either order of a pair with exactly the pools that trade it.
contains-build_token_pair_lookup :
    (p a b : Address) (metas : List PoolMeta)
    → contains p (pools_of (canonical a b) (build_token_pair_lookup metas))
      ≡ any (is_pool_of p a b) metas
unfolding build_token_pair_lookup
contains-build_token_pair_lookup p a b metas =
    rw (pools_of-tidy (canonical a b) (push_metas metas [])) (
      rw (contains-dedup p (sort (pools_of (canonical a b) (push_metas metas [])))) (
        rw (contains-sort p (pools_of (canonical a b) (push_metas metas [])))
          (contains-push_metas p a b metas [] ∙ unfold lookup contains in refl)))

contains-affected_pools :
    (p : Address) (metas : List PoolMeta) (path : List Address)
    → contains p (affected_pools (build_token_pair_lookup metas) path) ≡ touches metas p path
unfolding affected_pools
contains-affected_pools p metas [] = unfold contains in refl
contains-affected_pools p metas (a ∷ []) = unfold contains in refl
contains-affected_pools p metas (a ∷ b ∷ path) =
    let table = build_token_pair_lookup metas in
    rw (contains-append p (pools_of (canonical a b) table) (affected_pools table (b ∷ path))) (
      rw (contains-build_token_pair_lookup p a b metas)
        (rw (contains-affected_pools p metas (b ∷ path)) refl))

-- The pools that a transaction's event names, if it sends one.
abbrev pub sent_pools : Fallible PoolsTouched → List Address
sent_pools (found event) = event.touched_pools
sent_pools missing = []
sent_pools panic = []

abbrev event_pools : Option PoolsTouched → List Address
event_pools none = []
event_pools (some event) = event.touched_pools

event_pools-touch :
    (table : PairTable) (path : List Address)
    → event_pools (touch table path) ≡ dedup (sort (affected_pools table path))
unfolding touch
event_pools-touch table path = nonempty (affected_pools table path)
  where
    nonempty :
        (pools : List Address)
        → event_pools (elim pools [
          | [] ↦ none
          | p ∷ ps ↦ some (record { block_number = 0; touched_pools = dedup (sort (p ∷ ps)) })
        ])
          ≡ dedup (sort pools)
    nonempty [] = unfold dedup sort in refl
    nonempty (p ∷ ps) = refl

sent_pools-touch :
    (table : PairTable) (path : List Address)
    → sent_pools (elim (touch table path) [ none ↦ missing | some event ↦ found event ])
      ≡ dedup (sort (affected_pools table path))
sent_pools-touch table path = sent (touch table path) ∙ event_pools-touch table path
  where
    sent :
        (o : Option PoolsTouched)
        → sent_pools (elim o [ none ↦ missing | some event ↦ found event ]) ≡ event_pools o
    sent none = refl
    sent (some event) = refl

pending_swap_lem :
    (config : MempoolConfig) (to_addr : Address) (input path : List ℕ)
    → contains to_addr config.router_addresses ≡ true
    → decode_any_swap input ≡ found path
    → sent_pools (pending_swap config (some to_addr) input)
      ≡ dedup (sort (affected_pools config.token_pair_to_pool path))
unfolding pending_swap
pending_swap_lem config to_addr input path router decoded =
    rw router (rw decoded (sent_pools-touch config.token_pair_to_pool path))

-- For a decoded transaction to a known router, the event names exactly the pools of the metadata
-- that trade two neighbouring tokens of its path, in either order, each once and in order.
pub sent_pools-pending_swap :
    (config : MempoolConfig) (metas : List PoolMeta) (to_addr : Address) (input path : List ℕ)
    → config.token_pair_to_pool ≡ build_token_pair_lookup metas
    → contains to_addr config.router_addresses ≡ true
    → decode_any_swap input ≡ found path
    → IsIncreasing (sent_pools (pending_swap config (some to_addr) input))
      × ((p : Address)
          → contains p (sent_pools (pending_swap config (some to_addr) input))
            ≡ touches metas p path)
sent_pools-pending_swap config metas to_addr input path table router decoded =
    let pools = affected_pools (build_token_pair_lookup metas) path in
    rw (pending_swap_lem config to_addr input path router decoded) (
      rw table (
        dedup-IsIncreasing (sort pools) (sort-IsRising pools),
        λ p.
            contains-dedup p (sort pools)
            ∙ contains-sort p pools
            ∙ contains-affected_pools p metas path,
      ))
