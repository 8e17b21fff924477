-- ===== src/Tracing/Effect.antt =====
-- Proofs on what src/tracing_revm.rs makes of the logs and the storage of a block.
use arb_bot.Prelude.{
  ℕ, ◌≡◌, refl, ap, sym, ◌∙◌, inl, inr, Bool, true, false, ◌&&◌, ◌||◌, List, [], ◌∷◌, Option, none,
  some, arith, ◌==◌, ==_iff, if◌then◌else◌, unwrap_or, is_some, Bool-cases, Option-cases, nat_eq,
  lookup, insert, contains, lookup-insert, insert-IsUnique, IsUnique, any, beq_self,
}
use arb_bot.Swap.Path.{Address}
use arb_bot.StateDb.Store.{Remote, add_to}
use arb_bot.StateDb.Writes.{last_value}
use arb_bot.Tracing.{
  BlockTraceDiffs, slots_of, add_diff, add_diffs, Topic, is_v3_topic, Log, touch_at, classify,
  key_slots, fetch, collect,
}

-- The description of a block's effect: which pools have a log, and whether one is of a V3 swap.
abbrev pub is_from : Address → Option Address → Bool
is_from a none = false
is_from a (some b) = b == a

abbrev pub logged : Address → List Log → Bool
logged a logs = any (λ log. is_from a log.address) logs

abbrev pub v3_logged : Address → List Log → Bool
v3_logged a logs = any (λ log. is_from a log.address && is_v3_topic log.topic0) logs

abbrev pub or_else : Option ℕ → Option ℕ → Option ℕ
or_else none before = before
or_else (some v) before = some v

pub lookup-touch_at :
    (a : Address) (tracked : List Address) (topic : Topic) (address : Option Address)
    (m : List (Address × Bool))
    → lookup a (touch_at tracked topic address m) ≡ (
        if contains a tracked && is_from a address
        then some (unwrap_or (lookup a m) false || is_v3_topic topic)
        else lookup a m)
lookup-touch_at a tracked topic none m = ground arith
lookup-touch_at a tracked topic (some b) m =
    let v = if is_v3_topic topic then true else unwrap_or (lookup b m) false in
    elim (Bool-cases (b == a)) [
      | inl same ↦
          let e : b ≡ a = (==_iff b a).0 same in
          rw e (elim (Bool-cases (contains a tracked)) [
            | inl known ↦ rw known (rw (lookup-insert a a _ m) (rw (beq_self a) (ground arith)))
            | inr unknown ↦ rw unknown (ground arith)
          ])
      | inr other ↦ rw other (elim (Bool-cases (contains b tracked)) [
        | inl known ↦ rw known (rw (lookup-insert b a v m) (rw other (ground arith)))
        | inr unknown ↦ rw unknown (ground arith)
      ])
    ]

pub touch_at-IsUnique :
    (tracked : List Address) (topic : Topic) (address : Option Address) (m : List (Address × Bool))
    → IsUnique m
    → IsUnique (touch_at tracked topic address m)
touch_at-IsUnique tracked topic none m u = u
touch_at-IsUnique tracked topic (some b) m u = elim (Bool-cases (contains b tracked)) [
  | inl e ↦ rw e (insert-IsUnique b _ m u)
  | inr e ↦ rw e u
]

pub not_logged : (a : Address) (logs : List Log) → logged a logs ≡ false → v3_logged a logs ≡ false
not_logged a [] h = refl
not_logged a (log ∷ logs) h = ground (arith, not_logged a logs)

-- A log and those after it.
pub merge :
    (known here later v3 v3_later : Bool) (x : Option Bool)
    → (later ≡ false → v3_later ≡ false)
    → (let x' = if known && here then some (unwrap_or x false || v3) else x in
        if known && later then some (unwrap_or x' false || v3_later) else x')
      ≡ (if known && (here || later)
          then some (unwrap_or x false || ((here && v3) || v3_later))
          else x)
merge known here later v3 v3_later x h = ground arith

pub lookup-classify :
    (a : Address) (tracked : List Address) (logs : List Log) (m : List (Address × Bool))
    → lookup a (classify tracked logs m) ≡ (
        if contains a tracked && logged a logs
        then some (unwrap_or (lookup a m) false || v3_logged a logs)
        else lookup a m)
unfolding classify
lookup-classify a tracked [] m = ground arith
lookup-classify a tracked (log ∷ logs) m =
    rw (lookup-classify a tracked logs (touch_at tracked log.topic0 log.address m)) (
      rw (lookup-touch_at a tracked log.topic0 log.address m) (
        merge (contains a tracked) (is_from a log.address) (logged a logs) (is_v3_topic log.topic0)
          (v3_logged a logs) (lookup a m) (not_logged a logs)))

pub classify-IsUnique :
    (tracked : List Address) (logs : List Log) (m : List (Address × Bool))
    → IsUnique m
    → IsUnique (classify tracked logs m)
unfolding classify
classify-IsUnique tracked [] m u = u
classify-IsUnique tracked (log ∷ logs) m u =
    classify-IsUnique tracked logs (touch_at tracked log.topic0 log.address m)
      (touch_at-IsUnique tracked log.topic0 log.address m u)

abbrev pub value_at : BlockTraceDiffs → Address → ℕ → Option ℕ
value_at d a s = lookup s (slots_of a d.diffs)

pub value_at-add_diff :
    (d : BlockTraceDiffs) (a b : Address) (s t v : ℕ)
    → value_at (add_diff d a s v) b t ≡ (if (a == b) && (s == t) then some v else value_at d b t)
unfolding add_diff
value_at-add_diff d a b s t v =
    rw (lookup-insert a b (insert s v (slots_of a d.diffs)) d.diffs) (elim (Bool-cases (a == b)) [
      | inl same ↦
          let e : a ≡ b = (==_iff a b).0 same in
          rw same (rw e (lookup-insert s t v (slots_of b d.diffs)))
      | inr other ↦ rw other refl
    ])

pub value_at-add_diffs :
    (node : Remote) (pairs : List (ℕ × ℕ)) (d : BlockTraceDiffs) (a b : Address) (t : ℕ)
    → value_at (add_diffs d a pairs) b t
      ≡ (if a == b then last_value node pairs t (value_at d b t) else value_at d b t)
unfolding add_diffs
value_at-add_diffs node [] d a b t = ground arith
value_at-add_diffs node ((s, v) ∷ pairs) d a b t =
    rw (value_at-add_diffs node pairs (add_diff d a s v) a b t) (
      rw (value_at-add_diff d a b s t v)
        (elim (Bool-cases (a == b)) [ inl same ↦ rw same refl | inr other ↦ rw other refl ]))

-- To write a value again changes nothing.
pub twice :
    (here later tracked : Bool) (v before : Option ℕ)
    → (let between = if here && tracked then or_else v before else before in
        if later && tracked then or_else v between else between)
      ≡ (if (if here then true else later) && tracked then or_else v before else before)
twice here later tracked none before = ground arith
twice here later tracked (some v) before = ground arith

pub if_same : (b : Bool) (x : Option ℕ) → (if b then x else x) ≡ x
if_same true x = refl
if_same false x = refl

-- What the reads of a pool leave in a slot.
abbrev pub after_reads : (Address → ℕ → Option ℕ) → Address → Option Bool → ℕ → Option ℕ → Option ℕ
after_reads get b none t before = before
after_reads get b (some is_v3) t before =
    if contains t (key_slots is_v3) then or_else (get b t) before else before

module _ (node : Remote) (get : Address → ℕ → Option ℕ) where
  pub last_value-fetch :
      (a : Address) (slots : List ℕ) (t : ℕ) (before : Option ℕ)
      → last_value node (fetch get a slots) t before
        ≡ (if contains t slots then or_else (get a t) before else before)
  unfolding fetch contains
  last_value-fetch a [] t before = refl
  last_value-fetch a (s ∷ slots) t before = elim (Option-cases (get a s)) [
    | inl missing ↦ rw missing (
        rw (last_value-fetch a slots t before) (elim (Bool-cases (s == t)) [
          | inl same ↦
              let e : get a t ≡ none = ap (get a) (sym ((==_iff s t).0 same)) ∙ missing in
              rw (same, e) (if_same (contains t slots) before)
          | inr other ↦ rw other refl
        ]))
    | inr (v, got) ↦ rw got (
        rw (last_value-fetch a slots t (if s == t then some v else before))
          (elim (Bool-cases (s == t)) [
            | inl same ↦
                let e : get a t ≡ some v = ap (get a) (sym ((==_iff s t).0 same)) ∙ got in
                rw (same, e) (if_same (contains t slots) (some v))
            | inr other ↦ rw other refl
          ]))
  ]

  pub value_at-collect :
      (entries : List (Address × Bool)) (d : BlockTraceDiffs) (b : Address) (t : ℕ)
      → IsUnique entries
      → value_at (collect get entries d) b t
        ≡ after_reads get b (lookup b entries) t (value_at d b t)
  unfolding collect lookup
  value_at-collect [] d b t u = refl
  value_at-collect ((a, is_v3) ∷ entries) d b t u =
      rw (value_at-collect entries (add_diffs d a (fetch get a (key_slots is_v3))) b t u.1) (
        rw (value_at-add_diffs node (fetch get a (key_slots is_v3)) d a b t) (
          rw (last_value-fetch a (key_slots is_v3) t (value_at d b t)) (elim (Bool-cases (a == b)) [
            | inl same ↦
                let e : a ≡ b = (==_iff a b).0 same in
                let gone : lookup b entries ≡ none = ap (λ k. lookup k entries) (sym e) ∙ u.0 in
                let g : get a t ≡ get b t = ap (λ k. get k t) e in rw same (rw (gone, g) refl)
            | inr other ↦ rw other refl
          ])))

-- Each address of a trace has one entry for a slot.
abbrev pub IsTidy : BlockTraceDiffs → Type 0
IsTidy d = (b : Address) → IsUnique (slots_of b d.diffs)

-- The touched addresses are those with diffs.
abbrev pub IsLinked : BlockTraceDiffs → Type 0
IsLinked d = (b : Address) → contains b d.touched_addresses ≡ is_some (lookup b d.diffs)

pub add_diff-IsTidy :
    (d : BlockTraceDiffs) (a : Address) (s v : ℕ) → IsTidy d → IsTidy (add_diff d a s v)
unfolding add_diff
add_diff-IsTidy d a s v tidy b =
    rw (lookup-insert a b (insert s v (slots_of a d.diffs)) d.diffs) (elim (Bool-cases (a == b)) [
      | inl same ↦ rw same (insert-IsUnique s v (slots_of a d.diffs) (tidy a))
      | inr other ↦ rw other (tidy b)
    ])

pub contains-add_to :
    (a b : Address) (xs : List Address) → contains b (add_to a xs) ≡ ((a == b) || contains b xs)
contains-add_to a b xs = elim (Bool-cases (contains a xs)) [
  | inl old ↦ rw old (elim (Bool-cases (a == b)) [
    | inl same ↦ rw same (ap (λ k. contains k xs) (sym ((==_iff a b).0 same)) ∙ old)
    | inr other ↦ rw other refl
  ])
  | inr fresh ↦ rw fresh (unfold contains in ground arith)
]

pub add_diff-IsLinked :
    (d : BlockTraceDiffs) (a : Address) (s v : ℕ) → IsLinked d → IsLinked (add_diff d a s v)
unfolding add_diff
add_diff-IsLinked d a s v linked b = rw (contains-add_to a b d.touched_addresses) (
    rw (lookup-insert a b (insert s v (slots_of a d.diffs)) d.diffs) (
      rw (linked b)
        (elim (Bool-cases (a == b)) [ inl same ↦ rw same refl | inr other ↦ rw other refl ])))

pub add_diffs-IsLinked :
    (pairs : List (ℕ × ℕ)) (d : BlockTraceDiffs) (a : Address)
    → IsTidy d × IsLinked d
    → IsTidy (add_diffs d a pairs) × IsLinked (add_diffs d a pairs)
unfolding add_diffs
add_diffs-IsLinked [] d a h = h
add_diffs-IsLinked ((s, v) ∷ pairs) d a h =
    add_diffs-IsLinked pairs (add_diff d a s v) a
      (add_diff-IsTidy d a s v h.0, add_diff-IsLinked d a s v h.1)

pub collect-IsLinked :
    (get : Address → ℕ → Option ℕ) (entries : List (Address × Bool)) (d : BlockTraceDiffs)
    → IsTidy d × IsLinked d
    → IsTidy (collect get entries d) × IsLinked (collect get entries d)
unfolding collect
collect-IsLinked get [] d h = h
collect-IsLinked get ((a, is_v3) ∷ entries) d h =
    collect-IsLinked get entries (add_diffs d a (fetch get a (key_slots is_v3)))
      (add_diffs-IsLinked (fetch get a (key_slots is_v3)) d a h)
