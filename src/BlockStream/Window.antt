-- ===== src/BlockStream/Window.antt =====
-- Proofs that the ring of src/block_stream.rs implements a window over the last 64 new blocks.
use mathlib.Core.Path.{subst}
use mathlib.Core.List.{append_assoc, append-nil}
use arb_bot.Prelude.{
  ℕ, zero, suc, ◌+◌, ◌%◌, ◌≡◌, ◌≢◌, refl, ap, sym, ◌∙◌, inl, inr, false, not, List, [], ◌∷◌, ◌++◌,
  some, arith, ◌==◌, if◌then◌else◌, Bool-cases, nat_eq, contains, erase, contains-erase,
  contains-append, length, length-append, get_elem?, set, get_elem?-append, set-append, All,
}
use arb_bot.StateDb.Slots.{fill}
use arb_bot.BlockStream.{
  BlockDedup, new, try_insert, Header, NewBlock, new_block, send_first, gossip,
}

-- The specification: a window of 64 block numbers, the oldest first. A block in the window is not
-- announced again; a new one drives out the oldest.
abbrev pub rest_of : List ℕ → List ℕ
rest_of [] = []
rest_of (x ∷ w) = w

unfoldable pub admit : List ℕ → ℕ → List ℕ
admit w n = if contains n w then w else rest_of w ++ n ∷ []

unfoldable pub announced : List ℕ → List Header → List NewBlock
announced w [] = []
announced w (header ∷ headers) =
    let later = announced (admit w header.number) headers in
    if contains header.number w then later else new_block header ∷ later

-- No block stands twice in the window.
abbrev IsDistinct : List ℕ → Type 0
IsDistinct [] = Unit
IsDistinct (x ∷ w) = (x ≢ 0 → contains x w ≡ false) × IsDistinct w

-- The ring is the window cut at the head, and the set holds what is in the window.
record Represents (d : BlockDedup) (w : List ℕ) : Type 0 where
  oldest : ℕ
  front : List ℕ
  back : List ℕ
  window : w ≡ oldest ∷ (front ++ back)
  ring_is : d.ring ≡ back ++ oldest ∷ front
  head_is : d.head ≡ length back
  full : length front + length back ≡ 63
  holds : (m : ℕ) → m ≢ 0 → contains m d.seen ≡ contains m w
  distinct : IsDistinct w

IsDistinct-concat :
    (w : List ℕ) (n : ℕ) → IsDistinct w → contains n w ≡ false → IsDistinct (w ++ n ∷ [])
unfolding contains
IsDistinct-concat [] n h k = (λ _. refl, tt)
IsDistinct-concat (x ∷ w) n h k = (
  λ nz. contains-append x w (n ∷ []) ∙ ground (arith, h.0 nz),
  IsDistinct-concat w n h.1 (ground arith),
)

-- The set after an insertion.
seen_after :
    (seen w : List ℕ) (oldest n m : ℕ)
    → ((k : ℕ) → k ≢ 0 → contains k seen ≡ contains k (oldest ∷ w))
    → IsDistinct (oldest ∷ w)
    → contains n (oldest ∷ w) ≡ false
    → m ≢ 0
    → contains m (if oldest == 0 then n ∷ seen else erase oldest (n ∷ seen))
      ≡ contains m (w ++ n ∷ [])
seen_after seen w oldest n m holds distinct absent nz = elim (Bool-cases (oldest == 0)) [
  | inl z ↦ rw z (rw (contains-append m w (n ∷ [])) (unfold contains in ground (arith, holds m nz)))
  | inr o ↦ rw o (
      rw (contains-append m w (n ∷ [])) (
        rw (contains-erase oldest m (n ∷ seen)) (elim (Bool-cases (oldest == m)) [
          | inl same ↦
              let e : oldest ≡ m = ground arith in
              let gone : contains m w ≡ false =
                ap (λ k. contains k w) (sym e) ∙ distinct.0 (ground arith) in
              rw (same, gone) (unfold contains in ground (arith, absent))
          | inr other ↦ rw other (unfold contains in ground (arith, holds m nz))
        ])))
]

admit_new : (w : List ℕ) (n : ℕ) → contains n w ≡ false → admit w n ≡ rest_of w ++ n ∷ []
unfolding admit
admit_new w n h = rw h refl

-- The cut after an insertion: the head moves on, or back to the start.
advance :
    (d' : BlockDedup) (front back : List ℕ) (n : ℕ)
    → d'.ring ≡ back ++ n ∷ front
    → d'.head ≡ (length back + 1) % 64
    → length front + length back ≡ 63
    → ((m : ℕ) → m ≢ 0 → contains m d'.seen ≡ contains m ((front ++ back) ++ n ∷ []))
    → IsDistinct ((front ++ back) ++ n ∷ [])
    → Represents d' ((front ++ back) ++ n ∷ [])
advance d' [] [] n ring head full holds distinct = absurd (omega arith)
advance d' [] (b ∷ back) n ring head full holds distinct = record {
  oldest = b;
  front = back ++ n ∷ [];
  back = [];
  window = ap (λ (l : List ℕ). b ∷ l) (sym (append-nil (back ++ n ∷ [])));
  ring_is = ring;
  head_is = head ∙ omega arith;
  full = omega (arith, length-append back (n ∷ []));
  holds = holds;
  distinct = distinct;
}
advance d' (x ∷ front) back n ring head full holds distinct = record {
  oldest = x;
  front = front;
  back = back ++ n ∷ [];
  window = ap (λ (l : List ℕ). x ∷ l) (append_assoc front back (n ∷ []));
  ring_is = ring ∙ sym (append_assoc back (n ∷ []) (x ∷ front));
  head_is = head ∙ omega (arith, length-append back (n ∷ []));
  full = omega (arith, length-append back (n ∷ []));
  holds = holds;
  distinct = distinct;
}

-- One insertion keeps to the specification, and the index is in range.
try_insert-Represents :
    (d : BlockDedup) (w : List ℕ) (n : ℕ)
    → Represents d w
    → n ≢ 0
    → (d' : BlockDedup) × (try_insert d n ≡ some (not (contains n w), d'))
      × Represents d' (admit w n)
unfolding try_insert admit
try_insert-Represents d w n r nz = elim (Bool-cases (contains n w)) [
  | inl old ↦ (d, rw (r.holds n nz) (rw old refl), rw (old, admit) r)
  | inr fresh ↦
      let w' = r.front ++ r.back in
      let absent : contains n (r.oldest ∷ w') ≡ false = ap (contains n) (sym r.window) ∙ fresh in
      let distinct : IsDistinct (r.oldest ∷ w') = subst IsDistinct r.window r.distinct in
      let d' : BlockDedup = record {
        seen = if r.oldest == 0 then n ∷ d.seen else erase r.oldest (n ∷ d.seen);
        ring = set d.ring d.head n;
        head = (d.head + 1) % 64;
      } in
      let evicted : get_elem? d.ring d.head ≡ some r.oldest =
        rw (r.ring_is, r.head_is) (get_elem?-append r.back r.oldest r.front) in
      let ring : set d.ring d.head n ≡ r.back ++ n ∷ r.front =
        rw (r.ring_is, r.head_is) (set-append r.back r.oldest n r.front) in
      (
        d',
        rw (r.holds n nz) (rw fresh (rw evicted refl)),
        rw (admit_new w n fresh) (
            rw r.window (
              advance d' r.front r.back n ring (ap (λ k. (k + 1) % 64) r.head_is) r.full
                (λ m mz.
                  seen_after d.seen w' r.oldest n m
                    (λ k kz. r.holds k kz ∙ ap (contains k) r.window) distinct absent mz)
                (IsDistinct-concat w' n distinct.1 (unfold contains in ground (arith, absent))))),
      )
]

all_zero : (n : ℕ) → IsDistinct (fill n 0)
all_zero zero = tt
all_zero (suc n) = (λ nz. absurd (nz refl), all_zero n)

contains-fill : (n m : ℕ) → m ≢ 0 → contains m (fill n 0) ≡ false
unfolding contains
contains-fill zero m h = refl
contains-fill (suc n) m h = ground (arith, contains-fill n m h)

new-Represents : Represents new (fill 64 0)
unfolding contains
new-Represents = record {
  oldest = 0;
  front = fill 63 0;
  back = [];
  window = refl;
  ring_is = refl;
  head_is = refl;
  full = refl;
  holds = λ m nz. sym (contains-fill 64 m nz);
  distinct = all_zero 64;
}

announced_cons :
    (w : List ℕ) (header : Header) (headers : List Header)
    → announced w (header ∷ headers)
      ≡ send_first
          (not (contains header.number w))
          header
          (announced (admit w header.number) headers)
unfolding announced
announced_cons w header headers = elim (Bool-cases (contains header.number w)) [
  | inl e ↦ rw e refl
  | inr e ↦ rw e refl
]

gossip-Represents :
    (headers : List Header) (d : BlockDedup) (w : List ℕ)
    → Represents d w
    → All (λ header. header.number ≢ 0) headers
    → (d' : BlockDedup) × (gossip d headers ≡ some (announced w headers, d'))
unfolding gossip
gossip-Represents [] d w r h = (d, unfold announced in refl)
gossip-Represents (header ∷ headers) d w r h =
    let (d', e, r') = try_insert-Represents d w header.number r h.0 in
    let (last, ih) = gossip-Represents headers d' (admit w header.number) r' h.1 in
    (last, rw e (rw ih (rw (announced_cons w header headers) refl)))

-- The stream implements the specification: whatever the endpoints report and in whichever order, the
-- events are those of the blocks that are not among the last 64 new ones, and no index leaves the
-- ring. No block has the number 0.
pub gossip-announced :
    (headers : List Header)
    → All (λ header. header.number ≢ 0) headers
    → (last : BlockDedup) × (gossip new headers ≡ some (announced (fill 64 0) headers, last))
gossip-announced headers h = gossip-Represents headers new (fill 64 0) new-Represents h
