-- ===== src/Prelude/Fallible.antt =====
-- Code that returns an Option and can panic besides: Rust's `?`, its early `return None`, and the
-- slices of a byte string, which panic out of range.
use arb_bot.Prelude.{
  ℕ, ◌+◌, ◌-◌, ◌≤◌, ◌<◌, ◌≡◌, refl, Bool, true, false, ◌&&◌, List, ◌++◌, Option, none, some, arith,
  leb, if◌then◌else◌, length, take, drop, length-append, take-append, drop-append,
}

-- A computation that returns `Some`, returns `None`, or panics.
pub data Fallible {ℓ} (A : Type ℓ) : Type ℓ where
  found : A → Fallible A
  missing panic : Fallible A

infixl 5 ◌>>=◌ ◌>>◌
abbrev pub ◌>>=◌ {ℓ κ} : {A : Type ℓ} {B : Type κ} → Fallible A → (A → Fallible B) → Fallible B
found a >>= f = f a
missing >>= f = missing
panic >>= f = panic

abbrev pub ◌>>◌ {ℓ} : {B : Type ℓ} → Fallible (Unit {0}) → Fallible B → Fallible B
m >> k = m >>= λ _. k

-- The `?` operator.
abbrev pub need {ℓ} : {A : Type ℓ} → Option A → Fallible A
need none = missing
need (some a) = found a

-- `if test { return None; }`
abbrev pub refuse_if : Bool → Fallible (Unit {0})
refuse_if true = missing
refuse_if false = found tt

-- `&bytes[start..stop]`
unfoldable pub slice : List ℕ → ℕ → ℕ → Fallible (List ℕ)
slice bytes start stop =
    if leb start stop && leb stop (length bytes)
    then found (take (stop - start) (drop start bytes))
    else panic

pub slice_lem :
    (bytes : List ℕ) (start stop : ℕ)
    → start ≤ stop
    → stop ≤ length bytes
    → slice bytes start stop ≡ found (take (stop - start) (drop start bytes))
unfolding slice
slice_lem bytes start stop h k = ground arith

pub slice_reversed :
    (bytes : List ℕ) (start stop : ℕ) → stop < start → slice bytes start stop ≡ panic
unfolding slice
slice_reversed bytes start stop h = ground arith

-- The part between two others is found where it was put.
pub slice-append :
    (pre mid post : List ℕ) (start stop : ℕ)
    → start ≡ length pre
    → stop ≡ length pre + length mid
    → slice (pre ++ (mid ++ post)) start stop ≡ found mid
slice-append pre mid post start stop h k =
    rw
      (slice_lem (pre ++ (mid ++ post)) start stop (omega arith)
        (omega (arith, length-append pre (mid ++ post), length-append mid post)))
      (let e : stop - start ≡ length mid = omega arith in
        rw e (rw h (rw (drop-append pre (mid ++ post)) (rw (take-append mid post) refl))))
