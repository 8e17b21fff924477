-- ===== src/PoolLoader/Fields.antt =====
-- Decimal numbers as the standard library prints and parses them, for the fields of the cache files
-- of src/pool_loader.rs.
use arb_bot.Prelude.{
  ℕ, zero, suc, ◌+◌, ◌-◌, ◌*◌, ◌/◌, ◌%◌, ◌<◌, ◌≤◌, ◌≡◌, refl, ap, sym, ◌∙◌, inl, inr, true, false,
  ◌&&◌, [], ◌∷◌, ◌++◌, map, Option, none, some, arith, ltb, leb, ◌==◌, if◌then◌else◌, Bool-cases,
}
use arb_bot.Prelude.Int.{ℤ, pos, negsuc}
use arb_bot.Prelude.Text.{Text}

-- The digits of a number, the last by the remainder. The number itself is enough fuel.
unfoldable pub digits : ℕ → ℕ → Text
digits zero n = (48 + n) ∷ []
digits (suc fuel) n = elim (ltb n 10) [
  | true ↦ (48 + n) ∷ []
  | false ↦ digits fuel (n / 10) ++ (48 + n % 10) ∷ []
]

unfoldable pub to_string : ℕ → Text
to_string n = digits n n

unfoldable pub parse_digits : ℕ → Text → Option ℕ
parse_digits acc [] = some acc
parse_digits acc (c ∷ cs) = elim (leb 48 c && leb c 57) [
  | true ↦ parse_digits (acc * 10 + (c - 48)) cs
  | false ↦ none
]

abbrev pub below : ℕ → Option ℕ → Option ℕ
below bound none = none
below bound (some n) = if ltb n bound then some n else none

-- `str::parse` of an unsigned number below a bound: digits, with a plus sign before them if need be.
unfoldable pub parse_unsigned : ℕ → Text → Option ℕ
parse_unsigned bound [] = none
parse_unsigned bound (c ∷ []) = below bound (parse_digits 0 (c ∷ []))
parse_unsigned bound (c ∷ d ∷ cs) =
    below bound (if c == 43 then parse_digits 0 (d ∷ cs) else parse_digits 0 (c ∷ d ∷ cs))

abbrev pub negated : Option ℕ → Option ℤ
negated none = none
negated (some zero) = some (pos 0)
negated (some (suc n)) = some (negsuc n)

abbrev pub positive : Option ℕ → Option ℤ
positive none = none
positive (some n) = some (pos n)

-- `str::parse` of an `i32`.
unfoldable pub parse_signed : Text → Option ℤ
parse_signed [] = none
parse_signed (c ∷ []) = positive (parse_unsigned 2_147_483_648 (c ∷ []))
parse_signed (c ∷ d ∷ cs) =
    if c == 45
    then negated (below 2_147_483_649 (parse_digits 0 (d ∷ cs)))
    else positive (parse_unsigned 2_147_483_648 (c ∷ d ∷ cs))

-- `to_lowercase`, of an ASCII text
unfoldable pub to_lowercase : Text → Text
to_lowercase text = map (λ c. if leb 65 c && leb c 90 then c + 32 else c) text

parse_digits-append :
    (acc v d : ℕ) (xs : Text)
    → parse_digits acc xs ≡ some v
    → d < 10
    → parse_digits acc (xs ++ (48 + d) ∷ []) ≡ some (v * 10 + d)
unfolding parse_digits
parse_digits-append acc v d [] h lt = ground arith
parse_digits-append acc v d (x ∷ xs) h lt = elim (Bool-cases (leb 48 x && leb x 57)) [
  | inl e ↦
      rw (e, parse_digits)
        (parse_digits-append (acc * 10 + (x - 48)) v d xs (rw (e, parse_digits) at h) lt)
  | inr e ↦ let wrong : none ≡ some v = rw (e, parse_digits) at h in absurd (cc)
]

parse_digits-digits : (fuel n : ℕ) → n ≤ fuel → parse_digits 0 (digits fuel n) ≡ some n
unfolding digits
parse_digits-digits zero n h = unfold parse_digits in ground arith
parse_digits-digits (suc fuel) n h = elim (Bool-cases (ltb n 10)) [
  | inl e ↦ rw (e, digits) (unfold parse_digits in ground arith)
  | inr e ↦
      rw (e, digits)
        (parse_digits-append 0 (n / 10) (n % 10) (digits fuel (n / 10))
            (parse_digits-digits fuel (n / 10) (ground arith)) (omega arith)
          ∙ ap some (omega arith))
]

-- The first digit is no sign.
digits-cases : (fuel n : ℕ) → (c : ℕ) × (cs : Text) × (digits fuel n ≡ c ∷ cs) × (48 ≤ c)
unfolding digits
digits-cases zero n = (48 + n, [], refl, omega arith)
digits-cases (suc fuel) n = elim (Bool-cases (ltb n 10)) [
  | inl e ↦ (48 + n, [], rw (e, digits) refl, omega arith)
  | inr e ↦
      let (c, cs, q, l) = digits-cases fuel (n / 10) in
      (c, cs ++ (48 + n % 10) ∷ [], rw (e, digits) (rw q refl), l)
]

parse_unsigned_lem :
    (bound c n : ℕ) (cs : Text)
    → 48 ≤ c
    → parse_digits 0 (c ∷ cs) ≡ some n
    → n < bound
    → parse_unsigned bound (c ∷ cs) ≡ some n
unfolding parse_unsigned
parse_unsigned_lem bound c n [] l h k = rw h (ground arith)
parse_unsigned_lem bound c n (d ∷ cs) l h k =
    let e : (c == 43) ≡ false = ground arith in rw e (rw h (ground arith))

-- Printed numbers are read back.
pub parse_unsigned-to_string :
    (bound n : ℕ) → n < bound → parse_unsigned bound (to_string n) ≡ some n
unfolding to_string
parse_unsigned-to_string bound n h =
    let (c, cs, q, l) = digits-cases n n in
    let p : parse_digits 0 (c ∷ cs) ≡ some n =
      ap (parse_digits 0) (sym q) ∙ parse_digits-digits n n (omega arith) in
    rw q (parse_unsigned_lem bound c n cs l p h)
