-- ===== src/Prelude/Text.antt =====
-- Text as the numbers of its characters, with the search for a part of it, and code that returns a
-- text as its error.
use Prim.Native.Char.{code}
use Prim.Native.String.{String}
use arb_bot.Prelude.{ℕ, ◌≡◌, refl, Bool, true, false, ◌&&◌, ◌||◌, List, [], ◌∷◌, ◌++◌, arith, ◌==◌}

abbrev pub Text : Type 0
Text = List ℕ

abbrev pub codes : String → Text
codes String.[] = []
codes (String.◌∷◌ c s) = code c ∷ codes s

unfoldable pub starts_with : Text → Text → Bool
starts_with s [] = true
starts_with [] (c ∷ cs) = false
starts_with (x ∷ xs) (c ∷ cs) = x == c && starts_with xs cs

-- `str::contains`
unfoldable pub has_text : Text → Text → Bool
unfolding starts_with
has_text [] part = starts_with [] part
has_text (x ∷ xs) part = starts_with (x ∷ xs) part || has_text xs part

pub starts_with-append : (part rest : Text) → starts_with (part ++ rest) part ≡ true
unfolding starts_with
starts_with-append [] rest = refl
starts_with-append (c ∷ part) rest = ground (arith, starts_with-append part rest)

-- A text has what it starts with.
pub has_text-append : (c : ℕ) (part rest : Text) → has_text ((c ∷ part) ++ rest) (c ∷ part) ≡ true
unfolding has_text starts_with
has_text-append c part rest = ground (arith, starts_with-append part rest)

-- Rust's `Result` with a text for its error.
pub data Result {ℓ} (A : Type ℓ) : Type ℓ where
  ok : A → Result A
  err : Text → Result A
