-- ===== src/Prelude/Numerals.antt =====
-- Python's `str(n)` for a number, and the text `a + b`.
use Prim.Native.Nat.{ℕ, zero, suc, ◌+◌}
use Prim.Native.String.{String, ◌++◌, count}
use mathlib.Core.List.{List, [], ◌∷◌}
use home_ailab.Prelude.Tests.{◌==◌, if◌then◌else◌}

-- a + b
abbrev pub join_texts : String → String → String
join_texts a b = a ++ b

-- the digits of the next number, the last digit first
unfoldable pub next_digits : List ℕ → List ℕ
next_digits [] = 1 ∷ []
next_digits (d ∷ ds) = let carried = next_digits ds in if d == 9 then 0 ∷ carried else (d + 1) ∷ ds

unfoldable pub digits : ℕ → List ℕ
unfolding next_digits
digits zero = 0 ∷ []
digits (suc n) = next_digits (digits n)

abbrev digit_text : ℕ → String
digit_text zero = "0"
digit_text (suc zero) = "1"
digit_text (suc (suc zero)) = "2"
digit_text (suc (suc (suc zero))) = "3"
digit_text (suc (suc (suc (suc zero)))) = "4"
digit_text (suc (suc (suc (suc (suc zero))))) = "5"
digit_text (suc (suc (suc (suc (suc (suc zero)))))) = "6"
digit_text (suc (suc (suc (suc (suc (suc (suc zero))))))) = "7"
digit_text (suc (suc (suc (suc (suc (suc (suc (suc zero)))))))) = "8"
digit_text (suc (suc (suc (suc (suc (suc (suc (suc (suc n))))))))) = "9"

unfoldable pub digits_text : List ℕ → String
digits_text [] = ""
digits_text (d ∷ ds) = digits_text ds ++ digit_text d

-- str(n)
unfoldable pub decimal : ℕ → String
unfolding digits digits_text
decimal n = digits_text (digits n)

-- len(s)
abbrev pub text_length : String → ℕ
text_length s = count s

-- s[:n]
unfoldable pub text_take : ℕ → String → String
text_take zero s = ""
text_take (suc n) String.[] = ""
text_take (suc n) (String.◌∷◌ c s) = String.◌∷◌ c (text_take n s)
