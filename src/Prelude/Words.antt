-- ===== src/Prelude/Words.antt =====
-- Python's methods on texts, as far as the program uses them on ASCII text: `lower`, `strip`,
-- `endswith` and slices from an index.
use Prim.Native.Nat.{ℕ, zero, suc, ◌-◌}
use Prim.Native.Char.{Char, code}
use Prim.Native.String.{String, [], ◌∷◌, char_at}
use mathlib.Core.Bool.{Bool, true, false, ◌&&◌, ◌||◌}
use text.Mathlib.Text.{◌==◌ as str_eq}
use home_ailab.Prelude.Tests.{◌==◌, leb, if◌then◌else◌}

-- a letter from A to Z in lower case; another character as it is
abbrev lower_char : Char → Char
lower_char c =
    if leb 65 (code c) && leb (code c) 90
    then char_at "abcdefghijklmnopqrstuvwxyz" (code c - 65)
    else c

-- s.lower()
unfoldable pub lower : String → String
lower [] = []
lower (c ∷ s) = lower_char c ∷ lower s

abbrev is_space : Char → Bool
is_space c = code c == 32 || (leb 9 (code c) && leb (code c) 13)

abbrev is_empty : String → Bool
is_empty [] = true
is_empty (c ∷ s) = false

-- s.lstrip()
unfoldable pub strip_left : String → String
strip_left [] = []
strip_left (c ∷ s) = let rest = strip_left s in if is_space c then rest else c ∷ s

abbrev keep_right : Char → String → String
keep_right c rest = if is_empty rest && is_space c then [] else c ∷ rest

-- s.rstrip()
unfoldable pub strip_right : String → String
strip_right [] = []
strip_right (c ∷ s) = keep_right c (strip_right s)

-- s.strip()
unfoldable pub strip : String → String
unfolding strip_left strip_right
strip s = strip_right (strip_left s)

-- s[n:]
unfoldable pub text_drop : ℕ → String → String
text_drop zero s = s
text_drop (suc n) [] = []
text_drop (suc n) (c ∷ s) = text_drop n s

-- s.endswith(t)
unfoldable pub ends_with : String → String → Bool
ends_with [] t = str_eq [] t
ends_with (c ∷ s) t = str_eq (c ∷ s) t || ends_with s t
