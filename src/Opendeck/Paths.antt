-- ===== src/Opendeck/Paths.antt =====
-- opendeck-broker/opendeck_broker/opencode/observe.py, `_norm_dir`: the form in which directories
-- are compared, over texts as lists of characters.
use Prim.Native.Char.{Char, code}
use Prim.Native.String.{String, [], ◌∷◌}
use mathlib.Core.Path.{◌≡◌, refl, ap, ◌∙◌}
use mathlib.Core.Logic.{inl, inr}
use mathlib.Core.Bool.{Bool, true, false, ◌&&◌}
use mathlib.Core.Option.{Option, none, some}
use home_ailab.Prelude.{◌==◌, if◌then◌else◌, Bool-cases}

abbrev is_empty : String → Bool
is_empty [] = true
is_empty (c ∷ s) = false

abbrev slash : Char
slash = "/"

abbrev is_slash : Char → Bool
is_slash c = code c == 47

abbrev is_backslash : Char → Bool
is_backslash c = code c == 92

abbrev forward : Char → Char
forward c = if is_backslash c then slash else c

-- `.replace("\\", "/")`
unfoldable pub forward_slashes : String → String
forward_slashes [] = []
forward_slashes (c ∷ s) = forward c ∷ forward_slashes s

abbrev keep : Char → String → String
keep c rest = if is_empty rest && is_slash c then [] else c ∷ rest

-- `.rstrip("/")`
unfoldable pub strip_slashes : String → String
strip_slashes [] = []
strip_slashes (c ∷ s) = let rest = strip_slashes s in keep c rest

-- `directory or ""`
abbrev or_empty : Option String → String
or_empty none = []
or_empty (some s) = s

unfoldable pub norm_dir : Option String → String
unfolding forward_slashes strip_slashes
norm_dir directory = strip_slashes (forward_slashes (or_empty directory))

forward_idem : (c : Char) → forward (forward c) ≡ forward c
forward_idem c = elim (Bool-cases (is_backslash c)) [
  | inl yes_back ↦ rw yes_back refl
  | inr other ↦ rw (other, other) refl
]

keep_twice :
    (c : Char) (rest : String)
    → strip_slashes rest ≡ rest
    → strip_slashes (keep c rest) ≡ keep c rest
unfolding strip_slashes
keep_twice c rest h = elim (Bool-cases (is_empty rest && is_slash c)) [
  | inl dropped ↦ rw dropped refl
  | inr kept ↦ rw kept (rw (h, kept) refl)
]

strip_idem : (s : String) → strip_slashes (strip_slashes s) ≡ strip_slashes s
unfolding strip_slashes
strip_idem [] = refl
strip_idem (c ∷ s) = keep_twice c (strip_slashes s) (strip_idem s)

forward-keep :
    (c : Char) (rest : String)
    → forward_slashes rest ≡ rest
    → forward_slashes (keep (forward c) rest) ≡ keep (forward c) rest
unfolding forward_slashes
forward-keep c rest h = elim (Bool-cases (is_empty rest && is_slash (forward c))) [
  | inl dropped ↦ rw dropped refl
  | inr kept ↦ rw kept (rw (h, forward_idem c) refl)
]

forward_strip :
    (s : String)
    → forward_slashes (strip_slashes (forward_slashes s)) ≡ strip_slashes (forward_slashes s)
unfolding forward_slashes strip_slashes
forward_strip [] = refl
forward_strip (c ∷ s) = forward-keep c (strip_slashes (forward_slashes s)) (forward_strip s)

-- A directory in its compared form is left as it is: the adapter, which compares the form that it
-- stored once more, finds the directory under which the observer filed it.
pub norm_dir_idem : (d : Option String) → norm_dir (some (norm_dir d)) ≡ norm_dir d
unfolding norm_dir
norm_dir_idem d =
    ap strip_slashes (forward_strip (or_empty d)) ∙ strip_idem (forward_slashes (or_empty d))
