-- ===== src/Prelude/Texts.antt =====
-- Lists of texts as Python's `list[str]`: membership, `remove`, and the truth value of a text.
use Prim.Native.String.{String}
use text.Mathlib.Text.{◌==◌}
use text.Mathlib.TextEquality.{eq_iff}
use text.Mathlib.TextPositions.{eq_refl}
use mathlib.Core.Path.{◌≡◌, refl}
use mathlib.Core.Logic.{◌≢◌}
use mathlib.Core.Bool.{Bool, true, false, not, ◌||◌}
use mathlib.Core.List.{List, [], ◌∷◌, ◌++◌}
use native.Mathlib.Omega.{arith}
use home_ailab.Prelude.Tests.{if◌then◌else◌}

-- bool(s)
abbrev pub truthy : String → Bool
truthy s = not (s == "")

-- bool(l) for a list
abbrev pub nonempty {ℓ} : {A : Type ℓ} → List A → Bool
nonempty [] = false
nonempty (x ∷ xs) = true

-- x in l
unfoldable pub contains : String → List String → Bool
contains x [] = false
contains x (y ∷ ys) = (y == x) || contains x ys

-- l.remove(x) where x is in l: the first occurrence goes
unfoldable pub remove : String → List String → List String
remove x [] = []
remove x (y ∷ ys) = if y == x then ys else y ∷ remove x ys

-- No text twice.
abbrev pub IsUnique : List String → Type 0
IsUnique [] = Unit
IsUnique (x ∷ xs) = (contains x xs ≡ false) × IsUnique xs

pub contains-append :
    (x : String) (xs ys : List String) → contains x (xs ++ ys) ≡ (contains x xs || contains x ys)
unfolding contains
contains-append x [] ys = refl
contains-append x (z ∷ xs) ys = ground (arith, contains-append x xs ys)

pub contains-remove_ne :
    (x y : String) (l : List String) → y ≢ x → contains x (remove y l) ≡ contains x l
unfolding contains remove
contains-remove_ne x y [] h = refl
contains-remove_ne x y (z ∷ l) h =
    ground (arith, contains-remove_ne x y l h, eq_iff z x, eq_iff z y)

pub contains-remove_self :
    (x : String) (l : List String) → IsUnique l → contains x (remove x l) ≡ false
unfolding contains remove
contains-remove_self x [] u = refl
contains-remove_self x (z ∷ l) u = ground (arith, contains-remove_self x l u.1, eq_iff z x)

pub contains-remove-false :
    (x y : String) (l : List String) → contains x l ≡ false → contains x (remove y l) ≡ false
unfolding contains remove
contains-remove-false x y [] h = refl
contains-remove-false x y (z ∷ l) h = ground (arith, contains-remove-false x y l)

pub remove-IsUnique : (x : String) (l : List String) → IsUnique l → IsUnique (remove x l)
unfolding remove
remove-IsUnique x [] u = tt
remove-IsUnique x (z ∷ l) u =
    ground (arith, remove-IsUnique x l u.1, contains-remove-false z x l u.0)

pub append-IsUnique :
    (x : String) (l : List String) → contains x l ≡ false → IsUnique l → IsUnique (l ++ x ∷ [])
unfolding contains
append-IsUnique x [] h u = (refl, tt)
append-IsUnique x (z ∷ l) h u =
    ground (arith, append-IsUnique x l, contains-append z l (x ∷ []), eq_iff z x, eq_iff x z)

-- what was appended and was not there is what `remove` takes out
pub remove-append_self :
    (x : String) (l : List String) → contains x l ≡ false → remove x (l ++ x ∷ []) ≡ l
unfolding contains remove
remove-append_self x [] h = ground (arith, eq_refl x)
remove-append_self x (z ∷ l) h = ground (arith, remove-append_self x l)
