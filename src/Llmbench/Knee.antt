-- ===== src/Llmbench/Knee.antt =====
-- llmbench/src/llmbench/planner/plan.py, _find_saturation_knee. Throughput is in thousandths of a token
-- per second.
use home_ailab.Prelude.{
  ℕ, zero, suc, ◌+◌, ◌-◌, ◌*◌, Bool, not, ◌&&◌, ◌||◌, Option, none, some, List, [], ◌∷◌, length,
  leb, ltb, ◌==◌, ℤ, pos, negsuc, le_ℤ, if◌then◌else◌,
}

-- a pair of a concurrency and the throughput there
abbrev pub Rate : Type 0
Rate = ℕ × ℕ

abbrev is_before : Rate → Rate → Bool
is_before (c, t) (d, u) = ltb c d || ((c == d) && leb t u)

-- sorted(pairs)
unfoldable pub insert_rate : Rate → List Rate → List Rate
insert_rate r [] = r ∷ []
insert_rate r (s ∷ rates) =
    let rest = insert_rate r rates in if is_before r s then r ∷ s ∷ rates else s ∷ rest

unfoldable pub sort_rates : List Rate → List Rate
unfolding insert_rate
sort_rates [] = []
sort_rates (r ∷ rates) = insert_rate r (sort_rates rates)

-- t - u
abbrev difference : ℕ → ℕ → ℤ
difference t u = if leb u t then pos (t - u) else negsuc (u - t - 1)

-- the gain of every step, with the concurrency that it leads to
unfoldable pub gains : List Rate → List (ℕ × ℤ)
gains [] = []
gains (r ∷ []) = []
gains ((c, t) ∷ (d, u) ∷ rates) = (d, difference u t) ∷ gains ((d, u) ∷ rates)

abbrev max_ℤ : ℤ → ℤ → ℤ
max_ℤ a b = if le_ℤ a b then b else a

-- max(g for _, g in gains), of at least one gain
unfoldable pub max_gain : ℤ → List (ℕ × ℤ) → ℤ
max_gain g [] = g
max_gain g ((c, h) ∷ rest) = max_gain (max_ℤ g h) rest

-- `g or 1.0`
abbrev or_one : ℤ → ℤ
or_one (pos zero) = pos 1000
or_one (pos (suc n)) = pos (suc n)
or_one (negsuc n) = negsuc n

-- ten times a number
abbrev tenfold : ℤ → ℤ
tenfold (pos n) = pos (10 * n)
tenfold (negsuc n) = negsuc (10 * n + 9)

-- the first step whose gain is below a tenth of the largest
unfoldable pub first_small : ℤ → List (ℕ × ℤ) → Option ℕ
first_small top [] = none
first_small top ((c, g) ∷ rest) =
    let later = first_small top rest in if not (le_ℤ top (tenfold g)) then some c else later

abbrev knee_of : List (ℕ × ℤ) → Option ℕ
knee_of [] = none
knee_of ((c, g) ∷ rest) = first_small (or_one (max_gain g rest)) ((c, g) ∷ rest)

-- `_find_saturation_knee`
unfoldable pub find_saturation_knee : List Rate → Option ℕ
unfolding gains max_gain first_small
find_saturation_knee rates = if ltb (length rates) 3 then none else knee_of (gains rates)
