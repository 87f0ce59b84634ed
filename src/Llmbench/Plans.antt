-- ===== src/Llmbench/Plans.antt =====
-- llmbench/src/llmbench/planner/plan.py: the cells of a light and of a heavy plan. The plans do not
-- read the budget that they are given.
pub mod Limits
pub mod Fitting
use home_ailab.Prelude.{
  ℕ, zero, suc, ◌+◌, ◌-◌, ◌*◌, ◌/◌, String, Bool, true, false, Option, none, some, List, [], ◌∷◌,
  ◌++◌, Result, ok, ◌>>=◌, map, length, get_elem?, index, leb, ltb, ◌==◌, if◌then◌else◌,
}
use home_ailab.Llmbench.Cells.{WorkloadCell, CacheMode, LoadMode}

abbrev pub default_isl : List ℕ
default_isl =
    128 ∷ 512 ∷ 1024 ∷ 2048 ∷ 4096 ∷ 8192 ∷ 16384 ∷ 32768 ∷ 65536 ∷ 131072 ∷ 262144 ∷ 524288 ∷ []

abbrev pub default_osl : List ℕ
default_osl = 32 ∷ 128 ∷ 256 ∷ 512 ∷ 1024 ∷ 2048 ∷ []

abbrev pub concurrency_ladder : List ℕ
concurrency_ladder = 1 ∷ 2 ∷ 4 ∷ 8 ∷ 16 ∷ 32 ∷ 64 ∷ 128 ∷ []

-- `limit is None or c <= limit`
abbrev pub is_within : Option ℕ → ℕ → Bool
is_within none c = true
is_within (some limit) c = leb c limit

-- `[c for c in values if limit is None or c <= limit]`
unfoldable pub within : Option ℕ → List ℕ → List ℕ
within limit [] = []
within limit (c ∷ cs) = let rest = within limit cs in if is_within limit c then c ∷ rest else rest

-- sorted(set(values)): each value once, in order
unfoldable pub insert_value : ℕ → List ℕ → List ℕ
insert_value v [] = v ∷ []
insert_value v (w ∷ ws) =
    let rest = insert_value v ws in
    if v == w then w ∷ ws else if ltb v w then v ∷ w ∷ ws else w ∷ rest

unfoldable pub sort_set : List ℕ → List ℕ
unfolding insert_value
sort_set [] = []
sort_set (v ∷ vs) = insert_value v (sort_set vs)

-- `[vals[int(i * step)] for i in range(...)]`, the last `rounds` of `cap` rounds
unfoldable pub pick : ℕ → ℕ → List ℕ → Result (List ℕ)
pick cap zero vals = ok []
pick cap (suc rounds) vals = do
  v ← index vals ((cap - suc rounds) * (length vals - 1) / (cap - 1))
  rest ← pick cap rounds vals
  ok (v ∷ rest)

-- `_dedupe`
unfoldable pub dedupe : List ℕ → ℕ → Result (List ℕ)
unfolding sort_set pick
dedupe values cap =
    let vals = sort_set values in
    if leb (length vals) cap then ok vals else (do out ← pick cap cap vals; ok (sort_set out))

-- `_representative_context`
unfoldable pub representative_context : List ℕ → Result ℕ
representative_context [] = ok 4096
representative_context (c ∷ cs) = index (c ∷ cs) (length (c ∷ cs) / 2)

-- `_cell`
abbrev pub new_cell : ℕ → ℕ → ℕ → CacheMode → LoadMode → ℕ → Option ℕ → WorkloadCell
new_cell isl osl conc cache load reps rate = record {
  cell_id = "";
  input_tokens = isl;
  target_output_tokens = osl;
  concurrency = conc;
  cache_mode = cache;
  load_mode = load;
  repetitions = reps;
  arrival_rate = rate;
}

-- a cell of a closed loop
abbrev pub closed_cell : ℕ → ℕ → ℕ → CacheMode → WorkloadCell
closed_cell isl osl conc cache = new_cell isl osl conc cache LoadMode.closed_loop 1 none

-- the cells of two nested loops
unfoldable pub for_each {ℓ} : {A : Type ℓ} → (A → List WorkloadCell) → List A → List WorkloadCell
for_each f [] = []
for_each f (a ∷ items) = f a ++ for_each f items

abbrev pub both_caches : ℕ → List WorkloadCell
both_caches isl = closed_cell isl 256 1 CacheMode.cold ∷ closed_cell isl 256 1 CacheMode.warm ∷ []

-- xs[:n]
unfoldable pub take {ℓ} : {A : Type ℓ} → ℕ → List A → List A
take zero xs = []
take (suc n) [] = []
take (suc n) (x ∷ xs) = x ∷ take n xs

abbrev pub baseline : ℕ → List WorkloadCell
baseline isl = closed_cell isl 128 1 CacheMode.cold ∷ closed_cell isl 512 1 CacheMode.cold ∷ []

abbrev pub scaling : ℕ → ℕ → WorkloadCell
scaling mid c = closed_cell mid 512 c CacheMode.cold

unfoldable pub light_plan : Option ℕ → Option ℕ → Result (List WorkloadCell)
unfolding within dedupe representative_context for_each take
light_plan max_context max_concurrency = do
  ctxs ← dedupe (within max_context default_isl) 6
  mid ← representative_context ctxs
  ok (
      for_each baseline ctxs
      ++ (map (scaling mid) (within max_concurrency concurrency_ladder)
          ++ for_each both_caches (take 2 ctxs)))

abbrev pub dense : List ℕ → ℕ → List WorkloadCell
dense concs isl = map (λ c. closed_cell isl 512 c CacheMode.cold) (take 4 concs)

abbrev pub outputs : ℕ → ℕ → List WorkloadCell
outputs mid osl = closed_cell mid osl 1 CacheMode.cold ∷ closed_cell mid osl 4 CacheMode.cold ∷ []

-- the open loop, at half a request per second
abbrev pub open_cell : ℕ → WorkloadCell
open_cell mid = new_cell mid 512 1 CacheMode.cold LoadMode.open_loop_poisson 1 (some 5)

unfoldable pub heavy_plan : Option ℕ → Option ℕ → Result (List WorkloadCell)
unfolding within dedupe representative_context for_each take
heavy_plan max_context max_concurrency = do
  ctxs ← dedupe (within max_context default_isl) 8
  mid ← representative_context ctxs
  ok (
      for_each (dense (within max_concurrency concurrency_ladder)) ctxs
      ++ (for_each (outputs mid) default_osl
          ++ (for_each both_caches (take 4 ctxs) ++ open_cell mid ∷ [])))
