-- ===== src/Llmbench/Planner/Universe.antt =====
-- llmbench/src/llmbench/planner/plan.py, class Planner: the coordinates that a plan can come to.
use home_ailab.Prelude.{
  ℕ, zero, suc, ◌+◌, ◌*◌, ◌≤◌, ◌<◌, ◌≡◌, refl, sym, ap, ◌∙◌, inl, inr, true, false, ◌||◌, some,
  List, [], ◌∷◌, ◌++◌, map, All, All-weaken, All-both, length, length-append, ltb, ◌==◌, Bool-cases,
  arith,
}
use home_ailab.Llmbench.Cells.{WorkloadCell, CellKey, CacheMode, key, same_key, same_key_refl}
use home_ailab.Llmbench.Plans.{closed_cell}
use home_ailab.Llmbench.Planner.{extra_cell, exceeds, is_planned}
use home_ailab.Llmbench.Planner.Counting.{is_planned-append, is_planned-All}

-- the cells of a universe stand for the coordinate of a cell and for that of its repetition
pub record Covers (u : List WorkloadCell) (c : WorkloadCell) : Type 0 where
  pub planned : is_planned (key c) u ≡ true
  pub repeated : is_planned (key (extra_cell c)) u ≡ true

pub Covers-extra : (u : List WorkloadCell) (c : WorkloadCell) → Covers u c → Covers u (extra_cell c)
Covers-extra u c h = record { planned = h.repeated; repeated = h.repeated }

pub Covers-key :
    (u : List WorkloadCell) (c d : WorkloadCell) → key d ≡ key c → Covers u c → Covers u d
Covers-key u c d e h = record {
  planned = ap (λ k. is_planned k u) e ∙ h.planned;
  repeated = ap (λ k. is_planned (record k { arrival_rate = 0 }) u) e ∙ h.repeated;
}

-- the cells near a knee, up to a concurrency
unfoldable probes : ℕ → ℕ → List WorkloadCell
probes context zero = []
probes context (suc n) = closed_cell context 512 (suc n) CacheMode.cold ∷ probes context n

length-probes : (context n : ℕ) → length (probes context n) ≡ n
unfolding probes
length-probes context zero = refl
length-probes context (suc n) = ap suc (length-probes context n)

abbrev probe_key : ℕ → ℕ → CellKey
probe_key context n = key (closed_cell context 512 (suc n) CacheMode.cold)

probe_planned :
    (context n k : ℕ) → n < k → is_planned (probe_key context n) (probes context k) ≡ true
unfolding probes is_planned
probe_planned context n zero h = absurd (omega arith)
probe_planned context n (suc k) h = elim (Bool-cases (n == k)) [
  | inl same ↦
      let e : n ≡ k = ground arith in
      ground (
        arith,
        ap (λ i. same_key (probe_key context i) (probe_key context n)) (sym e)
            ∙ same_key_refl (probe_key context n),
      )
  | inr other ↦ ground (arith, probe_planned context n k (ground arith))
]

-- every coordinate that the planner can come to
pub universe : List WorkloadCell → ℕ → ℕ → List WorkloadCell
universe plan context k = plan ++ (map extra_cell plan ++ probes context k)

extra_planned :
    (plan : List WorkloadCell)
    → All (λ c. is_planned (key (extra_cell c)) (map extra_cell plan) ≡ true) plan
unfolding is_planned
extra_planned [] = tt
extra_planned (c ∷ cs) = (
  ground (arith, same_key_refl (key (extra_cell c))),
  All-weaken (λ d. is_planned (key (extra_cell d)) (map extra_cell cs) ≡ true)
      (λ d. is_planned (key (extra_cell d)) (map extra_cell (c ∷ cs)) ≡ true) cs
      (λ d h. ground arith) (extra_planned cs),
)

is_universal :
    (plan : List WorkloadCell) (context k : ℕ) (j : CellKey)
    → is_planned j (universe plan context k) ≡ (
        is_planned j plan
        || (is_planned j (map extra_cell plan) || is_planned j (probes context k)))
unfolding universe
is_universal plan context k j =
    is_planned-append j plan (map extra_cell plan ++ probes context k)
    ∙ ap (λ b. is_planned j plan || b)
        (is_planned-append j (map extra_cell plan) (probes context k))

pub universe-Covers :
    (plan : List WorkloadCell) (context k : ℕ) → All (Covers (universe plan context k)) plan
universe-Covers plan context k =
    All-weaken _ (Covers (universe plan context k)) plan
      (λ c h. record {
        planned = is_universal plan context k (key c) ∙ ground (arith, h.0);
        repeated = is_universal plan context k (key (extra_cell c)) ∙ ground (arith, h.1);
      })
      (All-both _ _ plan (is_planned-All plan) (extra_planned plan))

pub probe-Covers :
    (plan : List WorkloadCell) (context k n : ℕ)
    → 1 ≤ k
    → ltb n 1 ≡ false
    → exceeds (some k) n ≡ false
    → Covers (universe plan context k) (closed_cell context 512 n CacheMode.cold)
probe-Covers plan context k zero positive some_n below = absurd (ground arith)
probe-Covers plan context k (suc n) positive some_n below =
    let found = probe_planned context n k (ground arith) in
    let known : is_planned (probe_key context n) (universe plan context k) ≡ true =
      is_universal plan context k (probe_key context n) ∙ ground (arith, found) in
    record { planned = known; repeated = known }

length-map : (cs : List WorkloadCell) → length (map extra_cell cs) ≡ length cs
length-map [] = refl
length-map (c ∷ cs) = ap suc (length-map cs)

pub length-universe :
    (plan : List WorkloadCell) (context k : ℕ)
    → length (universe plan context k) ≡ 2 * length plan + k
unfolding universe
length-universe plan context k = omega (
  arith,
  length-append plan (map extra_cell plan ++ probes context k),
  length-append (map extra_cell plan) (probes context k),
  length-map plan,
  length-probes context k,
)
