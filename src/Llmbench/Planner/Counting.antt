-- ===== src/Llmbench/Planner/Counting.antt =====
-- llmbench/src/llmbench/planner/plan.py, class Planner: how many coordinates are not completed.
use home_ailab.Prelude.{
  ℕ, suc, ◌≤◌, ◌<◌, ◌≡◌, refl, sym, ap, ◌∙◌, inl, inr, true, false, ◌||◌, List, [], ◌∷◌, ◌++◌, All,
  All-weaken, Bool-cases, if◌then◌else◌, arith,
}
use home_ailab.Llmbench.Cells.{
  WorkloadCell, CellKey, MeasurementCell, key, same_key, same_key-eq, same_key_refl,
}
use home_ailab.Llmbench.Planner.{Completed, is_completed, complete, is_planned}
use home_ailab.Llmbench.Planner.Rounds.{is_completed-complete}

pub is_planned-append :
    (k : CellKey) (cs ds : List WorkloadCell)
    → is_planned k (cs ++ ds) ≡ (is_planned k cs || is_planned k ds)
unfolding is_planned
is_planned-append k [] ds = refl
is_planned-append k (c ∷ cs) ds = ground (arith, is_planned-append k cs ds)

pub is_planned-All : (cs : List WorkloadCell) → All (λ c. is_planned (key c) cs ≡ true) cs
unfolding is_planned
is_planned-All [] = tt
is_planned-All (c ∷ cs) = (
  ground (arith, same_key_refl (key c)),
  All-weaken (λ d. is_planned (key d) cs ≡ true) (λ d. is_planned (key d) (c ∷ cs) ≡ true) cs
      (λ d h. ground arith) (is_planned-All cs),
)

-- the cells of the coordinates that are not completed
unfoldable pub open_count : Completed → List WorkloadCell → ℕ
open_count done [] = 0
open_count done (c ∷ cs) =
    let rest = open_count done cs in if is_completed (key c) done then rest else suc rest

module _ (done : Completed) (k : CellKey) (m : MeasurementCell) where
  open_count_le : (cs : List WorkloadCell) → open_count (complete k m done) cs ≤ open_count done cs
  unfolding open_count
  open_count_le [] = omega arith
  open_count_le (c ∷ cs) = ground (arith, open_count_le cs, is_completed-complete k (key c) m done)

  pub open_count_lt :
      (cs : List WorkloadCell)
      → is_planned k cs ≡ true
      → is_completed k done ≡ false
      → open_count (complete k m done) cs < open_count done cs
  unfolding open_count is_planned
  open_count_lt [] planned new = absurd (cc)
  open_count_lt (c ∷ cs) planned new = elim (Bool-cases (same_key (key c) k)) [
    | inl same ↦
        let e = same_key-eq (key c) k same in
        let was : is_completed (key c) done ≡ false = ap (λ j. is_completed j done) e ∙ new in
        let self : same_key k (key c) ≡ true = ap (same_key k) e ∙ same_key_refl k in
        ground (arith, open_count_le cs, is_completed-complete k (key c) m done)
    | inr other ↦
        let less = open_count_lt cs (ground arith) new in
        ground (arith, less, is_completed-complete k (key c) m done)
  ]

pub open_count-zero :
    (done : Completed) (k : CellKey) (cs : List WorkloadCell)
    → open_count done cs ≡ 0
    → is_planned k cs ≡ true
    → is_completed k done ≡ true
unfolding open_count is_planned
open_count-zero done k [] e planned = absurd (cc)
open_count-zero done k (c ∷ cs) e planned = elim (Bool-cases (same_key (key c) k)) [
  | inl same ↦ ap (λ j. is_completed j done) (sym (same_key-eq (key c) k same)) ∙ ground arith
  | inr other ↦ open_count-zero done k cs (ground arith) (ground arith)
]
