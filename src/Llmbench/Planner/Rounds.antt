-- ===== src/Llmbench/Planner/Rounds.antt =====
-- llmbench/src/llmbench/cli/main.py, the loop of the command `run`: what a round does, and a cell that
-- fails.
use home_ailab.Prelude.{
  ℕ, ◌+◌, ◌≡◌, refl, sym, ap, ◌∙◌, ◌↔◌, inl, inr, true, false, ◌||◌, Option, none, some, List, [],
  ◌∷◌, ok, Returns, Returns-bind, All, length, Bool-cases, arith,
}
use home_ailab.Llmbench.Cells.{WorkloadCell, CellKey, MeasurementCell, key, same_key, same_key-eq}
use home_ailab.Llmbench.Planner.{
  Planner, Completed, is_completed, complete, first_open, next_cell, mark_done, refine,
  is_exhausted, round, run_rounds,
}
use home_ailab.Llmbench.Plans.Limits.{context_known}
use home_ailab.Llmbench.Plans.{representative_context, within, default_isl}

first_open-none :
    (done : Completed) (cs : List WorkloadCell)
    → first_open done cs ≡ none
    → All (λ c. is_completed (key c) done ≡ true) cs
unfolding first_open
first_open-none done [] h = tt
first_open-none done (c ∷ cs) h = elim (Bool-cases (is_completed (key c) done)) [
  | inl old ↦ (old, first_open-none done cs (cc))
  | inr new ↦ absurd (cc)
]

pub first_open-All :
    (done : Completed) (cs : List WorkloadCell)
    → All (λ c. is_completed (key c) done ≡ true) cs
    → first_open done cs ≡ none
unfolding first_open
first_open-All done [] a = refl
first_open-All done (c ∷ cs) a = rw a.0 (first_open-All done cs a.1)

pub first_open-some :
    (done : Completed) (cs : List WorkloadCell) (c : WorkloadCell)
    → first_open done cs ≡ some c
    → is_completed (key c) done ≡ false
unfolding first_open
first_open-some done [] c h = absurd (cc)
first_open-some done (d ∷ cs) c h = elim (Bool-cases (is_completed (key d) done)) [
  | inl old ↦ first_open-some done cs c (cc)
  | inr new ↦ let same : d ≡ c = cc in ap (λ x. is_completed (key x) done) (sym same) ∙ new
]

-- The planner has no next cell exactly if every coordinate of the plan is completed.
pub next_cell-none_iff :
    (p : Planner) → (next_cell p ≡ none) ↔ All (λ c. is_completed (key c) p.completed ≡ true) p.plan
unfolding next_cell
next_cell-none_iff p = (first_open-none p.completed p.plan, first_open-All p.completed p.plan)

pub is_completed-complete :
    (k j : CellKey) (m : MeasurementCell) (done : Completed)
    → is_completed j (complete k m done) ≡ (same_key k j || is_completed j done)
unfolding is_completed complete
is_completed-complete k j m [] = refl
is_completed-complete k j m ((i, n) ∷ done) = elim (Bool-cases (same_key i k)) [
  | inl same ↦ let e = same_key-eq i k same in rw same (ground (arith, ap (λ x. same_key x j) e))
  | inr other ↦ rw other (ground (arith, is_completed-complete k j m done))
]

length-complete :
    (k : CellKey) (m : MeasurementCell) (done : Completed)
    → is_completed k done ≡ false
    → length (complete k m done) ≡ length done + 1
unfolding is_completed complete
length-complete k m [] h = refl
length-complete k m ((i, n) ∷ done) h = elim (Bool-cases (same_key i k)) [
  | inl same ↦ absurd (ground arith)
  | inr other ↦
      let rest : is_completed k done ≡ false = ground arith in
      rw other (omega (arith, length-complete k m done rest))
]

-- `refine` raises nothing and completes nothing
refine-completed : (p : Planner) → Returns (λ q. q.completed ≡ p.completed) (refine p)
unfolding refine
refine-completed p =
    Returns-bind (λ c. Unit {0}) (λ q. q.completed ≡ p.completed)
      (representative_context (within p.max_context default_isl)) _
      (context_known (within p.max_context default_isl)) (λ context u. refl)

module _ (run_cell : WorkloadCell → Option MeasurementCell) where
  -- A cell on which the executor raises is tried again in every round, for as many rounds as the
  -- budget has time for: no other cell of the plan is measured any more.
  pub failing_cell-blocks :
      (p : Planner) (c : WorkloadCell) (times : List ℕ)
      → next_cell p ≡ some c
      → run_cell c ≡ none
      → run_rounds run_cell times p ≡ ok p
  unfolding run_rounds round
  failing_cell-blocks p c [] next fails = refl
  failing_cell-blocks p c (elapsed ∷ times) next fails =
      elim (Bool-cases (is_exhausted elapsed p)) [
        | inl over ↦ rw over refl
        | inr time_left ↦ rw (time_left, next, fails) (failing_cell-blocks p c times next fails)
      ]

  -- what a round that measures a cell leaves
  pub record Measured (p : Planner) (c : WorkloadCell) (q : Planner) : Type 0 where
    pub open_before : is_completed (key c) p.completed ≡ false
    pub done :
        (k : CellKey)
        → is_completed k q.completed ≡ (same_key (key c) k || is_completed k p.completed)
    pub one_more : length q.completed ≡ length p.completed + 1

  abbrev pub Went : Planner → WorkloadCell → Option Planner → Type 0
  Went p c none = ⊥
  Went p c (some q) = Measured p c q

  -- A round in time that measures its cell raises nothing: the cell's coordinate was not completed
  -- and is now, one coordinate more is completed, and none is lost, so that no coordinate is measured
  -- twice.
  pub round-Measured :
      (p : Planner) (c : WorkloadCell) (m : MeasurementCell) (elapsed : ℕ)
      → is_exhausted elapsed p ≡ false
      → next_cell p ≡ some c
      → run_cell c ≡ some m
      → Returns (Went p c) (round run_cell elapsed p)
  unfolding round next_cell mark_done
  round-Measured p c m elapsed time_left next measured =
      let open_key = first_open-some p.completed p.plan c next in
      let marked = mark_done c m p in
      rw (time_left, next, measured)
        (Returns-bind (λ q. q.completed ≡ marked.completed) (Went p c) (refine marked) _
          (refine-completed marked)
          (λ q same. record {
            open_before = open_key;
            done = λ k. ap (is_completed k) same ∙ is_completed-complete (key c) k m p.completed;
            one_more = ap length same ∙ length-complete (key c) m p.completed open_key;
          }))
