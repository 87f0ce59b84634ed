-- ===== src/Llmbench/Planner/Bounded.antt =====
-- llmbench/src/llmbench/planner/plan.py, class Planner: what `mark_done` and `refine` keep.
use home_ailab.Prelude.{
  ℕ, ◌≤◌, ◌≡◌, refl, sym, ap, ◌∙◌, inl, inr, false, Option, none, some, List, [], ◌∷◌, ◌++◌, ok,
  map, All, All-append, All-weaken, Bool-cases,
}
use mathlib.Core.Path.{subst}
use mathlib.Core.List.{append_assoc}
use home_ailab.Llmbench.Cells.{WorkloadCell, CellKey, MeasurementCell, key, same_key}
use home_ailab.Llmbench.Plans.{representative_context, within, default_isl}
use home_ailab.Llmbench.Knee.{find_saturation_knee, sort_rates}
use home_ailab.Llmbench.Planner.{
  Planner, Completed, is_completed, complete, first_open, mark_done, insertions, add_new, refine,
  results, extra_cells, needs_rep, knee_insertions, candidates, closed_results, rate_of,
}
use home_ailab.Llmbench.Planner.Coordinates.{knee_cells-All, Longer, add_new-Longer}
use home_ailab.Llmbench.Planner.Universe.{Covers, Covers-extra, universe, probe-Covers}

results-complete :
    (P : MeasurementCell → Type 0) (k : CellKey) (m : MeasurementCell) (done : Completed)
    → P m
    → All P (results done)
    → All P (results (complete k m done))
unfolding results complete
results-complete P k m [] h a = (h, tt)
results-complete P k m ((j, n) ∷ done) h a = elim (Bool-cases (same_key j k)) [
  | inl same ↦ rw same (h, a.1)
  | inr other ↦ rw other (a.0, results-complete P k m done h a.1)
]

-- `first_open` gives a cell of the plan
pub first_open-All_at :
    (P : WorkloadCell → Type 0) (done : Completed) (cs : List WorkloadCell) (c : WorkloadCell)
    → All P cs
    → first_open done cs ≡ some c
    → P c
unfolding first_open
first_open-All_at P done [] c a h = absurd (cc)
first_open-All_at P done (d ∷ cs) c a h = elim (Bool-cases (is_completed (key d) done)) [
  | inl old ↦ first_open-All_at P done cs c a.1 (cc)
  | inr new ↦ let same : d ≡ c = cc in subst P same a.0
]

module _ (plan : List WorkloadCell) (context k total : ℕ) (some_k : 1 ≤ k) where
  abbrev pub u : List WorkloadCell
  u = universe plan context k

  -- what holds of the planner between two rounds
  pub record IsBounded (p : Planner) : Type 0 where
    pub limit : p.max_concurrency ≡ some k
    pub seconds : p.total_seconds ≡ total
    pub mid : representative_context (within p.max_context default_isl) ≡ ok context
    pub covered : All (Covers u) p.plan
    pub measured : All (λ m. Covers u m.workload) (results p.completed)
    pub kept : Longer (λ c. Unit {0}) plan p.plan

  extra_cells-Covers :
      (ms : List MeasurementCell)
      → All (λ m. Covers u m.workload) ms
      → All (Covers u) (extra_cells ms)
  unfolding extra_cells
  extra_cells-Covers [] a = tt
  extra_cells-Covers (m ∷ ms) a = elim (Bool-cases (needs_rep m)) [
    | inl varied ↦ rw varied (Covers-extra u m.workload a.0, extra_cells-Covers ms a.1)
    | inr steady ↦ rw steady (extra_cells-Covers ms a.1)
  ]

  knee_insertions-Covers :
      (ms : List MeasurementCell) (o : Option ℕ)
      → All (Covers u) (knee_insertions (some k) context ms o)
  knee_insertions-Covers ms none = tt
  knee_insertions-Covers ms (some base) =
      knee_cells-All (Covers u) (some k) context ms (candidates base)
        (λ n positive below. probe-Covers plan context k n some_k positive below)

  insertions-Covers : (p : Planner) → IsBounded p → All (Covers u) (insertions context p)
  unfolding insertions
  insertions-Covers p b =
      let closed = closed_results (results p.completed) in
      let knee = find_saturation_knee (sort_rates (map rate_of closed)) in
      rw (b.limit) (
        All-append (Covers u) (knee_insertions (some k) context closed knee)
          (extra_cells (results p.completed)) (knee_insertions-Covers closed knee)
          (extra_cells-Covers (results p.completed) b.measured))

  unfoldable pub refined : Planner → Planner
  refined p = record p { plan = add_new p.completed p.plan (insertions context p) }

  pub refined-IsBounded : (p : Planner) → IsBounded p → IsBounded (refined p)
  unfolding refined
  refined-IsBounded p b =
      let cells = insertions context p in
      let each = weakened cells (insertions-Covers p b) in
      let added = add_new-Longer (Covers u) p.completed cells p.plan each in
      record {
        limit = b.limit;
        seconds = b.seconds;
        mid = b.mid;
        covered =
            subst (All (Covers u)) (sym added.behind)
              (All-append (Covers u) p.plan added.added b.covered added.each);
        measured = b.measured;
        kept = record {
          added = b.kept.added ++ added.added;
          behind =
              added.behind
              ∙ ap (λ xs. xs ++ added.added) b.kept.behind
              ∙ append_assoc plan b.kept.added added.added;
          each = units (b.kept.added ++ added.added);
        };
      }
    where
      weakened :
          (cs : List WorkloadCell)
          → All (Covers u) cs
          → All (λ c. is_completed (key c) p.completed ≡ false → Covers u c) cs
      weakened cs a =
          All-weaken (Covers u) (λ c. is_completed (key c) p.completed ≡ false → Covers u c) cs
            (λ c h new. h) a

      units : (cs : List WorkloadCell) → All (λ c. Unit {0}) cs
      units [] = tt
      units (c ∷ cs) = (tt, units cs)

  pub refine-refined : (p : Planner) → IsBounded p → refine p ≡ ok (refined p)
  unfolding refine refined
  refine-refined p b = rw b.mid refl

  pub mark_done-IsBounded :
      (c : WorkloadCell) (m : MeasurementCell) (p : Planner)
      → IsBounded p
      → Covers u m.workload
      → IsBounded (mark_done c m p)
  unfolding mark_done
  mark_done-IsBounded c m p b h = record {
    limit = b.limit;
    seconds = b.seconds;
    mid = b.mid;
    covered = b.covered;
    measured = results-complete (λ m. Covers u m.workload) (key c) m p.completed h b.measured;
    kept = b.kept;
  }
