-- ===== src/Llmbench/Plans/Limits.antt =====
-- llmbench/src/llmbench/planner/plan.py: the plans against the limits of the deployment.
use home_ailab.Prelude.{
  ℕ, zero, suc, ◌-◌, ◌*◌, ◌/◌, ◌≤◌, ◌<◌, ◌≡◌, true, inl, inr, some, List, [], ◌∷◌, Returns,
  Returns-bind, Returns-weaken, length, get_elem?, get_elem?-some, index, leb, ltb, ◌==◌, All,
  Bool-cases, arith,
}
use mathlib.Core.Path.{subst}
use native.Mathlib.Nat.{div-le_of_le-mul}
use home_ailab.Llmbench.Plans.{within, insert_value, sort_set, pick, dedupe, representative_context}

pub within-All : (limit : ℕ) (vals : List ℕ) → All (λ c. c ≤ limit) (within (some limit) vals)
unfolding within
within-All limit [] = tt
within-All limit (c ∷ cs) = elim (Bool-cases (leb c limit)) [
  | inl fits ↦ let below : c ≤ limit = ground arith in rw fits (below, within-All limit cs)
  | inr big ↦ rw big (within-All limit cs)
]

module _ (P : ℕ → Type 0) where
  -- the values satisfy `P`, and there is one
  abbrev pub AllSome : List ℕ → Type 0
  AllSome vals = All P vals × (1 ≤ length vals)

  insert_value-AllSome : (v : ℕ) (vs : List ℕ) → P v → All P vs → AllSome (insert_value v vs)
  unfolding insert_value
  insert_value-AllSome v [] p a = ((p, tt), omega arith)
  insert_value-AllSome v (w ∷ ws) p a = elim (Bool-cases (v == w)) [
    | inl same ↦ rw same (a, omega arith)
    | inr other ↦ elim (Bool-cases (ltb v w)) [
      | inl less ↦ rw (other, less) ((p, a), omega arith)
      | inr more ↦ rw (other, more) ((a.0, (insert_value-AllSome v ws p a.1).0), omega arith)
    ]
  ]

  sort_set-All : (vs : List ℕ) → All P vs → All P (sort_set vs)
  unfolding sort_set
  sort_set-All [] a = tt
  sort_set-All (v ∷ vs) a = (insert_value-AllSome v (sort_set vs) a.0 (sort_set-All vs a.1)).0

  sort_set-AllSome : (vs : List ℕ) → AllSome vs → AllSome (sort_set vs)
  unfolding sort_set
  sort_set-AllSome [] a = absurd (omega (arith, a.1))
  sort_set-AllSome (v ∷ vs) a = insert_value-AllSome v (sort_set vs) a.0.0 (sort_set-All vs a.0.1)

  get_elem?-All : (vs : List ℕ) (i v : ℕ) → All P vs → get_elem? vs i ≡ some v → P v
  get_elem?-All [] i v a e = absurd (cc)
  get_elem?-All (w ∷ ws) zero v a e = subst P (cc) a.0
  get_elem?-All (w ∷ ws) (suc i) v a e = get_elem?-All ws i v a.1 e

  index-Returns : (vs : List ℕ) (i : ℕ) → All P vs → i < length vs → Returns P (index vs i)
  index-Returns vs i a h = let (v, e) = get_elem?-some vs i h in rw e (get_elem?-All vs i v a e)

  pick-Returns :
      (cap rounds : ℕ) (vals : List ℕ)
      → AllSome vals
      → 2 ≤ cap
      → rounds ≤ cap
      → Returns (λ out. All P out × (rounds ≤ length out)) (pick cap rounds vals)
  unfolding pick
  pick-Returns cap zero vals a c h = (tt, omega arith)
  pick-Returns cap (suc rounds) vals a c h =
      let i = (cap - suc rounds) * (length vals - 1) / (cap - 1) in
      let top : i ≤ length vals - 1 = div-le_of_le-mul (cap - 1) (grind arith) in
      Returns-bind P _ (index vals i) _ (index-Returns vals i a.0 (omega (arith, top, a.1))) (λ v p.
        Returns-bind _ _ (pick cap rounds vals) _ (pick-Returns cap rounds vals a c (omega arith))
          (λ out q. ((p, q.0), omega (arith, q.1))))

  pub dedupe-Returns :
      (cap : ℕ) (vals : List ℕ) → AllSome vals → 2 ≤ cap → Returns AllSome (dedupe vals cap)
  unfolding dedupe
  dedupe-Returns cap vals a c = elim (Bool-cases (leb (length (sort_set vals)) cap)) [
    | inl few ↦ rw few (sort_set-AllSome vals a)
    | inr many ↦ rw many (
        Returns-bind _ AllSome (pick cap cap (sort_set vals)) _
          (pick-Returns cap cap (sort_set vals) (sort_set-AllSome vals a) c (omega arith))
          (λ out q. sort_set-AllSome out (q.0, omega (arith, q.1))))
  ]

  pub representative_context-Returns :
      (vals : List ℕ) → AllSome vals → Returns P (representative_context vals)
  unfolding representative_context
  representative_context-Returns [] a = absurd (omega (arith, a.1))
  representative_context-Returns (v ∷ vs) a =
      index-Returns (v ∷ vs) (length (v ∷ vs) / 2) a.0 (omega arith)

units : (xs : List ℕ) → All (λ c. Unit {0}) xs
units [] = tt
units (x ∷ xs) = (tt, units xs)

pub context_known : (vals : List ℕ) → Returns (λ c. Unit {0}) (representative_context vals)
unfolding representative_context
context_known [] = tt
context_known (v ∷ vs) =
    representative_context-Returns (λ c. Unit {0}) (v ∷ vs) (units (v ∷ vs), omega arith)

pub dedupe_known : (cap : ℕ) (vals : List ℕ) → 2 ≤ cap → Returns (λ out. Unit {0}) (dedupe vals cap)
unfolding dedupe sort_set
dedupe_known size [] c = let fits : leb 0 size ≡ true = ground arith in rw fits tt
dedupe_known size (v ∷ vs) c =
    Returns-weaken (AllSome (λ c. Unit {0})) (λ out. Unit {0}) (dedupe (v ∷ vs) size) (λ out h. tt)
      (dedupe-Returns (λ c. Unit {0}) size (v ∷ vs) (units (v ∷ vs), omega arith) c)
