-- ===== src/Llmbench/Plans/Fitting.antt =====
-- llmbench/src/llmbench/planner/plan.py: which plans keep within the limits that they are given.
use home_ailab.Prelude.{
  ℕ, zero, suc, ◌≤◌, ◌<◌, ◌≡◌, refl, true, false, Option, some, List, [], ◌∷◌, Returns,
  Returns-bind, map, leb, All, All-append, All-append_back, arith,
}
use home_ailab.Llmbench.Cells.{WorkloadCell}
use home_ailab.Llmbench.Plans.{
  within, dedupe, sort_set, representative_context, for_each, take, light_plan, heavy_plan,
  default_isl, default_osl, concurrency_ladder, baseline, both_caches, dense, outputs, scaling,
}
use home_ailab.Llmbench.Plans.Limits.{
  within-All, AllSome, dedupe-Returns, dedupe_known, context_known, representative_context-Returns,
}

for_each-All {ℓ κ ι} :
    {A : Type ℓ} (P : A → Type κ) (Q : WorkloadCell → Type ι) (f : A → List WorkloadCell)
    (xs : List A)
    → ((x : A) → P x → All Q (f x))
    → All P xs
    → All Q (for_each f xs)
unfolding for_each
for_each-All P Q f [] h a = tt
for_each-All P Q f (x ∷ xs) h a =
    All-append Q (f x) (for_each f xs) (h x a.0) (for_each-All P Q f xs h a.1)

map-All {ℓ κ ι} :
    {A : Type ℓ} (P : A → Type κ) (Q : WorkloadCell → Type ι) (f : A → WorkloadCell) (xs : List A)
    → ((x : A) → P x → Q (f x))
    → All P xs
    → All Q (map f xs)
map-All P Q f [] h a = tt
map-All P Q f (x ∷ xs) h a = (h x a.0, map-All P Q f xs h a.1)

take-All {ℓ κ} : {A : Type ℓ} (P : A → Type κ) (n : ℕ) (xs : List A) → All P xs → All P (take n xs)
unfolding take
take-All P zero xs a = tt
take-All P (suc n) [] a = tt
take-All P (suc n) (x ∷ xs) a = (a.0, take-All P n xs a.1)

-- The cell keeps within a context of `m` tokens and `k` requests at once.
pub record Fits (m k : ℕ) (c : WorkloadCell) : Type 0 where
  pub context : c.input_tokens ≤ m
  pub requests : c.concurrency ≤ k

module _ (m k : ℕ) (some_context : 128 ≤ m) where
  contexts : AllSome (λ c. c ≤ m) (within (some m) default_isl)
  unfolding within
  contexts = (within-All m default_isl, rw (leb_true) (omega arith))
    where
      leb_true : leb 128 m ≡ true
      leb_true = ground arith

  -- A light plan keeps within the limits, if these let a request of 128 tokens pass.
  pub light_plan-Fits : 1 ≤ k → Returns (All (Fits m k)) (light_plan (some m) (some k))
  unfolding light_plan
  light_plan-Fits one =
      Returns-bind _ (All (Fits m k)) (dedupe (within (some m) default_isl) 6) _
        (dedupe-Returns (λ c. c ≤ m) 6 (within (some m) default_isl) contexts (omega arith))
        (λ ctxs a.
          Returns-bind _ (All (Fits m k)) (representative_context ctxs) _
            (representative_context-Returns (λ c. c ≤ m) ctxs a)
            (λ mid b.
              All-append (Fits m k) (for_each baseline ctxs) _
                (for_each-All (λ c. c ≤ m) (Fits m k) baseline ctxs
                  (λ c h. (
                    record { context = h; requests = one },
                    (record { context = h; requests = one }, tt),
                  ))
                  a.0)
                (All-append (Fits m k) (map (scaling mid) (within (some k) concurrency_ladder)) _
                  (map-All (λ c. c ≤ k) (Fits m k) (scaling mid)
                    (within (some k) concurrency_ladder)
                    (λ c h. record { context = b; requests = h }) (within-All k concurrency_ladder))
                  (for_each-All (λ c. c ≤ m) (Fits m k) both_caches (take 2 ctxs)
                    (λ c h. (
                      record { context = h; requests = one },
                      (record { context = h; requests = one }, tt),
                    ))
                    (take-All (λ c. c ≤ m) 2 ctxs a.0)))))

  -- A heavy plan keeps within the context, and within the requests at once if these are four or more.
  pub heavy_plan-Fits : 4 ≤ k → Returns (All (Fits m k)) (heavy_plan (some m) (some k))
  unfolding heavy_plan
  heavy_plan-Fits four =
      let one : 1 ≤ k = omega arith in
      Returns-bind _ (All (Fits m k)) (dedupe (within (some m) default_isl) 8) _
        (dedupe-Returns (λ c. c ≤ m) 8 (within (some m) default_isl) contexts (omega arith))
        (λ ctxs a.
          Returns-bind _ (All (Fits m k)) (representative_context ctxs) _
            (representative_context-Returns (λ c. c ≤ m) ctxs a)
            (λ mid b.
              All-append (Fits m k) (for_each (dense (within (some k) concurrency_ladder)) ctxs) _
                (for_each-All (λ c. c ≤ m) (Fits m k) (dense (within (some k) concurrency_ladder))
                  ctxs
                  (λ c h.
                    map-All (λ x. x ≤ k) (Fits m k) _ (take 4 (within (some k) concurrency_ladder))
                      (λ x g. record { context = h; requests = g })
                      (take-All (λ x. x ≤ k) 4 (within (some k) concurrency_ladder)
                        (within-All k concurrency_ladder)))
                  a.0)
                (All-append (Fits m k) (for_each (outputs mid) default_osl) _
                  (for_each-All (λ (o : ℕ). Unit {0}) (Fits m k) (outputs mid) default_osl
                    (λ o h. (
                      record { context = b; requests = one },
                      (record { context = b; requests = four }, tt),
                    ))
                    (tt, (tt, (tt, (tt, (tt, (tt, tt)))))))
                  (All-append (Fits m k) (for_each both_caches (take 4 ctxs)) _
                    (for_each-All (λ c. c ≤ m) (Fits m k) both_caches (take 4 ctxs)
                      (λ c h. (
                        record { context = h; requests = one },
                        (record { context = h; requests = one }, tt),
                      ))
                      (take-All (λ c. c ≤ m) 4 ctxs a.0))
                    (record { context = b; requests = one }, tt)))))

-- A heavy plan exceeds a limit of fewer than four requests at once, whatever limit of the context is
-- given, and if none is.
pub heavy_plan-exceeds :
    (max_context : Option ℕ) (k : ℕ)
    → k < 4
    → Returns (λ plan. ¬ All (λ c. c.concurrency ≤ k) plan) (heavy_plan max_context (some k))
unfolding heavy_plan for_each
heavy_plan-exceeds max_context k few =
    Returns-bind (λ c. Unit {0}) _ (dedupe (within max_context default_isl) 8) _
      (dedupe_known 8 (within max_context default_isl) (omega arith))
      (λ ctxs u.
        Returns-bind (λ c. Unit {0}) _ (representative_context ctxs) _ (context_known ctxs)
          (λ mid v all.
            let rest =
              (All-append_back (λ c. c.concurrency ≤ k)
                (for_each (dense (within (some k) concurrency_ladder)) ctxs) _ all).1 in
            let second : 4 ≤ k = rest.1.0 in omega arith))

within-nil : (limit : ℕ) (vals : List ℕ) → All (λ c. limit < c) vals → within (some limit) vals ≡ []
unfolding within
within-nil limit [] a = refl
within-nil limit (c ∷ cs) a =
    let big : leb c limit ≡ false = big_lem a.0 in rw big (within-nil limit cs a.1)
  where
    big_lem : limit < c → leb c limit ≡ false
    big_lem h = ground arith

-- Where the context is below 128 tokens, a light plan asks for 4096.
pub light_plan-exceeds :
    (m k : ℕ)
    → m < 128
    → 1 ≤ k
    → Returns (λ plan. ¬ All (λ c. c.input_tokens ≤ m) plan) (light_plan (some m) (some k))
unfolding light_plan for_each within dedupe sort_set representative_context
light_plan-exceeds m k small one =
    let none_fits : within (some m) default_isl ≡ [] = within-nil m default_isl (omega arith) in
    let first : leb 1 k ≡ true = ground arith in
    rw none_fits (rw first (λ all. let big : 4096 ≤ m = all.0 in omega arith))
