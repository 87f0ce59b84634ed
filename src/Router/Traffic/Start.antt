-- ===== src/Router/Traffic/Start.antt =====
-- router-legacy/router.py, `Router.__init__`: a new router is balanced.
use home_ailab.Prelude.{
  ◌≡◌, refl, sym, ap, ◌∙◌, inl, inr, String, some, List, [], ◌∷◌, lookup, keys, IsUnique, All,
  str_eq, eq_iff, Bool-cases, Option-cases, arith,
}
use home_ailab.Router.Backends.{Backend}
use home_ailab.Router.Routing.{by_name, new_router}
use home_ailab.Router.Traffic.{quiet}
use home_ailab.Router.Traffic.Slots.{held}
use home_ailab.Router.Traffic.Balance.{IsBalanced}

lookup-by_name :
    (bs : List Backend) (k : String) (b : Backend)
    → All (λ b. b.inflight ≡ 0) bs
    → lookup k (by_name bs) ≡ some b
    → (b.name ≡ k) × (b.inflight ≡ 0)
unfolding lookup by_name
lookup-by_name [] k b idle e = absurd (cc)
lookup-by_name (c ∷ cs) k b idle e = elim (Bool-cases (str_eq c.name k)) [
  | inl same ↦
      let found : c ≡ b = cc in
      (
        ap (λ x. x.name) (sym found) ∙ (eq_iff c.name k).0 same,
        ap (λ x. x.inflight) (sym found) ∙ idle.0,
      )
  | inr other ↦ lookup-by_name cs k b idle.1 (cc)
]

-- Backends under different names, none with a request, make a balanced router.
pub new_router-IsBalanced :
    (backends : List Backend)
    → IsUnique (keys (by_name backends))
    → All (λ b. b.inflight ≡ 0) backends
    → IsBalanced (quiet (new_router backends))
unfolding new_router lookup
new_router-IsBalanced backends unique idle = record {
  sound = record {
    unique = unique;
    named = λ k b e. (lookup-by_name backends k b idle e).0;
    bounded = λ k b e. omega (arith, (lookup-by_name backends k b idle e).1);
  };
  slots = λ name. elim (Option-cases (lookup name (by_name backends))) [
    | inl absent ↦ ap held absent
    | inr (b, e) ↦ ap held e ∙ (lookup-by_name backends name b idle e).1
  ];
  sessions = λ sid. refl;
  leased = λ sid h. absurd (omega arith);
  total = refl;
}
