-- ===== src/Router/Routing/Found.antt =====
-- router-legacy/router.py, `select`: the backend that takes a request is one of the router, is up and
-- has a slot; and which of several it is.
use home_ailab.Prelude.{
  ◌≤◌, ◌≡◌, sym, ap, ◌∙◌, inl, inr, String, Bool, true, false, Option, none, some, lookup, values,
  Bool-cases, Option-cases, truthy, ◌&&◌,
}
use home_ailab.Router.Backends.{Backend}
use home_ailab.Router.Routing.{
  Router, Router, can_use, usable, pinned, sticky, sticky_of, session_of, leased_backend,
  by_priority, sort_by_priority, or_else, choose,
}
use home_ailab.Router.Routing.Choosing.{
  IsNamed, Found, IsFree, can_use_iff, usable-Found, first_usable-All, first_usable-none,
  first_usable-least, sort_by_priority-All, sort_by_priority-All_back, sort_by_priority-IsSorted,
  All-values, lookup-All,
}

-- The backend is free, and no free backend has a higher priority (a smaller number).
pub record IsFirst (b : Backend) (r : Router) : Type 0 where
  pub found : Found b r
  pub least :
      (k : String) (c : Backend) → lookup k r.backends ≡ some c → IsFree c → b.priority ≤ c.priority

pub by_priority-IsFirst :
    (sid : Option String) (r : Router) (b : Backend)
    → IsNamed r.backends
    → by_priority sid r ≡ some b
    → IsFirst b r
unfolding by_priority
by_priority-IsFirst sid r b n h =
    let bs = sort_by_priority (values r.backends) in
    let all =
      All-values (λ (c : Backend). lookup c.name r.backends ≡ some c) r.backends n.unique
        (λ k c e. ap (λ x. lookup x r.backends) (n.named k c e) ∙ e) in
    let got = first_usable-All _ sid r bs b (sort_by_priority-All _ (values r.backends) all) h in
    let least =
      sort_by_priority-All_back _ (values r.backends)
        (first_usable-least sid r bs b (sort_by_priority-IsSorted (values r.backends)) h) in
    record {
      found = record { here = got.0; free = (can_use_iff b sid r).0 got.1 };
      least = λ k c e f.
          lookup-All (λ (c : Backend). can_use c sid r ≡ true → b.priority ≤ c.priority) r.backends
            k c least e ((can_use_iff c sid r).1 f);
    }

pub by_priority-none :
    (sid : Option String) (r : Router)
    → by_priority sid r ≡ none
    → (k : String) (c : Backend) → lookup k r.backends ≡ some c
    → can_use c sid r ≡ false
unfolding by_priority
by_priority-none sid r h k c e =
    lookup-All (λ (c : Backend). can_use c sid r ≡ false) r.backends k c
      (sort_by_priority-All_back _ (values r.backends)
        (first_usable-none sid r (sort_by_priority (values r.backends)) h))
      e

pub pinned-Found :
    (sid force : Option String) (vision : Bool) (r : Router) (b : Backend)
    → IsNamed r.backends
    → pinned sid force vision r ≡ some b
    → Found b r × (force ≡ some b.name)
unfolding pinned
pinned-Found sid none vision r b n h = absurd (cc)
pinned-Found sid (some force) vision r b n h = elim (Bool-cases (vision && truthy force)) [
  | inl pin ↦
      let u : usable sid r (lookup force r.backends) ≡ some b = cc in
      let f = usable-Found sid r force b n u in (f.0, ap some (sym f.1))
  | inr free ↦ absurd (cc)
]

sticky_of-Found :
    (o : Option String) (r : Router) (b : Backend)
    → IsNamed r.backends
    → sticky_of o r ≡ some b
    → Found b r
sticky_of-Found none r b n h = absurd (cc)
sticky_of-Found (some sid) r b n h = elim (Option-cases (lookup sid r.sessions)) [
  | inl absent ↦ absurd (cc)
  | inr (l, e) ↦
      (usable-Found (some sid) r l.backend b n
        (sym (ap (λ l. usable (some sid) r (leased_backend r l)) e) ∙ h)).0
]

pub choose-Found :
    (sid force : Option String) (vision : Bool) (r : Router) (b : Backend)
    → IsNamed r.backends
    → choose sid force vision r ≡ some b
    → Found b r
unfolding choose sticky
choose-Found sid force vision r b n h = elim (Option-cases (pinned sid force vision r)) [
  | inr (c, e) ↦
      (pinned-Found sid force vision r b n
        (e ∙ sym (ap (λ o. or_else o (or_else (sticky sid r) (by_priority sid r))) e) ∙ h)).0
  | inl e ↦ elim (Option-cases (sticky sid r)) [
    | inr (c, e') ↦ sticky_of-Found (session_of sid) r b n (cc)
    | inl e' ↦ (by_priority-IsFirst sid r b n (cc)).found
  ]
]

-- no backend takes the request only if none is free
pub choose-none :
    (sid force : Option String) (vision : Bool) (r : Router)
    → choose sid force vision r ≡ none
    → by_priority sid r ≡ none
unfolding choose
choose-none sid force vision r h = elim (Option-cases (pinned sid force vision r)) [
  | inr (c, e) ↦ absurd (cc (ap (λ o. or_else o (or_else (sticky sid r) (by_priority sid r))) e))
  | inl e ↦ elim (Option-cases (sticky sid r)) [ inr (c, e') ↦ absurd (cc) | inl e' ↦ cc ]
]
