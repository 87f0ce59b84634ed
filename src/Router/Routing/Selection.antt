-- ===== src/Router/Routing/Selection.antt =====
-- router-legacy/router.py, `select`: the rules by which a request gets its backend.
use home_ailab.Prelude.{
  ℕ, ◌+◌, ◌*◌, ◌≤◌, ◌<◌, ◌≡◌, refl, sym, ap, ◌∙◌, ◌↔◌, inl, inr, String, Bool, true, false, Option,
  none, some, lookup, keys, Bool-cases, Option-cases, arith, truthy, ◌&&◌, if◌then◌else◌,
}
use mathlib.Core.Path.{subst}
use home_ailab.Router.Backends.{Backend, available}
use home_ailab.Router.Routing.{
  Router, Lease, can_use, usable, pinned, sticky, sticky_of, session_of, leased_backend,
  by_priority, or_else, choose, send, select, cleanup_sessions, is_expired,
}
use home_ailab.Router.Routing.Choosing.{IsNamed, IsFree, can_use_iff}
use home_ailab.Router.Routing.Cleaning.{cleanup_sessions-Cleaned, lease-stays, lease-absent}
use home_ailab.Router.Routing.Found.{
  IsFirst, by_priority-IsFirst, by_priority-none, choose-Found, choose-none,
}

abbrev pub name_of : Option Backend → Option String
name_of none = none
name_of (some b) = some b.name

-- the name that `select` returns
selected :
    (ttl now : ℕ) (sid force : Option String) (vision : Bool) (r : Router)
    → (select ttl now sid force vision r).1
      ≡ name_of (choose sid force vision (cleanup_sessions now r))
unfolding select
selected ttl now sid force vision r = at (choose sid force vision (cleanup_sessions now r))
  where
    at : (o : Option Backend) → (send (now + ttl) sid (cleanup_sessions now r) o).1 ≡ name_of o
    at none = refl
    at (some b) = refl

IsNamed-cleaned :
    (now : ℕ) (r : Router) → IsNamed r.backends → IsNamed (cleanup_sessions now r).backends
IsNamed-cleaned now r n = subst IsNamed (sym (cleanup_sessions-Cleaned now r).backends) n

-- A request gets no backend exactly if no backend of the router is healthy with a free slot.
pub select-none_iff :
    (ttl now : ℕ) (sid force : Option String) (vision : Bool) (r : Router)
    → IsNamed r.backends
    → ((select ttl now sid force vision r).1 ≡ none)
      ↔ ((k : String) (b : Backend) → lookup k r.backends ≡ some b → ¬ IsFree b)
select-none_iff ttl now sid force vision r n = (full, refused)
  where
    full :
        (select ttl now sid force vision r).1 ≡ none
        → (k : String) (b : Backend) → lookup k r.backends ≡ some b
        → ¬ IsFree b
    full h k b e f = elim (Option-cases (choose sid force vision (cleanup_sessions now r))) [
      | inl nothing ↦
          let cannot =
            by_priority-none sid (cleanup_sessions now r)
              (choose-none sid force vision (cleanup_sessions now r) nothing) k b
              (ap (lookup k) (cleanup_sessions-Cleaned now r).backends ∙ e) in
          let can = (can_use_iff b sid (cleanup_sessions now r)).1 f in cc
      | inr (c, chosen) ↦ cc (selected ttl now sid force vision r, ap name_of chosen)
    ]

    refused :
        ((k : String) (b : Backend) → lookup k r.backends ≡ some b → ¬ IsFree b)
        → (select ttl now sid force vision r).1 ≡ none
    refused h = elim (Option-cases (choose sid force vision (cleanup_sessions now r))) [
      | inl nothing ↦ selected ttl now sid force vision r ∙ ap name_of nothing
      | inr (c, chosen) ↦
          let f =
            choose-Found sid force vision (cleanup_sessions now r) c (IsNamed-cleaned now r n)
              chosen in
          absurd (
            h c.name c (ap (lookup c.name) (sym (cleanup_sessions-Cleaned now r).backends) ∙ f.here)
              f.free)
    ]

unpinned : (sid force : Option String) (r : Router) → pinned sid force false r ≡ none
unfolding pinned
unpinned sid none r = refl
unpinned sid (some force) r = refl

-- A request without an image, of no session or of one without a lease, goes to a free backend, and
-- no free backend has a smaller priority number.
pub select-IsFirst :
    (ttl now : ℕ) (sid force : Option String) (r : Router) (name : String)
    → IsNamed r.backends
    → ((s : String) → session_of sid ≡ some s → lookup s r.sessions ≡ none)
    → (select ttl now sid force false r).1 ≡ some name
    → (b : Backend) × (b.name ≡ name) × IsFirst b r
unfolding choose sticky cleanup_sessions
select-IsFirst ttl now sid force r name n new h =
    let q = cleanup_sessions now r in
    let loose : sticky sid q ≡ none = at (session_of sid) refl in
    let same : choose sid force false q ≡ by_priority sid q =
      ap (λ o. or_else o (or_else (sticky sid q) (by_priority sid q))) (unpinned sid force q)
      ∙ ap (λ o. or_else o (by_priority sid q)) loose in
    found (by_priority sid q) refl
      (ap name_of (sym same) ∙ sym (selected ttl now sid force false r) ∙ h)
  where
    at : (o : Option String) → session_of sid ≡ o → sticky_of o (cleanup_sessions now r) ≡ none
    at none e = refl
    at (some s) e =
        ap
          (λ l.
            usable (some s) (cleanup_sessions now r) (leased_backend (cleanup_sessions now r) l))
          (lease-absent now (keys r.sessions) s r (new s e))

    found :
        (o : Option Backend)
        → by_priority sid (cleanup_sessions now r) ≡ o
        → name_of o ≡ some name
        → (b : Backend) × (b.name ≡ name) × IsFirst b r
    found none e g = absurd (cc)
    found (some b) e g =
        let f = by_priority-IsFirst sid (cleanup_sessions now r) b (IsNamed-cleaned now r n) e in
        let back = (cleanup_sessions-Cleaned now r).backends in
        (
          b,
          cc,
          record {
            found = record {
              here = ap (lookup b.name) (sym back) ∙ f.found.here;
              free = f.found.free;
            };
            least = λ k c at_k free. f.least k c (ap (lookup k) back ∙ at_k) free;
          },
        )

usable-free :
    (sid : Option String) (r : Router) (k : String) (b : Backend)
    → lookup k r.backends ≡ some b
    → IsFree b
    → usable sid r (lookup k r.backends) ≡ some b
usable-free sid r k b e f =
    let can = (can_use_iff b sid r).1 f in
    let both : (b.healthy && can_use b sid r) ≡ true = ap (λ h. h && can_use b sid r) f.0 ∙ can in
    rw e (ap (λ c. if c then some b else none) both)

-- A request without an image of a session whose lease has not run out, or that has a request in
-- flight, goes to the backend of the lease if that is free, whatever the priorities.
pub select-sticks :
    (ttl now : ℕ) (s : String) (force : Option String) (r : Router) (lease : Lease) (b : Backend)
    → IsNamed r.backends
    → truthy s ≡ true
    → lookup s r.sessions ≡ some lease
    → is_expired now s lease r ≡ false
    → lookup lease.backend r.backends ≡ some b
    → IsFree b
    → (select ttl now (some s) force false r).1 ≡ some lease.backend
unfolding choose sticky cleanup_sessions
select-sticks ttl now s force r lease b n t e live at_b free =
    let q = cleanup_sessions now r in
    let here : lookup lease.backend q.backends ≡ some b =
      ap (lookup lease.backend) (cleanup_sessions-Cleaned now r).backends ∙ at_b in
    let sticks : sticky (some s) q ≡ some b =
      ap (λ c. sticky_of (if c then some s else none) q) t
      ∙ ap (λ l. usable (some s) q (leased_backend q l))
          (lease-stays now (keys r.sessions) s lease r e live)
      ∙ usable-free (some s) q lease.backend b here free in
    selected ttl now (some s) force false r
    ∙ ap (λ o. name_of (or_else o (or_else (sticky (some s) q) (by_priority (some s) q))))
        (unpinned (some s) force q)
    ∙ ap (λ o. name_of (or_else o (by_priority (some s) q))) sticks
    ∙ ap some (n.named lease.backend b at_b)

-- A request with an image goes to the vision backend if that is free, whatever its session.
pub select-pinned :
    (ttl now : ℕ) (sid : Option String) (force : String) (r : Router) (b : Backend)
    → IsNamed r.backends
    → truthy force ≡ true
    → lookup force r.backends ≡ some b
    → IsFree b
    → (select ttl now sid (some force) true r).1 ≡ some force
unfolding choose pinned
select-pinned ttl now sid force r b n t e free =
    let q = cleanup_sessions now r in
    let here : lookup force q.backends ≡ some b =
      ap (lookup force) (cleanup_sessions-Cleaned now r).backends ∙ e in
    let pins : pinned sid (some force) true q ≡ some b =
      ap (λ c. if c then usable sid q (lookup force q.backends) else none) t
      ∙ usable-free sid q force b here free in
    selected ttl now sid (some force) true r
    ∙ ap (λ o. name_of (or_else o (or_else (sticky sid q) (by_priority sid q)))) pins
    ∙ ap some (n.named force b e)

usable-none :
    (sid : Option String) (r : Router) (o : Option Backend)
    → ((b : Backend) → o ≡ some b → ¬ IsFree b)
    → usable sid r o ≡ none
usable-none sid r none h = refl
usable-none sid r (some b) h = elim (Bool-cases (b.healthy && can_use b sid r)) [
  | inl can ↦
      let c : can_use b sid r ≡ true = ground arith in absurd (h b refl ((can_use_iff b sid r).0 c))
  | inr cannot ↦ rw cannot refl
]

-- Where the vision backend is missing, down or full, a request with an image is treated as one
-- without: it spills to whatever backend its session or the priorities give.
pub select-spills :
    (ttl now : ℕ) (sid : Option String) (force : String) (r : Router)
    → ((b : Backend) → lookup force r.backends ≡ some b → ¬ IsFree b)
    → select ttl now sid (some force) true r ≡ select ttl now sid none false r
unfolding select choose pinned
select-spills ttl now sid force r h =
    let q = cleanup_sessions now r in
    let lost : pinned sid (some force) true q ≡ none = elim (Bool-cases (truthy force)) [
      | inr empty ↦ rw empty refl
      | inl real ↦ rw real (
          usable-none sid q (lookup force q.backends)
            (λ b e. h b (ap (lookup force) (sym (cleanup_sessions-Cleaned now r).backends) ∙ e)))
    ] in
    ap (λ o. send (now + ttl) sid q (or_else o (or_else (sticky sid q) (by_priority sid q)))) lost

-- A backend that reports the router's own requests as busy is given a request only while less than
-- half of its capacity is used: each request of the router is subtracted twice.
pub select-half_used :
    (ttl now : ℕ) (sid force : Option String) (vision : Bool) (r : Router) (name : String)
    (b : Backend)
    → IsNamed r.backends
    → (select ttl now sid force vision r).1 ≡ some name
    → lookup name r.backends ≡ some b
    → b.inflight ≤ b.busy
    → 2 * b.inflight < b.cap
select-half_used ttl now sid force vision r name b n h e own =
    elim (Option-cases (choose sid force vision (cleanup_sessions now r))) [
      | inl nothing ↦ absurd (cc (selected ttl now sid force vision r, ap name_of nothing))
      | inr (c, chosen) ↦
          let f =
            choose-Found sid force vision (cleanup_sessions now r) c (IsNamed-cleaned now r n)
              chosen in
          let there : lookup c.name r.backends ≡ some c =
            ap (lookup c.name) (sym (cleanup_sessions-Cleaned now r).backends) ∙ f.here in
          let named : some name ≡ some c.name =
            sym h ∙ selected ttl now sid force vision r ∙ ap name_of chosen in
          let same : some b ≡ some c = sym e ∙ cc in
          let bc : b ≡ c = cc in let room : 1 ≤ available b = rw bc f.free.1 in omega arith
    ]
