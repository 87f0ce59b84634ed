-- ===== src/Router/Traffic/Balance.antt =====
-- router-legacy/router.py: the counters of the router against the requests that it serves.
use home_ailab.Prelude.{
  ℕ, zero, suc, ◌+◌, ◌<◌, ◌≡◌, refl, sym, ap, ◌∙◌, String, Bool, true, Option, none, some, List, [],
  ◌∷◌, lookup, insert, has, has-insert, is_some, lookup-insert, eq_iff, arith, get_elem?, length,
  if◌then◌else◌,
}
use mathlib.Core.Path.{subst}
use home_ailab.Router.Backends.{Backend}
use home_ailab.Router.Routing.{Router, session_of, count_of, lease_to, occupy, commit, on_dispatch}
use home_ailab.Router.Routing.Choosing.{Found}
use home_ailab.Router.Routing.Cleaning.{Cleaned}
use home_ailab.Router.Traffic.{Request, Traffic, remove_at, count_where, is_on, is_of, has_session}
use home_ailab.Router.Traffic.Slots.{
  IsSound, held, replaced-IsSound, held-replaced, note_dispatch-IsSound, held-note_dispatch,
}

-- the requests that satisfy a test, under way or lost
abbrev pub charged : (Request → Bool) → Traffic → ℕ
charged p t = count_where p t.under_way + count_where p t.lost

-- The counters are right: a backend's `inflight`, a session's count and the total count the requests
-- under way and those that were lost, with `extra` more in total, and a session with such a request
-- has a lease.
pub record IsBalancedWith (extra : ℕ) (t : Traffic) : Type 0 where
  pub sound : IsSound t.router.backends
  pub slots : (name : String) → held (lookup name t.router.backends) ≡ charged (is_on name) t
  pub sessions : (sid : String) → count_of sid t.router.inflight_by_session ≡ charged (is_of sid) t
  pub leased : (sid : String) → 0 < charged (is_of sid) t → has sid t.router.sessions ≡ true
  pub total : t.router.g_req_inflight ≡ length t.under_way + length t.lost + extra

abbrev pub IsBalanced : Traffic → Type 0
IsBalanced t = IsBalancedWith 0 t

pub count_where-remove_at :
    (p : Request → Bool) (qs : List Request) (i : ℕ) (q : Request)
    → get_elem? qs i ≡ some q
    → count_where p (remove_at i qs) + (if p q then 1 else 0) ≡ count_where p qs
count_where-remove_at p [] i q e = absurd (cc)
count_where-remove_at p (x ∷ qs) zero q e = let same : x ≡ q = cc in rw (sym same) refl
count_where-remove_at p (x ∷ qs) (suc i) q e = omega (arith, count_where-remove_at p qs i q e)

pub length-remove_at :
    (qs : List Request) (i : ℕ) (q : Request)
    → get_elem? qs i ≡ some q
    → length (remove_at i qs) + 1 ≡ length qs
length-remove_at [] i q e = absurd (cc)
length-remove_at (x ∷ qs) zero q e = omega arith
length-remove_at (x ∷ qs) (suc i) q e = omega (arith, length-remove_at qs i q e)

-- the count of a session after one more of its requests
count_of-lease_to :
    (expiry : ℕ) (sid : Option String) (name j : String) (r : Router)
    → count_of j (lease_to expiry (session_of sid) name r).inflight_by_session
      ≡ count_of j r.inflight_by_session + (if has_session j (session_of sid) then 1 else 0)
count_of-lease_to expiry sid name j r = at (session_of sid)
  where
    at :
        (o : Option String)
        → count_of j (lease_to expiry o name r).inflight_by_session
          ≡ count_of j r.inflight_by_session + (if has_session j o then 1 else 0)
    at none = omega arith
    at (some s) = ground (
      arith,
      lookup-insert s j (count_of s r.inflight_by_session + 1) r.inflight_by_session,
      eq_iff s j,
    )

has-lease_to :
    (expiry : ℕ) (sid : Option String) (name j : String) (r : Router)
    → has j (lease_to expiry (session_of sid) name r).sessions
      ≡ (if has_session j (session_of sid) then true else has j r.sessions)
has-lease_to expiry sid name j r = at (session_of sid)
  where
    at :
        (o : Option String)
        → has j (lease_to expiry o name r).sessions
          ≡ (if has_session j o then true else has j r.sessions)
    at none = refl
    at (some s) = has-insert s j _ r.sessions

backends-lease_to :
    (expiry : ℕ) (o : Option String) (name : String) (r : Router)
    → ((lease_to expiry o name r).backends ≡ r.backends)
      × ((lease_to expiry o name r).g_req_inflight ≡ r.g_req_inflight)
backends-lease_to expiry none name r = (refl, refl)
backends-lease_to expiry (some s) name r = (refl, refl)

-- cleaning up keeps the balance
pub Cleaned-IsBalanced :
    (extra : ℕ) (r : Router) (t : Traffic)
    → Cleaned t.router r
    → IsBalancedWith extra t
    → IsBalancedWith extra (record t { router = r })
Cleaned-IsBalanced extra r t c v = record {
  sound = subst IsSound (sym c.backends) v.sound;
  slots = λ name. ap (λ d. held (lookup name d)) c.backends ∙ v.slots name;
  sessions = λ sid. c.counts sid ∙ v.sessions sid;
  leased = λ sid h. ap is_some (c.busy_leases sid (rw (v.sessions sid) h)) ∙ v.leased sid h;
  total = c.flight ∙ v.total;
}

-- a request that is sent to a free backend
pub sent-IsBalanced :
    (expiry bytes : ℕ) (sid : Option String) (b : Backend) (t : Traffic)
    → Found b t.router
    → IsBalanced t
    → IsBalanced (record t {
      router = on_dispatch b.name bytes (commit expiry sid b t.router);
      under_way = record { backend = b.name; session = sid } ∷ t.under_way;
    })
unfolding on_dispatch commit
sent-IsBalanced expiry bytes sid b t f v =
    let d = insert b.name (occupy b) t.router.backends in
    let r = record t.router { backends = d } in
    let q = lease_to expiry (session_of sid) b.name r in
    let same = backends-lease_to expiry (session_of sid) b.name r in
    let filled : IsSound d =
      replaced-IsSound b.name (occupy b) t.router.backends v.sound refl (omega (arith, f.free.1)) in
    record {
      sound = note_dispatch-IsSound bytes b.name q.backends (subst IsSound (sym (same.0)) filled);
      slots = λ name.
          held-note_dispatch bytes b.name name q.backends
          ∙ ap (λ x. held (lookup name x)) same.0
          ∙ held-replaced b.name name (occupy b) t.router.backends
          ∙ ground (arith, v.slots name, eq_iff b.name name, f.here);
      sessions = λ j. omega (arith, count_of-lease_to expiry sid b.name j r, v.sessions j);
      leased = λ j h. has-lease_to expiry sid b.name j r ∙ ground (arith, v.leased j);
      total = omega (arith, same.1, v.total);
    }
