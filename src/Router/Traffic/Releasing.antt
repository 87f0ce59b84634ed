-- ===== src/Router/Traffic/Releasing.antt =====
-- router-legacy/router.py, `release`: the counters once a request is over.
use home_ailab.Prelude.{
  ℕ, ◌+◌, ◌-◌, ◌<◌, ◌≡◌, refl, sym, ap, ◌∙◌, inl, inr, String, Bool, Option, none, some, Dict,
  lookup, insert, has, has-insert, lookup-insert, lookup-erase, eq_iff, str_eq, Bool-cases,
  Option-cases, arith, get_elem?, if◌then◌else◌,
}
use mathlib.Core.Path.{subst}
use home_ailab.Router.Routing.{
  Router, Lease, session_of, count_of, count_down, renewed, finish_on, release_session, put_backend,
}
use home_ailab.Router.Traffic.{Request, Traffic, remove_at, is_on, is_of, has_session}
use home_ailab.Router.Traffic.Slots.{IsSound, held, replaced-IsSound, held-replaced}
use home_ailab.Router.Traffic.Balance.{
  IsBalancedWith, IsBalanced, count_where-remove_at, length-remove_at,
}

count_of-count_down :
    (sid j : String) (d : Dict ℕ)
    → count_of j (count_down sid d) ≡ count_of j d - (if str_eq sid j then 1 else 0)
count_of-count_down sid j d = ground (
  arith,
  lookup-insert sid j (count_of sid d - 1) d,
  lookup-insert sid sid (count_of sid d - 1) d,
  lookup-erase sid j (insert sid (count_of sid d - 1) d),
  eq_iff sid j,
  eq_iff sid sid,
)

has-renewed :
    (expiry : ℕ) (name sid j : String) (d : Dict Lease)
    → has j (renewed expiry name sid (lookup sid d) d) ≡ has j d
has-renewed expiry name sid j d = elim (Option-cases (lookup sid d)) [
  | inl absent ↦ rw absent refl
  | inr (l, e) ↦ rw e (elim (Bool-cases (str_eq l.backend name)) [
    | inr other ↦ rw other refl
    | inl same ↦ rw same (has-insert sid j _ d ∙ ground (arith, eq_iff sid j))
  ])
]

-- a request of a session and a backend that are charged for it
module _ (ttl now : ℕ) (done : Bool) (bytes : ℕ) (t : Traffic) (i : ℕ) (q : Request) where
  abbrev pub freed : Router
  freed = put_backend done bytes q.backend (lookup q.backend t.router.backends) t.router

  abbrev pub let_go : Router
  let_go = release_session (now + ttl) q.backend (session_of q.session) freed

  held-freed :
      (name : String)
      → 0 < held (lookup q.backend t.router.backends)
      → held (lookup name freed.backends) + (if is_on name q then 1 else 0)
        ≡ held (lookup name t.router.backends)
  held-freed name h = elim (Option-cases (lookup q.backend t.router.backends)) [
    | inl absent ↦ absurd (ground arith)
    | inr (b, e) ↦
        let pos : 0 < b.inflight = ground arith in
        rw e (
          ap (λ n. n + (if is_on name q then 1 else 0))
            (held-replaced q.backend name (finish_on done bytes b) t.router.backends)
          ∙ ground (arith, eq_iff q.backend name))
  ]

  freed-IsSound : IsSound t.router.backends → IsSound freed.backends
  freed-IsSound v = elim (Option-cases (lookup q.backend t.router.backends)) [
    | inl absent ↦ rw absent v
    | inr (b, e) ↦
        let bound = v.bounded q.backend b e in
        rw e (
          replaced-IsSound q.backend (finish_on done bytes b) t.router.backends v
            (v.named q.backend b e) (omega arith))
  ]

  freed-same :
      (freed.sessions ≡ t.router.sessions)
      × (freed.inflight_by_session ≡ t.router.inflight_by_session)
      × (freed.g_req_inflight ≡ t.router.g_req_inflight)
  freed-same = elim (Option-cases (lookup q.backend t.router.backends)) [
    | inl absent ↦ rw absent (refl, refl, refl)
    | inr (b, e) ↦ rw e (refl, refl, refl)
  ]

  let_go-same : (let_go.backends ≡ freed.backends) × (let_go.g_req_inflight ≡ freed.g_req_inflight)
  let_go-same = at (session_of q.session)
    where
      at :
          (o : Option String)
          → ((release_session (now + ttl) q.backend o freed).backends ≡ freed.backends)
            × ((release_session (now + ttl) q.backend o freed).g_req_inflight
                ≡ freed.g_req_inflight)
      at none = (refl, refl)
      at (some s) = (refl, refl)

  count_of-let_go :
      (j : String)
      → count_of j let_go.inflight_by_session
        ≡ count_of j freed.inflight_by_session - (if is_of j q then 1 else 0)
  count_of-let_go j = at (session_of q.session)
    where
      at :
          (o : Option String)
          → count_of j (release_session (now + ttl) q.backend o freed).inflight_by_session
            ≡ count_of j freed.inflight_by_session - (if has_session j o then 1 else 0)
      at none = omega arith
      at (some s) = count_of-count_down s j freed.inflight_by_session

  has-let_go : (j : String) → has j let_go.sessions ≡ has j freed.sessions
  has-let_go j = at (session_of q.session)
    where
      at :
          (o : Option String)
          → has j (release_session (now + ttl) q.backend o freed).sessions ≡ has j freed.sessions
      at none = refl
      at (some s) = has-renewed (now + ttl) q.backend s j freed.sessions

  pub let_go-IsBalanced :
      get_elem? t.under_way i ≡ some q
      → IsBalanced t
      → IsBalancedWith 1 (record t { router = let_go; under_way = remove_at i t.under_way })
  let_go-IsBalanced e v =
      let out = λ (p : Request → Bool). count_where-remove_at p t.under_way i q e in
      let on : 0 < held (lookup q.backend t.router.backends) =
        ground (arith, v.slots q.backend, out (is_on q.backend), eq_iff q.backend q.backend) in
      record {
        sound = subst IsSound (sym let_go-same.0) (freed-IsSound v.sound);
        slots = λ name.
            ap (λ d. held (lookup name d)) let_go-same.0
            ∙ omega (arith, held-freed name on, v.slots name, out (is_on name));
        sessions = λ j.
            count_of-let_go j
            ∙ omega (arith, ap (count_of j) freed-same.1, v.sessions j, out (is_of j));
        leased = λ j h.
            has-let_go j ∙ ap (has j) freed-same.0 ∙ v.leased j (omega (arith, out (is_of j)));
        total =
            omega (arith, let_go-same.1, freed-same.2, v.total, length-remove_at t.under_way i q e);
      }
