-- ===== src/Router/Routing/Cleaning.antt =====
-- router-legacy/router.py, `_cleanup_sessions`: which leases go, and what stays.
use home_ailab.Prelude.{
  ℕ, ◌<◌, ◌≡◌, refl, ap, ◌∙◌, inl, inr, String, false, ◌&&◌, Option, none, some, List, [], ◌∷◌,
  lookup, keys, Bool-cases, arith, eq_iff, leb, str_eq, ◌==◌, lookup-erase,
}
use home_ailab.Router.Routing.{
  Router, Lease, count_of, is_expired, drop_expired, cleanup_all, cleanup_sessions,
}

-- what a cleanup leaves alone
pub record Cleaned (r q : Router) : Type 0 where
  pub backends : q.backends ≡ r.backends
  pub counts : (j : String) → count_of j q.inflight_by_session ≡ count_of j r.inflight_by_session
  pub flight : q.g_req_inflight ≡ r.g_req_inflight
  pub busy_leases :
      (j : String)
      → 0 < count_of j r.inflight_by_session
      → lookup j q.sessions ≡ lookup j r.sessions

Cleaned-refl : (r : Router) → Cleaned r r
Cleaned-refl r = record {
  backends = refl;
  counts = λ j. refl;
  flight = refl;
  busy_leases = λ j h. refl;
}

Cleaned-trans : (r s q : Router) → Cleaned r s → Cleaned s q → Cleaned r q
Cleaned-trans r s q a b = record {
  backends = b.backends ∙ a.backends;
  counts = λ j. b.counts j ∙ a.counts j;
  flight = b.flight ∙ a.flight;
  busy_leases = λ j h. b.busy_leases j (rw (a.counts j) h) ∙ a.busy_leases j h;
}

drop_expired-Cleaned :
    (now : ℕ) (sid : String) (o : Option Lease) (r : Router) → Cleaned r (drop_expired now sid o r)
drop_expired-Cleaned now sid none r = Cleaned-refl r
drop_expired-Cleaned now sid (some lease) r = elim (Bool-cases (is_expired now sid lease r)) [
  | inr kept ↦ rw kept (Cleaned-refl r)
  | inl gone ↦
      let idle : count_of sid r.inflight_by_session ≡ 0 = ground arith in
      rw gone (record {
        backends = refl;
        counts = λ j. ground (arith, lookup-erase sid j r.inflight_by_session, eq_iff sid j);
        flight = refl;
        busy_leases = λ j h. ground (arith, lookup-erase sid j r.sessions, eq_iff sid j);
      })
]

cleanup_all-Cleaned :
    (now : ℕ) (sids : List String) (r : Router) → Cleaned r (cleanup_all now sids r)
unfolding cleanup_all
cleanup_all-Cleaned now [] r = Cleaned-refl r
cleanup_all-Cleaned now (sid ∷ sids) r =
    let q = drop_expired now sid (lookup sid r.sessions) r in
    Cleaned-trans r q (cleanup_all now sids q)
      (drop_expired-Cleaned now sid (lookup sid r.sessions) r) (cleanup_all-Cleaned now sids q)

pub cleanup_sessions-Cleaned : (now : ℕ) (r : Router) → Cleaned r (cleanup_sessions now r)
unfolding cleanup_sessions
cleanup_sessions-Cleaned now r = cleanup_all-Cleaned now (keys r.sessions) r

-- a lease that has not run out, or whose session has a request in flight, stays
pub lease-stays :
    (now : ℕ) (sids : List String) (j : String) (lease : Lease) (r : Router)
    → lookup j r.sessions ≡ some lease
    → is_expired now j lease r ≡ false
    → lookup j (cleanup_all now sids r).sessions ≡ some lease
unfolding cleanup_all
lease-stays now [] j lease r e kept = e
lease-stays now (sid ∷ sids) j lease r e kept =
    let q = drop_expired now sid (lookup sid r.sessions) r in
    let clean = drop_expired-Cleaned now sid (lookup sid r.sessions) r in
    lease-stays now sids j lease q (here (lookup sid r.sessions) refl)
      (ap (λ n. leb lease.expires_at now && (n == 0)) (clean.counts j) ∙ kept)
  where
    here :
        (o : Option Lease)
        → lookup sid r.sessions ≡ o
        → lookup j (drop_expired now sid o r).sessions ≡ some lease
    here none f = e
    here (some l) f = elim (Bool-cases (is_expired now sid l r)) [
      | inr still ↦ rw still e
      | inl gone ↦ elim (Bool-cases (str_eq sid j)) [
        | inl same ↦ let at : sid ≡ j = (eq_iff sid j).0 same in absurd (cc)
        | inr other ↦ rw gone (lookup-erase sid j r.sessions ∙ rw other e)
      ]
    ]

-- a session without a lease gets none
pub lease-absent :
    (now : ℕ) (sids : List String) (j : String) (r : Router)
    → lookup j r.sessions ≡ none
    → lookup j (cleanup_all now sids r).sessions ≡ none
unfolding cleanup_all
lease-absent now [] j r e = e
lease-absent now (sid ∷ sids) j r e =
    lease-absent now sids j (drop_expired now sid (lookup sid r.sessions) r)
      (here (lookup sid r.sessions))
  where
    here : (o : Option Lease) → lookup j (drop_expired now sid o r).sessions ≡ none
    here none = e
    here (some l) = elim (Bool-cases (is_expired now sid l r)) [
      | inr still ↦ rw still e
      | inl gone ↦ rw gone (lookup-erase sid j r.sessions ∙ ground arith)
    ]
