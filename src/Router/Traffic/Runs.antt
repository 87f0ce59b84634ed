-- ===== src/Router/Traffic/Runs.antt =====
-- router-legacy/router.py: the balance of the counters at every point of a run.
use home_ailab.Prelude.{
  ℕ, ◌+◌, ◌≡◌, refl, sym, ◌∙◌, String, Bool, Option, none, some, List, [], ◌∷◌, lookup, eq_iff,
  arith, get_elem?,
}
use home_ailab.Router.Backends.{Backend, Answers, Parsing, probe_backend}
use home_ailab.Router.Routing.{Router, select, send, choose, release, on_finish, cleanup_sessions}
use home_ailab.Router.Routing.Cleaning.{cleanup_sessions-Cleaned}
use home_ailab.Router.Routing.Found.{choose-Found}
use home_ailab.Router.Traffic.{
  Request, Traffic, Event, probed, arrived, ended, unreachable, remove_at, is_on, is_of, step, run,
  dispatched, finish, lose, write_probe,
}
use home_ailab.Router.Traffic.Slots.{probe_backend-Probed, replaced-IsSound, held-replaced}
use home_ailab.Router.Traffic.Balance.{
  IsBalanced, charged, Cleaned-IsBalanced, sent-IsBalanced, count_where-remove_at, length-remove_at,
}
use home_ailab.Router.Traffic.Releasing.{let_go, let_go-IsBalanced}

count_where-cons_swap :
    (p : Request → Bool) (t : Traffic) (i : ℕ) (q : Request)
    → get_elem? t.under_way i ≡ some q
    → charged p (record t { under_way = remove_at i t.under_way; lost = q ∷ t.lost }) ≡ charged p t
count_where-cons_swap p t i q e = omega (arith, count_where-remove_at p t.under_way i q e)

lose-IsBalanced :
    (i : ℕ) (o : Option Request) (t : Traffic)
    → get_elem? t.under_way i ≡ o
    → IsBalanced t
    → IsBalanced (lose i o t)
lose-IsBalanced i none t e v = v
lose-IsBalanced i (some q) t e v = record {
  sound = v.sound;
  slots = λ name. v.slots name ∙ sym (count_where-cons_swap (is_on name) t i q e);
  sessions = λ j. v.sessions j ∙ sym (count_where-cons_swap (is_of j) t i q e);
  leased = λ j h. v.leased j (omega (arith, count_where-cons_swap (is_of j) t i q e));
  total = omega (arith, v.total, length-remove_at t.under_way i q e);
}

module _ (parsing : Parsing) (ttl : ℕ) where
  write_probe-IsBalanced :
      (now : ℕ) (name : String) (answers : Answers) (o : Option Backend) (t : Traffic)
      → lookup name t.router.backends ≡ o
      → IsBalanced t
      → IsBalanced (record t { router = write_probe parsing ttl now name answers o t.router })
  write_probe-IsBalanced now name answers none t e v = v
  write_probe-IsBalanced now name answers (some b) t e v =
      let p = probe_backend-Probed parsing now answers b in
      let bound = v.sound.bounded name b e in
      record {
        sound =
            replaced-IsSound name (probe_backend parsing now answers b) t.router.backends v.sound
              (p.name ∙ v.sound.named name b e) (omega (arith, p.cap, p.inflight));
        slots = λ j.
            held-replaced name j (probe_backend parsing now answers b) t.router.backends
            ∙ ground (arith, p.inflight, v.slots j, eq_iff name j, e);
        sessions = v.sessions;
        leased = v.leased;
        total = v.total;
      }

  arrived-IsBalanced :
      (now : ℕ) (sid force : Option String) (vision : Bool) (bytes : ℕ) (t : Traffic)
      → IsBalanced t
      → IsBalanced (step parsing ttl now (arrived sid force vision bytes) t)
  unfolding step select
  arrived-IsBalanced now sid force vision bytes t v =
      let s = cleanup_sessions now t.router in
      let clean = Cleaned-IsBalanced 0 s t (cleanup_sessions-Cleaned now t.router) v in
      at s clean (choose sid force vision s) refl
    where
      at :
          (s : Router)
          → IsBalanced (record t { router = s })
          → (o : Option Backend) → choose sid force vision s ≡ o
          → IsBalanced (let (r, p) = send (now + ttl) sid s o in dispatched sid bytes r p t)
      at s c none e = c
      at s c (some b) e =
          sent-IsBalanced (now + ttl) bytes sid b (record t { router = s })
            (choose-Found sid force vision s b
              (record { unique = c.sound.unique; named = c.sound.named }) e)
            c

  finish-IsBalanced :
      (now i : ℕ) (done : Bool) (bytes : ℕ) (o : Option Request) (t : Traffic)
      → get_elem? t.under_way i ≡ o
      → IsBalanced t
      → IsBalanced (finish parsing ttl now i done bytes o t)
  unfolding release on_finish
  finish-IsBalanced now i done bytes none t e v = v
  finish-IsBalanced now i done bytes (some q) t e v =
      let r = let_go ttl now done bytes t i q in
      let c =
        Cleaned-IsBalanced 1 (cleanup_sessions now r)
          (record t { router = r; under_way = remove_at i t.under_way })
          (cleanup_sessions-Cleaned now r) (let_go-IsBalanced ttl now done bytes t i q e v) in
      record {
        sound = c.sound;
        slots = c.slots;
        sessions = c.sessions;
        leased = c.leased;
        total = omega (arith, c.total);
      }

  step-IsBalanced :
      (now : ℕ) (e : Event) (t : Traffic) → IsBalanced t → IsBalanced (step parsing ttl now e t)
  unfolding step
  step-IsBalanced now (probed name answers) t v =
      write_probe-IsBalanced now name answers (lookup name t.router.backends) t refl v
  step-IsBalanced now (arrived sid force vision bytes) t v =
      arrived-IsBalanced now sid force vision bytes t v
  step-IsBalanced now (ended i done bytes) t v =
      finish-IsBalanced now i done bytes (get_elem? t.under_way i) t refl v
  step-IsBalanced now (unreachable i) t v = lose-IsBalanced i (get_elem? t.under_way i) t refl v

  -- Whatever the order of probes, requests, endings and failures, the counters of the router stay
  -- right: a backend's `inflight` is at most its capacity and is the number of requests under way
  -- or lost there, a session's count is the number of its requests, the total is that of all, and a
  -- session with a request has a lease.
  pub run-IsBalanced :
      (events : List (ℕ × Event)) (t : Traffic)
      → IsBalanced t
      → IsBalanced (run parsing ttl events t)
  unfolding run
  run-IsBalanced [] t v = v
  run-IsBalanced ((now, e) ∷ events) t v =
      run-IsBalanced events (step parsing ttl now e t) (step-IsBalanced now e t v)
