-- ===== src/Router/Traffic/Losses.antt =====
-- router-legacy/router.py: requests that end give their slots back, and requests whose backend could
-- not be reached do not.
use home_ailab.Prelude.{
  ℕ, ◌+◌, ◌≤◌, ◌≡◌, refl, ap, ◌∙◌, String, Bool, Option, none, some, List, [], ◌∷◌, lookup, arith,
  get_elem?, length, get_elem?-some, ◌<◌,
}
use home_ailab.Router.Backends.{Backend, available, Parsing}
use home_ailab.Router.Routing.{Router, select}
use home_ailab.Router.Traffic.{
  Request, Traffic, Event, probed, arrived, ended, unreachable, count_where, is_on, step, run,
  dispatched, finish, lose,
}
use home_ailab.Router.Traffic.Slots.{held}
use home_ailab.Router.Traffic.Balance.{IsBalanced, length-remove_at}
use home_ailab.Router.Traffic.Runs.{run-IsBalanced}

module _ (parsing : Parsing) (ttl : ℕ) where
  lost-step :
      (p : Request → Bool) (now : ℕ) (e : Event) (t : Traffic)
      → count_where p t.lost ≤ count_where p (step parsing ttl now e t).lost
  unfolding step
  lost-step p now (probed name answers) t = omega arith
  lost-step p now (arrived sid force vision bytes) t = at (select ttl now sid force vision t.router)
    where
      at :
          (x : Router × Option String)
          → count_where p t.lost ≤ count_where p (dispatched sid bytes x.0 x.1 t).lost
      at (r, none) = omega arith
      at (r, some name) = omega arith
  lost-step p now (ended i done bytes) t = at (get_elem? t.under_way i)
    where
      at :
          (o : Option Request)
          → count_where p t.lost ≤ count_where p (finish parsing ttl now i done bytes o t).lost
      at none = omega arith
      at (some q) = omega arith
  lost-step p now (unreachable i) t = at (get_elem? t.under_way i)
    where
      at : (o : Option Request) → count_where p t.lost ≤ count_where p (lose i o t).lost
      at none = omega arith
      at (some q) = omega arith

  lost-run :
      (p : Request → Bool) (events : List (ℕ × Event)) (t : Traffic)
      → count_where p t.lost ≤ count_where p (run parsing ttl events t).lost
  unfolding run
  lost-run p [] t = omega arith
  lost-run p ((now, e) ∷ events) t =
      omega (arith, lost-step p now e t, lost-run p events (step parsing ttl now e t))

  -- A request whose backend could not be reached keeps its slot for good: whatever happens
  -- afterwards, the backend's free slots and the slots lost so far fit into its capacity together,
  -- so that a backend that lost its capacity takes no request any more.
  pub lost_slots :
      (events : List (ℕ × Event)) (t : Traffic) (name : String) (b : Backend)
      → IsBalanced t
      → lookup name (run parsing ttl events t).router.backends ≡ some b
      → count_where (is_on name) t.lost + available b ≤ b.cap
  lost_slots events t name b v e =
      let u = run-IsBalanced parsing ttl events t v in
      let bound = u.sound.bounded name b e in
      omega (arith, ap held e, u.slots name, lost-run (is_on name) events t)

  -- the endings of requests, each of the first one under way
  abbrev pub endings : List (ℕ × Bool × ℕ) → List (ℕ × Event)
  endings [] = []
  endings ((now, done, bytes) ∷ ends) = (now, ended 0 done bytes) ∷ endings ends

  finish-shorter :
      (now : ℕ) (done : Bool) (bytes : ℕ) (o : Option Request) (t : Traffic)
      → get_elem? t.under_way 0 ≡ o
      → 0 < length t.under_way
      → (length (finish parsing ttl now 0 done bytes o t).under_way + 1 ≡ length t.under_way)
        × ((finish parsing ttl now 0 done bytes o t).lost ≡ t.lost)
  finish-shorter now done bytes none t e h =
      let (q, f) = get_elem?-some t.under_way 0 h in absurd (cc)
  finish-shorter now done bytes (some q) t e h = (length-remove_at t.under_way 0 q e, refl)

  endings-run :
      (ends : List (ℕ × Bool × ℕ)) (t : Traffic)
      → length ends ≡ length t.under_way
      → (length (run parsing ttl (endings ends) t).under_way ≡ 0)
        × ((run parsing ttl (endings ends) t).lost ≡ t.lost)
  unfolding run step
  endings-run [] t h = (omega arith, refl)
  endings-run ((now, done, bytes) ∷ ends) t h =
      let o = get_elem? t.under_way 0 in
      let shorter = finish-shorter now done bytes o t refl (omega arith) in
      let rest =
        endings-run ends (finish parsing ttl now 0 done bytes o t) (omega (arith, shorter.0)) in
      (rest.0, rest.1 ∙ shorter.1)

  no_requests : (p : Request → Bool) (qs : List Request) → length qs ≡ 0 → count_where p qs ≡ 0
  no_requests p [] h = refl
  no_requests p (q ∷ qs) h = absurd (omega arith)

  -- Once every request under way has ended, with whatever result and in whatever time, no slot is
  -- held but those of the lost requests, and no request is counted but those.
  pub endings-release :
      (ends : List (ℕ × Bool × ℕ)) (t : Traffic) (name : String)
      → IsBalanced t
      → length ends ≡ length t.under_way
      → (held (lookup name (run parsing ttl (endings ends) t).router.backends)
          ≡ count_where (is_on name) t.lost)
        × ((run parsing ttl (endings ends) t).router.g_req_inflight ≡ length t.lost)
  endings-release ends t name v h =
      let u = run-IsBalanced parsing ttl (endings ends) t v in
      let (none_left, same) = endings-run ends t h in
      (
        omega (
          arith,
          u.slots name,
          no_requests (is_on name) (run parsing ttl (endings ends) t).under_way none_left,
          ap (count_where (is_on name)) same,
        ),
        omega (arith, u.total, none_left, ap length same),
      )
