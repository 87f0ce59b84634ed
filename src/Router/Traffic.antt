-- ===== src/Router/Traffic.antt =====
-- router-legacy/router.py: the requests that the router serves at once. Between two points where a
-- task waits, the code runs alone, so that a run of the router is a list of events: a probe that
-- wrote its answers, a request that was given a backend, one that ended, and one whose backend could
-- not be reached.
pub mod Slots
pub mod Balance
pub mod Releasing
pub mod Runs
pub mod Losses
pub mod Start
use home_ailab.Prelude.{
  ℕ, zero, suc, ◌+◌, String, Bool, true, false, Option, none, some, List, [], ◌∷◌, Dict, lookup,
  insert, str_eq, get_elem?, if◌then◌else◌,
}
use home_ailab.Router.Backends.{Backend, Answers, Parsing, probe_backend}
use home_ailab.Router.Routing.{Router, session_of, select, release, on_dispatch, on_finish}

-- a request that was sent to a backend
pub record Request : Type 0 where
  pub backend : String
  pub session : Option String

-- the router, the requests under way, and those that failed before their stream began
pub record Traffic : Type 0 where
  pub router : Router
  pub under_way : List Request
  pub lost : List Request

pub data Event : Type 0 where
  probed : String → Answers → Event
  arrived : Option String → Option String → Bool → ℕ → Event
  ended : ℕ → Bool → ℕ → Event
  unreachable : ℕ → Event

-- the list without its element `i`
abbrev pub remove_at {ℓ} : {A : Type ℓ} → ℕ → List A → List A
remove_at i [] = []
remove_at zero (x ∷ xs) = xs
remove_at (suc i) (x ∷ xs) = x ∷ remove_at i xs

-- the request is dispatched to the backend that `select` gave, if it gave one
abbrev pub dispatched : Option String → ℕ → Router → Option String → Traffic → Traffic
dispatched sid bytes r none t = record t { router = r }
dispatched sid bytes r (some name) t = record t {
  router = on_dispatch name bytes r;
  under_way = record { backend = name; session = sid } ∷ t.under_way;
}

-- `stream_ctx.__aenter__()` raises: the handler ends, and nothing is released
abbrev pub lose : ℕ → Option Request → Traffic → Traffic
lose i none t = t
lose i (some q) t = record t { under_way = remove_at i t.under_way; lost = q ∷ t.lost }

module _ (parsing : Parsing) (ttl : ℕ) where
  abbrev pub write_probe : ℕ → String → Answers → Option Backend → Router → Router
  write_probe now name answers none r = r
  write_probe now name answers (some b) r = record r {
    backends = insert name (probe_backend parsing now answers b) r.backends;
  }

  abbrev pub finish : ℕ → ℕ → Bool → ℕ → Option Request → Traffic → Traffic
  finish now i done bytes none t = t
  finish now i done bytes (some q) t = record t {
    router = on_finish (release ttl now q.backend q.session done bytes t.router);
    under_way = remove_at i t.under_way;
  }

  unfoldable pub step : ℕ → Event → Traffic → Traffic
  unfolding probe_backend select on_dispatch release on_finish
  step now (probed name answers) t = record t {
    router = write_probe now name answers (lookup name t.router.backends) t.router;
  }
  step now (arrived sid force vision bytes) t =
      let (r, o) = select ttl now sid force vision t.router in dispatched sid bytes r o t
  step now (ended i done bytes) t = finish now i done bytes (get_elem? t.under_way i) t
  step now (unreachable i) t = lose i (get_elem? t.under_way i) t

  unfoldable pub run : List (ℕ × Event) → Traffic → Traffic
  unfolding step
  run [] t = t
  run ((now, e) ∷ events) t = run events (step now e t)

-- a router that nothing was sent to
abbrev pub quiet : Router → Traffic
quiet r = record { router = r; under_way = []; lost = [] }

-- the requests that satisfy a test
abbrev pub count_where : (Request → Bool) → List Request → ℕ
count_where p [] = 0
count_where p (q ∷ qs) = count_where p qs + (if p q then 1 else 0)

abbrev pub is_on : String → Request → Bool
is_on name q = str_eq q.backend name

abbrev has_session : String → Option String → Bool
has_session sid none = false
has_session sid (some s) = str_eq s sid

abbrev pub is_of : String → Request → Bool
is_of sid q = has_session sid (session_of q.session)
