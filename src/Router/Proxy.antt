-- ===== src/Router/Proxy.antt =====
-- router-legacy/router.py: the pages of the router and the handler of every other request, up to the
-- point where the backend's stream begins. The probes of `select` take place at the same time as the
-- choice; Traffic has what may come between.
pub mod Guards
use home_ailab.Prelude.{
  ℕ, ◌+◌, ◌-◌, String, Bool, true, false, not, ◌&&◌, ◌||◌, Option, none, some, List, [], ◌∷◌, Dict,
  lookup, insert, values, map, ◌==◌, ltb, str_eq, truthy, contains, lower, ends_with, join_texts,
  if◌then◌else◌,
}
use home_ailab.Router.Json.{Json}
use home_ailab.Router.Backends.{Backend, available, Answers, Parsing, probe}
use home_ailab.Router.Requests.{Headers, extract_session_id, body_has_image, auth_ok}
use home_ailab.Router.Routing.{Router, select, on_dispatch}

-- ROUTER_API_KEY, VISION_BACKEND and SESSION_TTL_SECONDS
pub record Config : Type 0 where
  pub api_key : String
  pub vision_backend : String
  pub session_ttl : ℕ

pub record Message : Type 0 where
  pub path : String
  pub query : String
  pub headers : Headers
  pub size : ℕ
  pub payload : Option Json

-- an entry of the list of backends on the status page
pub record BackendView : Type 0 where
  pub name : String
  pub kind : String
  pub priority : ℕ
  pub url : String
  pub capacity : ℕ
  pub busy : ℕ
  pub router_inflight : ℕ
  pub available : ℕ
  pub healthy : Bool
  pub error : String
  pub req_total : ℕ
  pub req_ok : ℕ
  pub req_err : ℕ
  pub bytes_in : ℕ
  pub bytes_out : ℕ
  pub last_probe_age : Option ℕ

pub record Snapshot : Type 0 where
  pub now : ℕ
  pub total_capacity : ℕ
  pub total_inflight_router : ℕ
  pub requests_total_all : ℕ
  pub backends : List BackendView

unfoldable pub view_backend : ℕ → Backend → BackendView
view_backend now b = record {
  name = b.name;
  kind = b.kind;
  priority = b.priority;
  url = b.url;
  capacity = b.cap;
  busy = b.busy;
  router_inflight = b.inflight;
  available = available b;
  healthy = b.healthy;
  error = b.error;
  req_total = b.req_total;
  req_ok = b.req_ok;
  req_err = b.req_err;
  bytes_in = b.bytes_in;
  bytes_out = b.bytes_out;
  last_probe_age = if b.last_probe == 0 then none else some (now - b.last_probe);
}

unfoldable pub sum_caps : List Backend → ℕ
sum_caps [] = 0
sum_caps (b ∷ bs) = b.cap + sum_caps bs

unfoldable pub snapshot : ℕ → Router → Snapshot
unfolding view_backend sum_caps
snapshot now r = record {
  now = now;
  total_capacity = sum_caps (values r.backends);
  total_inflight_router = r.g_req_inflight;
  requests_total_all = r.g_req_total;
  backends = map (view_backend now) (values r.backends);
}

-- `not all(b.available <= 0 for b in backends)`
unfoldable pub any_capacity : List Backend → Bool
any_capacity [] = false
any_capacity (b ∷ bs) = ltb 0 (available b) || any_capacity bs

pub data Outcome : Type 0 where
  health_page : Bool → Outcome
  status_page : Snapshot → Outcome
  unauthorized models_page exhausted : Outcome
  sent : String → String → Headers → Outcome

abbrev own_headers : List String
own_headers =
    "host" ∷ "content-length" ∷ "connection" ∷ "accept-encoding" ∷ "x-forwarded-for" ∷ "x-api-key"
    ∷ "authorization" ∷ []

unfoldable pub strip_headers : Headers → Headers
unfolding contains lower
strip_headers [] = []
strip_headers ((k, v) ∷ headers) =
    let rest = strip_headers headers in
    if contains (lower k) own_headers then rest else (k, v) ∷ rest

-- what the backend is sent of the headers
unfoldable pub forward_headers : Headers → Headers
unfolding strip_headers
forward_headers headers = insert "connection" "keep-alive" (strip_headers headers)

abbrev url_of : Message → Option Backend → String
url_of m none = ""
url_of m (some b) =
    let url = join_texts (join_texts b.url "/") m.path in
    if truthy m.query then join_texts (join_texts url "?") m.query else url

-- the answer where `select` gave a backend or not
abbrev pub forward : Message → Router → Option String → Router × Outcome
forward m r none = (r, exhausted)
forward m r (some name) = (
  on_dispatch name m.size r,
  sent name (url_of m (lookup name r.backends)) (forward_headers m.headers),
)

abbrev is_health : String → Bool
is_health path = str_eq path "health" || str_eq path "router/health"

abbrev is_status : String → Bool
is_status path = str_eq path "router/status" || str_eq path "router/metrics"

abbrev is_models : String → Bool
is_models path = str_eq path "v1/models" || ends_with path "/v1/models"

abbrev is_vision : Config → Message → Bool
is_vision config m = truthy config.vision_backend && body_has_image m.payload

module _ (parsing : Parsing) (config : Config) (now : ℕ) (answers : String → Answers) where
  abbrev pub probed_router : Router → Router
  probed_router r = record r { backends = probe parsing now answers r.backends }

  unfoldable pub route : Message → Router → Router × Outcome
  unfolding extract_session_id body_has_image select on_dispatch forward_headers probe
  route m r =
      let sid = extract_session_id config.api_key m.headers m.payload in
      let vision = is_vision config m in
      let force = if vision then some config.vision_backend else none in
      let (q, chosen) = select config.session_ttl now sid force vision (probed_router r) in
      forward m q chosen

  unfoldable pub proxy : Message → Router → Router × Outcome
  unfolding route auth_ok probe snapshot any_capacity ends_with
  proxy m r =
      if is_health m.path
      then (probed_router r, health_page (any_capacity (values (probed_router r).backends)))
      else if is_status m.path
      then (r, status_page (snapshot now r))
      else if not (auth_ok config.api_key m.headers)
      then (r, unauthorized)
      else if is_models m.path
      then (r, models_page)
      else route m r
