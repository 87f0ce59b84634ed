-- ===== src/Router/Routing.antt =====
-- router-legacy/router.py, class Router: sessions and their leases, the choice of a backend, and the
-- end of a request. A backend is an object that the list and the dict by name share; here it is the
-- value of one dict, in the order of the list.
pub mod Choosing
pub mod Cleaning
pub mod Found
pub mod Selection
use home_ailab.Prelude.{
  ℕ, ◌+◌, ◌-◌, String, Bool, true, false, not, ◌&&◌, ◌||◌, Option, none, some, List, [], ◌∷◌, Dict,
  lookup, insert, erase, keys, values, ◌==◌, ltb, leb, str_eq, truthy, if◌then◌else◌,
}
use home_ailab.Router.Backends.{Backend, new_backend, available}

pub record Lease : Type 0 where
  pub backend : String
  pub expires_at : ℕ

pub record Router : Type 0 where
  pub backends : Dict Backend
  pub sessions : Dict Lease
  pub inflight_by_session : Dict ℕ
  pub g_req_total : ℕ
  pub g_req_inflight : ℕ
  pub g_bytes_in : ℕ
  pub g_routed_to : Dict ℕ

-- `self.by_name`, from the list of backends
unfoldable pub by_name : List Backend → Dict Backend
by_name [] = []
by_name (b ∷ bs) = (b.name, b) ∷ by_name bs

-- the router with the backends that the environment configures
unfoldable pub new_router : List Backend → Router
unfolding by_name
new_router backends = record {
  backends = by_name backends;
  sessions = [];
  inflight_by_session = [];
  g_req_total = 0;
  g_req_inflight = 0;
  g_bytes_in = 0;
  g_routed_to = [];
}

-- d.get(key, 0)
abbrev pub count_of : String → Dict ℕ → ℕ
count_of k d = elim (lookup k d) [ none ↦ 0 | some n ↦ n ]

-- `if sid`
abbrev pub session_of : Option String → Option String
session_of none = none
session_of (some sid) = if truthy sid then some sid else none

abbrev pub is_expired : ℕ → String → Lease → Router → Bool
is_expired now sid lease r = leb lease.expires_at now && (count_of sid r.inflight_by_session == 0)

-- a round of the loop over the sessions
abbrev drop_expired : ℕ → String → Option Lease → Router → Router
drop_expired now sid none r = r
drop_expired now sid (some lease) r =
    if is_expired now sid lease r
    then record r {
      sessions = erase sid r.sessions;
      inflight_by_session = erase sid r.inflight_by_session;
    }
    else r

unfoldable pub cleanup_all : ℕ → List String → Router → Router
cleanup_all now [] r = r
cleanup_all now (sid ∷ sids) r =
    cleanup_all now sids (drop_expired now sid (lookup sid r.sessions) r)

unfoldable pub cleanup_sessions : ℕ → Router → Router
unfolding cleanup_all
cleanup_sessions now r = cleanup_all now (keys r.sessions) r

abbrev is_leased : Backend → Option Lease → Bool
is_leased b none = false
is_leased b (some lease) = str_eq lease.backend b.name

abbrev holds_slot : Backend → Option String → Router → Bool
holds_slot b none r = false
holds_slot b (some sid) r =
    ltb 0 (count_of sid r.inflight_by_session) && is_leased b (lookup sid r.sessions)

unfoldable pub can_use : Backend → Option String → Router → Bool
can_use b sid r =
    if not b.healthy
    then false
    else if ltb (available b) 1
    then false
    else if holds_slot b (session_of sid) r
    then true
    else true

-- `fb.inflight += 1; fb.req_active += 1`
abbrev pub occupy : Backend → Backend
occupy b = record b { inflight = b.inflight + 1; req_active = b.req_active + 1 }

abbrev pub count_up : String → Dict ℕ → Dict ℕ
count_up k d = insert k (count_of k d + 1) d

-- `self.sessions[sid] = {...}; self.inflight_by_session[sid] += 1`
abbrev pub lease_to : ℕ → Option String → String → Router → Router
lease_to expiry none name r = r
lease_to expiry (some sid) name r = record r {
  sessions = insert sid (record { backend = name; expires_at = expiry }) r.sessions;
  inflight_by_session = count_up sid r.inflight_by_session;
}

-- the backend takes the request of the session
unfoldable pub commit : ℕ → Option String → Backend → Router → Router
commit expiry sid b r =
    lease_to expiry (session_of sid) b.name
      (record r { backends = insert b.name (occupy b) r.backends })

-- the backend of `name` if the request can go there
abbrev pub usable : Option String → Router → Option Backend → Option Backend
usable sid r none = none
usable sid r (some b) = if b.healthy && can_use b sid r then some b else none

-- `if vision and force`
unfoldable pub pinned : Option String → Option String → Bool → Router → Option Backend
unfolding can_use
pinned sid none vision r = none
pinned sid (some force) vision r =
    if vision && truthy force then usable sid r (lookup force r.backends) else none

abbrev pub leased_backend : Router → Option Lease → Option Backend
leased_backend r none = none
leased_backend r (some lease) = lookup lease.backend r.backends

abbrev pub sticky_of : Option String → Router → Option Backend
sticky_of none r = none
sticky_of (some sid) r = usable (some sid) r (leased_backend r (lookup sid r.sessions))

-- the backend that the session is on
unfoldable pub sticky : Option String → Router → Option Backend
unfolding can_use
sticky sid r = sticky_of (session_of sid) r

-- sorted(backends, key=priority), which is stable
unfoldable pub insert_by_priority : Backend → List Backend → List Backend
insert_by_priority b [] = b ∷ []
insert_by_priority b (c ∷ cs) =
    let rest = insert_by_priority b cs in if leb b.priority c.priority then b ∷ c ∷ cs else c ∷ rest

unfoldable pub sort_by_priority : List Backend → List Backend
unfolding insert_by_priority
sort_by_priority [] = []
sort_by_priority (b ∷ bs) = insert_by_priority b (sort_by_priority bs)

unfoldable pub first_usable : Option String → Router → List Backend → Option Backend
unfolding can_use
first_usable sid r [] = none
first_usable sid r (b ∷ bs) =
    let rest = first_usable sid r bs in if can_use b sid r then some b else rest

unfoldable pub by_priority : Option String → Router → Option Backend
unfolding sort_by_priority first_usable
by_priority sid r = first_usable sid r (sort_by_priority (values r.backends))

abbrev pub or_else : Option Backend → Option Backend → Option Backend
or_else none c = c
or_else (some b) c = some b

-- which backend takes the request: the pinned one, the session's, or the first one by priority
unfoldable pub choose : Option String → Option String → Bool → Router → Option Backend
unfolding pinned sticky by_priority
choose sid force vision r =
    or_else (pinned sid force vision r) (or_else (sticky sid r) (by_priority sid r))

abbrev pub send : ℕ → Option String → Router → Option Backend → Router × Option String
send expiry sid r none = (r, none)
send expiry sid r (some b) = (commit expiry sid b r, some b.name)

-- `select` under the lock, once the backends are probed
unfoldable pub select :
    ℕ → ℕ → Option String → Option String → Bool → Router → Router × Option String
unfolding cleanup_sessions commit choose
select ttl now sid force vision r =
    let s = cleanup_sessions now r in send (now + ttl) sid s (choose sid force vision s)

-- the backend's counters at the end of a request
abbrev pub finish_on : Bool → ℕ → Backend → Backend
finish_on done bytes b = record b {
  inflight = b.inflight - 1;
  req_active = b.req_active - 1;
  req_ok = if done then b.req_ok + 1 else b.req_ok;
  req_err = if done then b.req_err else b.req_err + 1;
  bytes_out = b.bytes_out + bytes;
}

abbrev pub put_backend : Bool → ℕ → String → Option Backend → Router → Router
put_backend done bytes name none r = r
put_backend done bytes name (some b) r = record r {
  backends = insert name (finish_on done bytes b) r.backends;
}

-- the session has one request less in flight
abbrev pub count_down : String → Dict ℕ → Dict ℕ
count_down sid d =
    let lowered = insert sid (count_of sid d - 1) d in
    if leb (count_of sid lowered) 0 then erase sid lowered else lowered

abbrev pub renewed : ℕ → String → String → Option Lease → Dict Lease → Dict Lease
renewed expiry name sid none d = d
renewed expiry name sid (some lease) d =
    if str_eq lease.backend name then insert sid (record lease { expires_at = expiry }) d else d

abbrev pub release_session : ℕ → String → Option String → Router → Router
release_session expiry name none r = r
release_session expiry name (some sid) r = record r {
  inflight_by_session = count_down sid r.inflight_by_session;
  sessions = renewed expiry name sid (lookup sid r.sessions) r.sessions;
}

unfoldable pub release : ℕ → ℕ → String → Option String → Bool → ℕ → Router → Router
unfolding cleanup_sessions
release ttl now name sid done bytes r = cleanup_sessions now (
    release_session (now + ttl) name (session_of sid)
      (put_backend done bytes name (lookup name r.backends) r))

abbrev pub note_dispatch : ℕ → String → Option Backend → Dict Backend → Dict Backend
note_dispatch bytes name none d = d
note_dispatch bytes name (some b) d =
    insert name (record b { req_total = b.req_total + 1; bytes_in = b.bytes_in + bytes }) d

unfoldable pub on_dispatch : String → ℕ → Router → Router
on_dispatch name bytes r = record r {
  backends = note_dispatch bytes name (lookup name r.backends) r.backends;
  g_req_total = r.g_req_total + 1;
  g_bytes_in = r.g_bytes_in + bytes;
  g_routed_to = count_up name r.g_routed_to;
  g_req_inflight = r.g_req_inflight + 1;
}

-- `if g_req_inflight > 0: g_req_inflight -= 1`
unfoldable pub on_finish : Router → Router
on_finish r = record r { g_req_inflight = r.g_req_inflight - 1 }
