-- ===== src/Deck/Registry.antt =====
-- opencode-deck/opencode-deck/ocdeck/model.py, class Registry: the agents of the deck, the six slots
-- that they hold or wait for, and the order of their producers' snapshots.
pub mod Removing
pub mod Views
pub mod Placing
pub mod Arriving
pub mod Entering
pub mod Leaving
pub mod Departing
pub mod Sweeping
pub mod Runs
pub mod Order
mod Tests
use home_ailab.Prelude.{
  ℕ, zero, suc, ◌+◌, String, Bool, true, false, not, ◌&&◌, ◌||◌, Option, none, some, List, [], ◌∷◌,
  ◌++◌, Result, ok, raise, ◌>>=◌, Error, from_option, index, store, Dict, lookup, insert, erase,
  keys, values, replicate, ◌==◌, ltb, leb, str_eq, contains, if◌then◌else◌, ℤ, pos, negsuc, eq_ℤ,
  le_ℤ, text_length, text_take, nonempty, truthy,
}
use home_ailab.Deck.Agents.{
  ProcessId, same_process, Agent, Registry, Probe, says, Registration, default,
}

-- `next((i for i, value in enumerate(slots) if value is None), None)` and `slots.index(None)`, from
-- the slot `i`
unfoldable pub first_free : ℕ → List (Option String) → Option ℕ
first_free i [] = none
first_free i (none ∷ slots) = some i
first_free i (some k ∷ slots) = first_free (i + 1) slots

-- `self.generations[slot] += 1; self.slots[slot] = key`
unfoldable pub take_slot : String → ℕ → Registry → Result Registry
take_slot key i r = do
  g ← index r.generations i
  gens ← store r.generations i (g + 1)
  slots ← store r.slots i (some key)
  ok (record r { generations = gens; slots = slots })

-- the record of a new agent
unfoldable pub new_agent : ℕ → String → ProcessId → Option ℕ → Registration → Agent
unfolding text_take
new_agent now key process slot body = record {
  id = key;
  process = process;
  slot = slot;
  label = text_take 100 (default "OpenCode" body.label);
  window_token = text_take 128 (default "" body.window_token);
  seq = negsuc 0;
  producer = none;
  retired = [];
  status = "unknown";
  pending = 0;
  last_state = 0;
  last_seen = now;
  detail = "Connecting";
}

-- the slot of a new agent is taken, if there is one
unfoldable pub enter_slot : String → Option ℕ → Registry → Result Registry
unfolding take_slot
enter_slot key none r = ok r
enter_slot key (some i) r = take_slot key i r

-- a new agent enters if its process is alive
unfoldable pub admit : Bool → String → Agent → Registry → Result (Registry × Agent)
unfolding enter_slot
admit false key agent r = Result.raise Error.value_error
admit true key agent r = do
  r' ← enter_slot key agent.slot r
  ok (record r' { records = insert key agent r'.records }, agent)

-- an agent that is not known
unfoldable pub enter_process :
    Option ProcessId → Probe → ℕ → String → Registration → Registry → Result (Registry × Agent)
unfolding first_free admit new_agent
enter_process none probe now key body r = Result.raise Error.value_error
enter_process (some process) probe now key body r =
    admit (says true (probe process)) key (new_agent now key process (first_free 0 r.slots) body) r

unfoldable pub enter : Probe → ℕ → String → Registration → Registry → Result (Registry × Agent)
unfolding enter_process
enter probe now key body r = enter_process body.process probe now key body r

abbrev pub is_same_process : Option ProcessId → ProcessId → Bool
is_same_process none q = false
is_same_process (some p) q = same_process p q

-- an agent that is known
unfoldable pub greet : ℕ → String → Registration → Agent → Registry → Result (Registry × Agent)
greet now key body agent r =
    if not (is_same_process body.process agent.process)
    then Result.raise Error.value_error
    else (let seen : Agent = record agent { last_seen = now } in
        ok (record r { records = insert key seen r.records }, seen))

-- `upsert` once the key is looked up
unfoldable pub upsert_at :
    Option Agent → Probe → ℕ → String → Registration → Registry → Result (Registry × Agent)
unfolding enter greet
upsert_at none probe now key body r = enter probe now key body r
upsert_at (some agent) probe now key body r = greet now key body agent r

abbrev pub is_key : String → Bool
is_key key = leb 1 (text_length key) && leb (text_length key) 128

unfoldable pub upsert : Probe → ℕ → Registration → Registry → Result (Registry × Agent)
unfolding upsert_at
upsert probe now body r =
    let key = default "" body.id in
    if not (is_key key)
    then Result.raise Error.value_error
    else upsert_at (lookup key r.records) probe now key body r

-- the body of a snapshot
pub record Snapshot : Type 0 where
  pub status : Option String
  pub seq : Option ℤ
  pub producer : Option String
  pub pending : Option ℤ
  pub detail : Option String

abbrev pub is_status : Option String → Bool
is_status none = false
is_status (some s) = str_eq s "idle" || str_eq s "busy" || str_eq s "retry" || str_eq s "unknown"

abbrev pub natural : Option ℤ → Option ℕ
natural none = none
natural (some (pos n)) = some n
natural (some (negsuc n)) = none

abbrev pub is_producer : Option String → Bool
is_producer none = false
is_producer (some p) = truthy p && leb (text_length p) 128

abbrev pub same_producer : Option String → String → Bool
same_producer none p = false
same_producer (some q) p = str_eq q p

-- `if r["producer"]: r["retired"].append(r["producer"])`
abbrev pub retire : Option String → List String → List String
retire none retired = retired
retire (some p) retired = if truthy p then retired ++ p ∷ [] else retired

-- the agent once a message of the producer is there: the one before is retired
unfoldable pub switch_producer : String → Agent → Agent
switch_producer producer a = if same_producer a.producer producer then a else record a {
  retired = retire a.producer a.retired;
  producer = some producer;
  seq = negsuc 0;
}

-- `r.update(...)`
abbrev pub update_agent : ℕ → ℕ → String → ℕ → String → Agent → Agent
update_agent now seq status pending detail a = record a {
  seq = pos seq;
  status = status;
  pending = pending;
  detail = text_take 200 detail;
  last_state = now;
  last_seen = now;
}

-- the end of `snapshot`, on the agent
unfoldable pub take_snapshot : ℕ → ℕ → String → String → ℕ → String → Agent → Agent × Bool
unfolding switch_producer text_take
take_snapshot now seq producer status pending detail a =
    if contains producer a.retired
    then (a, false)
    else (let b = switch_producer producer a in
        if le_ℤ (pos seq) b.seq
        then (b, false)
        else (update_agent now seq status pending detail b, true))

-- `pending` is an int of 0 to 10000; it is 0 where it is missing
abbrev pub valid_pending : Option ℤ → Option ℕ
valid_pending p = elim (natural (some (default (pos 0) p))) [
  | none ↦ none
  | some n ↦ if leb n 10000 then some n else none
]

abbrev pub check : Bool → Option String → Result String
check false o = Result.raise Error.value_error
check true o = from_option Error.value_error o

-- the values of a snapshot's body that passed the checks
pub record Report : Type 0 where
  pub status : String
  pub seq : ℕ
  pub producer : String
  pub pending : ℕ
  pub detail : String

unfoldable pub check_snapshot : Snapshot → Result Report
check_snapshot body = do
  status ← check (is_status body.status) body.status
  seq ← from_option Error.value_error (natural body.seq)
  producer ← check (is_producer body.producer) body.producer
  pending ← from_option Error.value_error (valid_pending body.pending)
  ok (record {
    status = status;
    seq = seq;
    producer = producer;
    pending = pending;
    detail = default "" body.detail;
  })

-- `snapshot` of a body that passed the checks, for an agent that is there
unfoldable pub report_to : ℕ → String → Report → Agent → Registry → Registry × Bool
unfolding take_snapshot
report_to now key p a r =
    let (b, accepted) = take_snapshot now p.seq p.producer p.status p.pending p.detail a in
    (record r { records = insert key b r.records }, accepted)

unfoldable pub report : ℕ → String → Report → Option Agent → Registry → Result (Registry × Bool)
unfolding report_to
report now key p none r = Result.raise Error.key_error
report now key p (some a) r = ok (report_to now key p a r)

unfoldable pub snapshot : ℕ → String → Snapshot → Registry → Result (Registry × Bool)
unfolding check_snapshot report
snapshot now key body r = do p ← check_snapshot body; report now key p (lookup key r.records) r
