-- ===== src/Deck/Registry/Views.antt =====
-- opencode-deck/opencode-deck/ocdeck/model.py, class Registry: what the keys show, and the check of a
-- press.
use home_ailab.Prelude.{
  ℕ, ◌+◌, String, Bool, true, false, not, ◌&&◌, ◌||◌, Option, none, some, List, [], ◌∷◌, Result, ok,
  ◌>>=◌, index, Dict, lookup, ◌==◌, ltb, str_eq, if◌then◌else◌, ℤ,
}
use home_ailab.Deck.Agents.{Agent, Registry, Probe, says, slot_count}
use home_ailab.Deck.Registry.{natural}

-- an entry of `view`
pub record View : Type 0 where
  pub slot : ℕ
  pub generation : ℕ
  pub id : Option String
  pub state : String
  pub label : String
  pub detail : String

-- the state that an agent's key shows
unfoldable pub state_of : ℕ → ℕ → Agent → String
state_of now stale_after a =
    if ltb (a.last_state + stale_after) now || str_eq a.status "unknown"
    then "unknown"
    else if not (a.pending == 0)
    then "input"
    else if str_eq a.status "busy" || str_eq a.status "retry"
    then "running"
    else "idle"

abbrev pub lookup_opt : Option String → Dict Agent → Option Agent
lookup_opt none d = none
lookup_opt (some k) d = lookup k d

abbrev pub view_entry : ℕ → ℕ → ℕ → ℕ → Option String → Option Agent → View
view_entry now stale_after i g key none = record {
  slot = i;
  generation = g;
  id = key;
  state = "off";
  label = "";
  detail = "";
}
view_entry now stale_after i g key (some a) = record {
  slot = i;
  generation = g;
  id = key;
  state = state_of now stale_after a;
  label = a.label;
  detail = a.detail;
}

unfoldable pub view_from : ℕ → ℕ → ℕ → List (Option String) → Registry → Result (List View)
unfolding state_of
view_from now stale_after i [] r = ok []
view_from now stale_after i (key ∷ slots) r = do
  g ← index r.generations i
  rest ← view_from now stale_after (i + 1) slots r
  ok (view_entry now stale_after i g key (lookup_opt key r.records) ∷ rest)

unfoldable pub view : ℕ → ℕ → Registry → Result (List View)
unfolding view_from
view now stale_after r = view_from now stale_after 0 r.slots r

abbrev pub same_key : Option String → Option String → Bool
same_key none none = true
same_key none (some k) = false
same_key (some j) none = false
same_key (some j) (some k) = str_eq j k

abbrev pub is_generation : Option ℕ → ℕ → Bool
is_generation none g = false
is_generation (some e) g = e == g

-- the end of `resolve`: the agent, if its process is known to be alive
unfoldable pub resolve_agent : Probe → Option Agent → Option Agent
resolve_agent probe none = none
resolve_agent probe (some a) = if says true (probe a.process) then some a else none

-- `resolve` at a slot that is an int of the range
unfoldable pub resolve_slot :
    Probe → ℕ → Option ℕ → Option String → Registry → Result (Option Agent)
unfolding resolve_agent
resolve_slot probe i generation key r = do
  k ← index r.slots i
  g ← index r.generations i
  ok (
      if same_key k key && is_generation generation g
      then resolve_agent probe (lookup_opt key r.records)
      else none)

unfoldable pub resolve :
    Probe → Option ℤ → Option ℕ → Option String → Registry → Result (Option Agent)
unfolding resolve_slot
resolve probe slot generation key r = elim (natural slot) [
  | none ↦ ok none
  | some i ↦ if ltb i slot_count then resolve_slot probe i generation key r else ok none
]
