-- ===== src/Deck/Registry/Removing.antt =====
-- opencode-deck/opencode-deck/ocdeck/model.py, class Registry: agents that leave, and those that
-- take their slots.
use home_ailab.Prelude.{
  ℕ, ◌+◌, String, false, Option, none, some, [], ◌∷◌, Result, ok, ◌>>=◌, index, store, Dict, lookup,
  insert, erase, if◌then◌else◌,
}
use home_ailab.Deck.Agents.{Agent, Registry, Probe, says}
use home_ailab.Deck.Registry.{first_free, take_slot}

-- `if r and r["slot"] is not None: ...`
unfoldable pub leave_slot : Option ℕ → Registry → Result Registry
leave_slot none r = ok r
leave_slot (some i) r = do
  slots ← store r.slots i none
  g ← index r.generations i
  gens ← store r.generations i (g + 1)
  ok (record r { slots = slots; generations = gens })

-- a round of the loop over the records, at the agent of `key` and the first free slot
unfoldable pub promote_to : String → Agent → Option ℕ → Registry → Result Registry
unfolding take_slot
promote_to key a none r = ok r
promote_to key a (some i) r = do
  r' ← take_slot a.id i r
  ok (record r' { records = insert key (record a { slot = some i }) r'.records })

unfoldable pub promote : String → Agent → Option ℕ → Registry → Result Registry
unfolding promote_to first_free
promote key a none r = promote_to key a (first_free 0 r.slots) r
promote key a (some i) r = ok r

-- the loop of `remove`: agents that wait take free slots in the order of their registration
unfoldable pub promote_all : Dict Agent → Registry → Result Registry
unfolding promote
promote_all [] r = ok r
promote_all ((key, a) ∷ agents) r = do r' ← promote key a a.slot r; promote_all agents r'

abbrev pub slot_of : Option Agent → Option ℕ
slot_of none = none
slot_of (some a) = a.slot

unfoldable pub remove : String → Registry → Result Registry
unfolding leave_slot promote_all
remove key r = do
  let popped : Registry = record r { records = erase key r.records }
  r' ← leave_slot (slot_of (lookup key r.records)) popped
  promote_all r'.records r'

-- the loop of `sweep` over the records that were there at its start
unfoldable pub sweep_all : Probe → Dict Agent → Registry → Result Registry
unfolding remove
sweep_all probe [] r = ok r
sweep_all probe ((key, a) ∷ agents) r = do
  r' ← (if says false (probe a.process) then remove key r else ok r)
  sweep_all probe agents r'

unfoldable pub sweep : Probe → Registry → Result Registry
unfolding sweep_all
sweep probe r = sweep_all probe r.records r
