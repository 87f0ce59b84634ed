-- ===== src/Opendeck/Registry/Frame.antt =====
-- opendeck-broker/opendeck_broker/registry.py: the frame of all slots, and the check of a press.
use home_ailab.Prelude.{
  ℕ, zero, suc, ◌+◌, String, Bool, true, false, Option, none, some, List, [], ◌∷◌, Result, ok,
  ◌>>=◌, index, lookup, ◌==◌, if◌then◌else◌, not,
}
use home_ailab.Opendeck.Model.{Instance, DisplayAppearance, display_of}
use home_ailab.Opendeck.Registry.{Registry, slot_of}

pub record SlotState : Type 0 where
  pub slot : ℕ
  pub instance_id : Option String
  pub generation : ℕ
  pub appearance : DisplayAppearance
  pub label : String

-- `SlotState(i, None, generation, BLACK)`
abbrev pub dark : ℕ → ℕ → SlotState
dark i g = record {
  slot = i;
  instance_id = none;
  generation = g;
  appearance = DisplayAppearance.black;
  label = "";
}

-- the state of a slot whose occupant is the instance
abbrev pub lit : ℕ → ℕ → String → Instance → SlotState
lit i g iid inst = record {
  slot = i;
  instance_id = some iid;
  generation = g;
  appearance = display_of inst;
  label = inst.identity_label;
}

-- one round of `frame`
unfoldable pub show_slot : ℕ → ℕ → Option String → Registry → SlotState
show_slot i g none r = dark i g
show_slot i g (some iid) r = elim (lookup iid r.instances) [
  | none ↦ dark i g
  | some ref ↦ if not (r.objects ref).live then dark i g else lit i g iid (r.objects ref)
]

unfoldable pub frame_from : ℕ → ℕ → Registry → Result (List SlotState)
unfolding show_slot
frame_from i zero r = ok []
frame_from i (suc n) r = do
  o ← index r.slot_occupant i
  g ← index r.slot_generation i
  rest ← frame_from (i + 1) n r
  ok (show_slot i g o r ∷ rest)

unfoldable pub frame : Registry → Result (List SlotState)
unfolding frame_from
frame r = frame_from 0 r.slots r

unfoldable pub slot_generation : ℕ → Registry → Result ℕ
slot_generation i r = index r.slot_generation i

-- `resolve` once the slot is looked up
unfoldable pub resolve_at : Option ℕ → Registry → Result (Option SlotState)
resolve_at none r = ok none
resolve_at (some s) r = do f ← frame r; state ← index f s; ok (some state)

unfoldable pub resolve : String → Registry → Result (Option SlotState)
unfolding slot_of resolve_at
resolve iid r = resolve_at (slot_of iid r) r

-- `expected_generation is not None and expected_generation != state.generation` does not hold
abbrev pub is_expected : Option ℕ → ℕ → Bool
is_expected none g = true
is_expected (some e) g = e == g

abbrev pub is_current : Option ℕ → Option SlotState → Bool
is_current expected none = false
is_current expected (some state) = is_expected expected state.generation

unfoldable pub validate_press : String → Option ℕ → Registry → Result Bool
unfolding resolve
validate_press iid expected r = do state ← resolve iid r; ok (is_current expected state)
