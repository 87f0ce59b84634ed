-- ===== src/Opendeck/Broker/Focusing.antt =====
-- opendeck-broker/opendeck_broker/broker.py: queued presses and focus requests. They change the
-- desktop and the log, never an instance or a slot.
use home_ailab.Prelude.{
  ℕ, String, Bool, true, false, Option, none, some, List, [], ◌∷◌, ◌++◌, Result, ok, Error, ◌>>=◌,
  from_option, lookup, truthy, nonempty, if◌then◌else◌, not,
}
use home_ailab.Opendeck.Model.{FocusTarget}
use home_ailab.Opendeck.Focus.{Desktop, FocusStatus, FocusResult, Detail, failed, focus_marker}
use home_ailab.Opendeck.Registry.{Registry}
use home_ailab.Opendeck.Registry.Frame.{SlotState, resolve, validate_press}
use home_ailab.Opendeck.Device.{DeviceAdapter}
use home_ailab.Opendeck.Broker.{Painter, Broker, Press, Entry, plain_entry, focus_entry}

-- `focus_target.get("opaqueId")` where the target is there and not empty
unfoldable pub marker_of : Option FocusTarget → Option String
marker_of none = none
marker_of (some t) = if nonempty t then lookup "opaqueId" t else none

-- `registry.instances.get(iid)`, with the marker of its focus target
unfoldable pub press_marker : String → Registry → Option String
unfolding marker_of
press_marker iid r = elim (lookup iid r.instances) [
  | none ↦ none
  | some ref ↦ marker_of (r.objects ref).focus_target
]

module _ (desk : Desktop) where
  open desk use {World}

  -- `_handle_press` once the press is valid: `focus is None or marker is None` ends it
  unfoldable pub focus_press : Press → Bool → Option String → World → Entry × World
  focus_press p false marker w = (plain_entry p "no_focus_target", w)
  focus_press p true none w = (plain_entry p "no_focus_target", w)
  focus_press p true (some marker) w =
      let (res, w') = focus_marker desk marker w in (focus_entry p res, w')

  -- `_handle_press` at the occupant that was captured; the entry is what is appended to the log
  unfoldable pub handle_captured :
      Press → Option String → Bool → Registry → World → Result (Entry × World)
  unfolding focus_press press_marker
  handle_captured p none has_focus r w = ok (plain_entry p "no_occupant", w)
  handle_captured p (some iid) has_focus r w = do
    valid ← validate_press iid (some p.generation) r
    ok (
        if not valid
        then (plain_entry p "stale", w)
        else focus_press p has_focus (press_marker iid r) w)

  unfoldable pub handle_press : Press → Bool → Registry → World → Result (Entry × World)
  unfolding handle_captured
  handle_press p has_focus r w = handle_captured p p.instance_id has_focus r w

  -- `process_presses` on the queue: the entries, which are returned and appended to the log
  unfoldable pub process_queue : List Press → Bool → Registry → World → Result (List Entry × World)
  unfolding handle_press
  process_queue [] has_focus r w = ok ([], w)
  process_queue (p ∷ queue) has_focus r w = do
    (e, w') ← handle_press p has_focus r w
    (rest, w'') ← process_queue queue has_focus r w'
    ok (e ∷ rest, w'')

  -- `focus_instance` once the instance is resolved and the press is valid
  unfoldable pub focus_resolved : Option String → Bool → World → Result (FocusResult × World)
  focus_resolved none has_focus w = ok (failed FocusStatus.not_found Detail.no_target, w)
  focus_resolved (some marker) has_focus w =
      if not (truthy marker)
      then ok (failed FocusStatus.not_found Detail.no_target, w)
      else if has_focus
      then ok (focus_marker desk marker w)
      else Result.raise Error.attribute_error

  -- `state is None or not validate_press(…)`
  abbrev pub is_unassigned : Option SlotState → Bool → Bool
  is_unassigned none valid = true
  is_unassigned (some x) valid = not valid

  -- the end of `focus_instance`, once the assignment is checked
  unfoldable pub focus_assigned : String → Bool → Registry → World → Result (FocusResult × World)
  unfolding focus_resolved marker_of
  focus_assigned iid has_focus r w = do
    ref ← from_option Error.key_error (lookup iid r.instances)
    focus_resolved (marker_of (r.objects ref).focus_target) has_focus w

  unfoldable pub focus_instance :
      String → Option ℕ → Bool → Registry → World → Result (FocusResult × World)
  unfolding focus_assigned
  focus_instance iid expected has_focus r w = do
    state ← resolve iid r
    valid ← validate_press iid expected r
    if is_unassigned state valid
        then ok (failed FocusStatus.stale (Detail.no_assignment iid), w)
        else focus_assigned iid has_focus r w

  unfoldable pub process_presses :
      {painter : Painter} {dev : DeviceAdapter (Painter.Image painter)}
      → Broker painter dev
      → World
      → Result (Broker painter dev × World × List Entry)
  unfolding process_queue
  process_presses b w = do
    (entries, w') ← process_queue b.press_queue b.has_focus b.registry w
    ok (record b { press_queue = []; focus_log = b.focus_log ++ entries }, w', entries)
