-- ===== src/Opendeck/Broker/Delays.antt =====
-- opendeck-broker/opendeck_broker/broker.py: what a captured press does when it is handled, however
-- late that is.
use home_ailab.Prelude.{
  ◌≡◌, refl, String, Bool, true, false, Option, none, some, List, [], ◌∷◌, ◌++◌, map, inl, inr, ok,
  Returns, Returns-bind, Bool-cases,
}
use home_ailab.Opendeck.Focus.{Desktop, focus_marker}
use home_ailab.Opendeck.Device.{DeviceAdapter}
use home_ailab.Opendeck.Registry.{Registry, slot_of}
use home_ailab.Opendeck.Registry.Validity.{IsValid}
use home_ailab.Opendeck.Registry.Shown.{press_passes, validate_press_lem}
use home_ailab.Opendeck.Broker.{Painter, Broker, Press, Entry, plain_entry, focus_entry}
use home_ailab.Opendeck.Broker.Focusing.{
  press_marker, focus_press, handle_captured, handle_press, process_queue, process_presses,
}

module _ (desk : Desktop) where
  open desk use {World}

  -- A press whose instance has no slot any more, or has it under another generation than the one
  -- that was captured, is logged as stale and leaves the desktop as it was.
  pub handle_press_stale :
      (p : Press) (iid : String) (has_focus : Bool) (r : Registry) (w : World)
      → IsValid r
      → p.instance_id ≡ some iid
      → press_passes (some p.generation) (slot_of iid r) r ≡ false
      → handle_press desk p has_focus r w ≡ ok (plain_entry p "stale", w)
  unfolding handle_press
  handle_press_stale p iid has_focus r w v captured late =
      rw captured (rw (validate_press_lem iid (some p.generation) r v, handle_captured) (rw late))

  -- A press that still holds is focused by the marker of the instance that was captured, and of
  -- no other.
  pub handle_press_focuses :
      (p : Press) (iid marker : String) (r : Registry) (w : World)
      → IsValid r
      → p.instance_id ≡ some iid
      → press_passes (some p.generation) (slot_of iid r) r ≡ true
      → press_marker iid r ≡ some marker
      → handle_press desk p true r w
        ≡ ok (focus_entry p (focus_marker desk marker w).0, (focus_marker desk marker w).1)
  unfolding handle_press focus_press
  handle_press_focuses p iid marker r w v captured holds target = rw captured (
      rw (validate_press_lem iid (some p.generation) r v, handle_captured)
        (rw holds (rw (target, press_marker))))

-- what was captured of the press that an entry answers
abbrev pub captured : Entry → Press
captured e = record {
  slot = e.slot;
  instance_id = e.instance_id;
  generation = e.expected_generation;
}

module _ (desk : Desktop) where
  open desk use {World}

  focus_press-captured :
      (p : Press) (has_focus : Bool) (marker : Option String) (w : World)
      → captured (focus_press desk p has_focus marker w).0 ≡ p
  unfolding focus_press
  focus_press-captured p false marker w = refl
  focus_press-captured p true none w = refl
  focus_press-captured p true (some m) w = refl

  handle_captured-captured :
      (p : Press) (o : Option String) (has_focus : Bool) (r : Registry) (w : World)
      → IsValid r
      → Returns (λ x. captured x.0 ≡ p) (handle_captured desk p o has_focus r w)
  unfolding handle_captured
  handle_captured-captured p none has_focus r w v = refl
  handle_captured-captured p (some iid) has_focus r w v =
      rw (validate_press_lem iid (some p.generation) r v)
        (elim (Bool-cases (press_passes (some p.generation) (slot_of iid r) r)) [
          | inl holds ↦ rw holds (focus_press-captured p has_focus (press_marker iid r) w)
          | inr late ↦ rw late refl
        ])

  process_queue-captured :
      (queue : List Press) (has_focus : Bool) (r : Registry) (w : World)
      → IsValid r
      → Returns (λ x. map captured x.0 ≡ queue) (process_queue desk queue has_focus r w)
  unfolding process_queue
  process_queue-captured [] has_focus r w v = refl
  process_queue-captured (p ∷ queue) has_focus r w v =
      Returns-bind _ (λ x. map captured x.0 ≡ p ∷ queue) (handle_press desk p has_focus r w) _
        (unfold handle_press in handle_captured-captured p p.instance_id has_focus r w v)
        (λ x h.
          Returns-bind _ (λ y. map captured y.0 ≡ p ∷ queue)
            (process_queue desk queue has_focus r x.1) _
            (process_queue-captured queue has_focus r x.1 v) (λ y k. cc))

  -- `process_presses` raises nothing on a valid registry. It answers each queued press once, in the
  -- order of the queue, appends the answers to the log, empties the queue and changes nothing else
  -- of the broker: no slot, no instance, no image.
  pub process_presses_once :
      {painter : Painter} {dev : DeviceAdapter (Painter.Image painter)} (b : Broker painter dev)
      (w : World)
      → IsValid b.registry
      → Returns
          (λ x.
            (map captured x.2 ≡ b.press_queue)
            × (x.0 ≡ record b { press_queue = []; focus_log = b.focus_log ++ x.2 }))
          (process_presses desk b w)
  unfolding process_presses
  process_presses_once b w v =
      Returns-bind _ _ (process_queue desk b.press_queue b.has_focus b.registry w) _
        (process_queue-captured b.press_queue b.has_focus b.registry w v) (λ x h. (h, refl))
