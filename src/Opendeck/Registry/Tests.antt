-- ===== src/Opendeck/Registry/Tests.antt =====
-- opendeck-broker/opendeck_broker/registry.py: the theorems at concrete registries, and tests.
use home_ailab.Prelude.{
  ℕ, zero, suc, ◌≡◌, refl, inr, String, true, false, none, some, [], ◌∷◌, Result, ok, raise, lookup,
  insert, erase, keys, values, get_elem?, length, arith, eq_iff, Returns, pos, Error,
}
use home_ailab.Opendeck.Model.{Instance, display_of, derive_display, idle}
use home_ailab.Opendeck.Objects.{Ref, Objects, update}
use home_ailab.Opendeck.Registry.{
  Registry, new_registry, slot_count, slot_of, register, accept_snapshot, sweep_expired, heartbeat,
  free_slot, mark_untrusted,
}
use home_ailab.Opendeck.Registry.Frame.{frame, validate_press}
use home_ailab.Opendeck.Registry.Diagnostics.{overflow}
use home_ailab.Opendeck.Registry.Validity.{IsValid}
use home_ailab.Opendeck.Registry.Calls.{enrol, snapshot, leave, apply, History, run, run-IsValid}
use home_ailab.Opendeck.Registry.Slots.{IsLowest, register-IsLowest, apply-Stays}
use home_ailab.Opendeck.Registry.Staying.{Stays}
use home_ailab.Opendeck.Registry.Shown.{frame_live}
use home_ailab.Opendeck.Registry.Presses.{stale_press}
use home_ailab.Opendeck.Registry.Snapshots.{accept_once}

program : Unit {0}
unfolding run register accept_snapshot sweep_expired heartbeat free_slot mark_untrusted new_registry
    slot_of frame validate_press lookup insert erase keys values update display_of derive_display
    overflow
program = tt

abbrev instance_of : String → Instance
instance_of name = record {
  instance_id = name;
  process = record { pid = pos 7; start_time = none };
  ui_attachment_id = name;
  directory = "/work";
  focus_target = none;
  producer_epoch = "p";
  sequence = 1;
  status = idle;
  pending_permission_ids = [];
  pending_question_ids = [];
  error = none;
  live = true;
  telemetry_trusted = true;
  identity_label = name;
}

abbrev name_of : Ref → String
name_of zero = "a"
name_of (suc zero) = "b"
name_of (suc (suc zero)) = "c"
name_of (suc (suc (suc zero))) = "d"
name_of (suc (suc (suc (suc zero)))) = "e"
name_of (suc (suc (suc (suc (suc zero))))) = "f"
name_of (suc (suc (suc (suc (suc (suc n)))))) = "g"

abbrev objects : Objects
objects ref = instance_of (name_of ref)

abbrev empty : Registry
empty = new_registry slot_count "e" objects

abbrev got : Result Registry → Registry
got (ok r) = r
got (raise e) = empty

abbrev after : History → Registry
after calls = got (run calls empty)

abbrev one : History
one = (5, enrol 0) ∷ []

-- the seventh launch overflows
abbrev seven : History
seven =
    (1, enrol 0)
    ∷ (1, enrol 1)
    ∷ (1, enrol 2)
    ∷ (1, enrol 3)
    ∷ (1, enrol 4)
    ∷ (1, enrol 5)
    ∷ (1, enrol 6)
    ∷ []

seventh_overflows : (run seven empty ≡ ok (after seven)) × (overflow (after seven) ≡ ok ("g" ∷ []))
unfolding program
seventh_overflows = (refl, refl)

run-IsValid_example : Returns IsValid (run seven empty)
run-IsValid_example = run-IsValid seven "e" objects

one-IsValid : IsValid (after one)
unfolding program
one-IsValid = run-IsValid one "e" objects

seven-IsValid : IsValid (after seven)
unfolding program
seven-IsValid = run-IsValid seven "e" objects

register-IsLowest_example :
    Returns (λ p. IsLowest (after one) p.1 × (slot_of "b" p.0 ≡ p.1)) (register 6 1 (after one))
unfolding program
register-IsLowest_example = register-IsLowest 6 1 (after one) one-IsValid refl

apply-Stays_example : Returns (Stays false "a" 0 1) (apply 9 (leave "b") (after seven))
unfolding program
apply-Stays_example = apply-Stays "a" 0 1 9 (leave "b") (after seven) seven-IsValid (refl, refl)

frame_live_example :
    Returns
      (λ f.
        (length f ≡ 6)
        × (g : ℕ) × (get_elem? (after one).slot_generation 0 ≡ some g)
        × (get_elem? f 0
            ≡ some (record {
              slot = 0;
              instance_id = some "a";
              generation = g;
              appearance = derive_display (some ((after one).objects 0));
              label = "a";
            })))
      (frame (after one))
unfolding program
frame_live_example = frame_live (after one) "a" 0 0 one-IsValid refl refl refl

abbrev takeover : History
takeover = (8, leave "a") ∷ (9, enrol 1) ∷ []

stale_press_example : validate_press "b" (some 1) (got (run takeover (after one))) ≡ ok false
unfolding program
stale_press_example =
    stale_press takeover (after one) (got (run takeover (after one))) "a" "b" 0 1 one-IsValid refl
      refl refl (ground (arith, eq_iff "b" "a")) refl

-- a registry that has just accepted message 4 of `b`, which it did not know
abbrev fed : Registry
fed = got (run ((9, snapshot 1 (some "p") (some 4)) ∷ []) (after one))

accept_once_example : accept_snapshot 10 1 (some "p") (some 4) fed ≡ ok (fed, false)
unfolding program
accept_once_example =
    accept_once 9 10 1 "p" "p" 4 4 (after one) fed one-IsValid refl (inr (omega arith))

-- A press on slot 0 that was captured while `a` had it passes after `a` has come back in slot 1:
-- the generations of the two slots agree by chance.
abbrev moved : History
moved = (8, leave "a") ∷ (9, enrol 1) ∷ (10, enrol 0) ∷ []

press_of_moved :
    (slot_of "a" (got (run moved (after one))) ≡ some 1)
    × (validate_press "a" (some 1) (got (run moved (after one))) ≡ ok true)
unfolding program
press_of_moved = (refl, refl)

-- A registry of more than six slots raises at the seventh registration, since there are places for
-- six occupants.
eight_slots_raise : run seven (new_registry 8 "e" objects) ≡ raise Error.index_error
unfolding program
eight_slots_raise = refl
