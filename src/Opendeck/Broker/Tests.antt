-- ===== src/Opendeck/Broker/Tests.antt =====
-- opendeck-broker/opendeck_broker/broker.py and focus/windows.py: the theorems at a concrete broker
-- with the device in memory and a desktop of three windows, and tests.
use home_ailab.Prelude.{
  ℕ, ◌≡◌, refl, String, true, false, none, some, List, [], ◌∷◌, ◌++◌, Result, ok, str_eq, eq_iff,
  Table, find, put, map, lookup, insert, erase, keys, pos, Returns,
}
use home_ailab.Opendeck.Model.{Instance, idle, display_of}
use home_ailab.Opendeck.Objects.{Objects, update}
use home_ailab.Opendeck.Device.{
  MockDevice, mock_adapter, mock_shown, new_mock, mock_connect, mock_set_key_image, mock-IsReliable,
}
use home_ailab.Opendeck.Focus.{Desktop, matching, verdict, focus_marker, focus_status_value, is_in}
use home_ailab.Opendeck.Focus.Targets.{focus_marker_success}
use home_ailab.Opendeck.Registry.{Registry, new_registry, register, slot_count, slot_of}
use home_ailab.Opendeck.Registry.Frame.{SlotState, frame}
use home_ailab.Opendeck.Registry.Validity.{IsValid}
use home_ailab.Opendeck.Registry.Calls.{enrol, run, run-IsValid}
use home_ailab.Opendeck.Broker.{
  Painter, Broker, Press, new_broker, upload, render, with_uploads, maybe_reconnect, on_key,
}
use home_ailab.Opendeck.Broker.Focusing.{handle_press, press_marker, process_presses}
use home_ailab.Opendeck.Broker.Delays.{captured, process_presses_once}
use home_ailab.Opendeck.Broker.Uploads.{keys_from, IsCoherent, image_of, upload_lost}
use home_ailab.Opendeck.Broker.Rendering.{render_shows}

program : Unit {0}
unfolding run register new_registry slot_of frame lookup insert erase keys update display_of
    matching is_in focus_marker focus_status_value verdict new_mock mock_connect mock_set_key_image
    new_broker upload render maybe_reconnect on_key handle_press press_marker process_presses find
    put
program = tt

-- an image is the label that it bears
abbrev painter : Painter
painter = record { Image = String; paint = λ a label size. label; same = str_eq }

-- the foreground window is the whole changing state of the desktop
abbrev desk : Desktop
desk = record {
  World = ℕ;
  enumerate =
      λ w. (11, "mail") ∷ (12, "opencode:a-1") ∷ (13, "opencode:b-2") ∷ (14, "opencode:b-2") ∷ [];
  show = λ h cmd w. (none, w);
  set_foreground = λ h w. (none, h);
  get_foreground = λ w. w;
  lower = λ t. t;
}

focus_marker_success_example :
    (hwnd : ℕ) × (matching desk "opencode:a-1" (desk.enumerate 11) ≡ hwnd ∷ [])
    × ((focus_marker desk "opencode:a-1" 11).0.hwnd ≡ some hwnd)
    × (desk.get_foreground (focus_marker desk "opencode:a-1" 11).1 ≡ hwnd)
unfolding program
focus_marker_success_example = focus_marker_success desk "opencode:a-1" 11 refl

abbrev launch : Instance
launch = record {
  instance_id = "a";
  process = record { pid = pos 7; start_time = none };
  ui_attachment_id = "a";
  directory = "/work";
  focus_target = some (("opaqueId", "opencode:a-1") ∷ []);
  producer_epoch = "p";
  sequence = 1;
  status = idle;
  pending_permission_ids = [];
  pending_question_ids = [];
  error = none;
  live = true;
  telemetry_trusted = true;
  identity_label = "alpha";
}

abbrev objects : Objects
objects ref = launch

abbrev empty : Registry
empty = new_registry slot_count "e" objects

abbrev got : Result Registry → Registry
got (ok r) = r
got (Result.raise e) = empty

abbrev registry : Registry
registry = got (run ((5, enrol 0) ∷ []) empty)

registry-IsValid : IsValid registry
unfolding program
registry-IsValid = run-IsValid ((5, enrol 0) ∷ []) "e" objects

abbrev press : Press
press = record { slot = 0; instance_id = some "a"; generation = 1 }

abbrev old_press : Press
old_press = record { slot = 0; instance_id = some "b"; generation = 1 }

abbrev device : MockDevice String
device = (mock_connect (new_mock 2 3)).0

abbrev broker : Broker painter (mock_adapter String)
broker = record (new_broker painter (mock_adapter String) registry (some device) true 144 none) {
  press_queue = press ∷ old_press ∷ [];
}

process_presses_once_example :
    Returns
      (λ x.
        (map captured x.2 ≡ broker.press_queue)
        × (x.0 ≡ record broker { press_queue = []; focus_log = broker.focus_log ++ x.2 }))
      (process_presses desk broker 11)
unfolding program
process_presses_once_example = process_presses_once desk broker 11 registry-IsValid

upload_lost_example :
    upload painter
      (mock_adapter String)
      0
      "x"
      (upload painter (mock_adapter String) 0 "x" ([], new_mock 2 3)).0
    ≡ ((put 0 "x" [], new_mock 2 3), false)
unfolding program
upload_lost_example =
    upload_lost painter (mock_adapter String) 0 "x" [] (new_mock 2 3) (new_mock 2 3) refl refl refl

render_shows_example :
    (f : List SlotState) × (y : Table String × MockDevice String) × (frame broker.registry ≡ ok f)
    × (render painter (mock_adapter String) broker
        ≡ ok (with_uploads painter (mock_adapter String) broker y))
    × (y.1.connected ≡ true)
    × IsCoherent painter (mock_adapter String) mock_shown y
    × (keys_from painter (mock_adapter String) mock_shown 0 6 y.1
        ≡ map (λ ss. some (image_of painter 144 ss)) f)
unfolding program
render_shows_example =
    render_shows painter (mock_adapter String) mock_shown eq_iff mock-IsReliable broker device
      registry-IsValid refl refl (λ i image e. cc)

abbrev replugged : Broker painter (mock_adapter String)
replugged = record broker { rendered = (0, "alpha") ∷ []; device_was_connected = false }
