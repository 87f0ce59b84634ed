-- ===== src/Opendeck/Model/Tests.antt =====
-- opendeck-broker/opendeck_broker/model.py: the theorems at a concrete instance, and tests.
use home_ailab.Prelude.{◌≡◌, refl, true, false, none, some, List, [], ◌∷◌, pos, contains, remove}
use home_ailab.Opendeck.Model.{
  Instance, Process, DisplayAppearance, matches, derive_display, idle, busy, add_permission,
  remove_permission, add_question, remove_question,
}
use home_ailab.Opendeck.Model.Pending.{
  Event, status, permission_asked, permission_done, question_asked, observe_all, request_round_trip,
}

program : Unit {0}
unfolding observe_all derive_display contains remove matches add_permission remove_permission
program = tt

abbrev fresh : Instance
fresh = record {
  instance_id = "a";
  process = record { pid = pos 7; start_time = none };
  ui_attachment_id = "a";
  directory = "/work";
  focus_target = none;
  producer_epoch = "p";
  sequence = 1;
  status = idle;
  pending_permission_ids = [];
  pending_question_ids = [];
  error = none;
  live = true;
  telemetry_trusted = true;
  identity_label = "a";
}

abbrev events : List Event
events =
    permission_asked "p1"
    ∷ question_asked "q1"
    ∷ status busy
    ∷ permission_asked "p1"
    ∷ permission_done "p1"
    ∷ status idle
    ∷ []

abbrev asked : Instance
asked = record fresh { pending_question_ids = "q1" ∷ [] }

abbrev later : List Event
later = permission_asked "p1" ∷ status busy ∷ permission_done "p1" ∷ status idle ∷ []

request_round_trip_example :
    ((contains "p1" (add_permission "p1" asked).pending_permission_ids ≡ true)
      × (add_permission "p1" (add_permission "p1" asked) ≡ add_permission "p1" asked)
      × (remove_permission "p1" (add_permission "p1" asked) ≡ asked))
    × ((contains "p1" (add_question "p1" asked).pending_question_ids ≡ true)
        × (add_question "p1" (add_question "p1" asked) ≡ add_question "p1" asked)
        × (remove_question "p1" (add_question "p1" asked) ≡ asked))
unfolding program
request_round_trip_example = request_round_trip "p1" asked refl refl refl

-- a request that is asked twice is listed once, so being done with it once is enough
asked_twice :
    derive_display (
      some (
        observe_all
          (permission_asked "p1" ∷ permission_asked "p1" ∷ permission_done "p1" ∷ [])
          fresh))
    ≡ DisplayAppearance.idle
unfolding program
asked_twice = refl

abbrev dated : Process
dated = record { pid = pos 7; start_time = some 100 }

abbrev recycled : Process
recycled = record { pid = pos 7; start_time = some 200 }

-- a recycled pid is told apart only if both creation times are known
recycled_pids :
    (matches dated recycled ≡ false)
    × (matches dated fresh.process ≡ true)
    × (matches fresh.process recycled ≡ true)
unfolding program
recycled_pids = (refl, refl, refl)
