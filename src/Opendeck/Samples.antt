-- ===== src/Opendeck/Samples.antt =====
-- opendeck-broker/opendeck_broker/opencode/adapter.py: an adapter with one launch, for the tests.
use home_ailab.Prelude.{
  ℕ, ◌≡◌, refl, String, true, Option, none, some, [], Result, ok, raise, lookup, insert, erase,
  keys, values, pos,
}
use home_ailab.Opendeck.Model.{Status, Instance, display_of, set_status}
use home_ailab.Opendeck.Objects.{Objects, update}
use home_ailab.Opendeck.Registry.{
  new_registry, slot_count, register, accept_snapshot, expire, sweep_expired, heartbeat,
}
use home_ailab.Opendeck.Paths.{norm_dir}
use home_ailab.Opendeck.Adapter.{
  Adapter, Launch, Request, new_adapter, register_launch, refresh, detach_launch, beat,
  launch_marker,
}
use home_ailab.Opendeck.Adapter.Coherence.{IsCoherent}
use home_ailab.Opendeck.Adapter.Launching.{
  IsFresh, new_adapter-IsCoherent, register_launch-IsCoherent,
}

abbrev pub blank : Instance
blank = record {
  instance_id = "";
  process = record { pid = pos 0; start_time = none };
  ui_attachment_id = "";
  directory = "";
  focus_target = none;
  producer_epoch = "";
  sequence = 0;
  status = Status.idle;
  pending_permission_ids = [];
  pending_question_ids = [];
  error = none;
  live = true;
  telemetry_trusted = true;
  identity_label = "";
}

abbrev pub objects : Objects
objects ref = blank

abbrev pub request : Request
request = record {
  directory = "C:\\work\\";
  alias = "work";
  pid = pos 7;
  start_time = none;
  focus_target = none;
}

unfoldable pub start : Adapter
unfolding new_adapter new_registry
start = new_adapter (new_registry slot_count "b" objects) "e"

abbrev adapter_of : Result (Adapter × String × Option ℕ) → Adapter
adapter_of (ok p) = p.0
adapter_of (raise e) = start

unfoldable pub launched : Adapter
unfolding start register_launch register
launched = adapter_of (register_launch 100 0 "abcdef1234" request start)

abbrev pub launch : Launch
launch = record {
  instance_id = "abcdef1234";
  directory = "C:/work";
  marker = "opencode:work-abcdef";
  instance_ref = 0;
}

program : Unit {0}
unfolding start launched new_adapter new_registry register_launch register refresh detach_launch
    beat accept_snapshot expire sweep_expired heartbeat lookup insert erase keys values update
    norm_dir display_of set_status launch_marker
program = tt

pub start-IsCoherent : IsCoherent start
unfolding start
start-IsCoherent = new_adapter-IsCoherent objects "b" "e"

pub fresh : IsFresh 0 "abcdef1234" start
unfolding program
fresh = record { instances = λ k e. cc; launches = λ k l e. cc; unknown = refl; unused = refl }

pub launched_at : lookup "abcdef1234" launched.launches ≡ some launch
unfolding program
launched_at = refl

pub launched-IsCoherent : IsCoherent launched
unfolding program
launched-IsCoherent =
    (register_launch-IsCoherent 100 0 "abcdef1234" request start-IsCoherent fresh).0
