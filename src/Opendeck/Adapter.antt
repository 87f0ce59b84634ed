-- ===== src/Opendeck/Adapter.antt =====
-- opendeck-broker/opendeck_broker/opencode/adapter.py: launches of OpenCode terminals are bound to
-- instances of the registry, and what the observer reads is pushed to them.
pub mod Coherence
pub mod Written
pub mod Ended
pub mod Rounds
pub mod Outcomes
pub mod Refreshing
pub mod Displays
pub mod Launching
pub mod Leaving
mod Tests
use Prim.Native.String.{slice}
use home_ailab.Prelude.{
  ℕ, ◌+◌, String, Bool, true, false, not, Option, none, some, List, [], ◌∷◌, Result, ok, raise,
  ◌>>=◌, Dict, lookup, insert, erase, values, ℤ, truthy, nonempty, join_texts, if◌then◌else◌,
}
use home_ailab.Opendeck.Model.{Status, FocusTarget, Process, Instance, set_status}
use home_ailab.Opendeck.Objects.{Ref, Objects, update}
use home_ailab.Opendeck.Registry.{
  Registry, register, accept_snapshot, heartbeat, detach, process_exit, mark_untrusted,
}
use home_ailab.Opendeck.Paths.{norm_dir}
use home_ailab.Opendeck.Observe.{SessionState}

-- `instance` refers to the object that the registry has
pub record Launch : Type 0 where
  pub instance_id : String
  pub directory : String
  pub marker : String
  pub instance_ref : Ref

-- `OpenCodeAdapter`; the observer is an argument of `refresh`
pub record Adapter : Type 0 where
  pub registry : Registry
  pub producer_epoch : String
  pub seq : ℕ
  pub launches : Dict Launch

-- `OpenCodeAdapter(registry, observer)`, where `uuid4().hex` is `epoch`
unfoldable pub new_adapter : Registry → String → Adapter
new_adapter r epoch = record { registry = r; producer_epoch = epoch; seq = 0; launches = [] }

-- `_next_seq`: the number is the new `_seq`
unfoldable pub next_seq : Adapter → Adapter
next_seq a = record a { seq = a.seq + 1 }

-- what a client sends to have a launch registered
pub record Request : Type 0 where
  pub directory : String
  pub alias : String
  pub pid : ℤ
  pub start_time : Option ℕ
  pub focus_target : Option FocusTarget

-- `f"opencode:{alias}-{instance_id[:6]}"`
abbrev pub made_marker : String → String → String
made_marker alias iid = join_texts "opencode:" (join_texts alias (join_texts "-" (slice iid 0 6)))

abbrev pub marker_or : Option String → String → String
marker_or none made = made
marker_or (some marker) made = if truthy marker then marker else made

-- `focus_target["opaqueId"]` if there is one that is not empty, and else a marker of the launch
unfoldable pub launch_marker : Option FocusTarget → String → String → String
launch_marker none alias iid = made_marker alias iid
launch_marker (some t) alias iid =
    if nonempty t
    then marker_or (lookup "opaqueId" t) (made_marker alias iid)
    else made_marker alias iid

abbrev made_target : String → FocusTarget
made_target marker = ("kind", "windows-terminal-window") ∷ ("opaqueId", marker) ∷ []

-- `focus_target or {...}`
unfoldable pub launch_target : Option FocusTarget → String → FocusTarget
launch_target none marker = made_target marker
launch_target (some t) marker = if nonempty t then t else made_target marker

-- the `Instance` that `register_launch` makes
unfoldable pub launch_instance : String → String → ℕ → Request → Instance
unfolding launch_marker launch_target norm_dir
launch_instance iid epoch seq q = record {
  instance_id = iid;
  process = record { pid = q.pid; start_time = q.start_time };
  ui_attachment_id = iid;
  directory = norm_dir (some q.directory);
  focus_target = some (launch_target q.focus_target (launch_marker q.focus_target q.alias iid));
  producer_epoch = epoch;
  sequence = seq;
  status = Status.idle;
  pending_permission_ids = [];
  pending_question_ids = [];
  error = none;
  live = true;
  telemetry_trusted = true;
  identity_label = q.alias;
}

-- `register_launch` at the time `now`; the new object is at `ref`, and `uuid4().hex` is `iid`
unfoldable pub register_launch :
    ℕ → Ref → String → Request → Adapter → Result (Adapter × String × Option ℕ)
unfolding next_seq launch_instance launch_marker norm_dir
register_launch now ref iid q a = do
  let a' = next_seq a
  let inst = launch_instance iid a'.producer_epoch a'.seq q
  let r = record a'.registry { objects = update ref (λ old. inst) a'.registry.objects }
  (r', slot) ← register now ref r
  let launch : Launch = record {
    instance_id = iid;
    directory = norm_dir (some q.directory);
    marker = launch_marker q.focus_target q.alias iid;
    instance_ref = ref;
  }
  ok (record a' { registry = r'; launches = insert iid launch a'.launches }, iid, slot)

unfoldable pub detach_launch : String → Adapter → Result (Adapter × Bool)
detach_launch iid a = do
  (r, gone) ← detach iid a.registry
  ok (record a { registry = r; launches = erase iid a.launches }, gone)

unfoldable pub mark_dead : String → Adapter → Result (Adapter × Bool)
mark_dead iid a = do
  (r, gone) ← process_exit iid a.registry
  ok (record a { registry = r; launches = erase iid a.launches }, gone)

-- `heartbeat` of the adapter
unfoldable pub beat : ℕ → String → Adapter → Adapter × Option String
beat now iid a = let (r, epoch) = heartbeat now iid a.registry in (record a { registry = r }, epoch)

-- `states.get(_norm_dir(launch.directory))` where the state is not `None` and has a session
abbrev pub with_session : Option SessionState → Option SessionState
with_session none = none
with_session (some st) = if st.has_session then some st else none

-- what `refresh` writes to an instance: of a directory without a session, or with one
unfoldable pub observe : Option SessionState → Instance → Instance
unfolding set_status
observe none i = record (set_status Status.idle i) {
  pending_question_ids = [];
  pending_permission_ids = [];
}
observe (some st) i = record (set_status st.status i) {
  pending_question_ids = st.pending_questions;
  pending_permission_ids = st.pending_permissions;
}

-- the second half of a round of `refresh`, for a process that lives
unfoldable pub push : ℕ → Dict SessionState → Bool → Launch → Adapter → Result Adapter
unfolding observe next_seq norm_dir
push now states db_ok launch a = do
  let iid = (a.registry.objects launch.instance_ref).instance_id
  let r = mark_untrusted iid db_ok a.registry
  let st = with_session (lookup (norm_dir (some launch.directory)) states)
  let a' = next_seq a
  let written =
      update launch.instance_ref (λ i. record (observe st i) { sequence = a'.seq }) r.objects
  (r', accepted) ←
      accept_snapshot now launch.instance_ref (some a'.producer_epoch) (some a'.seq)
        (record r { objects = written })
  ok (record a' { registry = r' })

-- a round of `refresh`; `alive` is `is_alive` of the process
unfoldable pub refresh_launch :
    ℕ → Dict SessionState → Bool → (Process → Result Bool) → Launch → Adapter → Result Adapter
unfolding push mark_dead
refresh_launch now states db_ok alive launch a = do
  lives ← alive (a.registry.objects launch.instance_ref).process
  if lives
      then push now states db_ok launch a
      else (do (a', gone) ← mark_dead launch.instance_id a; ok a')

unfoldable pub refresh_all :
    ℕ → Dict SessionState → Bool → (Process → Result Bool) → List Launch → Adapter → Result Adapter
unfolding refresh_launch
refresh_all now states db_ok alive [] a = ok a
refresh_all now states db_ok alive (launch ∷ rest) a = do
  a' ← refresh_launch now states db_ok alive launch a
  refresh_all now states db_ok alive rest a'

-- what the observer gives, or no states and `db_ok = False` if it raises
abbrev pub observed : Result (Dict SessionState) → Dict SessionState × Bool
observed (ok states) = (states, true)
observed (raise e) = ([], false)

-- `refresh` at the time `now`, where `snapshot` is what the observer gives or raises
unfoldable pub refresh :
    ℕ → Result (Dict SessionState) → (Process → Result Bool) → Adapter → Result Adapter
unfolding refresh_all
refresh now snapshot alive a =
    let (states, db_ok) = observed snapshot in
    refresh_all now states db_ok alive (values a.launches) a
