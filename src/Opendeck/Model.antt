-- ===== src/Opendeck/Model.antt =====
-- opendeck-broker/opendeck_broker/model.py: the facts kept of one OpenCode TUI, the operations on
-- them, and the reducer that turns them into what a key shows.
pub mod Pending
mod Tests
use home_ailab.Prelude.{
  ℕ, String, Bool, true, false, not, ◌&&◌, ◌||◌, Option, none, some, List, [], ◌∷◌, ◌++◌, Result,
  ok, raise, Error, Dict, ℤ, eq_ℤ, ◌==◌, str_eq, truthy, nonempty, contains, remove, if◌then◌else◌,
}

pub data Status : Type 0 where
  idle busy retry : Status

-- `Status(value)`
unfoldable pub parse_status : String → Result Status
parse_status s =
    if str_eq s "idle"
    then ok Status.idle
    else if str_eq s "busy"
    then ok Status.busy
    else if str_eq s "retry"
    then ok Status.retry
    else raise Error.value_error

-- `status.value`
unfoldable pub status_value : Status → String
status_value Status.idle = "idle"
status_value Status.busy = "busy"
status_value Status.retry = "retry"

pub data DisplayAppearance : Type 0 where
  black idle run input unknown : DisplayAppearance

unfoldable pub appearance_value : DisplayAppearance → String
appearance_value DisplayAppearance.black = "black"
appearance_value DisplayAppearance.idle = "idle"
appearance_value DisplayAppearance.run = "run"
appearance_value DisplayAppearance.input = "input"
appearance_value DisplayAppearance.unknown = "unknown"

unfoldable pub appearance_color : DisplayAppearance → String
appearance_color DisplayAppearance.run = "#2fd06f"
appearance_color DisplayAppearance.idle = "#f5b13d"
appearance_color DisplayAppearance.input = "#ff5a4e"
appearance_color DisplayAppearance.unknown = "#f5b13d"
appearance_color DisplayAppearance.black = "#000000"

unfoldable pub appearance_label : DisplayAppearance → String
appearance_label DisplayAppearance.run = "RUN"
appearance_label DisplayAppearance.idle = "IDLE"
appearance_label DisplayAppearance.input = "INPUT"
appearance_label DisplayAppearance.unknown = "?"
appearance_label DisplayAppearance.black = ""

pub record Process : Type 0 where
  pub pid : ℤ
  pub start_time : Option ℕ

-- the test on the creation times: both known and different refutes
abbrev pub times_agree : Option ℕ → Option ℕ → Bool
times_agree none b = true
times_agree (some a) none = true
times_agree (some a) (some b) = a == b

-- `Process.matches`
unfoldable pub matches : Process → Process → Bool
matches p q = if not (eq_ℤ p.pid q.pid) then false else times_agree p.start_time q.start_time

-- A focus target is a JSON object of texts; the code reads its `opaqueId`.
abbrev pub FocusTarget : Type 0
FocusTarget = Dict String

pub record Instance : Type 0 where
  pub instance_id : String
  pub process : Process
  pub ui_attachment_id : String
  pub directory : String
  pub focus_target : Option FocusTarget
  pub producer_epoch : String
  pub sequence : ℕ
  pub status : Status
  pub pending_permission_ids : List String
  pub pending_question_ids : List String
  pub error : Option String
  pub live : Bool
  pub telemetry_trusted : Bool
  pub identity_label : String

unfoldable pub set_status : Status → Instance → Instance
set_status s i = record i { status = s }

-- the body of `add_permission` and `add_question`, over the list
abbrev pub add_id : String → List String → List String
add_id x l = if truthy x && not (contains x l) then l ++ x ∷ [] else l

-- the body of `remove_permission` and `remove_question`, over the list
abbrev pub remove_id : String → List String → List String
remove_id x l = if contains x l then remove x l else l

unfoldable pub add_permission : String → Instance → Instance
add_permission x i = record i { pending_permission_ids = add_id x i.pending_permission_ids }

unfoldable pub remove_permission : String → Instance → Instance
remove_permission x i = record i { pending_permission_ids = remove_id x i.pending_permission_ids }

unfoldable pub add_question : String → Instance → Instance
add_question x i = record i { pending_question_ids = add_id x i.pending_question_ids }

unfoldable pub remove_question : String → Instance → Instance
remove_question x i = record i { pending_question_ids = remove_id x i.pending_question_ids }

unfoldable pub has_pending_input : Instance → Bool
has_pending_input i = nonempty i.pending_permission_ids || nonempty i.pending_question_ids

abbrev pub is_running : Status → Bool
is_running Status.idle = false
is_running Status.busy = true
is_running Status.retry = true

unfoldable pub is_busy : Instance → Bool
is_busy i = is_running i.status

-- the tests of `derive_display` on an instance that is there
unfoldable pub display_of : Instance → DisplayAppearance
unfolding has_pending_input is_busy
display_of i =
    if not i.live
    then DisplayAppearance.black
    else if not i.telemetry_trusted
    then DisplayAppearance.unknown
    else if has_pending_input i
    then DisplayAppearance.input
    else if is_busy i
    then DisplayAppearance.run
    else DisplayAppearance.idle

unfoldable pub derive_display : Option Instance → DisplayAppearance
unfolding display_of
derive_display none = DisplayAppearance.black
derive_display (some i) = display_of i
