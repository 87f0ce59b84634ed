-- ===== src/Opendeck/Messages.antt =====
-- opendeck-broker/opendeck_broker/api.py: the requests and the answers of the REST service, and what a
-- request writes into a launch.
use home_ailab.Prelude.{
  ℕ, String, Bool, false, Option, none, some, List, [], ◌∷◌, Result, ok, ◌>>=◌, ℤ, pos, str_eq,
  if◌then◌else◌, truthy,
}
use home_ailab.Opendeck.Model.{
  Status, Instance, FocusTarget, parse_status, set_status, status_value,
}
use home_ailab.Opendeck.Objects.{update}
use home_ailab.Opendeck.Registry.{accept_snapshot}
use home_ailab.Opendeck.Registry.Frame.{SlotState}
use home_ailab.Opendeck.Registry.Diagnostics.{Diagnostics}
use home_ailab.Opendeck.Focus.{FocusResult}
use home_ailab.Opendeck.Broker.{Entry}
use home_ailab.Opendeck.Adapter.{Adapter, Launch, Request, next_seq}

pub data Method : Type 0 where
  get post put delete : Method

-- the fields of the JSON body that the handlers read
pub record Body : Type 0 where
  pub instance_id : Option String
  pub expected_generation : Option ℕ
  pub directory : Option String
  pub alias : Option String
  pub pid : Option ℤ
  pub start_time : Option ℕ
  pub focus_target : Option FocusTarget
  pub status : Option String
  pub pending_permission_ids : Option (List String)
  pub pending_question_ids : Option (List String)

pub record HttpRequest : Type 0 where
  pub method : Method
  pub path : String
  pub token : Option String
  pub body : Body

-- `Broker.diagnostics()`
pub record BrokerDiagnostics : Type 0 where
  pub registry : Diagnostics
  pub focus_log_tail : List Entry
  pub pending_presses : ℕ
  pub device_connected : Bool

-- the bodies of the replies; `streamed` is the first event of the deck's stream
pub data Reply : Type 0 where
  error : String → Reply
  shown : List SlotState → Reply
  streamed : List SlotState → Reply
  diagnosed : BrokerDiagnostics → Reply
  registered : String → Option ℕ → String → Reply
  heard : Option String → Reply
  focused : FocusResult → Reply
  applied : Bool → Reply
  detached : Bool → Reply

pub record Response : Type 0 where
  pub code : ℕ
  pub reply : Reply

abbrev pub answer : ℕ → Reply → Response
answer code reply = record { code = code; reply = reply }

abbrev pub unauthorized : Response
unauthorized = answer 401 (Reply.error "unauthorized")

abbrev pub not_found : Response
not_found = answer 404 (Reply.error "not_found")

-- a message for the subscribers of the deck's stream
pub record DeckMessage : Type 0 where
  pub kind : String
  pub frame : List SlotState

-- x.get(key, default)
abbrev pub default {ℓ} : {A : Type ℓ} → A → Option A → A
default d none = d
default d (some a) = a

-- bool(x) for a text that may be missing
abbrev pub has_text : Option String → Bool
has_text none = false
has_text (some s) = truthy s

-- `_authorized`
abbrev pub is_authorized : String → Option String → Bool
is_authorized token none = false
is_authorized token (some given) = str_eq given token

-- `register_launch`'s arguments, from the body
unfoldable pub launch_request : Body → Request
launch_request b = record {
  directory = default "" b.directory;
  alias = default "" b.alias;
  pid = default (pos 0) b.pid;
  start_time = b.start_time;
  focus_target = b.focus_target;
}

-- what `_snapshot` writes to the instance before it offers it
unfoldable pub write_body : Status → Body → ℕ → Instance → Instance
unfolding set_status
write_body status b seq i = record (set_status status i) {
  pending_permission_ids = default [] b.pending_permission_ids;
  pending_question_ids = default [] b.pending_question_ids;
  sequence = seq;
}

-- `next((l for l in launches if l.instance_id == iid), None)`
unfoldable pub find_launch : String → List Launch → Option Launch
find_launch iid [] = none
find_launch iid (l ∷ ls) = if str_eq l.instance_id iid then some l else find_launch iid ls

-- `_snapshot` on the adapter, once the launch is found
unfoldable pub put_facts : ℕ → Launch → Body → Adapter → Result (Adapter × Bool)
unfolding write_body next_seq
put_facts now l b a = do
  let current = status_value (a.registry.objects l.instance_ref).status
  status ← parse_status (default current b.status)
  let a' = next_seq a
  let r = record a'.registry {
    objects = update l.instance_ref (write_body status b a'.seq) a'.registry.objects;
  }
  (r', accepted) ← accept_snapshot now l.instance_ref (some a'.producer_epoch) (some a'.seq) r
  ok (record a' { registry = r' }, accepted)
