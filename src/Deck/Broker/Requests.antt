-- ===== src/Deck/Broker/Requests.antt =====
-- opencode-deck/opencode-deck/ocdeck/broker.py: `dispatch`, and the handler of a request with its
-- guards. Sockets and JSON texts are left out: a message has what the handler reads of it.
use Prim.Native.Nat.{◌-◌, ◌*◌}
use Prim.Native.Char.{Char, code}
use Prim.Native.String.{char_at}
use home_ailab.Prelude.{
  ℕ, zero, suc, ◌+◌, String, Bool, true, not, ◌&&◌, Option, none, some, List, [], ◌∷◌, Result, ok,
  raise, ◌>>=◌, Error, values, leb, ◌==◌, str_eq, truthy, starts_with, text_drop, join_texts,
  is_some, if◌then◌else◌, ℤ, pos, negsuc,
}
use home_ailab.Deck.Agents.{Agent, Registration}
use home_ailab.Deck.Registry.{Snapshot, upsert, snapshot}
use home_ailab.Deck.Registry.Removing.{remove}
use home_ailab.Deck.Registry.Views.{View, view}
use home_ailab.Deck.Broker.{Broker, Press, PressResult, Focus, Machine, handle_press}

-- the value of a hexadecimal digit
abbrev digit_value : Char → Option ℕ
digit_value c =
    if leb 48 (code c) && leb (code c) 57
    then some (code c - 48)
    else if leb 65 (code c) && leb (code c) 70
    then some (code c - 55)
    else if leb 97 (code c) && leb (code c) 102
    then some (code c - 87)
    else none

abbrev printable : String
printable =
    " !\"#$%&'()*+,-./0123456789:;<=>?@ABCDEFGHIJKLMNOPQRSTUVWXYZ[\\]^_`abcdefghijklmnopqrstuvwxyz{|}~"

-- the character of an escape, if it is one of printable ASCII
abbrev escaped_code : ℕ → Option Char
escaped_code n = if leb 32 n && leb n 126 then some (char_at printable (n - 32)) else none

abbrev escaped : Char → Char → Option Char
escaped h l = elim (digit_value h) [
  | none ↦ none
  | some a ↦ elim (digit_value l) [ none ↦ none | some b ↦ escaped_code (16 * a + b) ]
]

abbrev or_raw : Char → Option Char → String → String → String
or_raw c none raw cooked = String.◌∷◌ c raw
or_raw c (some d) raw cooked = String.◌∷◌ d cooked

-- `unquote` of a text whose escapes, if any, are of printable ASCII: an escape of another byte, which
-- the code decodes as UTF-8, is kept here
unfoldable pub unquote : String → String
unquote String.[] = ""
unquote (String.◌∷◌ c String.[]) = String.◌∷◌ c ""
unquote (String.◌∷◌ c (String.◌∷◌ h String.[])) = String.◌∷◌ c (String.◌∷◌ h "")
unquote (String.◌∷◌ c (String.◌∷◌ h (String.◌∷◌ l s))) =
    let raw = unquote (String.◌∷◌ h (String.◌∷◌ l s)) in
    let cooked = unquote s in
    if code c == 37 then or_raw c (escaped h l) raw cooked else String.◌∷◌ c raw

-- the body of a request, as each operation reads it
pub record Body : Type 0 where
  pub registration : Registration
  pub snapshot : Snapshot
  pub press : Press

pub record Status : Type 0 where
  pub slots : List View
  pub overflow : ℕ
  pub last_focus : Option Focus

pub data Answer : Type 0 where
  status : Status → Answer
  registered : Option ℕ → Answer
  accepted : Bool → Answer
  done : Answer
  pressed : PressResult → Answer

-- the agents without a slot
unfoldable pub count_overflow : List Agent → ℕ
count_overflow [] = 0
count_overflow (a ∷ agents) = (if is_some a.slot then 0 else 1) + count_overflow agents

abbrev instances : String
instances = "/v1/instances/"

module _ (m : Machine) (stale_after : ℕ) where
  unfoldable pub get_status : Broker → Result (Broker × Answer)
  unfolding count_overflow view values
  get_status b = do
    slots ← view m.now stale_after b.registry
    ok (
      b,
      status (record {
        slots = slots;
        overflow = count_overflow (values b.registry.records);
        last_focus = b.last_focus;
      }),
    )

  unfoldable pub register : Body → Broker → Result (Broker × Answer)
  unfolding upsert
  register body b = do
    r ← upsert m.probe m.now body.registration b.registry
    ok (record b { registry = r.0 }, registered r.1.slot)

  unfoldable pub put_instance : String → Body → Broker → Result (Broker × Answer)
  unfolding snapshot
  put_instance key body b = do
    r ← snapshot m.now key body.snapshot b.registry
    ok (record b { registry = r.0 }, accepted r.1)

  unfoldable pub delete_instance : String → Broker → Result (Broker × Answer)
  unfolding remove
  delete_instance key b = do r ← remove key b.registry; ok (record b { registry = r }, done)

  -- the last three tests of `dispatch`
  unfoldable pub dispatch_rest : String → String → Body → Broker → Result (Broker × Answer)
  unfolding handle_press
  dispatch_rest method path body b =
      if str_eq method "POST" && str_eq path "/v1/focus"
      then (do r ← handle_press m body.press true b; ok (r.0, pressed r.1))
      else if str_eq method "POST" && str_eq path "/v1/stop"
      then ok (record b { stopping = true }, done)
      else Result.raise Error.key_error

  unfoldable pub dispatch_instance : String → String → Body → Broker → Result (Broker × Answer)
  unfolding put_instance delete_instance dispatch_rest unquote text_drop
  dispatch_instance method path body b =
      let key = unquote (text_drop 14 path) in
      if str_eq method "PUT"
      then put_instance key body b
      else if str_eq method "DELETE"
      then delete_instance key b
      else dispatch_rest method path body b

  unfoldable pub dispatch : String → String → Body → Broker → Result (Broker × Answer)
  unfolding get_status register dispatch_instance dispatch_rest
  dispatch method path body b =
      if str_eq method "GET" && str_eq path "/v1/status"
      then get_status b
      else if str_eq method "POST" && str_eq path "/v1/register"
      then register body b
      else if starts_with path instances
      then dispatch_instance method path body b
      else dispatch_rest method path body b

-- what `json.loads` makes of the bytes
pub data Payload : Type 0 where
  invalid not_object : Payload
  object : Body → Payload

-- a request: Content-Length as `int` reads it, and the number of bytes that came
pub record Message : Type 0 where
  pub method : String
  pub path : String
  pub origin : Option String
  pub authorization : Option String
  pub content_length : Option ℤ
  pub received : ℕ
  pub payload : Payload

pub record Response : Type 0 where
  pub code : ℕ
  pub answer : Option Answer

abbrev pub refusal : ℕ → Response
refusal code = record { code = code; answer = none }

-- the handler's exceptions
abbrev pub error_code : Error → ℕ
error_code Error.key_error = 404
error_code Error.value_error = 400
error_code Error.type_error = 400
error_code Error.index_error = 500
error_code Error.attribute_error = 500
error_code Error.os_error = 500

abbrev pub respond : Broker → Result (Broker × Answer) → Broker × Response
respond b (ok (c, answer)) = (c, record { code = 200; answer = some answer })
respond b (raise e) = (b, refusal (error_code e))

-- `json.loads(raw) if raw else {}`, which has to be a dict
abbrev pub read_body : Body → ℕ → Payload → Result Body
read_body empty zero payload = ok empty
read_body empty (suc n) invalid = Result.raise Error.value_error
read_body empty (suc n) not_object = Result.raise Error.value_error
read_body empty (suc n) (object body) = ok body

abbrev pub or_empty : Option String → String
or_empty none = ""
or_empty (some s) = s

abbrev pub expected : String → String
expected token = join_texts "Bearer " token

module _ (m : Machine) (stale_after : ℕ) (token : String) (empty : Body) where
  -- the handler once the length is read and in its range
  unfoldable pub answer_sized : Message → ℕ → Broker → Broker × Response
  unfolding dispatch
  answer_sized q size b = respond b (do
    body ←
        (if not (q.received == size)
          then Result.raise Error.value_error
          else read_body empty size q.payload)
    dispatch m stale_after q.method q.path body b)

  abbrev pub answer_length : Message → Option ℤ → Broker → Broker × Response
  answer_length q none b = (b, refusal (error_code Error.value_error))
  answer_length q (some (negsuc n)) b = (b, refusal 413)
  answer_length q (some (pos size)) b =
      if leb size 65536 then answer_sized q size b else (b, refusal 413)

  unfoldable pub handle_request : Message → Broker → Broker × Response
  unfolding answer_sized
  handle_request q b =
      if truthy (or_empty q.origin)
      then (b, refusal 403)
      else if not (str_eq (or_empty q.authorization) (expected token))
      then (b, refusal 401)
      else answer_length q q.content_length b
