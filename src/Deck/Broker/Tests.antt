-- ===== src/Deck/Broker/Tests.antt =====
-- opencode-deck/opencode-deck/ocdeck/broker.py: concrete requests and presses, and the instances of
-- the theorems at them.
use home_ailab.Prelude.{
  ℕ, ◌≡◌, refl, inr, String, true, false, Option, none, some, List, [], ◌∷◌, Result, ok, raise,
  lookup, insert, keys, values, pos, negsuc, text_take, text_drop,
}
use home_ailab.Deck.Agents.{Agent, new_registry}
use home_ailab.Deck.Registry.{upsert, snapshot}
use home_ailab.Deck.Registry.Removing.{remove, sweep}
use home_ailab.Deck.Registry.Views.{view, resolve}
use home_ailab.Deck.Broker.{
  Broker, Press, Focus, Machine, check_press, record_press, handle_press, press_key, serve_round,
  put_press,
}
use home_ailab.Deck.Broker.Requests.{
  Body, Message, Response, Payload, unquote, dispatch, handle_request,
}
use home_ailab.Deck.Broker.Guards.{Allowed, handle_request-Allowed}
use home_ailab.Deck.Broker.Debounce.{Step, trace, IsSpaced, trace-IsSpaced}

program : Unit {0}
unfolding new_registry upsert snapshot remove sweep view resolve lookup insert keys values text_take
    text_drop check_press record_press handle_press press_key serve_round dispatch handle_request
    unquote trace put_press
program = tt

-- every process lives, every window comes to the front
abbrev machine : ℕ → Machine
machine now = record {
  probe = λ p. some true;
  activate = λ a. record { success = true; reason = "activated" };
  now = now;
  time = now;
}

abbrev press_of : ℕ → String → Press
press_of i key = record { slot = some (pos i); generation = some 1; id = some key }

abbrev no_body : Body
no_body = record {
  registration = record { id = none; process = none; label = none; window_token = none };
  snapshot = record { status = none; seq = none; producer = none; pending = none; detail = none };
  press = record { slot = none; generation = none; id = none };
}

abbrev enrolment : Body
enrolment = record no_body {
  registration = record {
    id = some "a";
    process = some (record { pid = pos 7; created = 100 });
    label = none;
    window_token = none;
  };
}

abbrev empty_broker : Broker
empty_broker = record {
  registry = new_registry;
  stopping = false;
  presses = [];
  last_focus = none;
  last_press = [];
}

abbrev request : Message
request = record {
  method = "POST";
  path = "/v1/register";
  origin = none;
  authorization = some "Bearer 5ecret";
  content_length = some (pos 80);
  received = 80;
  payload = Payload.object enrolment;
}

abbrev answered : Broker × Response
answered = handle_request (machine 1000) 10000 "5ecret" no_body request empty_broker

accepted : answered.1.code ≡ 200
unfolding program
accepted = refl

-- a request of a web page is refused
foreign :
    (handle_request
      (machine 1000)
      10000
      "5ecret"
      no_body
      (record request { origin = some "http://evil.test" })
      empty_broker).1.code
    ≡ 403
unfolding program
foreign = refl

escapes : unquote "chat%201%2F2" ≡ "chat 1/2"
unfolding program
escapes = refl

handle_request-Allowed_example : Allowed "5ecret" request
handle_request-Allowed_example =
    handle_request-Allowed (machine 1000) 10000 "5ecret" no_body request empty_broker (inr accepted)

-- three presses of one key, one after the other: the second one is too soon
abbrev presses : List Step
presses =
    Step.check (machine 2000) (press_of 0 "a") false
    ∷ Step.finish 0
    ∷ Step.check (machine 2100) (press_of 0 "a") false
    ∷ Step.finish 0
    ∷ Step.check (machine 2200) (press_of 0 "a") true
    ∷ Step.finish 0
    ∷ []

activations : trace presses [] answered.0 ≡ ("a", 2000) ∷ ("a", 2200) ∷ []
unfolding program
activations = refl

trace-IsSpaced_example : IsSpaced (trace presses [] answered.0)
trace-IsSpaced_example = trace-IsSpaced presses answered.0 tt

-- the agent that the request has registered
abbrev pressed : Agent
pressed = record {
  id = "a";
  process = record { pid = pos 7; created = 100 };
  slot = some 0;
  label = "OpenCode";
  window_token = "";
  seq = negsuc 0;
  producer = none;
  retired = [];
  status = "unknown";
  pending = 0;
  last_state = 0;
  last_seen = 1000;
  detail = "Connecting";
}

abbrev focus_id : Option Focus → Option String
focus_id none = none
focus_id (some f) = some f.id

abbrev focused_id : Result (Broker × ℕ) → Option String
focused_id (raise e) = none
focused_id (ok r) = focus_id r.0.last_focus

-- a device's press enters the queue, and the round of the loop handles it
served :
    focused_id (
      serve_round (machine 3000) 0 (press_key (pos 0) true (some (press_of 0 "a") ∷ []) answered.0))
    ≡ some "a"
unfolding program
served = refl
