-- ===== src/Opendeck/Api/Tests.antt =====
-- opendeck-broker/opendeck_broker/api.py: the theorems at a concrete server, and tests.
use home_ailab.Prelude.{
  ℕ, ◌≡◌, refl, String, true, false, Option, none, some, List, [], ◌∷◌, Result, ok, raise, Error,
  lookup, insert, erase, keys, values, Returns, str_eq, ap,
}
use home_ailab.Opendeck.Model.{set_status, parse_status, status_value, display_of}
use home_ailab.Opendeck.Objects.{update}
use home_ailab.Opendeck.Device.{mock_adapter}
use home_ailab.Opendeck.Focus.{Desktop}
use home_ailab.Opendeck.Registry.{
  register, accept_snapshot, new_registry, heartbeat, detach, free_slot,
}
use home_ailab.Opendeck.Registry.Frame.{frame}
use home_ailab.Opendeck.Broker.{Painter, new_broker, render, upload}
use home_ailab.Opendeck.Adapter.{register_launch, detach_launch, beat, launch_marker, new_adapter}
use home_ailab.Opendeck.Paths.{norm_dir}
use home_ailab.Opendeck.Routes.{split_path}
use home_ailab.Opendeck.Samples.{start, launched, launch}
use home_ailab.Opendeck.Messages.{
  Method, HttpRequest, Body, Reply, Response, put_facts, write_body, find_launch,
}
use home_ailab.Opendeck.Api.{Server, handle}
use home_ailab.Opendeck.Api.Access.{IsRefusal, handle_refused}
use home_ailab.Opendeck.Api.Snapshots.{put_facts_raises}

-- an image is the label that it bears
abbrev painter : Painter
painter = record { Image = String; paint = λ a label size. label; same = str_eq }

abbrev desk : Desktop
desk = record {
  World = ℕ;
  enumerate = λ w. (11, "mail") ∷ (12, "opencode:work-abcdef") ∷ [];
  show = λ h cmd w. (none, w);
  set_foreground = λ h w. (none, h);
  get_foreground = λ w. w;
  lower = λ t. t;
}

abbrev server : Server painter (mock_adapter String) desk
server = record {
  token = "secret";
  broker = new_broker painter (mock_adapter String) launched.registry none true 80 (some 15);
  adapter = launched;
  subscribers = [];
}

abbrev empty : Body
empty = record {
  instance_id = none;
  expected_generation = none;
  directory = none;
  alias = none;
  pid = none;
  start_time = none;
  focus_target = none;
  status = none;
  pending_permission_ids = none;
  pending_question_ids = none;
}

abbrev busy : Body
busy = record empty { status = some "busy" }

abbrev asking : Body
asking = record empty { status = some "asking" }

abbrev request_of : Method → String → Option String → Body → HttpRequest
request_of method path token body = record {
  method = method;
  path = path;
  token = token;
  body = body;
}

program : Unit {0}
unfolding start launched new_adapter new_registry register_launch register detach_launch beat
    accept_snapshot heartbeat lookup insert erase keys values update norm_dir display_of set_status
    launch_marker handle put_facts write_body find_launch split_path new_broker render upload frame
    parse_status status_value detach free_slot
program = tt

abbrev outcome : Result (Server painter (mock_adapter String) desk × Response × ℕ) → Option Response
outcome (ok p) = some p.1
outcome (raise e) = none

-- a snapshot of the launch is taken
put_taken :
    outcome (
      handle painter
        (mock_adapter String)
        desk
        200
        1
        "x"
        (request_of Method.put "/v1/instances/abcdef1234/snapshot" (some "secret") busy)
        server
        11)
    ≡ some (record { code = 200; reply = Reply.applied true })
unfolding program
put_taken = refl

-- an instance that is not known
delete_unknown :
    outcome (
      handle painter
        (mock_adapter String)
        desk
        200
        1
        "x"
        (request_of Method.delete "/v1/instances/ffff" (some "secret") empty)
        server
        11)
    ≡ some (record { code = 404; reply = Reply.detached false })
unfolding program
delete_unknown = refl

-- the stream is open to a client without the token
deck_open :
    (frame_shown : List _) × (outcome (
        handle painter
          (mock_adapter String)
          desk
          200
          1
          "x"
          (request_of Method.get "/v1/deck" none empty)
          server
          11)
      ≡ some (record { code = 200; reply = Reply.streamed frame_shown }))
unfolding program
deck_open = (_, refl)

handle_refused_example :
    Returns
      (λ p. (p.0 ≡ server) × IsRefusal p.1 × (p.2 ≡ 11))
      (handle painter
        (mock_adapter String)
        desk
        200
        1
        "x"
        (request_of Method.delete "/v1/instances/abcdef1234" (some "wrong") empty)
        server
        11)
handle_refused_example =
    handle_refused painter (mock_adapter String) desk 200 1 "x"
      (request_of Method.delete "/v1/instances/abcdef1234" (some "wrong") empty) server 11 refl
      (λ deck. cc)

put_facts_raises_example : put_facts 200 launch asking launched ≡ Result.raise Error.value_error
put_facts_raises_example =
    put_facts_raises 200 launch asking launched "asking" refl
      (λ e. different (ap (λ s. str_eq s "idle") e)) (λ e. different (ap (λ s. str_eq s "busy") e))
      (λ e. different (ap (λ s. str_eq s "retry") e))
  where
    different : false ≡ true → ⊥
    different e = cc
