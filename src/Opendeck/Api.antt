-- ===== src/Opendeck/Api.antt =====
-- opendeck-broker/opendeck_broker/api.py: the handlers of the REST service. A handler that raises
-- gives no reply. The broker and the adapter share one registry: it is the adapter's here, and the
-- broker gets it for each call. A queue of a subscriber holds what was sent to it; that its stream
-- takes messages off the queue, and the end of the stream, are left out.
pub mod Access
pub mod Snapshots
mod Tests
use home_ailab.Prelude.{
  ℕ, ◌+◌, ◌-◌, String, Bool, true, false, not, ◌&&◌, Option, none, some, List, [], ◌∷◌, ◌++◌, map,
  Result, ok, raise, ◌>>=◌, Error, Dict, lookup, ℤ, pos, str_eq, if◌then◌else◌, index, length, drop,
  values, truthy,
}
use home_ailab.Opendeck.Model.{
  Status, Instance, FocusTarget, parse_status, set_status, status_value,
}
use home_ailab.Opendeck.Objects.{Ref, Objects, update}
use home_ailab.Opendeck.Registry.{Registry, accept_snapshot}
use home_ailab.Opendeck.Registry.Frame.{SlotState, frame}
use home_ailab.Opendeck.Registry.Diagnostics.{Diagnostics, to_diagnostics}
use home_ailab.Opendeck.Device.{DeviceAdapter}
use home_ailab.Opendeck.Focus.{Desktop, FocusResult}
use home_ailab.Opendeck.Broker.{Painter, Broker, Entry, render, pending_presses, has_connection}
use home_ailab.Opendeck.Broker.Focusing.{focus_instance}
use home_ailab.Opendeck.Adapter.{
  Adapter, Launch, Request, register_launch, detach_launch, beat, next_seq,
}
use home_ailab.Opendeck.Routes.{of_instances, is_heartbeat, is_snapshot, path_id, split_path}
use home_ailab.Opendeck.Messages.{
  Method, Body, HttpRequest, BrokerDiagnostics, Reply, Response, answer, unauthorized, not_found,
  DeckMessage, default, has_text, is_authorized, launch_request, find_launch, put_facts,
}

module _ (painter : Painter) (dev : DeviceAdapter (Painter.Image painter)) (desk : Desktop) where
  open desk use {World}

  pub record Server : Type 0 where
    pub token : String
    pub broker : Broker painter dev
    pub adapter : Adapter
    -- `_deck_subscribers`: the queues, as they were added
    pub subscribers : List (List DeckMessage)

  -- the broker, with the registry that it shares
  abbrev pub broker_of : Server → Broker painter dev
  broker_of s = record s.broker { registry = s.adapter.registry }

  -- `_notify_deck`: the message goes to every queue
  unfoldable pub notify_deck : DeckMessage → List (List DeckMessage) → List (List DeckMessage)
  notify_deck message queues = map (λ q. q ++ message ∷ []) queues

  -- `self.broker.render()`, then a message for the subscribers
  unfoldable pub publish : String → Server → Result Server
  unfolding notify_deck
  publish kind s = do
    b ← render painter dev (broker_of s)
    f ← frame s.adapter.registry
    let message : DeckMessage = record { kind = kind; frame = f }
    ok (record s { broker = b; subscribers = notify_deck message s.subscribers })

  unfoldable pub diagnostics : Broker painter dev → Result BrokerDiagnostics
  diagnostics b = do
    d ← to_diagnostics b.registry
    ok (record {
      registry = d;
      focus_log_tail = drop (length b.focus_log - 10) b.focus_log;
      pending_presses = pending_presses painter dev b;
      device_connected = has_connection painter dev b.device;
    })

  unfoldable pub get_display : Bool → Server → Result Response
  get_display true s = do f ← frame s.adapter.registry; ok (answer 200 (Reply.shown f))
  get_display false s = ok unauthorized

  unfoldable pub get_diagnostics : Bool → Server → Result Response
  unfolding diagnostics
  get_diagnostics true s = do d ← diagnostics (broker_of s); ok (answer 200 (Reply.diagnosed d))
  get_diagnostics false s = ok unauthorized

  -- `_sse`, up to the first event: a new queue, and the frame
  unfoldable pub get_deck : Server → Result (Server × Response)
  get_deck s = do
    f ← frame s.adapter.registry
    ok (record s { subscribers = s.subscribers ++ [] ∷ [] }, answer 200 (Reply.streamed f))

  unfoldable pub do_get : HttpRequest → Server → Result (Server × Response)
  unfolding get_display get_diagnostics get_deck
  do_get q s =
      let allowed = is_authorized s.token q.token in
      if str_eq q.path "/v1/display"
      then (do r ← get_display allowed s; ok (s, r))
      else if str_eq q.path "/v1/diagnostics"
      then (do r ← get_diagnostics allowed s; ok (s, r))
      else if str_eq q.path "/v1/deck"
      then get_deck s
      else ok (s, not_found)

  -- `_register` at the time `now`; the new object is at `ref`, and its id is `iid`
  unfoldable pub post_register : ℕ → Ref → String → Body → Server → Result (Server × Response)
  unfolding publish launch_request
  post_register now ref iid b s = do
    (a, new_id, slot) ← register_launch now ref iid (launch_request b) s.adapter
    s' ← publish "snapshot" (record s { adapter = a })
    ok (s', answer 200 (Reply.registered new_id slot a.producer_epoch))

  unfoldable pub post_heartbeat : ℕ → String → Server → Result (Server × Response)
  post_heartbeat now path s = do
    iid ← path_id path
    let (a, epoch) = beat now iid s.adapter
    ok (record s { adapter = a }, answer (if has_text epoch then 200 else 404) (Reply.heard epoch))

  unfoldable pub post_focus : Body → Server → World → Result (Response × World)
  post_focus b s w = do
    (res, w') ←
        focus_instance desk (default "" b.instance_id) b.expected_generation s.broker.has_focus
          s.adapter.registry w
    ok (answer 200 (Reply.focused res), w')

  -- `_snapshot`
  unfoldable pub put_snapshot : ℕ → String → Body → Server → Result (Server × Response)
  unfolding put_facts publish find_launch
  put_snapshot now path b s = do
    iid ← path_id path
    elim (find_launch iid (values s.adapter.launches)) [
      | none ↦ ok (s, not_found)
      | some l ↦ do
        (a, accepted) ← put_facts now l b s.adapter
        s' ← publish "update" (record s { adapter = a })
        ok (s', answer (if accepted then 200 else 409) (Reply.applied accepted))
    ]

  unfoldable pub delete_instance : String → Server → Result (Server × Response)
  unfolding publish
  delete_instance path s = do
    iid ← path_id path
    (a, gone) ← detach_launch iid s.adapter
    s' ← publish "snapshot" (record s { adapter = a })
    ok (s', answer (if gone then 200 else 404) (Reply.detached gone))

  -- `do_POST` of an authorised request
  unfoldable pub post_allowed :
      ℕ → Ref → String → HttpRequest → Server → World → Result (Server × Response × World)
  unfolding post_register post_heartbeat post_focus
  post_allowed now ref iid q s w =
      if str_eq q.path "/v1/instances/register"
      then (do (s', r) ← post_register now ref iid q.body s; ok (s', r, w))
      else if is_heartbeat q.path
      then (do (s', r) ← post_heartbeat now q.path s; ok (s', r, w))
      else if str_eq q.path "/v1/focus"
      then (do (r, w') ← post_focus q.body s w; ok (s, r, w'))
      else ok (s, not_found, w)

  unfoldable pub put_allowed : ℕ → HttpRequest → Server → Result (Server × Response)
  unfolding put_snapshot
  put_allowed now q s =
      if is_snapshot q.path then put_snapshot now q.path q.body s else ok (s, not_found)

  unfoldable pub delete_allowed : HttpRequest → Server → Result (Server × Response)
  unfolding delete_instance
  delete_allowed q s = if of_instances q.path then delete_instance q.path s else ok (s, not_found)

  -- the handler of each method, at the time `now`
  unfoldable pub dispatch :
      Method
      → Bool
      → ℕ
      → Ref
      → String
      → HttpRequest
      → Server
      → World
      → Result (Server × Response × World)
  unfolding do_get post_allowed put_allowed delete_allowed
  dispatch Method.get allowed now ref iid q s w = do (s', r) ← do_get q s; ok (s', r, w)
  dispatch Method.post false now ref iid q s w = ok (s, unauthorized, w)
  dispatch Method.post true now ref iid q s w = post_allowed now ref iid q s w
  dispatch Method.put false now ref iid q s w = ok (s, unauthorized, w)
  dispatch Method.put true now ref iid q s w = do (s', r) ← put_allowed now q s; ok (s', r, w)
  dispatch Method.delete false now ref iid q s w = ok (s, unauthorized, w)
  dispatch Method.delete true now ref iid q s w = do (s', r) ← delete_allowed q s; ok (s', r, w)

  unfoldable pub handle :
      ℕ → Ref → String → HttpRequest → Server → World → Result (Server × Response × World)
  unfolding dispatch
  handle now ref iid q s w = dispatch q.method (is_authorized s.token q.token) now ref iid q s w
