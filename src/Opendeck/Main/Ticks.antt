-- ===== src/Opendeck/Main/Ticks.antt =====
-- opendeck-broker/opendeck_broker/main.py: what holds after a tick.
use home_ailab.Prelude.{
  ℕ, ◌≡◌, ◌↔◌, refl, ap, ◌∙◌, inl, inr, Bool, true, Option, none, some, List, [], ok, map, not,
  ◌&&◌, Returns, Returns-bind, Returns-weaken, Bool-cases, arith, find,
}
use home_ailab.Opendeck.Model.{Process}
use home_ailab.Opendeck.Device.{DeviceAdapter, IsReliable}
use home_ailab.Opendeck.Focus.{Desktop}
use home_ailab.Opendeck.Registry.Frame.{SlotState, frame}
use home_ailab.Opendeck.Registry.Validity.{IsValid}
use home_ailab.Opendeck.Broker.{
  Painter, Broker, maybe_reconnect, reconnect_on, note_connection, sweep, sweep_leased,
  with_uploads,
}
use home_ailab.Opendeck.Broker.Focusing.{process_presses}
use home_ailab.Opendeck.Broker.Uploads.{keys_from, image_of}
use home_ailab.Opendeck.Broker.Uploads.{IsCoherent as IsTruthful}
use home_ailab.Opendeck.Broker.Rendering.{render_shows}
use home_ailab.Opendeck.Broker.Delays.{process_presses_once}
use home_ailab.Opendeck.Adapter.{Adapter, refresh}
use home_ailab.Opendeck.Adapter.Coherence.{IsCoherent}
use home_ailab.Opendeck.Adapter.Refreshing.{refresh-IsCoherent}
use home_ailab.Opendeck.Adapter.Leaving.{with_registry}
use home_ailab.Opendeck.Main.{
  Reading, Stack, take_presses, poll_device, draw_and_focus, after_poll, tick,
}
use home_ailab.Opendeck.Main.Steps.{AllSlots, take_presses-IsQueued, sweep_leased-Swept}

-- The device, and what its keys show, as a section's parameter.
module _ (painter : Painter) (dev : DeviceAdapter (Painter.Image painter))
    (shown : ℕ → DeviceAdapter.State dev → Option (Painter.Image painter))
    (same_iff : (x y : Painter.Image painter) → (Painter.same painter x y ≡ true) ↔ (x ≡ y))
    (reliable : IsReliable dev shown) where
  open painter use {Image}
  open dev use {State, is_connected, poll}

  -- The broker has a connected device, and its cache tells the truth of the keys.
  pub record IsAttached (b : Broker painter dev) : Type 0 where
    pub state : State
    pub there : b.device ≡ some state
    pub connected : is_connected state ≡ true
    pub truthful : IsTruthful painter dev shown (b.rendered, state)

  same-IsAttached :
      (b q : Broker painter dev)
      → q.device ≡ b.device
      → q.rendered ≡ b.rendered
      → IsAttached b
      → IsAttached q
  same-IsAttached b q device rendered h = record {
    state = h.state;
    there = device ∙ h.there;
    connected = h.connected;
    truthful = rw rendered h.truthful;
  }

  note_connection-IsAttached :
      (connected : Bool) (b : Broker painter dev)
      → IsAttached b
      → IsAttached (note_connection painter dev connected b).0
  unfolding note_connection
  note_connection-IsAttached connected b h =
      elim (Bool-cases (connected && not b.device_was_connected)) [
        | inl again ↦
            rw (again, note_connection)
              (record {
                state = h.state;
                there = h.there;
                connected = h.connected;
                truthful = unfold find in λ i image e. cc;
              })
        | inr steady ↦
            rw (steady, note_connection)
              (record {
                state = h.state;
                there = h.there;
                connected = h.connected;
                truthful = h.truthful;
              })
      ]

  reconnect_on-IsAttached :
      (o : Option State) (b : Broker painter dev)
      → IsAttached b
      → IsAttached (reconnect_on painter dev o b).0
  unfolding reconnect_on
  reconnect_on-IsAttached none b h = h
  reconnect_on-IsAttached (some s) b h = note_connection-IsAttached (is_connected s) b h

  -- What holds after a tick: the adapter is coherent, the broker has its registry, no press waits,
  -- and the keys show the images of the registry's frame.
  pub record IsShown (s : Stack painter dev) : Type 0 where
    pub coherent : IsCoherent s.adapter
    pub shared : s.broker.registry ≡ s.adapter.registry
    pub queue : s.broker.press_queue ≡ []
    pub attached : IsAttached s.broker
    pub frame_of : List SlotState
    pub framed : frame s.adapter.registry ≡ ok frame_of
    pub keys :
        keys_from painter dev shown 0 s.adapter.registry.slots attached.state
        ≡ map (λ ss. some (image_of painter s.broker.image_size ss)) frame_of

  -- the end of a tick, once the registry is swept
  draw_and_focus-IsShown :
      (desk : Desktop) (b : Broker painter dev) (a : Adapter) (w : Desktop.World desk)
      → IsCoherent (with_registry a b.registry)
      → IsAttached b
      → Returns
          (λ p. IsShown (record { broker = p.0; adapter = with_registry a p.0.registry }))
          (draw_and_focus painter dev desk b w)
  unfolding draw_and_focus
  draw_and_focus-IsShown desk b a w c h =
      let (f, y, run, done, on, truthful, keys) =
        render_shows painter dev shown same_iff reliable b h.state c.valid h.there h.connected
          h.truthful in
      rw done (
        Returns-bind _ _ (process_presses desk (with_uploads painter dev b y) w) _
          (process_presses_once desk (with_uploads painter dev b y) w c.valid)
          (λ x k. rw k.1 (record {
            coherent = c;
            shared = refl;
            queue = refl;
            attached = record { state = y.1; there = refl; connected = on; truthful = truthful };
            frame_of = f;
            framed = run;
            keys = keys;
          })))

  -- a tick after polling
  after_poll-IsShown :
      (desk : Desktop) (reading : Reading) (lives : Process → Bool) (b : Broker painter dev)
      (a : Adapter) (w : Desktop.World desk)
      → ((p : Process) → reading.alive p ≡ ok (lives p))
      → IsCoherent a
      → IsAttached b
      → Returns (λ p. IsShown p.0) (after_poll painter dev desk reading b a w)
  unfolding after_poll maybe_reconnect sweep
  after_poll-IsShown desk reading lives b a w decides c h =
      let h1 = reconnect_on-IsAttached b.device b h in
      Returns-bind IsCoherent _ (refresh reading.now reading.snapshot reading.alive a) _
        (refresh-IsCoherent reading.now reading.snapshot reading.alive lives a decides c)
        (λ a1 c1.
          let b1 = (reconnect_on painter dev b.device b).0 in
          Returns-bind _ _
            (sweep_leased painter dev b1.lease_seconds reading.now
              (record b1 { registry = a1.registry }))
            _
            (sweep_leased-Swept painter dev b1.lease_seconds reading.now
              (record b1 { registry = a1.registry }) a1 c1)
            (λ p k.
              Returns-bind
                (λ q. IsShown (record { broker = q.0; adapter = with_registry a1 q.0.registry }))
                (λ q. IsShown q.0) (draw_and_focus painter dev desk p.0 w) _
                (draw_and_focus-IsShown desk p.0 a1 w k.0
                  (same-IsAttached b1 p.0 (ap (λ x. x.device) k.1) (ap (λ x. x.rendered) k.1) h1))
                (λ q x. x)))

  -- polling the device that the broker has
  abbrev IsOn : Option State → Broker painter dev → Type 0
  IsOn none b = ⊥
  IsOn (some s) b =
      (is_connected s ≡ true)
      × IsTruthful painter dev shown (b.rendered, s)
      × AllSlots painter dev b.registry.slots (poll s).1

  IsOn-device :
      (o : Option State) (s : State) (b : Broker painter dev)
      → o ≡ some s
      → is_connected s ≡ true
      → IsTruthful painter dev shown (b.rendered, s)
      → AllSlots painter dev b.registry.slots (poll s).1
      → IsOn o b
  IsOn-device none s b e on truthful bounds = cc
  IsOn-device (some t) s b e on truthful bounds =
      let same : t ≡ s = ground arith in rw same (on, truthful, bounds)

  poll_device-IsAttached :
      (o : Option State) (b : Broker painter dev)
      → IsValid b.registry
      → IsOn o b
      → Returns IsAttached (poll_device painter dev o b)
  unfolding poll_device
  poll_device-IsAttached none b v on = absurd on
  poll_device-IsAttached (some s) b v on =
      Returns-weaken _ IsAttached
        (take_presses painter dev (poll s).1 (record b { device = some (poll s).0 }))
        (λ q h. rw h.1 (record {
          state = (poll s).0;
          there = refl;
          connected = reliable.poll_connected s on.0;
          truthful = λ i image e. reliable.poll_shows i s ∙ on.1 i image e;
        }))
        (take_presses-IsQueued painter dev (poll s).1 (record b { device = some (poll s).0 }) v
          on.2)

  -- With a connected device that keeps its promises, a cache that tells the truth, an adapter through
  -- which all registrations came, and a liveness test that answers, a tick raises nothing, whatever
  -- presses of its keys the device reports and whatever the observer gives or raises. Afterwards the
  -- keys show the images of the frame of the registry that the broker and the adapter share, no press
  -- waits, and the same conditions hold again.
  pub tick_shows :
      (desk : Desktop) (reading : Reading) (lives : Process → Bool) (s : Stack painter dev)
      (w : Desktop.World desk)
      → ((p : Process) → reading.alive p ≡ ok (lives p))
      → IsCoherent s.adapter
      → (attached : IsAttached s.broker)
      → AllSlots painter dev s.adapter.registry.slots (poll attached.state).1
      → Returns (λ p. IsShown p.0) (tick painter dev desk reading s w)
  unfolding tick
  tick_shows desk reading lives s w decides c h bounds =
      let b : Broker painter dev = record s.broker { registry = s.adapter.registry } in
      Returns-bind IsAttached _ (poll_device painter dev s.broker.device b) _
        (poll_device-IsAttached s.broker.device b c.valid
          (IsOn-device s.broker.device h.state b h.there h.connected h.truthful bounds))
        (λ q attached. after_poll-IsShown desk reading lives q s.adapter w decides c attached)
