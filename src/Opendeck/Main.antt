-- ===== src/Opendeck/Main.antt =====
-- opendeck-broker/opendeck_broker/main.py: the loop of `run`. The broker and the adapter share one
-- registry, which is passed from each to the other.
pub mod Steps
pub mod Ticks
mod Tests
use home_ailab.Prelude.{
  ℕ, zero, suc, String, Bool, true, false, Option, none, some, List, [], ◌∷◌, Result, ok, ◌>>=◌,
  Dict,
}
use home_ailab.Opendeck.Model.{Process}
use home_ailab.Opendeck.Registry.{Registry}
use home_ailab.Opendeck.Device.{DeviceAdapter}
use home_ailab.Opendeck.Focus.{Desktop}
use home_ailab.Opendeck.Broker.{Painter, Broker, on_key, maybe_reconnect, sweep, render}
use home_ailab.Opendeck.Broker.Focusing.{process_presses}
use home_ailab.Opendeck.Observe.{SessionState}
use home_ailab.Opendeck.Adapter.{Adapter, refresh}

-- what a tick reads: the time, the observer's snapshot and the liveness of processes
pub record Reading : Type 0 where
  pub now : ℕ
  pub snapshot : Result (Dict SessionState)
  pub alive : Process → Result Bool

module _ (painter : Painter) (dev : DeviceAdapter (Painter.Image painter)) where
  open dev use {State, poll}

  -- `Stack`; its device is the broker's
  pub record Stack : Type 0 where
    pub broker : Broker painter dev
    pub adapter : Adapter

  -- the presses that polling hands to the broker, in their order
  unfoldable pub take_presses : List ℕ → Broker painter dev → Result (Broker painter dev)
  take_presses [] b = ok b
  take_presses (slot ∷ slots) b = do b' ← on_key painter dev slot b; take_presses slots b'

  -- `stack.device.poll()`
  unfoldable pub poll_device : Option State → Broker painter dev → Result (Broker painter dev)
  unfolding take_presses
  poll_device none b = ok b
  poll_device (some s) b =
      let (s', slots) = poll s in take_presses slots (record b { device = some s' })

  -- `render`, then `process_presses`
  unfoldable pub draw_and_focus :
      (desk : Desktop)
      → Broker painter dev
      → Desktop.World desk
      → Result (Broker painter dev × Desktop.World desk)
  draw_and_focus desk b w = do
    b' ← render painter dev b
    (b'', w', entries) ← process_presses desk b' w
    ok (b'', w')

  -- the calls of a tick after polling, with the broker that polling leaves
  unfoldable pub after_poll :
      (desk : Desktop)
      → Reading
      → Broker painter dev
      → Adapter
      → Desktop.World desk
      → Result (Stack × Desktop.World desk)
  unfolding draw_and_focus
  after_poll desk reading b a w = do
    let (b1, reconnected) = maybe_reconnect painter dev b
    a1 ← refresh reading.now reading.snapshot reading.alive a
    (b2, gone) ← sweep painter dev reading.now (record b1 { registry = a1.registry })
    (b3, w') ← draw_and_focus desk b2 w
    ok (record { broker = b3; adapter = record a1 { registry = b3.registry } }, w')

  -- the body of the loop
  unfoldable pub tick :
      (desk : Desktop) → Reading → Stack → Desktop.World desk → Result (Stack × Desktop.World desk)
  unfolding poll_device after_poll
  tick desk reading s w = do
    b ← poll_device s.broker.device (record s.broker { registry = s.adapter.registry })
    after_poll desk reading b s.adapter w

  -- the loop of `run` with `max_ticks`: a tick at the first reading and one at each further one
  unfoldable pub run_ticks :
      (desk : Desktop)
      → Reading
      → List Reading
      → Stack
      → Desktop.World desk
      → Result (Stack × Desktop.World desk)
  unfolding tick
  run_ticks desk reading [] s w = tick desk reading s w
  run_ticks desk reading (next ∷ readings) s w = do
    (s', w') ← tick desk reading s w
    run_ticks desk next readings s' w'
