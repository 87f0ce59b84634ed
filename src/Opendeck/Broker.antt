-- ===== src/Opendeck/Broker.antt =====
-- opendeck-broker/opendeck_broker/broker.py: the frame is rendered to the device, presses are queued
-- and focused, quiet producers are swept. The broker is one sequence of calls here: the upload lock
-- and the reader thread are the order in which the calls stand.
pub mod Focusing
pub mod Uploads
pub mod Rendering
pub mod Delays
mod Tests
use home_ailab.Prelude.{
  ℕ, zero, suc, ◌+◌, String, Bool, true, false, not, ◌&&◌, ◌||◌, Option, none, some, List, [], ◌∷◌,
  ◌++◌, Result, ok, Error, ◌>>=◌, from_option, index, lookup, Table, find, put, truthy, nonempty,
  length, if◌then◌else◌,
}
use mathlib.Core.Option
use home_ailab.Opendeck.Model.{DisplayAppearance, FocusTarget, Instance}
use home_ailab.Opendeck.Device.{DeviceAdapter}
use home_ailab.Opendeck.Focus.{
  Desktop, FocusStatus, FocusResult, Detail, failed, focus_status_value, focus_marker,
}
use home_ailab.Opendeck.Registry.{Registry, sweep_expired, slot_count}
use home_ailab.Opendeck.Registry.Frame.{SlotState, frame, resolve, validate_press}

-- The pixels of a key, which the imaging library makes: `paint appearance identity size`, and the
-- test of two images for equal bytes.
pub record Painter : Type 1 where
  pub Image : Type 0
  pub paint : DisplayAppearance → String → ℕ → Image
  pub same : Image → Image → Bool

-- a press as the reader thread captures it
pub record Press : Type 0 where
  pub slot : ℕ
  pub instance_id : Option String
  pub generation : ℕ

-- an entry of `focus_log`
pub record Entry : Type 0 where
  pub slot : ℕ
  pub instance_id : Option String
  pub expected_generation : ℕ
  pub result : String
  pub hwnd : Option ℕ
  pub observed_foreground : Option ℕ

abbrev pub plain_entry : Press → String → Entry
plain_entry p result = record {
  slot = p.slot;
  instance_id = p.instance_id;
  expected_generation = p.generation;
  result = result;
  hwnd = none;
  observed_foreground = none;
}

-- the entry of a press that reached the focus adapter
abbrev pub focus_entry : Press → FocusResult → Entry
focus_entry p res = record {
  slot = p.slot;
  instance_id = p.instance_id;
  expected_generation = p.generation;
  result = focus_status_value res.status;
  hwnd = res.hwnd;
  observed_foreground = res.observed_foreground;
}

module _ (painter : Painter) (dev : DeviceAdapter (Painter.Image painter)) where
  open painter use {Image, paint, same}
  open dev use {State, connect, close, set_key_image, set_key_press_handler, is_connected}

  pub record Broker : Type 0 where
    pub registry : Registry
    pub device : Option State
    pub has_focus : Bool
    pub image_size : ℕ
    pub lease_seconds : Option ℕ
    pub device_was_connected : Bool
    pub press_queue : List Press
    pub focus_log : List Entry
    pub rendered : Table Image
    pub started : Bool

  -- `device is not None and device.is_connected()`
  abbrev pub has_connection : Option State → Bool
  has_connection none = false
  has_connection (some s) = is_connected s

  -- `Broker(registry, device, focus, image_size, lease_seconds)`
  unfoldable pub new_broker : Registry → Option State → Bool → ℕ → Option ℕ → Broker
  new_broker registry device focus image_size lease = record {
    registry = registry;
    device = device;
    has_focus = focus;
    image_size = image_size;
    lease_seconds = lease;
    device_was_connected = has_connection device;
    press_queue = [];
    focus_log = [];
    rendered = [];
    started = false;
  }

  unfoldable pub invalidate_render_cache : Broker → Broker
  invalidate_render_cache b = record b { rendered = [] }

  -- `self._rendered.get(slot) == image`
  abbrev pub is_sent : Image → Option Image → Bool
  is_sent image none = false
  is_sent image (some old) = same old image

  -- `_upload` on the render cache and the device
  unfoldable pub upload : ℕ → Image → Table Image × State → (Table Image × State) × Bool
  upload slot image (cache, s) =
      if is_sent image (find slot cache)
      then ((cache, s), false)
      else let (s', done) = set_key_image slot image s in ((put slot image cache, s'), done)

  -- the loop of `upload_black_frame` over `n` slots from `i`
  unfoldable pub upload_black : ℕ → ℕ → Image → Table Image × State → Table Image × State
  unfolding upload
  upload_black i zero black x = x
  upload_black i (suc n) black x = upload_black (i + 1) n black (upload i black x).0

  -- the loop of `render`
  unfoldable pub upload_frame : ℕ → List SlotState → Table Image × State → Table Image × State
  unfolding upload
  upload_frame size [] x = x
  upload_frame size (ss ∷ f) x =
      upload_frame size f (upload ss.slot (paint ss.appearance ss.label size) x).0

  -- the cache and the device after an upload
  abbrev pub with_uploads : Broker → Table Image × State → Broker
  with_uploads b x = record b { rendered = x.0; device = some x.1 }

  unfoldable pub upload_black_frame : Broker → Broker
  unfolding upload_black
  upload_black_frame b = elim b.device [
    | none ↦ b
    | some s ↦ with_uploads b (
        upload_black 0 b.registry.slots (paint DisplayAppearance.black "" b.image_size)
          (b.rendered, s))
  ]

  -- `render` with the device that the broker has
  unfoldable pub render_on : Option State → Broker → Result Broker
  unfolding upload_frame
  render_on none b = ok b
  render_on (some s) b = do
    f ← frame b.registry
    ok (with_uploads b (upload_frame b.image_size f (b.rendered, s)))

  unfoldable pub render : Broker → Result Broker
  unfolding render_on
  render b = render_on b.device b

  -- `start` once the device, if any, is connected
  unfoldable pub start_connected : Option State → Broker → Broker
  unfolding upload_black_frame invalidate_render_cache
  start_connected device b =
      let b' =
        upload_black_frame (
          invalidate_render_cache
            (record b { device = Option.map set_key_press_handler device })) in
      record b' { started = true; device_was_connected = has_connection b'.device }

  -- `start` with the device: a device that is not connected is asked to connect
  unfoldable pub start_on : Option State → Broker → Broker × Bool
  unfolding start_connected
  start_on none b = (start_connected none b, true)
  start_on (some s) b =
      if not (is_connected s)
      then (let (s', done) = connect s in
          if not done
          then (record b { device = some s' }, false)
          else (start_connected (some s') b, true))
      else (start_connected (some s) b, true)

  unfoldable pub start : Broker → Broker × Bool
  unfolding start_on
  start b = start_on b.device b

  unfoldable pub stop : Broker → Broker
  unfolding upload_black_frame
  stop b =
      let b' = upload_black_frame b in
      record b' { device = Option.map close b'.device; started = false }

  -- `maybe_reconnect` at what the device says of its connection
  unfoldable pub note_connection : Bool → Broker → Broker × Bool
  unfolding invalidate_render_cache
  note_connection connected b =
      if connected && not b.device_was_connected
      then (record (invalidate_render_cache b) { device_was_connected = true }, true)
      else (record b { device_was_connected = connected }, false)

  -- `maybe_reconnect` with the device that the broker has
  unfoldable pub reconnect_on : Option State → Broker → Broker × Bool
  unfolding note_connection
  reconnect_on none b = (b, false)
  reconnect_on (some s) b = note_connection (is_connected s) b

  unfoldable pub maybe_reconnect : Broker → Broker × Bool
  unfolding reconnect_on
  maybe_reconnect b = reconnect_on b.device b

  -- `on_key`, on the reader thread
  unfoldable pub on_key : ℕ → Broker → Result Broker
  on_key slot b = do
    f ← frame b.registry
    ss ← index f slot
    let press : Press = record {
      slot = slot;
      instance_id = ss.instance_id;
      generation = ss.generation;
    }
    ok (record b { press_queue = b.press_queue ++ press ∷ [] })

  unfoldable pub pending_presses : Broker → ℕ
  pending_presses b = length b.press_queue

  -- `sweep` with the lease that the broker has
  unfoldable pub sweep_leased : Option ℕ → ℕ → Broker → Result (Broker × List String)
  sweep_leased none now b = ok (b, [])
  sweep_leased (some lease) now b = do
    (r, gone) ← sweep_expired now lease none b.registry
    ok (record b { registry = r }, gone)

  unfoldable pub sweep : ℕ → Broker → Result (Broker × List String)
  unfolding sweep_leased
  sweep now b = sweep_leased b.lease_seconds now b
