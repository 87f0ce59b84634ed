-- ===== src/Opendeck/Broker/Rendering.antt =====
-- opendeck-broker/opendeck_broker/broker.py: what the keys show after a render, and the render cache.
use home_ailab.Prelude.{
  ℕ, suc, ◌+◌, ◌<◌, ◌≡◌, ◌↔◌, refl, true, false, Option, some, List, [], ◌∷◌, ok, Table, find,
  get_elem?, length, lt-length, map, arith,
}
use mathlib.Core.Path.{subst}
use home_ailab.Opendeck.Device.{DeviceAdapter, IsReliable}
use home_ailab.Opendeck.Registry.{Registry}
use home_ailab.Opendeck.Registry.Frame.{SlotState, frame}
use home_ailab.Opendeck.Registry.Validity.{IsValid}
use home_ailab.Opendeck.Registry.Shown.{Shown, frame-Shown, show_slot_place}
use home_ailab.Opendeck.Broker.{
  Painter, Broker, upload_frame, with_uploads, render, render_on, maybe_reconnect,
}
use home_ailab.Opendeck.Broker.Uploads.{
  keys_from, IsCoherent, IsNumbered, image_of, upload_frame-FrameUp,
}

-- What a key of the device shows, as a section's parameter.
module _ (painter : Painter) (dev : DeviceAdapter (Painter.Image painter))
    (shown : ℕ → DeviceAdapter.State dev → Option (Painter.Image painter))
    (same_iff : (x y : Painter.Image painter) → (Painter.same painter x y ≡ true) ↔ (x ≡ y))
    (reliable : IsReliable dev shown) where
  open painter use {Image, paint}
  open dev use {State, is_connected, set_key_image}

  frame-IsNumbered :
      (r : Registry) (f : List SlotState)
      → length f ≡ r.slots
      → ((i : ℕ) → i < r.slots → Shown r i (get_elem? f i))
      → IsNumbered 0 f
  frame-IsNumbered r f len entries j ss e =
      let (o, g, at, gen, same) = entries j (omega (arith, lt-length f j e)) in
      ground (arith, show_slot_place j g o r)

  render_on-shows :
      (device : Option State) (s : State) (b : Broker painter dev)
      → IsValid b.registry
      → device ≡ some s
      → is_connected s ≡ true
      → IsCoherent painter dev shown (b.rendered, s)
      → (f : List SlotState) × (length f ≡ b.registry.slots)
        × (y : Table Image × State) × (frame b.registry ≡ ok f)
        × (render_on painter dev device b ≡ ok (with_uploads painter dev b y))
        × (is_connected y.1 ≡ true)
        × IsCoherent painter dev shown y
        × ((i : ℕ) (ss : SlotState)
            → get_elem? f i ≡ some ss
            → shown i y.1 ≡ some (image_of painter b.image_size ss))
  unfolding render_on
  render_on-shows device s b v there on coherent =
      let (f, run, len, entries) = frame-Shown b.registry v.places in
      let numbered = frame-IsNumbered b.registry f len entries in
      let y = upload_frame painter dev b.image_size f (b.rendered, s) in
      let up =
        upload_frame-FrameUp painter dev shown same_iff reliable b.image_size 0 f (b.rendered, s) on
          coherent numbered in
      (
        f,
        len,
        y,
        run,
        rw there (rw run),
        up.0,
        up.1,
        (λ i ss e.
            let at : ss.slot ≡ i = omega (arith, numbered i ss e) in rw (← at) (up.3 i ss e)),
      )

  keys_from-map :
      (size i : ℕ) (f : List SlotState) (s : State)
      → ((j : ℕ) (ss : SlotState)
          → get_elem? f j ≡ some ss
          → shown (i + j) s ≡ some (image_of painter size ss))
      → keys_from painter dev shown i (length f) s ≡ map (λ ss. some (image_of painter size ss)) f
  keys_from-map size i [] s h = refl
  keys_from-map size i (ss ∷ f) s h =
      let first : i + 0 ≡ i = omega arith in
      let here : shown i s ≡ some (image_of painter size ss) = rw first at (h 0 ss refl) in
      cc (
        here,
        keys_from-map size (i + 1) f s
            (λ j x e. let next : i + 1 + j ≡ i + suc j = omega arith in rw next (h (suc j) x e)),
      )

  -- With a connected device that keeps its promises and a cache that tells the truth, `render` raises
  -- nothing. Afterwards the keys, from the first to the last slot, show the images of the frame;
  -- the cache still tells the truth, and the device is still connected.
  pub render_shows :
      (b : Broker painter dev) (s : State)
      → IsValid b.registry
      → b.device ≡ some s
      → is_connected s ≡ true
      → IsCoherent painter dev shown (b.rendered, s)
      → (f : List SlotState) × (y : Table Image × State) × (frame b.registry ≡ ok f)
        × (render painter dev b ≡ ok (with_uploads painter dev b y))
        × (is_connected y.1 ≡ true)
        × IsCoherent painter dev shown y
        × (keys_from painter dev shown 0 b.registry.slots y.1
            ≡ map (λ ss. some (image_of painter b.image_size ss)) f)
  unfolding render
  render_shows b s v there on coherent =
      let (f, len, y, run, done, on', coherent', at) =
        render_on-shows b.device s b v there on coherent in
      (
        f,
        y,
        run,
        done,
        on',
        coherent',
        subst
            (λ n.
              keys_from painter dev shown 0 n y.1
              ≡ map (λ ss. some (image_of painter b.image_size ss)) f)
            len
            (keys_from-map b.image_size 0 f y.1
              (λ j ss e. let same : 0 + j ≡ j = omega arith in rw same (at j ss e))),
      )

  -- After a reconnection that `maybe_reconnect` sees, the next `render` brings every key to its entry
  -- of the frame, whatever the keys and the cache held before.
  pub reconnect_shows :
      (b : Broker painter dev) (s : State)
      → IsValid b.registry
      → b.device ≡ some s
      → is_connected s ≡ true
      → b.device_was_connected ≡ false
      → ((maybe_reconnect painter dev b).1 ≡ true)
        × (f : List SlotState) × (y : Table Image × State) × (frame b.registry ≡ ok f)
        × (render painter dev (maybe_reconnect painter dev b).0
            ≡ ok (with_uploads painter dev (maybe_reconnect painter dev b).0 y))
        × (keys_from painter dev shown 0 b.registry.slots y.1
            ≡ map (λ ss. some (image_of painter b.image_size ss)) f)
  reconnect_shows b s v there on was =
      let seen : maybe_reconnect painter dev b
          ≡ (record b { rendered = []; device_was_connected = true }, true) =
        unfold maybe_reconnect in rw there (rw on (rw was)) in
      let (f, y, run, done, on', coherent, shows) =
        render_shows (record b { rendered = []; device_was_connected = true }) s v there on
          (unfold find in λ i image e. cc) in
      rw seen (refl, f, y, run, done, shows)
