-- ===== src/Opendeck/Broker/Uploads.antt =====
-- opendeck-broker/opendeck_broker/broker.py: one upload after another: the render cache
-- against what the keys show.
use home_ailab.Prelude.{
  ℕ, zero, suc, ◌+◌, ◌<◌, ◌≡◌, ◌≢◌, ◌↔◌, refl, ap, ◌∙◌, true, false, Option, none, some, List, [],
  ◌∷◌, Table, find, put, find-put, get_elem?, arith, Bool-cases, inl, inr,
}
use home_ailab.Opendeck.Device.{DeviceAdapter, IsReliable}
use home_ailab.Opendeck.Registry.Frame.{SlotState}
use home_ailab.Opendeck.Broker.{Painter, is_sent, upload, upload_frame}

module _ (painter : Painter) (dev : DeviceAdapter (Painter.Image painter)) where
  open painter use {Image, same}
  open dev use {State, set_key_image}

  upload_new :
      (slot : ℕ) (image : Image) (cache : Table Image) (s : State)
      → is_sent painter dev image (find slot cache) ≡ false
      → upload painter dev slot image (cache, s)
        ≡ ((put slot image cache, (set_key_image slot image s).0), (set_key_image slot image s).1)
  unfolding upload
  upload_new slot image cache s new = rw new

  upload_sent :
      (slot : ℕ) (image : Image) (cache : Table Image) (s : State)
      → is_sent painter dev image (find slot cache) ≡ true
      → upload painter dev slot image (cache, s) ≡ ((cache, s), false)
  unfolding upload
  upload_sent slot image cache s old = rw old

  -- An upload that the device turns down is cached as sent: the next upload of the same image to
  -- that key is skipped and does not reach the device, whatever the key shows.
  pub upload_lost :
      (slot : ℕ) (image : Image) (cache : Table Image) (s s' : State)
      → same image image ≡ true
      → is_sent painter dev image (find slot cache) ≡ false
      → set_key_image slot image s ≡ (s', false)
      → upload painter dev slot image (upload painter dev slot image (cache, s)).0
        ≡ ((put slot image cache, s'), false)
  upload_lost slot image cache s s' self new lost =
      rw (upload_new slot image cache s new, lost)
        (upload_sent slot image (put slot image cache) s' (rw find-put (ground (arith, self))))

-- the entries stand in the order of their slots, from slot `i`
abbrev pub IsNumbered : ℕ → List SlotState → Type 0
IsNumbered i f = (j : ℕ) (ss : SlotState) → get_elem? f j ≡ some ss → ss.slot ≡ i + j

-- the image of an entry
abbrev pub image_of : (painter : Painter) → ℕ → SlotState → Painter.Image painter
image_of painter size ss = painter.paint ss.appearance ss.label size

module _ (painter : Painter) (dev : DeviceAdapter (Painter.Image painter))
    (shown : ℕ → DeviceAdapter.State dev → Option (Painter.Image painter)) where
  open painter use {Image}
  open dev use {State}

  -- what the cache holds of a key is what the key shows
  abbrev pub IsCoherent : Table Image × State → Type 0
  IsCoherent x = (i : ℕ) (image : Image) → find i x.0 ≡ some image → shown i x.1 ≡ some image

  -- what the `n` keys from `i` show
  abbrev pub keys_from : ℕ → ℕ → State → List (Option Image)
  keys_from i zero s = []
  keys_from i (suc n) s = shown i s ∷ keys_from (i + 1) n s

-- What a key of the device shows, as a section's parameter.
module _ (painter : Painter) (dev : DeviceAdapter (Painter.Image painter))
    (shown : ℕ → DeviceAdapter.State dev → Option (Painter.Image painter))
    (same_iff : (x y : Painter.Image painter) → (Painter.same painter x y ≡ true) ↔ (x ≡ y))
    (reliable : IsReliable dev shown) where
  open painter use {Image, paint}
  open dev use {State, is_connected, set_key_image}

  is_sent-eq :
      (image : Image) (old : Option Image) → is_sent painter dev image old ≡ true → old ≡ some image
  is_sent-eq image none h = cc
  is_sent-eq image (some x) h = ap some ((same_iff x image).0 h)

  -- one upload on a connected device
  abbrev pub Uploaded : ℕ → Image → Table Image × State → Table Image × State → Type 0
  Uploaded slot image x y =
      (is_connected y.1 ≡ true)
      × IsCoherent painter dev shown y
      × (shown slot y.1 ≡ some image)
      × ((j : ℕ) → slot ≢ j → shown j y.1 ≡ shown j x.1)

  upload-Uploaded :
      (slot : ℕ) (image : Image) (x : Table Image × State)
      → is_connected x.1 ≡ true
      → IsCoherent painter dev shown x
      → Uploaded slot image x (upload painter dev slot image x).0
  upload-Uploaded slot image (cache, s) on coherent =
      elim (Bool-cases (is_sent painter dev image (find slot cache))) [
        | inl old ↦ rw (upload_sent painter dev slot image cache s old) (
          on,
          coherent,
          coherent slot image (is_sent-eq image (find slot cache) old),
          λ j d. refl,
        )
        | inr new ↦ rw (upload_new painter dev slot image cache s new) (
          reliable.stays_connected slot image s on,
          (λ i img e. ground (
            arith,
            find-put slot i image cache,
            reliable.shows slot i image s on,
            coherent i img,
          )),
          ground (arith, reliable.shows slot slot image s on),
          (λ j d. ground (arith, reliable.shows slot j image s on)),
        )
      ]

  abbrev pub FrameUp : ℕ → ℕ → List SlotState → Table Image × State → Table Image × State → Type 0
  FrameUp size i f x y =
      (is_connected y.1 ≡ true)
      × IsCoherent painter dev shown y
      × ((j : ℕ) → j < i → shown j y.1 ≡ shown j x.1)
      × ((j : ℕ) (ss : SlotState)
          → get_elem? f j ≡ some ss
          → shown ss.slot y.1 ≡ some (image_of painter size ss))

  pub upload_frame-FrameUp :
      (size i : ℕ) (f : List SlotState) (x : Table Image × State)
      → is_connected x.1 ≡ true
      → IsCoherent painter dev shown x
      → IsNumbered i f
      → FrameUp size i f x (upload_frame painter dev size f x)
  unfolding upload_frame
  upload_frame-FrameUp size i [] x on coherent numbered = (on, coherent, λ j lt. refl, λ j ss e. cc)
  upload_frame-FrameUp size i (ss ∷ f) x on coherent numbered =
      let head : ss.slot ≡ i + 0 = numbered 0 ss refl in
      let up = upload-Uploaded ss.slot (image_of painter size ss) x on coherent in
      let y = (upload painter dev ss.slot (image_of painter size ss) x).0 in
      let rest =
        upload_frame-FrameUp size (i + 1) f y up.0 up.1
          (λ j s e. omega (arith, numbered (suc j) s e)) in
      (
        rest.0,
        rest.1,
        (λ j lt. rest.2 j (omega arith) ∙ up.3 j (λ e. absurd (omega arith))),
        entries (upload_frame painter dev size f y) (rest.2 ss.slot (omega arith) ∙ up.2) rest.3,
      )
    where
      entries :
          (z : Table Image × State)
          → shown ss.slot z.1 ≡ some (image_of painter size ss)
          → ((j : ℕ) (s : SlotState)
              → get_elem? f j ≡ some s
              → shown s.slot z.1 ≡ some (image_of painter size s))
          → (j : ℕ) (s : SlotState) → get_elem? (ss ∷ f) j ≡ some s
          → shown s.slot z.1 ≡ some (image_of painter size s)
      entries z here later zero s e = let same : ss ≡ s = cc in rw (← same) here
      entries z here later (suc j) s e = later j s e
