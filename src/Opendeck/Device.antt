-- ===== src/Opendeck/Device.antt =====
-- opendeck-broker/opendeck_broker/device/base.py and device/mock.py: what the broker asks of a
-- device, and the device in memory. The handler of a press is always the broker's `on_key`, so a
-- device only remembers whether it has one, and `poll` returns the presses that it hands to it.
use home_ailab.Prelude.{
  ℕ, ◌+◌, ◌*◌, ◌≡◌, refl, Bool, true, false, not, Option, some, List, [], ◌∷◌, ◌++◌, length, ◌==◌,
  if◌then◌else◌, Table, find, put, find-put, arith,
}

pub record DeviceAdapter (Image : Type 0) : Type 1 where
  pub State : Type 0
  pub connect : State → State × Bool
  pub close : State → State
  pub set_key_image : ℕ → Image → State → State × Bool
  pub set_key_press_handler : State → State
  pub is_connected : State → Bool
  pub poll : State → State × List ℕ

-- What a device promises while it is connected: an upload succeeds, is what the key then shows, and
-- leaves the other keys and the connection alone; polling changes no key and no connection.
pub record IsReliable {Image : Type 0} (d : DeviceAdapter Image)
    (shown : ℕ → DeviceAdapter.State d → Option Image) : Type 0 where
  pub uploads :
      (i : ℕ) (image : Image) (s : d.State)
      → d.is_connected s ≡ true
      → (d.set_key_image i image s).1 ≡ true
  pub shows :
      (i j : ℕ) (image : Image) (s : d.State)
      → d.is_connected s ≡ true
      → shown j (d.set_key_image i image s).0 ≡ (if i == j then some image else shown j s)
  pub stays_connected :
      (i : ℕ) (image : Image) (s : d.State)
      → d.is_connected s ≡ true
      → d.is_connected (d.set_key_image i image s).0 ≡ true
  pub poll_connected : (s : d.State) → d.is_connected s ≡ true → d.is_connected (d.poll s).0 ≡ true
  pub poll_shows : (i : ℕ) (s : d.State) → shown i (d.poll s).0 ≡ shown i s

pub record MockDevice (Image : Type 0) : Type 0 where
  pub rows : ℕ
  pub cols : ℕ
  pub connected : Bool
  pub has_handler : Bool
  pub images : Table Image
  pub presses : List ℕ
  pub set_calls : ℕ

module _ {Image : Type 0} where
  -- `MockDevice(rows, cols)`
  unfoldable pub new_mock : ℕ → ℕ → MockDevice Image
  new_mock rows cols = record {
    rows = rows;
    cols = cols;
    connected = false;
    has_handler = false;
    images = [];
    presses = [];
    set_calls = 0;
  }

  unfoldable pub mock_connect : MockDevice Image → MockDevice Image × Bool
  mock_connect s = (record s { connected = true }, true)

  unfoldable pub mock_close : MockDevice Image → MockDevice Image
  mock_close s = record s { connected = false }

  unfoldable pub mock_set_key_image : ℕ → Image → MockDevice Image → MockDevice Image × Bool
  mock_set_key_image i image s =
      if not s.connected
      then (s, false)
      else (record s { images = put i image s.images; set_calls = s.set_calls + 1 }, true)

  -- `DeviceAdapter.on_key`: the presses that reach the handler
  unfoldable pub mock_on_key : ℕ → MockDevice Image → List ℕ
  mock_on_key i s = if s.has_handler then i ∷ [] else []

  -- `inject_press`, with what reaches the handler
  unfoldable pub inject_press : ℕ → MockDevice Image → MockDevice Image × List ℕ
  unfolding mock_on_key
  inject_press i s = (record s { presses = s.presses ++ i ∷ [] }, mock_on_key i s)

  unfoldable pub uploaded_count : MockDevice Image → ℕ
  uploaded_count s = length s.images

  unfoldable pub key_count : MockDevice Image → ℕ
  key_count s = s.rows * s.cols

-- The device in memory behind the interface; its `poll` is the base class's, which does nothing.
abbrev pub mock_adapter : (Image : Type 0) → DeviceAdapter Image
mock_adapter Image = record {
  State = MockDevice Image;
  connect = mock_connect;
  close = mock_close;
  set_key_image = mock_set_key_image;
  set_key_press_handler = λ s. record s { has_handler = true };
  is_connected = λ s. s.connected;
  poll = λ s. (s, []);
}

-- what a key of the device in memory shows
abbrev pub mock_shown : {Image : Type 0} → ℕ → MockDevice Image → Option Image
mock_shown i s = find i s.images

-- The device in memory keeps the promises of a device.
pub mock-IsReliable : {Image : Type 0} → IsReliable (mock_adapter Image) mock_shown
unfolding mock_set_key_image
mock-IsReliable = record {
  uploads = λ i image s c. ground arith;
  shows = λ i j image s c. ground (arith, find-put i j image s.images);
  stays_connected = λ i image s c. ground arith;
  poll_connected = λ s c. c;
  poll_shows = λ i s. refl;
}
