-- ===== src/Opendeck/Main/Tests.antt =====
-- opendeck-broker/opendeck_broker/main.py: a tick with the device in memory.
use home_ailab.Prelude.{
  ℕ, refl, String, true, none, some, [], ◌∷◌, Result, ok, Error, find, Returns, str_eq, eq_iff,
}
use home_ailab.Opendeck.Device.{
  MockDevice, mock_adapter, mock_shown, new_mock, mock_connect, mock-IsReliable,
}
use home_ailab.Opendeck.Focus.{Desktop}
use home_ailab.Opendeck.Broker.{Painter, new_broker}
use home_ailab.Opendeck.Samples.{launched, launched-IsCoherent}
use home_ailab.Opendeck.Main.{Reading, Stack, tick}
use home_ailab.Opendeck.Main.Ticks.{IsAttached, IsShown, tick_shows}

-- an image is the label that it bears
abbrev painter : Painter
painter = record { Image = String; paint = λ a label size. label; same = str_eq }

abbrev desk : Desktop
desk = record {
  World = ℕ;
  enumerate = λ w. (11, "mail") ∷ (12, "opencode:work-abcdef") ∷ [];
  show = λ h cmd w. (none, w);
  set_foreground = λ h w. (none, h);
  get_foreground = λ w. w;
  lower = λ t. t;
}

abbrev reading : Reading
reading = record { now = 200; snapshot = Result.raise Error.os_error; alive = λ p. ok true }

abbrev device : MockDevice String
device = (mock_connect (new_mock 2 3)).0

abbrev stack : Stack painter (mock_adapter String)
stack = record {
  broker =
      new_broker painter (mock_adapter String) launched.registry (some device) true 80 (some 15);
  adapter = launched;
}

attached : IsAttached painter (mock_adapter String) mock_shown eq_iff mock-IsReliable stack.broker
unfolding new_broker mock_connect
attached = record {
  state = device;
  there = refl;
  connected = refl;
  truthful = unfold find in λ i image e. cc;
}

tick_shows_example :
    Returns
      (λ p. IsShown painter (mock_adapter String) mock_shown eq_iff mock-IsReliable p.0)
      (tick painter (mock_adapter String) desk reading stack 11)
unfolding attached
tick_shows_example =
    tick_shows painter (mock_adapter String) mock_shown eq_iff mock-IsReliable desk reading
      (λ p. true) stack 11 (λ p. refl) launched-IsCoherent attached tt
