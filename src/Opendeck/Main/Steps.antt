-- ===== src/Opendeck/Main/Steps.antt =====
-- opendeck-broker/opendeck_broker/main.py: what polling and the sweep of a tick change.
use home_ailab.Prelude.{
  ℕ, ◌≡◌, ◌<◌, refl, Option, none, some, List, [], ◌∷◌, get_elem?-some, Returns, Returns-bind,
  Returns-weaken, arith,
}
use home_ailab.Opendeck.Device.{DeviceAdapter}
use home_ailab.Opendeck.Registry.{sweep_expired}
use home_ailab.Opendeck.Registry.Validity.{IsValid}
use home_ailab.Opendeck.Registry.Shown.{frame-Shown}
use home_ailab.Opendeck.Broker.{Painter, Broker, Press, on_key, sweep_leased}
use home_ailab.Opendeck.Adapter.{Adapter}
use home_ailab.Opendeck.Adapter.Coherence.{IsCoherent}
use home_ailab.Opendeck.Adapter.Leaving.{sweep-IsCoherent, with_registry}
use home_ailab.Opendeck.Main.{take_presses}

module _ (painter : Painter) (dev : DeviceAdapter (Painter.Image painter)) where
  -- The broker differs from another at most in its queue of presses.
  abbrev pub IsQueued : Broker painter dev → Broker painter dev → Type 0
  IsQueued b q = (queue : List Press) × (q ≡ record b { press_queue = queue })

  pub on_key-IsQueued :
      (slot : ℕ) (b : Broker painter dev)
      → IsValid b.registry
      → slot < b.registry.slots
      → Returns (IsQueued b) (on_key painter dev slot b)
  unfolding on_key
  on_key-IsQueued slot b v bound =
      let (f, run, len, entries) = frame-Shown b.registry v.places in
      let (ss, at) = get_elem?-some f slot (omega (arith, len, bound)) in rw run (rw at (_, refl))

  -- every slot of the list is one of the registry's
  abbrev pub AllSlots : ℕ → List ℕ → Type 0
  AllSlots n [] = Unit
  AllSlots n (slot ∷ slots) = (slot < n) × AllSlots n slots

  pub take_presses-IsQueued :
      (slots : List ℕ) (b : Broker painter dev)
      → IsValid b.registry
      → AllSlots b.registry.slots slots
      → Returns (IsQueued b) (take_presses painter dev slots b)
  unfolding take_presses
  take_presses-IsQueued [] b v bounds = (b.press_queue, refl)
  take_presses-IsQueued (slot ∷ slots) b v bounds =
      Returns-bind (IsQueued b) _ (on_key painter dev slot b) _ (on_key-IsQueued slot b v bounds.0)
        (λ q h.
          let (queue, same) = h in
          rw same (
            Returns-weaken (IsQueued (record b { press_queue = queue })) (IsQueued b)
              (take_presses painter dev slots (record b { press_queue = queue })) (λ x k. k)
              (take_presses-IsQueued slots (record b { press_queue = queue }) v bounds.1)))

  -- the sweep of the broker changes the registry alone, and keeps the adapter coherent with it
  pub sweep_leased-Swept :
      (o : Option ℕ) (now : ℕ) (b : Broker painter dev) (a : Adapter)
      → IsCoherent (with_registry a b.registry)
      → Returns
          (λ p.
            IsCoherent (with_registry a p.0.registry)
            × (p.0 ≡ record b { registry = p.0.registry }))
          (sweep_leased painter dev o now b)
  unfolding sweep_leased
  sweep_leased-Swept none now b a c = (c, refl)
  sweep_leased-Swept (some lease) now b a c =
      Returns-bind (λ p. IsCoherent (with_registry a p.0)) _
        (sweep_expired now lease none b.registry) _
        (sweep-IsCoherent now lease none (with_registry a b.registry) c) (λ p h. (h, refl))
