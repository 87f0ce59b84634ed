-- ===== src/Opendeck/Registry/Presses.antt =====
-- opendeck-broker/opendeck_broker/registry.py: generations, and the presses that they turn away.
use home_ailab.Prelude.{
  ℕ, ◌+◌, ◌≤◌, ◌≡◌, ◌≢◌, refl, ◌∙◌, inl, inr, ◌==◌, String, false, Option, none, some, Result, ok,
  get_elem?, arith, Returns, get_elem?-set, Bool-cases,
}
use home_ailab.Opendeck.Objects.{Ref}
use home_ailab.Opendeck.Registry.{Registry, note, free_slot, slot_of}
use home_ailab.Opendeck.Registry.Frame.{validate_press}
use home_ailab.Opendeck.Registry.Placing.{IsPlaced, Registered, kept, fresh, full, id_of}
use home_ailab.Opendeck.Registry.Validity.{IsValid, cleared}
use home_ailab.Opendeck.Registry.Freeing.{free_slot-forgotten}
use home_ailab.Opendeck.Registry.Calls.{History, run}
use home_ailab.Opendeck.Registry.Rules.{run_rule}
use home_ailab.Opendeck.Registry.Shown.{press_passes, validate_press_lem}

-- Slot `s` has at least the generation `g`, and while it has just that, nobody but `iid` holds it.
abbrev pub IsGuarded : String → ℕ → ℕ → Registry → Type 0
IsGuarded iid s g r =
    (h : ℕ) × (get_elem? r.slot_generation s ≡ some h)
    × (g ≤ h)
    × (h ≡ g → (k : String) → get_elem? r.slot_occupant s ≡ some (some k) → k ≡ iid)

module _ (iid : String) (s g : ℕ) where
  Registered-IsGuarded :
      {now : ℕ} {ref : Ref} {r : Registry} {res : Result (Registry × Option ℕ)}
      → Registered now ref r res
      → IsGuarded iid s g r
      → Returns (λ p. IsGuarded iid s g p.0) res
  unfolding note
  Registered-IsGuarded (kept s' e) h = h
  Registered-IsGuarded {ref = ref} {r = r} (fresh i g' new free low at) (h, gen, le, only) =
      elim (Bool-cases (i == s)) [
        | inl same ↦ (
          g' + 1,
          ground (arith, get_elem?-set r.slot_generation i s (g' + 1) at),
          ground arith,
          λ e. absurd (ground arith),
        )
        | inr other ↦ (
          h,
          ground (arith, get_elem?-set r.slot_generation i s (g' + 1) at),
          le,
          λ e k x.
              only e k
                (ground (arith, get_elem?-set r.slot_occupant i s (some (id_of ref r)) free)),
        )
      ]
  Registered-IsGuarded (full new busy) h = h

  cleared_at :
      (old : Option ℕ) (r : Registry) (k : String)
      → get_elem? (cleared old r.slot_occupant) s ≡ some (some k)
      → IsPlaced r
      → ((j : ℕ) → old ≡ some j → (m : String) × (get_elem? r.slot_occupant j ≡ some (some m)))
      → get_elem? r.slot_occupant s ≡ some (some k)
  cleared_at none r k x w there = x
  cleared_at (some j) r k x w there =
      let (m, at) = there j refl in ground (arith, get_elem?-set r.slot_occupant j s none at)

  free_slot-IsGuarded :
      (k : String) (r : Registry)
      → IsValid r
      → IsGuarded iid s g r
      → Returns (λ p. IsGuarded iid s g p.0) (free_slot k r)
  free_slot-IsGuarded k r v (h, gen, le, only) = rw (free_slot-forgotten k r v.places) (
    h,
    gen,
    le,
    λ e m x. only e m (cleared_at _ r m x v.places (λ j p. (k, v.places.placed k j p))),
  )

  -- Whatever is called after slot `s` was in the hands of `iid` under the generation `g`, an
  -- instance other than `iid` that has the slot has it under a later generation.
  run-IsGuarded :
      (calls : History) (r : Registry)
      → IsValid r
      → IsGuarded iid s g r
      → Returns (λ q. IsValid q × IsGuarded iid s g q) (run calls r)
  run-IsGuarded =
      run_rule (IsGuarded iid s g) free_slot-IsGuarded
        (λ now ref r res v reg h. Registered-IsGuarded reg h)
        (λ r q o gens d h. (h.0, rw gens h.1, h.2, rw o h.3))

-- A delayed press cannot focus the instance that took over its slot: if `iid` had slot `s` under
-- the generation `g`, then after any history a press that names `g` is turned away for every other
-- instance that has the slot by then.
pub stale_press :
    (calls : History) (r q : Registry) (iid k : String) (s g : ℕ)
    → IsValid r
    → slot_of iid r ≡ some s
    → get_elem? r.slot_generation s ≡ some g
    → run calls r ≡ ok q
    → k ≢ iid
    → slot_of k q ≡ some s
    → validate_press k (some g) q ≡ ok false
unfolding slot_of
stale_press calls r q iid k s g v sits gen ran other has_slot =
    let held = v.places.placed iid s sits in
    let start : IsGuarded iid s g r = (g, gen, omega arith, λ e m x. ground arith) in
    let (valid, (h, gen', le, only)) : IsValid q × IsGuarded iid s g q =
      rw ran at (run-IsGuarded iid s g calls r v start) in
    let later : h ≢ g = λ e. other (only e k (valid.places.placed k s has_slot)) in
    validate_press_lem k (some g) q valid ∙ rw has_slot (rw (gen', press_passes) (ground arith))
