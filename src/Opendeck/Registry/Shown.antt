-- ===== src/Opendeck/Registry/Shown.antt =====
-- opendeck-broker/opendeck_broker/registry.py: what the frame shows of each slot.
use home_ailab.Prelude.{
  ℕ, zero, suc, ◌+◌, ◌<◌, ◌≤◌, ◌≡◌, refl, ap, ◌∙◌, String, Bool, true, false, Option, none, some,
  List, [], ◌∷◌, ok, ◌>>=◌, lookup, get_elem?, length, arith, Returns, get_elem?-some, lt-length,
}
use home_ailab.Opendeck.Model.{derive_display}
use home_ailab.Opendeck.Objects.{Ref}
use home_ailab.Opendeck.Registry.{Registry, join, slot_of}
use home_ailab.Opendeck.Registry.Frame.{
  SlotState, show_slot, frame_from, frame, resolve_at, is_expected, is_current, validate_press,
}
use home_ailab.Opendeck.Registry.Placing.{IsPlaced, IsFree}
use home_ailab.Opendeck.Registry.Validity.{IsValid}

-- the entry of the frame for slot `i`
abbrev pub Shown : Registry → ℕ → Option SlotState → Type 0
Shown r i x =
    (o : Option String) × (g : ℕ) × (get_elem? r.slot_occupant i ≡ some o)
    × (get_elem? r.slot_generation i ≡ some g)
    × (x ≡ some (show_slot i g o r))

frame_from-Shown :
    (n i : ℕ) (r : Registry)
    → i + n ≤ length r.slot_occupant
    → i + n ≤ length r.slot_generation
    → (f : List SlotState) × (frame_from i n r ≡ ok f)
      × (length f ≡ n)
      × ((j k : ℕ) → i + j ≡ k → j < n → Shown r k (get_elem? f j))
unfolding frame_from
frame_from-Shown zero i r ho hg = ([], refl, refl, λ j k e h. absurd (omega arith))
frame_from-Shown (suc n) i r ho hg =
    let (o, at) = get_elem?-some r.slot_occupant i (omega arith) in
    let (g, gen) = get_elem?-some r.slot_generation i (omega arith) in
    let (f, run, len, shown) = frame_from-Shown n (i + 1) r (omega arith) (omega arith) in
    (show_slot i g o r ∷ f, simp (at, gen, run), ap suc len, pick o g f at gen shown)
  where
    pick :
        (o : Option String) (g : ℕ) (f : List SlotState)
        → get_elem? r.slot_occupant i ≡ some o
        → get_elem? r.slot_generation i ≡ some g
        → ((j k : ℕ) → i + 1 + j ≡ k → j < n → Shown r k (get_elem? f j))
        → (j k : ℕ) → i + j ≡ k
        → j < suc n
        → Shown r k (get_elem? (show_slot i g o r ∷ f) j)
    pick o g f at gen shown zero k e h =
        let same : i ≡ k = omega arith in rw (← same) (o, g, at, gen, refl)
    pick o g f at gen shown (suc j) k e h = shown j k (omega arith) (omega arith)

-- On a valid registry `frame` raises nothing; it has one entry for each slot, in order.
pub frame-Shown :
    (r : Registry)
    → IsPlaced r
    → (f : List SlotState) × (frame r ≡ ok f)
      × (length f ≡ r.slots)
      × ((i : ℕ) → i < r.slots → Shown r i (get_elem? f i))
unfolding frame
frame-Shown r w =
    let (f, run, len, shown) =
      frame_from-Shown r.slots 0 r (omega (arith, w.occupants)) (omega (arith, w.generations)) in
    (f, run, len, λ i h. shown i i (omega arith) h)

-- On a valid registry `frame` returns one entry for each slot. The entry of the slot that a live
-- instance has carries that slot, the slot's generation, and the id, the label and the derived
-- appearance of the instance.
pub frame_live :
    (r : Registry) (iid : String) (i : ℕ) (ref : Ref)
    → IsValid r
    → slot_of iid r ≡ some i
    → lookup iid r.instances ≡ some ref
    → (r.objects ref).live ≡ true
    → Returns
        (λ f.
          (length f ≡ r.slots)
          × (g : ℕ) × (get_elem? r.slot_generation i ≡ some g)
          × (get_elem? f i
              ≡ some (record {
                slot = i;
                instance_id = some iid;
                generation = g;
                appearance = derive_display (some (r.objects ref));
                label = (r.objects ref).identity_label;
              })))
        (frame r)
unfolding show_slot slot_of derive_display
frame_live r iid i ref v sits known live =
    let at = v.places.placed iid i sits in
    let (f, run, len, shown) = frame-Shown r v.places in
    let (o, g, at', gen, e) =
      shown i (omega (arith, lt-length r.slot_occupant i at, v.places.occupants)) in
    let here : o ≡ some iid = ground arith in rw run (len, g, gen, e ∙ rw here (ground arith))

-- The entry of a free slot is dark: no instance, no label, black, under the slot's generation.
pub frame_free :
    (r : Registry) (i : ℕ)
    → IsValid r
    → IsFree r i
    → Returns
        (λ f.
          (g : ℕ) × (get_elem? r.slot_generation i ≡ some g)
          × (get_elem? f i
              ≡ some (record {
                slot = i;
                instance_id = none;
                generation = g;
                appearance = derive_display none;
                label = "";
              })))
        (frame r)
unfolding show_slot derive_display
frame_free r i v free =
    let (f, run, len, shown) = frame-Shown r v.places in
    let (o, g, at', gen, e) =
      shown i (omega (arith, lt-length r.slot_occupant i free, v.places.occupants)) in
    let here : o ≡ none = ground arith in rw run (g, gen, e ∙ rw here refl)

-- the generation that a press has to name, if it names one
abbrev pub press_passes : Option ℕ → Option ℕ → Registry → Bool
press_passes expected none r = false
press_passes expected (some s) r = elim (get_elem? r.slot_generation s) [
  | none ↦ false
  | some g ↦ is_expected expected g
]

show_slot_generation :
    (i g : ℕ) (o : Option String) (r : Registry) → (show_slot i g o r).generation ≡ g
unfolding show_slot
show_slot_generation i g none r = refl
show_slot_generation i g (some iid) r = ground arith

-- what `resolve` finds of an instance that has a slot
resolve_at-some :
    (iid : String) (s : ℕ) (r : Registry)
    → IsValid r
    → join (lookup iid r.instance_slot) ≡ some s
    → (x : SlotState) × (resolve_at (some s) r ≡ ok (some x))
      × (x.slot ≡ s)
      × (get_elem? r.slot_generation s ≡ some x.generation)
unfolding resolve_at show_slot
resolve_at-some iid s r v e =
    let at = v.places.placed iid s e in
    let (f, run, len, shown) = frame-Shown r v.places in
    let (o, g, at', gen, x) =
      shown s (omega (arith, lt-length r.slot_occupant s at, v.places.occupants)) in
    (show_slot s g o r, simp (run, x), ground arith, gen ∙ ground arith)

passes_at :
    (expected : Option ℕ) (s g : ℕ) (r : Registry)
    → get_elem? r.slot_generation s ≡ some g
    → is_expected expected g ≡ press_passes expected (some s) r
passes_at expected s g r h = rw (h, press_passes)

validate_at :
    (iid : String) (expected old : Option ℕ) (r : Registry)
    → IsValid r
    → join (lookup iid r.instance_slot) ≡ old
    → (do state ← resolve_at old r; ok (is_current expected state))
      ≡ ok (press_passes expected old r)
validate_at iid expected none r v e = unfold resolve_at in refl
validate_at iid expected (some s) r v e =
    let (x, run, at, gen) = resolve_at-some iid s r v e in
    rw run (ap ok (passes_at expected s x.generation r gen))

-- On a valid registry `validate_press` raises nothing. It accepts a press exactly if the instance
-- has a slot and the press names no generation or the one that the slot has now.
pub validate_press_lem :
    (iid : String) (expected : Option ℕ) (r : Registry)
    → IsValid r
    → validate_press iid expected r ≡ ok (press_passes expected (slot_of iid r) r)
unfolding validate_press slot_of
validate_press_lem iid expected r v =
    validate_at iid expected (join (lookup iid r.instance_slot)) r v refl

-- the slot of an entry of the frame
pub show_slot_place : (i g : ℕ) (o : Option String) (r : Registry) → (show_slot i g o r).slot ≡ i
unfolding show_slot
show_slot_place i g none r = refl
show_slot_place i g (some iid) r = ground arith
