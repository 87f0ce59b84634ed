-- ===== src/Opendeck/Registry/Placing.antt =====
-- opendeck-broker/opendeck_broker/registry.py: where `register` puts an instance. Each way in which
-- it can end is a constructor of `Registered`, with what was true of the slots before.
use home_ailab.Prelude.{
  ℕ, zero, suc, ◌+◌, ◌≤◌, ◌<◌, ◌≡◌, ◌≢◌, refl, String, Option, none, some, List, Result, ok, lookup,
  insert, length, get_elem?, set, arith, eq_refl, get_elem?-some, lt-length,
}
use home_ailab.Opendeck.Objects.{Ref}
use home_ailab.Opendeck.Registry.{
  Registry, join, note, kept_slot, find_free, occupy, place, assign, register,
}

-- The slots and the instances' slots are inverse to each other, and there are `slots` of them.
pub record IsPlaced (r : Registry) : Type 0 where
  pub occupants : length r.slot_occupant ≡ r.slots
  pub generations : length r.slot_generation ≡ r.slots
  pub held :
      (i : ℕ) (iid : String)
      → get_elem? r.slot_occupant i ≡ some (some iid)
      → join (lookup iid r.instance_slot) ≡ some i
  pub placed :
      (iid : String) (i : ℕ)
      → join (lookup iid r.instance_slot) ≡ some i
      → get_elem? r.slot_occupant i ≡ some (some iid)

-- what `occupy` leaves where the slot's generation was `g`
abbrev pub occupied : String → ℕ → ℕ → Registry → Registry
occupied iid i g r = record r {
  slot_occupant = set r.slot_occupant i (some iid);
  slot_generation = set r.slot_generation i (g + 1);
  instance_slot = insert iid (some i) r.instance_slot;
}

abbrev pub overflowed : String → Registry → Registry
overflowed iid r = record r { instance_slot = insert iid none r.instance_slot }

abbrev pub IsFree : Registry → ℕ → Type 0
IsFree r i = get_elem? r.slot_occupant i ≡ some none

abbrev pub id_of : Ref → Registry → String
id_of ref r = (r.objects ref).instance_id

pub data Registered (now : ℕ) (ref : Ref) (r : Registry)
    : Result (Registry × Option ℕ) → Type 0 where
  kept :
      (s : ℕ)
      → join (lookup (id_of ref r) r.instance_slot) ≡ some s
      → Registered now ref r (ok (note now ref r, some s))
  fresh :
      (i g : ℕ)
      → join (lookup (id_of ref r) r.instance_slot) ≡ none
      → IsFree r i
      → ((j : ℕ) → j < i → ¬ IsFree r j)
      → get_elem? r.slot_generation i ≡ some g
      → Registered now ref r (ok (occupied (id_of ref r) i g (note now ref r), some i))
  full :
      join (lookup (id_of ref r) r.instance_slot) ≡ none
      → ((j : ℕ) → j < r.slots → ¬ IsFree r j)
      → Registered now ref r (ok (overflowed (id_of ref r) (note now ref r), none))

-- what the loop over the slots finds
abbrev pub Found : List (Option String) → ℕ → ℕ → Option ℕ → Type 0
Found occ i n none = (j : ℕ) → i ≤ j → j < i + n → get_elem? occ j ≢ some none
Found occ i n (some k) =
    (get_elem? occ k ≡ some none) × ((j : ℕ) → i ≤ j → j < k → get_elem? occ j ≢ some none)

find_free-Found :
    (i n : ℕ) (occ : List (Option String))
    → i + n ≤ length occ
    → (free : Option ℕ) × (find_free i n occ ≡ ok free) × Found occ i n free
unfolding find_free
find_free-Found i zero occ h = (none, refl, λ j p q. absurd (omega arith))
find_free-Found i (suc n) occ h =
    let (o, at) = get_elem?-some occ i (omega arith) in
    step o at (find_free-Found (i + 1) n occ (omega arith))
  where
    later : (j : ℕ) → i ≤ j → j ≢ i → i + 1 ≤ j
    later j p d = omega arith

    step :
        (o : Option String)
        → get_elem? occ i ≡ some o
        → (free : Option ℕ) × (find_free (i + 1) n occ ≡ ok free) × Found occ (i + 1) n free
        → (free : Option ℕ) × (find_free i (suc n) occ ≡ ok free) × Found occ i (suc n) free
    step none at rest = (some i, rw at, (at, λ j p q. absurd (omega arith)))
    step (some x) at (none, run, nothing) = (none, rw at run, λ j p q e. ground (arith, nothing j))
    step (some x) at (some k, run, found) =
        (some k, rw at run, (found.0, λ j p q e. ground (arith, found.1 j)))

pub occupy-occupied :
    (iid : String) (i g : ℕ) (r : Registry)
    → IsFree r i
    → get_elem? r.slot_generation i ≡ some g
    → occupy iid i r ≡ ok (occupied iid i g r)
unfolding occupy
occupy-occupied iid i g r free at = ground arith

module _ (now : ℕ) (ref : Ref) {r : Registry} (w : IsPlaced r) where
  pub IsPlaced-note : IsPlaced (note now ref r)
  unfolding note
  IsPlaced-note = record {
    occupants = w.occupants;
    generations = w.generations;
    held = w.held;
    placed = w.placed;
  }

  place-Registered :
      (free : Option ℕ)
      → join (lookup (id_of ref r) r.instance_slot) ≡ none
      → Found r.slot_occupant 0 r.slots free
      → Registered now ref r (place (id_of ref r) free (note now ref r))
  unfolding place
  place-Registered none new found = full new (λ j lt. found j (omega arith) (omega arith))
  place-Registered (some i) new found =
      let bound = lt-length r.slot_occupant i found.0 in
      let (g, at) =
        get_elem?-some r.slot_generation i (omega (arith, w.occupants, w.generations)) in
      let run : occupy (id_of ref r) i (note now ref r)
          ≡ ok (occupied (id_of ref r) i g (note now ref r)) =
        unfold note in occupy-occupied (id_of ref r) i g (note now ref r) found.0 at in
      rw run (fresh i g new found.0 (λ j lt. found.1 j (omega arith) lt) at)

  assign-Registered :
      (old : Option ℕ)
      → join (lookup (id_of ref r) r.instance_slot) ≡ old
      → Registered now ref r (assign (id_of ref r) old (note now ref r))
  unfolding assign
  assign-Registered (some s) e = kept s e
  assign-Registered none e =
      let (free, run, found) =
        find_free-Found 0 r.slots r.slot_occupant (omega (arith, w.occupants)) in
      unfold note in rw run (place-Registered free e found)

  -- a slot that an instance has is its own
  kept-same :
      (old : Option ℕ)
      → join (lookup (id_of ref r) r.instance_slot) ≡ old
      → kept_slot (id_of ref r) old r.slot_occupant ≡ ok old
  unfolding kept_slot
  kept-same none e = refl
  kept-same (some s) e = rw (w.placed (id_of ref r) s e) (ground (arith, eq_refl (id_of ref r)))

  -- On placed slots `register` raises nothing, and ends in one of the three ways.
  pub register-Registered : Registered now ref r (register now ref r)
  unfolding register
  register-Registered =
      let old = join (lookup (id_of ref r) r.instance_slot) in
      rw (kept-same old refl) (assign-Registered old refl)
