-- ===== src/Opendeck/Registry/Validity.antt =====
-- opendeck-broker/opendeck_broker/registry.py: the registry's invariant. Every operation keeps it
-- and raises nothing.
use home_ailab.Prelude.{
  ℕ, zero, suc, ◌+◌, ◌≡◌, ◌≢◌, refl, ◌∙◌, String, true, Option, none, some, List, Dict, has, lookup,
  insert, erase, get_elem?, set, arith, eq_iff, str_eq, lookup-insert, lookup-erase, has-insert,
  length-set, get_elem?-set, if◌then◌else◌, replicate,
}
use home_ailab.Opendeck.Objects.{Ref, Objects, update}
use home_ailab.Opendeck.Registry.{Registry, new_registry, slot_count, join, note}
use home_ailab.Opendeck.Registry.Placing.{IsPlaced, occupied, overflowed, IsFree, id_of}

-- The dictionaries have the same keys, and an instance stands under its own id.
pub record IsTracked (r : Registry) : Type 0 where
  pub known : (iid : String) → has iid r.instance_slot ≡ has iid r.instances
  pub produced : (iid : String) → has iid r.producer ≡ has iid r.instances
  pub seen : (iid : String) → has iid r.last_seen ≡ has iid r.instances
  pub named : (iid : String) (ref : Ref) → lookup iid r.instances ≡ some ref → id_of ref r ≡ iid

pub record IsValid (r : Registry) : Type 0 where
  pub places : IsPlaced r
  pub tracks : IsTracked r

none_held :
    (n i : ℕ) (iid : String) → get_elem? (replicate {A = Option String} n none) i ≢ some (some iid)
none_held zero i iid e = cc
none_held (suc n) zero iid e = cc
none_held (suc n) (suc i) iid e = none_held n i iid e

-- A new registry of six slots, which is how the broker makes it, is valid.
pub new_registry-IsValid :
    (epoch : String) (objects : Objects) → IsValid (new_registry slot_count epoch objects)
unfolding new_registry lookup
new_registry-IsValid epoch objects = record {
  places = record {
    occupants = refl;
    generations = refl;
    held = λ i iid e. absurd (none_held slot_count i iid e);
    placed = λ iid i e. cc;
  };
  tracks = record {
    known = λ iid. refl;
    produced = λ iid. refl;
    seen = λ iid. refl;
    named = λ iid ref e. cc;
  };
}

pub IsPlaced-occupied :
    (iid : String) (i g : ℕ) {r : Registry}
    → IsPlaced r
    → IsFree r i
    → join (lookup iid r.instance_slot) ≡ none
    → IsPlaced (occupied iid i g r)
IsPlaced-occupied iid i g {r} w free new = record {
  occupants = length-set r.slot_occupant i (some iid) ∙ w.occupants;
  generations = length-set r.slot_generation i (g + 1) ∙ w.generations;
  held = λ j k e. ground (
    arith,
    get_elem?-set r.slot_occupant i j (some iid) free,
    lookup-insert iid k (some i) r.instance_slot,
    eq_iff iid k,
    w.held j k,
  );
  placed = λ k j e. ground (
    arith,
    get_elem?-set r.slot_occupant i j (some iid) free,
    lookup-insert iid k (some i) r.instance_slot,
    eq_iff iid k,
    w.placed k j,
  );
}

pub IsPlaced-overflowed :
    (iid : String) {r : Registry}
    → IsPlaced r
    → join (lookup iid r.instance_slot) ≡ none
    → IsPlaced (overflowed iid r)
IsPlaced-overflowed iid {r} w new = record {
  occupants = w.occupants;
  generations = w.generations;
  held =
      λ j k e. ground (arith, lookup-insert iid k none r.instance_slot, eq_iff iid k, w.held j k);
  placed =
      λ k j e. ground (arith, lookup-insert iid k none r.instance_slot, eq_iff iid k, w.placed k j);
}

-- the occupants once the slot of an instance is given back
abbrev pub cleared : Option ℕ → List (Option String) → List (Option String)
cleared none occ = occ
cleared (some s) occ = set occ s none

abbrev pub released : String → Option ℕ → Registry → Registry
released iid old r = record r {
  slot_occupant = cleared old r.slot_occupant;
  instance_slot = erase iid r.instance_slot;
}

pub IsPlaced-released :
    (iid : String) (old : Option ℕ) {r : Registry}
    → IsPlaced r
    → join (lookup iid r.instance_slot) ≡ old
    → IsPlaced (released iid old r)
IsPlaced-released iid none {r} w old = record {
  occupants = w.occupants;
  generations = w.generations;
  held = λ j k e. ground (arith, lookup-erase iid k r.instance_slot, eq_iff iid k, w.held j k);
  placed = λ k j e. ground (arith, lookup-erase iid k r.instance_slot, eq_iff iid k, w.placed k j);
}
IsPlaced-released iid (some s) {r} w old = record {
  occupants = length-set r.slot_occupant s none ∙ w.occupants;
  generations = w.generations;
  held = λ j k e. ground (
    arith,
    get_elem?-set r.slot_occupant s j none (w.placed iid s old),
    lookup-erase iid k r.instance_slot,
    eq_iff iid k,
    w.held j k,
  );
  placed = λ k j e. ground (
    arith,
    get_elem?-set r.slot_occupant s j none (w.placed iid s old),
    lookup-erase iid k r.instance_slot,
    eq_iff iid k,
    w.placed k j,
    w.placed iid s old,
  );
}

-- Writes under one id to all four dictionaries keep them together.
module _ (ref : Ref) {r : Registry} (t : IsTracked r) where
  pub written-IsTracked :
      (q : Registry) (now : ℕ) (p : String × ℕ)
      → q.instances ≡ insert (id_of ref r) ref r.instances
      → q.producer ≡ insert (id_of ref r) p r.producer
      → q.last_seen ≡ insert (id_of ref r) now r.last_seen
      → ((k : String)
          → has k q.instance_slot
            ≡ (if str_eq (id_of ref r) k then true else has k r.instance_slot))
      → ((x : Ref) → id_of x q ≡ id_of x r)
      → IsTracked q
  written-IsTracked q now p ei ep es slots names = record {
    known = λ k.
        rw ei (slots k ∙ ground (arith, has-insert (id_of ref r) k ref r.instances, t.known k));
    produced = λ k.
        rw (ei, ep)
          (ground (
            arith,
            has-insert (id_of ref r) k ref r.instances,
            has-insert (id_of ref r) k p r.producer,
            t.produced k,
          ));
    seen = λ k.
        rw (ei, es)
          (ground (
            arith,
            has-insert (id_of ref r) k ref r.instances,
            has-insert (id_of ref r) k now r.last_seen,
            t.seen k,
          ));
    named = λ k x e.
        names x
        ∙ ground (
          arith,
          ei,
          lookup-insert (id_of ref r) k ref r.instances,
          eq_iff (id_of ref r) k,
          t.named k x,
        );
  }

  pub note_names : (now : ℕ) (x : Ref) → id_of x (note now ref r) ≡ id_of x r
  unfolding note update
  note_names now x = ground arith

  pub noted-IsTracked :
      (now : ℕ) (occ : List (Option String)) (gens : List ℕ) (d : Dict (Option ℕ))
      → ((k : String) → has k d ≡ (if str_eq (id_of ref r) k then true else has k r.instance_slot))
      → IsTracked (record (note now ref r) {
        slot_occupant = occ;
        slot_generation = gens;
        instance_slot = d;
      })
  unfolding note
  noted-IsTracked now occ gens d h = written-IsTracked _ now _ refl refl refl h (note_names now)
