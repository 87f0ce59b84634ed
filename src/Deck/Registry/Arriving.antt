-- ===== src/Deck/Registry/Arriving.antt =====
-- opencode-deck/opencode-deck/ocdeck/model.py, class Registry: the places of a new agent and of one that
-- is replaced.
use home_ailab.Prelude.{
  ℕ, ◌+◌, ◌≡◌, refl, ◌∙◌, sym, inl, inr, String, false, Option, none, some, ok, lookup, insert,
  get_elem?, get_elem?-set, length-set, arith, eq_iff, str_eq, lookup-insert, has-insert,
  insert-IsUnique, Bool-cases,
}
use home_ailab.Deck.Agents.{Agent, Registry}
use home_ailab.Deck.Registry.{enter_slot}
use home_ailab.Deck.Registry.Placing.{
  slot_at, IsPlaced, IsValid, Aged, Aged-refl, Found, taken, take_slot-taken, taken-Aged,
}

-- what a record is replaced by keeps its slot
abbrev pub replaced : String → Agent → Registry → Registry
replaced key b r = record r { records = insert key b r.records }

slot_at-replaced :
    (key : String) (a b : Agent) (r : Registry)
    → lookup key r.records ≡ some a
    → b.slot ≡ a.slot
    → (k : String) → slot_at k (replaced key b r) ≡ slot_at k r
slot_at-replaced key a b r at same k = elim (Bool-cases (str_eq key k)) [
  | inl own ↦
      let e : key ≡ k = (eq_iff key k).0 own in
      rw (lookup-insert key k b r.records, own, ← e, at) same
  | inr other ↦ rw (lookup-insert key k b r.records, other) refl
]

pub replaced-IsPlaced :
    (key : String) (a b : Agent) (r : Registry)
    → IsPlaced r
    → lookup key r.records ≡ some a
    → b.slot ≡ a.slot
    → b.id ≡ a.id
    → IsPlaced (replaced key b r)
replaced-IsPlaced key a b r w at same id = record {
  slots = w.slots;
  generations = w.generations;
  unique = insert-IsUnique key b r.records w.unique;
  named = λ k c e.
      ground (
        arith,
        lookup-insert key k b r.records,
        eq_iff key k,
        e,
        w.named k c,
        w.named key a at,
        id,
      );
  held = λ i k e. slot_at-replaced key a b r at same k ∙ w.held i k e;
  placed = λ k i e. w.placed k i (sym (slot_at-replaced key a b r at same k) ∙ e);
}

pub replaced-IsValid :
    (key : String) (a b : Agent) (r : Registry)
    → IsValid r
    → lookup key r.records ≡ some a
    → b.slot ≡ a.slot
    → b.id ≡ a.id
    → IsValid (replaced key b r)
replaced-IsValid key a b r v at same id = record {
  places = replaced-IsPlaced key a b r v.places at same id;
  waits = λ k known waiting.
      v.waits k (ground (arith, has-insert key k b r.records, eq_iff key k, at, known))
        (sym (slot_at-replaced key a b r at same k) ∙ waiting);
}

-- a new agent, with the slot that it took
abbrev entered : String → Agent → Registry → Registry
entered key a r = record r { records = insert key a r.records }

-- no agent of the key, and none in a slot that is free
entered-IsPlaced :
    (key : String) (a : Agent) (i g : ℕ) (r : Registry)
    → IsPlaced r
    → lookup key r.records ≡ none
    → get_elem? r.slots i ≡ some none
    → a.slot ≡ some i
    → a.id ≡ key
    → IsPlaced (entered key a (taken key i g r))
entered-IsPlaced key a i g r w new free slot id = record {
  slots = length-set r.slots i (some key) ∙ w.slots;
  generations = length-set r.generations i (g + 1) ∙ w.generations;
  unique = insert-IsUnique key a r.records w.unique;
  named =
      λ k c e. ground (arith, lookup-insert key k a r.records, eq_iff key k, e, w.named k c, id);
  held = λ j k e. ground (
    arith,
    get_elem?-set r.slots i j (some key) free,
    lookup-insert key k a r.records,
    eq_iff key k,
    w.held j k,
    slot,
    new,
    e,
  );
  placed = λ k j e. ground (
    arith,
    get_elem?-set r.slots i j (some key) free,
    lookup-insert key k a r.records,
    eq_iff key k,
    w.placed k j,
    slot,
    new,
    e,
  );
}

waiting-IsPlaced :
    (key : String) (a : Agent) (r : Registry)
    → IsPlaced r
    → lookup key r.records ≡ none
    → a.slot ≡ none
    → a.id ≡ key
    → IsPlaced (entered key a r)
waiting-IsPlaced key a r w new slot id = record {
  slots = w.slots;
  generations = w.generations;
  unique = insert-IsUnique key a r.records w.unique;
  named =
      λ k c e. ground (arith, lookup-insert key k a r.records, eq_iff key k, e, w.named k c, id);
  held = λ j k e.
      ground (arith, lookup-insert key k a r.records, eq_iff key k, w.held j k, slot, new, e);
  placed = λ k j e.
      ground (arith, lookup-insert key k a r.records, eq_iff key k, w.placed k j, slot, new, e);
}

-- the new agent's slot is the first free one, if there is one
pub enter-Entered :
    (key : String) (a : Agent) (o : Option ℕ) (r : Registry)
    → IsValid r
    → lookup key r.records ≡ none
    → Found r.slots 0 o
    → a.slot ≡ o
    → a.id ≡ key
    → (q : Registry) × ((enter_slot key o r ≡ ok q) × (IsValid (entered key a q) × (Aged r q)))
unfolding enter_slot
enter-Entered key a none r v new full slot id = (
  r,
  (
    refl,
    (
      record {
        places = waiting-IsPlaced key a r v.places new slot id;
        waits = λ k known waiting. full;
      },
      Aged-refl r,
    ),
  ),
)
enter-Entered key a (some i) r v new (j, (at, free)) slot id =
    let here : get_elem? r.slots i ≡ some none = ground arith in
    let (g, (gen, run)) = take_slot-taken key i r v.places here in
    (
      taken key i g r,
      (
        run,
        (
          record {
            places = entered-IsPlaced key a i g r v.places new here slot id;
            waits = λ k known waiting.
                let other : str_eq key k ≡ false =
                  ground (arith, lookup-insert key k a r.records, slot, waiting) in
                absurd (
                  v.waits k (ground (arith, has-insert key k a r.records, other, known))
                    (ground (arith, lookup-insert key k a r.records, other, waiting)) i here);
          },
          taken-Aged key i g r here gen,
        ),
      ),
    )
