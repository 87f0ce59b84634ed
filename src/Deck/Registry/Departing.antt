-- ===== src/Deck/Registry/Departing.antt =====
-- opencode-deck/opencode-deck/ocdeck/model.py, class Registry: removing an agent.
use home_ailab.Prelude.{
  ℕ, ◌+◌, ◌≡◌, refl, ◌∙◌, ap, sym, String, false, Option, none, some, [], ◌∷◌, ok, Dict, lookup,
  erase, has, keys, get_elem?, set, get_elem?-set, length-set, get_elem?-some, lt-length, arith,
  eq_iff, eq_refl, str_eq, lookup-erase, has-erase, erase-IsUnique, contains-keys, IsUnique,
  contains, if◌then◌else◌, Returns,
}
use home_ailab.Deck.Agents.{Agent, Registry}
use home_ailab.Deck.Registry.Removing.{leave_slot, remove}
use home_ailab.Deck.Registry.Placing.{slot_at, IsPlaced, IsValid, Aged, Aged-trans}
use home_ailab.Deck.Registry.Leaving.{AllThere, promote_all-Promoted}

-- the records without an agent
abbrev popped : String → Registry → Registry
popped key r = record r { records = erase key r.records }

-- the slot is given back
abbrev left : ℕ → ℕ → Registry → Registry
left i g r = record r { slots = set r.slots i none; generations = set r.generations i (g + 1) }

-- an agent has left
record Left (key : String) (r q : Registry) : Type 0 where
  places : IsPlaced q
  aged : Aged r q
  records : q.records ≡ erase key r.records

popped-IsPlaced :
    (key : String) (r : Registry) → IsPlaced r → slot_at key r ≡ none → IsPlaced (popped key r)
popped-IsPlaced key r w no_slot = record {
  slots = w.slots;
  generations = w.generations;
  unique = erase-IsUnique key r.records w.unique;
  named = λ k c e. ground (arith, lookup-erase key k r.records, e, w.named k c);
  held =
      λ j k e. ground (arith, lookup-erase key k r.records, eq_iff key k, w.held j k, no_slot, e);
  placed = λ k j e. ground (arith, lookup-erase key k r.records, w.placed k j, e);
}

left-IsPlaced :
    (key : String) (i g : ℕ) (r : Registry)
    → IsPlaced r
    → slot_at key r ≡ some i
    → IsPlaced (left i g (popped key r))
left-IsPlaced key i g r w at = record {
  slots = length-set r.slots i none ∙ w.slots;
  generations = length-set r.generations i (g + 1) ∙ w.generations;
  unique = erase-IsUnique key r.records w.unique;
  named = λ k c e. ground (arith, lookup-erase key k r.records, e, w.named k c);
  held = λ j k e. ground (
    arith,
    get_elem?-set r.slots i j none (w.placed key i at),
    lookup-erase key k r.records,
    eq_iff key k,
    w.held j k,
    at,
    e,
  );
  placed = λ k j e. ground (
    arith,
    get_elem?-set r.slots i j none (w.placed key i at),
    lookup-erase key k r.records,
    eq_iff key k,
    w.placed k j,
    w.placed key i at,
    e,
  );
}

left-Aged :
    (i g : ℕ) (k : String) (r q : Registry)
    → q.slots ≡ r.slots
    → q.generations ≡ r.generations
    → get_elem? r.slots i ≡ some (some k)
    → get_elem? r.generations i ≡ some g
    → Aged r (left i g q)
left-Aged i g k r q slots gens here at j =
    rw (slots, gens)
      (
        ground (arith, get_elem?-set r.generations i j (g + 1) at),
        λ e. ground (
          arith,
          get_elem?-set r.generations i j (g + 1) at,
          get_elem?-set r.slots i j none here,
          e,
        ),
      )

leave_slot-Left :
    (key : String) (o : Option ℕ) (r : Registry)
    → IsPlaced r
    → slot_at key r ≡ o
    → (q : Registry) × ((leave_slot o (popped key r) ≡ ok q) × Left key r q)
unfolding leave_slot
leave_slot-Left key none r w at = (
  popped key r,
  (
    refl,
    record {
      places = popped-IsPlaced key r w at;
      aged = λ j. (omega arith, λ e. refl);
      records = refl;
    },
  ),
)
leave_slot-Left key (some i) r w at =
    let here = w.placed key i at in
    let bound = lt-length r.slots i here in
    let (g, gen) = get_elem?-some r.generations i (omega (arith, w.slots, w.generations, bound)) in
    (
      left i g (popped key r),
      (
        ground arith,
        record {
          places = left-IsPlaced key i g r w at;
          aged = left-Aged i g key r (popped key r) refl refl here gen;
          records = refl;
        },
      ),
    )

-- the records of a registry are there
all_there :
    (agents : Dict Agent) (r : Registry)
    → ((k : String) (a : Agent) → lookup k agents ≡ some a → lookup k r.records ≡ some a)
    → IsUnique (keys agents)
    → AllThere agents r
unfolding lookup keys contains
all_there [] r from u = tt
all_there ((k, a) ∷ agents) r from u = (
  from k a (rw (eq_refl k) refl),
  all_there agents r
      (λ j m there. from j m (ground (arith, eq_iff k j, contains-keys k agents, u.0, there))) u.1,
)

-- what `remove` leaves
pub record Removed (key : String) (r q : Registry) : Type 0 where
  pub valid : IsValid q
  pub aged : Aged r q
  pub known : (k : String) → has k q.records ≡ (if str_eq key k then false else has k r.records)

-- Removing raises nothing. The agent is gone and no other, the registry is valid, so no agent waits
-- beside a free slot, and no slot changed hands under one generation.
pub remove-Removed :
    (key : String) (r : Registry) → IsValid r → Returns (Removed key r) (remove key r)
unfolding remove
remove-Removed key r v =
    let (p, (run, left)) = leave_slot-Left key (slot_at key r) r v.places refl in
    let all = all_there p.records p (λ k a e. e) left.places.unique in
    let (q, (run', done)) = promote_all-Promoted p.records p left.places all left.places.unique in
    rw (run, run')
      (record {
        valid = record {
          places = done.places;
          waits = λ k known waiting.
              done.waits k (contains-keys k p.records ∙ sym (done.known k) ∙ known) waiting;
        };
        aged = Aged-trans r p q left.aged done.aged;
        known = λ k. done.known k ∙ ap (λ d. has k d) left.records ∙ has-erase key k r.records;
      })
