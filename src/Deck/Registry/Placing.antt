-- ===== src/Deck/Registry/Placing.antt =====
-- opencode-deck/opencode-deck/ocdeck/model.py, class Registry: the invariant of the slots, and how the
-- generations tell that a slot changed hands.
use home_ailab.Prelude.{
  ℕ, zero, suc, ◌+◌, ◌≤◌, ◌≡◌, ◌≢◌, refl, ◌∙◌, String, true, Option, none, some, List, [], ◌∷◌, ok,
  lookup, has, keys, length, get_elem?, set, get_elem?-set, get_elem?-some, lt-length, arith,
  IsUnique, replicate,
}
use home_ailab.Deck.Agents.{Agent, Registry, slot_count, new_registry}
use home_ailab.Deck.Registry.{first_free, take_slot}
use home_ailab.Deck.Registry.Removing.{slot_of}

-- the slot that the agent of a key has
abbrev pub slot_at : String → Registry → Option ℕ
slot_at k r = slot_of (lookup k r.records)

-- The slots and the agents' slots are inverse to each other.
pub record IsPlaced (r : Registry) : Type 0 where
  pub slots : length r.slots ≡ slot_count
  pub generations : length r.generations ≡ slot_count
  pub unique : IsUnique (keys r.records)
  pub named : (k : String) (a : Agent) → lookup k r.records ≡ some a → a.id ≡ k
  pub held : (i : ℕ) (k : String) → get_elem? r.slots i ≡ some (some k) → slot_at k r ≡ some i
  pub placed : (k : String) (i : ℕ) → slot_at k r ≡ some i → get_elem? r.slots i ≡ some (some k)

-- No slot is free.
abbrev pub IsFull : Registry → Type 0
IsFull r = (i : ℕ) → get_elem? r.slots i ≢ some none

-- An agent waits only while all slots are taken.
abbrev pub NoneWaits : Registry → Type 0
NoneWaits r = (k : String) → has k r.records ≡ true → slot_at k r ≡ none → IsFull r

pub record IsValid (r : Registry) : Type 0 where
  pub places : IsPlaced r
  pub waits : NoneWaits r

abbrev pub or_zero : Option ℕ → ℕ
or_zero none = 0
or_zero (some n) = n

abbrev pub generation_at : ℕ → Registry → ℕ
generation_at i r = or_zero (get_elem? r.generations i)

-- A slot whose generation is the same has the same occupant, and no generation goes back.
abbrev pub Aged : Registry → Registry → Type 0
Aged r q =
    (i : ℕ)
    → (generation_at i r ≤ generation_at i q)
      × (generation_at i r ≡ generation_at i q → get_elem? q.slots i ≡ get_elem? r.slots i)

pub Aged-refl : (r : Registry) → Aged r r
Aged-refl r i = (omega arith, λ e. refl)

pub Aged-trans : (r q s : Registry) → Aged r q → Aged q s → Aged r s
Aged-trans r q s f g i = (
  omega (arith, (f i).0, (g i).0),
  λ e. (g i).1 (omega (arith, e, (f i).0, (g i).0)) ∙ (f i).1 (omega (arith, e, (f i).0, (g i).0)),
)

-- what the search for a free slot finds
abbrev pub Found : List (Option String) → ℕ → Option ℕ → Type 0
Found slots n none = (i : ℕ) → get_elem? slots i ≢ some none
Found slots n (some k) = (i : ℕ) × ((k ≡ n + i) × (get_elem? slots i ≡ some none))

not_first :
    (k : String) (slots : List (Option String))
    → ((i : ℕ) → get_elem? slots i ≢ some none)
    → (i : ℕ) → get_elem? (some k ∷ slots) i ≢ some none
not_first k slots f zero e = cc
not_first k slots f (suc i) e = f i e

pub first_free-Found : (n : ℕ) (slots : List (Option String)) → Found slots n (first_free n slots)
unfolding first_free
first_free-Found n [] = λ i e. cc
first_free-Found n (none ∷ slots) = (0, (omega arith, refl))
first_free-Found n (some k ∷ slots) =
    later (first_free (n + 1) slots) (first_free-Found (n + 1) slots)
  where
    later : (o : Option ℕ) → Found slots (n + 1) o → Found (some k ∷ slots) n o
    later none f = not_first k slots f
    later (some j) (i, (at, free)) = (suc i, (omega (arith, at), free))

-- what taking a free slot leaves
abbrev pub taken : String → ℕ → ℕ → Registry → Registry
taken key i g r = record r {
  generations = set r.generations i (g + 1);
  slots = set r.slots i (some key);
}

pub take_slot-taken :
    (key : String) (i : ℕ) (r : Registry)
    → IsPlaced r
    → get_elem? r.slots i ≡ some none
    → (g : ℕ) × ((get_elem? r.generations i ≡ some g) × (take_slot key i r ≡ ok (taken key i g r)))
unfolding take_slot
take_slot-taken key i r w free =
    let bound = lt-length r.slots i free in
    let (g, at) = get_elem?-some r.generations i (omega (arith, w.slots, w.generations, bound)) in
    (g, (at, ground arith))

pub taken-Aged :
    (key : String) (i g : ℕ) (r : Registry)
    → get_elem? r.slots i ≡ some none
    → get_elem? r.generations i ≡ some g
    → Aged r (taken key i g r)
taken-Aged key i g r free at j = (
  ground (arith, get_elem?-set r.generations i j (g + 1) at),
  λ e. ground (
    arith,
    get_elem?-set r.generations i j (g + 1) at,
    get_elem?-set r.slots i j (some key) free,
    e,
  ),
)

-- A new registry is valid.
none_free :
    (n i : ℕ) (k : String) → get_elem? (replicate {A = Option String} n none) i ≢ some (some k)
none_free zero i k e = cc
none_free (suc n) zero k e = cc
none_free (suc n) (suc i) k e = none_free n i k e

pub new_registry-IsValid : IsValid new_registry
unfolding new_registry lookup keys
new_registry-IsValid = record {
  places = record {
    slots = refl;
    generations = refl;
    unique = tt;
    named = λ k a e. cc;
    held = λ i k e. absurd (none_free slot_count i k e);
    placed = λ k i e. cc;
  };
  waits = λ k known none. cc;
}
