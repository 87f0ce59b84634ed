-- ===== src/Deck/Registry/Leaving.antt =====
-- opencode-deck/opencode-deck/ocdeck/model.py, class Registry: the loop that gives free slots to the
-- agents that wait.
use home_ailab.Prelude.{
  ℕ, ◌+◌, ◌≡◌, ◌≢◌, refl, ◌∙◌, ap, sym, inl, inr, String, true, false, Option, none, some, [], ◌∷◌,
  ok, Dict, lookup, insert, has, keys, get_elem?, get_elem?-set, length-set, arith, eq_iff, str_eq,
  lookup-insert, lookup-insert_self, lookup-insert_ne, has-insert, insert-IsUnique, IsUnique,
  contains, Bool-cases,
}
use home_ailab.Deck.Agents.{Agent, Registry}
use home_ailab.Deck.Registry.{first_free}
use home_ailab.Deck.Registry.Removing.{slot_of, promote, promote_to, promote_all}
use home_ailab.Deck.Registry.Placing.{
  slot_at, IsPlaced, IsFull, Aged, Aged-refl, Aged-trans, Found, first_free-Found, taken,
  take_slot-taken, taken-Aged,
}

-- what a round of the loop for an agent leaves
record Round (key : String) (r q : Registry) : Type 0 where
  places : IsPlaced q
  aged : Aged r q
  full : IsFull r → IsFull q
  others : (k : String) → key ≢ k → lookup k q.records ≡ lookup k r.records
  own : slot_at key q ≡ none → IsFull q
  known : (k : String) → has k q.records ≡ has k r.records

-- the agent of a key gets a free slot
abbrev promoted : String → Agent → ℕ → ℕ → Registry → Registry
promoted key a i g r =
    let q = taken key i g r in
    record q { records = insert key (record a { slot = some i }) q.records }

promoted-IsPlaced :
    (key : String) (a : Agent) (i g : ℕ) (r : Registry)
    → IsPlaced r
    → lookup key r.records ≡ some a
    → a.slot ≡ none
    → get_elem? r.slots i ≡ some none
    → IsPlaced (promoted key a i g r)
promoted-IsPlaced key a i g r w at waits free = record {
  slots = length-set r.slots i (some key) ∙ w.slots;
  generations = length-set r.generations i (g + 1) ∙ w.generations;
  unique = insert-IsUnique key _ r.records w.unique;
  named = λ k c e. ground (
    arith,
    lookup-insert key k (record a { slot = some i }) r.records,
    eq_iff key k,
    e,
    w.named k c,
    w.named key a at,
  );
  held = λ j k e. ground (
    arith,
    get_elem?-set r.slots i j (some key) free,
    lookup-insert key k (record a { slot = some i }) r.records,
    eq_iff key k,
    w.held j k,
    at,
    waits,
    e,
  );
  placed = λ k j e. ground (
    arith,
    get_elem?-set r.slots i j (some key) free,
    lookup-insert key k (record a { slot = some i }) r.records,
    eq_iff key k,
    w.placed k j,
    at,
    waits,
    e,
  );
}

promoted-Round :
    (key : String) (a : Agent) (i g : ℕ) (r : Registry)
    → IsPlaced r
    → lookup key r.records ≡ some a
    → a.slot ≡ none
    → get_elem? r.slots i ≡ some none
    → get_elem? r.generations i ≡ some g
    → Round key r (promoted key a i g r)
promoted-Round key a i g r w at waits free gen = record {
  places = promoted-IsPlaced key a i g r w at waits free;
  aged = taken-Aged key i g r free gen;
  full = λ full. absurd (full i free);
  others = λ k other. lookup-insert_ne key k _ r.records other;
  own = λ e. ground (arith, lookup-insert_self key (record a { slot = some i }) r.records, e);
  known = λ k.
      ground (arith, has-insert key k (record a { slot = some i }) r.records, eq_iff key k, at);
}

still-Round :
    (key : String) (r : Registry) → IsPlaced r → (slot_at key r ≡ none → IsFull r) → Round key r r
still-Round key r w own = record {
  places = w;
  aged = Aged-refl r;
  full = λ f. f;
  others = λ k other. refl;
  own = own;
  known = λ k. refl;
}

promote_to-Round :
    (key : String) (a : Agent) (o : Option ℕ) (r : Registry)
    → IsPlaced r
    → lookup key r.records ≡ some a
    → a.slot ≡ none
    → Found r.slots 0 o
    → (q : Registry) × ((promote_to key a o r ≡ ok q) × Round key r q)
unfolding promote_to
promote_to-Round key a none r w at waits full = (r, (refl, still-Round key r w (λ e. full)))
promote_to-Round key a (some i) r w at waits (j, (here, free)) =
    let free' : get_elem? r.slots i ≡ some none = ground arith in
    let (g, (gen, run)) = take_slot-taken key i r w free' in
    (
      promoted key a i g r,
      (rw (w.named key a at, run) refl, promoted-Round key a i g r w at waits free' gen),
    )

promote-Round :
    (key : String) (a : Agent) (o : Option ℕ) (r : Registry)
    → IsPlaced r
    → lookup key r.records ≡ some a
    → a.slot ≡ o
    → (q : Registry) × ((promote key a o r ≡ ok q) × Round key r q)
unfolding promote
promote-Round key a none r w at slot =
    promote_to-Round key a (first_free 0 r.slots) r w at slot (first_free-Found 0 r.slots)
promote-Round key a (some i) r w at slot =
    (r, (refl, still-Round key r w (λ e. ground (arith, at, slot, e))))

-- every entry of the list is one of the records
abbrev pub AllThere : Dict Agent → Registry → Type 0
AllThere [] r = Unit
AllThere ((k, a) ∷ agents) r = (lookup k r.records ≡ some a) × AllThere agents r

AllThere-later :
    (agents : Dict Agent) (key : String) (r q : Registry)
    → Round key r q
    → contains key (keys agents) ≡ false
    → AllThere agents r
    → AllThere agents q
unfolding contains keys
AllThere-later [] key r q round away all = tt
AllThere-later ((k, a) ∷ agents) key r q round away all =
    let other : key ≢ k = ground (arith, eq_iff k key) in
    let rest : contains key (keys agents) ≡ false = ground arith in
    (round.others k other ∙ all.0, AllThere-later agents key r q round rest all.1)

-- what the loop leaves
pub record Promoted (agents : Dict Agent) (r q : Registry) : Type 0 where
  pub places : IsPlaced q
  pub aged : Aged r q
  pub full : IsFull r → IsFull q
  pub others :
      (k : String) → contains k (keys agents) ≡ false → lookup k q.records ≡ lookup k r.records
  pub waits : (k : String) → contains k (keys agents) ≡ true → slot_at k q ≡ none → IsFull q
  pub known : (k : String) → has k q.records ≡ has k r.records

pub promote_all-Promoted :
    (agents : Dict Agent) (r : Registry)
    → IsPlaced r
    → AllThere agents r
    → IsUnique (keys agents)
    → (q : Registry) × ((promote_all agents r ≡ ok q) × Promoted agents r q)
unfolding promote_all contains keys
promote_all-Promoted [] r w all u = (
  r,
  (
    refl,
    record {
      places = w;
      aged = Aged-refl r;
      full = λ f. f;
      others = λ k away. refl;
      waits = λ k among e. cc;
      known = λ k. refl;
    },
  ),
)
promote_all-Promoted ((key, a) ∷ agents) r w all u =
    let (p, (run, round)) = promote-Round key a a.slot r w all.0 refl in
    let (q, (run', done)) =
      promote_all-Promoted agents p round.places (AllThere-later agents key r p round u.0 all.1)
        u.1 in
    (
      q,
      (
        rw run run',
        record {
          places = done.places;
          aged = Aged-trans r p q round.aged done.aged;
          full = λ f. done.full (round.full f);
          others = λ k away.
              done.others k (ground arith) ∙ round.others k (ground (arith, eq_iff key k));
          waits = λ k among e. elim (Bool-cases (str_eq key k)) [
            | inl own ↦
                let same : key ≡ k = (eq_iff key k).0 own in
                done.full (
                  round.own
                    (ap slot_of (sym (done.others key u.0)) ∙ ap (λ x. slot_at x q) same ∙ e))
            | inr other ↦ done.waits k (ground (arith, among, other)) e
          ];
          known = λ k. done.known k ∙ round.known k;
        },
      ),
    )
