-- ===== src/Opendeck/Registry/Slots.antt =====
-- opendeck-broker/opendeck_broker/registry.py: which slot an instance gets, and that it keeps it.
use home_ailab.Prelude.{
  ℕ, ◌+◌, ◌<◌, ◌≡◌, inl, inr, String, Option, none, some, Result, arith, eq_iff, lookup-insert,
  lookup-insert_self, Returns, get_elem?-set, lt-length,
}
use home_ailab.Opendeck.Objects.{Ref}
use home_ailab.Opendeck.Registry.{Registry, note, register, slot_of}
use home_ailab.Opendeck.Registry.Placing.{
  IsPlaced, Registered, kept, fresh, full, IsFree, id_of, register-Registered,
}
use home_ailab.Opendeck.Registry.Validity.{IsValid}
use home_ailab.Opendeck.Registry.Calls.{
  Call, enrol, snapshot, beat, leave, exit, sweep, mark, write, apply,
}
use home_ailab.Opendeck.Registry.Rules.{Frees, steady_rule}
use home_ailab.Opendeck.Registry.Staying.{Sits, Stays, removes, freed, swept}

-- what is true of the slots before an instance with no slot is given `free`
abbrev pub IsLowest : Registry → Option ℕ → Type 0
IsLowest r none = (j : ℕ) → j < r.slots → ¬ IsFree r j
IsLowest r (some i) = (i < r.slots) × IsFree r i × ((j : ℕ) → j < i → ¬ IsFree r j)

Registered-IsLowest :
    {now : ℕ} {ref : Ref} {r : Registry} {res : Result (Registry × Option ℕ)}
    → IsPlaced r
    → Registered now ref r res
    → slot_of (id_of ref r) r ≡ none
    → Returns (λ p. IsLowest r p.1 × (slot_of (id_of ref r) p.0 ≡ p.1)) res
unfolding slot_of note
Registered-IsLowest w (kept s e) h = cc
Registered-IsLowest {ref = ref} {r = r} w (fresh i g new free low at) h = (
  (omega (arith, lt-length r.slot_occupant i free, w.occupants), free, low),
  rw lookup-insert_self,
)
Registered-IsLowest w (full new busy) h = (busy, rw lookup-insert_self)

-- An instance without a slot is given the lowest free one, and overflows exactly if all are taken;
-- the slot that `register` returns is the one that the registry then has for it.
pub register-IsLowest :
    (now : ℕ) (ref : Ref) (r : Registry)
    → IsValid r
    → slot_of (id_of ref r) r ≡ none
    → Returns (λ p. IsLowest r p.1 × (slot_of (id_of ref r) p.0 ≡ p.1)) (register now ref r)
register-IsLowest now ref r v = Registered-IsLowest v.places (register-Registered now ref v.places)

Registered-same :
    {now : ℕ} {ref : Ref} {r : Registry} {res : Result (Registry × Option ℕ)} (s : ℕ)
    → Registered now ref r res
    → slot_of (id_of ref r) r ≡ some s
    → Returns
        (λ p.
          (p.1 ≡ some s)
          × (p.0.slot_occupant ≡ r.slot_occupant)
          × (p.0.slot_generation ≡ r.slot_generation)
          × (p.0.instance_slot ≡ r.instance_slot))
        res
unfolding slot_of note
Registered-same s (kept s' e) h = ground arith
Registered-same s (fresh i g new free low at) h = ground arith
Registered-same s (full new busy) h = ground arith

-- Registering an instance that has a slot returns that slot, and changes no slot and no generation.
pub register_again :
    (now : ℕ) (ref : Ref) (r : Registry) (s : ℕ)
    → IsValid r
    → slot_of (id_of ref r) r ≡ some s
    → Returns
        (λ p.
          (p.1 ≡ some s)
          × (p.0.slot_occupant ≡ r.slot_occupant)
          × (p.0.slot_generation ≡ r.slot_generation)
          × (p.0.instance_slot ≡ r.instance_slot))
        (register now ref r)
register_again now ref r s v = Registered-same s (register-Registered now ref v.places)

module _ (iid : String) (s g : ℕ) where
  Registered-Sits :
      {now : ℕ} {ref : Ref} {r : Registry} {res : Result (Registry × Option ℕ)}
      → IsPlaced r
      → Registered now ref r res
      → Sits iid s g r
      → Returns (λ p. Sits iid s g p.0) res
  unfolding note
  Registered-Sits w (kept s' e) h = h
  Registered-Sits {ref = ref} {r = r} w (fresh i g' new free low at) h = (
    ground
        (arith, lookup-insert (id_of ref r) iid (some i) r.instance_slot, eq_iff (id_of ref r) iid),
    ground (arith, get_elem?-set r.slot_generation i s (g' + 1) at, w.placed iid s h.0),
  )
  Registered-Sits {ref = ref} {r = r} w (full new busy) h = (
    ground (arith, lookup-insert (id_of ref r) iid none r.instance_slot, eq_iff (id_of ref r) iid),
    h.1,
  )

  -- any call but those that take an instance away
  steady-Sits :
      (now : ℕ) (c : Call) (r : Registry)
      → ¬ Frees c
      → IsValid r
      → Sits iid s g r
      → Returns (Sits iid s g) (apply now c r)
  steady-Sits now c r steady v h =
      elim (steady_rule (Sits iid s g) (λ now ref r res v reg h. Registered-Sits v.places reg h)
        (λ r q o gens d h. rw (d, gens) h) now c r v h) [ inl f ↦ absurd (steady f) | inr x ↦ x ]

  -- Of an instance that sits in a slot of a valid registry: no call raises, the registry does not know
  -- the instance after a call that detaches it or says that its process ended, or after a sweep past
  -- its lease, and after every other call it sits in the same slot under the same generation.
  pub apply-Stays :
      (now : ℕ) (c : Call) (r : Registry)
      → IsValid r
      → Sits iid s g r
      → Returns (Stays (removes now iid c r) iid s g) (apply now c r)
  unfolding apply
  apply-Stays now (enrol ref) r v h = steady-Sits now (enrol ref) r (λ f. f) v h
  apply-Stays now (snapshot ref e n) r v h = steady-Sits now (snapshot ref e n) r (λ f. f) v h
  apply-Stays now (beat k) r v h = steady-Sits now (beat k) r (λ f. f) v h
  apply-Stays now (mark k b) r v h = steady-Sits now (mark k b) r (λ f. f) v h
  apply-Stays now (write ref f) r v h = steady-Sits now (write ref f) r (λ f. f) v h
  apply-Stays now (leave k) r v h = freed iid s g k r v h
  apply-Stays now (exit k) r v h = freed iid s g k r v h
  apply-Stays now (sweep lease at) r v h = swept iid s g now lease at r v h
