-- ===== src/Opendeck/Registry/Freeing.antt =====
-- opendeck-broker/opendeck_broker/registry.py: the operations that forget instances, and the trust
-- flag: each returns and keeps
-- the registry valid.
use home_ailab.Prelude.{
  ℕ, ◌≡◌, refl, ◌∙◌, String, Bool, Option, none, some, List, [], ◌∷◌, ok, has, lookup, erase, arith,
  eq_iff, eq_refl, inl, inr, lookup-erase, has-erase, store-set, Returns-bind, Option-cases,
  Bool-cases, keys,
}
use home_ailab.Opendeck.Objects.{Ref, Objects, update}
use home_ailab.Opendeck.Registry.{
  Registry, join, release, free_slot, expire, sweep_ids, sweep_expired, mark_untrusted, is_expired,
}
use home_ailab.Opendeck.Registry.Placing.{IsPlaced}
use home_ailab.Opendeck.Registry.Preserves.{Keeps}
use home_ailab.Opendeck.Registry.Validity.{IsValid, IsPlaced-released, cleared}

-- what `_free_slot` leaves
abbrev pub forgotten : String → Registry → Registry
forgotten iid r = record r {
  slot_occupant = cleared (join (lookup iid r.instance_slot)) r.slot_occupant;
  instance_slot = erase iid r.instance_slot;
  instances = erase iid r.instances;
  producer = erase iid r.producer;
  last_seen = erase iid r.last_seen;
}

release-cleared :
    (iid : String) (old : Option ℕ) {r : Registry}
    → IsPlaced r
    → join (lookup iid r.instance_slot) ≡ old
    → release iid old r.slot_occupant ≡ ok (cleared old r.slot_occupant)
unfolding release
release-cleared iid none w e = refl
release-cleared iid (some s) {r} w e =
    simp (w.placed iid s e, eq_refl) (store-set r.slot_occupant s none (w.placed iid s e))

pub free_slot-forgotten :
    (iid : String) (r : Registry)
    → IsPlaced r
    → free_slot iid r ≡ ok (forgotten iid r, has iid r.instances)
unfolding free_slot
free_slot-forgotten iid r w = rw (release-cleared iid (join (lookup iid r.instance_slot)) w refl)

pub forgotten-IsValid : (iid : String) (r : Registry) → IsValid r → IsValid (forgotten iid r)
forgotten-IsValid iid r v =
    let w = IsPlaced-released iid (join (lookup iid r.instance_slot)) v.places refl in
    record {
      places = record {
        occupants = w.occupants;
        generations = w.generations;
        held = w.held;
        placed = w.placed;
      };
      tracks = record {
        known = λ k.
            ground (
              arith,
              has-erase iid k r.instance_slot,
              has-erase iid k r.instances,
              v.tracks.known k,
            );
        produced = λ k.
            ground
              (arith, has-erase iid k r.producer, has-erase iid k r.instances, v.tracks.produced k);
        seen = λ k.
            ground
              (arith, has-erase iid k r.last_seen, has-erase iid k r.instances, v.tracks.seen k);
        named = λ k x e.
            ground (arith, lookup-erase iid k r.instances, eq_iff iid k, v.tracks.named k x);
      };
    }

pub free_slot-IsValid : (iid : String) (r : Registry) → IsValid r → Keeps (free_slot iid r)
free_slot-IsValid iid r v = rw (free_slot-forgotten iid r v.places) (forgotten-IsValid iid r v)

pub expire-IsValid :
    (lease now : ℕ) (iid : String) (r : Registry) → IsValid r → Keeps (expire lease now iid r)
unfolding expire
expire-IsValid lease now iid r v =
    elim (Bool-cases (is_expired lease now (lookup iid r.last_seen))) [
      | inl late ↦
          rw (late, expire)
            (Returns-bind _ _ (free_slot iid r) _ (free_slot-IsValid iid r v) (λ p h. h))
      | inr early ↦ rw (early, expire) v
    ]

pub sweep_ids-IsValid :
    (lease now : ℕ) (ids : List String) (r : Registry)
    → IsValid r
    → Keeps (sweep_ids lease now ids r)
unfolding sweep_ids
sweep_ids-IsValid lease now [] r v = v
sweep_ids-IsValid lease now (iid ∷ ids) r v =
    Returns-bind _ _ (expire lease now iid r) _ (expire-IsValid lease now iid r v) (λ p h.
      Returns-bind _ _ (sweep_ids lease now ids p.0) _ (sweep_ids-IsValid lease now ids p.0 h)
        (λ q k. k))

-- The lease sweep never raises and keeps the registry valid.
pub sweep_expired-IsValid :
    (clock lease : ℕ) (now : Option ℕ) (r : Registry)
    → IsValid r
    → Keeps (sweep_expired clock lease now r)
unfolding sweep_expired
sweep_expired-IsValid clock lease now r v = sweep_ids-IsValid lease _ (keys r.instances) r v

trusted_id :
    (ref x : Ref) (b : Bool) (o : Objects)
    → (update ref (λ i. record i { telemetry_trusted = b }) o x).instance_id ≡ (o x).instance_id
unfolding update
trusted_id ref x b o = ground arith

pub mark_untrusted-IsValid :
    (iid : String) (trusted : Bool) (r : Registry)
    → IsValid r
    → IsValid (mark_untrusted iid trusted r)
unfolding mark_untrusted
mark_untrusted-IsValid iid trusted r v = elim (Option-cases (lookup iid r.instances)) [
  | inl gone ↦ rw (gone, mark_untrusted) v
  | inr (ref, there) ↦
      rw (there, mark_untrusted)
        (record {
          places = record {
            occupants = v.places.occupants;
            generations = v.places.generations;
            held = v.places.held;
            placed = v.places.placed;
          };
          tracks = record {
            known = v.tracks.known;
            produced = v.tracks.produced;
            seen = v.tracks.seen;
            named = λ k x e. trusted_id ref x trusted r.objects ∙ v.tracks.named k x e;
          };
        })
]
