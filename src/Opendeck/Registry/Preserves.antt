-- ===== src/Opendeck/Registry/Preserves.antt =====
-- opendeck-broker/opendeck_broker/registry.py: every operation of the registry returns, and keeps
-- the registry valid.
use home_ailab.Prelude.{
  ℕ, ◌≡◌, refl, String, true, Option, none, some, Result, has, lookup, arith, eq_iff, str_eq,
  lookup-insert_self, inl, inr, has-insert, Returns, Returns-and, Returns-bind, Bool-cases,
  if◌then◌else◌,
}
use home_ailab.Opendeck.Objects.{Ref, update}
use home_ailab.Opendeck.Registry.{
  Registry, join, note, register, record_snapshot, accept_snapshot, accept_after, is_newer,
  heartbeat,
}
use home_ailab.Opendeck.Registry.Placing.{
  IsPlaced-note, Registered, kept, fresh, full, id_of, register-Registered,
}
use home_ailab.Opendeck.Registry.Validity.{
  IsValid, IsPlaced-occupied, IsPlaced-overflowed, written-IsTracked, noted-IsTracked,
}

-- the call returns a valid registry, whatever else it returns
abbrev pub Keeps {ℓ} : {A : Type ℓ} → Result (Registry × A) → Type 0
Keeps = Returns (λ p. IsValid p.0)

-- writing an entry that is there adds no key
has_again :
    (k iid : String) {s : ℕ} (r : Registry)
    → join (lookup iid r.instance_slot) ≡ some s
    → has k r.instance_slot ≡ (if str_eq iid k then true else has k r.instance_slot)
has_again k iid r e = ground (arith, eq_iff iid k)

Registered-Keeps :
    (now : ℕ) (ref : Ref) {r : Registry} {res : Result (Registry × Option ℕ)}
    → IsValid r
    → Registered now ref r res
    → Keeps res
unfolding note
Registered-Keeps now ref {r} v (kept s e) = record {
  places = IsPlaced-note now ref v.places;
  tracks = noted-IsTracked ref v.tracks now _ _ _ (λ k. has_again k (id_of ref r) r e);
}
Registered-Keeps now ref {r} v (fresh i g new free low at) = record {
  places = IsPlaced-occupied (id_of ref r) i g (IsPlaced-note now ref v.places) free new;
  tracks =
      noted-IsTracked ref v.tracks now _ _ _
        (λ k. has-insert (id_of ref r) k (some i) r.instance_slot);
}
Registered-Keeps now ref {r} v (full new none_free) = record {
  places = IsPlaced-overflowed (id_of ref r) (IsPlaced-note now ref v.places) new;
  tracks =
      noted-IsTracked ref v.tracks now _ _ _ (λ k. has-insert (id_of ref r) k none r.instance_slot);
}

-- `register` never raises and keeps the registry valid.
pub register-IsValid : (now : ℕ) (ref : Ref) (r : Registry) → IsValid r → Keeps (register now ref r)
register-IsValid now ref r v = Registered-Keeps now ref v (register-Registered now ref v.places)

-- the writes of an accepted snapshot of an instance that is known
record_snapshot-IsValid :
    (now : ℕ) (ref : Ref) (epoch : String) (seq : ℕ) {r : Registry}
    → IsValid r
    → has (id_of ref r) r.instance_slot ≡ true
    → IsValid (record_snapshot now ref epoch seq r)
unfolding record_snapshot
record_snapshot-IsValid now ref epoch seq {r} v old = record {
  places = record {
    occupants = v.places.occupants;
    generations = v.places.generations;
    held = v.places.held;
    placed = v.places.placed;
  };
  tracks =
      written-IsTracked ref v.tracks _ now (epoch, seq) refl refl refl
        (λ k. ground (arith, eq_iff (id_of ref r) k)) (λ x. refl);
}

-- after `register` the instance is known, under the id that it had
pub Registered-known :
    (now : ℕ) (ref : Ref) {r : Registry} {res : Result (Registry × Option ℕ)}
    → Registered now ref r res
    → Returns
        (λ p. (id_of ref p.0 ≡ id_of ref r) × (has (id_of ref r) p.0.instance_slot ≡ true))
        res
unfolding note update
Registered-known now ref {r} (kept s e) = (ground arith, ground arith)
Registered-known now ref {r} (fresh i g new free low at) = (ground arith, rw lookup-insert_self)
Registered-known now ref {r} (full new none_free) = (ground arith, rw lookup-insert_self)

accept_after-IsValid :
    (last : Option (String × ℕ)) (now : ℕ) (ref : Ref) (epoch : String) (seq : ℕ) (r : Registry)
    → lookup (id_of ref r) r.producer ≡ last
    → IsValid r
    → Keeps (accept_after last now ref epoch seq r)
unfolding accept_after
accept_after-IsValid none now ref epoch seq r e v =
    Returns-bind _ _ (register now ref r) _
      (Returns-and _ _ (register now ref r) (register-IsValid now ref r v)
        (Registered-known now ref (register-Registered now ref v.places)))
      (λ p h. record_snapshot-IsValid now ref epoch seq h.0 (rw h.1.0 h.1.1))
accept_after-IsValid (some last) now ref epoch seq r e v =
    let valid =
      record_snapshot-IsValid now ref epoch seq v
        (ground (arith, v.tracks.known (id_of ref r), v.tracks.produced (id_of ref r))) in
    elim (Bool-cases (is_newer epoch seq last)) [ inl new ↦ rw new valid | inr old ↦ rw old v ]

-- `accept_snapshot` never raises and keeps the registry valid.
pub accept_snapshot-IsValid :
    (now : ℕ) (ref : Ref) (epoch : Option String) (seq : Option ℕ) (r : Registry)
    → IsValid r
    → Keeps (accept_snapshot now ref epoch seq r)
unfolding accept_snapshot
accept_snapshot-IsValid now ref epoch seq r v =
    accept_after-IsValid (lookup (id_of ref r) r.producer) now ref _ _ r refl v

pub heartbeat-IsValid :
    (now : ℕ) (iid : String) (r : Registry) → IsValid r → IsValid (heartbeat now iid r).0
unfolding heartbeat
heartbeat-IsValid now iid r v = elim (Bool-cases (has iid r.instances)) [
  | inl there ↦
      rw (there, heartbeat)
        (record {
          places = record {
            occupants = v.places.occupants;
            generations = v.places.generations;
            held = v.places.held;
            placed = v.places.placed;
          };
          tracks = record {
            known = v.tracks.known;
            produced = v.tracks.produced;
            seen = λ k.
                ground (arith, has-insert iid k now r.last_seen, v.tracks.seen k, eq_iff iid k);
            named = v.tracks.named;
          };
        })
  | inr gone ↦ rw (gone, heartbeat) v
]
