-- ===== src/Opendeck/Registry/Accepting.antt =====
-- opendeck-broker/opendeck_broker/registry.py: what an accepted snapshot leaves in the dictionaries
-- and in the objects, whether it registers the instance or not.
use home_ailab.Prelude.{
  ℕ, ◌<◌, ◌≡◌, ◌≢◌, refl, sym, ap, ◌∙◌, inl, inr, String, true, Option, none, some, Result, lookup,
  arith, eq_iff, lookup-insert_self, lookup-insert_ne, Returns, Returns-bind, Bool-cases, ◌==◌,
}
use home_ailab.Opendeck.Model.{Instance}
use home_ailab.Opendeck.Objects.{Ref, update}
use home_ailab.Opendeck.Registry.{
  Registry, note, register, record_snapshot, accept_snapshot, accept_after, is_newer,
}
use home_ailab.Opendeck.Registry.Placing.{Registered, kept, fresh, full, id_of, register-Registered}
use home_ailab.Opendeck.Registry.Validity.{IsValid}

-- an entry of each dictionary is the other registry's
pub record Agree (k : String) (r q : Registry) : Type 0 where
  pub instances : lookup k q.instances ≡ lookup k r.instances
  pub producer : lookup k q.producer ≡ lookup k r.producer
  pub last_seen : lookup k q.last_seen ≡ lookup k r.last_seen

-- what a call on the instance at `ref` leaves: its entries, the others' entries, the objects
pub record Wrote (now : ℕ) (ref : Ref) (epoch : String) (seq : ℕ) (r q : Registry) : Type 0 where
  pub entry : lookup (id_of ref r) q.instances ≡ some ref
  pub last : lookup (id_of ref r) q.producer ≡ some (epoch, seq)
  pub seen : lookup (id_of ref r) q.last_seen ≡ some now
  pub others : (k : String) → id_of ref r ≢ k → Agree k r q
  pub objects : (x : Ref) → q.objects x ≡ r.objects x

live_again : (i : Instance) → i.live ≡ true → record i { live = true } ≡ i
live_again i h = ap (λ b. record i { live = b }) (sym h)

note_objects :
    (now : ℕ) (ref : Ref) (r : Registry)
    → (r.objects ref).live ≡ true
    → (x : Ref) → (note now ref r).objects x ≡ r.objects x
unfolding note update
note_objects now ref r h x = elim (Bool-cases (ref == x)) [
  | inl same ↦
      let here : ref ≡ x = ground arith in
      rw same (live_again (r.objects ref) h ∙ ap r.objects here)
  | inr other ↦ rw other refl
]

record_snapshot-Wrote :
    (now : ℕ) (ref : Ref) (epoch : String) (seq : ℕ) (r q : Registry)
    → ((k : String) → id_of ref r ≢ k → Agree k r q)
    → ((x : Ref) → q.objects x ≡ r.objects x)
    → Wrote now ref epoch seq r (record_snapshot now ref epoch seq q)
unfolding record_snapshot
record_snapshot-Wrote now ref epoch seq r q others objects =
    let same : id_of ref r ≡ id_of ref q = ap (λ i. i.instance_id) (sym (objects ref)) in
    record {
      entry = rw same (lookup-insert_self (id_of ref q) ref q.instances);
      last = rw same (lookup-insert_self (id_of ref q) (epoch, seq) q.producer);
      seen = rw same (lookup-insert_self (id_of ref q) now q.last_seen);
      others = λ k other.
          let away : id_of ref q ≢ k = λ e. other (same ∙ e) in
          record {
            instances =
                lookup-insert_ne (id_of ref q) k ref q.instances away ∙ (others k other).instances;
            producer =
                lookup-insert_ne (id_of ref q) k (epoch, seq) q.producer away
                ∙ (others k other).producer;
            last_seen =
                lookup-insert_ne (id_of ref q) k now q.last_seen away ∙ (others k other).last_seen;
          };
      objects = objects;
    }

pub Agree-refl : (k : String) (r : Registry) → Agree k r r
Agree-refl k r = record { instances = refl; producer = refl; last_seen = refl }

pub Agree-trans : {k : String} {r q s : Registry} → Agree k r q → Agree k q s → Agree k r s
Agree-trans f g = record {
  instances = g.instances ∙ f.instances;
  producer = g.producer ∙ f.producer;
  last_seen = g.last_seen ∙ f.last_seen;
}

note-Agree :
    (now : ℕ) (ref : Ref) (r : Registry) (k : String) → id_of ref r ≢ k → Agree k r (note now ref r)
unfolding note
note-Agree now ref r k away = record {
  instances = lookup-insert_ne (id_of ref r) k ref r.instances away;
  producer = lookup-insert_ne (id_of ref r) k _ r.producer away;
  last_seen = lookup-insert_ne (id_of ref r) k now r.last_seen away;
}

-- what `register` leaves of the other instances, and of the objects if the instance is live
abbrev Apart : ℕ → Ref → Registry → Registry → Type 0
Apart now ref r q =
    ((k : String) → id_of ref r ≢ k → Agree k r q) × ((x : Ref) → q.objects x ≡ r.objects x)

Registered-Apart :
    (now : ℕ) (ref : Ref) {r : Registry} {res : Result (Registry × Option ℕ)}
    → (r.objects ref).live ≡ true
    → Registered now ref r res
    → Returns (λ p. Apart now ref r p.0) res
unfolding note
Registered-Apart now ref {r} h (kept s e) = (note-Agree now ref r, note_objects now ref r h)
Registered-Apart now ref {r} h (fresh i g new free low at) = (
  λ k away. record {
    instances = (note-Agree now ref r k away).instances;
    producer = (note-Agree now ref r k away).producer;
    last_seen = (note-Agree now ref r k away).last_seen;
  },
  note_objects now ref r h,
)
Registered-Apart now ref {r} h (full new none_free) = (
  λ k away. record {
    instances = (note-Agree now ref r k away).instances;
    producer = (note-Agree now ref r k away).producer;
    last_seen = (note-Agree now ref r k away).last_seen;
  },
  note_objects now ref r h,
)

-- the producer's last message, if any, is of the same epoch and older
abbrev pub IsBehind : String → ℕ → Option (String × ℕ) → Type 0
IsBehind epoch seq none = Unit
IsBehind epoch seq (some last) = (last.0 ≡ epoch) × (last.1 < seq)

accept_after-Wrote :
    (last : Option (String × ℕ)) (now : ℕ) (ref : Ref) (epoch : String) (seq : ℕ) (r : Registry)
    → IsValid r
    → (r.objects ref).live ≡ true
    → IsBehind epoch seq last
    → Returns
        (λ p. (p.1 ≡ true) × Wrote now ref epoch seq r p.0)
        (accept_after last now ref epoch seq r)
unfolding accept_after
accept_after-Wrote none now ref epoch seq r v h b =
    Returns-bind (λ p. Apart now ref r p.0) _ (register now ref r) _
      (Registered-Apart now ref h (register-Registered now ref v.places))
      (λ p apart. (refl, record_snapshot-Wrote now ref epoch seq r p.0 apart.0 apart.1))
accept_after-Wrote (some last) now ref epoch seq r v h b =
    let test : is_newer epoch seq last ≡ true = ground (arith, eq_iff epoch last.0) in
    rw test
      (refl, record_snapshot-Wrote now ref epoch seq r r (λ k away. Agree-refl k r) (λ x. refl))

-- A snapshot of a live object that is newer than the producer's last message, if it has one, is
-- accepted: the instance's entries are those of the message, all others are as before.
pub accept_snapshot-Wrote :
    (now : ℕ) (ref : Ref) (epoch : String) (seq : ℕ) (r : Registry)
    → IsValid r
    → (r.objects ref).live ≡ true
    → IsBehind epoch seq (lookup (id_of ref r) r.producer)
    → Returns
        (λ p. (p.1 ≡ true) × Wrote now ref epoch seq r p.0)
        (accept_snapshot now ref (some epoch) (some seq) r)
unfolding accept_snapshot
accept_snapshot-Wrote now ref epoch seq r =
    accept_after-Wrote (lookup (id_of ref r) r.producer) now ref epoch seq r

Registered-Wrote :
    (now : ℕ) (ref : Ref) {r : Registry} {res : Result (Registry × Option ℕ)}
    → (r.objects ref).live ≡ true
    → Registered now ref r res
    → Returns (λ p. Wrote now ref (r.objects ref).producer_epoch (r.objects ref).sequence r p.0) res
unfolding note
Registered-Wrote now ref {r} h (kept s e) = record {
  entry = lookup-insert_self (id_of ref r) ref r.instances;
  last = lookup-insert_self (id_of ref r) _ r.producer;
  seen = lookup-insert_self (id_of ref r) now r.last_seen;
  others = (Registered-Apart now ref h (kept s e)).0;
  objects = note_objects now ref r h;
}
Registered-Wrote now ref {r} h (fresh i g new free low at) = record {
  entry = lookup-insert_self (id_of ref r) ref r.instances;
  last = lookup-insert_self (id_of ref r) _ r.producer;
  seen = lookup-insert_self (id_of ref r) now r.last_seen;
  others = (Registered-Apart now ref h (fresh i g new free low at)).0;
  objects = note_objects now ref r h;
}
Registered-Wrote now ref {r} h (full new none_free) = record {
  entry = lookup-insert_self (id_of ref r) ref r.instances;
  last = lookup-insert_self (id_of ref r) _ r.producer;
  seen = lookup-insert_self (id_of ref r) now r.last_seen;
  others = (Registered-Apart now ref h (full new none_free)).0;
  objects = note_objects now ref r h;
}

-- Registering a live object writes its entries and leaves all others.
pub register-Wrote :
    (now : ℕ) (ref : Ref) (r : Registry)
    → IsValid r
    → (r.objects ref).live ≡ true
    → Returns
        (λ p. Wrote now ref (r.objects ref).producer_epoch (r.objects ref).sequence r p.0)
        (register now ref r)
register-Wrote now ref r v h = Registered-Wrote now ref h (register-Registered now ref v.places)
