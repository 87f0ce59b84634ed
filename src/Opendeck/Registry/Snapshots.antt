-- ===== src/Opendeck/Registry/Snapshots.antt =====
-- opendeck-broker/opendeck_broker/registry.py: `accept_snapshot` and the order of a producer's
-- messages.
use home_ailab.Prelude.{
  ℕ, ◌<◌, ◌≤◌, ◌≡◌, ◌≢◌, refl, ◌⊎◌, inl, inr, String, true, false, Option, none, some, ok, lookup,
  arith, eq_iff, eq_refl, lookup-insert_self, Returns, Returns-bind, Bool-cases,
}
use home_ailab.Opendeck.Objects.{Ref}
use home_ailab.Opendeck.Registry.{
  Registry, register, record_snapshot, accept_snapshot, accept_after, is_newer,
}
use home_ailab.Opendeck.Registry.Placing.{id_of, register-Registered}
use home_ailab.Opendeck.Registry.Validity.{IsValid}
use home_ailab.Opendeck.Registry.Preserves.{Registered-known}

-- A message that is older than the last one of its producer, or as old, or of another epoch, is
-- rejected and leaves the registry as it was.
pub accept_stale :
    (now : ℕ) (ref : Ref) (epoch last_epoch : String) (seq last_seq : ℕ) (r : Registry)
    → lookup (id_of ref r) r.producer ≡ some (last_epoch, last_seq)
    → (epoch ≢ last_epoch) ⊎ (seq ≤ last_seq)
    → accept_snapshot now ref (some epoch) (some seq) r ≡ ok (r, false)
unfolding accept_snapshot accept_after
accept_stale now ref epoch last_epoch seq last_seq r e stale =
    rw e (ground (arith, eq_iff epoch last_epoch))

-- the message is the last one of its producer
abbrev pub IsLast : Ref → String → ℕ → Registry → Type 0
IsLast ref epoch seq r = lookup (id_of ref r) r.producer ≡ some (epoch, seq)

record_snapshot-IsLast :
    (now : ℕ) (ref : Ref) (epoch : String) (seq : ℕ) (r : Registry)
    → IsLast ref epoch seq (record_snapshot now ref epoch seq r)
unfolding record_snapshot
record_snapshot-IsLast now ref epoch seq r =
    lookup-insert_self (id_of ref r) (epoch, seq) r.producer

-- A newer message of the same epoch is accepted, becomes the last one of its producer, and touches
-- no slot and no generation.
pub accept_newer :
    (now : ℕ) (ref : Ref) (epoch : String) (seq last_seq : ℕ) (r : Registry)
    → lookup (id_of ref r) r.producer ≡ some (epoch, last_seq)
    → last_seq < seq
    → Returns
        (λ p.
          (p.1 ≡ true)
          × IsLast ref epoch seq p.0
          × (lookup (id_of ref r) p.0.instances ≡ some ref)
          × (p.0.slot_occupant ≡ r.slot_occupant)
          × (p.0.slot_generation ≡ r.slot_generation)
          × (p.0.instance_slot ≡ r.instance_slot))
        (accept_snapshot now ref (some epoch) (some seq) r)
unfolding accept_snapshot accept_after
accept_newer now ref epoch seq last_seq r e newer =
    let test : is_newer epoch seq (epoch, last_seq) ≡ true = ground (arith, eq_refl epoch) in
    rw e (
      rw test (
        refl,
        record_snapshot-IsLast now ref epoch seq r,
        (unfold record_snapshot in lookup-insert_self (id_of ref r) ref r.instances),
        (unfold record_snapshot in refl),
        (unfold record_snapshot in refl),
        (unfold record_snapshot in refl),
      ))

accept_after-IsLast :
    (last : Option (String × ℕ)) (now : ℕ) (ref : Ref) (epoch : String) (seq : ℕ) (r : Registry)
    → IsValid r
    → Returns (λ p. p.1 ≡ true → IsLast ref epoch seq p.0) (accept_after last now ref epoch seq r)
unfolding accept_after
accept_after-IsLast none now ref epoch seq r v =
    Returns-bind _ (λ p. p.1 ≡ true → IsLast ref epoch seq p.0) (register now ref r) _
      (Registered-known now ref (register-Registered now ref v.places))
      (λ p h t. record_snapshot-IsLast now ref epoch seq p.0)
accept_after-IsLast (some last) now ref epoch seq r v =
    elim (Bool-cases (is_newer epoch seq last)) [
      | inl new ↦ rw new (λ t. record_snapshot-IsLast now ref epoch seq r)
      | inr old ↦ rw old (λ t. cc)
    ]

-- Once a message is accepted, whether it registered the instance or not, a repetition of it and
-- every message that is not newer is rejected and changes nothing.
pub accept_once :
    (now later : ℕ) (ref : Ref) (epoch other : String) (seq n : ℕ) (r q : Registry)
    → IsValid r
    → accept_snapshot now ref (some epoch) (some seq) r ≡ ok (q, true)
    → (other ≢ epoch) ⊎ (n ≤ seq)
    → accept_snapshot later ref (some other) (some n) q ≡ ok (q, false)
accept_once now later ref epoch other seq n r q v ran stale =
    accept_stale later ref other epoch n seq q
      (last (
        unfold accept_snapshot in
        accept_after-IsLast (lookup (id_of ref r) r.producer) now ref epoch seq r v))
      stale
  where
    last :
        Returns
          (λ p. p.1 ≡ true → IsLast ref epoch seq p.0)
          (accept_snapshot now ref (some epoch) (some seq) r)
        → IsLast ref epoch seq q
    last h = (rw ran at h) refl
