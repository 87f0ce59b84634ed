-- ===== src/Opendeck/Registry/Rules.antt =====
-- opendeck-broker/opendeck_broker/registry.py: to show that calls keep a property of the slots, it is
-- enough to look at what `register` and `_free_slot` do.
use home_ailab.Prelude.{
  ℕ, ◌≡◌, refl, ◌⊎◌, inl, inr, String, Bool, Option, none, some, List, [], ◌∷◌, Result, has, lookup,
  Returns, Returns-bind, Returns-and, Option-cases, Bool-cases,
}
use home_ailab.Opendeck.Objects.{Ref}
use home_ailab.Opendeck.Registry.{
  Registry, register, record_snapshot, accept_snapshot, accept_after, is_newer, heartbeat,
  free_slot, expire, sweep_ids, sweep_expired, mark_untrusted, is_expired,
}
use home_ailab.Opendeck.Registry.Placing.{Registered, id_of, register-Registered}
use home_ailab.Opendeck.Registry.Validity.{IsValid}
use home_ailab.Opendeck.Registry.Freeing.{expire-IsValid}
use home_ailab.Opendeck.Registry.Calls.{
  Call, enrol, snapshot, beat, leave, exit, sweep, mark, write, apply, History, run, run_induction,
}

-- the calls that may make the registry forget an instance
abbrev pub Frees : Call → Type 0
Frees (leave k) = Unit
Frees (exit k) = Unit
Frees (sweep lease at) = Unit
Frees _ = ⊥

module _ (P : Registry → Type 0) where
  abbrev pub KeptByFree : Type 0
  KeptByFree = (k : String) (r : Registry) → IsValid r → P r → Returns (λ p. P p.0) (free_slot k r)

  abbrev pub KeptByRegister : Type 0
  KeptByRegister =
      (now : ℕ) (ref : Ref) (r : Registry) (res : Result (Registry × Option ℕ))
      → IsValid r
      → Registered now ref r res
      → P r
      → Returns (λ p. P p.0) res

  -- `P` speaks only of the slots
  abbrev pub OfSlots : Type 0
  OfSlots =
      (r q : Registry)
      → q.slot_occupant ≡ r.slot_occupant
      → q.slot_generation ≡ r.slot_generation
      → q.instance_slot ≡ r.instance_slot
      → P r
      → P q

  module _ (by_free : KeptByFree) where
    expire_rule :
        (lease now : ℕ) (k : String) (r : Registry)
        → IsValid r
        → P r
        → Returns (λ p. P p.0) (expire lease now k r)
    unfolding expire
    expire_rule lease now k r v h =
        elim (Bool-cases (is_expired lease now (lookup k r.last_seen))) [
          | inl late ↦
              rw (late, expire)
                (Returns-bind (λ p. P p.0) _ (free_slot k r) _ (by_free k r v h) (λ p x. x))
          | inr early ↦ rw (early, expire) h
        ]

    pub sweep_rule :
        (lease now : ℕ) (ids : List String) (r : Registry)
        → IsValid r
        → P r
        → Returns (λ p. P p.0) (sweep_ids lease now ids r)
    unfolding sweep_ids
    sweep_rule lease now [] r v h = h
    sweep_rule lease now (k ∷ ids) r v h =
        Returns-bind (λ p. IsValid p.0 × P p.0) _ (expire lease now k r) _
          (Returns-and (λ p. IsValid p.0) _ (expire lease now k r) (expire-IsValid lease now k r v)
            (expire_rule lease now k r v h))
          (λ p x.
            Returns-bind (λ q. P q.0) _ (sweep_ids lease now ids p.0) _
              (sweep_rule lease now ids p.0 x.0 x.1) (λ q y. y))

    pub free_rule :
        (now : ℕ) (c : Call) (r : Registry) → Frees c → IsValid r → P r → Returns P (apply now c r)
    unfolding apply sweep_expired
    free_rule now (leave k) r f v h =
        Returns-bind (λ p. P p.0) P (free_slot k r) _ (by_free k r v h) (λ p x. x)
    free_rule now (exit k) r f v h =
        Returns-bind (λ p. P p.0) P (free_slot k r) _ (by_free k r v h) (λ p x. x)
    free_rule now (sweep lease at) r f v h =
        Returns-bind (λ p. P p.0) P (sweep_expired now lease at r) _ (sweep_rule lease _ _ r v h)
          (λ p x. x)
    free_rule now (enrol ref) r f v h = absurd f
    free_rule now (snapshot ref e n) r f v h = absurd f
    free_rule now (beat k) r f v h = absurd f
    free_rule now (mark k b) r f v h = absurd f
    free_rule now (write ref x) r f v h = absurd f

  module _ (by_register : KeptByRegister) (of_slots : OfSlots) where
    accept_rule :
        (last : Option (String × ℕ)) (now : ℕ) (ref : Ref) (epoch : String) (seq : ℕ) (r : Registry)
        → IsValid r
        → P r
        → Returns (λ p. P p.0) (accept_after last now ref epoch seq r)
    unfolding accept_after record_snapshot
    accept_rule none now ref epoch seq r v h =
        Returns-bind (λ p. P p.0) (λ p. P p.0) (register now ref r) _
          (by_register now ref r _ v (register-Registered now ref v.places) h)
          (λ p x. of_slots p.0 _ refl refl refl x)
    accept_rule (some last) now ref epoch seq r v h = elim (Bool-cases (is_newer epoch seq last)) [
      | inl new ↦ rw new (of_slots r _ refl refl refl h)
      | inr old ↦ rw old h
    ]

    heartbeat_rule : (now : ℕ) (k : String) (r : Registry) → P r → P (heartbeat now k r).0
    unfolding heartbeat
    heartbeat_rule now k r h = elim (Bool-cases (has k r.instances)) [
      | inl there ↦ rw (there, heartbeat) (of_slots r _ refl refl refl h)
      | inr gone ↦ rw (gone, heartbeat) h
    ]

    mark_rule : (k : String) (b : Bool) (r : Registry) → P r → P (mark_untrusted k b r)
    unfolding mark_untrusted
    mark_rule k b r h = elim (Option-cases (lookup k r.instances)) [
      | inl gone ↦ rw (gone, mark_untrusted) h
      | inr (ref, there) ↦ rw (there, mark_untrusted) (of_slots r _ refl refl refl h)
    ]

    -- any other call keeps `P`
    pub steady_rule :
        (now : ℕ) (c : Call) (r : Registry) → IsValid r → P r → Frees c ⊎ Returns P (apply now c r)
    unfolding apply accept_snapshot
    steady_rule now (enrol ref) r v h = inr (
        Returns-bind (λ p. P p.0) P (register now ref r) _
          (by_register now ref r _ v (register-Registered now ref v.places) h) (λ p x. x))
    steady_rule now (snapshot ref e n) r v h = inr (
        Returns-bind (λ p. P p.0) P (accept_snapshot now ref e n r) _
          (accept_rule (lookup (id_of ref r) r.producer) now ref _ _ r v h) (λ p x. x))
    steady_rule now (beat k) r v h = inr (heartbeat_rule now k r h)
    steady_rule now (mark k b) r v h = inr (mark_rule k b r h)
    steady_rule now (write ref f) r v h = inr (of_slots r _ refl refl refl h)
    steady_rule now (leave k) r v h = inl tt
    steady_rule now (exit k) r v h = inl tt
    steady_rule now (sweep lease at) r v h = inl tt

  -- What `register` and `_free_slot` keep, every history keeps.
  pub run_rule :
      KeptByFree
      → KeptByRegister
      → OfSlots
      → (calls : History) (r : Registry) → IsValid r
      → P r
      → Returns (λ q. IsValid q × P q) (run calls r)
  run_rule by_free by_register of_slots = run_induction P (λ now c r v h.
      elim (steady_rule by_register of_slots now c r v h) [
        | inl f ↦ free_rule by_free now c r f v h
        | inr x ↦ x
      ])
