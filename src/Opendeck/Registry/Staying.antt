-- ===== src/Opendeck/Registry/Staying.antt =====
-- opendeck-broker/opendeck_broker/registry.py: `_free_slot` and the lease sweep, which take instances
-- from their slots.
use home_ailab.Prelude.{
  ℕ, ◌≡◌, refl, sym, ap, ◌∙◌, ◌⊎◌, inl, inr, String, Bool, true, false, Dict, Option, some, List,
  [], ◌∷◌, ok, ◌>>=◌, has, lookup, keys, contains, contains-keys, get_elem?, arith, eq_iff, str_eq,
  lookup-erase, has-erase, Returns, Returns-bind, Bool-cases,
}
use home_ailab.Opendeck.Registry.{
  Registry, join, or_else, free_slot, is_expired, expire, sweep_ids, sweep_expired,
}
use home_ailab.Opendeck.Registry.Validity.{IsValid}
use home_ailab.Opendeck.Registry.Freeing.{forgotten, free_slot-forgotten, forgotten-IsValid}
use home_ailab.Opendeck.Registry.Calls.{Call, leave, exit, sweep}

-- The instance has the slot, whose generation is `g`.
abbrev pub Sits : String → ℕ → ℕ → Registry → Type 0
Sits iid s g r =
    (join (lookup iid r.instance_slot) ≡ some s) × (get_elem? r.slot_generation s ≡ some g)

-- The registry knows the instance no more if it was removed, and else it still has its slot.
abbrev pub Stays : Bool → String → ℕ → ℕ → Registry → Type 0
Stays true iid s g r = has iid r.instances ≡ false
Stays false iid s g r = Sits iid s g r

-- the call says that the instance is gone, or is a sweep past its lease
abbrev pub removes : ℕ → String → Call → Registry → Bool
removes now iid (leave k) r = str_eq k iid
removes now iid (exit k) r = str_eq k iid
removes now iid (sweep lease at) r = is_expired lease (or_else at now) (lookup iid r.last_seen)
removes now iid _ r = false

module _ (iid : String) (s g : ℕ) where
  forgotten-Sits :
      (k : String) (r : Registry)
      → str_eq k iid ≡ false
      → Sits iid s g r
      → Sits iid s g (forgotten k r)
  forgotten-Sits k r other h = (rw (lookup-erase, other) h.0, h.1)

  forgotten-Stays :
      (k : String) (r : Registry) (b : Bool)
      → str_eq k iid ≡ b
      → Sits iid s g r
      → Stays b iid s g (forgotten k r)
  forgotten-Stays k r true own h = has-erase k iid r.instances ∙ rw own refl
  forgotten-Stays k r false other h = forgotten-Sits k r other h

  pub freed :
      (k : String) (r : Registry)
      → IsValid r
      → Sits iid s g r
      → Returns (Stays (str_eq k iid) iid s g) (free_slot k r >>= λ p. ok p.0)
  freed k r v h = rw (free_slot-forgotten k r v.places) (forgotten-Stays k r (str_eq k iid) refl h)

  module _ (lease now : ℕ) where
    -- the sweep is past the lease of the instance
    abbrev is_late : Registry → Bool
    is_late r = is_expired lease now (lookup iid r.last_seen)

    other_key :
        (k : String) (r : Registry)
        → is_late r ≡ false
        → is_expired lease now (lookup k r.last_seen) ≡ true
        → str_eq k iid ≡ false
    other_key k r early late = elim (Bool-cases (str_eq k iid)) [
      | inl same ↦
          let e = (eq_iff k iid).0 same in
          absurd (cc (ap (λ j. is_expired lease now (lookup j r.last_seen)) e))
      | inr other ↦ other
    ]

    forgotten-is_late :
        (k : String) (r : Registry) → str_eq k iid ≡ false → is_late (forgotten k r) ≡ is_late r
    forgotten-is_late k r other = rw (lookup-erase, other) refl

    expire_other :
        (k : String) (r : Registry)
        → IsValid r
        → is_late r ≡ false
        → Sits iid s g r
        → Returns
            (λ p. IsValid p.0 × (is_late p.0 ≡ false) × Sits iid s g p.0)
            (expire lease now k r)
    unfolding expire
    expire_other k r v early h = elim (Bool-cases (is_expired lease now (lookup k r.last_seen))) [
      | inl late ↦
          let other = other_key k r early late in
          rw (late, expire)
            (rw (free_slot-forgotten k r v.places) (
              forgotten-IsValid k r v,
              forgotten-is_late k r other ∙ early,
              forgotten-Sits k r other h,
            ))
      | inr kept ↦ rw (kept, expire) (v, early, h)
    ]

    sweep_ids-Sits :
        (ids : List String) (r : Registry)
        → IsValid r
        → is_late r ≡ false
        → Sits iid s g r
        → Returns (λ p. Sits iid s g p.0) (sweep_ids lease now ids r)
    unfolding sweep_ids
    sweep_ids-Sits [] r v early h = h
    sweep_ids-Sits (k ∷ ids) r v early h =
        Returns-bind _ (λ p. Sits iid s g p.0) (expire lease now k r) _ (expire_other k r v early h)
          (λ p x.
            Returns-bind (λ q. Sits iid s g q.0) _ (sweep_ids lease now ids p.0) _
              (sweep_ids-Sits ids p.0 x.0 x.1 x.2) (λ q y. y))

    -- the sweep has removed the instance, or will come to it past its lease
    abbrev Falls : List String → Registry → Type 0
    Falls ids r = (has iid r.instances ≡ false) ⊎ ((is_late r ≡ true) × (contains iid ids ≡ true))

    forgotten-Falls :
        (k : String) (ids : List String) (r : Registry)
        → Falls (k ∷ ids) r
        → Falls ids (forgotten k r)
    unfolding contains
    forgotten-Falls k ids r (inl gone) = inl (ground (arith, has-erase k iid r.instances, gone))
    forgotten-Falls k ids r (inr (late, waiting)) = elim (Bool-cases (str_eq k iid)) [
      | inl same ↦ inl (has-erase k iid r.instances ∙ rw same refl)
      | inr other ↦ inr (forgotten-is_late k r other ∙ late, ground arith)
    ]

    kept-Falls :
        (k : String) (ids : List String) (r : Registry)
        → is_expired lease now (lookup k r.last_seen) ≡ false
        → Falls (k ∷ ids) r
        → Falls ids r
    unfolding contains
    kept-Falls k ids r early (inl gone) = inl gone
    kept-Falls k ids r early (inr (late, waiting)) = elim (Bool-cases (str_eq k iid)) [
      | inl same ↦
          let e = (eq_iff k iid).0 same in
          absurd (cc (ap (λ j. is_expired lease now (lookup j r.last_seen)) e))
      | inr other ↦ inr (late, ground arith)
    ]

    expire-Falls :
        (k : String) (ids : List String) (r : Registry)
        → IsValid r
        → Falls (k ∷ ids) r
        → Returns (λ p. IsValid p.0 × Falls ids p.0) (expire lease now k r)
    unfolding expire
    expire-Falls k ids r v h = elim (Bool-cases (is_expired lease now (lookup k r.last_seen))) [
      | inl late ↦
          rw (late, expire)
            (rw (free_slot-forgotten k r v.places)
              (forgotten-IsValid k r v, forgotten-Falls k ids r h))
      | inr early ↦ rw (early, expire) (v, kept-Falls k ids r early h)
    ]

    sweep_ids-gone :
        (ids : List String) (r : Registry)
        → IsValid r
        → Falls ids r
        → Returns (λ p. has iid p.0.instances ≡ false) (sweep_ids lease now ids r)
    unfolding sweep_ids contains
    sweep_ids-gone [] r v (inl gone) = gone
    sweep_ids-gone [] r v (inr (late, waiting)) = absurd (cc)
    sweep_ids-gone (k ∷ ids) r v h =
        Returns-bind _ (λ p. has iid p.0.instances ≡ false) (expire lease now k r) _
          (expire-Falls k ids r v h)
          (λ p x.
            Returns-bind (λ q. has iid q.0.instances ≡ false) _ (sweep_ids lease now ids p.0) _
              (sweep_ids-gone ids p.0 x.0 x.1) (λ q y. y))

    sits_known : (d : Dict (Option ℕ)) → join (lookup iid d) ≡ some s → has iid d ≡ true
    sits_known d e = ground arith

    swept_at :
        (r : Registry) (b : Bool)
        → is_late r ≡ b
        → IsValid r
        → Sits iid s g r
        → Returns (Stays b iid s g) (sweep_ids lease now (keys r.instances) r >>= λ p. ok p.0)
    swept_at r true late v h =
        Returns-bind (λ p. has iid p.0.instances ≡ false) _
          (sweep_ids lease now (keys r.instances) r) _
          (sweep_ids-gone (keys r.instances) r v (
            inr (
              late,
              contains-keys iid r.instances
                  ∙ sym (v.tracks.known iid)
                  ∙ sits_known r.instance_slot h.0,
            )))
          (λ p x. x)
    swept_at r false early v h =
        Returns-bind (λ p. Sits iid s g p.0) _ (sweep_ids lease now (keys r.instances) r) _
          (sweep_ids-Sits (keys r.instances) r v early h) (λ p x. x)

  pub swept :
      (now lease : ℕ) (at : Option ℕ) (r : Registry)
      → IsValid r
      → Sits iid s g r
      → Returns
          (Stays (is_expired lease (or_else at now) (lookup iid r.last_seen)) iid s g)
          (sweep_expired now lease at r >>= λ p. ok p.0)
  unfolding sweep_expired
  swept now lease at r v h = swept_at lease (or_else at now) r _ refl v h
