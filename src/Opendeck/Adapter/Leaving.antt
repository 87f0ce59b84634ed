-- ===== src/Opendeck/Adapter/Leaving.antt =====
-- opendeck-broker/opendeck_broker/opencode/adapter.py: detaching a launch, a heartbeat, and the sweep
-- that the broker makes of the adapter's registry.
use home_ailab.Prelude.{
  ℕ, ◌≡◌, refl, inl, inr, String, false, Option, List, [], ◌∷◌, lookup, has, lookup-erase,
  has-erase_self, keys, Returns, Returns-bind, Bool-cases, arith, str_eq,
}
use home_ailab.Opendeck.Registry.{
  Registry, heartbeat, expire, sweep_ids, sweep_expired, is_expired, detach,
}
use home_ailab.Opendeck.Registry.Validity.{IsValid}
use home_ailab.Opendeck.Registry.Preserves.{heartbeat-IsValid}
use home_ailab.Opendeck.Registry.Freeing.{forgotten, forgotten-IsValid, free_slot-forgotten}
use home_ailab.Opendeck.Adapter.{Adapter, detach_launch, beat}
use home_ailab.Opendeck.Adapter.Coherence.{IsCoherent}
use home_ailab.Opendeck.Adapter.Ended.{dropped-IsCoherent}

-- the registry forgets an instance and the adapter keeps its launch
abbrev forgets : String → Adapter → Adapter
forgets iid a = record a { registry = forgotten iid a.registry }

forgets-IsCoherent : (iid : String) (a : Adapter) → IsCoherent a → IsCoherent (forgets iid a)
forgets-IsCoherent iid a c = record {
  valid = forgotten-IsValid iid a.registry c.valid;
  behind = λ j. elim (Bool-cases (str_eq iid j)) [
    | inl own ↦ rw (lookup-erase iid j a.registry.producer, own) tt
    | inr other ↦ rw (lookup-erase iid j a.registry.producer, other) (c.behind j)
  ];
  linked = λ j m there.
      let linked = c.linked j m there in
      record {
        named = linked.named;
        known = linked.known;
        is_live = linked.is_live;
        same_ref =
            λ x e. ground (arith, lookup-erase iid j a.registry.instances, e, linked.same_ref x);
      };
  unique = c.unique;
}

-- the adapter with another registry
abbrev pub with_registry : Adapter → Registry → Adapter
with_registry a r = record a { registry = r }

expire-IsCoherent :
    (lease now : ℕ) (iid : String) (a : Adapter)
    → IsCoherent a
    → Returns (λ p. IsCoherent (with_registry a p.0)) (expire lease now iid a.registry)
unfolding expire
expire-IsCoherent lease now iid a c =
    elim (Bool-cases (is_expired lease now (lookup iid a.registry.last_seen))) [
      | inl late ↦
          rw (late, expire)
            (rw (free_slot-forgotten iid a.registry c.valid.places) (forgets-IsCoherent iid a c))
      | inr early ↦ rw (early, expire) c
    ]

sweep_ids-IsCoherent :
    (lease now : ℕ) (ids : List String) (a : Adapter)
    → IsCoherent a
    → Returns (λ p. IsCoherent (with_registry a p.0)) (sweep_ids lease now ids a.registry)
unfolding sweep_ids
sweep_ids-IsCoherent lease now [] a c = c
sweep_ids-IsCoherent lease now (iid ∷ ids) a c =
    Returns-bind (λ p. IsCoherent (with_registry a p.0)) _ (expire lease now iid a.registry) _
      (expire-IsCoherent lease now iid a c)
      (λ p h.
        Returns-bind (λ p'. IsCoherent (with_registry a p'.0)) _ (sweep_ids lease now ids p.0) _
          (sweep_ids-IsCoherent lease now ids (with_registry a p.0) h) (λ p' h'. h'))

-- The sweep of the registry keeps the adapter coherent.
pub sweep-IsCoherent :
    (clock lease : ℕ) (now : Option ℕ) (a : Adapter)
    → IsCoherent a
    → Returns (λ p. IsCoherent (with_registry a p.0)) (sweep_expired clock lease now a.registry)
unfolding sweep_expired
sweep-IsCoherent clock lease now a = sweep_ids-IsCoherent lease _ (keys a.registry.instances) a

heartbeat_same :
    (now : ℕ) (iid : String) (r : Registry)
    → ((heartbeat now iid r).0.instances ≡ r.instances)
      × ((heartbeat now iid r).0.producer ≡ r.producer)
      × ((heartbeat now iid r).0.objects ≡ r.objects)
unfolding heartbeat
heartbeat_same now iid r = elim (Bool-cases (has iid r.instances)) [
  | inl there ↦ rw (there, heartbeat) (refl, refl, refl)
  | inr gone ↦ rw (gone, heartbeat) (refl, refl, refl)
]

-- what a heartbeat may change: the time at which an instance was seen
same_but_seen :
    (a : Adapter) (r : Registry)
    → r.instances ≡ a.registry.instances
    → r.producer ≡ a.registry.producer
    → r.objects ≡ a.registry.objects
    → IsValid r
    → IsCoherent a
    → IsCoherent (with_registry a r)
same_but_seen a r instances producer objects v c = record {
  valid = v;
  behind = λ j. rw producer (c.behind j);
  linked = λ j m there.
      let linked = c.linked j m there in
      record {
        named = linked.named;
        known = rw objects linked.known;
        is_live = rw objects linked.is_live;
        same_ref = rw instances linked.same_ref;
      };
  unique = c.unique;
}

-- A heartbeat keeps the adapter coherent.
pub beat-IsCoherent :
    (now : ℕ) (iid : String) (a : Adapter) → IsCoherent a → IsCoherent (beat now iid a).0
unfolding beat
beat-IsCoherent now iid a c =
    let same = heartbeat_same now iid a.registry in
    same_but_seen a (heartbeat now iid a.registry).0 same.0 same.1 same.2
      (heartbeat-IsValid now iid a.registry c.valid) c

-- Detaching raises nothing, keeps the adapter coherent, and the launch and its instance are gone; it
-- tells whether the registry had the instance.
pub detach_launch-IsCoherent :
    (iid : String) (a : Adapter)
    → IsCoherent a
    → Returns
        (λ p.
          IsCoherent p.0
          × (has iid p.0.launches ≡ false)
          × (has iid p.0.registry.instances ≡ false)
          × (p.1 ≡ has iid a.registry.instances))
        (detach_launch iid a)
unfolding detach_launch detach
detach_launch-IsCoherent iid a c = rw (free_slot-forgotten iid a.registry c.valid.places) (
  dropped-IsCoherent iid a c,
  has-erase_self iid a.launches,
  has-erase_self iid a.registry.instances,
  refl,
)
