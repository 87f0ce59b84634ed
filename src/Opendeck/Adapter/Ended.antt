-- ===== src/Opendeck/Adapter/Ended.antt =====
-- opendeck-broker/opendeck_broker/opencode/adapter.py: a round of `refresh` for a launch whose process
-- has ended.
use home_ailab.Prelude.{
  ◌≡◌, refl, inl, inr, String, none, lookup, erase, erase-IsUnique, lookup-erase, lookup-erase_self,
  lookup-erase_ne, Returns, Bool-cases, arith, str_eq,
}
use home_ailab.Opendeck.Registry.{process_exit}
use home_ailab.Opendeck.Registry.Placing.{id_of}
use home_ailab.Opendeck.Registry.Freeing.{forgotten, forgotten-IsValid, free_slot-forgotten}
use home_ailab.Opendeck.Adapter.{Launch, Adapter, mark_dead}
use home_ailab.Opendeck.Adapter.Coherence.{IsLinked, IsCoherent, Round}

-- A round for a launch whose process has ended: the launch and the instance are gone.
pub record Dropped (l : Launch) (a q : Adapter) : Type 0 where
  pub round : Round (id_of l.instance_ref a.registry) l.instance_ref a q
  pub coherent : IsCoherent q
  pub launch : lookup (id_of l.instance_ref a.registry) q.launches ≡ none
  pub instance : lookup (id_of l.instance_ref a.registry) q.registry.instances ≡ none

abbrev pub dropped : String → Adapter → Adapter
dropped iid a = record a { registry = forgotten iid a.registry; launches = erase iid a.launches }

dropped-Round :
    (l : Launch) (a : Adapter)
    → Round
        (id_of l.instance_ref a.registry)
        l.instance_ref
        a
        (dropped (id_of l.instance_ref a.registry) a)
dropped-Round l a = record {
  epoch = refl;
  later = omega arith;
  agree = λ j other. record {
    instances = lookup-erase_ne _ j a.registry.instances other;
    producer = lookup-erase_ne _ j a.registry.producer other;
    last_seen = lookup-erase_ne _ j a.registry.last_seen other;
  };
  launches = λ j other. lookup-erase_ne _ j a.launches other;
  objects = λ x other. refl;
  ids = λ x. refl;
}

dropped-IsLinked :
    (iid : String) (a : Adapter) (j : String) (m : Launch)
    → IsLinked a j m
    → IsLinked (dropped iid a) j m
dropped-IsLinked iid a j m linked = record {
  named = linked.named;
  known = linked.known;
  is_live = linked.is_live;
  same_ref = λ x e. ground (arith, lookup-erase iid j a.registry.instances, e, linked.same_ref x);
}

pub dropped-IsCoherent : (iid : String) (a : Adapter) → IsCoherent a → IsCoherent (dropped iid a)
dropped-IsCoherent iid a c = record {
  valid = forgotten-IsValid iid a.registry c.valid;
  behind = λ j. elim (Bool-cases (str_eq iid j)) [
    | inl own ↦ rw (lookup-erase iid j a.registry.producer, own) tt
    | inr other ↦ rw (lookup-erase iid j a.registry.producer, other) (c.behind j)
  ];
  linked = λ j m there.
      dropped-IsLinked iid a j m
        (c.linked j m (ground (arith, lookup-erase iid j a.launches, there)));
  unique = erase-IsUnique iid a.launches c.unique;
}

-- The round of a launch whose process has ended.
pub mark_dead-Dropped :
    (l : Launch) (a : Adapter)
    → IsCoherent a
    → Returns (λ p. Dropped l a p.0) (mark_dead (id_of l.instance_ref a.registry) a)
unfolding mark_dead process_exit
mark_dead-Dropped l a c =
    rw (free_slot-forgotten (id_of l.instance_ref a.registry) a.registry c.valid.places) (record {
      round = dropped-Round l a;
      coherent = dropped-IsCoherent (id_of l.instance_ref a.registry) a c;
      launch = lookup-erase_self _ a.launches;
      instance = lookup-erase_self _ a.registry.instances;
    })
