-- ===== src/Opendeck/Adapter/Written.antt =====
-- opendeck-broker/opendeck_broker/opencode/adapter.py: the registry that a round of `refresh` calls
-- `accept_snapshot` on: the trust flag and the observer's facts are written to the launch's object.
use home_ailab.Prelude.{
  ℕ, ◌+◌, ◌≡◌, ◌≢◌, refl, sym, ap, ◌∙◌, String, Bool, true, false, Option, some, Dict, lookup, has,
}
use home_ailab.Opendeck.Model.{Instance}
use home_ailab.Opendeck.Objects.{Ref, update, update_self, update_ne, same_ids}
use home_ailab.Opendeck.Registry.{Registry, mark_untrusted}
use home_ailab.Opendeck.Registry.Placing.{id_of}
use home_ailab.Opendeck.Registry.Validity.{IsValid}
use home_ailab.Opendeck.Registry.Freeing.{mark_untrusted-IsValid}
use home_ailab.Opendeck.Registry.Accepting.{IsBehind}
use home_ailab.Opendeck.Paths.{norm_dir}
use home_ailab.Opendeck.Observe.{SessionState}
use home_ailab.Opendeck.Adapter.{Launch, Adapter, observe, with_session}
use home_ailab.Opendeck.Adapter.Coherence.{
  IsLinked, IsCoherent, IsValid-objects, Marked, marked, mark_untrusted-Marked, observe_id,
  observe_live,
}

-- what the states have for the launch
abbrev pub state_for : Dict SessionState → Launch → Option SessionState
state_for states l = with_session (lookup (norm_dir (some l.directory)) states)

-- the object of a launch whose process lives, after its round
abbrev pub refreshed : Option SessionState → Bool → Bool → ℕ → Instance → Instance
refreshed st registered trusted seq i = record (observe st (marked registered trusted i)) {
  sequence = seq;
}

marked_id : (c b : Bool) (i : Instance) → (marked c b i).instance_id ≡ i.instance_id
marked_id true b i = refl
marked_id false b i = refl

marked_live : (c b : Bool) (i : Instance) → (marked c b i).live ≡ i.live
marked_live true b i = refl
marked_live false b i = refl

-- the registry that `accept_snapshot` is called on
abbrev pub written : Dict SessionState → Bool → Launch → Adapter → Registry
written states trusted l a =
    let r = mark_untrusted (id_of l.instance_ref a.registry) trusted a.registry in
    record r {
      objects =
          update l.instance_ref
            (λ i. record (observe (state_for states l) i) { sequence = a.seq + 1 }) r.objects;
    }

module _ (now : ℕ) (states : Dict SessionState) (trusted : Bool) (l : Launch) {a : Adapter}
    (coherent : IsCoherent a) (linked : IsLinked a (id_of l.instance_ref a.registry) l) where
  abbrev pub key : String
  key = id_of l.instance_ref a.registry

  pub is_Marked :
      Marked key l.instance_ref trusted a.registry (mark_untrusted key trusted a.registry)
  is_Marked = mark_untrusted-Marked key l.instance_ref trusted a.registry linked.same_ref

  pub written_self :
      (written states trusted l a).objects l.instance_ref
      ≡ refreshed
          (state_for states l)
          (has key a.registry.instances)
          trusted
          (a.seq + 1)
          (a.registry.objects l.instance_ref)
  written_self =
      update_self l.instance_ref _ (mark_untrusted key trusted a.registry).objects
      ∙ ap (λ i. record (observe (state_for states l) i) { sequence = a.seq + 1 }) is_Marked.own

  pub written_ne :
      (x : Ref) → l.instance_ref ≢ x → (written states trusted l a).objects x ≡ a.registry.objects x
  written_ne x other =
      update_ne l.instance_ref x _ (mark_untrusted key trusted a.registry).objects other
      ∙ is_Marked.objects x other

  pub written_id :
      (x : Ref) → ((written states trusted l a).objects x).instance_id ≡ id_of x a.registry
  written_id =
      same_ids l.instance_ref a.registry.objects (written states trusted l a).objects
        (ap (λ i. i.instance_id) written_self
          ∙ observe_id (state_for states l) _
          ∙ marked_id (has key a.registry.instances) trusted (a.registry.objects l.instance_ref))
        written_ne

  pub marked_ids : (x : Ref) → id_of x (mark_untrusted key trusted a.registry) ≡ id_of x a.registry
  marked_ids =
      same_ids l.instance_ref a.registry.objects (mark_untrusted key trusted a.registry).objects
        (ap (λ i. i.instance_id) is_Marked.own
          ∙ marked_id (has key a.registry.instances) trusted (a.registry.objects l.instance_ref))
        is_Marked.objects

  pub written_live : ((written states trusted l a).objects l.instance_ref).live ≡ true
  written_live =
      ap (λ i. i.live) written_self
      ∙ observe_live (state_for states l) _
      ∙ marked_live (has key a.registry.instances) trusted (a.registry.objects l.instance_ref)
      ∙ linked.is_live

  pub written-IsValid : IsValid (written states trusted l a)
  written-IsValid =
      IsValid-objects (mark_untrusted key trusted a.registry) _
        (λ x. written_id x ∙ sym (marked_ids x))
        (mark_untrusted-IsValid key trusted a.registry coherent.valid)

  pub written-IsBehind : IsBehind a.producer_epoch (a.seq + 1) (
      lookup
        (id_of l.instance_ref (written states trusted l a))
        (written states trusted l a).producer)
  written-IsBehind =
      rw (written_id l.instance_ref, (is_Marked.agree key).producer) (coherent.behind key)
