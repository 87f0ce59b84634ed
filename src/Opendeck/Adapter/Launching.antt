-- ===== src/Opendeck/Adapter/Launching.antt =====
-- opendeck-broker/opendeck_broker/opencode/adapter.py: a new adapter is coherent, and registering and
-- detaching launches, heartbeats and the broker's sweep keep it so.
use home_ailab.Prelude.{
  ℕ, ◌+◌, ◌≡◌, ◌≢◌, refl, sym, ap, ◌∙◌, inl, inr, String, true, false, some, lookup, insert, has,
  keys, lookup-insert, lookup-insert_self, insert-IsUnique, Returns, Returns-and, Returns-bind,
  Bool-cases, arith, str_eq, eq_iff,
}
use home_ailab.Opendeck.Model.{Instance}
use home_ailab.Opendeck.Objects.{Ref, Objects, update, update_self, update_ne}
use home_ailab.Opendeck.Registry.{Registry, new_registry, slot_count, register}
use home_ailab.Opendeck.Registry.Placing.{id_of}
use home_ailab.Opendeck.Registry.Validity.{IsValid, new_registry-IsValid}
use home_ailab.Opendeck.Registry.Preserves.{register-IsValid}
use home_ailab.Opendeck.Registry.Accepting.{Wrote, register-Wrote, Agree}
use home_ailab.Opendeck.Adapter.{
  Launch, Adapter, Request, new_adapter, next_seq, launch_instance, register_launch,
}
use home_ailab.Opendeck.Adapter.Coherence.{IsLinked, IsCoherent, IsBehind-later}

-- A new adapter of a new registry is coherent.
pub new_adapter-IsCoherent :
    (objects : Objects) (broker_epoch epoch : String)
    → IsCoherent (new_adapter (new_registry slot_count broker_epoch objects) epoch)
unfolding new_adapter new_registry lookup keys
new_adapter-IsCoherent objects broker_epoch epoch = record {
  valid = new_registry-IsValid broker_epoch objects;
  behind = λ k. tt;
  linked = λ k l e. cc;
  unique = tt;
}

-- The place of the new object and its id are used by no instance and no launch.
pub record IsFresh (ref : Ref) (iid : String) (a : Adapter) : Type 0 where
  pub instances : (k : String) → lookup k a.registry.instances ≢ some ref
  pub launches : (k : String) (l : Launch) → lookup k a.launches ≡ some l → l.instance_ref ≢ ref
  pub unknown : has iid a.registry.instances ≡ false
  pub unused : has iid a.launches ≡ false

-- the registry once the new object is allocated
abbrev allocated : Ref → Instance → Registry → Registry
allocated ref inst r = record r { objects = update ref (λ old. inst) r.objects }

module _ (now : ℕ) (ref : Ref) (iid : String) (q : Request) {a : Adapter} (coherent : IsCoherent a)
    (new : IsFresh ref iid a) where
  abbrev made : Instance
  made = launch_instance iid a.producer_epoch (a.seq + 1) q

  allocated_self : (allocated ref made a.registry).objects ref ≡ made
  allocated_self = update_self ref (λ old. made) a.registry.objects

  allocated_ne :
      (x : Ref) → ref ≢ x → (allocated ref made a.registry).objects x ≡ a.registry.objects x
  allocated_ne x other = update_ne ref x (λ old. made) a.registry.objects other

  allocated-IsValid : IsValid (allocated ref made a.registry)
  allocated-IsValid =
      let v = coherent.valid in
      record {
        places = record {
          occupants = v.places.occupants;
          generations = v.places.generations;
          held = v.places.held;
          placed = v.places.placed;
        };
        tracks = record {
          known = v.tracks.known;
          produced = v.tracks.produced;
          seen = v.tracks.seen;
          named = λ k x e.
              ap (λ i. i.instance_id)
                (allocated_ne x (λ same. new.instances k (e ∙ ap some (sym same))))
              ∙ v.tracks.named k x e;
        };
      }

  -- the adapter once the launch is registered
  abbrev launched : Launch → Registry → Adapter
  launched l r = record a { seq = a.seq + 1; registry = r; launches = insert iid l a.launches }

  made_id : id_of ref (allocated ref made a.registry) ≡ iid
  unfolding launch_instance
  made_id = ap (λ i. i.instance_id) allocated_self

  made_live : ((allocated ref made a.registry).objects ref).live ≡ true
  unfolding launch_instance
  made_live = ap (λ i. i.live) allocated_self

  made_epoch : ((allocated ref made a.registry).objects ref).producer_epoch ≡ a.producer_epoch
  unfolding launch_instance
  made_epoch = ap (λ i. i.producer_epoch) allocated_self

  made_sequence : ((allocated ref made a.registry).objects ref).sequence ≡ a.seq + 1
  unfolding launch_instance
  made_sequence = ap (λ i. i.sequence) allocated_self

  -- the new launch
  new-IsLinked :
      (l : Launch) (r : Registry)
      → l.instance_id ≡ iid
      → l.instance_ref ≡ ref
      → Wrote now ref a.producer_epoch (a.seq + 1) (allocated ref made a.registry) r
      → IsLinked (launched l r) iid l
  new-IsLinked l r named at w = record {
    named = named;
    known = ap (λ x. id_of x r) at ∙ ap (λ i. i.instance_id) (w.objects ref) ∙ made_id;
    is_live = ap (λ x. (r.objects x).live) at ∙ ap (λ i. i.live) (w.objects ref) ∙ made_live;
    same_ref = λ x e.
        let entry : lookup iid r.instances ≡ some ref =
          ap (λ i. lookup i r.instances) (sym made_id) ∙ w.entry in
        ground (arith, entry, e, at);
  }

  others-Agree :
      (r : Registry) (k : String)
      → Wrote now ref a.producer_epoch (a.seq + 1) (allocated ref made a.registry) r
      → iid ≢ k
      → Agree k a.registry r
  others-Agree r k w other =
      let agree = w.others k (λ e. other (sym made_id ∙ e)) in
      record { instances = agree.instances; producer = agree.producer; last_seen = agree.last_seen }

  -- a launch from before
  old-IsLinked :
      (l : Launch) (r : Registry) (k : String) (m : Launch)
      → Wrote now ref a.producer_epoch (a.seq + 1) (allocated ref made a.registry) r
      → iid ≢ k
      → lookup k a.launches ≡ some m
      → IsLinked (launched l r) k m
  old-IsLinked l r k m w other there =
      let linked = coherent.linked k m there in
      let same : r.objects m.instance_ref ≡ a.registry.objects m.instance_ref =
        w.objects m.instance_ref
        ∙ allocated_ne m.instance_ref (λ e. new.launches k m there (sym e)) in
      record {
        named = linked.named;
        known = ap (λ i. i.instance_id) same ∙ linked.known;
        is_live = ap (λ i. i.live) same ∙ linked.is_live;
        same_ref = λ x e. linked.same_ref x (sym (others-Agree r k w other).instances ∙ e);
      }

  launched-IsLinked :
      (l : Launch) (r : Registry)
      → l.instance_id ≡ iid
      → l.instance_ref ≡ ref
      → Wrote now ref a.producer_epoch (a.seq + 1) (allocated ref made a.registry) r
      → (k : String) (m : Launch) → lookup k (insert iid l a.launches) ≡ some m
      → IsLinked (launched l r) k m
  launched-IsLinked l r named at w k m there = elim (Bool-cases (str_eq iid k)) [
    | inl own ↦
        let e : iid ≡ k = (eq_iff iid k).0 own in
        let f : l ≡ m = ground (arith, lookup-insert iid k l a.launches, there) in
        rw (← e, ← f) (new-IsLinked l r named at w)
    | inr other ↦
        old-IsLinked l r k m w (ground (arith, eq_iff iid k))
          (ground (arith, lookup-insert iid k l a.launches, there))
  ]

  launched-IsCoherent :
      (l : Launch) (r : Registry)
      → l.instance_id ≡ iid
      → l.instance_ref ≡ ref
      → IsValid r
      → Wrote now ref a.producer_epoch (a.seq + 1) (allocated ref made a.registry) r
      → IsCoherent (launched l r)
  launched-IsCoherent l r named at v w = record {
    valid = v;
    behind = λ k. elim (Bool-cases (str_eq iid k)) [
      | inl own ↦
          let e : iid ≡ k = (eq_iff iid k).0 own in
          let last : lookup iid r.producer ≡ some (a.producer_epoch, a.seq + 1) =
            ap (λ i. lookup i r.producer) (sym made_id) ∙ w.last in
          rw (← e, last) (refl, omega arith)
      | inr other ↦ rw (others-Agree r k w (ground (arith, eq_iff iid k))).producer (
          IsBehind-later a.producer_epoch (a.seq + 1) (a.seq + 1 + 1) _ (omega arith)
            (coherent.behind k))
    ];
    linked = launched-IsLinked l r named at w;
    unique = insert-IsUnique iid l a.launches coherent.unique;
  }

  -- Registering a launch, whose object is at a new place and whose id is new, raises nothing, keeps
  -- the adapter coherent and gives back the id, under which the launch is then found.
  pub register_launch-IsCoherent :
      Returns
        (λ p.
          IsCoherent p.0
          × (p.1 ≡ iid)
          × ((l : Launch) × ((lookup iid p.0.launches ≡ some l) × (l.instance_ref ≡ ref))))
        (register_launch now ref iid q a)
  unfolding register_launch next_seq
  register_launch-IsCoherent =
      Returns-bind
        (λ p.
          IsValid p.0
          × Wrote now ref a.producer_epoch (a.seq + 1) (allocated ref made a.registry) p.0)
        _ (register now ref (allocated ref made a.registry)) _
        (Returns-and _ _ (register now ref (allocated ref made a.registry))
          (register-IsValid now ref _ allocated-IsValid)
          (rw (made_epoch, made_sequence) at
            (register-Wrote now ref (allocated ref made a.registry) allocated-IsValid made_live)))
        (λ p h. (
          launched-IsCoherent _ p.0 refl refl h.0 h.1,
          refl,
          (_, (lookup-insert_self iid _ a.launches, refl)),
        ))
