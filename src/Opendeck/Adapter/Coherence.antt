-- ===== src/Opendeck/Adapter/Coherence.antt =====
-- opendeck-broker/opendeck_broker/opencode/adapter.py: the adapter's invariant, and what a round of
-- `refresh` leaves alone.
use home_ailab.Prelude.{
  ℕ, ◌+◌, ◌≤◌, ◌≡◌, ◌≢◌, refl, sym, ap, ◌∙◌, inl, inr, String, Bool, true, Option, none, some,
  lookup, has, keys, IsUnique, Option-cases, if◌then◌else◌, arith,
}
use home_ailab.Opendeck.Model.{Instance, set_status}
use home_ailab.Opendeck.Objects.{Ref, Objects, update_self, update_ne}
use home_ailab.Opendeck.Registry.{Registry, mark_untrusted}
use home_ailab.Opendeck.Registry.Placing.{id_of}
use home_ailab.Opendeck.Registry.Validity.{IsValid}
use home_ailab.Opendeck.Registry.Accepting.{Agree, IsBehind}
use home_ailab.Opendeck.Observe.{SessionState}
use home_ailab.Opendeck.Adapter.{Launch, Adapter, observe}

-- The launch stands under its instance's id, its object is live, and the registry has that object
-- if it has the instance at all.
pub record IsLinked (a : Adapter) (k : String) (l : Launch) : Type 0 where
  pub named : l.instance_id ≡ k
  pub known : id_of l.instance_ref a.registry ≡ k
  pub is_live : (a.registry.objects l.instance_ref).live ≡ true
  pub same_ref : (x : Ref) → lookup k a.registry.instances ≡ some x → x ≡ l.instance_ref

-- All registrations came through this adapter.
pub record IsCoherent (a : Adapter) : Type 0 where
  pub valid : IsValid a.registry
  pub behind : (k : String) → IsBehind a.producer_epoch (a.seq + 1) (lookup k a.registry.producer)
  pub linked : (k : String) (l : Launch) → lookup k a.launches ≡ some l → IsLinked a k l
  pub unique : IsUnique (keys a.launches)

-- what a round for the launch of `k` leaves of the others
pub record Round (k : String) (ref : Ref) (a q : Adapter) : Type 0 where
  pub epoch : q.producer_epoch ≡ a.producer_epoch
  pub later : a.seq ≤ q.seq
  pub agree : (j : String) → k ≢ j → Agree j a.registry q.registry
  pub launches : (j : String) → k ≢ j → lookup j q.launches ≡ lookup j a.launches
  pub objects : (x : Ref) → ref ≢ x → q.registry.objects x ≡ a.registry.objects x
  pub ids : (x : Ref) → id_of x q.registry ≡ id_of x a.registry

-- the launches of other ids stay linked
pub Round-IsLinked :
    {k j : String} {ref : Ref} {a q : Adapter} {l : Launch}
    → Round k ref a q
    → k ≢ j
    → id_of ref a.registry ≡ k
    → IsLinked a j l
    → IsLinked q j l
Round-IsLinked {k} {j} {ref} {a} {q} {l} round other own linked =
    let apart : ref ≢ l.instance_ref =
      λ e. other (sym own ∙ ap (λ x. id_of x a.registry) e ∙ linked.known) in
    record {
      named = linked.named;
      known = round.ids l.instance_ref ∙ linked.known;
      is_live = ap (λ i. i.live) (round.objects l.instance_ref apart) ∙ linked.is_live;
      same_ref = λ x e. linked.same_ref x (sym (round.agree j other).instances ∙ e);
    }

-- a message of before is behind a later number
pub IsBehind-later :
    (epoch : String) (m n : ℕ) (last : Option (String × ℕ))
    → m ≤ n
    → IsBehind epoch m last
    → IsBehind epoch n last
IsBehind-later epoch m n none h b = b
IsBehind-later epoch m n (some last) h b = (b.0, omega (arith, b.1))

-- Changing objects but not their ids keeps a registry valid.
pub IsValid-objects :
    (r : Registry) (o : Objects)
    → ((x : Ref) → (o x).instance_id ≡ id_of x r)
    → IsValid r
    → IsValid (record r { objects = o })
IsValid-objects r o ids v = record {
  places = record {
    occupants = v.places.occupants;
    generations = v.places.generations;
    held = v.places.held;
    placed = v.places.placed;
  };
  tracks = record {
    known = v.tracks.known;
    produced = v.tracks.produced;
    seen = v.tracks.seen;
    named = λ k x e. ids x ∙ v.tracks.named k x e;
  };
}

-- the trust flag is written if the registry has the instance
abbrev pub marked : Bool → Bool → Instance → Instance
marked registered trusted i = if registered then record i { telemetry_trusted = trusted } else i

-- what `mark_untrusted` leaves
pub record Marked (k : String) (ref : Ref) (trusted : Bool) (r q : Registry) : Type 0 where
  pub agree : (j : String) → Agree j r q
  pub own : q.objects ref ≡ marked (has k r.instances) trusted (r.objects ref)
  pub objects : (x : Ref) → ref ≢ x → q.objects x ≡ r.objects x

pub mark_untrusted-Marked :
    (k : String) (ref : Ref) (trusted : Bool) (r : Registry)
    → ((x : Ref) → lookup k r.instances ≡ some x → x ≡ ref)
    → Marked k ref trusted r (mark_untrusted k trusted r)
unfolding mark_untrusted
mark_untrusted-Marked k ref trusted r same = elim (Option-cases (lookup k r.instances)) [
  | inl gone ↦
      rw (gone, mark_untrusted)
        (record {
          agree = λ j. record { instances = refl; producer = refl; last_seen = refl };
          own = rw gone refl;
          objects = λ x other. refl;
        })
  | inr (y, there) ↦
      rw (there, mark_untrusted, same y there)
        (record {
          agree = λ j. record { instances = refl; producer = refl; last_seen = refl };
          own = update_self ref _ r.objects ∙ rw there refl;
          objects = λ x other. update_ne ref x _ r.objects other;
        })
]

pub observe_id :
    (st : Option SessionState) (i : Instance) → (observe st i).instance_id ≡ i.instance_id
unfolding observe set_status
observe_id none i = refl
observe_id (some st) i = refl

pub observe_live : (st : Option SessionState) (i : Instance) → (observe st i).live ≡ i.live
unfolding observe set_status
observe_live none i = refl
observe_live (some st) i = refl
