-- ===== src/Opendeck/Adapter/Rounds.antt =====
-- opendeck-broker/opendeck_broker/opencode/adapter.py: a round of `refresh` for one launch whose
-- process lives.
use home_ailab.Prelude.{
  ℕ, ◌+◌, ◌≡◌, ◌≢◌, refl, sym, ap, ◌∙◌, inl, inr, String, Bool, true, some, Dict, lookup, has,
  Returns, Returns-and, Returns-bind, Bool-cases, arith, str_eq, eq_iff,
}
use home_ailab.Opendeck.Registry.{Registry, accept_snapshot}
use home_ailab.Opendeck.Registry.Placing.{id_of}
use home_ailab.Opendeck.Registry.Validity.{IsValid}
use home_ailab.Opendeck.Registry.Preserves.{accept_snapshot-IsValid}
use home_ailab.Opendeck.Registry.Accepting.{Agree, Agree-trans, Wrote, accept_snapshot-Wrote}
use home_ailab.Opendeck.Observe.{SessionState}
use home_ailab.Opendeck.Adapter.{Launch, Adapter, push, next_seq}
use home_ailab.Opendeck.Adapter.Written.{
  state_for, refreshed, written, is_Marked, written_self, written_ne, written_id, written_live,
  written-IsValid, written-IsBehind,
}
use home_ailab.Opendeck.Adapter.Coherence.{
  IsLinked, IsCoherent, Round, Round-IsLinked, IsBehind-later,
}

-- A round for a launch whose process lives: the instance is known, was seen at that time and has
-- what the observer said.
pub record Pushed (now : ℕ) (states : Dict SessionState) (trusted : Bool) (l : Launch)
    (a q : Adapter) : Type 0 where
  pub round : Round (id_of l.instance_ref a.registry) l.instance_ref a q
  pub coherent : IsCoherent q
  pub launches : q.launches ≡ a.launches
  pub entry : lookup (id_of l.instance_ref a.registry) q.registry.instances ≡ some l.instance_ref
  pub seen : lookup (id_of l.instance_ref a.registry) q.registry.last_seen ≡ some now
  pub object :
      q.registry.objects l.instance_ref
      ≡ refreshed
          (state_for states l)
          (has (id_of l.instance_ref a.registry) a.registry.instances)
          trusted
          (a.seq + 1)
          (a.registry.objects l.instance_ref)

module _ (now : ℕ) (states : Dict SessionState) (trusted : Bool) (l : Launch) {a : Adapter}
    (coherent : IsCoherent a) (linked : IsLinked a (id_of l.instance_ref a.registry) l) where
  abbrev k : String
  k = id_of l.instance_ref a.registry

  abbrev pushed_adapter : Registry → Adapter
  pushed_adapter r = record a { seq = a.seq + 1; registry = r }

  Wrote-Round :
      (r : Registry)
      → Wrote now l.instance_ref a.producer_epoch (a.seq + 1) (written states trusted l a) r
      → Round k l.instance_ref a (pushed_adapter r)
  Wrote-Round r w = record {
    epoch = refl;
    later = omega arith;
    agree = λ j other.
        let own = is_Marked now states trusted l coherent linked in
        let same : Agree j a.registry (written states trusted l a) = record {
          instances = (own.agree j).instances;
          producer = (own.agree j).producer;
          last_seen = (own.agree j).last_seen;
        } in
        let away : id_of l.instance_ref (written states trusted l a) ≢ j =
          λ e. other (sym (written_id now states trusted l coherent linked l.instance_ref) ∙ e) in
        Agree-trans same (w.others j away);
    launches = λ j other. refl;
    objects = λ x other. w.objects x ∙ written_ne now states trusted l coherent linked x other;
    ids = λ x.
        ap (λ i. i.instance_id) (w.objects x) ∙ written_id now states trusted l coherent linked x;
  }

  -- the entries of the launch's own instance
  module _ (r : Registry)
      (w : Wrote now l.instance_ref a.producer_epoch
        (a.seq + 1)
        (written states trusted l a)
        r) where
    same_key : id_of l.instance_ref a.registry ≡ id_of l.instance_ref (written states trusted l a)
    same_key = sym (written_id now states trusted l coherent linked l.instance_ref)

    own_entry : lookup (id_of l.instance_ref a.registry) r.instances ≡ some l.instance_ref
    own_entry = ap (λ i. lookup i r.instances) same_key ∙ w.entry

    own_last :
        lookup (id_of l.instance_ref a.registry) r.producer ≡ some (a.producer_epoch, a.seq + 1)
    own_last = ap (λ i. lookup i r.producer) same_key ∙ w.last

    own_seen : lookup (id_of l.instance_ref a.registry) r.last_seen ≡ some now
    own_seen = ap (λ i. lookup i r.last_seen) same_key ∙ w.seen

  module _ (at : lookup (id_of l.instance_ref a.registry) a.launches ≡ some l) where
    own-IsLinked :
        (r : Registry)
        → Wrote now l.instance_ref a.producer_epoch (a.seq + 1) (written states trusted l a) r
        → IsLinked (pushed_adapter r) (id_of l.instance_ref a.registry) l
    own-IsLinked r w = record {
      named = linked.named;
      known = (Wrote-Round r w).ids l.instance_ref;
      is_live =
          ap (λ i. i.live) (w.objects l.instance_ref)
          ∙ written_live now states trusted l coherent linked;
      same_ref = λ x e. ground (arith, own_entry r w, e);
    }

    Wrote-IsLinked :
        (r : Registry)
        → Wrote now l.instance_ref a.producer_epoch (a.seq + 1) (written states trusted l a) r
        → (j : String) (m : Launch) → lookup j a.launches ≡ some m
        → IsLinked (pushed_adapter r) j m
    Wrote-IsLinked r w j m there = elim (Bool-cases (str_eq (id_of l.instance_ref a.registry) j)) [
      | inl own ↦
          let e : id_of l.instance_ref a.registry ≡ j = (eq_iff _ j).0 own in
          let f : l ≡ m = ground (arith, at, there) in rw (← e, ← f) (own-IsLinked r w)
      | inr other ↦
          Round-IsLinked (Wrote-Round r w)
            (ground (arith, eq_iff (id_of l.instance_ref a.registry) j)) refl
            (coherent.linked j m there)
    ]

    Wrote-IsCoherent :
        (r : Registry)
        → IsValid r
        → Wrote now l.instance_ref a.producer_epoch (a.seq + 1) (written states trusted l a) r
        → IsCoherent (pushed_adapter r)
    Wrote-IsCoherent r v w = record {
      valid = v;
      behind = λ j. elim (Bool-cases (str_eq (id_of l.instance_ref a.registry) j)) [
        | inl own ↦
            let e : id_of l.instance_ref a.registry ≡ j = (eq_iff _ j).0 own in
            rw (← e, own_last r w) (refl, omega arith)
        | inr other ↦
            rw
              ((Wrote-Round r w).agree j
                (ground (arith, eq_iff (id_of l.instance_ref a.registry) j))).producer
              (IsBehind-later a.producer_epoch (a.seq + 1) (a.seq + 1 + 1) _ (omega arith)
                (coherent.behind j))
      ];
      linked = Wrote-IsLinked r w;
      unique = coherent.unique;
    }

    -- The round of a launch whose process lives: its snapshot is accepted.
    pub push-Pushed : Returns (λ q. Pushed now states trusted l a q) (push now states trusted l a)
    unfolding push next_seq
    push-Pushed =
        Returns-bind
          (λ p.
            IsValid p.0
            × ((p.1 ≡ true)
                × Wrote now l.instance_ref a.producer_epoch (a.seq + 1) (written states trusted l a)
                    p.0))
          (λ q. Pushed now states trusted l a q)
          (accept_snapshot now l.instance_ref (some a.producer_epoch) (some (a.seq + 1))
            (written states trusted l a))
          _
          (Returns-and _ _ _
            (accept_snapshot-IsValid now l.instance_ref _ _ _
              (written-IsValid now states trusted l coherent linked))
            (accept_snapshot-Wrote now l.instance_ref a.producer_epoch (a.seq + 1) _
              (written-IsValid now states trusted l coherent linked)
              (written_live now states trusted l coherent linked)
              (written-IsBehind now states trusted l coherent linked)))
          (λ p h. record {
            round = Wrote-Round p.0 h.1.1;
            coherent = Wrote-IsCoherent p.0 h.0 h.1.1;
            launches = refl;
            entry = own_entry p.0 h.1.1;
            seen = own_seen p.0 h.1.1;
            object =
                h.1.1.objects l.instance_ref ∙ written_self now states trusted l coherent linked;
          })
