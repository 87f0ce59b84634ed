-- ===== src/Opendeck/Api/Snapshots.antt =====
-- opendeck-broker/opendeck_broker/api.py: the snapshots that clients put.
use home_ailab.Prelude.{
  ℕ, ◌+◌, ◌≡◌, ◌≢◌, refl, sym, ap, ◌∙◌, String, true, false, some, Result, ok, Error, lookup,
  Returns, Returns-bind, arith, str_eq, eq_iff,
}
use home_ailab.Opendeck.Model.{Status, parse_status, status_value, set_status}
use home_ailab.Opendeck.Objects.{Ref, update, update_self, update_ne, same_ids}
use home_ailab.Opendeck.Registry.{Registry, accept_snapshot}
use home_ailab.Opendeck.Registry.Placing.{id_of}
use home_ailab.Opendeck.Registry.Accepting.{Wrote, accept_snapshot-Wrote}
use home_ailab.Opendeck.Adapter.{Adapter, Launch, next_seq}
use home_ailab.Opendeck.Adapter.Coherence.{IsCoherent, IsValid-objects}
use home_ailab.Opendeck.Messages.{Body, default, write_body, put_facts}

-- the status that the body names, or the instance's own
abbrev pub named_status : Body → Launch → Adapter → Result Status
named_status b l a =
    parse_status (default (status_value (a.registry.objects l.instance_ref).status) b.status)

module _ (now : ℕ) (l : Launch) (b : Body) (status : Status) (k : String) {a : Adapter}
    (coherent : IsCoherent a) (at : lookup k a.launches ≡ some l) where
  abbrev offered : Registry
  offered = record a.registry {
    objects = update l.instance_ref (write_body status b (a.seq + 1)) a.registry.objects;
  }

  offered_self :
      offered.objects l.instance_ref
      ≡ write_body status b (a.seq + 1) (a.registry.objects l.instance_ref)
  offered_self = update_self l.instance_ref _ a.registry.objects

  offered_ids : (x : Ref) → id_of x offered ≡ id_of x a.registry
  unfolding write_body set_status
  offered_ids =
      same_ids l.instance_ref a.registry.objects offered.objects
        (ap (λ i. i.instance_id) offered_self)
        (λ x other. update_ne l.instance_ref x _ a.registry.objects other)

  offered_live : (offered.objects l.instance_ref).live ≡ true
  unfolding write_body set_status
  offered_live = ap (λ i. i.live) offered_self ∙ (coherent.linked k l at).is_live

  -- A snapshot of a launch whose status is one of the three is always accepted, whatever the client
  -- last sent: the number that decides is the adapter's own next one, not the client's. The
  -- instance then has the facts of the body.
  pub put_facts_lem :
      named_status b l a ≡ ok status
      → Returns
          (λ p.
            (p.1 ≡ true)
            × (p.0.seq ≡ a.seq + 1)
            × (lookup k p.0.registry.instances ≡ some l.instance_ref)
            × (p.0.registry.objects l.instance_ref
                ≡ write_body status b (a.seq + 1) (a.registry.objects l.instance_ref)))
          (put_facts now l b a)
  unfolding put_facts next_seq
  put_facts_lem named = rw named (
      Returns-bind
        (λ p. (p.1 ≡ true) × Wrote now l.instance_ref a.producer_epoch (a.seq + 1) offered p.0) _
        (accept_snapshot now l.instance_ref (some a.producer_epoch) (some (a.seq + 1)) offered) _
        (accept_snapshot-Wrote now l.instance_ref a.producer_epoch (a.seq + 1) offered
          (IsValid-objects a.registry _ offered_ids coherent.valid) offered_live
          (coherent.behind (id_of l.instance_ref offered)))
        (λ p h. (
          h.0,
          refl,
          ap (λ i. lookup i p.0.instances) (sym own) ∙ h.1.entry,
          h.1.objects l.instance_ref ∙ offered_self,
        )))
    where
      own : id_of l.instance_ref offered ≡ k
      own = offered_ids l.instance_ref ∙ (coherent.linked k l at).known

-- A status that is none of the three makes the handler raise before anything is written.
pub put_facts_raises :
    (now : ℕ) (l : Launch) (b : Body) (a : Adapter) (s : String)
    → b.status ≡ some s
    → s ≢ "idle"
    → s ≢ "busy"
    → s ≢ "retry"
    → put_facts now l b a ≡ Result.raise Error.value_error
unfolding put_facts parse_status
put_facts_raises now l b a s given idle busy retry =
    let no_idle : str_eq s "idle" ≡ false = ground (arith, eq_iff s "idle") in
    let no_busy : str_eq s "busy" ≡ false = ground (arith, eq_iff s "busy") in
    let no_retry : str_eq s "retry" ≡ false = ground (arith, eq_iff s "retry") in
    rw given (rw (no_idle, no_busy, no_retry) refl)
