-- ===== src/Opendeck/Adapter/Outcomes.antt =====
-- opendeck-broker/opendeck_broker/opencode/adapter.py: what `refresh` leaves of one launch, and that the
-- rounds for the others leave it so.
use home_ailab.Prelude.{ℕ, ◌≡◌, ◌≢◌, ◌∙◌, String, Bool, true, false, none, some, Dict, lookup, has}
use home_ailab.Opendeck.Objects.{Ref}
use home_ailab.Opendeck.Observe.{SessionState}
use home_ailab.Opendeck.Adapter.{Launch, Adapter}
use home_ailab.Opendeck.Adapter.Coherence.{Round}
use home_ailab.Opendeck.Adapter.Written.{state_for, refreshed}

-- What `refresh` leaves of a launch that it found under `k`. If its process lives, it is still
-- there, the registry has it and saw it at that time, and its object has what the states say of its
-- directory; else the launch and the instance are gone.
abbrev pub Outcome :
    ℕ → Dict SessionState → Bool → Bool → String → Launch → Adapter → Adapter → Type 0
Outcome now states trusted true k l a q =
    (lookup k q.launches ≡ some l)
    × (lookup k q.registry.instances ≡ some l.instance_ref)
    × (lookup k q.registry.last_seen ≡ some now)
    × ((n : ℕ) × (q.registry.objects l.instance_ref
          ≡ refreshed (state_for states l) (has k a.registry.instances) trusted n
              (a.registry.objects l.instance_ref)))
Outcome now states trusted false k l a q =
    (lookup k q.launches ≡ none) × (lookup k q.registry.instances ≡ none)

-- a launch that no later round is for
pub Outcome-later :
    (now : ℕ) (states : Dict SessionState) (trusted lives : Bool) (k j : String) (l : Launch)
    (ref : Ref) (a p q : Adapter)
    → Outcome now states trusted lives k l a p
    → Round j ref p q
    → j ≢ k
    → ref ≢ l.instance_ref
    → Outcome now states trusted lives k l a q
Outcome-later now states trusted true k j l ref a p q h round other apart =
    let (launch, entry, seen, (n, object)) = h in
    (
      round.launches k other ∙ launch,
      (round.agree k other).instances ∙ entry,
      (round.agree k other).last_seen ∙ seen,
      (n, round.objects l.instance_ref apart ∙ object),
    )
Outcome-later now states trusted false k j l ref a p q h round other apart =
    (round.launches k other ∙ h.0, (round.agree k other).instances ∙ h.1)

-- a launch that no earlier round was for
pub Outcome-earlier :
    (now : ℕ) (states : Dict SessionState) (trusted lives : Bool) (k j : String) (l : Launch)
    (ref : Ref) (a p q : Adapter)
    → Round j ref a p
    → j ≢ k
    → ref ≢ l.instance_ref
    → Outcome now states trusted lives k l p q
    → Outcome now states trusted lives k l a q
Outcome-earlier now states trusted true k j l ref a p q round other apart h =
    let (launch, entry, seen, (n, object)) = h in
    (
      launch,
      entry,
      seen,
      (n, rw ((round.agree k other).instances, round.objects l.instance_ref apart) at object),
    )
Outcome-earlier now states trusted false k j l ref a p q round other apart h = h
