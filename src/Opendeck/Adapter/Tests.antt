-- ===== src/Opendeck/Adapter/Tests.antt =====
-- opendeck-broker/opendeck_broker/opencode/adapter.py: the theorems at a concrete adapter, and tests.
use home_ailab.Prelude.{
  ◌≡◌, refl, Bool, true, false, [], ◌∷◌, Result, ok, raise, Dict, lookup, insert, erase, keys,
  values, Returns, Error, arith,
}
use home_ailab.Opendeck.Model.{Status, Process, DisplayAppearance, display_of, set_status}
use home_ailab.Opendeck.Objects.{update}
use home_ailab.Opendeck.Registry.{
  new_registry, register, accept_snapshot, expire, sweep_expired, heartbeat,
}
use home_ailab.Opendeck.Paths.{norm_dir}
use home_ailab.Opendeck.Observe.{SessionState}
use home_ailab.Opendeck.Adapter.{
  new_adapter, register_launch, refresh, detach_launch, beat, launch_marker,
}
use home_ailab.Opendeck.Adapter.Coherence.{IsCoherent}
use home_ailab.Opendeck.Adapter.Outcomes.{Outcome}
use home_ailab.Opendeck.Adapter.Refreshing.{refresh-Outcome}
use home_ailab.Opendeck.Adapter.Displays.{expected, refresh-display, refresh-renews}
use home_ailab.Opendeck.Samples.{start, launched, launch, launched_at, launched-IsCoherent}

program : Unit {0}
unfolding start launched new_adapter new_registry register_launch register refresh detach_launch
    beat accept_snapshot expire sweep_expired heartbeat lookup insert erase keys values update
    norm_dir display_of set_status launch_marker
program = tt

-- the process 7 lives
abbrev lives : Process → Bool
lives p = true

abbrev alive : Process → Result Bool
alive p = ok true

abbrev asking : SessionState
asking = record {
  directory = "C:/work";
  has_session = true;
  status = Status.busy;
  pending_questions = "q-s1-0" ∷ [];
  pending_permissions = [];
  session_id = "s1";
  title = "";
}

abbrev states : Dict SessionState
states = ("C:/work", asking) ∷ []

refresh-Outcome_example :
    Returns
      (λ q. IsCoherent q × Outcome 200 states true true "abcdef1234" launch launched q)
      (refresh 200 (ok states) alive launched)
refresh-Outcome_example =
    refresh-Outcome 200 (ok states) alive lives launched "abcdef1234" launch (λ p. refl)
      launched-IsCoherent launched_at

refresh-display_example :
    Returns
      (λ q. display_of (q.registry.objects 0) ≡ DisplayAppearance.input)
      (refresh 200 (ok states) alive launched)
unfolding program
refresh-display_example =
    refresh-display 200 (ok states) alive lives launched "abcdef1234" launch (λ p. refl)
      launched-IsCoherent launched_at refl refl

refresh-renews_example :
    Returns
      (λ q. expire 15 215 "abcdef1234" q.registry ≡ ok (q.registry, false))
      (refresh 200 (ok states) alive launched)
refresh-renews_example =
    refresh-renews 200 215 15 (ok states) alive lives launched "abcdef1234" launch (λ p. refl)
      launched-IsCoherent launched_at refl (omega arith)

-- the key of a terminal whose database cannot be read
raised_display : expected (raise Error.os_error) launch ≡ DisplayAppearance.unknown
raised_display = refl
