-- ===== src/Opendeck/Adapter/Displays.antt =====
-- opendeck-broker/opendeck_broker/opencode/adapter.py: what `refresh` means for the keys and for the
-- lease sweep.
use home_ailab.Prelude.{
  ℕ, ◌+◌, ◌≤◌, ◌≡◌, refl, ap, ◌∙◌, String, Bool, true, false, ◌||◌, Option, none, some, Result, ok,
  raise, Dict, lookup, has, Returns, Returns-weaken, arith, nonempty, if◌then◌else◌, ltb, [],
}
use home_ailab.Opendeck.Model.{
  Instance, Process, Status, DisplayAppearance, display_of, set_status, is_busy, is_running,
  has_pending_input,
}
use home_ailab.Opendeck.Registry.{expire}
use home_ailab.Opendeck.Observe.{SessionState}
use home_ailab.Opendeck.Adapter.{Launch, Adapter, observe, observed, refresh}
use home_ailab.Opendeck.Adapter.Coherence.{IsCoherent}
use home_ailab.Opendeck.Adapter.Written.{state_for, refreshed}
use home_ailab.Opendeck.Adapter.Outcomes.{Outcome}
use home_ailab.Opendeck.Adapter.Refreshing.{process_of, refresh-Outcome}

abbrev status_appearance : Status → DisplayAppearance
status_appearance Status.idle = DisplayAppearance.idle
status_appearance Status.busy = DisplayAppearance.run
status_appearance Status.retry = DisplayAppearance.run

-- What a directory's state should look like on a key.
abbrev pub state_appearance : Option SessionState → DisplayAppearance
state_appearance none = DisplayAppearance.idle
state_appearance (some st) =
    if nonempty st.pending_questions || nonempty st.pending_permissions
    then DisplayAppearance.input
    else status_appearance st.status

-- The appearance that a key should have: unknown if the observer raised.
abbrev pub expected : Result (Dict SessionState) → Launch → DisplayAppearance
expected (ok states) l = state_appearance (state_for states l)
expected (raise e) l = DisplayAppearance.unknown

raised_display :
    (st : Option SessionState) (n : ℕ) (i : Instance)
    → i.live ≡ true
    → display_of (refreshed st true false n i) ≡ DisplayAppearance.unknown
unfolding display_of observe set_status
raised_display none n i live = rw live refl
raised_display (some st) n i live = rw live refl

status_display :
    (s : Status)
    → (if is_running s then DisplayAppearance.run else DisplayAppearance.idle) ≡ status_appearance s
status_display Status.idle = refl
status_display Status.busy = refl
status_display Status.retry = refl

observed_display :
    (st : Option SessionState) (n : ℕ) (i : Instance)
    → i.live ≡ true
    → display_of (refreshed st true true n i) ≡ state_appearance st
unfolding display_of observe set_status is_busy has_pending_input
observed_display none n i live = rw live refl
observed_display (some st) n i live =
    rw live (pending (nonempty st.pending_questions) (nonempty st.pending_permissions))
  where
    pending :
        (q p : Bool)
        → (if p || q
            then DisplayAppearance.input
            else if is_running st.status
            then DisplayAppearance.run
            else DisplayAppearance.idle)
          ≡ (if q || p then DisplayAppearance.input else status_appearance st.status)
    pending true true = refl
    pending true false = refl
    pending false true = refl
    pending false false = status_display st.status

refreshed_display :
    (snapshot : Result (Dict SessionState)) (l : Launch) (n : ℕ) (i : Instance)
    → i.live ≡ true
    → display_of (refreshed (state_for (observed snapshot).0 l) true (observed snapshot).1 n i)
      ≡ expected snapshot l
refreshed_display (raise e) l n i live = raised_display (state_for [] l) n i live
refreshed_display (ok states) l n i live = observed_display (state_for states l) n i live

-- Where asking for a process always answers: after `refresh` a launch whose process lives and whose
-- instance was registered has the appearance of what was read for its directory: unknown if the
-- observer raised, idle without a session, input if a request is pending, and else run or idle by
-- the session's status.
pub refresh-display :
    (now : ℕ) (snapshot : Result (Dict SessionState)) (alive : Process → Result Bool)
    (lives : Process → Bool) (a : Adapter) (k : String) (l : Launch)
    → ((p : Process) → alive p ≡ ok (lives p))
    → IsCoherent a
    → lookup k a.launches ≡ some l
    → has k a.registry.instances ≡ true
    → lives (process_of l a) ≡ true
    → Returns
        (λ q. display_of (q.registry.objects l.instance_ref) ≡ expected snapshot l)
        (refresh now snapshot alive a)
refresh-display now snapshot alive lives a k l decides c at known live =
    Returns-weaken _ _ (refresh now snapshot alive a) (λ q h. shown q (rw live at h.1))
      (refresh-Outcome now snapshot alive lives a k l decides c at)
  where
    shown :
        (q : Adapter)
        → Outcome now (observed snapshot).0 (observed snapshot).1 true k l a q
        → display_of (q.registry.objects l.instance_ref) ≡ expected snapshot l
    shown q (launch, entry, seen, (n, object)) =
        ap display_of object
        ∙ rw known (
            refreshed_display snapshot l n (a.registry.objects l.instance_ref)
              (c.linked k l at).is_live)

-- Where asking for a process always answers: after `refresh` no lease of a launch whose process lives
-- has run out, so a sweep up to the length of the lease later does not expire it, whether a heartbeat
-- was ever sent or not.
pub refresh-renews :
    (now at lease : ℕ) (snapshot : Result (Dict SessionState)) (alive : Process → Result Bool)
    (lives : Process → Bool) (a : Adapter) (k : String) (l : Launch)
    → ((p : Process) → alive p ≡ ok (lives p))
    → IsCoherent a
    → lookup k a.launches ≡ some l
    → lives (process_of l a) ≡ true
    → at ≤ now + lease
    → Returns
        (λ q. expire lease at k q.registry ≡ ok (q.registry, false))
        (refresh now snapshot alive a)
unfolding expire
refresh-renews now at lease snapshot alive lives a k l decides c here live late =
    Returns-weaken _ _ (refresh now snapshot alive a) (λ q h. renewed q (rw live at h.1))
      (refresh-Outcome now snapshot alive lives a k l decides c here)
  where
    renewed :
        (q : Adapter)
        → Outcome now (observed snapshot).0 (observed snapshot).1 true k l a q
        → expire lease at k q.registry ≡ ok (q.registry, false)
    renewed q (launch, entry, seen, rest) =
        let early : ltb (now + lease) at ≡ false = ground arith in rw (seen, early, expire) refl
