-- ===== src/Opendeck/Adapter/Refreshing.antt =====
-- opendeck-broker/opendeck_broker/opencode/adapter.py: `refresh` for all launches.
use home_ailab.Prelude.{
  ℕ, ◌+◌, ◌≡◌, ◌≢◌, refl, sym, ap, ◌∙◌, inl, inr, String, Bool, true, false, some, List, [], ◌∷◌,
  Result, ok, Dict, lookup, keys, values, IsUnique, contains, contains-keys, Returns, Returns-and,
  Returns-bind, Returns-weaken, Bool-cases, arith, str_eq, eq_iff, eq_refl,
}
use home_ailab.Opendeck.Model.{Process}
use home_ailab.Opendeck.Objects.{Ref}
use home_ailab.Opendeck.Registry.Placing.{id_of}
use home_ailab.Opendeck.Observe.{SessionState}
use home_ailab.Opendeck.Adapter.{
  Launch, Adapter, observed, push, refresh_launch, refresh_all, refresh,
}
use home_ailab.Opendeck.Adapter.Coherence.{IsLinked, IsCoherent, Round}
use home_ailab.Opendeck.Adapter.Ended.{Dropped, mark_dead-Dropped}
use home_ailab.Opendeck.Adapter.Rounds.{Pushed, push-Pushed}
use home_ailab.Opendeck.Adapter.Outcomes.{Outcome, Outcome-later, Outcome-earlier}

-- launches of the adapter, each under its id
abbrev AllHere : List Launch → Adapter → Type 0
AllHere [] a = Unit
AllHere (m ∷ ms) a = (lookup m.instance_id a.launches ≡ some m) × AllHere ms a

abbrev ids_of : List Launch → List String
ids_of [] = []
ids_of (m ∷ ms) = m.instance_id ∷ ids_of ms

-- the process of a launch
abbrev pub process_of : Launch → Adapter → Process
process_of l a = (a.registry.objects l.instance_ref).process

module _ (now : ℕ) (states : Dict SessionState) (trusted : Bool) (alive : Process → Result Bool)
    (lives : Process → Bool) (decides : (p : Process) → alive p ≡ ok (lives p)) where
  record Step (m : Launch) (a q : Adapter) : Type 0 where
    round : Round m.instance_id m.instance_ref a q
    coherent : IsCoherent q
    outcome : Outcome now states trusted (lives (process_of m a)) m.instance_id m a q

  -- the two ways of a round, under the key of the launch
  Pushed-Step :
      (m : Launch) (a q : Adapter)
      → id_of m.instance_ref a.registry ≡ m.instance_id
      → lookup m.instance_id a.launches ≡ some m
      → lives (process_of m a) ≡ true
      → Pushed now states trusted m a q
      → Step m a q
  Pushed-Step m a q own at live p = record {
    round = rw (← own) p.round;
    coherent = p.coherent;
    outcome = rw live (
      ap (λ d. lookup m.instance_id d) p.launches ∙ at,
      rw (← own) p.entry,
      rw (← own) p.seen,
      (a.seq + 1, rw (← own) p.object),
    );
  }

  Dropped-Step :
      (m : Launch) (a q : Adapter)
      → id_of m.instance_ref a.registry ≡ m.instance_id
      → lives (process_of m a) ≡ false
      → Dropped m a q
      → Step m a q
  Dropped-Step m a q own ended d = record {
    round = rw (← own) d.round;
    coherent = d.coherent;
    outcome = rw ended (rw (← own) (d.launch, d.instance));
  }

  refresh_launch-Step :
      (m : Launch) (a : Adapter)
      → IsCoherent a
      → lookup m.instance_id a.launches ≡ some m
      → Returns (λ q. Step m a q) (refresh_launch now states trusted alive m a)
  unfolding refresh_launch
  refresh_launch-Step m a c at =
      let own : id_of m.instance_ref a.registry ≡ m.instance_id =
        (c.linked m.instance_id m at).known in
      elim (Bool-cases (lives (process_of m a))) [
        | inl live ↦
            rw (decides (process_of m a), live)
              (Returns-weaken (λ q. Pushed now states trusted m a q) (λ q. Step m a q)
                (push now states trusted m a) (λ q p. Pushed-Step m a q own at live p)
                (push-Pushed now states trusted m c (rw own (c.linked m.instance_id m at))
                  (rw own at)))
        | inr ended ↦
            rw (decides (process_of m a), ended)
              (Returns-bind (λ p. Dropped m a p.0) (λ q. Step m a q) _ _
                (rw own at (mark_dead-Dropped m a c)) (λ p d. Dropped-Step m a p.0 own ended d))
      ]

  AllHere-later :
      (k : String) (ref : Ref) (a q : Adapter) (ms : List Launch)
      → Round k ref a q
      → contains k (ids_of ms) ≡ false
      → AllHere ms a
      → AllHere ms q
  unfolding contains
  AllHere-later k ref a q [] round away here = tt
  AllHere-later k ref a q (m ∷ ms) round away here =
      let other : k ≢ m.instance_id = ground (arith, eq_iff m.instance_id k) in
      let rest : contains k (ids_of ms) ≡ false = ground arith in
      (round.launches m.instance_id other ∙ here.0, AllHere-later k ref a q ms round rest here.1)

  -- The rounds for other launches leave the outcome of a launch as it is.
  refresh_all-keeps :
      (ms : List Launch) (b : Bool) (k : String) (l : Launch) (a p : Adapter)
      → IsCoherent p
      → AllHere ms p
      → IsUnique (ids_of ms)
      → contains k (ids_of ms) ≡ false
      → id_of l.instance_ref p.registry ≡ k
      → Outcome now states trusted b k l a p
      → Returns
          (λ q. Outcome now states trusted b k l a q)
          (refresh_all now states trusted alive ms p)
  unfolding refresh_all contains
  refresh_all-keeps [] b k l a p c here u away own h = h
  refresh_all-keeps (m ∷ ms) b k l a p c here u away own h =
      let other : m.instance_id ≢ k = ground (arith, eq_iff m.instance_id k) in
      let rest : contains k (ids_of ms) ≡ false = ground arith in
      Returns-bind (λ p'. Step m p p') _ (refresh_launch now states trusted alive m p) _
        (refresh_launch-Step m p c here.0)
        (λ p' s.
          refresh_all-keeps ms b k l a p' s.coherent
            (AllHere-later m.instance_id m.instance_ref p p' ms s.round u.0 here.1) u.1 rest
            (s.round.ids l.instance_ref ∙ own)
            (Outcome-later now states trusted b k m.instance_id l m.instance_ref a p p' h s.round
              other
              (λ e. other (
                sym (c.linked m.instance_id m here.0).known
                ∙ ap (λ x. id_of x p.registry) e
                ∙ own))))

  -- Every launch of the list has its outcome, and the adapter stays coherent.
  refresh_all-Outcome :
      (ms : List Launch) (k : String) (l : Launch) (a : Adapter)
      → IsCoherent a
      → AllHere ms a
      → IsUnique (ids_of ms)
      → lookup k a.launches ≡ some l
      → contains k (ids_of ms) ≡ true
      → Returns
          (λ q. Outcome now states trusted (lives (process_of l a)) k l a q)
          (refresh_all now states trusted alive ms a)
  unfolding refresh_all contains
  refresh_all-Outcome [] k l a c here u at among = cc
  refresh_all-Outcome (m ∷ ms) k l a c here u at among =
      Returns-bind (λ p. Step m a p) _ (refresh_launch now states trusted alive m a) _
        (refresh_launch-Step m a c here.0)
        (λ p s. elim (Bool-cases (str_eq m.instance_id k)) [
          | inl own ↦
              let e : m.instance_id ≡ k = (eq_iff m.instance_id k).0 own in
              let f : m ≡ l = ground (arith, at, here.0) in
              rw (← e, ← f)
                (refresh_all-keeps ms (lives (process_of m a)) m.instance_id m a p s.coherent
                  (AllHere-later m.instance_id m.instance_ref a p ms s.round u.0 here.1) u.1 u.0
                  (s.round.ids m.instance_ref ∙ (c.linked m.instance_id m here.0).known) s.outcome)
          | inr other ↦
              let away : m.instance_id ≢ k = ground (arith, eq_iff m.instance_id k) in
              let apart : m.instance_ref ≢ l.instance_ref = λ e. away (
                sym (c.linked m.instance_id m here.0).known
                ∙ ap (λ x. id_of x a.registry) e
                ∙ (c.linked k l at).known) in
              let same : process_of l p ≡ process_of l a =
                ap (λ i. i.process) (s.round.objects l.instance_ref apart) in
              Returns-weaken (λ q. Outcome now states trusted (lives (process_of l p)) k l p q) _
                (refresh_all now states trusted alive ms p)
                (λ q h.
                  Outcome-earlier now states trusted (lives (process_of l a)) k m.instance_id l
                    m.instance_ref a p q s.round away apart (rw same at h))
                (refresh_all-Outcome ms k l p s.coherent
                  (AllHere-later m.instance_id m.instance_ref a p ms s.round u.0 here.1) u.1
                  (s.round.launches k away ∙ at) (ground (arith, among, other)))
        ])

  refresh_all-IsCoherent :
      (ms : List Launch) (a : Adapter)
      → IsCoherent a
      → AllHere ms a
      → IsUnique (ids_of ms)
      → Returns IsCoherent (refresh_all now states trusted alive ms a)
  unfolding refresh_all
  refresh_all-IsCoherent [] a c here u = c
  refresh_all-IsCoherent (m ∷ ms) a c here u =
      Returns-bind (λ p. Step m a p) _ (refresh_launch now states trusted alive m a) _
        (refresh_launch-Step m a c here.0)
        (λ p s.
          refresh_all-IsCoherent ms p s.coherent
            (AllHere-later m.instance_id m.instance_ref a p ms s.round u.0 here.1) u.1)

-- the launches of a coherent adapter, as `refresh` lists them
entries_here :
    (ms : Dict Launch) (a : Adapter)
    → ((k : String) (l : Launch) → lookup k a.launches ≡ some l → IsLinked a k l)
    → ((k : String) (l : Launch) → lookup k ms ≡ some l → lookup k a.launches ≡ some l)
    → IsUnique (keys ms)
    → (ids_of (values ms) ≡ keys ms) × AllHere (values ms) a
unfolding keys values lookup contains
entries_here [] a linked from u = (refl, tt)
entries_here ((k, l) ∷ ms) a linked from u =
    let at : lookup k a.launches ≡ some l = from k l (rw (eq_refl k) refl) in
    let named = (linked k l at).named in
    let rest =
      entries_here ms a linked
        (λ j m there. from j m (ground (arith, eq_iff k j, contains-keys k ms, u.0, there))) u.1 in
    (rw (named, rest.0) refl, (ap (λ x. lookup x a.launches) named ∙ at, rest.1))

-- Where asking for a process always answers, `refresh` raises nothing, whatever the observer gives or
-- raises, keeps the adapter coherent, and leaves of every launch what `Outcome` says: a launch whose
-- process has ended is gone with its instance, and one whose process lives is known to the registry,
-- was seen at that time, and has what was observed of its directory.
pub refresh-Outcome :
    (now : ℕ) (snapshot : Result (Dict SessionState)) (alive : Process → Result Bool)
    (lives : Process → Bool) (a : Adapter) (k : String) (l : Launch)
    → ((p : Process) → alive p ≡ ok (lives p))
    → IsCoherent a
    → lookup k a.launches ≡ some l
    → Returns
        (λ q.
          IsCoherent q
          × Outcome now
              (observed snapshot).0
              (observed snapshot).1
              (lives (process_of l a))
              k
              l
              a
              q)
        (refresh now snapshot alive a)
unfolding refresh
refresh-Outcome now snapshot alive lives a k l decides c at =
    let entries = entries_here a.launches a c.linked (λ j m e. e) c.unique in
    let u : IsUnique (ids_of (values a.launches)) = rw entries.0 c.unique in
    Returns-and IsCoherent _
      (refresh_all now (observed snapshot).0 (observed snapshot).1 alive (values a.launches) a)
      (refresh_all-IsCoherent now (observed snapshot).0 (observed snapshot).1 alive lives decides
        (values a.launches) a c entries.1 u)
      (refresh_all-Outcome now (observed snapshot).0 (observed snapshot).1 alive lives decides
        (values a.launches) k l a c entries.1 u at
        (rw entries.0 (contains-keys k a.launches ∙ rw at refl)))

-- `refresh` keeps the adapter coherent, whatever launches it has.
pub refresh-IsCoherent :
    (now : ℕ) (snapshot : Result (Dict SessionState)) (alive : Process → Result Bool)
    (lives : Process → Bool) (a : Adapter)
    → ((p : Process) → alive p ≡ ok (lives p))
    → IsCoherent a
    → Returns IsCoherent (refresh now snapshot alive a)
unfolding refresh
refresh-IsCoherent now snapshot alive lives a decides c =
    let entries = entries_here a.launches a c.linked (λ j m e. e) c.unique in
    refresh_all-IsCoherent now (observed snapshot).0 (observed snapshot).1 alive lives decides
      (values a.launches) a c entries.1 (rw entries.0 c.unique)
