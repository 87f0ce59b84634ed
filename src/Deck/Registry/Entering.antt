-- ===== src/Deck/Registry/Entering.antt =====
-- opencode-deck/opencode-deck/ocdeck/model.py, class Registry: registrations and snapshots keep the
-- registry valid.
use home_ailab.Prelude.{
  ℕ, ◌≡◌, refl, inl, inr, String, Bool, true, false, Option, none, some, Result, ok, raise, lookup,
  Bool-cases, contains, pos, le_ℤ, ◌>>=◌,
}
use home_ailab.Deck.Agents.{Agent, Registry, Registration, ProcessId, Probe, says, default}
use home_ailab.Deck.Registry.{
  Snapshot, new_agent, first_free, enter, enter_process, admit, is_same_process, greet, upsert,
  upsert_at, is_key, Report, check_snapshot, report, report_to, same_producer, switch_producer,
  take_snapshot, snapshot,
}
use home_ailab.Deck.Registry.Placing.{IsValid, Aged, Aged-refl, Found, first_free-Found}
use home_ailab.Deck.Registry.Arriving.{replaced-IsValid, enter-Entered}

-- What a call may leave: a valid registry in which the slots aged, or the registry as it was.
abbrev pub Kept {ℓ} : {A : Type ℓ} → Registry → Result (Registry × A) → Type 0
Kept r (ok p) = IsValid p.0 × Aged r p.0
Kept r (raise e) = Unit

admit-Kept :
    (b : Bool) (key : String) (a : Agent) (r : Registry)
    → IsValid r
    → lookup key r.records ≡ none
    → Found r.slots 0 a.slot
    → a.id ≡ key
    → Kept r (admit b key a r)
unfolding admit
admit-Kept false key a r v new found id = tt
admit-Kept true key a r v new found id =
    let (q, (run, kept)) = enter-Entered key a a.slot r v new found refl id in rw run kept

enter_process-Kept :
    (p : Option ProcessId) (probe : Probe) (now : ℕ) (key : String) (body : Registration)
    (r : Registry)
    → IsValid r
    → lookup key r.records ≡ none
    → Kept r (enter_process p probe now key body r)
unfolding enter_process new_agent
enter_process-Kept none probe now key body r v new = tt
enter_process-Kept (some process) probe now key body r v new =
    admit-Kept (says true (probe process)) key
      (new_agent now key process (first_free 0 r.slots) body) r v new (first_free-Found 0 r.slots)
      refl

greet-Kept :
    (now : ℕ) (key : String) (body : Registration) (a : Agent) (r : Registry)
    → IsValid r
    → lookup key r.records ≡ some a
    → Kept r (greet now key body a r)
unfolding greet
greet-Kept now key body a r v at = elim (Bool-cases (is_same_process body.process a.process)) [
  | inl same ↦
      rw same (replaced-IsValid key a (record a { last_seen = now }) r v at refl refl, Aged-refl r)
  | inr other ↦ rw other tt
]

upsert_at-Kept :
    (o : Option Agent) (probe : Probe) (now : ℕ) (key : String) (body : Registration) (r : Registry)
    → IsValid r
    → lookup key r.records ≡ o
    → Kept r (upsert_at o probe now key body r)
unfolding upsert_at enter
upsert_at-Kept none probe now key body r v at =
    enter_process-Kept body.process probe now key body r v at
upsert_at-Kept (some a) probe now key body r v at = greet-Kept now key body a r v at

-- Registering raises and writes nothing, or keeps the registry valid, and no slot changes hands
-- under one generation.
pub upsert-Kept :
    (probe : Probe) (now : ℕ) (body : Registration) (r : Registry)
    → IsValid r
    → Kept r (upsert probe now body r)
unfolding upsert
upsert-Kept probe now body r v =
    let key = default "" body.id in
    elim (Bool-cases (is_key key)) [
      | inr bad ↦ rw bad tt
      | inl fine ↦ rw fine (upsert_at-Kept (lookup key r.records) probe now key body r v refl)
    ]

-- what a snapshot leaves of the agent's place
switch_same :
    (producer : String) (a : Agent)
    → ((switch_producer producer a).slot ≡ a.slot) × ((switch_producer producer a).id ≡ a.id)
unfolding switch_producer
switch_same producer a = elim (Bool-cases (same_producer a.producer producer)) [
  | inl same ↦ rw (same, switch_producer) (refl, refl)
  | inr other ↦ rw (other, switch_producer) (refl, refl)
]

take_same :
    (now : ℕ) (p : Report) (a : Agent)
    → ((take_snapshot now p.seq p.producer p.status p.pending p.detail a).0.slot ≡ a.slot)
      × ((take_snapshot now p.seq p.producer p.status p.pending p.detail a).0.id ≡ a.id)
unfolding take_snapshot
take_same now p a = elim (Bool-cases (contains p.producer a.retired)) [
  | inl retired ↦ rw (retired, take_snapshot) (refl, refl)
  | inr fresh ↦ elim (Bool-cases (le_ℤ (pos p.seq) (switch_producer p.producer a).seq)) [
    | inl old ↦ rw (fresh, old, take_snapshot) (switch_same p.producer a)
    | inr new ↦ rw (fresh, new, take_snapshot) (switch_same p.producer a)
  ]
]

report-Kept :
    (now : ℕ) (key : String) (p : Report) (o : Option Agent) (r : Registry)
    → IsValid r
    → lookup key r.records ≡ o
    → Kept r (report now key p o r)
unfolding report report_to
report-Kept now key p none r v at = tt
report-Kept now key p (some a) r v at =
    let same = take_same now p a in (replaced-IsValid key a _ r v at same.0 same.1, Aged-refl r)

-- So does a snapshot.
pub snapshot-Kept :
    (now : ℕ) (key : String) (body : Snapshot) (r : Registry)
    → IsValid r
    → Kept r (snapshot now key body r)
unfolding snapshot
snapshot-Kept now key body r v = checked (check_snapshot body)
  where
    checked : (m : Result Report) → Kept r (m >>= λ p. report now key p (lookup key r.records) r)
    checked (ok p) = report-Kept now key p (lookup key r.records) r v refl
    checked (raise e) = tt
