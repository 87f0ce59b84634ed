-- ===== src/Deck/Registry/Runs.antt =====
-- opencode-deck/opencode-deck/ocdeck/model.py, class Registry: any sequence of calls, and the presses
-- that it outdates.
use home_ailab.Prelude.{
  ℕ, ◌≡◌, ◌∙◌, ap, sym, inl, inr, String, Option, none, some, List, [], ◌∷◌, Result, ok, raise,
  Error, Dict, get_elem?, arith, eq_iff, str_eq, Returns, Returns-weaken, Bool-cases, if◌then◌else◌,
  pos, from_option, ltb, ◌==◌, ◌&&◌, ◌>>=◌,
}
use home_ailab.Deck.Agents.{Agent, Registry, Probe, Registration, new_registry, slot_count}
use home_ailab.Deck.Registry.{Snapshot, upsert, snapshot}
use home_ailab.Deck.Registry.Removing.{remove, sweep}
use home_ailab.Deck.Registry.Views.{
  same_key, is_generation, resolve, resolve_slot, resolve_agent, lookup_opt,
}
use home_ailab.Deck.Registry.Placing.{
  IsValid, Aged, Aged-refl, Aged-trans, generation_at, or_zero, new_registry-IsValid,
}
use home_ailab.Deck.Registry.Entering.{Kept, upsert-Kept, snapshot-Kept}
use home_ailab.Deck.Registry.Departing.{Removed, remove-Removed}
use home_ailab.Deck.Registry.Sweeping.{sweep-Swept}

pub data Call : Type 0 where
  enrol : Registration → Call
  report : String → Snapshot → Call
  leave : String → Call
  clean : Call

-- a call that raises leaves the registry as it was: `upsert` and `snapshot` raise before they write
abbrev after {ℓ} : {A : Type ℓ} → Registry → Result (Registry × A) → Registry
after r (ok p) = p.0
after r (raise e) = r

abbrev after_removal : Registry → Result Registry → Registry
after_removal r (ok q) = q
after_removal r (raise e) = r

-- a call at a time, with what the processes of the machine are then
unfoldable pub apply : ℕ → Probe → Call → Registry → Registry
apply now probe (enrol body) r = after r (upsert probe now body r)
apply now probe (report key body) r = after r (snapshot now key body r)
apply now probe (leave key) r = after_removal r (remove key r)
apply now probe clean r = after_removal r (sweep probe r)

abbrev pub History : Type 0
History = List (ℕ × Probe × Call)

unfoldable pub replay : History → Registry → Registry
unfolding apply
replay [] r = r
replay ((now, probe, c) ∷ calls) r = replay calls (apply now probe c r)

after-Kept {ℓ} :
    {A : Type ℓ} (r : Registry) (m : Result (Registry × A))
    → IsValid r
    → Kept r m
    → IsValid (after r m) × Aged r (after r m)
after-Kept r (ok p) v h = h
after-Kept r (raise e) v h = (v, Aged-refl r)

after_removal-Kept :
    (r : Registry) (m : Result Registry)
    → Returns (λ q. IsValid q × Aged r q) m
    → IsValid (after_removal r m) × Aged r (after_removal r m)
after_removal-Kept r (ok q) h = h
after_removal-Kept r (raise e) h = absurd h

apply-Kept :
    (now : ℕ) (probe : Probe) (c : Call) (r : Registry)
    → IsValid r
    → IsValid (apply now probe c r) × Aged r (apply now probe c r)
unfolding apply
apply-Kept now probe (enrol body) r v = after-Kept r _ v (upsert-Kept probe now body r v)
apply-Kept now probe (report key body) r v = after-Kept r _ v (snapshot-Kept now key body r v)
apply-Kept now probe (leave key) r v = after_removal-Kept r (remove key r) (
    Returns-weaken (Removed key r) _ (remove key r) (λ q h. (h.valid, h.aged))
      (remove-Removed key r v))
apply-Kept now probe clean r v =
    after_removal-Kept r (sweep probe r)
      (Returns-weaken _ _ (sweep probe r) (λ q h. (h.0, h.1)) (sweep-Swept probe r v))

pub replay-Kept :
    (calls : History) (r : Registry)
    → IsValid r
    → IsValid (replay calls r) × Aged r (replay calls r)
unfolding replay
replay-Kept [] r v = (v, Aged-refl r)
replay-Kept ((now, probe, c) ∷ calls) r v =
    let h = apply-Kept now probe c r v in
    let k = replay-Kept calls (apply now probe c r) h.0 in
    (k.0, Aged-trans r (apply now probe c r) (replay calls (apply now probe c r)) h.1 k.1)

-- After any sequence of calls from a new registry, whatever the processes of the machine do, the slots
-- and the agents' slots are inverse to each other, and an agent waits only while no slot is free.
pub replay-IsValid : (calls : History) → IsValid (replay calls new_registry)
replay-IsValid calls = (replay-Kept calls new_registry new_registry-IsValid).0

-- what the tests of `resolve` say, if it found an agent
found_at :
    (probe : Probe) (g : ℕ) (key : String) (records : Dict Agent) (a : Agent)
    (o : Option (Option String)) (n : Option ℕ)
    → (do
      k ← from_option Error.index_error o
      m ← from_option Error.index_error n
      ok (
          if same_key k (some key) && is_generation (some g) m
          then resolve_agent probe (lookup_opt (some key) records)
          else none))
      ≡ ok (some a)
    → (o ≡ some (some key)) × (n ≡ some g)
found_at probe g key records a none n h = cc
found_at probe g key records a (some k) none h = cc
found_at probe g key records a (some none) (some m) h = cc
found_at probe g key records a (some (some k)) (some m) h =
    elim (Bool-cases (str_eq k key && g == m)) [
      | inl right ↦ ground (arith, eq_iff k key)
      | inr wrong ↦ absurd (nothing (rw wrong at h))
    ]
  where
    nothing : ok none ≡ ok (some a) → ⊥
    nothing e = cc

resolved_slot :
    (probe : Probe) (i g : ℕ) (key : String) (r : Registry) (a : Agent)
    → resolve probe (some (pos i)) (some g) (some key) r ≡ ok (some a)
    → (get_elem? r.slots i ≡ some (some key)) × (get_elem? r.generations i ≡ some g)
unfolding resolve resolve_slot
resolved_slot probe i g key r a h = elim (Bool-cases (ltb i slot_count)) [
  | inl inside ↦
      found_at probe g key r.records a (get_elem? r.slots i) (get_elem? r.generations i)
        (rw inside at h)
  | inr outside ↦ absurd (nothing (rw outside at h))
]
  where
    nothing : ok none ≡ ok (some a) → ⊥
    nothing e = cc

-- A press on slot `i` that was captured with the slot's generation and that resolves to an agent
-- after any further calls names the agent that held the slot when the press was captured: a press
-- never reaches an agent that took the slot in between.
pub press_held :
    (probe : Probe) (before between : History) (r : Registry) (i : ℕ) (key : String) (a : Agent)
    → IsValid r
    → resolve probe
        (some (pos i))
        (some (generation_at i r))
        (some key)
        (replay between (replay before r))
      ≡ ok (some a)
    → get_elem? (replay before r).slots i ≡ some (some key)
press_held probe before between r i key a v h =
    let s = replay before r in
    let q = replay between s in
    let first = replay-Kept before r v in
    let second = replay-Kept between s first.0 in
    let found = resolved_slot probe i (generation_at i r) key q a h in
    let same : generation_at i q ≡ generation_at i r = ap or_zero found.1 in
    let held : generation_at i s ≡ generation_at i q =
      omega (arith, same, (first.1 i).0, (second.1 i).0) in
    sym ((second.1 i).1 held) ∙ found.0
