-- ===== src/Deck/Registry/Order.antt =====
-- opencode-deck/opencode-deck/ocdeck/model.py, class Registry: the order of the snapshots of an agent.
use home_ailab.Prelude.{
  ℕ, ◌≤◌, ◌≡◌, refl, ◌∙◌, ap, ◌⊎◌, inl, inr, String, Bool, true, false, Option, none, some, List,
  [], ◌∷◌, arith, eq_iff, eq_refl, contains, contains-append, Bool-cases, ℤ, pos, negsuc, le_ℤ,
  truthy, leb,
}
use home_ailab.Deck.Agents.{Agent}
use home_ailab.Deck.Registry.{Report, take_snapshot, switch_producer, same_producer, retire}

-- `take_snapshot` of a report
abbrev pub take : ℕ → Report → Agent → Agent × Bool
take now p a = take_snapshot now p.seq p.producer p.status p.pending p.detail a

-- what a report does to the order of an agent's snapshots
data Taken (p : Report) (a : Agent) : Agent × Bool → Type 0 where
  retired_one : contains p.producer a.retired ≡ true → Taken p a (a, false)
  old_one : a.producer ≡ some p.producer → le_ℤ (pos p.seq) a.seq ≡ true → Taken p a (a, false)
  next_one :
      (b : Agent)
      → contains p.producer a.retired ≡ false
      → a.producer ≡ some p.producer
      → le_ℤ (pos p.seq) a.seq ≡ false
      → b.producer ≡ a.producer
      → b.retired ≡ a.retired
      → b.seq ≡ pos p.seq
      → Taken p a (b, true)
  other_one :
      (b : Agent)
      → contains p.producer a.retired ≡ false
      → same_producer a.producer p.producer ≡ false
      → b.producer ≡ some p.producer
      → b.retired ≡ retire a.producer a.retired
      → b.seq ≡ pos p.seq
      → Taken p a (b, true)

same_producer-eq : (o : Option String) (p : String) → same_producer o p ≡ true → o ≡ some p
same_producer-eq none p h = cc
same_producer-eq (some q) p h = ap some ((eq_iff q p).0 h)

switch_same :
    (p : Report) (a : Agent)
    → same_producer a.producer p.producer ≡ true
    → switch_producer p.producer a ≡ a
unfolding switch_producer
switch_same p a same = rw (same, switch_producer) refl

switch_other :
    (p : Report) (a : Agent)
    → same_producer a.producer p.producer ≡ false
    → switch_producer p.producer a ≡ record a {
      retired = retire a.producer a.retired;
      producer = some p.producer;
      seq = negsuc 0;
    }
unfolding switch_producer
switch_other p a other = rw (other, switch_producer) refl

take-Taken : (now : ℕ) (p : Report) (a : Agent) → Taken p a (take now p a)
unfolding take_snapshot
take-Taken now p a = elim (Bool-cases (contains p.producer a.retired)) [
  | inl retired ↦ rw (retired, take_snapshot) (retired_one retired)
  | inr fresh ↦ elim (Bool-cases (same_producer a.producer p.producer)) [
    | inl same ↦
        let mine = same_producer-eq a.producer p.producer same in
        elim (Bool-cases (le_ℤ (pos p.seq) a.seq)) [
          | inl old ↦ rw (fresh, switch_same p a same, old, take_snapshot) (old_one mine old)
          | inr new ↦
              rw (fresh, switch_same p a same, new, take_snapshot)
                (next_one _ fresh mine new refl refl refl)
        ]
    | inr other ↦
        rw (fresh, switch_other p a other, take_snapshot) (other_one _ fresh other refl refl refl)
  ]
]

-- a later report has nothing to say: its producer was retired, or its number is not above the last
abbrev IsStale : Report → Agent → Type 0
IsStale p a =
    (contains p.producer a.retired ≡ true)
    ⊎ ((a.producer ≡ some p.producer) × (le_ℤ (pos p.seq) a.seq ≡ true))

stale_Taken :
    (p : Report) (a : Agent) (x : Agent × Bool) → IsStale p a → Taken p a x → x ≡ (a, false)
stale_Taken p a x h (retired_one retired) = refl
stale_Taken p a x h (old_one same old) = refl
stale_Taken p a x (inl retired) (next_one b fresh same new pr re sq) = cc
stale_Taken p a x (inr (mine, old)) (next_one b fresh same new pr re sq) = cc
stale_Taken p a x (inl retired) (other_one b fresh other pr re sq) = cc
stale_Taken p a x (inr (mine, old)) (other_one b fresh other pr re sq) =
    ground (arith, eq_refl p.producer)

-- the order of two numbers and a third
le_below : (m n : ℕ) (z : ℤ) → le_ℤ (pos m) z ≡ true → le_ℤ (pos n) z ≡ false → leb m n ≡ true
le_below m n (pos a) h k = ground arith
le_below m n (negsuc a) h k = cc

retire_keeps :
    (o : Option String) (p : String) (retired : List String)
    → contains p retired ≡ true
    → contains p (retire o retired) ≡ true
retire_keeps none p retired h = h
retire_keeps (some q) p retired h = elim (Bool-cases (truthy q)) [
  | inl named ↦ rw named (contains-append p retired (q ∷ []) ∙ rw h refl)
  | inr blank ↦ rw blank h
]

retire_own :
    (p : String) (retired : List String)
    → truthy p ≡ true
    → contains p (retire (some p) retired) ≡ true
unfolding contains
retire_own p retired named =
    rw named (contains-append p retired (p ∷ []) ∙ ground (arith, eq_refl p))

-- What is stale stays stale, whatever reports come.
IsStale-later :
    (p q : Report) (a : Agent) (x : Agent × Bool)
    → truthy p.producer ≡ true
    → IsStale p a
    → Taken q a x
    → IsStale p x.0
IsStale-later p q a x named h (retired_one retired) = h
IsStale-later p q a x named h (old_one same old) = h
IsStale-later p q a x named (inl gone) (next_one b fresh same new pr re sq) = inl (rw re gone)
IsStale-later p q a x named (inr (mine, old)) (next_one b fresh same new pr re sq) =
    inr (pr ∙ mine, rw sq (le_below p.seq q.seq a.seq old new))
IsStale-later p q a x named (inl gone) (other_one b fresh other pr re sq) =
    inl (rw re (retire_keeps a.producer p.producer a.retired gone))
IsStale-later p q a x named (inr (mine, old)) (other_one b fresh other pr re sq) =
    inl (rw (re, mine) (retire_own p.producer a.retired named))

-- A taken report is stale from then on, with every report of its producer that is not newer.
Taken-IsStale :
    (p q : Report) (a : Agent) (x : Agent × Bool)
    → q.producer ≡ p.producer
    → q.seq ≤ p.seq
    → x.1 ≡ true
    → Taken p a x
    → IsStale q x.0
Taken-IsStale p q a x same below t (retired_one retired) = cc
Taken-IsStale p q a x same below t (old_one mine old) = cc
Taken-IsStale p q a x same below t (next_one b fresh mine new pr re sq) =
    inr (rw (same, pr) mine, rw sq (ground arith))
Taken-IsStale p q a x same below t (other_one b fresh other pr re sq) =
    inr (rw (same, pr) refl, rw sq (ground arith))

-- the agent after a sequence of reports
unfoldable pub take_all : List (ℕ × Report) → Agent → Agent
take_all [] a = a
take_all ((now, p) ∷ reports) a = take_all reports (take now p a).0

IsStale-always :
    (reports : List (ℕ × Report)) (p : Report) (a : Agent)
    → truthy p.producer ≡ true
    → IsStale p a
    → IsStale p (take_all reports a)
unfolding take_all
IsStale-always [] p a named h = h
IsStale-always ((now, q) ∷ reports) p a named h =
    IsStale-always reports p (take now q a).0 named
      (IsStale-later p q a (take now q a) named h (take-Taken now q a))

-- Once a report of a producer is accepted, each report of that producer whose number is not higher is
-- rejected, whatever reports of whatever producers come between, and the rejection changes nothing of
-- the agent.
pub taken_once :
    (now later : ℕ) (p q : Report) (between : List (ℕ × Report)) (a : Agent)
    → truthy p.producer ≡ true
    → q.producer ≡ p.producer
    → q.seq ≤ p.seq
    → (take now p a).1 ≡ true
    → take later q (take_all between (take now p a).0) ≡ (take_all between (take now p a).0, false)
taken_once now later p q between a named same below accepted =
    let b = take_all between (take now p a).0 in
    stale_Taken q b (take later q b)
      (IsStale-always between q (take now p a).0 (rw same named)
        (Taken-IsStale p q a (take now p a) same below accepted (take-Taken now p a)))
      (take-Taken later q b)
