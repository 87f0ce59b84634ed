-- ===== src/Deck/Broker/Debounce.antt =====
-- opencode-deck/opencode-deck/ocdeck/broker.py, `handle_press`, which the loop of `serve` and the threads
-- of the server run at once without a lock: whether an agent's window is activated twice within 200
-- milliseconds.
use home_ailab.Prelude.{
  ℕ, zero, suc, ◌+◌, ◌≤◌, ◌≡◌, refl, sym, ap, ◌∙◌, inl, inr, String, Bool, true, false, Option,
  none, some, List, [], ◌∷◌, ◌++◌, Result, ok, raise, ◌>>=◌, lookup, lookup-insert, get_elem?,
  str_eq, eq_iff, eq_refl, Bool-cases, arith, if◌then◌else◌,
}
use home_ailab.Deck.Agents.{Agent, Registry}
use home_ailab.Deck.Registry.Views.{resolve}
use home_ailab.Deck.Broker.{
  Broker, Press, PressResult, stale, debounced, focused, Check, refused, passed, Machine,
  check_agent, check_press, record_press, is_debounced,
}

-- a call that has passed its checks and has not written yet
pub record Waiting : Type 0 where
  pub machine : Machine
  pub synthetic : Bool
  pub agent : Agent

-- a step of some thread: the checks of a call, the writes of the call that waits at a place, or any
-- change of the registry
pub data Step : Type 0 where
  check : Machine → Press → Bool → Step
  finish : ℕ → Step
  change : Registry → Step

-- an activation: the agent and the time
abbrev pub Activated : Type 0
Activated = String × ℕ

abbrev waiting_after : Machine → Bool → Result Check → List Waiting → List Waiting
waiting_after m synthetic (ok (passed a)) ws =
    ws ++ record { machine = m; synthetic = synthetic; agent = a } ∷ []
waiting_after m synthetic (ok (refused r)) ws = ws
waiting_after m synthetic (raise e) ws = ws

abbrev remove_at : ℕ → List Waiting → List Waiting
remove_at i [] = []
remove_at zero (w ∷ ws) = ws
remove_at (suc i) (w ∷ ws) = w ∷ remove_at i ws

abbrev recorded : Waiting → Broker → Broker
recorded w b = (record_press w.machine w.synthetic w.agent b).0

abbrev with_activation : ℕ → PressResult → List Activated → List Activated
with_activation now (focused f) later = (f.id, now) ∷ later
with_activation now stale later = later
with_activation now debounced later = later

-- the activations of a sequence of steps, from the calls that wait
unfoldable pub trace : List Step → List Waiting → Broker → List Activated
trace [] ws b = []
trace (check m p synthetic ∷ steps) ws b =
    trace steps (waiting_after m synthetic (check_press m p b) ws) b
trace (finish i ∷ steps) ws b = elim (get_elem? ws i) [
  | none ↦ trace steps ws b
  | some w ↦
      with_activation w.machine.now (record_press w.machine w.synthetic w.agent b).1
        (trace steps (remove_at i ws) (recorded w b))
]
trace (change r ∷ steps) ws b = trace steps ws (record b { registry = r })

-- the time of the first activation of an agent
abbrev first_time : String → List Activated → Option ℕ
first_time k [] = none
first_time k ((j, t) ∷ later) = if str_eq j k then some t else first_time k later

abbrev NotBefore : ℕ → Option ℕ → Type 0
NotBefore t none = Unit
NotBefore t (some u) = t ≤ u

-- After each activation of an agent the next one of the agent is 200 milliseconds later or more.
abbrev pub IsSpaced : List Activated → Type 0
IsSpaced [] = Unit
IsSpaced ((k, t) ∷ later) = NotBefore (t + 200) (first_time k later) × IsSpaced later

-- No call begins between the checks of a call and its writes.
abbrev pub IsSerial : List Step → Bool → Type 0
IsSerial [] busy = Unit
IsSerial (check m p synthetic ∷ steps) true = ⊥
IsSerial (check m p synthetic ∷ steps) false = IsSerial steps true
IsSerial (finish zero ∷ steps) busy = IsSerial steps false
IsSerial (finish (suc i) ∷ steps) busy = IsSerial steps busy
IsSerial (change r ∷ steps) busy = IsSerial steps busy

-- at most one call waits, and what it read still holds
abbrev Turn : Bool → List Waiting → Broker → Type 0
Turn busy [] b = Unit
Turn false (w ∷ ws) b = ⊥
Turn true (w ∷ []) b = is_debounced w.machine.now (lookup w.agent.id b.last_press) ≡ false
Turn true (w ∷ v ∷ ws) b = ⊥

Turn-change :
    (busy : Bool) (ws : List Waiting) (b : Broker) (r : Registry)
    → Turn busy ws b
    → Turn busy ws (record b { registry = r })
Turn-change busy [] b r t = tt
Turn-change false (w ∷ ws) b r t = t
Turn-change true (w ∷ []) b r t = t
Turn-change true (w ∷ v ∷ ws) b r t = t

check_agent-Turn :
    (m : Machine) (o : Option Agent) (synthetic : Bool) (b : Broker)
    → Turn true (waiting_after m synthetic (ok (check_agent m o b)) []) b
unfolding check_agent
check_agent-Turn m none synthetic b = tt
check_agent-Turn m (some a) synthetic b =
    elim (Bool-cases (is_debounced m.now (lookup a.id b.last_press))) [
      | inl soon ↦ rw soon tt
      | inr late ↦ rw late late
    ]

check-Turn :
    (m : Machine) (p : Press) (synthetic : Bool) (b : Broker)
    → Turn true (waiting_after m synthetic (check_press m p b) []) b
unfolding check_press
check-Turn m p synthetic b = at (resolve m.probe p.slot p.generation p.id b.registry)
  where
    at :
        (r : Result (Option Agent))
        → Turn true (waiting_after m synthetic (do o ← r; ok (check_agent m o b)) []) b
    at (ok o) = check_agent-Turn m o synthetic b
    at (raise e) = tt

recorded_press :
    (w : Waiting) (k : String) (b : Broker)
    → lookup k (recorded w b).last_press
      ≡ (if str_eq w.agent.id k then some w.machine.now else lookup k b.last_press)
unfolding record_press
recorded_press w k b = lookup-insert w.agent.id k w.machine.now b.last_press

-- the activations after a time at which the agent was pressed
trace-NotBefore :
    (steps : List Step) (busy : Bool) (ws : List Waiting) (b : Broker) (k : String) (t : ℕ)
    → IsSerial steps busy
    → Turn busy ws b
    → lookup k b.last_press ≡ some t
    → NotBefore (t + 200) (first_time k (trace steps ws b))
unfolding trace record_press
trace-NotBefore [] busy ws b k t serial turn e = tt
trace-NotBefore (change r ∷ steps) busy ws b k t serial turn e =
    trace-NotBefore steps busy ws (record b { registry = r }) k t serial
      (Turn-change busy ws b r turn) e
trace-NotBefore (check m p synthetic ∷ steps) true ws b k t serial turn e = absurd serial
trace-NotBefore (check m p synthetic ∷ steps) false (w ∷ ws) b k t serial turn e = absurd turn
trace-NotBefore (check m p synthetic ∷ steps) false [] b k t serial turn e =
    trace-NotBefore steps true (waiting_after m synthetic (check_press m p b) []) b k t serial
      (check-Turn m p synthetic b) e
trace-NotBefore (finish zero ∷ steps) busy [] b k t serial turn e =
    trace-NotBefore steps false [] b k t serial tt e
trace-NotBefore (finish (suc i) ∷ steps) busy [] b k t serial turn e =
    trace-NotBefore steps busy [] b k t serial turn e
trace-NotBefore (finish i ∷ steps) false (w ∷ ws) b k t serial turn e = absurd turn
trace-NotBefore (finish i ∷ steps) true (w ∷ v ∷ ws) b k t serial turn e = absurd turn
trace-NotBefore (finish (suc i) ∷ steps) true (w ∷ []) b k t serial turn e =
    trace-NotBefore steps true (w ∷ []) b k t serial turn e
trace-NotBefore (finish zero ∷ steps) true (w ∷ []) b k t serial turn e =
    elim (Bool-cases (str_eq w.agent.id k)) [
      | inl same ↦
          let at_k : is_debounced w.machine.now (some t) ≡ false =
            ap (is_debounced w.machine.now)
              (sym e ∙ ap (λ j. lookup j b.last_press) (sym ((eq_iff w.agent.id k).0 same)))
            ∙ turn in
          rw same (ground arith)
      | inr other ↦ rw other (
          trace-NotBefore steps false [] (recorded w b) k t serial tt
            (recorded_press w k b ∙ rw other e))
    ]

steps-IsSpaced :
    (steps : List Step) (busy : Bool) (ws : List Waiting) (b : Broker)
    → IsSerial steps busy
    → Turn busy ws b
    → IsSpaced (trace steps ws b)
unfolding trace record_press
steps-IsSpaced [] busy ws b serial turn = tt
steps-IsSpaced (change r ∷ steps) busy ws b serial turn =
    steps-IsSpaced steps busy ws (record b { registry = r }) serial (Turn-change busy ws b r turn)
steps-IsSpaced (check m p synthetic ∷ steps) true ws b serial turn = absurd serial
steps-IsSpaced (check m p synthetic ∷ steps) false (w ∷ ws) b serial turn = absurd turn
steps-IsSpaced (check m p synthetic ∷ steps) false [] b serial turn =
    steps-IsSpaced steps true (waiting_after m synthetic (check_press m p b) []) b serial
      (check-Turn m p synthetic b)
steps-IsSpaced (finish zero ∷ steps) busy [] b serial turn =
    steps-IsSpaced steps false [] b serial tt
steps-IsSpaced (finish (suc i) ∷ steps) busy [] b serial turn =
    steps-IsSpaced steps busy [] b serial turn
steps-IsSpaced (finish i ∷ steps) false (w ∷ ws) b serial turn = absurd turn
steps-IsSpaced (finish i ∷ steps) true (w ∷ v ∷ ws) b serial turn = absurd turn
steps-IsSpaced (finish (suc i) ∷ steps) true (w ∷ []) b serial turn =
    steps-IsSpaced steps true (w ∷ []) b serial turn
steps-IsSpaced (finish zero ∷ steps) true (w ∷ []) b serial turn = (
  trace-NotBefore steps false [] (recorded w b) w.agent.id w.machine.now serial tt
      (recorded_press w w.agent.id b ∙ rw (eq_refl w.agent.id) refl),
  steps-IsSpaced steps false [] (recorded w b) serial tt,
)

-- If no call of `handle_press` begins between the checks and the writes of another, then whatever
-- presses arrive in whatever order of times, from the device or from requests, and whatever changes
-- in the registry between the steps, two activations of one agent with no other of it between them
-- are 200 milliseconds apart or more.
pub trace-IsSpaced :
    (steps : List Step) (b : Broker) → IsSerial steps false → IsSpaced (trace steps [] b)
trace-IsSpaced steps b serial = steps-IsSpaced steps false [] b serial tt
