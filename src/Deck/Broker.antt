-- ===== src/Deck/Broker.antt =====
-- opencode-deck/opencode-deck/ocdeck/broker.py, class Broker: its requests, its presses and the loop of
-- `serve`; and device.py, `press` of DeviceLoop, which fills the queue of presses. Times are in
-- milliseconds.
pub mod Requests
pub mod Guards
pub mod Debounce
mod Tests
use home_ailab.Prelude.{
  ℕ, zero, suc, ◌+◌, String, Bool, true, false, not, ◌&&◌, ◌||◌, Option, none, some, List, [], ◌∷◌,
  ◌++◌, Result, ok, raise, ◌>>=◌, Error, Dict, lookup, insert, values, length, get_elem?, ltb, leb,
  ◌==◌, str_eq, if◌then◌else◌, ℤ, pos, negsuc,
}
use home_ailab.Deck.Agents.{Agent, Registry, Probe, Registration}
use home_ailab.Deck.Registry.{Snapshot, upsert, snapshot}
use home_ailab.Deck.Registry.Removing.{remove, sweep}
use home_ailab.Deck.Registry.Views.{View, view, resolve}

-- what a press says: the values that `view.get` finds
pub record Press : Type 0 where
  pub slot : Option ℤ
  pub generation : Option ℕ
  pub id : Option String

-- what `activate` returns
pub record Activation : Type 0 where
  pub success : Bool
  pub reason : String

-- `{**outcome, "id": ..., "synthetic": ..., "time": ...}`
pub record Focus : Type 0 where
  pub outcome : Activation
  pub id : String
  pub synthetic : Bool
  pub time : ℕ

pub record Broker : Type 0 where
  pub registry : Registry
  pub stopping : Bool
  pub presses : List Press
  pub last_focus : Option Focus
  pub last_press : Dict ℕ

pub data PressResult : Type 0 where
  stale debounced : PressResult
  focused : Focus → PressResult

-- what the machine answers at one time: the processes, the windows and the clocks
pub record Machine : Type 0 where
  pub probe : Probe
  pub activate : Agent → Activation
  pub now : ℕ
  pub time : ℕ

-- `now - last_press.get(id, -100) < .2`
abbrev pub is_debounced : ℕ → Option ℕ → Bool
is_debounced now none = false
is_debounced now (some last) = ltb now (last + 200)

abbrev pub new_focus : Machine → Agent → Bool → Focus
new_focus m a synthetic = record {
  outcome = m.activate a;
  id = a.id;
  synthetic = synthetic;
  time = m.time;
}

-- what a press finds before it writes anything: its answer, or the agent to activate
pub data Check : Type 0 where
  refused : PressResult → Check
  passed : Agent → Check

unfoldable pub check_agent : Machine → Option Agent → Broker → Check
check_agent m none b = refused stale
check_agent m (some a) b =
    if is_debounced m.now (lookup a.id b.last_press) then refused debounced else passed a

-- the first half of `handle_press`, which only reads
unfoldable pub check_press : Machine → Press → Broker → Result Check
unfolding check_agent
check_press m p b = do
  o ← resolve m.probe p.slot p.generation p.id b.registry
  ok (check_agent m o b)

-- the second half: the time of the press, the activation, and what came of it
unfoldable pub record_press : Machine → Bool → Agent → Broker → Broker × PressResult
record_press m synthetic a b = (
  record b {
    last_press = insert a.id m.now b.last_press;
    last_focus = some (new_focus m a synthetic);
  },
  focused (new_focus m a synthetic),
)

unfoldable pub finish_press : Machine → Bool → Check → Broker → Broker × PressResult
unfolding record_press
finish_press m synthetic (refused r) b = (b, r)
finish_press m synthetic (passed a) b = record_press m synthetic a b

-- A call that no other call comes between: `handle_press` holds no lock, and the loop of `serve` and
-- the threads of the server call it. Debounce takes the halves of several calls in any order.
unfoldable pub handle_press : Machine → Press → Bool → Broker → Result (Broker × PressResult)
unfolding check_press finish_press
handle_press m p synthetic b = do c ← check_press m p b; ok (finish_press m synthetic c b)

-- put_nowait on a queue of 64: a full queue drops the press
unfoldable pub put_press : Press → List Press → List Press
put_press p q = if ltb (length q) 64 then q ++ p ∷ [] else q

abbrev queued : Option (Option Press) → List Press → List Press
queued none q = q
queued (some none) q = q
queued (some (some p)) q = put_press p q

-- `press` of the device's loop, with the views that its keys show
unfoldable pub press_key : ℤ → Bool → List (Option Press) → Broker → Broker
unfolding put_press
press_key (negsuc n) state presented b = b
press_key (pos key) state presented b =
    if not state || not (ltb key 6)
    then b
    else record b { presses = queued (get_elem? presented key) b.presses }

-- the round's press, if the queue holds one; what it raises is logged
abbrev after_press : Broker → Result (Broker × PressResult) → Broker
after_press b (ok r) = r.0
after_press b (raise e) = b

abbrev take_press : Machine → List Press → Broker → Broker
take_press m [] b = b
take_press m (p ∷ ps) b =
    let popped : Broker = record b { presses = ps } in
    after_press popped (handle_press m p false popped)

abbrev swept : Machine → ℕ → Broker → Result (Broker × ℕ)
swept m next_sweep b =
    if leb next_sweep m.now
    then (do r ← sweep m.probe b.registry; ok (record b { registry = r }, m.now + 500))
    else ok (b, next_sweep)

-- a round of the loop of `serve`, with the time of the next sweep
unfoldable pub serve_round : Machine → ℕ → Broker → Result (Broker × ℕ)
unfolding handle_press sweep
serve_round m next_sweep b = do s ← swept m next_sweep b; ok (take_press m s.0.presses s.0, s.1)
