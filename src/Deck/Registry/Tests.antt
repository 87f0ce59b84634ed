-- ===== src/Deck/Registry/Tests.antt =====
-- opencode-deck/opencode-deck/ocdeck/model.py, class Registry: the theorems at concrete registries,
-- and tests.
use home_ailab.Prelude.{
  ℕ, ◌≡◌, refl, String, false, not, none, some, [], ◌∷◌, ok, lookup, insert, erase, keys, has,
  get_elem?, pos, negsuc, Returns, arith, contains, text_take, eq_ℤ,
}
use home_ailab.Deck.Agents.{Agent, ProcessId, Probe, says, Registration, new_registry}
use home_ailab.Deck.Registry.{Report, upsert, snapshot, take_snapshot}
use home_ailab.Deck.Registry.Removing.{slot_of, remove, sweep}
use home_ailab.Deck.Registry.Views.{view, resolve}
use home_ailab.Deck.Registry.Placing.{IsValid, Aged, generation_at}
use home_ailab.Deck.Registry.Sweeping.{sweep-Swept}
use home_ailab.Deck.Registry.Runs.{History, enrol, leave, clean, replay, replay-IsValid, press_held}
use home_ailab.Deck.Registry.Order.{take, take_all, taken_once}

program : Unit {0}
unfolding new_registry upsert snapshot take_snapshot remove sweep view resolve replay lookup insert
    erase keys contains text_take take_all
program = tt

abbrev process : ℕ → ProcessId
process n = record { pid = pos n; created = 100 }

-- every process lives but that of pid 9
abbrev probe : Probe
probe p = some (not (eq_ℤ p.pid (pos 9)))

abbrev registration : String → ℕ → Registration
registration key n = record {
  id = some key;
  process = some (process n);
  label = none;
  window_token = none;
}

abbrev seven : History
seven =
    (1, probe, enrol (registration "a" 1))
    ∷ (2, probe, enrol (registration "b" 2))
    ∷ (3, probe, enrol (registration "c" 3))
    ∷ (4, probe, enrol (registration "d" 4))
    ∷ (5, probe, enrol (registration "e" 5))
    ∷ (6, probe, enrol (registration "f" 6))
    ∷ (7, probe, enrol (registration "g" 7))
    ∷ []

-- the seventh agent waits
waits : slot_of (lookup "g" (replay seven new_registry).records) ≡ none
unfolding program
waits = refl

-- and takes the slot of the third when that one leaves
takes :
    (replay ((8, probe, leave "c") ∷ []) (replay seven new_registry)).slots
    ≡ some "a" ∷ some "b" ∷ some "g" ∷ some "d" ∷ some "e" ∷ some "f" ∷ []
unfolding program
takes = refl

-- an agent whose process is gone cannot register
gone : (replay ((1, probe, enrol (registration "z" 9)) ∷ []) new_registry).records ≡ []
unfolding program
gone = refl

replay-IsValid_example : IsValid (replay seven new_registry)
replay-IsValid_example = replay-IsValid seven

sweep-Swept_example :
    Returns
      (λ q.
        IsValid q
        × Aged (replay seven new_registry) q
        × ((k : String) (a : Agent)
            → lookup k (replay seven new_registry).records ≡ some a
            → has k q.records ≡ not (says false (probe a.process))))
      (sweep probe (replay seven new_registry))
sweep-Swept_example = sweep-Swept probe (replay seven new_registry) (replay-IsValid seven)

-- a press of key 2 that was captured once "c" had it
press_held_example :
    get_elem? (replay ((8, probe, clean) ∷ []) (replay seven new_registry)).slots 2
    ≡ some (some "c")
unfolding program
press_held_example =
    press_held probe ((8, probe, clean) ∷ []) ((9, probe, leave "a") ∷ [])
      (replay seven new_registry) 2 "c" third (replay-IsValid seven) resolves
  where
    third : Agent
    third = record {
      id = "c";
      process = process 3;
      slot = some 2;
      label = "OpenCode";
      window_token = "";
      seq = negsuc 0;
      producer = none;
      retired = [];
      status = "unknown";
      pending = 0;
      last_state = 0;
      last_seen = 3;
      detail = "Connecting";
    }

    resolves :
        resolve probe
          (some (pos 2))
          (some (generation_at 2 (replay seven new_registry)))
          (some "c")
          (replay
            ((9, probe, leave "a") ∷ [])
            (replay ((8, probe, clean) ∷ []) (replay seven new_registry)))
        ≡ ok (some third)
    resolves = refl

abbrev agent : Agent
agent = record {
  id = "a";
  process = process 1;
  slot = some 0;
  label = "OpenCode";
  window_token = "";
  seq = negsuc 0;
  producer = none;
  retired = [];
  status = "unknown";
  pending = 0;
  last_state = 0;
  last_seen = 3;
  detail = "Connecting";
}

abbrev report_of : String → ℕ → Report
report_of producer n = record {
  status = "busy";
  seq = n;
  producer = producer;
  pending = 0;
  detail = "";
}

-- the report 5 of "p", then one of "q", then the report 5 of "p" again
taken_once_example :
    take 30
      (report_of "p" 5)
      (take_all ((20, report_of "q" 0) ∷ []) (take 10 (report_of "p" 5) agent).0)
    ≡ (take_all ((20, report_of "q" 0) ∷ []) (take 10 (report_of "p" 5) agent).0, false)
unfolding program
taken_once_example =
    taken_once 10 30 (report_of "p" 5) (report_of "p" 5) ((20, report_of "q" 0) ∷ []) agent refl
      refl (omega arith) refl
