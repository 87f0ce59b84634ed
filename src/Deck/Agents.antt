-- ===== src/Deck/Agents.antt =====
-- opencode-deck/opencode-deck/ocdeck/model.py: the agents, the registry's fields and what it is asked.
use home_ailab.Prelude.{
  ℕ, String, Bool, true, false, not, ◌&&◌, Option, none, some, List, [], Dict, replicate, ◌==◌, ℤ,
  eq_ℤ,
}

-- the dict of a process: its pid and its creation time
pub record ProcessId : Type 0 where
  pub pid : ℤ
  pub created : ℕ

abbrev pub same_process : ProcessId → ProcessId → Bool
same_process p q = eq_ℤ p.pid q.pid && (p.created == q.created)

-- a value of `records`
pub record Agent : Type 0 where
  pub id : String
  pub process : ProcessId
  pub slot : Option ℕ
  pub label : String
  pub window_token : String
  pub seq : ℤ
  pub producer : Option String
  pub retired : List String
  pub status : String
  pub pending : ℕ
  pub last_state : ℕ
  pub last_seen : ℕ
  pub detail : String

-- the state; the probe and the clock are arguments of the operations
pub record Registry : Type 0 where
  pub records : Dict Agent
  pub slots : List (Option String)
  pub generations : List ℕ

abbrev pub slot_count : ℕ
slot_count = 6

unfoldable pub new_registry : Registry
new_registry = record {
  records = [];
  slots = replicate slot_count none;
  generations = replicate slot_count 0;
}

-- What the probe says of a process: alive, gone, or not to be known.
abbrev pub Probe : Type 0
Probe = ProcessId → Option Bool

abbrev pub says : Bool → Option Bool → Bool
says b none = false
says true (some c) = c
says false (some c) = not c

-- the body of a registration, with its fields of the types that the code reads
pub record Registration : Type 0 where
  pub id : Option String
  pub process : Option ProcessId
  pub label : Option String
  pub window_token : Option String

-- data.get(key, default)
abbrev pub default {ℓ} : {A : Type ℓ} → A → Option A → A
default d none = d
default d (some a) = a
