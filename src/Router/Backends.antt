-- ===== src/Router/Backends.antt =====
-- router-legacy/router.py: the class Backend and what a probe of a backend writes to it.
use home_ailab.Prelude.{
  ℕ, ◌+◌, ◌-◌, String, Bool, true, false, not, Option, none, some, List, [], ◌∷◌, Result, ok, raise,
  ◌>>=◌, Error, Dict, ◌==◌, str_eq, truthy, starts_with, join_texts, decimal, if◌then◌else◌,
  from_option,
}
use home_ailab.Router.Json.{Json, Items, Fields, get_field}

pub record Backend : Type 0 where
  pub name : String
  pub url : String
  pub kind : String
  pub priority : ℕ
  pub cap : ℕ
  pub healthy : Bool
  pub busy : ℕ
  pub inflight : ℕ
  pub error : String
  pub last_probe : ℕ
  pub prev_healthy : Bool
  pub req_total : ℕ
  pub req_ok : ℕ
  pub req_err : ℕ
  pub bytes_in : ℕ
  pub bytes_out : ℕ
  pub req_active : ℕ

unfoldable pub new_backend : String → String → String → ℕ → ℕ → Backend
new_backend name url kind priority cap = record {
  name = name;
  url = url;
  kind = kind;
  priority = priority;
  cap = cap;
  healthy = true;
  busy = 0;
  inflight = 0;
  error = "";
  last_probe = 0;
  prev_healthy = true;
  req_total = 0;
  req_ok = 0;
  req_err = 0;
  bytes_in = 0;
  bytes_out = 0;
  req_active = 0;
}

-- `max(0, cap - busy - inflight)`: subtraction of natural numbers stops at 0
abbrev pub available : Backend → ℕ
available b = b.cap - b.busy - b.inflight

-- the answer to a GET: the status code and the body, or the text of the exception
pub data Reply {ℓ} (A : Type ℓ) : Type ℓ where
  failed : String → Reply A
  answer : ℕ → A → Reply A

-- what the network answers to the probes of one backend
pub record Answers : Type 0 where
  pub health : Reply String
  pub metrics : Reply (List String)
  pub slots : Reply Json

-- `if b.healthy != b._prev_healthy: ...`
abbrev pub log_transition : Backend → Backend
log_transition b = record b { prev_healthy = b.healthy }

abbrev pub probe_failed : ℕ → String → Backend → Backend
probe_failed now e b = record b { healthy = false; error = e; last_probe = now }

-- how Python reads numbers from texts, `_last_float`, whose values are whole here, and `int`; and the
-- text `f"{type(exc).__name__}: {exc}"` of an exception
pub record Parsing : Type 0 where
  pub last_float : String → ℕ
  pub int : String → Option ℕ
  pub message : Error → String

-- bool(x) for what json.loads returns
abbrev is_true : Option Json → Bool
is_true none = false
is_true (some Json.null) = false
is_true (some (Json.bool b)) = b
is_true (some (Json.num n)) = not (n == 0)
is_true (some (Json.text s)) = truthy s
is_true (some (Json.arr Items.nil)) = false
is_true (some (Json.arr (Items.cons x xs))) = true
is_true (some (Json.obj Fields.end)) = false
is_true (some (Json.obj (Fields.field k v d))) = true

-- `x.get("is_processing")`, which only a dict has
abbrev is_processing : Json → Result Bool
is_processing (Json.obj d) = ok (is_true (get_field "is_processing" d))
is_processing (Json.null) = Result.raise Error.attribute_error
is_processing (Json.bool b) = Result.raise Error.attribute_error
is_processing (Json.num n) = Result.raise Error.attribute_error
is_processing (Json.text s) = Result.raise Error.attribute_error
is_processing (Json.arr xs) = Result.raise Error.attribute_error

unfoldable pub count_processing : Items → Result ℕ
unfolding get_field
count_processing Items.nil = ok 0
count_processing (Items.cons x xs) = do
  busy ← is_processing x
  n ← count_processing xs
  ok (if busy then n + 1 else n)

module _ (parsing : Parsing) where
  -- the loop over the lines of /metrics
  unfoldable pub count_requests : ℕ → ℕ → List String → ℕ
  count_requests running waiting [] = running + waiting
  count_requests running waiting (line ∷ lines) =
      let ran = count_requests (parsing.last_float line) waiting lines in
      let waited = count_requests running (parsing.last_float line) lines in
      let other = count_requests running waiting lines in
      if starts_with line "vllm:num_requests_running "
      then ran
      else if starts_with line "vllm:num_requests_waiting "
      then waited
      else other

  unfoldable pub read_metrics : ℕ → Reply (List String) → Backend → Backend
  unfolding count_requests
  read_metrics now (failed e) b = probe_failed now e b
  read_metrics now (answer code lines) b =
      if code == 200
      then record b { busy = count_requests 0 0 lines; error = ""; last_probe = now }
      else record b { error = join_texts "metrics " (decimal code); last_probe = now }

  unfoldable pub read_vllm : ℕ → Reply String → Reply (List String) → Backend → Backend
  unfolding read_metrics
  read_vllm now (failed e) metrics b = probe_failed now e b
  read_vllm now (answer code body) metrics b =
      read_metrics now metrics (record b { healthy = code == 200 })

  unfoldable pub probe_vllm : ℕ → Answers → Backend → Backend
  unfolding read_vllm
  probe_vllm now a b = log_transition (read_vllm now a.health a.metrics b)

  -- `int(value or 0)`
  abbrev int_or_zero : Option Json → Result ℕ
  int_or_zero none = ok 0
  int_or_zero (some Json.null) = ok 0
  int_or_zero (some (Json.bool b)) = ok (if b then 1 else 0)
  int_or_zero (some (Json.num n)) = ok n
  int_or_zero (some (Json.text s)) =
      if truthy s then from_option Error.value_error (parsing.int s) else ok 0
  int_or_zero (some (Json.arr Items.nil)) = ok 0
  int_or_zero (some (Json.arr (Items.cons x xs))) = Result.raise Error.type_error
  int_or_zero (some (Json.obj Fields.end)) = ok 0
  int_or_zero (some (Json.obj (Fields.field k v d))) = Result.raise Error.type_error

  unfoldable pub busy_of : Json → Result ℕ
  unfolding count_processing get_field
  busy_of (Json.arr xs) = count_processing xs
  busy_of (Json.obj d) = int_or_zero (get_field "in_flight" d)
  busy_of Json.null = ok 0
  busy_of (Json.bool b) = ok 0
  busy_of (Json.num n) = ok 0
  busy_of (Json.text s) = ok 0

  abbrev pub write_busy : ℕ → Bool → Result ℕ → Backend → Backend
  write_busy now health_ok (raise e) b = probe_failed now (parsing.message e) b
  write_busy now health_ok (ok n) b = record b {
    busy = n;
    error = "";
    healthy = health_ok;
    last_probe = now;
  }

  unfoldable pub read_slots : ℕ → Bool → Reply Json → Backend → Backend
  unfolding busy_of
  read_slots now health_ok (failed e) b = probe_failed now e b
  read_slots now health_ok (answer code slots) b =
      if code == 200 then write_busy now health_ok (busy_of slots) b else record b {
        error = join_texts "slots " (decimal code);
        healthy = health_ok;
        last_probe = now;
      }

  unfoldable pub read_llama : ℕ → Reply String → Reply Json → Backend → Backend
  unfolding read_slots
  read_llama now (failed e) slots b = probe_failed now e b
  read_llama now (answer code body) slots b = read_slots now (code == 200) slots b

  unfoldable pub probe_llama : ℕ → Answers → Backend → Backend
  unfolding read_llama
  probe_llama now a b = log_transition (read_llama now a.health a.slots b)

  -- the probe of one backend, by its kind
  unfoldable pub probe_backend : ℕ → Answers → Backend → Backend
  unfolding probe_vllm probe_llama
  probe_backend now a b = if str_eq b.kind "vllm" then probe_vllm now a b else probe_llama now a b

  -- `probe`: every backend in turn
  unfoldable pub probe : ℕ → (String → Answers) → Dict Backend → Dict Backend
  unfolding probe_backend
  probe now answers [] = []
  probe now answers ((name, b) ∷ backends) =
      (name, probe_backend now (answers name) b) ∷ probe now answers backends
