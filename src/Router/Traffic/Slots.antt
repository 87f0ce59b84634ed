-- ===== src/Router/Traffic/Slots.antt =====
-- router-legacy/router.py: the slots of the backends, as probes, requests and releases change them.
use home_ailab.Prelude.{
  ℕ, ◌≤◌, ◌≡◌, refl, sym, ap, ◌∙◌, inl, inr, String, Bool, Option, none, some, List, Result, ok,
  raise, Dict, lookup, insert, keys, IsUnique, insert-IsUnique, lookup-insert, eq_iff, str_eq, ◌==◌,
  Bool-cases, Option-cases, arith, if◌then◌else◌,
}
use home_ailab.Router.Json.{Json}
use home_ailab.Router.Backends.{
  Backend, Reply, failed, answer, Answers, Parsing, probe_backend, probe_vllm, probe_llama,
  read_vllm, read_metrics, read_llama, read_slots, busy_of, write_busy,
}
use home_ailab.Router.Routing.{note_dispatch}

-- Each backend stands under its name and holds no more requests of the router than its capacity.
pub record IsSound (d : Dict Backend) : Type 0 where
  pub unique : IsUnique (keys d)
  pub named : (k : String) (b : Backend) → lookup k d ≡ some b → b.name ≡ k
  pub bounded : (k : String) (b : Backend) → lookup k d ≡ some b → b.inflight ≤ b.cap

-- the requests of the router on the backend of a name
abbrev pub held : Option Backend → ℕ
held none = 0
held (some b) = b.inflight

pub replaced-IsSound :
    (k : String) (b : Backend) (d : Dict Backend)
    → IsSound d
    → b.name ≡ k
    → b.inflight ≤ b.cap
    → IsSound (insert k b d)
replaced-IsSound k b d v n h = record {
  unique = insert-IsUnique k b d v.unique;
  named = λ j c e. ground (arith, lookup-insert k j b d, eq_iff k j, v.named j c);
  bounded = λ j c e. ground (arith, lookup-insert k j b d, v.bounded j c);
}

pub held-replaced :
    (k j : String) (b : Backend) (d : Dict Backend)
    → held (lookup j (insert k b d)) ≡ (if str_eq k j then b.inflight else held (lookup j d))
held-replaced k j b d =
    rw (lookup-insert k j b d)
      (elim (Bool-cases (str_eq k j)) [ inl same ↦ rw same refl | inr other ↦ rw other refl ])

-- a probe writes only what the backend reports
pub record Probed (b c : Backend) : Type 0 where
  pub name : c.name ≡ b.name
  pub cap : c.cap ≡ b.cap
  pub inflight : c.inflight ≡ b.inflight
  pub priority : c.priority ≡ b.priority

read_metrics-Probed :
    (p : Parsing) (now : ℕ) (m : Reply (List String)) (b : Backend)
    → Probed b (read_metrics p now m b)
unfolding read_metrics
read_metrics-Probed p now (failed e) b = ground arith
read_metrics-Probed p now (answer code lines) b = elim (Bool-cases (code == 200)) [
  | inl good ↦ rw good (record { name = refl; cap = refl; inflight = refl; priority = refl })
  | inr bad ↦ rw bad (record { name = refl; cap = refl; inflight = refl; priority = refl })
]

read_slots-Probed :
    (p : Parsing) (now : ℕ) (up : Bool) (m : Reply Json) (b : Backend)
    → Probed b (read_slots p now up m b)
unfolding read_slots
read_slots-Probed p now up (failed e) b = ground arith
read_slots-Probed p now up (answer code slots) b = elim (Bool-cases (code == 200)) [
  | inl good ↦ rw good (written (busy_of p slots))
  | inr bad ↦ rw bad (record { name = refl; cap = refl; inflight = refl; priority = refl })
]
  where
    written : (m : Result ℕ) → Probed b (write_busy p now up m b)
    written (ok n) = record { name = refl; cap = refl; inflight = refl; priority = refl }
    written (raise e) = record { name = refl; cap = refl; inflight = refl; priority = refl }

read_vllm-Probed :
    (p : Parsing) (now : ℕ) (h : Reply String) (m : Reply (List String)) (b : Backend)
    → Probed b (read_vllm p now h m b)
unfolding read_vllm
read_vllm-Probed p now (failed e) m b = record {
  name = refl;
  cap = refl;
  inflight = refl;
  priority = refl;
}
read_vllm-Probed p now (answer code body) m b =
    let q = read_metrics-Probed p now m (record b { healthy = code == 200 }) in
    record { name = q.name; cap = q.cap; inflight = q.inflight; priority = q.priority }

read_llama-Probed :
    (p : Parsing) (now : ℕ) (h : Reply String) (m : Reply Json) (b : Backend)
    → Probed b (read_llama p now h m b)
unfolding read_llama
read_llama-Probed p now (failed e) m b = record {
  name = refl;
  cap = refl;
  inflight = refl;
  priority = refl;
}
read_llama-Probed p now (answer code body) m b = read_slots-Probed p now (code == 200) m b

pub probe_backend-Probed :
    (p : Parsing) (now : ℕ) (a : Answers) (b : Backend) → Probed b (probe_backend p now a b)
unfolding probe_backend
probe_backend-Probed p now a b = elim (Bool-cases (str_eq b.kind "vllm")) [
  | inl vllm ↦ rw vllm (vllm_probed)
  | inr llama ↦ rw llama (llama_probed)
]
  where
    vllm_probed : Probed b (probe_vllm p now a b)
    vllm_probed = record {
      name = (read_vllm-Probed p now a.health a.metrics b).name;
      cap = (read_vllm-Probed p now a.health a.metrics b).cap;
      inflight = (read_vllm-Probed p now a.health a.metrics b).inflight;
      priority = (read_vllm-Probed p now a.health a.metrics b).priority;
    }

    llama_probed : Probed b (probe_llama p now a b)
    llama_probed = record {
      name = (read_llama-Probed p now a.health a.slots b).name;
      cap = (read_llama-Probed p now a.health a.slots b).cap;
      inflight = (read_llama-Probed p now a.health a.slots b).inflight;
      priority = (read_llama-Probed p now a.health a.slots b).priority;
    }

-- the counters of a dispatch do not touch the slots
pub note_dispatch-IsSound :
    (bytes : ℕ) (name : String) (d : Dict Backend)
    → IsSound d
    → IsSound (note_dispatch bytes name (lookup name d) d)
note_dispatch-IsSound bytes name d v = elim (Option-cases (lookup name d)) [
  | inl absent ↦ rw absent v
  | inr (b, e) ↦ rw e (replaced-IsSound name _ d v (v.named name b e) (v.bounded name b e))
]

pub held-note_dispatch :
    (bytes : ℕ) (name j : String) (d : Dict Backend)
    → held (lookup j (note_dispatch bytes name (lookup name d) d)) ≡ held (lookup j d)
held-note_dispatch bytes name j d = elim (Option-cases (lookup name d)) [
  | inl absent ↦ rw absent refl
  | inr (b, e) ↦ rw e (
      held-replaced name j _ d ∙ elim (Bool-cases (str_eq name j)) [
        | inl same ↦
            rw same (ap held (sym e) ∙ ap (λ x. held (lookup x d)) ((eq_iff name j).0 same))
        | inr other ↦ rw other refl
      ])
]
