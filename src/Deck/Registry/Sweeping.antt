-- ===== src/Deck/Registry/Sweeping.antt =====
-- opencode-deck/opencode-deck/ocdeck/model.py, class Registry: sweeping the agents whose processes
-- have ended keeps the registry valid.
use home_ailab.Prelude.{
  ◌≡◌, refl, ◌∙◌, ap, sym, inl, inr, String, Bool, true, false, some, [], ◌∷◌, ok, Dict, lookup,
  has, keys, arith, eq_iff, str_eq, IsUnique, contains, if◌then◌else◌, Bool-cases, Returns,
  Returns-bind, Returns-weaken, not, ◌&&◌, ◌||◌,
}
use home_ailab.Deck.Agents.{Agent, Registry, Probe, says}
use home_ailab.Deck.Registry.Removing.{remove, sweep_all, sweep}
use home_ailab.Deck.Registry.Placing.{IsValid, Aged, Aged-refl, Aged-trans}
use home_ailab.Deck.Registry.Departing.{Removed, remove-Removed}

-- the agent of the key is in the list, and its process is gone
unfoldable pub is_swept : Probe → String → Dict Agent → Bool
is_swept probe k [] = false
is_swept probe k ((key, a) ∷ agents) =
    (str_eq key k && says false (probe a.process)) || is_swept probe k agents

-- what the sweep over a list of agents leaves
pub record Swept (probe : Probe) (agents : Dict Agent) (r q : Registry) : Type 0 where
  pub valid : IsValid q
  pub aged : Aged r q
  pub known :
      (k : String) → has k q.records ≡ (if is_swept probe k agents then false else has k r.records)

sweep_one-Removed :
    (b : Bool) (key : String) (r : Registry)
    → IsValid r
    → Returns
        (λ q.
          IsValid q
          × Aged r q
          × ((k : String)
              → has k q.records ≡ (if str_eq key k && b then false else has k r.records)))
        (if b then remove key r else ok r)
sweep_one-Removed false key r v = (v, Aged-refl r, λ k. ground arith)
sweep_one-Removed true key r v =
    Returns-weaken (Removed key r) _ (remove key r)
      (λ q h. (h.valid, h.aged, λ k. h.known k ∙ ground arith)) (remove-Removed key r v)

sweep_all-Swept :
    (probe : Probe) (agents : Dict Agent) (r : Registry)
    → IsValid r
    → Returns (Swept probe agents r) (sweep_all probe agents r)
unfolding sweep_all is_swept
sweep_all-Swept probe [] r v = record { valid = v; aged = Aged-refl r; known = λ k. refl }
sweep_all-Swept probe ((key, a) ∷ agents) r v =
    Returns-bind _ _ (if says false (probe a.process) then remove key r else ok r) _
      (sweep_one-Removed (says false (probe a.process)) key r v)
      (λ p h.
        Returns-weaken (Swept probe agents p) _ (sweep_all probe agents p)
          (λ q k. record {
            valid = k.valid;
            aged = Aged-trans r p q h.1 k.aged;
            known = λ j. k.known j ∙ ground (arith, h.2 j);
          })
          (sweep_all-Swept probe agents p h.0))

or_false : (b : Bool) → b || false ≡ b
or_false true = refl
or_false false = refl

is_swept_own :
    (probe : Probe) (k : String) (agents : Dict Agent)
    → contains k (keys agents) ≡ false
    → is_swept probe k agents ≡ false
unfolding is_swept contains keys
is_swept_own probe k [] away = refl
is_swept_own probe k ((key, a) ∷ agents) away = ground (arith, is_swept_own probe k agents)

is_swept_at :
    (probe : Probe) (k : String) (a : Agent) (agents : Dict Agent)
    → IsUnique (keys agents)
    → lookup k agents ≡ some a
    → is_swept probe k agents ≡ says false (probe a.process)
unfolding is_swept keys lookup
is_swept_at probe k a [] u at = cc
is_swept_at probe k a ((key, b) ∷ agents) u at = elim (Bool-cases (str_eq key k)) [
  | inl own ↦
      let e : key ≡ k = (eq_iff key k).0 own in
      let f : b ≡ a = ground (arith, own, at) in
      let no : is_swept probe k agents ≡ false =
        is_swept_own probe k agents (ap (λ x. contains x (keys agents)) (sym e) ∙ u.0) in
      rw (own, no)
        (or_false (says false (probe b.process)) ∙ ap (λ x. says false (probe x.process)) f)
  | inr other ↦ rw other (is_swept_at probe k a agents u.1 (rw other at at))
]

-- The sweep raises nothing, keeps the registry valid, and removes an agent exactly if the probe is
-- sure that its process is gone; no slot changes hands under one generation.
pub sweep-Swept :
    (probe : Probe) (r : Registry)
    → IsValid r
    → Returns
        (λ q.
          IsValid q
          × Aged r q
          × ((k : String) (a : Agent)
              → lookup k r.records ≡ some a
              → has k q.records ≡ not (says false (probe a.process))))
        (sweep probe r)
unfolding sweep
sweep-Swept probe r v =
    Returns-weaken (Swept probe r.records r) _ (sweep_all probe r.records r)
      (λ q h. (
        h.valid,
        h.aged,
        λ k a at.
            h.known k ∙ ground (arith, is_swept_at probe k a r.records v.places.unique at, at),
      ))
      (sweep_all-Swept probe r.records r v)
