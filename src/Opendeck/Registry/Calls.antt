-- ===== src/Opendeck/Registry/Calls.antt =====
-- opendeck-broker/opendeck_broker/registry.py: any sequence of calls of the registry by its clients,
-- the adapter's and the API's writes to the shared objects included.
use home_ailab.Prelude.{
  ℕ, ◌≡◌, ◌∙◌, String, Bool, Option, some, List, [], ◌∷◌, Result, ok, ◌>>=◌, Returns, Returns-bind,
  Returns-and, Returns-weaken, get_elem?, arith,
}
use home_ailab.Opendeck.Model.{Instance, Status, set_status}
use home_ailab.Opendeck.Objects.{Ref, Objects, update}
use home_ailab.Opendeck.Registry.{
  Registry, register, accept_snapshot, heartbeat, detach, process_exit, sweep_expired,
  mark_untrusted, slot_count, new_registry,
}
use home_ailab.Opendeck.Registry.Validity.{IsValid, new_registry-IsValid}
use home_ailab.Opendeck.Registry.Preserves.{
  Keeps, register-IsValid, accept_snapshot-IsValid, heartbeat-IsValid,
}
use home_ailab.Opendeck.Registry.Freeing.{
  free_slot-IsValid, sweep_expired-IsValid, mark_untrusted-IsValid,
}

-- the facts that a client writes to an instance before it offers a snapshot of it
pub record Facts : Type 0 where
  pub status : Status
  pub permissions : List String
  pub questions : List String
  pub sequence : ℕ

unfoldable pub write_facts : Facts → Instance → Instance
unfolding set_status
write_facts f i = record (set_status f.status i) {
  pending_permission_ids = f.permissions;
  pending_question_ids = f.questions;
  sequence = f.sequence;
}

pub data Call : Type 0 where
  enrol : Ref → Call
  snapshot : Ref → Option String → Option ℕ → Call
  beat : String → Call
  leave : String → Call
  exit : String → Call
  sweep : ℕ → Option ℕ → Call
  mark : String → Bool → Call
  write : Ref → Facts → Call

abbrev first {ℓ} : {A : Type ℓ} → Result (Registry × A) → Result Registry
first m = do (r, _) ← m; ok r

unfoldable pub apply : ℕ → Call → Registry → Result Registry
unfolding detach process_exit
apply now (enrol ref) r = first (register now ref r)
apply now (snapshot ref e s) r = first (accept_snapshot now ref e s r)
apply now (beat iid) r = ok (heartbeat now iid r).0
apply now (leave iid) r = first (detach iid r)
apply now (exit iid) r = first (process_exit iid r)
apply now (sweep lease at) r = first (sweep_expired now lease at r)
apply now (mark iid b) r = ok (mark_untrusted iid b r)
apply now (write ref f) r = ok (record r { objects = update ref (write_facts f) r.objects })

-- a history: each call with the time of the clock
abbrev pub History : Type 0
History = List (ℕ × Call)

unfoldable pub run : History → Registry → Result Registry
unfolding apply
run [] r = ok r
run ((now, c) ∷ calls) r = do r' ← apply now c r; run calls r'

first-IsValid {ℓ} : {A : Type ℓ} (m : Result (Registry × A)) → Keeps m → Returns IsValid (first m)
first-IsValid m h = Returns-bind _ IsValid m _ h (λ p k. k)

written_id :
    (ref x : Ref) (f : Facts) (o : Objects)
    → (update ref (write_facts f) o x).instance_id ≡ (o x).instance_id
unfolding update write_facts
written_id ref x f o = ground arith

pub apply-IsValid :
    (now : ℕ) (c : Call) (r : Registry) → IsValid r → Returns IsValid (apply now c r)
unfolding apply
apply-IsValid now (enrol ref) r v = first-IsValid _ (register-IsValid now ref r v)
apply-IsValid now (snapshot ref e s) r v = first-IsValid _ (accept_snapshot-IsValid now ref e s r v)
apply-IsValid now (beat iid) r v = heartbeat-IsValid now iid r v
apply-IsValid now (leave iid) r v = first-IsValid _ (free_slot-IsValid iid r v)
apply-IsValid now (exit iid) r v = first-IsValid _ (free_slot-IsValid iid r v)
apply-IsValid now (sweep lease at) r v = first-IsValid _ (sweep_expired-IsValid now lease at r v)
apply-IsValid now (mark iid b) r v = mark_untrusted-IsValid iid b r v
apply-IsValid now (write ref f) r v = record {
  places = record {
    occupants = v.places.occupants;
    generations = v.places.generations;
    held = v.places.held;
    placed = v.places.placed;
  };
  tracks = record {
    known = v.tracks.known;
    produced = v.tracks.produced;
    seen = v.tracks.seen;
    named = λ k x e. written_id ref x f r.objects ∙ v.tracks.named k x e;
  };
}

-- A fact that every call keeps on valid registries holds after a history.
pub run_induction :
    (P : Registry → Type 0)
    → ((now : ℕ) (c : Call) (r : Registry) → IsValid r → P r → Returns P (apply now c r))
    → (calls : History) (r : Registry) → IsValid r
    → P r
    → Returns (λ q. IsValid q × P q) (run calls r)
unfolding run
run_induction P keep [] r v p = (v, p)
run_induction P keep ((now, c) ∷ calls) r v p =
    Returns-bind (λ q. IsValid q × P q) _ (apply now c r) _
      (Returns-and IsValid P _ (apply-IsValid now c r v) (keep now c r v p))
      (λ q h. run_induction P keep calls q h.0 h.1)

-- After any history from a new registry of six slots no call has raised, and the registry is valid.
pub run-IsValid :
    (calls : History) (epoch : String) (objects : Objects)
    → Returns IsValid (run calls (new_registry slot_count epoch objects))
run-IsValid calls epoch objects =
    Returns-weaken _ _ (run calls (new_registry slot_count epoch objects)) (λ r v. v.0)
      (run_induction (λ r. Unit {0})
        (λ now c r v u. Returns-weaken _ _ (apply now c r) (λ q k. tt) (apply-IsValid now c r v))
        calls (new_registry slot_count epoch objects) (new_registry-IsValid epoch objects) tt)

-- After any history from a new registry of six slots, an instance that is found in two slots is
-- found in one: a live instance has one key.
pub run_one_slot :
    (calls : History) (epoch : String) (objects : Objects) (r : Registry) (i j : ℕ) (iid : String)
    → run calls (new_registry slot_count epoch objects) ≡ ok r
    → get_elem? r.slot_occupant i ≡ some (some iid)
    → get_elem? r.slot_occupant j ≡ some (some iid)
    → i ≡ j
run_one_slot calls epoch objects r i j iid ran p q =
    let v : IsValid r = rw ran at (run-IsValid calls epoch objects) in
    ground (arith, v.places.held i iid, v.places.held j iid)
