-- ===== src/Opendeck/Registry/Diagnostics.antt =====
-- opendeck-broker/opendeck_broker/registry.py: `overflow` and `to_diagnostics`, the registry's report.
use home_ailab.Prelude.{
  String, Bool, Option, none, some, List, [], ◌∷◌, Result, ok, Error, ◌>>=◌, from_option, Dict,
  lookup, values, map, if◌then◌else◌, ℕ, ℤ,
}
use home_ailab.Opendeck.Model.{Instance, status_value}
use home_ailab.Opendeck.Registry.{Registry}
use home_ailab.Opendeck.Registry.Frame.{SlotState, frame}

-- `slot is None and self._instances[iid].live`
unfoldable pub is_overflow : String → Option ℕ → Registry → Result Bool
is_overflow iid (some s) r = ok Bool.false
is_overflow iid none r = do
  ref ← from_option Error.key_error (lookup iid r.instances)
  ok (r.objects ref).live

unfoldable pub overflow_of : Dict (Option ℕ) → Registry → Result (List String)
unfolding is_overflow
overflow_of [] r = ok []
overflow_of ((iid, slot) ∷ d) r = do
  here ← is_overflow iid slot r
  rest ← overflow_of d r
  ok (if here then iid ∷ rest else rest)

unfoldable pub overflow : Registry → Result (List String)
unfolding overflow_of
overflow r = overflow_of r.instance_slot r

pub record LiveInstance : Type 0 where
  pub instance_id : String
  pub pid : ℤ
  pub status : String
  pub pending_permission_ids : List String
  pub pending_question_ids : List String

unfoldable pub live_instance : Instance → LiveInstance
live_instance i = record {
  instance_id = i.instance_id;
  pid = i.process.pid;
  status = status_value i.status;
  pending_permission_ids = i.pending_permission_ids;
  pending_question_ids = i.pending_question_ids;
}

pub record Diagnostics : Type 0 where
  pub broker_epoch : String
  pub slots : List SlotState
  pub overflow : List String
  pub live_instances : List LiveInstance

unfoldable pub to_diagnostics : Registry → Result Diagnostics
unfolding frame overflow live_instance
to_diagnostics r = do
  f ← frame r
  o ← overflow r
  ok (record {
    broker_epoch = r.broker_epoch;
    slots = f;
    overflow = o;
    live_instances = map (λ ref. live_instance (r.objects ref)) (values r.instances);
  })
