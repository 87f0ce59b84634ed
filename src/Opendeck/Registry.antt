-- ===== src/Opendeck/Registry.antt =====
-- opendeck-broker/opendeck_broker/registry.py: which live instance owns which key, the generations
-- of the keys, and the order of the producers' messages.
pub mod Frame
pub mod Shown
pub mod Presses
pub mod Snapshots
mod Tests
pub mod Diagnostics
pub mod Placing
pub mod Validity
pub mod Preserves
pub mod Freeing
pub mod Calls
pub mod Rules
pub mod Accepting
pub mod Staying
pub mod Slots
use home_ailab.Prelude.{
  ℕ, zero, suc, ◌+◌, String, Bool, true, false, Option, none, some, List, [], ◌∷◌, Result, ok,
  Error, ◌>>=◌, from_option, index, store, Dict, has, lookup, insert, erase, keys, values, map,
  replicate, ◌==◌, ltb, leb, str_eq, if◌then◌else◌, not, get_elem?, set, ℤ,
}
use home_ailab.Opendeck.Model.{Instance, Status, DisplayAppearance, display_of, status_value}
use home_ailab.Opendeck.Objects.{Ref, Objects, update}

abbrev pub slot_count : ℕ
slot_count = 6

-- `objects` is the store that the references of `instances` point into.
pub record Registry : Type 0 where
  pub slots : ℕ
  pub broker_epoch : String
  pub slot_occupant : List (Option String)
  pub slot_generation : List ℕ
  pub instances : Dict Ref
  pub instance_slot : Dict (Option ℕ)
  pub producer : Dict (String × ℕ)
  pub last_seen : Dict ℕ
  pub objects : Objects

-- `Registry(slots, broker_epoch)` with `__post_init__`: the occupants' default has `SLOT_COUNT`
-- places whatever `slots` is
unfoldable pub new_registry : ℕ → String → Objects → Registry
new_registry slots epoch objects = record {
  slots = slots;
  broker_epoch = epoch;
  slot_occupant = replicate slot_count none;
  slot_generation = replicate slots 0;
  instances = [];
  instance_slot = [];
  producer = [];
  last_seen = [];
  objects = objects;
}

-- `_touch` at the monotonic time `now`
unfoldable pub touch : ℕ → String → Registry → Registry
touch now iid r = record r { last_seen = insert iid now r.last_seen }

abbrev pub join : Option (Option ℕ) → Option ℕ
join none = none
join (some s) = s

-- `_slot_of`; `_instance_slot.get(iid)` has `None` for a missing key and for an overflow
unfoldable pub slot_of : String → Registry → Option ℕ
slot_of iid r = join (lookup iid r.instance_slot)

-- `occupant == instance_id`
abbrev pub is_held_by : String → Option String → Bool
is_held_by iid none = false
is_held_by iid (some j) = str_eq j iid

-- the writes of `register` before it looks for a slot
unfoldable pub note : ℕ → Ref → Registry → Registry
unfolding touch
note now ref r =
    let inst = r.objects ref in
    touch now inst.instance_id (record r {
      objects = update ref (λ i. record i { live = true }) r.objects;
      instances = insert inst.instance_id ref r.instances;
      producer = insert inst.instance_id (inst.producer_epoch, inst.sequence) r.producer;
    })

-- `existing is not None and self._slot_occupant[existing] == inst.instance_id`
unfoldable pub kept_slot : String → Option ℕ → List (Option String) → Result (Option ℕ)
kept_slot iid none occ = ok none
kept_slot iid (some s) occ = do o ← index occ s; ok (if is_held_by iid o then some s else none)

-- the loop over the slots: the lowest free one of `i`, `i + 1`, … (`n` of them)
unfoldable pub find_free : ℕ → ℕ → List (Option String) → Result (Option ℕ)
find_free i zero occ = ok none
find_free i (suc n) occ = do
  o ← index occ i
  elim o [ none ↦ ok (some i) | some _ ↦ find_free (i + 1) n occ ]

-- the body of that loop at a free slot
unfoldable pub occupy : String → ℕ → Registry → Result Registry
occupy iid i r = do
  occ ← store r.slot_occupant i (some iid)
  g ← index r.slot_generation i
  gens ← store r.slot_generation i (g + 1)
  ok (record r {
    slot_occupant = occ;
    slot_generation = gens;
    instance_slot = insert iid (some i) r.instance_slot;
  })

-- the end of `register`: a free slot is taken, or the instance overflows
unfoldable pub place : String → Option ℕ → Registry → Result (Registry × Option ℕ)
unfolding occupy
place iid (some i) r = do r' ← occupy iid i r; ok (r', some i)
place iid none r = ok (record r { instance_slot = insert iid none r.instance_slot }, none)

-- a slot that is kept ends `register`
unfoldable pub assign : String → Option ℕ → Registry → Result (Registry × Option ℕ)
unfolding find_free place
assign iid (some s) r = ok (r, some s)
assign iid none r = do free ← find_free 0 r.slots r.slot_occupant; place iid free r

unfoldable pub register : ℕ → Ref → Registry → Result (Registry × Option ℕ)
unfolding note slot_of kept_slot assign
register now ref r = do
  let iid = (r.objects ref).instance_id
  let noted = note now ref r
  kept ← kept_slot iid (slot_of iid noted) noted.slot_occupant
  assign iid kept noted

-- the last three writes of an accepted snapshot
unfoldable pub record_snapshot : ℕ → Ref → String → ℕ → Registry → Registry
unfolding touch
record_snapshot now ref epoch seq r =
    let iid = (r.objects ref).instance_id in
    touch now iid (record r {
      instances = insert iid ref r.instances;
      producer = insert iid (epoch, seq) r.producer;
    })

-- `epoch != last_epoch`, then `seq <= last_seq`
abbrev pub is_newer : String → ℕ → String × ℕ → Bool
is_newer epoch seq last = if not (str_eq epoch last.0) then false else not (leb seq last.1)

abbrev pub or_else {ℓ} : {A : Type ℓ} → Option A → A → A
or_else none d = d
or_else (some a) d = a

-- `accept_snapshot` once the last message of the producer, if any, is looked up
unfoldable pub accept_after :
    Option (String × ℕ) → ℕ → Ref → String → ℕ → Registry → Result (Registry × Bool)
unfolding record_snapshot
accept_after none now ref epoch seq r = do
  (r', _) ← register now ref r
  ok (record_snapshot now ref epoch seq r', true)
accept_after (some last) now ref epoch seq r =
    if is_newer epoch seq last
    then ok (record_snapshot now ref epoch seq r, true)
    else ok (r, false)

unfoldable pub accept_snapshot :
    ℕ → Ref → Option String → Option ℕ → Registry → Result (Registry × Bool)
unfolding accept_after
accept_snapshot now ref producer_epoch sequence r =
    let inst = r.objects ref in
    accept_after (lookup inst.instance_id r.producer) now ref
      (or_else producer_epoch inst.producer_epoch) (or_else sequence inst.sequence) r

unfoldable pub heartbeat : ℕ → String → Registry → Registry × Option String
unfolding touch
heartbeat now iid r =
    if not (has iid r.instances) then (r, none) else (touch now iid r, some r.broker_epoch)

-- `if slot is not None and self._slot_occupant[slot] == instance_id: … = None`
unfoldable pub release : String → Option ℕ → List (Option String) → Result (List (Option String))
release iid none occ = ok occ
release iid (some s) occ = do o ← index occ s; if is_held_by iid o then store occ s none else ok occ

unfoldable pub free_slot : String → Registry → Result (Registry × Bool)
unfolding release slot_of
free_slot iid r = do
  occ ← release iid (slot_of iid r) r.slot_occupant
  ok (
    record r {
      slot_occupant = occ;
      instance_slot = erase iid r.instance_slot;
      instances = erase iid r.instances;
      producer = erase iid r.producer;
      last_seen = erase iid r.last_seen;
    },
    has iid r.instances,
  )

unfoldable pub detach : String → Registry → Result (Registry × Bool)
detach iid r = free_slot iid r

unfoldable pub process_exit : String → Registry → Result (Registry × Bool)
process_exit iid r = free_slot iid r

-- `seen is not None and now - seen > lease_seconds`
abbrev pub is_expired : ℕ → ℕ → Option ℕ → Bool
is_expired lease now none = false
is_expired lease now (some seen) = ltb (seen + lease) now

unfoldable pub expire : ℕ → ℕ → String → Registry → Result (Registry × Bool)
expire lease now iid r = elim (is_expired lease now (lookup iid r.last_seen)) [
  | false ↦ ok (r, false)
  | true ↦ do (r', _) ← free_slot iid r; ok (r', true)
]

unfoldable pub sweep_ids : ℕ → ℕ → List String → Registry → Result (Registry × List String)
unfolding expire
sweep_ids lease now [] r = ok (r, [])
sweep_ids lease now (iid ∷ ids) r = do
  (r', gone) ← expire lease now iid r
  (r'', expired) ← sweep_ids lease now ids r'
  ok (r'', if gone then iid ∷ expired else expired)

-- `clock` is what `time.monotonic()` returns if the caller gives no time
unfoldable pub sweep_expired : ℕ → ℕ → Option ℕ → Registry → Result (Registry × List String)
unfolding sweep_ids
sweep_expired clock lease now r = sweep_ids lease (or_else now clock) (keys r.instances) r

unfoldable pub mark_untrusted : String → Bool → Registry → Registry
mark_untrusted iid trusted r = elim (lookup iid r.instances) [
  | none ↦ r
  | some ref ↦ record r {
    objects = update ref (λ i. record i { telemetry_trusted = trusted }) r.objects;
  }
]
