-- ===== src/Opendeck/Model/Pending.antt =====
-- opendeck-broker/opendeck_broker/model.py: the requests that wait for the user.
use home_ailab.Prelude.{
  ◌≡◌, ◌≢◌, refl, ap, String, Bool, true, false, List, [], ◌∷◌, arith, truthy, nonempty, contains,
  IsUnique, contains-append, contains-remove_ne, contains-remove-false, remove-IsUnique,
  append-IsUnique, remove-append_self, eq_iff, eq_refl, some, ◌||◌,
}
use home_ailab.Opendeck.Model.{
  Instance, Status, DisplayAppearance, set_status, add_permission, remove_permission, add_question,
  remove_question, add_id, remove_id, derive_display,
}

-- an event of the session that the instance shows
pub data Event : Type 0 where
  status : Status → Event
  permission_asked permission_done question_asked question_done : String → Event

unfoldable pub observe : Event → Instance → Instance
observe (status s) i = set_status s i
observe (permission_asked x) i = add_permission x i
observe (permission_done x) i = remove_permission x i
observe (question_asked x) i = add_question x i
observe (question_done x) i = remove_question x i

unfoldable pub observe_all : List Event → Instance → Instance
unfolding observe
observe_all [] i = i
observe_all (e ∷ es) i = observe_all es (observe e i)

-- No request is listed twice, and none has an empty id.
pub record IsOrderly (i : Instance) : Type 0 where
  pub permissions : IsUnique i.pending_permission_ids
  pub questions : IsUnique i.pending_question_ids
  pub named_permissions : contains "" i.pending_permission_ids ≡ false
  pub named_questions : contains "" i.pending_question_ids ≡ false

add_id-IsUnique : (x : String) (l : List String) → IsUnique l → IsUnique (add_id x l)
add_id-IsUnique x l u = ground (arith, append-IsUnique x l)

remove_id-IsUnique : (x : String) (l : List String) → IsUnique l → IsUnique (remove_id x l)
remove_id-IsUnique x l u = ground (arith, remove-IsUnique x l u)

add_id_named :
    (x : String) (l : List String) → contains "" l ≡ false → contains "" (add_id x l) ≡ false
unfolding contains
add_id_named x l h = ground (arith, contains-append "" l (x ∷ []), eq_iff x "")

remove_id_named :
    (x : String) (l : List String) → contains "" l ≡ false → contains "" (remove_id x l) ≡ false
remove_id_named x l h = ground (arith, contains-remove-false "" x l h)

observe-IsOrderly : (e : Event) (i : Instance) → IsOrderly i → IsOrderly (observe e i)
unfolding observe set_status add_permission remove_permission add_question remove_question
observe-IsOrderly (status s) i h = record {
  permissions = h.permissions;
  questions = h.questions;
  named_permissions = h.named_permissions;
  named_questions = h.named_questions;
}
observe-IsOrderly (permission_asked x) i h = record {
  permissions = add_id-IsUnique x i.pending_permission_ids h.permissions;
  questions = h.questions;
  named_permissions = add_id_named x i.pending_permission_ids h.named_permissions;
  named_questions = h.named_questions;
}
observe-IsOrderly (permission_done x) i h = record {
  permissions = remove_id-IsUnique x i.pending_permission_ids h.permissions;
  questions = h.questions;
  named_permissions = remove_id_named x i.pending_permission_ids h.named_permissions;
  named_questions = h.named_questions;
}
observe-IsOrderly (question_asked x) i h = record {
  permissions = h.permissions;
  questions = add_id-IsUnique x i.pending_question_ids h.questions;
  named_permissions = h.named_permissions;
  named_questions = add_id_named x i.pending_question_ids h.named_questions;
}
observe-IsOrderly (question_done x) i h = record {
  permissions = h.permissions;
  questions = remove_id-IsUnique x i.pending_question_ids h.questions;
  named_permissions = h.named_permissions;
  named_questions = remove_id_named x i.pending_question_ids h.named_questions;
}

-- From an orderly instance, whatever events come in whatever order, no request is listed twice and
-- none has an empty id.
pub observe_all-IsOrderly :
    (es : List Event) (i : Instance) → IsOrderly i → IsOrderly (observe_all es i)
unfolding observe_all
observe_all-IsOrderly [] i h = h
observe_all-IsOrderly (e ∷ es) i h =
    observe_all-IsOrderly es (observe e i) (observe-IsOrderly e i h)

-- the event does not say that the request `x` is done
abbrev pub Leaves : String → Event → Type 0
Leaves x (permission_done y) = y ≢ x
Leaves x (question_done y) = y ≢ x
Leaves x _ = Unit

abbrev pub AllLeave : String → List Event → Type 0
AllLeave x [] = Unit
AllLeave x (e ∷ es) = Leaves x e × AllLeave x es

-- the request waits, as a permission or as a question
abbrev pub waits : String → Instance → Bool
waits x i = contains x i.pending_permission_ids || contains x i.pending_question_ids

observe-waits :
    (x : String) (e : Event) (i : Instance)
    → Leaves x e
    → waits x i ≡ true
    → waits x (observe e i) ≡ true
unfolding observe set_status add_permission remove_permission add_question remove_question
observe-waits x (status s) i l h = h
observe-waits x (permission_asked y) i l h =
    ground (arith, contains-append x i.pending_permission_ids (y ∷ []))
observe-waits x (permission_done y) i l h =
    ground (arith, contains-remove_ne x y i.pending_permission_ids l)
observe-waits x (question_asked y) i l h =
    ground (arith, contains-append x i.pending_question_ids (y ∷ []))
observe-waits x (question_done y) i l h =
    ground (arith, contains-remove_ne x y i.pending_question_ids l)

observe_visible :
    (e : Event) (i : Instance)
    → ((observe e i).live ≡ i.live) × ((observe e i).telemetry_trusted ≡ i.telemetry_trusted)
unfolding observe set_status add_permission remove_permission add_question remove_question
observe_visible (status s) i = (refl, refl)
observe_visible (permission_asked x) i = (refl, refl)
observe_visible (permission_done x) i = (refl, refl)
observe_visible (question_asked x) i = (refl, refl)
observe_visible (question_done x) i = (refl, refl)

waits-nonempty : (x : String) (l : List String) → contains x l ≡ true → nonempty l ≡ true
unfolding contains
waits-nonempty x [] h = cc
waits-nonempty x (y ∷ l) h = refl

-- While a request waits, a live instance that is trusted is shown as INPUT, whatever idle, busy or
-- retry transitions and whatever other requests come and go.
pub waiting_shows_input :
    (es : List Event) (i : Instance) (x : String)
    → i.live ≡ true
    → i.telemetry_trusted ≡ true
    → waits x i ≡ true
    → AllLeave x es
    → derive_display (some (observe_all es i)) ≡ DisplayAppearance.input
unfolding observe_all derive_display
waiting_shows_input [] i x live trusted w l =
    ground
      (arith, waits-nonempty x i.pending_permission_ids, waits-nonempty x i.pending_question_ids)
waiting_shows_input (e ∷ es) i x live trusted w l =
    waiting_shows_input es (observe e i) x (rw (observe_visible e i).0 live)
      (rw (observe_visible e i).1 trusted) (observe-waits x e i l.0 w) l.1

add-remove_id :
    (x : String) (l : List String)
    → truthy x ≡ true
    → contains x l ≡ false
    → remove_id x (add_id x l) ≡ l
unfolding contains
add-remove_id x l named new =
    ground (arith, contains-append x l (x ∷ []), remove-append_self x l new, eq_refl x)

contains-add_id : (x : String) (l : List String) → truthy x ≡ true → contains x (add_id x l) ≡ true
unfolding contains
contains-add_id x l named = ground (arith, contains-append x l (x ∷ []), eq_refl x)

add_id_again : (x : String) (l : List String) → truthy x ≡ true → add_id x (add_id x l) ≡ add_id x l
add_id_again x l named = ground (arith, contains-add_id x l named)

-- Asking for a request whose id is not empty and that does not wait yet, as a permission or as a
-- question, makes it wait there. Asking for it again changes nothing, and being done with it leaves
-- the instance as it was.
pub request_round_trip :
    (x : String) (i : Instance)
    → truthy x ≡ true
    → contains x i.pending_permission_ids ≡ false
    → contains x i.pending_question_ids ≡ false
    → ((contains x (add_permission x i).pending_permission_ids ≡ true)
        × (add_permission x (add_permission x i) ≡ add_permission x i)
        × (remove_permission x (add_permission x i) ≡ i))
      × ((contains x (add_question x i).pending_question_ids ≡ true)
          × (add_question x (add_question x i) ≡ add_question x i)
          × (remove_question x (add_question x i) ≡ i))
unfolding remove_permission add_permission remove_question add_question
request_round_trip x i named new fresh = (
  (
    contains-add_id x i.pending_permission_ids named,
    ap (λ l. record i { pending_permission_ids = l })
        (add_id_again x i.pending_permission_ids named),
    ap (λ l. record i { pending_permission_ids = l })
        (add-remove_id x i.pending_permission_ids named new),
  ),
  (
    contains-add_id x i.pending_question_ids named,
    ap (λ l. record i { pending_question_ids = l }) (add_id_again x i.pending_question_ids named),
    ap (λ l. record i { pending_question_ids = l })
        (add-remove_id x i.pending_question_ids named fresh),
  ),
)
