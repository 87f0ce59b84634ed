-- ===== src/Router/Tests.antt =====
-- router-legacy/router.py: concrete requests, and the instances of the theorems at them.
use home_ailab.Prelude.{
  ℕ, ◌+◌, ◌*◌, ◌≤◌, ◌<◌, ◌≡◌, refl, ◌↔◌, String, true, false, Option, none, some, List, [], ◌∷◌,
  lookup, arith, length, keys, erase, contains, insert, values,
}
use home_ailab.Router.Json.{Json, Items, Fields}
use home_ailab.Router.Backends.{Backend, new_backend, available, Answers, Parsing, failed, answer}
use home_ailab.Router.Requests.{hget, auth_ok, has_image, is_block}
use home_ailab.Router.Requests.Images.{has_image_iff, Within}
use home_ailab.Router.Routing.{Router, Lease, new_router, select, by_name}
use home_ailab.Router.Routing.Choosing.{IsNamed, IsFree}
use home_ailab.Router.Routing.Found.{IsFirst}
use home_ailab.Router.Routing.Selection.{
  select-none_iff, select-IsFirst, select-sticks, select-spills, select-half_used,
}
use home_ailab.Router.Traffic.{
  Traffic, Event, probed, arrived, ended, unreachable, quiet, run, count_where, is_on,
}
use home_ailab.Router.Traffic.Slots.{held}
use home_ailab.Router.Traffic.Balance.{IsBalanced}
use home_ailab.Router.Traffic.Runs.{run-IsBalanced}
use home_ailab.Router.Traffic.Losses.{lost_slots, endings, endings-release}
use home_ailab.Router.Traffic.Start.{new_router-IsBalanced}
use home_ailab.Router.Proxy.{Config, Message, proxy}
use home_ailab.Router.Proxy.Guards.{Passed, proxy-Passed, basic-passes}

abbrev fast : Backend
fast = new_backend "red-pcv2-5090" "http://red:8006" "vllm" 1 2

abbrev slow : Backend
slow = new_backend "databrick-3090" "http://databrick:8006" "llama" 2 1

abbrev machines : List Backend
machines = fast ∷ slow ∷ []

abbrev start : Router
start = new_router machines

start-IsBalanced : IsBalanced (quiet start)
unfolding new_backend by_name keys contains
start-IsBalanced = new_router-IsBalanced machines (refl, (refl, tt)) (refl, (refl, tt))

start-IsNamed : IsNamed start.backends
unfolding new_router
start-IsNamed = record {
  unique = start-IsBalanced.sound.unique;
  named = start-IsBalanced.sound.named;
}

abbrev reading : Parsing
reading = record { last_float = λ s. 0; int = λ s. none; message = λ e. "error" }

abbrev silent : Answers
silent = record { health = failed "timeout"; metrics = failed "timeout"; slots = failed "timeout" }

-- two requests go to the first backend, which loses the second one; the other backend goes down
abbrev busy_day : List (ℕ × Event)
busy_day =
    (10, arrived (some "chat-1") none false 500)
    ∷ (11, arrived none none false 20)
    ∷ (12, unreachable 0)
    ∷ (13, probed "databrick-3090" silent)
    ∷ (20, ended 0 true 99)
    ∷ (21, arrived (some "chat-1") none false 40)
    ∷ []

abbrev evening : Traffic
evening = run reading 1800 busy_day (quiet start)

evening_slots :
    (held (lookup "red-pcv2-5090" evening.router.backends) ≡ 2)
    × (length evening.under_way ≡ 1)
    × (length evening.lost ≡ 1)
unfolding run lookup new_router new_backend insert values keys erase
evening_slots = (refl, refl, refl)

run-IsBalanced_example : IsBalanced evening
run-IsBalanced_example = run-IsBalanced reading 1800 busy_day (quiet start) start-IsBalanced

-- the day up to the loss
abbrev noon : Traffic
noon =
    run reading 1800
      ((10, arrived (some "chat-1") none false 500)
        ∷ (11, arrived none none false 20)
        ∷ (12, unreachable 0)
        ∷ [])
      (quiet start)

noon-IsBalanced : IsBalanced noon
noon-IsBalanced = run-IsBalanced reading 1800 _ (quiet start) start-IsBalanced

later : List (ℕ × Event)
later = (20, ended 0 true 99) ∷ []

abbrev no_backend : Backend
no_backend = new_backend "" "" "" 0 0

abbrev or_none : Option Backend → Backend
or_none none = no_backend
or_none (some b) = b

abbrev after_noon : Backend
after_noon = or_none (lookup "red-pcv2-5090" (run reading 1800 later noon).router.backends)

lost_slots_example :
    count_where (is_on "red-pcv2-5090") noon.lost + available after_noon ≤ after_noon.cap
unfolding run lookup new_router new_backend later insert values keys erase
lost_slots_example =
    lost_slots reading 1800 later noon "red-pcv2-5090" after_noon noon-IsBalanced refl

endings-release_example :
    (held (
        lookup "red-pcv2-5090"
          (run reading 1800 (endings reading 1800 ((20, true, 99) ∷ [])) noon).router.backends)
      ≡ count_where (is_on "red-pcv2-5090") noon.lost)
    × ((run reading 1800 (endings reading 1800 ((20, true, 99) ∷ [])) noon).router.g_req_inflight
        ≡ length noon.lost)
unfolding run lookup new_router new_backend insert values keys erase
endings-release_example =
    endings-release reading 1800 ((20, true, 99) ∷ []) noon "red-pcv2-5090" noon-IsBalanced refl

select-none_iff_example :
    ((select 1800 10 none none false start).1 ≡ none)
    ↔ ((k : String) (b : Backend) → lookup k start.backends ≡ some b → ¬ IsFree b)
select-none_iff_example = select-none_iff 1800 10 none none false start start-IsNamed

select-IsFirst_example : (b : Backend) × (b.name ≡ "red-pcv2-5090") × IsFirst b start
unfolding select new_router new_backend lookup keys values
select-IsFirst_example =
    select-IsFirst 1800 10 (some "chat-1") none start "red-pcv2-5090" start-IsNamed (λ s e. refl)
      refl

abbrev chat_lease : Lease
chat_lease = record { backend = "databrick-3090"; expires_at = 900 }

abbrev leased : Router
leased = record start { sessions = ("chat-1", chat_lease) ∷ [] }

leased-IsNamed : IsNamed leased.backends
unfolding new_router
leased-IsNamed = start-IsNamed

select-sticks_example : (select 1800 10 (some "chat-1") none false leased).1 ≡ some "databrick-3090"
unfolding new_router new_backend lookup
select-sticks_example =
    select-sticks 1800 10 "chat-1" none leased chat_lease slow leased-IsNamed refl refl refl refl
      (refl, omega arith)

select-spills_example :
    select 1800 10 none (some "dgxsparx") true start ≡ select 1800 10 none none false start
unfolding new_router new_backend lookup
select-spills_example = select-spills 1800 10 none "dgxsparx" start (λ b e. absurd (cc))

select-half_used_example : 2 * fast.inflight < fast.cap
unfolding select new_router new_backend lookup keys values
select-half_used_example =
    select-half_used 1800 10 none none false start "red-pcv2-5090" fast start-IsNamed refl refl
      (omega arith)

-- the payload of a chat with a picture
abbrev picture : Json
picture = Json.obj (
    Fields.field "messages"
      (Json.arr (
        Items.cons
          (Json.obj (
            Fields.field "content"
              (Json.arr (
                Items.cons (Json.obj (Fields.field "type" (Json.text "image_url") Fields.end))
                  Items.nil))
              Fields.end))
          Items.nil))
      Fields.end)

picture-has_image : has_image picture ≡ true
unfolding has_image is_block
picture-has_image = refl

has_image_iff_example :
    (has_image picture ≡ true) ↔ ((d : Fields) × (is_block d ≡ true) × Within d picture)
has_image_iff_example = has_image_iff picture

abbrev settings : Config
settings = record { api_key = "s3cret"; vision_backend = "dgxsparx"; session_ttl = 1800 }

abbrev chat : Message
chat = record {
  path = "v1/chat/completions";
  query = "";
  headers = ("X-API-Key", "s3cret") ∷ ("Authorization", "Bearer s3cret") ∷ ("Accept", "*/*") ∷ [];
  size = 120;
  payload = some (Json.obj Fields.end);
}

-- the first backend answers its probe, the second one does not
abbrev answers : String → Answers
answers name = record { health = answer 200 ""; metrics = answer 200 []; slots = failed "timeout" }

proxy-Passed_example : Passed settings chat (("Accept", "*/*") ∷ ("connection", "keep-alive") ∷ [])
unfolding proxy new_router new_backend lookup insert values keys erase
proxy-Passed_example =
    proxy-Passed reading settings 10 answers chat "red-pcv2-5090"
      "http://red:8006/v1/chat/completions" (("Accept", "*/*") ∷ ("connection", "keep-alive") ∷ [])
      start refl

basic-passes_example : auth_ok "s3cret" (("authorization", "Basic eDp5") ∷ []) ≡ true
unfolding hget
basic-passes_example =
    basic-passes "s3cret" (("authorization", "Basic eDp5") ∷ []) "Basic eDp5" refl refl refl
