-- ===== src/Router/Requests.antt =====
-- router-legacy/router.py: what the router reads of a request: its headers, its session, whether it
-- carries an image, and whether it may pass. Texts are ASCII.
pub mod Images
use home_ailab.Prelude.{
  ℕ, String, Bool, true, false, not, ◌&&◌, ◌||◌, Option, none, some, List, [], ◌∷◌, Dict, str_eq,
  truthy, contains, starts_with, lower, strip, text_drop, if◌then◌else◌,
}
use home_ailab.Router.Json.{Json, Items, Fields, get_field}

-- the headers of a request: a dict in the order of the message
abbrev pub Headers : Type 0
Headers = Dict String

unfoldable pub hget : String → Headers → Option String
unfolding lower
hget key [] = none
hget key ((k, v) ∷ headers) = if str_eq (lower k) (lower key) then some v else hget key headers

abbrev placeholders : List String
placeholders = "no-key" ∷ "test" ∷ "none" ∷ "null" ∷ "local" ∷ []

-- `val and val.strip() and val.strip().lower() not in {"", ...}`
abbrev is_session : String → Bool
is_session val =
    truthy val && truthy (strip val) && not (contains (lower (strip val)) ("" ∷ placeholders))

abbrev session_header : Option String → Option String
session_header none = none
session_header (some val) = if is_session val then some (strip val) else none

abbrev or_text : Option String → Option String → Option String
or_text none later = later
or_text (some s) later = some s

-- the loop over the names of session headers
unfoldable pub first_header : List String → Headers → Option String
unfolding hget lower strip contains
first_header [] headers = none
first_header (key ∷ names) headers =
    or_text (session_header (hget key headers)) (first_header names headers)

abbrev session_headers : List String
session_headers =
    "X-Qwen-Session-ID" ∷ "X-Claude-Session-ID" ∷ "X-Session-ID" ∷ "X-Conversation-ID" ∷ []

abbrev or_empty : Option String → String
or_empty none = ""
or_empty (some s) = s

-- a token that is not the router's own key
abbrev own_key_out : String → String → String
own_key_out api_key token =
    if truthy api_key && str_eq (lower token) (lower api_key) then "" else token

abbrev token_session : String → Option String
token_session token =
    if truthy token && not (contains (lower token) placeholders) then some token else none

unfoldable pub bearer_session : String → String → Option String
unfolding lower strip text_drop contains
bearer_session api_key auth =
    if starts_with (lower auth) "bearer "
    then token_session (own_key_out api_key (strip (text_drop 7 auth)))
    else none

abbrev text_session : Option Json → Option String
text_session (some (Json.text s)) = if truthy (strip s) then some (strip s) else none
text_session (some Json.null) = none
text_session (some (Json.bool b)) = none
text_session (some (Json.num n)) = none
text_session (some (Json.arr xs)) = none
text_session (some (Json.obj d)) = none
text_session none = none

abbrev ids_session : Fields → Option String
ids_session d =
    or_text (text_session (get_field "session_id" d)) (text_session (get_field "conversation_id" d))

abbrev meta_session : Option Json → Option String
meta_session (some (Json.obj d)) = ids_session d
meta_session (some Json.null) = none
meta_session (some (Json.bool b)) = none
meta_session (some (Json.num n)) = none
meta_session (some (Json.text s)) = none
meta_session (some (Json.arr xs)) = none
meta_session none = none

-- the session of the body, which is none where it is no JSON
unfoldable pub body_session : Option Json → Option String
unfolding get_field strip
body_session none = none
body_session (some (Json.obj d)) = or_text (ids_session d) (meta_session (get_field "metadata" d))
body_session (some Json.null) = none
body_session (some (Json.bool b)) = none
body_session (some (Json.num n)) = none
body_session (some (Json.text s)) = none
body_session (some (Json.arr xs)) = none

unfoldable pub extract_session_id : String → Headers → Option Json → Option String
unfolding first_header bearer_session body_session
extract_session_id api_key headers payload = or_text (first_header session_headers headers) (
    or_text (bearer_session api_key (or_empty (hget "Authorization" headers)))
      (body_session payload))

abbrev image_types : List String
image_types = "image" ∷ "image_url" ∷ "image_base64" ∷ []

abbrev is_image_type : Option Json → Bool
is_image_type (some (Json.text s)) = contains (lower s) image_types
is_image_type (some Json.null) = false
is_image_type (some (Json.bool b)) = false
is_image_type (some (Json.num n)) = false
is_image_type (some (Json.arr xs)) = false
is_image_type (some (Json.obj d)) = false
is_image_type none = false

abbrev starts_image : Option Json → Bool
starts_image (some (Json.text s)) = starts_with (lower s) "image"
starts_image (some Json.null) = false
starts_image (some (Json.bool b)) = false
starts_image (some (Json.num n)) = false
starts_image (some (Json.arr xs)) = false
starts_image (some (Json.obj d)) = false
starts_image none = false

abbrev is_image_source : Option Json → Bool
is_image_source (some (Json.obj d)) = starts_image (get_field "type" d)
is_image_source (some Json.null) = false
is_image_source (some (Json.bool b)) = false
is_image_source (some (Json.num n)) = false
is_image_source (some (Json.text s)) = false
is_image_source (some (Json.arr xs)) = false
is_image_source none = false

abbrev is_image_field : Option Json → Bool
is_image_field (some (Json.text s)) = true
is_image_field (some (Json.obj d)) = true
is_image_field (some Json.null) = false
is_image_field (some (Json.bool b)) = false
is_image_field (some (Json.num n)) = false
is_image_field (some (Json.arr xs)) = false
is_image_field none = false

-- what a dict says of itself: its type, its source, or its field `image`
unfoldable pub is_block : Fields → Bool
unfolding get_field lower contains
is_block d =
    is_image_type (get_field "type" d)
    || is_image_source (get_field "source" d)
    || is_image_field (get_field "image" d)

unfoldable mutual
  pub has_image : Json → Bool
  has_image Json.null = false
  has_image (Json.bool b) = false
  has_image (Json.num n) = false
  has_image (Json.text s) = false
  has_image (Json.arr xs) = item_has_image xs
  has_image (Json.obj d) = is_block d || field_has_image d

  pub item_has_image : Items → Bool
  item_has_image Items.nil = false
  item_has_image (Items.cons x xs) = has_image x || item_has_image xs

  pub field_has_image : Fields → Bool
  field_has_image Fields.end = false
  field_has_image (Fields.field k v d) = has_image v || field_has_image d

unfoldable pub body_has_image : Option Json → Bool
unfolding has_image is_block
body_has_image none = false
body_has_image (some payload) = has_image payload

abbrev is_key : String → Option String → Bool
is_key api_key none = false
is_key api_key (some x) = truthy x && str_eq (strip x) api_key

-- the tests of the Authorization header
unfoldable pub authorized_by : String → String → Bool
unfolding strip text_drop
authorized_by api_key auth =
    if starts_with auth "Bearer "
    then str_eq (strip (text_drop 7 auth)) api_key
    else if starts_with auth "Basic "
    then true
    else str_eq (strip auth) api_key

unfoldable pub auth_ok : String → Headers → Bool
unfolding hget authorized_by strip
auth_ok api_key headers =
    if not (truthy api_key)
    then true
    else if is_key api_key (hget "x-api-key" headers)
    then true
    else authorized_by api_key (or_empty (hget "authorization" headers))
