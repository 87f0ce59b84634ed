-- ===== src/Opendeck/Routes.antt =====
-- opendeck-broker/opendeck_broker/api.py: the tests of a request's path.
use Prim.Native.Nat.{◌-◌}
use Prim.Native.Char.{Char, code}
use Prim.Native.String.{String, len, slice}
use mathlib.Core.Bool.{Bool, ◌&&◌}
use mathlib.Core.List.{List, [], ◌∷◌}
use text.Mathlib.Text.{◌==◌ as str_eq, starts_with}
use home_ailab.Prelude.{◌==◌, leb, if◌then◌else◌, Result, index}

-- a character in front of the first part
abbrev grow : Char → List String → List String
grow c [] = String.◌∷◌ c "" ∷ []
grow c (x ∷ xs) = String.◌∷◌ c x ∷ xs

-- `path.split("/")`
unfoldable pub split_path : String → List String
split_path String.[] = "" ∷ []
split_path (String.◌∷◌ c s) =
    let rest = split_path s in if code c == 47 then "" ∷ rest else grow c rest

-- `text.endswith(end)`
abbrev pub ends_with : String → String → Bool
ends_with text end =
    leb (len end) (len text) && str_eq (slice text (len text - len end) (len text)) end

-- `path.startswith("/v1/instances/")`
abbrev pub of_instances : String → Bool
of_instances path = starts_with path "/v1/instances/"

abbrev pub is_heartbeat : String → Bool
is_heartbeat path = of_instances path && ends_with path "/heartbeat"

abbrev pub is_snapshot : String → Bool
is_snapshot path = of_instances path && ends_with path "/snapshot"

-- `path.split("/")[3]`
abbrev pub path_id : String → Result String
path_id path = index (split_path path) 3
