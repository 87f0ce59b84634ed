-- ===== src/Router/Json.antt =====
-- What `json.loads` returns. The numbers that the router reads are whole and not negative.
use home_ailab.Prelude.{ℕ, String, Bool, Option, none, some, str_eq, if◌then◌else◌}

mutual
  pub data Json : Type 0 where
    null : Json
    bool : Bool → Json
    num : ℕ → Json
    text : String → Json
    arr : Items → Json
    obj : Fields → Json

  pub data Items : Type 0 where
    nil : Items
    cons : Json → Items → Items

  pub data Fields : Type 0 where
    end : Fields
    field : String → Json → Fields → Fields

-- d.get(key)
unfoldable pub get_field : String → Fields → Option Json
get_field k end = none
get_field k (field j v d) = if str_eq j k then some v else get_field k d
