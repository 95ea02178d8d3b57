-- ===== src/Json.antt =====
-- JSON values as Python sees them after `json.loads`: numbers are kept as their text.
use vllm_responses.Prelude.{Text, Bool, Option, none, some, text_eq, if◌then◌else◌}

mutual
  pub data Json : Type 0 where
    null : Json
    boolean : Bool → Json
    number : Text → Json
    string : Text → Json
    array : JsonList → Json
    object : JsonObject → Json

  pub data JsonList : Type 0 where
    nil : JsonList
    cons : Json → JsonList → JsonList

  pub data JsonObject : Type 0 where
    end : JsonObject
    field : Text → Json → JsonObject → JsonObject

-- `value.get(key)`, the keys of an object being distinct
unfoldable pub get_field : JsonObject → Text → Option Json
get_field end key = none
get_field (field k v rest) key = if text_eq k key then some v else get_field rest key

-- `{**old, key: value}`
unfoldable pub put_field : JsonObject → Text → Json → JsonObject
put_field end key value = field key value end
put_field (field k v rest) key value =
    if text_eq k key then field key value rest else field k v (put_field rest key value)

-- `{**old, **new}`
unfoldable pub merge : JsonObject → JsonObject → JsonObject
unfolding put_field
merge old end = old
merge old (field k v rest) = merge (put_field old k v) rest

-- What the standard library's `json` does.
pub record JsonCodec : Type 0 where
  -- `none` is a `JSONDecodeError`.
  pub loads : Text → Option Json
  -- `json.dumps(value, separators=(",", ":"), ensure_ascii=False)`
  pub dumps : JsonObject → Text
