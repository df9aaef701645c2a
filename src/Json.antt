-- ===== src/Json.antt =====
-- The values that `json.loads` returns, with the Python operations the source applies to them
-- (`bool`, `dict.get`, `isinstance`). Numbers are natural: the source compares statuses, passes
-- durations on and reads time limits, all counted in a unit of the clock.
use claude_code_cli_local_ga.Prelude.{
  List, [], ◌∷◌, ℕ, String, Bool, true, false, not, ◌||◌, Option, none, some, ◌==◌, str_eq,
  if◌then◌else◌,
}

mutual
  pub data Json : Type 0 where
    null : Json
    bool : Bool → Json
    num : ℕ → Json
    str : String → Json
    arr : Items → Json
    obj : Fields → Json

  pub data Items : Type 0 where
    nil : Items
    cons : Json → Items → Items

  pub data Fields : Type 0 where
    end : Fields
    field : String → Json → Fields → Fields

-- `bool(v)`
abbrev pub truthy : Json → Bool
truthy null = false
truthy (bool b) = b
truthy (num n) = not (n == 0)
truthy (str s) = not (str_eq s "")
truthy (arr nil) = false
truthy (arr (cons v vs)) = true
truthy (obj end) = false
truthy (obj (field k v fs)) = true

-- `d.get(key)` with its default
unfoldable pub get_or : String → Json → Fields → Json
get_or k d end = d
get_or k d (field j v fs) = if str_eq j k then v else get_or k d fs

-- `key in d`
abbrev pub has_key : String → Fields → Bool
has_key k end = false
has_key k (field j v fs) = str_eq j k || has_key k fs

-- `v == "..."` for a text
abbrev pub is_text : String → Json → Bool
is_text t (str s) = str_eq s t
is_text t v = false

-- `isinstance(v, str)`, with the text
abbrev pub as_text : Json → Option String
as_text (str s) = some s
as_text v = none

-- A field that a dict has only under a condition.
abbrev pub field_if : Bool → String → Json → Fields → Fields
field_if b k v rest = if b then field k v rest else rest

-- A dict and a list, written by their items
abbrev pub dict : List (String × Json) → Fields
dict [] = end
dict ((k, v) ∷ rest) = field k v (dict rest)

abbrev pub items : List Json → Items
items [] = nil
items (v ∷ vs) = cons v (items vs)

abbrev pub list : List Json → Json
list vs = arr (items vs)

infixr 70 ◌:=◌
abbrev pub ◌:=◌ : String → Json → String × Json
k := v = (k, v)

abbrev pub object : List (String × Json) → Json
object fields = obj (dict fields)
