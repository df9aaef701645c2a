-- ===== src/ApiDocs/Conforms.antt =====
-- When a JSON value fits a JSON schema, for the keywords that the OpenAPI document of
-- src/claude_pool/apidocs.py uses. Other keywords, such as "default", demand nothing.
use claude_code_cli_local_ga.Prelude.{
  String, Bool, true, false, ◌&&◌, ◌||◌, Option, none, some, str_eq, if◌then◌else◌,
}
use claude_code_cli_local_ga.Json.{
  Json, null, bool, num, str, arr, obj, Items, nil, cons, Fields, end, field, has_key, is_text,
}

abbrev pub has_type : String → Json → Bool
has_type t null = str_eq t "null"
has_type t (bool b) = str_eq t "boolean"
has_type t (num n) = str_eq t "integer" || str_eq t "number"
has_type t (str s) = str_eq t "string"
has_type t (arr vs) = str_eq t "array"
has_type t (obj fs) = str_eq t "object"

abbrev pub has_some_type : Items → Json → Bool
has_some_type nil v = false
has_some_type (cons (str t) ts) v = has_type t v || has_some_type ts v
has_some_type (cons _ ts) v = has_some_type ts v

-- The keyword "type": a type, or a list of types
abbrev pub fits_type : Json → Json → Bool
fits_type (str t) v = has_type t v
fits_type (arr ts) v = has_some_type ts v
fits_type _ v = false

-- The keyword "enum", with texts
abbrev pub is_among : Items → Json → Bool
is_among nil v = false
is_among (cons (str t) ts) v = is_text t v || is_among ts v
is_among (cons _ ts) v = is_among ts v

abbrev pub fits_enum : Json → Json → Bool
fits_enum (arr ts) v = is_among ts v
fits_enum _ v = false

-- The keyword "required", which demands nothing of a value that is no object
abbrev pub has_all : Items → Fields → Bool
has_all nil fs = true
has_all (cons (str k) ks) fs = has_key k fs && has_all ks fs
has_all (cons _ ks) fs = has_all ks fs

abbrev pub has_required : Json → Json → Bool
has_required (arr ks) (obj fs) = has_all ks fs
has_required _ v = true

-- The field of a value, if it is an object that has it
abbrev pub field_of : String → Fields → Option Json
field_of k end = none
field_of k (field j v fs) = if str_eq j k then some v else field_of k fs

-- A keyword that is there demands its test.
abbrev pub demands : Bool → Bool → Bool
demands true test = test
demands false test = true

abbrev pub given : (Json → Bool) → Option Json → Bool
given test none = true
given test (some v) = test v

abbrev pub all_items : (Json → Bool) → Items → Bool
all_items test nil = true
all_items test (cons v vs) = test v && all_items test vs

unfoldable mutual
  -- A value against a schema.
  pub valid : Json → Json → Bool
  valid (obj keywords) v = valid_keywords keywords v
  valid _ v = false

  pub valid_keywords : Fields → Json → Bool
  valid_keywords end v = true
  valid_keywords (field k w rest) v =
      demands (str_eq k "type") (fits_type w v)
      && (demands (str_eq k "enum") (fits_enum w v)
          && (demands (str_eq k "required") (has_required w v)
              && (demands (str_eq k "properties") (valid_fields w v)
                  && (demands (str_eq k "items") (valid_items w v) && valid_keywords rest v))))

  -- The keyword "properties"
  pub valid_fields : Json → Json → Bool
  valid_fields (obj schemas) (obj fs) = valid_each schemas fs
  valid_fields _ v = true

  pub valid_each : Fields → Fields → Bool
  valid_each end fs = true
  valid_each (field k w rest) fs = given (valid w) (field_of k fs) && valid_each rest fs

  -- The keyword "items", a schema again
  pub valid_items : Json → Json → Bool
  valid_items (obj keywords) (arr vs) = all_items (valid_keywords keywords) vs
  valid_items (obj keywords) v = true
  valid_items _ v = false
