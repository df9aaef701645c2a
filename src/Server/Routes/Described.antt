-- ===== src/Server/Routes/Described.antt =====
-- The routes of src/claude_pool/server.py and the documents of src/claude_pool/apidocs.py, compared.
use claude_code_cli_local_ga.Prelude.{
  arith, if◌then◌else◌, ℕ, String, text_append, Bool, false, ◌||◌, ◌&&◌, List, [], ◌∷◌, ◌≡◌, refl,
  str_eq, subst, eq_iff, Bool-cases, inl, inr,
}
use claude_code_cli_local_ga.Json.{obj, Fields, end, get_or, has_key}
use claude_code_cli_local_ga.Config.{PoolConfig}
use claude_code_cli_local_ga.ApiDocs.Info.{api_info}
use claude_code_cli_local_ga.ApiDocs.OpenApi.{openapi_paths}
use claude_code_cli_local_ga.ApiDocs.Responses.{fields_in}
use claude_code_cli_local_ga.Server.Routes.{Route, routes}

-- The method in lower case, as OpenAPI has it.
abbrev pub lowered : String → String
lowered m =
    if str_eq m "GET"
    then "get"
    else if str_eq m "POST"
    then "post"
    else if str_eq m "DELETE"
    then "delete"
    else m

-- An operation that the OpenAPI document describes.
abbrev pub is_described : String → String → Fields → Bool
is_described method path paths = has_key method (fields_in (get_or path (obj end) paths))

-- A route that create_app adds.
abbrev pub is_routed : String → String → List Route → Bool
is_routed method path [] = false
is_routed method path (r ∷ rs) =
    (str_eq r.path path && str_eq (lowered r.method) method) || is_routed method path rs

-- The routes of methods other than HEAD
abbrev pub documented : List Route → List Route
documented [] = []
documented (r ∷ rs) = if str_eq r.method "HEAD" then documented rs else r ∷ documented rs

-- "GET /jobs" and the like
abbrev pub is_labelled : String → List Route → Bool
is_labelled label [] = false
is_labelled label (r ∷ rs) =
    str_eq (text_append r.method (text_append " " r.path)) label || is_labelled label rs

-- A property of all texts, by one text and the others
or_else :
    (P : String → Type 0) (literal path : String)
    → P literal
    → (str_eq literal path ≡ false → P path)
    → P path
or_else P literal path here there = elim (Bool-cases (str_eq literal path)) [
  | inl e ↦ subst P ((eq_iff literal path).0 e) here
  | inr e ↦ there e
]

module _ (version : String) (shown : ℕ → String) (config : PoolConfig) where
  openapi-routed :
      (method path : String)
      → is_described method path (openapi_paths shown config)
        ≡ is_routed method path (documented routes)
  unfolding openapi_paths routes get_or
  openapi-routed method path = or_else P "/generate" path refl λ a. or_else P "/jobs" path refl λ b.
      or_else P "/jobs/{job_id}" path refl λ c. or_else P "/health" path refl λ d.
        or_else P "/" path refl λ e.
          or_else P "/docs" path refl
            λ f. or_else P "/openapi.json" path refl λ g. rw (a, b, c, d, e, f, g) refl
    where
      P : String → Type 0
      P p =
          is_described method p (openapi_paths shown config)
          ≡ is_routed method p (documented routes)

  endpoints-labelled :
      (label : String)
      → has_key label (fields_in (get_or "endpoints" (obj end) (api_info version shown config)))
        ≡ is_labelled label (documented routes)
  unfolding api_info routes get_or
  endpoints-labelled label = ground arith

  -- For every configuration, the OpenAPI document describes exactly the methods and paths that
  -- create_app routes, but for the HEAD that add_get adds to each GET; and the endpoints listed at
  -- GET / are exactly these too.
  pub routes_described :
      ((method path : String)
        → is_described method path (openapi_paths shown config)
          ≡ is_routed method path (documented routes))
      × ((label : String)
          → has_key label (fields_in (get_or "endpoints" (obj end) (api_info version shown config)))
            ≡ is_labelled label (documented routes))
  routes_described = (openapi-routed, endpoints-labelled)
