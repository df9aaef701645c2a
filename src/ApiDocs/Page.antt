-- ===== src/ApiDocs/Page.antt =====
-- The HTML page of src/claude_pool/apidocs.py. `version`, `shown` and `shown_sec` stand for the version
-- of the package, `str` of a whole number and `str` of a time.
pub mod Markup
use Prim.Native.Char.{Char, code}
use claude_code_cli_local_ga.Prelude.{
  ℕ, String, text_append, Bool, List, [], ◌∷◌, ◌++◌, ◌==◌, if◌then◌else◌,
}
use claude_code_cli_local_ga.Config.{PoolConfig}
use claude_code_cli_local_ga.ApiDocs.{Row, failure_kinds}
use claude_code_cli_local_ga.ApiDocs.Info.{
  summary, constraints, curl_example, python_example, background_example, base_url, endpoint_texts,
}

-- What `html.escape` writes for a character: 38, 60, 62, 34 and 39 are & < > " and '.
abbrev pub escape_char : Char → String
escape_char c =
    if code c == 38
    then "&amp;"
    else if code c == 60
    then "&lt;"
    else if code c == 62
    then "&gt;"
    else if code c == 34
    then "&quot;"
    else if code c == 39
    then "&#x27;"
    else String.◌∷◌ c String.[]

unfoldable pub escape : String → String
escape String.[] = String.[]
escape (String.◌∷◌ c s) = text_append (escape_char c) (escape s)

-- `"".join(parts)`
unfoldable pub concat : List String → String
concat [] = ""
concat (p ∷ ps) = text_append p (concat ps)

abbrev pub yes_no : Bool → String
yes_no b = if b then "yes" else "no"

unfoldable pub failure_rows : (ℕ → String) → List Row → List String
unfolding concat escape
failure_rows shown [] = []
failure_rows shown (r ∷ rows) =
    concat (
      "<tr>"
      ∷ "<td><code>"
      ∷ escape r.kind
      ∷ "</code></td>"
      ∷ "<td>"
      ∷ shown r.status
      ∷ "</td>"
      ∷ "<td>"
      ∷ yes_no r.retryable
      ∷ "</td>"
      ∷ "<td>"
      ∷ escape r.meaning
      ∷ "</td>"
      ∷ "</tr>"
      ∷ [])
    ∷ failure_rows shown rows

-- _failure_table
unfoldable pub failure_table : (ℕ → String) → String
unfolding failure_rows concat
failure_table shown = concat (
    "<table><thead><tr><th>kind</th><th>HTTP</th><th>Retryable</th>"
    ∷ "<th>Meaning</th></tr></thead><tbody>"
    ∷ concat (failure_rows shown failure_kinds)
    ∷ "</tbody></table>"
    ∷ [])

-- The rows of the endpoints, and the items of the constraints
unfoldable pub endpoint_rows : List (String × String) → List String
unfolding concat escape
endpoint_rows [] = []
endpoint_rows ((k, v) ∷ rest) =
    concat ("<tr><td><code>" ∷ escape k ∷ "</code></td><td>" ∷ escape v ∷ "</td></tr>" ∷ [])
    ∷ endpoint_rows rest

unfoldable pub constraint_items : List String → List String
unfolding concat escape
constraint_items [] = []
constraint_items (c ∷ cs) = concat ("<li>" ∷ escape c ∷ "</li>" ∷ []) ∷ constraint_items cs

-- The style sheet
abbrev pub page_style : List String
page_style =
    "<style>\n" ∷ " :root { color-scheme: light dark; }\n"
    ∷ " body { font: 15px/1.6 ui-sans-serif, system-ui, sans-serif; max-width: 62rem;\n"
    ∷ "        margin: 2rem auto; padding: 0 1.25rem; }\n" ∷ " h1 { margin-bottom: .25rem; }\n"
    ∷ " h1 small { font-weight: 400; opacity: .6; font-size: .55em; }\n"
    ∷ " h2 { margin-top: 2rem; font-size: 1.1rem; }\n"
    ∷ " table { border-collapse: collapse; width: 100%; margin: .75rem 0 1.5rem; }\n"
    ∷ " th, td { text-align: left; padding: .4rem .6rem; border-bottom: 1px solid #8884;\n"
    ∷ "           vertical-align: top; }\n"
    ∷ " code, pre { font-family: ui-monospace, SFMono-Regular, Menlo, monospace; }\n"
    ∷ " pre { background: #8881; padding: .8rem 1rem; border-radius: 6px; overflow-x: auto; }\n"
    ∷ " .warn { border-left: 3px solid #d97706; padding: .5rem .9rem; background: #d9770615; }\n"
    ∷ []

-- The page as far as the curl example
unfoldable pub page_opening : String → List String
unfolding escape concat endpoint_rows
page_opening version =
    "<!doctype html>\n"
    ∷ "<html lang=\"en\"><head><meta charset=\"utf-8\">\n"
    ∷ "<meta name=\"viewport\" content=\"width=device-width, initial-scale=1\">\n"
    ∷ "<title>claude-pool "
    ∷ escape version
    ∷ "</title>\n"
    ∷ concat page_style
    ∷ "</style></head><body>\n"
    ∷ "<h1>claude-pool <small>"
    ∷ escape version
    ∷ "</small></h1>\n"
    ∷ "<p>"
    ∷ escape summary
    ∷ "</p>\n"
    ∷ "<p class=\"warn\"><strong>This spends the machine owner's Claude subscription quota.</strong>\n"
    ∷ "   Check with them before issuing bulk requests.</p>\n"
    ∷ "\n"
    ∷ "<h2>Endpoints</h2>\n"
    ∷ "<table><thead><tr><th>Endpoint</th><th>Description</th></tr></thead>\n"
    ∷ "<tbody>"
    ∷ concat (endpoint_rows endpoint_texts)
    ∷ "</tbody></table>\n"
    ∷ "\n"
    ∷ "<h2>Example</h2>\n"
    ∷ "<pre>"
    ∷ []

-- From the curl example to that of the background jobs
unfoldable pub page_examples : List String
unfolding escape
page_examples =
    "\n"
    ∷ "&rarr; {\"text\": \"PONG\", \"duration_ms\": 1078}</pre>\n"
    ∷ "<pre>"
    ∷ escape python_example
    ∷ "</pre>\n"
    ∷ "\n"
    ∷ "<h3>Background jobs</h3>\n"
    ∷ "<p><code>POST /generate</code> holds the connection open for the whole completion, which\n"
    ∷ "   can be minutes. Submit to <code>/jobs</code> instead to get an id back immediately and\n"
    ∷ "   poll for the result. Same worker lifecycle — only who waits changes.</p>\n"
    ∷ "<pre>"
    ∷ []

-- From there to the base URL in the last table
unfoldable pub page_tables : (ℕ → String) → List String
unfolding failure_table concat constraint_items
page_tables shown =
    "</pre>\n"
    ∷ "\n"
    ∷ "<h2>Failures</h2>\n"
    ∷ "<p>The daemon classifies failures but never retries on your behalf — retrying spends\n"
    ∷ "   quota, so that call is yours.</p>\n"
    ∷ failure_table shown
    ∷ "\n"
    ∷ "\n"
    ∷ "<h2>Constraints</h2>\n"
    ∷ "<ul>"
    ∷ concat (constraint_items constraints)
    ∷ "</ul>\n"
    ∷ "\n"
    ∷ "<h2>This daemon</h2>\n"
    ∷ "<table><tbody>\n"
    ∷ "<tr><td>Base URL</td><td><code>"
    ∷ []

-- The last rows, and the end of the page
unfoldable pub page_config : (ℕ → String) → (ℕ → String) → PoolConfig → List String
unfolding escape
page_config shown shown_sec config =
    escape (base_url shown config)
    ∷ "</code></td></tr>\n"
    ∷ "<tr><td>Model</td><td><code>"
    ∷ escape config.model
    ∷ "</code></td></tr>\n"
    ∷ "<tr><td>Workers</td><td>min "
    ∷ shown config.min_workers
    ∷ " / max "
    ∷ shown config.max_workers
    ∷ "</td></tr>\n"
    ∷ "<tr><td>Default timeout</td><td>"
    ∷ shown_sec config.default_timeout_sec
    ∷ "s</td></tr>\n"
    ∷ "</tbody></table>\n"
    ∷ "<p><a href=\"/openapi.json\">openapi.json</a> &middot; <a href=\"/health\">health</a></p>\n"
    ∷ "</body></html>"
    ∷ []

-- render_html
unfoldable pub render_html : String → (ℕ → String) → (ℕ → String) → PoolConfig → String
unfolding escape concat page_opening page_examples page_tables page_config
render_html version shown shown_sec config =
    let base = base_url shown config in
    concat (
      page_opening version
      ++ escape (curl_example base) ∷ page_examples
      ++ escape (background_example base) ∷ page_tables shown
      ++ page_config shown shown_sec config)
