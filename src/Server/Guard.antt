-- ===== src/Server/Guard.antt =====
-- Which requests pass the guard of src/claude_pool/server.py, and what a client's prompt becomes.
use claude_code_cli_local_ga.Server.{
  until_bracket, code, split_last, hostname_from_host_header, without_port, Answer, json_answer,
  forbidden, require_loopback_host, accepted, read_prompt_request,
}
use Prim.Native.String.append
use Prim.Native.Char.{code}
use claude_code_cli_local_ga.Prelude.{
  inr, inl, Bool-cases, ℕ, String, text_append, Bool, true, false, Option, none, some, ◌≡◌, refl,
  str_eq, ◌==◌, ap, sym, ◌∙◌, if◌then◌else◌,
}
use claude_code_cli_local_ga.Json.{obj, get_or}
use claude_code_cli_local_ga.Exn.{Result, ok}
use claude_code_cli_local_ga.Config.{is_loopback_host}
use claude_code_cli_local_ga.Client.{prompt_payload}

colon-append : (port : String) → text_append ":" port ≡ String.◌∷◌ ":" port
colon-append port = append.cons ":" "" port ∙ ap (λ t. String.◌∷◌ ":" t) (append.nil port)

split_last-append :
    (host port : String)
    → split_last port ≡ none
    → split_last (text_append host (String.◌∷◌ ":" port)) ≡ some (host, port)
unfolding split_last
split_last-append String.[] port h =
    ap split_last (append.nil (String.◌∷◌ ":" port)) ∙ rw (split_last, h) refl
split_last-append (String.◌∷◌ c s) port h =
    ap split_last (append.cons c s (String.◌∷◌ ":" port))
    ∙ rw (split_last, split_last-append s port h) refl

-- A host name without brackets.
abbrev pub IsPlain : String → Type 0
IsPlain String.[] = ⊥
IsPlain (String.◌∷◌ c s) = (code c == 91) ≡ false

hostname-port :
    (digits : String → Bool) (host port : String)
    → IsPlain host
    → split_last port ≡ none
    → digits port ≡ true
    → hostname_from_host_header digits (text_append host (text_append ":" port)) ≡ host
unfolding hostname_from_host_header without_port
hostname-port digits String.[] port p h d = absurd p
hostname-port digits (String.◌∷◌ c s) port p h d =
    ap (λ t. hostname_from_host_header digits (text_append (String.◌∷◌ c s) t)) (colon-append port)
    ∙ (ap (hostname_from_host_header digits) (append.cons c s (String.◌∷◌ ":" port))
        ∙ rw (p, found, d) refl)
  where
    found :
        split_last (String.◌∷◌ c (text_append s (String.◌∷◌ ":" port)))
        ≡ some (String.◌∷◌ c s, port)
    found =
        sym (ap split_last (append.cons c s (String.◌∷◌ ":" port)))
        ∙ split_last-append (String.◌∷◌ c s) port h

abbrev pub limit : Option ℕ → ℕ → ℕ
limit none default = default
limit (some t) default = t

-- What the client sends for a prompt that is not empty, the server reads as that prompt, with the
-- client's time limit, or the daemon's own if the client gives none.
pub read-payload :
    (to_float : String → Option ℕ) (default : ℕ) (prompt : String) (timeout : Option ℕ)
    → str_eq prompt "" ≡ false
    → read_prompt_request to_float default (some (obj (prompt_payload prompt timeout)))
      ≡ accepted prompt (limit timeout default)
unfolding read_prompt_request prompt_payload get_or
read-payload to_float default prompt none h = rw h refl
read-payload to_float default prompt (some t) h = rw h refl

-- No character of the text is a closing bracket.
abbrev pub HasNoBracket : String → Type 0
HasNoBracket String.[] = Unit
HasNoBracket (String.◌∷◌ c s) = ((code c == 93) ≡ false) × HasNoBracket s

bracket-append : (rest : String) → text_append "]" rest ≡ String.◌∷◌ "]" rest
bracket-append rest = append.cons "]" "" rest ∙ ap (λ t. String.◌∷◌ "]" t) (append.nil rest)

until_bracket-append :
    (host rest : String)
    → HasNoBracket host
    → until_bracket (text_append host (String.◌∷◌ "]" rest)) ≡ host
unfolding until_bracket
until_bracket-append String.[] rest h = ap until_bracket (append.nil (String.◌∷◌ "]" rest))
until_bracket-append (String.◌∷◌ c s) rest h =
    ap until_bracket (append.cons c s (String.◌∷◌ "]" rest))
    ∙ rw (until_bracket, h.0, until_bracket-append s rest h.1) refl

hostname-bracketed :
    (digits : String → Bool) (host rest : String)
    → HasNoBracket host
    → hostname_from_host_header digits (String.◌∷◌ "[" (text_append host (text_append "]" rest)))
      ≡ host
unfolding hostname_from_host_header
hostname-bracketed digits host rest h =
    ap (λ t. until_bracket (text_append host t)) (bracket-append rest)
    ∙ until_bracket-append host rest h

-- What a Host header says of its host: a name or an address without brackets, before a port that is
-- a text of digits with no colon in it; or an address in brackets, before anything.
pub data IsHostHeader (digits : String → Bool) : String → String → Type 0 where
  with_port :
      (host port : String)
      → IsPlain host
      → split_last port ≡ none
      → digits port ≡ true
      → IsHostHeader digits (text_append host (text_append ":" port)) host
  in_brackets :
      (host rest : String)
      → HasNoBracket host
      → IsHostHeader digits (String.◌∷◌ "[" (text_append host (text_append "]" rest))) host

hostname-IsHostHeader :
    (digits : String → Bool) {header host : String}
    → IsHostHeader digits header host
    → hostname_from_host_header digits header ≡ host
hostname-IsHostHeader digits (with_port host port p h d) = hostname-port digits host port p h d
hostname-IsHostHeader digits (in_brackets host rest h) = hostname-bracketed digits host rest h

-- A request whose Host header names a host, before a port or in brackets, reaches its handler if the
-- host is a loopback address; if not, it is answered with the status 403 and no state is changed.
pub require_loopback_host_lem {ℓ} :
    {S : Type ℓ} (ip : String → Option Bool) (digits : String → Bool) (repr : String → String)
    (header host : String) (handler : S → S × Result Answer) (s : S)
    → IsHostHeader digits header host
    → require_loopback_host ip digits repr header handler s ≡ (
        if is_loopback_host ip host
        then handler s
        else (s, ok (json_answer (forbidden (repr header)))))
unfolding require_loopback_host
require_loopback_host_lem ip digits repr header host handler s h =
    elim (Bool-cases (is_loopback_host ip host)) [
      | inl e ↦ rw (hostname-IsHostHeader digits h, e) refl
      | inr e ↦ rw (hostname-IsHostHeader digits h, e) refl
    ]
