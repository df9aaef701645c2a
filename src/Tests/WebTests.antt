-- ===== src/Tests/WebTests.antt =====
-- A table of routes that is searched from its top, and URLs taken apart at their slashes: a web in
-- which the requests of src/claude_pool/client.py reach the handlers of src/claude_pool/server.py.
mod Calls
use claude_code_cli_local_ga.Client.Requests.Web.{
  is_number, is_name, IsWeb, consists-append, IsApart, Web, is_segment, first_match, is_word,
  consists, is_path, is_fixed, starts_with, and_parts,
}
use claude_code_cli_local_ga.Prelude.{
  leb, [], ◌∷◌, eq_iff, All, List, sym, ℕ, String, Bool, true, false, not, ◌&&◌, ◌||◌, Option, none,
  some, ◌≡◌, refl, ◌∙◌, ap, inl, inr, text_append, ◌==◌, str_eq, if◌then◌else◌, arith, Bool-cases,
}
use claude_code_cli_local_ga.Server.Routes.{Handler, Route}
use Prim.Native.String.append
use text.Mathlib.TextLemmas.{append_assoc}
use claude_code_cli_local_ga.Client.Requests.{base_url_of}
use Prim.Native.Char.{Char, code}

-- A text up to its first slash, and from there
unfoldable until_slash : String → String × String
until_slash String.[] = (String.[], String.[])
until_slash (String.◌∷◌ c s) =
    let (head, tail) = until_slash s in
    if code c == 47 then (String.[], String.◌∷◌ c s) else (String.◌∷◌ c head, tail)

-- A text without as many characters as the other one has
unfoldable behind : String → String → String
behind String.[] s = s
behind (String.◌∷◌ c p) String.[] = String.[]
behind (String.◌∷◌ c p) (String.◌∷◌ d s) = behind p s

behind-append : (p s : String) → behind p (text_append p s) ≡ s
unfolding behind
behind-append String.[] s = append.nil s
behind-append (String.◌∷◌ c p) s =
    ap (behind (String.◌∷◌ c p)) (append.cons c p s) ∙ behind-append p s

abbrev has_no_slash : String → Bool
has_no_slash = consists (λ c. not (code c == 47))

same_slash : (n : ℕ) → ((47 == n) && true) ≡ true → (n == 47) ≡ true
same_slash n e = ground arith

no_slash : (n : ℕ) → not (n == 47) ≡ true → (n == 47) ≡ false
no_slash n e = ground arith

no_brace : (n : ℕ) → not ((n == 123) || (n == 125)) ≡ true → (n == 123) ≡ false
no_brace n e = ground arith

path_no_brace : (c : Char) → ((code c == 47) || is_word c) ≡ true → (code c == 123) ≡ false
path_no_brace c e = ground arith

same : (n : ℕ) → (n == n) ≡ true
same n = ground arith

and_false : (b : Bool) → (b && false) ≡ false
and_false true = refl
and_false false = refl

until_slash-append :
    (s t : String)
    → has_no_slash s ≡ true
    → starts_with "/" t ≡ true
    → until_slash (text_append s t) ≡ (s, t)
unfolding until_slash consists starts_with
until_slash-append String.[] String.[] e f = cc
until_slash-append String.[] (String.◌∷◌ c t) e f =
    ap until_slash (append.nil (String.◌∷◌ c t)) ∙ rw (same_slash (code c) f) refl
until_slash-append (String.◌∷◌ c s) t e f =
    let (first, rest) = and_parts (not (code c == 47)) (has_no_slash s) e in
    ap until_slash (append.cons c s t)
    ∙ rw (until_slash-append s t rest f, no_slash (code c) first) refl

-- The rest of a path behind a pattern up to its first brace
unfoldable fill : String → String → Option String
fill String.[] path = none
fill (String.◌∷◌ c p) String.[] = none
fill (String.◌∷◌ c p) (String.◌∷◌ d s) =
    let rest = fill p s in
    if code c == 123 then some (String.◌∷◌ d s) else if code c == code d then rest else none

fill-fixed : (p path : String) → is_fixed p ≡ true → fill p path ≡ none
unfolding fill consists
fill-fixed String.[] path e = refl
fill-fixed (String.◌∷◌ c p) String.[] e = refl
fill-fixed (String.◌∷◌ c p) (String.◌∷◌ d s) e =
    let (first, rest) = and_parts (not ((code c == 123) || (code c == 125))) (is_fixed p) e in
    elim (Bool-cases (code c == code d)) [
      | inl q ↦ rw (no_brace (code c) first, q, fill-fixed p s rest) refl
      | inr q ↦ rw (no_brace (code c) first, q) refl
    ]

fill-prefix :
    (prefix id : String)
    → is_path prefix ≡ true
    → str_eq id "" ≡ false
    → fill (text_append prefix "{job_id}") (text_append prefix id) ≡ some id
unfolding fill consists
fill-prefix String.[] String.[] e f = cc
fill-prefix String.[] (String.◌∷◌ d s) e f =
    ap (fill (text_append String.[] "{job_id}")) (append.nil (String.◌∷◌ d s))
fill-prefix (String.◌∷◌ c p) id e f =
    let (first, rest) = and_parts ((code c == 47) || is_word c) (is_path p) e in
    ap (λ t. fill t (text_append (String.◌∷◌ c p) id)) (append.cons c p "{job_id}")
    ∙ (ap (fill (String.◌∷◌ c (text_append p "{job_id}"))) (append.cons c p id)
        ∙ rw (path_no_brace c first, same (code c), fill-prefix p id rest f) refl)

starts_with-append : (prefix s : String) → starts_with prefix (text_append prefix s) ≡ true
unfolding starts_with
starts_with-append String.[] s = refl
starts_with-append (String.◌∷◌ c p) s =
    ap (starts_with (String.◌∷◌ c p)) (append.cons c p s)
    ∙ rw (same (code c), starts_with-append p s) refl

braces : (prefix : String) → is_fixed (text_append prefix "{job_id}") ≡ false
unfolding consists
braces String.[] = refl
braces (String.◌∷◌ c p) = ap is_fixed (append.cons c p "{job_id}") ∙ rw (braces p) (and_false _)

unfoldable by_prefix : List Route → String → String → Option (Handler × String)
unfolding fill
by_prefix [] method path = none
by_prefix (r ∷ rs) method path =
    let rest = by_prefix rs method path in
    if str_eq r.method method
    then elim (fill r.path path) [ none ↦ rest | some id ↦ some (r.handler, id) ]
    else rest

abbrev fixed_first : Option Handler → Option (Handler × String) → Option (Handler × String)
fixed_first (some h) rest = some (h, "")
fixed_first none rest = rest

abbrev web : Web
web = record {
  parts = λ url. until_slash (behind "http://" url);
  resolve = λ rs method path. fixed_first (first_match rs method path) (by_prefix rs method path);
}

contradict : (b : Bool) → b ≡ not b → ⊥
contradict true e = cc
contradict false e = cc

differ : (f : String → Bool) (s t : String) (b : Bool) → f s ≡ b → f t ≡ not b → str_eq s t ≡ false
differ f s t b a c = elim (Bool-cases (str_eq s t)) [
  | inl e ↦ absurd (contradict b (sym a ∙ ap f ((eq_iff s t).0 e) ∙ c))
  | inr e ↦ e
]

word_not_brace : (c : Char) → is_word c ≡ true → not ((code c == 123) || (code c == 125)) ≡ true
word_not_brace c e = ground arith

path_not_brace :
    (c : Char)
    → ((code c == 47) || is_word c) ≡ true
    → not ((code c == 123) || (code c == 125)) ≡ true
path_not_brace c e = ground arith

consists-weaker :
    (f g : Char → Bool)
    → ((c : Char) → f c ≡ true → g c ≡ true)
    → (s : String) → consists f s ≡ true
    → consists g s ≡ true
unfolding consists
consists-weaker f g h String.[] e = refl
consists-weaker f g h (String.◌∷◌ c s) e =
    let (first, rest) = and_parts (f c) (consists f s) e in
    rw (h c first, consists-weaker f g h s rest) refl

filled_path-is_fixed :
    (prefix id : String)
    → is_path prefix ≡ true
    → is_segment id ≡ true
    → is_fixed (text_append prefix id) ≡ true
filled_path-is_fixed prefix id p s =
    consists-append _ prefix id (consists-weaker _ _ path_not_brace prefix p)
      (consists-weaker _ _ word_not_brace id s)

apart_differ :
    (prefix id : String) (r : Route)
    → is_path prefix ≡ true
    → is_segment id ≡ true
    → IsApart prefix r
    → str_eq r.path (text_append prefix id) ≡ false
apart_differ prefix id r p s (inl e) =
    differ is_fixed r.path (text_append prefix id) false (ap is_fixed e ∙ braces prefix)
      (filled_path-is_fixed prefix id p s)
apart_differ prefix id r p s (inr (fixed, other)) =
    differ (starts_with prefix) r.path (text_append prefix id) false other
      (starts_with-append prefix id)

unmatched :
    (rs : List Route) (method prefix id : String)
    → is_path prefix ≡ true
    → is_segment id ≡ true
    → All (IsApart prefix) rs
    → first_match rs method (text_append prefix id) ≡ none
unfolding first_match
unmatched [] method prefix id p s all = refl
unmatched (r ∷ rs) method prefix id p s (apart, all) =
    rw (apart_differ prefix id r p s apart, and_false (str_eq r.method method))
      (unmatched rs method prefix id p s all)

-- A route that is not the first match leaves the search to the others.
passed :
    (rs : List Route) (r : Route) (method path : String) (h : Handler)
    → (str_eq r.method method && str_eq r.path path) ≡ false
    → first_match (r ∷ rs) method path ≡ some h
    → first_match rs method path ≡ some h
unfolding first_match
passed rs r method path h e q = sym (rw e refl) ∙ q

matched :
    (rs : List Route) (r : Route) (method path : String) (h : Handler)
    → (str_eq r.method method && str_eq r.path path) ≡ true
    → first_match (r ∷ rs) method path ≡ some h
    → some r.handler ≡ some h
unfolding first_match
matched rs r method path h e q = sym (rw e refl) ∙ q

abbrev with_id : String → Option Handler → Option (Handler × String)
with_id id none = none
with_id id (some h) = some (h, id)

by_prefix-found :
    (rs : List Route) (method prefix id : String) (h : Handler)
    → is_path prefix ≡ true
    → str_eq id "" ≡ false
    → All (IsApart prefix) rs
    → first_match rs method (text_append prefix "{job_id}") ≡ some h
    → by_prefix rs method (text_append prefix id) ≡ some (h, id)
unfolding first_match by_prefix
by_prefix-found [] method prefix id h p f all e = cc
by_prefix-found (r ∷ rs) method prefix id h p f (inl e, all) q =
    elim (Bool-cases (str_eq r.method method)) [
      | inl m ↦
          rw (m, ap (λ t. fill t (text_append prefix id)) e ∙ fill-prefix prefix id p f)
            (ap (with_id id) (
              matched rs r method _ h
                (rw (m, (eq_iff r.path (text_append prefix "{job_id}")).1 e) refl) q))
      | inr m ↦
          rw m
            (by_prefix-found rs method prefix id h p f all (passed rs r method _ h (rw m refl) q))
    ]
by_prefix-found (r ∷ rs) method prefix id h p f (inr (fixed, other), all) q =
    let rest = by_prefix-found rs method prefix id h p f all (
      passed rs r method _ h
        (rw
          (differ is_fixed r.path _ true fixed (braces prefix), and_false (str_eq r.method method))
          refl)
        q) in
    elim (Bool-cases (str_eq r.method method)) [
      | inl m ↦ rw (m, fill-fixed r.path (text_append prefix id) fixed) rest
      | inr m ↦ rw m rest
    ]

no_slash_number : (n : ℕ) → (leb 48 n && leb n 57) ≡ true → not (n == 47) ≡ true
no_slash_number n e = ground arith

no_slash_name : (c : Char) → ((code c == 46) || is_word c) ≡ true → not (code c == 47) ≡ true
no_slash_name c e = ground arith

web-parted :
    (host port path : String)
    → is_name host ≡ true
    → is_number port ≡ true
    → starts_with "/" path ≡ true
    → until_slash (behind "http://" (text_append (base_url_of host port) path))
      ≡ (text_append host (text_append ":" port), path)
unfolding consists
web-parted host port path h p s =
    let header = text_append host (text_append ":" port) in
    let plain : has_no_slash header ≡ true =
      consists-append _ host (text_append ":" port) (consists-weaker _ _ no_slash_name host h) (
        consists-append _ ":" port refl
          (consists-weaker _ _ (λ c. no_slash_number (code c)) port p)) in
    ap (λ t. until_slash (behind "http://" t)) (append_assoc "http://" header path)
    ∙ (ap until_slash (behind-append "http://" (text_append header path))
        ∙ until_slash-append header path plain s)

web-IsWeb : IsWeb web
web-IsWeb = record {
  parted = λ host port path h p q s. web-parted host port path h p s;
  fixed = λ rs method path h p e. rw e refl;
  filled = λ rs method prefix id h p all e s f.
      rw (unmatched rs method prefix id p s all) (by_prefix-found rs method prefix id h p f all e);
}
