-- ===== src/Client/Requests/Web.antt =====
-- What the requests of src/claude_pool/client.py pass on their way to the routes of
-- src/claude_pool/server.py: urllib, which takes a URL apart, and the router of the web framework, which
-- finds a handler. They are the operations of a Web.
use Prim.Native.String.append
use Prim.Native.Char.{Char, code}
use claude_code_cli_local_ga.Server.{split_last}
use claude_code_cli_local_ga.Prelude.{
  refl, ap, ◌∙◌, inl, inr, arith, ℕ, String, Bool, true, false, not, ◌&&◌, ◌||◌, Option, none, some,
  List, [], ◌∷◌, ◌≡◌, ◌⊎◌, All, text_append, leb, ◌==◌, str_eq, if◌then◌else◌,
}
use claude_code_cli_local_ga.Server.Routes.{routes, Handler, Route}
use claude_code_cli_local_ga.Client.Requests.{job_path, base_url_of}

-- The operations: the Host header and the path that are sent for a URL, and the handler that the
-- router finds for a method and a path, with the `job_id` of the path ("" if it has none).
pub record Web : Type 0 where
  pub parts : String → String × String
  pub resolve : List Route → String → String → Option (Handler × String)

-- Letters, digits, - and _, which a URL and a path give no meaning to
abbrev pub is_word : Char → Bool
is_word c =
    (leb 48 (code c) && leb (code c) 57)
    || ((leb 65 (code c) && leb (code c) 90)
        || ((leb 97 (code c) && leb (code c) 122) || ((code c == 45) || (code c == 95))))

-- Every character of the text is one of these.
unfoldable pub consists : (Char → Bool) → String → Bool
consists test String.[] = true
consists test (String.◌∷◌ c s) = test c && consists test s

-- What may stand for a variable of a path; a path; a name or an address of a host; a number; a path
-- of the table without a variable
abbrev pub is_segment : String → Bool
is_segment = consists is_word

abbrev pub is_path : String → Bool
is_path = consists (λ c. (code c == 47) || is_word c)

abbrev pub is_name : String → Bool
is_name = consists (λ c. (code c == 46) || is_word c)

abbrev pub is_number : String → Bool
is_number = consists (λ c. leb 48 (code c) && leb (code c) 57)

abbrev pub is_fixed : String → Bool
is_fixed = consists (λ c. not ((code c == 123) || (code c == 125)))

unfoldable pub starts_with : String → String → Bool
starts_with String.[] s = true
starts_with (String.◌∷◌ c t) String.[] = false
starts_with (String.◌∷◌ c t) (String.◌∷◌ d s) = (code c == code d) && starts_with t s

-- The handler of the first route with this method and literally this path
unfoldable pub first_match : List Route → String → String → Option Handler
first_match [] method path = none
first_match (r ∷ rs) method path =
    if str_eq r.method method && str_eq r.path path
    then some r.handler
    else first_match rs method path

-- A path with the variable `job_id` behind the prefix, or a fixed one with another beginning
abbrev pub IsApart : String → Route → Type 0
IsApart prefix r =
    (r.path ≡ text_append prefix "{job_id}")
    ⊎ ((is_fixed r.path ≡ true) × (starts_with prefix r.path ≡ false))

-- What the two are documented to do. A URL is taken apart after the host and the port. A fixed path
-- is found as it stands in the table, and a path with a variable, where no fixed path competes,
-- for every text that fills the variable.
pub record IsWeb (web : Web) : Type 0 where
  pub parted :
      (host port path : String)
      → is_name host ≡ true
      → is_number port ≡ true
      → is_path path ≡ true
      → starts_with "/" path ≡ true
      → web.parts (text_append (base_url_of host port) path)
        ≡ (text_append host (text_append ":" port), path)
  pub fixed :
      (rs : List Route) (method path : String) (h : Handler)
      → is_path path ≡ true
      → first_match rs method path ≡ some h
      → web.resolve rs method path ≡ some (h, "")
  pub filled :
      (rs : List Route) (method prefix id : String) (h : Handler)
      → is_path prefix ≡ true
      → All (IsApart prefix) rs
      → first_match rs method (text_append prefix "{job_id}") ≡ some h
      → is_segment id ≡ true
      → str_eq id "" ≡ false
      → web.resolve rs method (text_append prefix id) ≡ some (h, id)

pub and_parts : (a b : Bool) → (a && b) ≡ true → (a ≡ true) × (b ≡ true)
and_parts true b e = (refl, e)
and_parts false b e = cc

pub consists-append :
    (test : Char → Bool) (s t : String)
    → consists test s ≡ true
    → consists test t ≡ true
    → consists test (text_append s t) ≡ true
unfolding consists
consists-append test String.[] t a b = ap (consists test) (append.nil t) ∙ b
consists-append test (String.◌∷◌ c s) t a b =
    let (first, rest) = and_parts (test c) (consists test s) a in
    ap (consists test) (append.cons c s t) ∙ rw (first, consists-append test s t rest b) refl

word_in_path : (c : Char) → is_word c ≡ true → (((code c == 47) || is_word c) && true) ≡ true
word_in_path c e = ground arith

segment-is_path : (s : String) → is_segment s ≡ true → is_path s ≡ true
unfolding consists
segment-is_path String.[] e = refl
segment-is_path (String.◌∷◌ c s) e =
    let (first, rest) = and_parts (is_word c) (is_segment s) e in
    rw (segment-is_path s rest) (word_in_path c first)

pub job_path-is_path : (id : String) → is_segment id ≡ true → is_path (job_path id) ≡ true
unfolding consists
job_path-is_path id e = consists-append _ "/jobs/" id refl (segment-is_path id e)

pub job_path-starts : (id : String) → starts_with "/" (job_path id) ≡ true
unfolding starts_with
job_path-starts id = ap (starts_with "/") (append.cons "/" "jobs/" id)

digit_no_colon : (n : ℕ) → (leb 48 n && leb n 57) ≡ true → (n == 58) ≡ false
digit_no_colon n e = ground arith

pub number-no_colon : (port : String) → is_number port ≡ true → split_last port ≡ none
unfolding consists split_last
number-no_colon String.[] e = refl
number-no_colon (String.◌∷◌ c s) e =
    let (first, rest) = and_parts (leb 48 (code c) && leb (code c) 57) (is_number s) e in
    rw (number-no_colon s rest, digit_no_colon (code c) first) refl

pub jobs-IsApart : All (IsApart "/jobs/") routes
unfolding routes consists starts_with
jobs-IsApart = (
  inr (refl, refl),
  (
    inr (refl, refl),
    (
      inr (refl, refl),
      (
        inr (refl, refl),
        (
          inr (refl, refl),
          (
            inr (refl, refl),
            (
              inl refl,
              (
                inl refl,
                (
                  inl refl,
                  (
                    inr (refl, refl),
                    (
                      inr (refl, refl),
                      (
                        inr (refl, refl),
                        (inr (refl, refl), (inr (refl, refl), (inr (refl, refl), tt))),
                      ),
                    ),
                  ),
                ),
              ),
            ),
          ),
        ),
      ),
    ),
  ),
)
