-- ===== src/ApiDocs/Page/Markup.antt =====
-- The markup of the HTML page of src/claude_pool/apidocs.py: no text of the configuration adds to it.
use claude_code_cli_local_ga.ApiDocs.Info.{curl_example, background_example, base_url}
use claude_code_cli_local_ga.ApiDocs.Page.{
  base_url, escape, escape_char, concat, page_opening, page_examples, page_tables, page_config,
  render_html,
}
use mathlib.Core.List.{append_assoc}
use Prim.Native.String.append
use Prim.Native.Char.{Char, code}
use claude_code_cli_local_ga.Prelude.{
  ℕ, String, text_append, Bool, ◌||◌, List, [], ◌∷◌, ◌++◌, ◌==◌, ◌≡◌, refl, ap, ◌∙◌, sym,
  Bool-cases, inl, inr, if◌then◌else◌,
}
use claude_code_cli_local_ga.Config.{PoolConfig}

-- The characters < > " and '.
abbrev pub is_mark : Char → Bool
is_mark c = (code c == 60) || (code c == 62) || (code c == 34) || (code c == 39)

-- The marks of a text, in their order.
unfoldable pub marks : String → List Char
marks String.[] = []
marks (String.◌∷◌ c s) = if is_mark c then c ∷ marks s else marks s

marks-append : (a b : String) → marks (text_append a b) ≡ marks a ++ marks b
unfolding marks
marks-append String.[] b = ap marks (append.nil b)
marks-append (String.◌∷◌ c a) b = ap marks (append.cons c a b) ∙ elim (Bool-cases (is_mark c)) [
  | inl e ↦ rw (marks, e) (ap (λ l. c ∷ l) (marks-append a b))
  | inr e ↦ rw (marks, e) (marks-append a b)
]

escape_char-marks : (c : Char) → marks (escape_char c) ≡ []
unfolding marks
escape_char-marks c = elim (Bool-cases (code c == 38)) [
  | inl a ↦ rw a refl
  | inr a ↦ elim (Bool-cases (code c == 60)) [
    | inl b ↦ rw (a, b) refl
    | inr b ↦ elim (Bool-cases (code c == 62)) [
      | inl d ↦ rw (a, b, d) refl
      | inr d ↦ elim (Bool-cases (code c == 34)) [
        | inl e ↦ rw (a, b, d, e) refl
        | inr e ↦ elim (Bool-cases (code c == 39)) [
          | inl f ↦ rw (a, b, d, e, f) refl
          | inr f ↦ rw (a, b, d, e, f, marks) (rw (b, d, e, f) refl)
        ]
      ]
    ]
  ]
]

escape-marks : (s : String) → marks (escape s) ≡ []
unfolding escape marks
escape-marks String.[] = refl
escape-marks (String.◌∷◌ c s) =
    marks-append (escape_char c) (escape s) ∙ rw (escape_char-marks c) (escape-marks s)

-- The marks of texts that follow each other.
abbrev pub all_marks : List String → List Char
all_marks [] = []
all_marks (p ∷ ps) = marks p ++ all_marks ps

concat-marks : (ps : List String) → marks (concat ps) ≡ all_marks ps
unfolding concat marks
concat-marks [] = refl
concat-marks (p ∷ ps) = marks-append p (concat ps) ∙ ap (λ l. marks p ++ l) (concat-marks ps)

all_marks-append : (ps qs : List String) → all_marks (ps ++ qs) ≡ all_marks ps ++ all_marks qs
all_marks-append [] qs = refl
all_marks-append (p ∷ ps) qs =
    ap (λ l. marks p ++ l) (all_marks-append ps qs)
    ∙ sym (append_assoc (marks p) (all_marks ps) (all_marks qs))

-- Only the marks of the fixed text: those of a page for any configuration.
module _ (shown shown_sec : ℕ → String) (plain : (n : ℕ) → marks (shown n) ≡ [])
    (plain_sec : (n : ℕ) → marks (shown_sec n) ≡ []) where
  page_config-marks :
      (c d : PoolConfig)
      → all_marks (page_config shown shown_sec c) ≡ all_marks (page_config shown shown_sec d)
  unfolding page_config
  page_config-marks c d = simp (
    escape-marks (base_url shown c),
    escape-marks (base_url shown d),
    escape-marks c.model,
    escape-marks d.model,
    plain c.min_workers,
    plain d.min_workers,
    plain c.max_workers,
    plain d.max_workers,
    plain_sec c.default_timeout_sec,
    plain_sec d.default_timeout_sec,
  )

  -- The marks of the page for a configuration, by its parts.
  page_marks :
      (version : String) (c : PoolConfig)
      → marks (render_html version shown shown_sec c)
        ≡ all_marks (page_opening version)
          ++ (all_marks page_examples
              ++ (all_marks (page_tables shown) ++ all_marks (page_config shown shown_sec c)))
  unfolding render_html
  page_marks version c =
      let base = base_url shown c in
      let last = page_tables shown ++ page_config shown shown_sec c in
      let later = escape (background_example base) ∷ last in
      let rest = page_examples ++ later in
      concat-marks (page_opening version ++ escape (curl_example base) ∷ rest)
      ∙ (all_marks-append (page_opening version) (escape (curl_example base) ∷ rest)
          ∙ ap (λ l. all_marks (page_opening version) ++ l)
              (ap (λ l. l ++ all_marks rest) (escape-marks (curl_example base))
                ∙ (all_marks-append page_examples later
                    ∙ ap (λ l. all_marks page_examples ++ l)
                        (ap (λ l. l ++ all_marks last) (escape-marks (background_example base))
                          ∙ all_marks-append (page_tables shown) (page_config shown shown_sec c)))))

  -- The characters < > " and ' of the page are the same ones, in the same order, for all
  -- configurations: no host, model or number in the configuration adds markup to the page. The
  -- condition: the texts of numbers have none of these characters.
  pub render_html-marks :
      (version : String) (c d : PoolConfig)
      → marks (render_html version shown shown_sec c)
        ≡ marks (render_html version shown shown_sec d)
  render_html-marks version c d =
      page_marks version c
      ∙ (ap
            (λ l.
              all_marks (page_opening version)
              ++ (all_marks page_examples ++ (all_marks (page_tables shown) ++ l)))
            (page_config-marks c d)
          ∙ sym (page_marks version d))
