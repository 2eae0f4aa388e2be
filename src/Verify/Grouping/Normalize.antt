-- ===== src/Verify/Grouping/Normalize.antt =====
-- The normalization of a submission, of workflow/verify-poc/src/multiGrouping.ts. A character of a text
-- is a code point, which is one code unit but outside the basic plane: the texts are taken to have
-- no characters there.
use Prim.Native.Char.{Char, code}
use anti_soon.Prelude.{
  ℕ, zero, suc, ◌+◌, ◌-◌, String, Bool, false, not, ◌&&◌, ◌||◌, List, [], ◌∷◌, Option, none, some,
  str_eq, leb, ltb, if◌then◌else◌, map, find?, keep,
}
use anti_soon.Prelude.Set.{contains_text}
use anti_soon.Prelude.Sort.{sort}
use anti_soon.Prelude.Template.{template}
use anti_soon.Verify.Grouping.Similarity.{Cohort, high, medium, other, Submission, set_of}
use anti_soon.Verify.Grouping.Ranked.{Texts, cohort_text, multi_grouping_version}

-- The functions of the language on texts, and the fingerprint, which viem encodes and hashes.
pub record TextFunctions : Type 0 where
  pub trim : String → String
  pub to_lower_case : String → String
  pub to_upper_case : String → String
  pub submission_fingerprint :
      (version cohort target_contract impact_type summary selectors : String) → String

-- `MultiSubmissionGroupingInput`
pub record GroupingInput : Type 0 where
  pub submission_id : ℕ
  pub severity : String
  pub target_contract : String
  pub impact_type : String
  pub summary : String
  pub observed_calldata : List String

unfoldable pub text_length : String → ℕ
text_length String.[] = 0
text_length (String.◌∷◌ c s) = suc (text_length s)

-- `text.slice(0, n)`
unfoldable pub first_chars : ℕ → String → String
first_chars zero s = ""
first_chars (suc n) String.[] = ""
first_chars (suc n) (String.◌∷◌ c s) = String.◌∷◌ c (first_chars n s)

-- `text.slice(n)`
unfoldable pub after_chars : ℕ → String → String
after_chars zero s = s
after_chars (suc n) String.[] = ""
after_chars (suc n) (String.◌∷◌ c s) = after_chars n s

unfoldable pub ends_with : String → String → Bool
unfolding text_length after_chars
ends_with s suffix =
    leb (text_length suffix) (text_length s)
    && str_eq (after_chars (text_length s - text_length suffix) s) suffix

abbrev is_between : ℕ → ℕ → Char → Bool
is_between lo hi c = leb lo (code c) && leb (code c) hi

-- `[a-z0-9]` and `[a-zA-Z0-9]`
abbrev pub is_lower_alphanumeric : Char → Bool
is_lower_alphanumeric c = is_between b'a' b'z' c || is_between b'0' b'9' c

abbrev pub is_alphanumeric : Char → Bool
is_alphanumeric c = is_lower_alphanumeric c || is_between b'A' b'Z' c

-- `text.replace(/[^a-z0-9]/g, "")`
unfoldable pub keep_lower_alphanumeric : String → String
keep_lower_alphanumeric String.[] = ""
keep_lower_alphanumeric (String.◌∷◌ c s) =
    let rest = keep_lower_alphanumeric s in
    if is_lower_alphanumeric c then String.◌∷◌ c rest else rest

unfoldable pub put_first : Char → List String → List String
put_first c [] = String.◌∷◌ c "" ∷ []
put_first c (word ∷ words) = String.◌∷◌ c word ∷ words

-- `text.split(/[^a-zA-Z0-9]+/)`, behind a separator or not
unfoldable pub split_words : (behind_separator : Bool) → String → List String
unfolding put_first
split_words behind String.[] = "" ∷ []
split_words behind (String.◌∷◌ c s) =
    let rest = split_words (not (is_alphanumeric c)) s in
    if is_alphanumeric c then put_first c rest else if behind then rest else "" ∷ rest

unfoldable pub join_comma : List String → String
join_comma [] = ""
join_comma (x ∷ []) = x
join_comma (x ∷ y ∷ rest) = template (x ∷ "," ∷ join_comma (y ∷ rest) ∷ [])

abbrev pub token_stop_words : List String
token_stop_words =
    "the" ∷ "and" ∷ "for" ∷ "with" ∷ "that" ∷ "this" ∷ "into" ∷ "from" ∷ "does" ∷ "doesnt" ∷ "not"
    ∷ "can" ∷ "via" ∷ "lets" ∷ "allow" ∷ "allows" ∷ "against" ∷ "before" ∷ []

abbrev pub token_suffixes : List String
token_suffixes =
    "ments" ∷ "ment" ∷ "ation" ∷ "ations" ∷ "ingly" ∷ "ance" ∷ "ancy" ∷ "ing" ∷ "ers" ∷ "er" ∷ "ies"
    ∷ "ied" ∷ "ed" ∷ "ly" ∷ "es" ∷ "s" ∷ "ant" ∷ "ent" ∷ []

-- the text before its first suffix of the list that leaves four characters
unfoldable pub strip_suffix : List String → String → String
unfolding text_length ends_with first_chars
strip_suffix suffixes s =
    elim (find? (λ suffix. ends_with s suffix && leb (text_length suffix + 4) (text_length s))
      suffixes) [ none ↦ s | some suffix ↦ first_chars (text_length s - text_length suffix) s ]

module _ (functions : TextFunctions) where
  open functions use {trim, to_lower_case, to_upper_case, submission_fingerprint}

  unfoldable pub normalize_severity_to_cohort : String → Cohort
  normalize_severity_to_cohort severity =
      let normalized = to_upper_case (trim severity) in
      if str_eq normalized "CRITICAL" || str_eq normalized "HIGH"
      then high
      else if str_eq normalized "MEDIUM"
      then medium
      else other

  unfoldable pub normalize_selector : String → Option String
  unfolding text_length first_chars
  normalize_selector calldata =
      let normalized = to_lower_case (trim calldata) in
      if not (str_eq (first_chars 2 normalized) "0x") || ltb (text_length normalized) 10
      then none
      else some (first_chars 10 normalized)

  unfoldable pub normalize_token : String → String
  unfolding text_length first_chars keep_lower_alphanumeric strip_suffix
  normalize_token token =
      let normalized = keep_lower_alphanumeric (to_lower_case token) in
      let stem = first_chars 6 (strip_suffix token_suffixes normalized) in
      if ltb (text_length normalized) 3
      then ""
      else if contains_text stem token_stop_words || ltb (text_length stem) 3
      then ""
      else stem

  unfoldable pub tokenize_summary : Texts → String → String → List String
  unfolding split_words normalize_token text_length set_of
  tokenize_summary texts summary impact_type =
      let combined = template (summary ∷ " " ∷ impact_type ∷ []) in
      sort texts.compare_code_units (
        set_of (
          keep (λ token. ltb 0 (text_length token))
            (map normalize_token (split_words false combined))))

  -- `.map(normalizeSelector).filter(selector => selector !== null)`
  unfoldable pub selectors_of : List String → List String
  unfolding normalize_selector
  selectors_of [] = []
  selectors_of (calldata ∷ later) = elim (normalize_selector calldata) [
    | none ↦ selectors_of later
    | some selector ↦ selector ∷ selectors_of later
  ]

  unfoldable pub normalize_submission : Texts → GroupingInput → Submission
  unfolding normalize_severity_to_cohort tokenize_summary selectors_of set_of join_comma cohort_text
  normalize_submission texts submission =
      let cohort = normalize_severity_to_cohort submission.severity in
      let target = to_lower_case (trim submission.target_contract) in
      let impact = to_upper_case (trim submission.impact_type) in
      let tokens = tokenize_summary texts submission.summary submission.impact_type in
      let selectors =
        sort texts.compare_code_units (set_of (selectors_of submission.observed_calldata)) in
      record {
        submission_id = submission.submission_id;
        cohort = cohort;
        target_contract = target;
        impact_type = impact;
        summary_tokens = tokens;
        observed_selectors = selectors;
        cluster_fingerprint =
            submission_fingerprint multi_grouping_version (cohort_text cohort) target impact
              (join_comma tokens) (join_comma selectors);
      }
