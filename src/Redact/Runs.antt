-- ===== src/Redact/Runs.antt =====
-- `redact_text` of redact.rs and the tests that decide what a credential is: the loop, a reference
-- definition of what it computes, and what it leaves in the text.
-- `marker` stands for `dekopon_core::redaction_marker`.
pub mod Reference
pub mod Clean
use dekopon_console.Base.{
  ℕ, zero, suc, ◌+◌, Bool, true, false, ◌&&◌, ◌||◌, not, List, [], ◌∷◌, ◌++◌, Option, none, some,
  Text, String, codes, same, strip_prefix, split, is_ascii_alphanumeric, is_ascii_upper,
  is_whitespace, to_ascii_lower, length, all, any, is_some, leb, ltb, ◌==◌, if◌then◌else◌, map,
  is_ascii,
}

abbrev pub min_secret_length : ℕ
min_secret_length = 20

-- `is_secret_body`; a text of such characters is ASCII, so `len()` counts characters.
unfoldable pub is_secret_body : Text → Bool
is_secret_body value =
    leb min_secret_length (length value)
    && all (λ c. is_ascii_alphanumeric c || c == b'_' || c == b'-') value

unfoldable pub is_token_char : ℕ → Bool
is_token_char c =
    is_ascii_alphanumeric c
    || c == b'_'
    || c == b'-'
    || c == b'.'
    || c == b'+'
    || c == b'/'
    || c == b'='

secret_prefixes : List Text
unfolding codes
secret_prefixes =
    codes "ghp_"
    ∷ codes "gho_"
    ∷ codes "ghu_"
    ∷ codes "ghs_"
    ∷ codes "ghr_"
    ∷ codes "github_pat_"
    ∷ codes "sk-"
    ∷ []

-- `if let Some(body) = run.strip_prefix(prefix) && is_secret_body(body)`.
has_secret_body : Text → Text → Bool
unfolding is_secret_body strip_prefix
has_secret_body run prefix = elim (strip_prefix prefix run) [
  | none ↦ false
  | some body ↦ is_secret_body body
]

unfoldable pub run_is_secret : Text → Bool
unfolding secret_prefixes has_secret_body is_secret_body split is_ascii_alphanumeric
run_is_secret run =
    any (has_secret_body run) secret_prefixes
    || (let segments = split b'.' run in
        length segments == 3
        && all (λ segment. leb 16 (length segment) && is_secret_body segment) segments)

unfoldable pub scheme_introduces_secret : Text → Bool
unfolding same codes
scheme_introduces_secret word =
    let w = map to_ascii_lower word in
    same w (codes "bearer") || same w (codes "basic") || same w (codes "token")

-- `rest.find(|c| !is_token_char(c))` and the two slices: the longest run of token characters at the
-- front, and what follows it.
unfoldable pub span_token : Text → Text × Text
span_token [] = ([], [])
span_token (c ∷ s) =
    let (run, rest) = span_token s in if is_token_char c then (c ∷ run, rest) else ([], c ∷ s)

-- Whether the run before introduces this one.
introduced : Option Text → Text → Bool
unfolding scheme_introduces_secret
introduced none run = false
introduced (some word) run = scheme_introduces_secret word && leb min_secret_length (length run)

-- What the loop carries: `output`, `previous_run`, `found`.
pub record Scan : Type 0 where
  pub output : Text
  pub previous_run : Option Text
  pub found : Bool

module _ (marker : ℕ → Text) where
  -- The first arm: one separator.
  step_separator : ℕ → Scan → Scan
  step_separator c s = record s {
    previous_run = if is_whitespace c then s.previous_run else none;
    output = s.output ++ c ∷ [];
  }

  -- The second arm: one run.
  step_run : Text → Scan → Scan
  unfolding introduced
  step_run run s =
      if introduced s.previous_run run || run_is_secret run
      then record {
        output = s.output ++ marker (length run);
        previous_run = some run;
        found = true;
      }
      else record s { output = s.output ++ run; previous_run = some run }

  -- `while !rest.is_empty()`, on fuel; `none` means that the fuel ran out.
  unfoldable pub redact_loop : ℕ → Text → Scan → Option Scan
  unfolding step_separator step_run span_token
  redact_loop zero rest s = none
  redact_loop (suc fuel) [] s = some s
  redact_loop (suc fuel) (c ∷ rest) s =
      let (run, after) = span_token (c ∷ rest) in
      elim (is_token_char c) [
        | true ↦ redact_loop fuel after (step_run run s)
        | false ↦ redact_loop fuel rest (step_separator c s)
      ]

  finish : Option Scan → Option Text
  finish none = none
  finish (some s) = if s.found then some s.output else none

  -- Every round takes at least one character off, so the length and one more is fuel enough.
  unfoldable pub redact_text : Text → Option Text
  unfolding redact_loop finish
  redact_text text = finish (
      redact_loop (suc (length text)) text
        (record { output = []; previous_run = none; found = false }))
