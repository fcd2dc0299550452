-- ===== src/Tests/Redaction.antt =====
-- Redaction and sanitising at concrete inputs.
use dekopon_console.Base.{
  ℕ, ◌≡◌, refl, true, false, [], ◌∷◌, none, some, Text, codes, All, is_ascii_alphanumeric,
  is_whitespace, if◌then◌else◌,
}
use dekopon_console.Redact.Runs.{redact_text, is_token_char, run_is_secret}
use dekopon_console.Redact.Runs.Reference.{pieces, render, redact_text-render}
use dekopon_console.Redact.Runs.Clean.{IsClean, redact_text-IsClean}
use dekopon_console.Redact.Sanitize.{IsCleaned, is_forbidden, sanitize, sanitize-IsCleaned}
use dekopon_console.Redact.Value.{
  Value, string, object, end, field, Render, redact, is_clean, walk_string, key_is_secret,
}
use dekopon_console.Redact.Value.Hidden.{Hides, redact-Hides}
use dekopon_console.Redact.Value.Faithful.{redact-clean}

abbrev marker : ℕ → Text
marker n = codes "<hidden>"

abbrev render_plainly : Render
render_plainly = record {
  marker = marker;
  print = λ v. [];
  index = λ n. n ∷ [];
  lowercase = λ c. c ∷ [];
}

-- {"password": "hunter2", "user": "ada"}
abbrev login : Value
login = object (
    field (codes "password") (string (codes "hunter2"))
      (field (codes "user") (string (codes "ada")) end))

abbrev user : Value
user = object (field (codes "user") (string (codes "ada")) end)

abbrev github_token : Text
github_token = codes "use ghp_abcdefghijklmnopqrstuvwxyz now"

redact-Hides_example : Hides render_plainly (redact render_plainly login).value
redact-Hides_example = redact-Hides render_plainly login

user-is_clean : is_clean (redact render_plainly user) ≡ true
unfolding is_clean redact walk_string key_is_secret is_token_char is_ascii_alphanumeric
    run_is_secret
user-is_clean = refl

redact-clean_example : (redact render_plainly user).value ≡ user
redact-clean_example = redact-clean render_plainly user user-is_clean

redact_text-render_example : redact_text marker github_token ≡ (
    let (out, found) = render marker none (pieces github_token) in if found then some out else none)
redact_text-render_example = redact_text-render marker github_token

marker-IsClean : (n : ℕ) → All IsClean (pieces (marker n))
unfolding pieces is_token_char is_ascii_alphanumeric run_is_secret
marker-IsClean n = (tt, (refl, (tt, tt)))

hidden_token : redact_text marker github_token ≡ some (codes "use <hidden> now")
unfolding redact_text is_token_char is_ascii_alphanumeric run_is_secret is_whitespace
hidden_token = refl

redact_text-IsClean_example : All IsClean (pieces (codes "use <hidden> now"))
redact_text-IsClean_example =
    redact_text-IsClean marker marker-IsClean github_token (codes "use <hidden> now") hidden_token

-- An escape sequence and a reordering mark.
abbrev hostile : Text
hostile = codes "\u{1b}[2Jrm\u{202e}txt\n"

sanitize-IsCleaned_example :
    All (λ c. is_forbidden c ≡ false) (sanitize hostile) × IsCleaned hostile (sanitize hostile)
sanitize-IsCleaned_example = sanitize-IsCleaned hostile
