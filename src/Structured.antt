-- ===== src/Structured.antt =====
-- `write_result` of crates/dekopon-tui/src/structured.rs: the frame around one result. The frame is
-- the list of the lines that `writeln!` writes; `printed` is the text of them.
pub mod Frame
pub mod Lines
pub mod Utf8
pub mod Reader
pub mod Serve
use dekopon_console.Base.{
  ℕ, ◌-◌, Bool, List, [], ◌∷◌, ◌++◌, Text, codes, split, starts_with, any, take, length, ◌==◌,
  if◌then◌else◌,
}
use dekopon_console.Redact.Sanitize.{sanitize_line}

abbrev pub max_output : ℕ
max_output = 65536

-- `prefixes`.
unfoldable pub prefixes : Text → List Text
unfolding codes
prefixes nonce =
    (codes "READY " ++ nonce) ∷ (codes "RESULT " ++ nonce) ∷ (codes "END " ++ nonce) ∷ []

abbrev pub is_marker : Text → Text → Bool
is_marker nonce line = any (λ prefix. starts_with prefix line) (prefixes nonce)

-- `escaped`.
unfoldable pub escaped : Text → Text → Text
escaped nonce line =
    let safe = sanitize_line line in if is_marker nonce safe then codes "> " ++ safe else safe

-- The loop over the lines, with the characters that `remaining` is at its end.
unfoldable pub body : Text → ℕ → List Text → List Text × ℕ
body nonce remaining [] = ([], remaining)
body nonce remaining (line ∷ lines) =
    let clipped = take remaining (escaped nonce line) in
    let (out, left) = body nonce (remaining - length clipped) lines in
    if remaining == 0 then ([], remaining) else (clipped ∷ out, left)

truncated : ℕ → List Text
truncated left = if left == 0 then codes "[output truncated]" ∷ [] else []

-- What stands between the first line of the frame and the last.
unfoldable pub inner : Text → Text → List Text
unfolding truncated
inner nonce text =
    let (out, left) = body nonce max_output (split b'\n' text) in out ++ truncated left

-- `write_result`.
unfoldable pub write_result : Text → Text → Text → List Text
unfolding codes
write_result nonce status text =
    (codes "RESULT " ++ nonce ++ codes " " ++ status)
    ∷ (inner nonce text ++ (codes "END " ++ nonce) ∷ [])

-- The text of lines.
unfoldable pub printed : List Text → Text
printed [] = []
printed (line ∷ lines) = line ++ b'\n' ∷ printed lines
