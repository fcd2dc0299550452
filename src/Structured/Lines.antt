-- ===== src/Structured/Lines.antt =====
-- A reader of a frame gets back the lines that were written.
use dekopon_console.Base.{
  ℕ, zero, suc, ◌-◌, ◌≡◌, refl, ap, ◌∙◌, true, false, List, [], ◌∷◌, ◌++◌, Text, codes, split, ◌+◌,
  ◌≤◌, ◌<◌, append_assoc, append-nil, is_control, take, length, all, not, All, All-append, ◌==◌,
  if_lem, arith,
}
use dekopon_console.Redact.Sanitize.{
  sanitize_line, IsPlain, sanitize_line-IsPlain, sanitize_line_of_IsPlain,
}
use dekopon_console.Structured.Frame.{IsQuiet}
use dekopon_console.Structured.{
  max_output, is_marker, escaped, body, truncated, inner, write_result, printed,
}

-- No line end in it.
abbrev pub IsOneLine : Text → Type 0
IsOneLine line = All (λ c. (c == b'\n') ≡ false) line

All-take {ℓ κ} : {A : Type ℓ} (P : A → Type κ) (n : ℕ) (xs : List A) → All P xs → All P (take n xs)
All-take P zero xs h = tt
All-take P (suc n) [] h = tt
All-take P (suc n) (x ∷ xs) h = (h.0, All-take P n xs h.1)

all-IsOneLine : (s : Text) → all (λ c. not (c == b'\n')) s ≡ true → IsOneLine s
all-IsOneLine [] h = tt
all-IsOneLine (c ∷ s) h = (ground (arith, h), all-IsOneLine s (ground (arith, h)))

IsPlain-IsOneLine : (s : Text) → All IsPlain s → IsOneLine s
unfolding is_control
IsPlain-IsOneLine [] h = tt
IsPlain-IsOneLine (c ∷ s) h = (ground (arith, h.0.0), IsPlain-IsOneLine s h.1)

escaped-IsOneLine : (nonce line : Text) → IsOneLine (escaped nonce line)
unfolding escaped codes
escaped-IsOneLine nonce line =
    let safe = IsPlain-IsOneLine (sanitize_line line) (sanitize_line-IsPlain line) in
    if_lem IsOneLine (is_marker nonce (sanitize_line line)) (refl, (refl, safe)) safe

body-IsOneLine :
    (nonce : Text) (remaining : ℕ) (lines : List Text)
    → All IsOneLine (body nonce remaining lines).0
unfolding body
body-IsOneLine nonce remaining [] = tt
body-IsOneLine nonce remaining (line ∷ lines) =
    if_lem (λ (r : List Text × ℕ). All IsOneLine r.0) (remaining == 0) tt
      (
        All-take (λ c. (c == b'\n') ≡ false) remaining (escaped nonce line)
            (escaped-IsOneLine nonce line),
        body-IsOneLine nonce (remaining - length (take remaining (escaped nonce line))) lines,
      )

note-IsOneLine : IsOneLine (codes "[output truncated]")
unfolding codes
note-IsOneLine = all-IsOneLine (codes "[output truncated]") refl

inner-IsOneLine : (nonce text : Text) → All IsOneLine (inner nonce text)
unfolding inner truncated
inner-IsOneLine nonce text =
    let (out, left) = body nonce max_output (split b'\n' text) in
    All-append IsOneLine out (truncated left) (body-IsOneLine nonce max_output (split b'\n' text))
      (if_lem (All IsOneLine) (left == 0) (note-IsOneLine, tt) tt)

split-line :
    (line rest : Text)
    → IsOneLine line
    → split b'\n' (line ++ b'\n' ∷ rest) ≡ line ∷ split b'\n' rest
unfolding split
split-line [] rest h = refl
split-line (c ∷ line) rest h = ground (arith, split-line line rest h.1, h.0)

split-printed :
    (lines : List Text) → All IsOneLine lines → split b'\n' (printed lines) ≡ lines ++ [] ∷ []
unfolding printed split
split-printed [] h = refl
split-printed (line ∷ lines) h =
    split-line line (printed lines) h.0 ∙ ap (λ ls. line ∷ ls) (split-printed lines h.1)

-- The characters of lines, without the line ends.
abbrev pub total : List Text → ℕ
total [] = 0
total (line ∷ lines) = length line + total lines

take_all : {A : Type 0} (n : ℕ) (xs : List A) → length xs ≤ n → take n xs ≡ xs
take_all zero [] h = refl
take_all zero (x ∷ xs) h = ground (arith, h)
take_all (suc n) [] h = refl
take_all (suc n) (x ∷ xs) h = ap (λ l. x ∷ l) (take_all n xs (omega (arith, h)))

-- Plain lines that are no markers stay as they are, while characters remain.
body_verbatim :
    (nonce : Text) (remaining : ℕ) (lines : List Text)
    → All (All IsPlain) lines
    → All (IsQuiet nonce) lines
    → total lines < remaining
    → body nonce remaining lines ≡ (lines, remaining - total lines)
unfolding body escaped
body_verbatim nonce remaining [] p q few =
    let all_left : remaining ≡ remaining - 0 = omega arith in ap (λ n. ([], n)) all_left
body_verbatim nonce remaining (line ∷ lines) p q few =
    let same_line = sanitize_line_of_IsPlain line p.0 in
    let whole : take remaining line ≡ line = take_all remaining line (omega (arith, few)) in
    let rest = body_verbatim nonce (remaining - length line) lines p.1 q.1 (omega (arith, few)) in
    let more : (remaining == 0) ≡ false = ground (arith, few) in
    let left : remaining - length line - total lines ≡ remaining - (length line + total lines) =
      omega arith in
    rw (same_line, q.0, whole, rest, more, left) refl

inner_verbatim :
    (nonce text : Text)
    → All (All IsPlain) (split b'\n' text)
    → All (IsQuiet nonce) (split b'\n' text)
    → total (split b'\n' text) < max_output
    → inner nonce text ≡ split b'\n' text
unfolding inner truncated
inner_verbatim nonce text p q few =
    let left : (max_output - total (split b'\n' text) == 0) ≡ false = ground (arith, few) in
    rw (body_verbatim nonce max_output (split b'\n' text) p q few, left)
      (append-nil (split b'\n' text))

-- If neither the nonce nor the status holds a line end, and the text has plain lines, none of which
-- starts with a marker of the nonce, with fewer than 65,536 characters, then a reader who splits the
-- text of the frame at the line ends gets the first line, the lines of the text as they are, the last
-- line, and nothing after it.
pub split-printed-write_result :
    (nonce status text : Text)
    → IsOneLine nonce
    → IsOneLine status
    → All (All IsPlain) (split b'\n' text)
    → All (IsQuiet nonce) (split b'\n' text)
    → total (split b'\n' text) < max_output
    → split b'\n' (printed (write_result nonce status text))
      ≡ (codes "RESULT " ++ nonce ++ codes " " ++ status) ∷ split b'\n' text
        ++ (codes "END " ++ nonce) ∷ [] ∷ []
unfolding write_result codes
split-printed-write_result nonce status text n s p q few =
    let one : ℕ → Type 0 = λ c. (c == b'\n') ≡ false in
    let named = All-append one (codes "RESULT ") nonce (all-IsOneLine (codes "RESULT ") refl) n in
    let spaced = All-append one (codes "RESULT " ++ nonce) (codes " ") named (refl, tt) in
    let first = All-append one (codes "RESULT " ++ nonce ++ codes " ") status spaced s in
    let last = All-append one (codes "END ") nonce (all-IsOneLine (codes "END ") refl) n in
    split-printed (write_result nonce status text)
      (first, All-append IsOneLine (inner nonce text) _ (inner-IsOneLine nonce text) (last, tt))
    ∙ rw
        (
          inner_verbatim nonce text p q few,
          append_assoc (split b'\n' text) ((codes "END " ++ nonce) ∷ []) ([] ∷ []),
        )
        refl
