-- ===== src/Structured/Frame.antt =====
-- What a result cannot do to the frame around it.
use dekopon_console.Base.{
  ℕ, zero, suc, ◌-◌, ◌+◌, ◌≡◌, ◌≢◌, ◌≤◌, refl, ap, ◌∙◌, false, List, [], ◌∷◌, ◌++◌, Text, codes,
  split, starts_with, any, take, length, All, All-append, map, append-nil, ◌==◌, if_lem, if_cases,
  arith, length-take,
}
use dekopon_console.Redact.Sanitize.{sanitize_line}
use dekopon_console.Structured.{max_output, prefixes, is_marker, escaped, body, truncated, inner}

-- A text that is cut starts with nothing that the text does not start with.
starts_with-take :
    (p : Text) (n : ℕ) (s : Text) → starts_with p s ≡ false → starts_with p (take n s) ≡ false
unfolding starts_with
starts_with-take [] n s h = h
starts_with-take (c ∷ p) zero s h = refl
starts_with-take (c ∷ p) (suc n) [] h = refl
starts_with-take (c ∷ p) (suc n) (d ∷ s) h = ground (arith, starts_with-take p n s)

any-take :
    (ps : List Text) (n : ℕ) (s : Text)
    → any (λ p. starts_with p s) ps ≡ false
    → any (λ p. starts_with p (take n s)) ps ≡ false
any-take [] n s h = refl
any-take (p ∷ ps) n s h = ground (arith, starts_with-take p n s, any-take ps n s)

-- Neither the escape nor the last line starts with a marker.
escape_lem : (nonce s : Text) → is_marker nonce (codes "> " ++ s) ≡ false
unfolding prefixes codes starts_with
escape_lem nonce s = refl

truncated_lem : (nonce : Text) → is_marker nonce (codes "[output truncated]") ≡ false
unfolding prefixes codes starts_with
truncated_lem nonce = refl

abbrev pub IsQuiet : Text → Text → Type 0
IsQuiet nonce line = is_marker nonce line ≡ false

escaped-IsQuiet : (nonce line : Text) → IsQuiet nonce (escaped nonce line)
unfolding escaped
escaped-IsQuiet nonce line =
    if_cases (IsQuiet nonce) (is_marker nonce (sanitize_line line))
      (λ _. escape_lem nonce (sanitize_line line)) (λ h. h)

body-IsQuiet :
    (nonce : Text) (remaining : ℕ) (lines : List Text)
    → All (IsQuiet nonce) (body nonce remaining lines).0
unfolding body
body-IsQuiet nonce remaining [] = tt
body-IsQuiet nonce remaining (line ∷ lines) =
    if_lem (λ (r : List Text × ℕ). All (IsQuiet nonce) r.0) (remaining == 0) tt
      (
        any-take (prefixes nonce) remaining (escaped nonce line) (escaped-IsQuiet nonce line),
        body-IsQuiet nonce (remaining - length (take remaining (escaped nonce line))) lines,
      )

-- Whatever a command printed, no line between the first and the last of its frame starts with a
-- marker of the process's nonce, so that a reader finds the end of the frame and no other.
pub inner-IsQuiet : (nonce text : Text) → All (IsQuiet nonce) (inner nonce text)
unfolding inner truncated
inner-IsQuiet nonce text =
    let (out, left) = body nonce max_output (split b'\n' text) in
    All-append (IsQuiet nonce) out (truncated left)
      (body-IsQuiet nonce max_output (split b'\n' text))
      (if_lem (All (IsQuiet nonce)) (left == 0) (truncated_lem nonce, tt) tt)

-- The characters of lines, without their line ends.
abbrev pub total_length : List Text → ℕ
total_length [] = 0
total_length (line ∷ lines) = length line + total_length lines

-- The characters of a result and those that `remaining` is left with are 65,536 together.
body-total_length :
    (nonce : Text) (remaining : ℕ) (lines : List Text)
    → total_length (body nonce remaining lines).0 + (body nonce remaining lines).1 ≡ remaining
unfolding body
body-total_length nonce remaining [] = omega arith
body-total_length nonce remaining (line ∷ lines) =
    if_lem (λ (r : List Text × ℕ). total_length r.0 + r.1 ≡ remaining) (remaining == 0)
      (omega arith)
      (omega (
        arith,
        body-total_length nonce (remaining - length (take remaining (escaped nonce line))) lines,
        length-take remaining (escaped nonce line),
      ))

-- The body of a frame is never longer than 65,536 characters, line ends not counted.
pub body_bound :
    (nonce text : Text) → total_length (body nonce max_output (split b'\n' text)).0 ≤ max_output
body_bound nonce text = omega (arith, body-total_length nonce max_output (split b'\n' text))

take_all : (n : ℕ) (s : Text) → n - length (take n s) ≢ 0 → take n s ≡ s
take_all zero s h = absurd (h (omega arith))
take_all (suc n) [] h = refl
take_all (suc n) (c ∷ s) h = ap (λ t. c ∷ t) (take_all n s (λ e. h (omega arith)))

body_left :
    (nonce : Text) (remaining : ℕ) (lines : List Text) → (body nonce remaining lines).1 ≤ remaining
body_left nonce remaining lines = omega (arith, body-total_length nonce remaining lines)

-- Where characters remain at the end, every line was written whole.
body_whole :
    (nonce : Text) (remaining : ℕ) (lines : List Text)
    → (body nonce remaining lines).1 ≢ 0
    → (body nonce remaining lines).0 ≡ map (escaped nonce) lines
unfolding body
body_whole nonce remaining [] h = refl
body_whole nonce remaining (line ∷ lines) h =
    let n = length (take remaining (escaped nonce line)) in
    if_cases (λ (r : List Text × ℕ). r.1 ≢ 0 → r.0 ≡ map (escaped nonce) (line ∷ lines))
      (remaining == 0) (λ none_left k. absurd (k (ground (arith, none_left))))
      (λ _ k.
        let whole =
          take_all remaining (escaped nonce line)
            (λ e. k (omega (arith, e, body_left nonce (remaining - n) lines))) in
        rw whole (
          ap (λ ls. escaped nonce line ∷ ls)
            (rw whole at (body_whole nonce (remaining - n) lines k))))
      h

-- If the frame's body is not full, then it is the text line by line, each sanitised and escaped, and
-- no note of truncation follows: nothing was cut.
pub inner-Whole :
    (nonce text : Text)
    → (body nonce max_output (split b'\n' text)).1 ≢ 0
    → inner nonce text ≡ map (escaped nonce) (split b'\n' text)
unfolding inner truncated
inner-Whole nonce text h =
    let (out, left) = body nonce max_output (split b'\n' text) in
    if_cases (λ (l : List Text). out ++ l ≡ map (escaped nonce) (split b'\n' text)) (left == 0)
      (λ none_left. absurd (h (ground (arith, none_left))))
      (λ _. append-nil out ∙ body_whole nonce max_output (split b'\n' text) h)
