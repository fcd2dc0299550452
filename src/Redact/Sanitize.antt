-- ===== src/Redact/Sanitize.antt =====
-- `sanitize` and `sanitize_line` of redact.rs.
use dekopon_console.Base.{
  ℕ, ◌≡◌, refl, ◌∙◌, Bool, false, ◌&&◌, ◌||◌, not, map, arith, [], ◌∷◌, leb, ◌==◌, if◌then◌else◌,
  Text, is_control, All, List, any, true, ◌⊎◌, inl, inr, Bool-cases,
}

-- U+FFFD.
abbrev pub control_replacement : ℕ
control_replacement = 0xfffd

-- The marks that can reorder a rendered line: U+200E, U+200F, U+202A to U+202E, U+2066 to U+2069.
abbrev pub is_bidi_override : ℕ → Bool
is_bidi_override c =
    c == 0x200e || c == 0x200f || (leb 0x202a c && leb c 0x202e) || (leb 0x2066 c && leb c 0x2069)

-- The arms of the `match` in `sanitize`, in order.
unfoldable pub sanitize_char : ℕ → ℕ
unfolding is_control
sanitize_char c =
    if c == b'\t' || c == b'\n'
    then c
    else if is_bidi_override c
    then control_replacement
    else if is_control c
    then control_replacement
    else c

unfoldable pub sanitize : Text → Text
unfolding sanitize_char
sanitize text = map sanitize_char text

-- `replace(['\n', '\t'], " ")`.
flatten_char : ℕ → ℕ
flatten_char c = if c == b'\n' || c == b'\t' then b' ' else c

unfoldable pub sanitize_line : Text → Text
unfolding sanitize flatten_char
sanitize_line text = map flatten_char (sanitize text)

-- Not a control character, of any of the ranges, and no mark that reorders a line.
abbrev pub IsPlain : ℕ → Type 0
IsPlain c = (is_control c ≡ false) × (is_bidi_override c ≡ false)

-- The characters with the Unicode property Bidi_Control, but U+061C: the marks, the embeddings with
-- the overrides, and the isolates.
abbrev pub marks : List ℕ
marks = 0x200e ∷ 0x200f ∷ []

abbrev pub embeddings : List ℕ
embeddings = 0x202a ∷ 0x202b ∷ 0x202c ∷ 0x202d ∷ 0x202e ∷ []

abbrev pub isolates : List ℕ
isolates = 0x2066 ∷ 0x2067 ∷ 0x2068 ∷ 0x2069 ∷ []

abbrev pub is_in : List ℕ → ℕ → Bool
is_in list c = any (λ m. c == m) list

-- A control character of the property Cc but tab and newline, or one of these.
abbrev pub is_forbidden : ℕ → Bool
is_forbidden c =
    (is_control c && not (c == b'\t' || c == b'\n'))
    || (is_in marks c || is_in embeddings c || is_in isolates c)

-- Each character stays as it is, or is forbidden and becomes the replacement.
abbrev pub IsCleaned : Text → Text → Type 0
IsCleaned [] [] = Unit
IsCleaned [] (d ∷ ds) = ⊥
IsCleaned (c ∷ cs) [] = ⊥
IsCleaned (c ∷ cs) (d ∷ ds) = ((d ≡ c) ⊎ ((d ≡ 0xfffd) × (is_forbidden c ≡ true))) × IsCleaned cs ds

in_embeddings : (c : ℕ) → is_in embeddings c ≡ (leb 0x202a c && leb c 0x202e)
in_embeddings c = ground arith

in_isolates : (c : ℕ) → is_in isolates c ≡ (leb 0x2066 c && leb c 0x2069)
in_isolates c = ground arith

forbidden_lem :
    (c : ℕ)
    → is_forbidden c ≡ ((is_control c && not (c == b'\t' || c == b'\n')) || is_bidi_override c)
forbidden_lem c = rw (in_embeddings c, in_isolates c) (ground arith)

-- The same test, on the ranges.
abbrev is_hostile : ℕ → Bool
is_hostile c = (is_control c && not (c == b'\t' || c == b'\n')) || is_bidi_override c

sanitize_char-safe : (c : ℕ) → is_hostile (sanitize_char c) ≡ false
unfolding sanitize_char
sanitize_char-safe c = ground arith

replaced : (c : ℕ) → is_hostile c ≡ true → sanitize_char c ≡ 0xfffd
unfolding sanitize_char
replaced c e = ground (arith, e)

unchanged : (c : ℕ) → is_hostile c ≡ false → sanitize_char c ≡ c
unfolding sanitize_char
unchanged c e = ground (arith, e)

sanitize_char_cases :
    (c : ℕ)
    → (is_forbidden (sanitize_char c) ≡ false)
      × ((sanitize_char c ≡ c) ⊎ ((sanitize_char c ≡ 0xfffd) × (is_forbidden c ≡ true)))
sanitize_char_cases c = elim (Bool-cases (is_hostile c)) [
  | inl e ↦ (
    forbidden_lem (sanitize_char c) ∙ sanitize_char-safe c,
    inr (replaced c e, forbidden_lem c ∙ e),
  )
  | inr e ↦ (forbidden_lem (sanitize_char c) ∙ sanitize_char-safe c, inl (unchanged c e))
]

-- Whatever the text, what `sanitize` returns has no control character but tab and newline, and no
-- character with the property Bidi_Control but U+061C; and it has the characters of the text in
-- their places, with U+FFFD for just those.
pub sanitize-IsCleaned :
    (s : Text) → All (λ c. is_forbidden c ≡ false) (sanitize s) × IsCleaned s (sanitize s)
unfolding sanitize
sanitize-IsCleaned [] = (tt, tt)
sanitize-IsCleaned (c ∷ s) =
    let here = sanitize_char_cases c in
    let rest = sanitize-IsCleaned s in ((here.0, rest.0), (here.1, rest.1))

-- Sanitising what is already sanitised changes nothing.
pub sanitize_idem : (s : Text) → sanitize (sanitize s) ≡ sanitize s
unfolding sanitize
sanitize_idem [] = refl
sanitize_idem (c ∷ s) = ground (arith, sanitize_idem s)

-- A displayable line: plain characters only, so no tab and no newline either.
pub sanitize_line-IsPlain : (s : Text) → All IsPlain (sanitize_line s)
unfolding sanitize_line is_control
sanitize_line-IsPlain [] = tt
sanitize_line-IsPlain (c ∷ s) = (ground arith, sanitize_line-IsPlain s)

-- Plain text is drawn as it is.
pub sanitize_line_of_IsPlain : (s : Text) → All IsPlain s → sanitize_line s ≡ s
unfolding sanitize_line
sanitize_line_of_IsPlain [] h = refl
sanitize_line_of_IsPlain (c ∷ s) h = ground (arith, sanitize_line_of_IsPlain s h.1)
