-- ===== src/Redact/Runs/Reference.antt =====
-- A reference definition of `redact_text`, by recursion on the text alone, and the loop's agreement
-- with it.
use dekopon_console.Base.{
  ℕ, zero, suc, ◌<◌, ◌≤◌, ◌≡◌, refl, sym, Bool, true, false, ◌||◌, List, [], ◌∷◌, ◌++◌, Option,
  none, some, append-nil, append_assoc, Text, is_whitespace, length, if◌then◌else◌, Bool-cases, inl,
  inr, arith, ◌∙◌,
}
use dekopon_console.Redact.Runs.{
  Scan, is_token_char, run_is_secret, introduced, span_token, step_separator, step_run, redact_loop,
  redact_text,
}

-- A text falls into separators and maximal runs of token characters.
pub data Piece : Type 0 where
  separator : ℕ → Piece
  token_run : Text → Piece

abbrev pub glue : ℕ → List Piece → List Piece
glue c [] = token_run (c ∷ []) ∷ []
glue c (separator d ∷ ps) = token_run (c ∷ []) ∷ separator d ∷ ps
glue c (token_run r ∷ ps) = token_run (c ∷ r) ∷ ps

unfoldable pub pieces : Text → List Piece
pieces [] = []
pieces (c ∷ s) = let ps = pieces s in if is_token_char c then glue c ps else separator c ∷ ps

-- A run is hidden if it has the shape of a credential or the run before it, with only white space
-- between, names a scheme.
unfoldable pub is_hidden : Option Text → Text → Bool
unfolding introduced
is_hidden prev run = introduced prev run || run_is_secret run

abbrev pub carried : ℕ → Option Text → Option Text
carried c prev = if is_whitespace c then prev else none

module _ (marker : ℕ → Text) where
  -- The text with the hidden runs replaced, and whether there was one.
  unfoldable pub render : Option Text → List Piece → Text × Bool
  render prev [] = ([], false)
  render prev (separator c ∷ ps) = let (out, found) = render (carried c prev) ps in (c ∷ out, found)
  render prev (token_run r ∷ ps) =
      let (out, found) = render (some r) ps in
      if is_hidden prev r then (marker (length r) ++ out, true) else (r ++ out, found)

abbrev push_run : Text → List Piece → List Piece
push_run [] ps = ps
push_run (c ∷ r) ps = token_run (c ∷ r) ∷ ps

-- `span_token` splits the first run off.
pieces-span_token : (s : Text) → pieces s ≡ push_run (span_token s).0 (pieces (span_token s).1)
unfolding pieces span_token
pieces-span_token [] = refl
pieces-span_token (c ∷ []) = ground arith
pieces-span_token (c ∷ d ∷ s) = ground (arith, pieces-span_token (d ∷ s))

span_token-le : (s : Text) → length (span_token s).1 ≤ length s
unfolding span_token
span_token-le [] = omega arith
span_token-le (c ∷ s) = ground (arith, span_token-le s)

span_token-cons :
    (c : ℕ) (s : Text)
    → is_token_char c ≡ true
    → ((span_token (c ∷ s)).0 ≡ c ∷ (span_token s).0) × ((span_token (c ∷ s)).1 ≡ (span_token s).1)
unfolding span_token
span_token-cons c s h = rw h (refl, refl)

pieces_token :
    (c : ℕ) (s : Text)
    → is_token_char c ≡ true
    → pieces (c ∷ s) ≡ token_run (c ∷ (span_token s).0) ∷ pieces (span_token s).1
pieces_token c s h =
    let (p, q) = span_token-cons c s h in pieces-span_token (c ∷ s) ∙ rw (p, q) refl

pub pieces_separator :
    (c : ℕ) (s : Text) → is_token_char c ≡ false → pieces (c ∷ s) ≡ separator c ∷ pieces s
unfolding pieces
pieces_separator c s h = rw h

module _ (marker : ℕ → Text) where
  -- What the loop has to return: some state with this output and this flag.
  abbrev Returns : Scan → List Piece → Option Scan → Type 0
  Returns s ps result =
      (t : Scan) × (result ≡ some t)
      × (t.output ≡ s.output ++ (render marker s.previous_run ps).0)
      × (t.found ≡ (s.found || (render marker s.previous_run ps).1))

  Returns-separator :
      (c : ℕ) (s : Scan) (ps : List Piece) (result : Option Scan)
      → Returns (step_separator marker c s) ps result
      → Returns s (separator c ∷ ps) result
  unfolding render step_separator
  Returns-separator c s ps result (t, p, q, r) = (t, p, q ∙ append_assoc s.output (c ∷ []) _, r)

  Returns-run :
      (run : Text) (s : Scan) (ps : List Piece) (result : Option Scan)
      → Returns (step_run marker run s) ps result
      → Returns s (token_run run ∷ ps) result
  unfolding render step_run is_hidden
  Returns-run run s ps result (t, p, q, r) =
      let tail = (render marker (some run) ps).0 in
      let after_run = append_assoc s.output run tail in
      let after_marker = append_assoc s.output (marker (length run)) tail in
      (t, p, ground (arith, after_run, after_marker), ground arith)

  -- With more fuel than characters the loop ends, and has written what the reference says.
  redact_loop-Returns :
      (fuel : ℕ) (text : Text) (s : Scan)
      → length text < fuel
      → Returns s (pieces text) (redact_loop marker fuel text s)
  unfolding redact_loop
  redact_loop-Returns zero text s h = elim h [ ]
  redact_loop-Returns (suc fuel) [] s h = (
    s,
    refl,
    unfold render pieces in sym (append-nil s.output),
    unfold render pieces in ground arith,
  )
  redact_loop-Returns (suc fuel) (c ∷ rest) s h = elim (Bool-cases (is_token_char c)) [
    | inl token ↦
        let (p, q) = span_token-cons c rest token in
        rw (token, redact_loop)
          (rw (pieces_token c rest token, p, q)
            (Returns-run _ s _ _
              (redact_loop-Returns fuel (span_token rest).1 _ (omega (arith, span_token-le rest)))))
    | inr other ↦
        rw (other, redact_loop)
          (rw (pieces_separator c rest other)
            (Returns-separator c s _ _ (redact_loop-Returns fuel rest _ (omega arith))))
  ]

  -- `redact_text` always ends. It answers with the reference's text where a run was hidden, and with
  -- `none` where there was none.
  pub redact_text-render :
      (text : Text)
      → redact_text marker text
        ≡ (let (out, found) = render marker none (pieces text) in if found then some out else none)
  unfolding redact_text
  redact_text-render text =
      let (t, p, q, r) = redact_loop-Returns (suc (length text)) text start (omega arith) in
      rw p (ground arith)
    where
      start : Scan
      start = record { output = []; previous_run = none; found = false }
