-- ===== src/Redact/Runs/Clean.antt =====
-- What is left in a redacted text: no run of token characters that has the shape of a credential.
use dekopon_console.Base.{
  ℕ, ◌≡◌, refl, true, false, List, [], ◌∷◌, ◌++◌, Option, none, some, Text, all, length,
  if◌then◌else◌, Bool-cases, inl, inr, arith, All, All-append, append-nil,
}
use dekopon_console.Redact.Runs.{is_token_char, run_is_secret, redact_text}
use dekopon_console.Redact.Runs.Reference.{
  Piece, separator, token_run, glue, carried, pieces, pieces_separator, is_hidden, render,
  redact_text-render,
}

-- The run is no credential by its shape.
abbrev pub IsClean : Piece → Type 0
IsClean (separator c) = Unit {0}
IsClean (token_run r) = run_is_secret r ≡ false

glue-append :
    (x c : ℕ) (ps qs : List Piece) → glue x (ps ++ separator c ∷ qs) ≡ glue x ps ++ separator c ∷ qs
glue-append x c [] qs = refl
glue-append x c (separator d ∷ ps) qs = refl
glue-append x c (token_run r ∷ ps) qs = refl

-- A separator ends the run before it: the pieces of the two sides are independent.
pieces-append :
    (a : Text) (c : ℕ) (b : Text)
    → is_token_char c ≡ false
    → pieces (a ++ c ∷ b) ≡ pieces a ++ separator c ∷ pieces b
unfolding pieces
pieces-append [] c b h = rw h
pieces-append (x ∷ a) c b h =
    ground (arith, pieces-append a c b h, glue-append x c (pieces a) (pieces b))

-- Separators are no token characters, runs are token characters only, and never stand side by side.
abbrev IsPieces : List Piece → Type 0
IsPieces [] = Unit {0}
IsPieces (separator c ∷ ps) = (is_token_char c ≡ false) × IsPieces ps
IsPieces (token_run r ∷ []) = all is_token_char r ≡ true
IsPieces (token_run r ∷ separator c ∷ ps) =
    (all is_token_char r ≡ true) × (is_token_char c ≡ false) × IsPieces ps
IsPieces (token_run r ∷ token_run q ∷ ps) = ⊥

glue-IsPieces :
    (c : ℕ) (ps : List Piece) → is_token_char c ≡ true → IsPieces ps → IsPieces (glue c ps)
glue-IsPieces c [] h v = ground arith
glue-IsPieces c (separator d ∷ ps) h v = ground arith
glue-IsPieces c (token_run r ∷ []) h v = ground arith
glue-IsPieces c (token_run r ∷ separator d ∷ ps) h v = ground arith
glue-IsPieces c (token_run r ∷ token_run q ∷ ps) h v = elim v [ ]

pieces-IsPieces : (s : Text) → IsPieces (pieces s)
unfolding pieces
pieces-IsPieces [] = tt
pieces-IsPieces (c ∷ s) = elim (Bool-cases (is_token_char c)) [
  | inl h ↦ rw h (glue-IsPieces c (pieces s) h (pieces-IsPieces s))
  | inr h ↦ rw h (h, pieces-IsPieces s)
]

pieces_run :
    (c : ℕ) (r : Text) → all is_token_char (c ∷ r) ≡ true → pieces (c ∷ r) ≡ token_run (c ∷ r) ∷ []
unfolding pieces
pieces_run c [] h = ground arith
pieces_run c (d ∷ r) h = ground (arith, pieces_run d r)

-- A run that has not the shape of a credential, read alone, is clean.
run-IsClean :
    (r : Text) → all is_token_char r ≡ true → run_is_secret r ≡ false → All IsClean (pieces r)
unfolding pieces
run-IsClean [] h e = tt
run-IsClean (c ∷ r) h e = rw (pieces_run c r h) (e, tt)

module _ (marker : ℕ → Text) (marker-IsClean : (n : ℕ) → All IsClean (pieces (marker n))) where
  abbrev shown : Option Text → Text → Text
  shown prev r = if is_hidden prev r then marker (length r) else r

  render_run :
      (prev : Option Text) (r : Text) (ps : List Piece)
      → (render marker prev (token_run r ∷ ps)).0 ≡ shown prev r ++ (render marker (some r) ps).0
  unfolding render
  render_run prev r ps = ground arith

  shown-IsClean :
      (prev : Option Text) (r : Text)
      → all is_token_char r ≡ true
      → All IsClean (pieces (shown prev r))
  unfolding is_hidden
  shown-IsClean prev r h = elim (Bool-cases (is_hidden prev r)) [
    | inl e ↦ rw e (marker-IsClean (length r))
    | inr e ↦ rw e (run-IsClean r h (ground arith))
  ]

  render_separator :
      (prev : Option Text) (c : ℕ) (ps : List Piece)
      → (render marker prev (separator c ∷ ps)).0 ≡ c ∷ (render marker (carried c prev) ps).0
  unfolding render
  render_separator prev c ps = refl

  render_nil : (prev : Option Text) → (render marker prev []).0 ≡ []
  unfolding render
  render_nil prev = refl

  render-IsClean :
      (prev : Option Text) (ps : List Piece)
      → IsPieces ps
      → All IsClean (pieces (render marker prev ps).0)
  render-IsClean prev [] v = unfold render pieces in tt
  render-IsClean prev (separator c ∷ ps) v =
      rw (render_separator prev c ps, pieces_separator c (render marker (carried c prev) ps).0 v.0)
        (tt, render-IsClean (carried c prev) ps v.1)
  render-IsClean prev (token_run r ∷ []) v =
      rw (render_run prev r [], render_nil (some r), append-nil (shown prev r))
        (shown-IsClean prev r v)
  render-IsClean prev (token_run r ∷ separator c ∷ ps) v =
      let rest = (render marker (carried c (some r)) ps).0 in
      rw
        (
          render_run prev r (separator c ∷ ps),
          render_separator (some r) c ps,
          pieces-append (shown prev r) c rest v.1,
        )
        (All-append IsClean (pieces (shown prev r)) (separator c ∷ pieces rest)
          (shown-IsClean prev r v.0) (tt, render-IsClean (carried c (some r)) ps v.2))
  render-IsClean prev (token_run r ∷ token_run q ∷ ps) v = elim v [ ]

  -- If no run of a marker has the shape of a credential, then no run of a redacted text has: the
  -- marker stands in the place of every one.
  pub redact_text-IsClean :
      (text out : Text) → redact_text marker text ≡ some out → All IsClean (pieces out)
  redact_text-IsClean text out h =
      let clean = render-IsClean none (pieces text) (pieces-IsPieces text) in
      ground (arith, redact_text-render marker text, clean)
