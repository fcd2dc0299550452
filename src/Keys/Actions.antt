-- ===== src/Keys/Actions.antt =====
-- Which key presses lead to an action.
use dekopon_console.Base.{
  ℕ, ◌≡◌, ◌≢◌, refl, true, false, List, [], none, some, Text, trim, arith, inl, inr, Bool-cases,
  is_some, Option-cases,
}
use dekopon_console.App.{App}
use dekopon_console.App.Flow.{request_stop}
use dekopon_console.Keys.{
  KeyCode, enter, esc, KeyEvent, Action, enter_agent, run_turn, run_shell, is_interrupt, on_key,
  on_composing_key, on_browsing_key, Modifiers, typed, browsed, unpaged, or_paged, by_mode,
  submit_line, stop_or, paging,
}
use dekopon_console.Session.{StopFlag}
use dekopon_console.View.{agents, shell, Mode, browsing, composing, help, error}

-- What must hold for the action to be returned.
abbrev pub Allows : {Assets : Type 0} → App Assets → Action → Type 0
Allows app enter_agent = (app.mode ≡ browsing) × (app.pane ≡ agents)
Allows app (run_turn prompt) = ⊥
Allows app (run_shell line) =
    (app.mode ≡ composing)
    × (app.pane ≡ shell)
    × (app.busy ≡ false)
    × (is_some app.session ≡ true)
    × (line ≡ trim app.composer)
    × (line ≢ [])

module _ {Assets : Type 0} (app : App Assets) (stop : StopFlag) where
  stop_or-none : (f : App Assets → App Assets) → (stop_or f app stop).0 ≡ none
  unfolding stop_or request_stop
  stop_or-none f = ground arith

  submit_line-Allows :
      (a : Action) → app.mode ≡ composing → (submit_line app stop).0 ≡ some a → Allows app a
  unfolding submit_line
  submit_line-Allows enter_agent h e = ground arith
  submit_line-Allows (run_turn prompt) h e = ground arith
  submit_line-Allows (run_shell line) h e = ground arith

  typed-Allows :
      (c : KeyCode) (m : Modifiers) (a : Action)
      → app.mode ≡ composing
      → (typed c m app stop).0 ≡ some a
      → Allows app a
  unfolding typed
  typed-Allows enter m a h e = submit_line-Allows a h e
  typed-Allows esc m a h e =
      absurd (ground (arith, stop_or-none (λ x. record x { mode = browsing; composer = [] })))
  typed-Allows _ m a h e = cc

  browsed-Allows :
      (c : KeyCode) (a : Action)
      → app.mode ≡ browsing
      → (browsed c app stop).0 ≡ some a
      → Allows app a
  unfolding browsed
  browsed-Allows enter enter_agent h e = ground arith
  browsed-Allows enter (run_turn prompt) h e = ground arith
  browsed-Allows enter (run_shell line) h e = ground arith
  browsed-Allows esc a h e = absurd (ground (arith, stop_or-none (λ x. x)))
  browsed-Allows _ a h e = cc

module _ {Assets : Type 0} (line_count : List Text → ℕ → ℕ) where
  by_mode-Allows :
      (m : Mode) (k : KeyEvent) (app : App Assets) (stop : StopFlag) (a : Action)
      → app.mode ≡ m
      → (by_mode line_count m k app stop).0 ≡ some a
      → Allows app a
  unfolding by_mode or_paged unpaged on_composing_key on_browsing_key
  by_mode-Allows browsing k app stop a h e =
      elim (Option-cases (paging line_count k.code app.pane app)) [
        | inr (paged, p) ↦ absurd (ground (arith, p, e))
        | inl p ↦ browsed-Allows app stop k.code a h (ground (arith, p, h, e))
      ]
  by_mode-Allows composing k app stop a h e =
      elim (Option-cases (paging line_count k.code app.pane app)) [
        | inr (paged, p) ↦ absurd (ground (arith, p, e))
        | inl p ↦ typed-Allows app stop k.code k.modifiers a h (ground (arith, p, h, e))
      ]
  by_mode-Allows help k app stop a h e = cc
  by_mode-Allows error k app stop a h e = cc

  -- A key press asks to enter an agent only while browsing the agents, and to run a line only while
  -- typing in the shell of an open agent with nothing running, and then the line is what was typed,
  -- trimmed and not empty. No key asks for a model turn.
  pub on_key-Allows :
      (k : KeyEvent) (app : App Assets) (stop : StopFlag) (a : Action)
      → (on_key line_count k app stop).0 ≡ some a
      → Allows app a
  unfolding on_key
  on_key-Allows k app stop a e = elim (Bool-cases (is_interrupt k)) [
    | inl p ↦ absurd (ground (arith, p, e))
    | inr p ↦ by_mode-Allows app.mode k app stop a refl (ground (arith, p, e))
  ]
