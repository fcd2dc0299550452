-- ===== src/Dispatch/Reach.antt =====
-- The event loop of crates/dekopon-tui/src/run.rs (`drive_event_loop`) as a step relation: a key press
-- with the dispatch of its action, a line's output, a
-- progress message, a resize, and the end of a task. What lies outside may
-- answer differently at each step. Model turns, which no key asks for, are left to Settled.antt.
use dekopon_console.Base.{ℕ, ◌-◌, ◌≢◌, refl, sym, ap, ◌∙◌, List, Option, none, some, Text, is_some}
use dekopon_console.App.{Agent, new, say}
use dekopon_console.App.Flow.{finish_shell}
use dekopon_console.Dispatch.{Host, World}
use dekopon_console.Dispatch.Joined.{enter_agent-IsSettled, finish_turn-IsSettled}
use dekopon_console.Dispatch.Settled.{IsSettled, run_shell-IsSettled}
use dekopon_console.Dispatch.Turns.{Joined, dispatch, finish_turn}
use dekopon_console.Keys
use dekopon_console.Keys.{Action, KeyEvent, on_key, Pressed}
use dekopon_console.Keys.Actions.{on_key-Allows}
use dekopon_console.Keys.Frame.{on_key-Keeps}
use dekopon_console.Session.{ConsoleOptions, SmokeIdentity, unset}
use dekopon_console.View.{ShellEntry, info}

-- `if let Some(action) = on_key(..) { dispatch(..) }`.
unfoldable pub acted :
    {H Blob Encoding : Type 0}
    → Host H Blob Encoding
    → Option Action
    → World H Blob Encoding
    → World H Blob Encoding
acted h none w = w
acted h (some a) w = dispatch h a w

unfoldable pub pressed :
    {H Blob Encoding : Type 0}
    → Host H Blob Encoding
    → (List Text → ℕ → ℕ)
    → KeyEvent
    → World H Blob Encoding
    → World H Blob Encoding
unfolding acted
pressed h line_count k w =
    let (action, app, stop) = on_key line_count k w.app w.stop in
    acted h action (record w { app = app; stop = stop })

module _ {H Blob Encoding : Type 0} where
  pub data Step : World H Blob Encoding → World H Blob Encoding → Type 0 where
    press :
        (h : Host H Blob Encoding) (line_count : List Text → ℕ → ℕ) (k : KeyEvent)
        (w : World H Blob Encoding)
        → Step w (pressed h line_count k w)
    output :
        (entry : ShellEntry) (w : World H Blob Encoding)
        → Step w (record w { app = finish_shell entry w.app })
    progress :
        (message : Text) (w : World H Blob Encoding)
        → Step w (record w { app = say (info message) w.app })
    resize :
        (width height : ℕ) (w : World H Blob Encoding)
        → Step w (record w { app = record w.app { shell_viewport = (width - 2, height - 11) } })
    join :
        (h : Host H Blob Encoding) (j : Joined H) (w : World H Blob Encoding)
        → Step w (finish_turn h j w)

  -- What the loop can reach, from a console with no agent open and nothing running.
  pub data Reachable : World H Blob Encoding → Type 0 where
    start :
        (agents : List Agent) (subject socket path : Text) (options : ConsoleOptions) (history : H)
        (identity : SmokeIdentity)
        → Reachable (record {
          app = new agents subject socket path;
          options = options;
          running = none;
          history = history;
          stop = unset;
          identity = identity;
          panic = none;
        })
    after : {v w : World H Blob Encoding} → Reachable v → Step v w → Reachable w

  acted-IsSettled :
      (h : Host H Blob Encoding) (o : Option Action) (w : World H Blob Encoding)
      → ((prompt : Text) → o ≢ some (Keys.run_turn prompt))
      → IsSettled w
      → IsSettled (acted h o w)
  unfolding acted dispatch
  acted-IsSettled h none w no_turn s = s
  acted-IsSettled h (some Keys.enter_agent) w no_turn s = enter_agent-IsSettled h w s
  acted-IsSettled h (some (Keys.run_turn prompt)) w no_turn s = absurd (no_turn prompt refl)
  acted-IsSettled h (some (Keys.run_shell line)) w no_turn s = run_shell-IsSettled h line w s

  pub Step-IsSettled : (v w : World H Blob Encoding) → Step v w → IsSettled v → IsSettled w
  unfolding pressed finish_shell
  Step-IsSettled _ _ (press h line_count k w) s =
      let keeps = on_key-Keeps line_count k w.app w.stop in
      let (action, app, stop) = on_key line_count k w.app w.stop in
      acted-IsSettled h action (record w { app = app; stop = stop })
        (λ prompt. on_key-Allows line_count k w.app w.stop (Keys.run_turn prompt))
        (ap is_some keeps.0 ∙ s.0 ∙ sym (ap is_some keeps.1), keeps.2 ∙ s.1)
  Step-IsSettled _ _ (output entry w) s = s
  Step-IsSettled _ _ (progress message w) s = s
  Step-IsSettled _ _ (resize width height w) s = s
  Step-IsSettled _ _ (join h j w) s = finish_turn-IsSettled h j w s

  -- Whatever keys are pressed, whatever the broker answers and however tasks end, the console is busy
  -- exactly while a task runs, and it has an inventory exactly while it has a session.
  pub Reachable-IsSettled : (w : World H Blob Encoding) → Reachable w → IsSettled w
  unfolding new
  Reachable-IsSettled _ (start agents subject socket path options history identity) = (refl, refl)
  Reachable-IsSettled w (after {v} r s) = Step-IsSettled v w s (Reachable-IsSettled v r)
