-- ===== src/Dispatch/Loop.antt =====
-- `run` and `drive_event_loop` of crates/dekopon-tui/src/run.rs as functions, on the list of what the
-- passes of the loop meet. Setting the terminal up is one answer; what is drawn or printed is left out.
pub mod Closes
pub mod Ends
use dekopon_console.Base.{
  ℕ, ◌-◌, Bool, true, List, [], ◌∷◌, Option, none, some, Text, if◌then◌else◌, is_some,
}
use dekopon_console.App.{App, say}
use dekopon_console.App.Flow.{finish_shell, on_session_event}
use dekopon_console.Assets.{Store}
use dekopon_console.Dispatch.{Host, World, Job, stop_running}
use dekopon_console.Dispatch.Reach.{pressed}
use dekopon_console.Dispatch.Turns.{Joined, dispatch, finish_turn}
use dekopon_console.Keys
use dekopon_console.Keys.{KeyEvent}
use dekopon_console.Record.{SessionEvent, progress, shell_finished}
use dekopon_console.Session.{ConsoleOptions, SmokeIdentity, unset}
use dekopon_console.View.{info}

-- What a pass of the loop selects: an event of the terminal, with the broker's answers to a key, or
-- one of the running task, or its end with the join.
pub data Event (H Blob Encoding : Type 0) : Type 0 where
  key : Host H Blob Encoding → (List Text → ℕ → ℕ) → KeyEvent → Event H Blob Encoding
  resize : ℕ → ℕ → Event H Blob Encoding
  other closed : Event H Blob Encoding
  failed : Text → Event H Blob Encoding
  told : SessionEvent → Event H Blob Encoding
  over : Host H Blob Encoding → Joined H → Event H Blob Encoding

-- A pass: the terminal's size, if it is known, the failure of drawing, if there is one, and the event.
pub record Pass (H Blob Encoding : Type 0) : Type 0 where
  pub size : Option (ℕ × ℕ)
  pub draw_failure : Option Text
  pub event : Event H Blob Encoding

-- The loop waits for the next event, or it has returned.
pub data Looped (W : Type 0) : Type 0 where
  waiting : W → Looped W
  returned : Option Text → W → Looped W

module _ {H Blob Encoding : Type 0} where
  unfoldable pub sized : ℕ → ℕ → World H Blob Encoding → World H Blob Encoding
  sized width height w = record w {
    app = record w.app { shell_viewport = (width - 2, height - 11) };
  }

  unfoldable pub measured : Option (ℕ × ℕ) → World H Blob Encoding → World H Blob Encoding
  unfolding sized
  measured none w = w
  measured (some (width, height)) w = sized width height w

  -- An event of the running task.
  unfoldable pub heard : SessionEvent → World H Blob Encoding → World H Blob Encoding
  heard (progress message) w = record w { app = say (info message) w.app }
  heard (shell_finished entry) w = record w { app = finish_shell entry w.app }
  heard event w = record w { app = on_session_event event w.app }

  -- `recv`: nothing is heard when nothing runs.
  unfoldable pub received :
      SessionEvent → Option (Job H) → World H Blob Encoding → World H Blob Encoding
  unfolding heard
  received event none w = w
  received event (some job) w = heard event w

  unfoldable pub selected :
      Event H Blob Encoding → World H Blob Encoding → Looped (World H Blob Encoding)
  unfolding sized received
  selected (key h line_count k) w = waiting (pressed h line_count k w)
  selected (resize width height) w = waiting (sized width height w)
  selected other w = waiting w
  selected closed w = waiting (record w { app = record w.app { should_quit = true } })
  selected (failed e) w = returned (some e) (stop_running w)
  selected (told event) w = waiting (received event w.running w)
  selected (over h joined) w = waiting (finish_turn h joined w)

  -- The draw, the test for quitting, and the event.
  unfoldable pub passed :
      Option Text → Event H Blob Encoding → World H Blob Encoding → Looped (World H Blob Encoding)
  unfolding selected
  passed (some e) event w = returned (some e) (stop_running w)
  passed none event w =
      if w.app.should_quit then returned none (stop_running w) else selected event w

  unfoldable pub pass :
      Pass H Blob Encoding → World H Blob Encoding → Looped (World H Blob Encoding)
  unfolding passed measured
  pass p w = passed p.draw_failure p.event (measured p.size w)

  unfoldable pub go_on :
      (World H Blob Encoding → Looped (World H Blob Encoding))
      → Looped (World H Blob Encoding)
      → Looped (World H Blob Encoding)
  go_on more (waiting w) = more w
  go_on more (returned e w) = returned e w

  -- `drive_event_loop`.
  unfoldable pub drive :
      List (Pass H Blob Encoding) → World H Blob Encoding → Looped (World H Blob Encoding)
  unfolding go_on pass
  drive [] w = waiting w
  drive (p ∷ ps) w = go_on (drive ps) (pass p w)

  unfoldable pub initial_world :
      H → App (Store Blob Encoding) → ConsoleOptions → SmokeIdentity → World H Blob Encoding
  initial_world history app options identity = record {
    app = app;
    options = options;
    running = none;
    history = history;
    stop = unset;
    identity = identity;
    panic = none;
  }

  -- The entry of the initial agent, before the loop.
  unfoldable pub started : Host H Blob Encoding → World H Blob Encoding → World H Blob Encoding
  started h w = if is_some w.options.initial_agent then dispatch h Keys.enter_agent w else w

  -- `run`, on the failure of the terminal, if it cannot be set up.
  unfoldable pub run :
      Option Text
      → Host H Blob Encoding
      → List (Pass H Blob Encoding)
      → App (Store Blob Encoding)
      → ConsoleOptions
      → SmokeIdentity
      → Looped (World H Blob Encoding)
  unfolding drive started initial_world
  run (some e) h ps app options identity =
      returned (some e) (initial_world h.new_history app options identity)
  run none h ps app options identity =
      drive ps (started h (initial_world h.new_history app options identity))
