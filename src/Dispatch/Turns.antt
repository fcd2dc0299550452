-- ===== src/Dispatch/Turns.antt =====
-- The `Action::Turn` arm of `dispatch_in_context` in crates/dekopon-tui/src/run.rs, `dispatch`, and
-- `settle_turn`, what becomes of a joined task.
use dekopon_console.Base.{
  Bool, true, false, List, Option, none, some, Text, codes, same, find, ◌>>=◌, get_last?,
  if◌then◌else◌, is_none,
}
use dekopon_console.App.{Agent, App}
use dekopon_console.App.Errors.{report, raise, fail_shell}
use dekopon_console.App.Flow.{on_session_complete}
use dekopon_console.Assets.{Store}
use dekopon_console.Dispatch.{
  Host, World, Leg, Opening, opened, refused, Job, model_turn, is_shell, grants_nothing,
  session_refusal, empty_surface, refuse_turn,
}
use dekopon_console.Dispatch.Enter.{enter_agent}
use dekopon_console.Dispatch.Lines.{run_shell}
use dekopon_console.Keys
use dekopon_console.Keys.{Action}
use dekopon_console.Report.{Failure, ErrorReport, from_error, from_message}
use dekopon_console.Session.{AgentSession, reset, bind_broker}
use dekopon_console.View.{ShellEntry}

unfoldable pub catalog_agent : {Assets : Type 0} → Text → App Assets → Option Agent
catalog_agent name app = find (λ a. same a.name name) app.agents

-- `instructions`.
unfoldable pub instructions : {Assets : Type 0} → App Assets → Option Text
instructions app = do
  session ← app.session
  agent ← catalog_agent session.agent app
  agent.instructions

-- What joining a task gives: its history, its error, or the error of the join.
pub data Joined (H : Type 0) : Type 0 where
  returned : H → Joined H
  failed : Failure → Joined H
  died : Failure → Joined H

-- An entry without an exit code stands last.
unfoldable pub is_pending : List ShellEntry → Bool
is_pending entries = elim (get_last? entries) [ none ↦ false | some e ↦ is_none e.exit_code ]

module _ {H Blob Encoding : Type 0} (h : Host H Blob Encoding) where
  abbrev pub turn_operation : Text
  turn_operation = codes "open broker session for a model turn"

  unfoldable pub refused_turn : ErrorReport → World H Blob Encoding → World H Blob Encoding
  refused_turn r w = record w { app = refuse_turn r w.app }

  -- The task, on the catalog's agent of the session's name and the instructions.
  unfoldable pub spawned :
      Text → Leg → Option Text → Option Agent → World H Blob Encoding → World H Blob Encoding
  unfolding codes
  spawned prompt leg instructed none w = record w { panic = some (codes "session catalog agent") }
  spawned prompt leg instructed (some agent) w = record w {
    running = some (model_turn leg prompt instructed agent w.options w.history);
    history = h.new_history;
  }

  unfoldable pub start_turn :
      Text → AgentSession → Leg → Option Failure → World H Blob Encoding → World H Blob Encoding
  unfolding spawned
  start_turn prompt session leg (some f) w =
      refused_turn (report h.parse_agent w.app (from_error (codes "build model client") f)) w
  start_turn prompt session leg none w =
      spawned prompt leg (instructions w.app) (catalog_agent session.agent w.app)
        (record w { stop = bind_broker h.new_handle (reset w.stop) })

  unfoldable pub turn_opened :
      Text → AgentSession → Opening → World H Blob Encoding → World H Blob Encoding
  unfolding start_turn
  turn_opened prompt session (refused f) w =
      refused_turn (session_refusal h w.app turn_operation f) w
  turn_opened prompt session (opened leg) w =
      if grants_nothing leg
      then refused_turn (empty_surface h w.app turn_operation) w
      else start_turn prompt session leg (h.build_model w.options)
          (record w { app = record w.app { broker_trace = some leg.session_trace } })

  unfoldable pub turn_in :
      Text
      → Option AgentSession
      → Option (Store Blob Encoding)
      → World H Blob Encoding
      → World H Blob Encoding
  turn_in prompt none _ w = w
  turn_in prompt (some session) none w = w
  turn_in prompt (some session) (some assets) w =
      turn_opened prompt session (h.open_agent w.options.subject session.agent w.options.scope) w

  -- `Action::Turn`.
  unfoldable pub run_turn : Text → World H Blob Encoding → World H Blob Encoding
  unfolding turn_in turn_opened refused_turn
  run_turn prompt w = turn_in prompt w.app.session w.app.assets w

  -- `dispatch`.
  unfoldable pub dispatch : Action → World H Blob Encoding → World H Blob Encoding
  dispatch Keys.enter_agent w = enter_agent h w
  dispatch (Keys.run_turn prompt) w = run_turn prompt w
  dispatch (Keys.run_shell line) w = run_shell h line w

  -- The `match joined` of `settle_turn`, on whether the task was a shell line.
  unfoldable pub take_back : Bool → Joined H → World H Blob Encoding → World H Blob Encoding
  take_back shell (returned history) w = record w { history = history }
  take_back true (failed f) w = record w {
    app = fail_shell h.parse_agent (from_error (codes "run shell command") f) w.app;
  }
  take_back true (died f) w = record w {
    app =
        fail_shell h.parse_agent (from_error (codes "run shell command (the shell task died)") f)
          w.app;
  }
  take_back false (failed f) w = record w {
    app = raise (report h.parse_agent w.app (from_error (codes "run model turn") f)) w.app;
  }
  take_back false (died f) w = record w {
    app =
        raise
          (report h.parse_agent w.app
            (from_error (codes "run model turn (the session task died)") f))
          w.app;
  }

  -- The end of a line that reported nothing.
  unfoldable pub close_entry : App (Store Blob Encoding) → App (Store Blob Encoding)
  close_entry app =
      if is_pending app.shell_history
      then fail_shell h.parse_agent
          (from_message (codes "run shell command")
            (codes "shell ended without reporting an outcome"))
          app
      else app

  unfoldable pub settled_app : Bool → H → App (Store Blob Encoding) → App (Store Blob Encoding)
  unfolding close_entry is_pending
  settled_app true history app = record (close_entry app) { busy = false }
  settled_app false history app = on_session_complete (h.history_len history) app

  -- `settle_turn`.
  unfoldable pub settle_turn : Bool → Joined H → World H Blob Encoding → World H Blob Encoding
  unfolding take_back settled_app
  settle_turn shell joined w =
      let taken = take_back shell joined w in
      record taken { app = settled_app shell taken.history taken.app; stop = reset taken.stop }

  unfoldable pub finish_job :
      Option (Job H) → Joined H → World H Blob Encoding → World H Blob Encoding
  finish_job none joined w = w
  finish_job (some job) joined w = settle_turn (is_shell job) joined (record w { running = none })

  -- `finish_turn`.
  unfoldable pub finish_turn : Joined H → World H Blob Encoding → World H Blob Encoding
  unfolding finish_job
  finish_turn joined w = finish_job w.running joined w
