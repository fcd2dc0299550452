-- ===== src/App/Flow.antt =====
-- The methods of app.rs that a conversation goes through: `enter`, `submit_turn`, the session's
-- events, `request_stop`, and the shell's echo and result.
use dekopon_console.Base.{
  ℕ, Bool, true, false, [], ◌∷◌, ◌++◌, Option, none, some, Text, codes, trim, decimal, length,
  get_last?, if◌then◌else◌,
}
use dekopon_console.App.{App, say, update_pending}
use dekopon_console.Record.{SessionEvent, finished}
use dekopon_console.Session.{AgentSession, is_empty}
use dekopon_console.Transcript
use dekopon_console.Transcript.{open_turn, absorb, mark_replay_window, update_running}
use dekopon_console.Transcript.Exchange.{Turn, is_running}
use dekopon_console.View.{Pane, browsing, composing, ShellEntry, Notice, info, refusal}

-- `matches!(event, SessionEvent::Finished(_))`.
unfoldable pub is_finished : SessionEvent → Bool
is_finished (finished r) = true
is_finished _ = false

ended_notice : Option Turn → Option Notice → Option Notice
ended_notice none n = n
ended_notice (some t) n =
    if is_running t
    then some (
        refusal (codes "turn " ++ decimal t.ordinal ++ codes " ended without reporting an outcome"))
    else n

entered_notice : AgentSession → Text → Notice
entered_notice session subject =
    if is_empty session
    then refusal (
        codes "policy grants "
        ++ subject
        ++ codes " nothing through "
        ++ session.agent
        ++ codes "; the broker answered, it just said no")
    else info (
        session.agent
        ++ codes ": "
        ++ decimal (length session.effective)
        ++ codes " capabilities granted")

module _ {Assets : Type 0} where
  -- `App::enter`.
  unfoldable pub enter : AgentSession → App Assets → App Assets
  unfolding entered_notice
  enter session app = record app {
    broker_trace = some session.trace;
    notice = some (entered_notice session app.subject);
    session = some session;
    transcript = Transcript.new;
    shell_history = [];
    shell_top = none;
    composer = [];
    mode = composing;
    expanded_call = none;
    selected_call = 0;
    revealed = [];
    pane = Pane.shell;
  }

  -- What stands in the way of a turn, in the order of the checks.
  unfoldable pub turn_refusal : App Assets → Option Text
  turn_refusal app = elim app.session [
    | none ↦ some (codes "hop into an agent first")
    | some session ↦
        (if is_empty session
          then some (codes "broker grants no capabilities; no model request will be sent")
          else if app.busy
          then some (codes "a turn is already running; press Esc to stop it")
          else elim (trim app.composer) [ [] ↦ some (codes "nothing to send") | c ∷ cs ↦ none ])
  ]

  -- `App::submit_turn`: the prompt to run.
  unfoldable pub submit_turn : App Assets → Option Text × App Assets
  unfolding turn_refusal
  submit_turn app = elim (turn_refusal app) [
    | some why ↦ (none, say (refusal why) app)
    | none ↦
        let prompt = trim app.composer in
        (
          some prompt,
          record app {
            composer = [];
            mode = browsing;
            busy = true;
            transcript = (open_turn prompt app.transcript).0;
            notice = none;
          },
        )
  ]

  -- `App::on_session_event`.
  unfoldable pub on_session_event : SessionEvent → App Assets → App Assets
  unfolding is_finished
  on_session_event e app = record app {
    transcript = absorb e app.transcript;
    busy = if is_finished e then false else app.busy;
  }

  -- `App::on_session_complete`.
  unfoldable pub on_session_complete : ℕ → App Assets → App Assets
  unfolding ended_notice
  on_session_complete remembered app =
      let marked = mark_replay_window remembered app.transcript in
      record app {
        busy = false;
        transcript = marked;
        notice = ended_notice (get_last? marked.turns) app.notice;
      }

  -- `App::request_stop`: whether there was anything to stop.
  unfoldable pub request_stop : App Assets → Bool × App Assets
  request_stop app =
      if app.busy
      then (
        true,
        record app {
          transcript = update_running (λ t. record t { stop_requested = true }) app.transcript;
          notice = some (
              info (
                codes
                  "stopping at the next boundary; calls already sent to the broker still complete"));
        },
      )
      else (false, app)

  -- `App::start_shell`.
  unfoldable pub start_shell : Text → App Assets → App Assets
  start_shell line app = record app {
    shell_top = none;
    busy = true;
    notice = none;
    shell_history =
        app.shell_history
        ++ record { input = line; output = []; exit_code = none; truncated = false } ∷ [];
  }

  -- `App::finish_shell`.
  unfoldable pub finish_shell : ShellEntry → App Assets → App Assets
  finish_shell entry app = record app {
    shell_history = update_pending (λ e. entry) app.shell_history;
  }
