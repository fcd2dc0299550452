-- ===== src/App/Errors.antt =====
-- `report`, `record_error`, `raise`, `show_error` and `fail_shell` of app.rs; the log line that
-- `record_error` writes is left out.
use dekopon_console.Base.{[], Option, none, some, Text, codes}
use dekopon_console.App.{App, subject_only, highlighted_id, say, update_pending}
use dekopon_console.Report.{ErrorReport, add_fact, summary, display}
use dekopon_console.View.{ShellEntry, info, refusal, error}

unfoldable pub add_trace : Option Text → ErrorReport → ErrorReport
add_trace none r = r
add_trace (some trace) r = add_fact (codes "broker trace") trace r

unfoldable pub or_default : Text → Option Text → Text
or_default d none = d
or_default d (some t) = t

module _ {Assets : Type 0} (parse_agent : Text → Option Text) where
  -- The open session's agent, or else the highlighted one.
  unfoldable pub agent_label : App Assets → Text
  unfolding or_default
  agent_label app = elim app.session [
    | none ↦ or_default [] (highlighted_id parse_agent app)
    | some session ↦ session.agent
  ]

  -- `App::report`.
  unfoldable pub report : App Assets → ErrorReport → ErrorReport
  unfolding add_trace or_default
  report app r = add_trace app.broker_trace (
      add_fact (codes "broker socket") app.socket_path (
        add_fact (codes "scope") app.scope_label (
          add_fact (codes "profile") (or_default subject_only app.profile) (
            add_fact (codes "agent") (agent_label app)
              (add_fact (codes "subject") app.subject r)))))

module _ {Assets : Type 0} where
  unfoldable pub record_error : ErrorReport → App Assets → App Assets
  record_error r app = record app { notice = some (refusal (summary r)); last_error = some r }

  unfoldable pub show_error : App Assets → App Assets
  show_error app = elim app.last_error [
    | none ↦ say (info (codes "no error to show")) app
    | some r ↦ record app { mode = error; error_scroll = 0 }
  ]

  unfoldable pub raise : ErrorReport → App Assets → App Assets
  raise r app = show_error (record_error r app)

unfoldable pub fail_entry : ErrorReport → ShellEntry → ShellEntry
fail_entry r e = record e { output = display r; exit_code = some 1 }

module _ {Assets : Type 0} (parse_agent : Text → Option Text) where
  -- `App::fail_shell`.
  unfoldable pub fail_shell : ErrorReport → App Assets → App Assets
  unfolding fail_entry
  fail_shell r app =
      let full = report parse_agent app r in
      record_error full
        (record app { shell_history = update_pending (fail_entry full) app.shell_history })
