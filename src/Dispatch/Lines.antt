-- ===== src/Dispatch/Lines.antt =====
-- The `Action::Shell` arm of `dispatch_in_context` in crates/dekopon-tui/src/run.rs, with
-- `smoke_record` of session.rs: the local lines, and the line that a script task runs.
use dekopon_console.Base.{
  ℕ, Bool, true, false, [], ◌∷◌, ◌++◌, Option, none, some, Text, codes, decimal, byte_len,
  strip_prefix, ◌>>=◌, starts_with, leb, ◌==◌, if◌then◌else◌,
}
use dekopon_console.App.{say}
use dekopon_console.App.Errors.{fail_shell, or_default}
use dekopon_console.App.Flow.{start_shell, finish_shell}
use dekopon_console.Assets.{Store, Result, ok, err, split_once, attach_base64}
use dekopon_console.Dispatch.{
  Host, World, Opening, opened, refused, script, grants_nothing, session_refusal, empty_surface,
  Delivered,
}
use dekopon_console.Report.{ErrorReport}
use dekopon_console.Session.{AgentSession, SmokeIdentity, smoke_turn, reset, bind_broker}
use dekopon_console.View.{refusal}

-- What a line asks for.
pub data Line : Type 0 where
  smoke : Text → Line
  unknown_smoke : Line
  asset : Text → Line
  unknown_asset : Line
  plain : Line

asset_line : Text → Option Text → Line
asset_line line (some command) = asset command
asset_line line none = if starts_with (codes ":asset") line then unknown_asset else plain

smoke_line : Text → Option Text → Line
unfolding asset_line
smoke_line line (some text) = smoke text
smoke_line line none =
    if starts_with (codes ":smoke") line
    then unknown_smoke
    else asset_line line (strip_prefix (codes ":asset ") line)

unfoldable pub read_line : Text → Line
unfolding smoke_line
read_line line = smoke_line line (strip_prefix (codes ":smoke record ") line)

-- `strip_suffix` on one character.
strip_suffix : ℕ → Text → Option Text
strip_suffix c [] = none
strip_suffix c (x ∷ []) = if x == c then some [] else none
strip_suffix c (x ∷ y ∷ s) = elim (strip_suffix c (y ∷ s)) [ none ↦ none | some t ↦ some (x ∷ t) ]

unfoldable pub unquoted : Text → Option Text
unfolding strip_suffix
unquoted text = do rest ← strip_prefix (codes "'") text; strip_suffix b'\'' rest

unfoldable pub output_of : Result Text (Text × Bool) → Text
output_of (ok (message, succeeded)) = message
output_of (err e) = codes "refused: " ++ e

unfoldable pub exit_of : Result Text (Text × Bool) → ℕ
exit_of (ok (message, true)) = 0
exit_of (ok (message, false)) = 1
exit_of (err e) = 1

unfoldable pub attached_output : Result Text ℕ → Text
attached_output (ok id) = codes "chat-asset:" ++ decimal id
attached_output (err e) = codes "refused: " ++ e

unfoldable pub attached_exit : Result Text ℕ → ℕ
attached_exit (ok id) = 0
attached_exit (err e) = 1

abbrev pub asset_label : Text
asset_label = codes ":asset attach-base64 [input redacted]"

abbrev pub asset_usage : Text
asset_usage = codes "use :asset attach-base64 --type <mime> <BASE64>"

module _ {H Blob Encoding : Type 0} where
  -- A line that is done at once: its echo, its result, and nothing running.
  unfoldable pub local_entry : Text → Text → ℕ → World H Blob Encoding → World H Blob Encoding
  local_entry input output exit_code w =
      let shown =
        finish_shell
          (record { input = input; output = output; exit_code = some exit_code; truncated = false })
          (start_shell input w.app) in
      record w { app = record shown { busy = false } }

module _ {H Blob Encoding : Type 0} (h : Host H Blob Encoding) where
  delivered : Result Text Delivered → Result Text (Text × Bool)
  delivered (err e) = err e
  delivered (ok d) = ok (d.outcome ++ codes ": " ++ or_default [] d.error, d.is_success)

  -- `smoke_record`.
  unfoldable pub smoke_record :
      Text → Text → Text → SmokeIdentity → Result Text (Text × Bool) × SmokeIdentity
  unfolding delivered
  smoke_record subject agent text identity =
      let (delivery, next) = smoke_turn identity in
      (delivered (h.deliver subject agent delivery text), next)

  unfoldable pub smoke_result :
      Text → Text → Text → SmokeIdentity → Result Text (Text × Bool) × SmokeIdentity
  smoke_result subject agent text identity =
      if leb (byte_len text) 65536
      then smoke_record subject agent text identity
      else (err (codes "smoke text exceeds 64 KiB"), identity)

  unfoldable pub record_smoke :
      Text → Text → Option Text → World H Blob Encoding → World H Blob Encoding
  record_smoke line agent none w = record w {
    app = say (refusal (codes "use :smoke record '<text>'")) w.app;
  }
  record_smoke line agent (some text) w =
      let (result, identity) = smoke_result w.options.subject agent text w.identity in
      local_entry line (output_of result) (exit_of result) (record w { identity = identity })

  attach_args : Option (Text × Text) → Store Blob Encoding → Result Text ℕ × Store Blob Encoding
  attach_args none s = (err asset_usage, s)
  attach_args (some (mime, encoded)) s = attach_base64 h.blob_len h.intake mime encoded s

  attach_line : Text → Store Blob Encoding → Result Text ℕ × Store Blob Encoding
  unfolding attach_args
  attach_line command s =
      attach_args
        (do args ← strip_prefix (codes "attach-base64 --type ") command; split_once b' ' args) s

  unfoldable pub attach_asset :
      Text → Option (Store Blob Encoding) → World H Blob Encoding → World H Blob Encoding
  unfolding attach_line
  attach_asset command none w = w
  attach_asset command (some s) w =
      let (result, after) = attach_line command s in
      local_entry asset_label (attached_output result) (attached_exit result)
        (record w { app = record w.app { assets = some after } })

  -- A failed line: its report in the pending entry, and nothing running.
  unfoldable pub failed_line : ErrorReport → World H Blob Encoding → World H Blob Encoding
  failed_line r w = record w { app = record (fail_shell h.parse_agent r w.app) { busy = false } }

  abbrev pub shell_operation : Text
  shell_operation = codes "open broker session for a shell command"

  unfoldable pub run_opened : Text → Opening → World H Blob Encoding → World H Blob Encoding
  run_opened line (refused f) w = failed_line (session_refusal h w.app shell_operation f) w
  run_opened line (opened leg) w =
      if grants_nothing leg
      then failed_line (empty_surface h w.app shell_operation) w
      else record w {
        app = record w.app { broker_trace = some leg.session_trace };
        stop = bind_broker h.new_handle (reset w.stop);
        running = some (script leg line w.history);
        history = h.new_history;
      }

  unfoldable pub run_started :
      Text → Text → Option (Store Blob Encoding) → World H Blob Encoding → World H Blob Encoding
  run_started line agent none w = w
  run_started line agent (some assets) w =
      run_opened line (h.open_agent w.options.subject agent w.options.scope) w

  -- What a line does in an open, idle session.
  unfoldable pub run_line : Text → Text → Line → World H Blob Encoding → World H Blob Encoding
  unfolding record_smoke unquoted attach_asset run_started run_opened
  run_line line agent (smoke text) w =
      if w.options.smoke_conversation then record_smoke line agent (unquoted text) w else record w {
        app =
            say (refusal (codes "restart with --smoke-conversation to record a synthetic turn"))
              w.app;
      }
  run_line line agent unknown_smoke w = record w {
    app = say (refusal (codes "unknown local smoke command; use :smoke record '<text>'")) w.app;
  }
  run_line line agent (asset command) w = attach_asset command w.app.assets w
  run_line line agent unknown_asset w = record w {
    app =
        say
          (refusal
            (codes "unknown local asset command; use :asset attach-base64 --type <mime> <BASE64>"))
          w.app;
  }
  run_line line agent plain w =
      let started = record w { app = start_shell line w.app } in
      run_started line agent started.app.assets started

  unfoldable pub shell_in :
      Text → Option AgentSession → World H Blob Encoding → World H Blob Encoding
  unfolding run_line read_line
  shell_in line none w = record w { app = say (refusal (codes "hop into an agent first")) w.app }
  shell_in line (some session) w =
      if w.app.busy
      then record w {
        app =
            say (refusal (codes "another command or turn is running; press Esc to stop it")) w.app;
      }
      else run_line line session.agent (read_line line) w

  -- `Action::Shell`.
  unfoldable pub run_shell : Text → World H Blob Encoding → World H Blob Encoding
  unfolding shell_in
  run_shell line w = shell_in line w.app.session w
