-- ===== src/Lib.antt =====
-- The dekopon console: a terminal program in which an operator enters an agent of a catalog, runs
-- shell lines through a broker and reads what the agent did. It has two crates, of which
-- crates/dekopon-tui holds the logic; paths below are from crates/dekopon-tui/src unless they start
-- with crates/.
--
-- The parts and their files:
--   Redact    redact.rs. Redact/Value.antt is `redact` and `walk` on JSON values, Redact/Runs.antt
--             `redact_text`, Redact/Sanitize.antt `sanitize` and `sanitize_line`.
--   Record    record.rs: the events that a session reports to the console. Record/Recorder.antt is the
--             recording decorators, Record/Seam.antt the trait that they implement, with `LegHandle` and
--             `NoDirect` of session.rs.
--   Transcript  transcript.rs: what the operator sees of the exchanges. Transcript/Exchange.antt is one
--             turn, `Turn::absorb` included.
--   Assets    session/assets.rs: the inventory of one agent entry, `ConsoleAssets`.
--   Report    report.rs: `chain`, `ErrorReport`.
--   Session   session.rs and profile.rs: options, the choice of model and credential, `StopFlag`,
--             `SmokeIdentity::turn`. Session/Turn.antt is `run_turn`, the task of one turn.
--   View, App app.rs: the record `App` and its methods. App/Errors.antt holds the error methods,
--             App/Flow.antt those of a conversation, App/Pages.antt the paging of ui/shell.rs and the
--             scroll bound of ui/chrome.rs.
--   Drawn     ui.rs, ui/shell.rs and ui/chrome.rs: the texts of a frame that shows the shell pane.
--   Keys      run.rs: `on_key` and `on_composing_key`, which change the `App` and the `StopFlag` and may
--             return an `Action`.
--   Dispatch  run.rs: `dispatch` takes the action. Dispatch/Enter.antt is the hop into an agent,
--             Dispatch/Lines.antt the shell line, Dispatch/Turns.antt the model turn and `settle_turn`,
--             Dispatch/Loop.antt `run` and the event loop, Dispatch/Reach.antt the loop as a step relation.
--   Structured  structured.rs, the non-interactive mode: `write_result`; Structured/Reader.antt is
--             `read_line`, on Structured/Utf8.antt; Structured/Serve.antt is `run_with_limits`, which
--             reads commands, dispatches them and writes one frame for each.
--   Startup   crates/dekopon-console/src/main.rs: `read_profiles`, and in Startup/Selection.antt and
--             Startup/Launch.antt `execute` up to the call of `run` or of `structured::run`, which
--             Structured takes up.
--   Telemetry  crates/dekopon-console/src/telemetry.rs, and `run_console` of main.rs around `execute`.
--   Base      helpers that the parts share; Tests applies the theorems at concrete inputs.
--
-- How the code is modelled: a method with `&mut self` is a function from the record to the record, with
-- its result beside it. A text is the list of its code points. Words keep their caps (saturating sums
-- are written with their largest value). What the libraries and the broker answer is an argument: the
-- record `Host` of Dispatch.antt holds the broker's answers, `Render` of Redact/Value.antt the JSON
-- library's printing, `Intake` of Assets.antt the decoder and the blob store, `Play` of
-- Session/Turn.antt the prompt loop and the interpreter, `Machine` of Startup/Launch.antt files, catalog
-- and connection, `Backend` of Telemetry.antt the exporters. In the structured mode a `Moment` says for
-- each command how its task ends, whether a deadline passes and whether and where the writer fails.
-- A panic is a field of the `World` of Dispatch.antt. Paths are compared by their components.
--
-- Fuel: the loop of `redact_text` is on fuel, the length of the text and one more; every round takes at
-- least one character off, and the equivalence below says that it never runs out. The structured loop
-- recurses on the 64 commands that are left, the reader on the pieces that are still to come. All else
-- is structural recursion.
--
-- Not modelled: styles, layout, the agents and detail panes and log lines, which change no state; the
-- terminal guard of run.rs; `connect`, `build_model` and
-- `open_agent_with_assets` of session.rs, which call libraries; the parser of the command line and `idle`
-- of main.rs; locks and tasks, which are sequenced as the calls that they make. Progress that a leg sends
-- on its own during a call, which the transcript does not read, is left out of a turn's events. The order
-- of a map's keys is that of the model's list.
pub mod Base
pub mod Tests
pub mod Redact
pub mod View
pub mod Record
pub mod Transcript
pub mod Assets
pub mod Report
pub mod Session
pub mod App
pub mod Keys
pub mod Drawn
pub mod Dispatch
pub mod Structured
pub mod Startup
pub mod Telemetry
