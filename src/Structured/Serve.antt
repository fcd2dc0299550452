-- ===== src/Structured/Serve.antt =====
-- `run_with_limits` of crates/dekopon-tui/src/structured.rs, with `complete` and `cancel_turn`. What
-- the clock, the tasks and the writer do is a `Moment` for each command. What a command that runs out
-- of its time has changed of the application, which is dropped then, is left out.
pub mod Framed
pub mod Idle
pub mod Replies
pub mod Sessions
pub mod Scripts
use dekopon_console.Base.{
  ℕ, zero, suc, Bool, true, false, List, [], ◌∷◌, ◌++◌, Option, none, some, Text, codes, length,
  get_elem?, if◌then◌else◌, take, is_some, not, ◌&&◌,
}
use dekopon_console.App.{App}
use dekopon_console.App.Flow.{finish_shell}
use dekopon_console.Assets.{Result, ok, err, Store}
use dekopon_console.Dispatch.{Host, World, Job, is_shell}
use dekopon_console.Dispatch.Turns.{Joined, dispatch, settle_turn}
use dekopon_console.Keys
use dekopon_console.Record.{SessionEvent, shell_finished}
use dekopon_console.Session.{
  ConsoleOptions, SmokeIdentity, AgentSession, StopFlag, request, reset, unset,
}
use dekopon_console.Structured.{write_result, printed}
use dekopon_console.Structured.Reader.{ReadError, Input, read_line}
use dekopon_console.Structured.Utf8.{as_bytes}
use dekopon_console.View.{ShellEntry, Notice}

abbrev pub max_commands : ℕ
max_commands = 64

-- The errors of the terminal: `nonce`, the reader's and the writer's.
pub data Terminal : Type 0 where
  no_nonce : Text → Terminal
  unread : ReadError → Terminal
  unwritten : Text → Terminal

-- `ConsoleExit`, as far as it is returned here.
pub data ConsoleExit : Type 0 where
  terminal : Terminal → ConsoleExit
  structured : Text → ConsoleExit

-- How a writer fails: the bytes that it has taken by then of what it is given, and the error.
abbrev pub WriteFailure : Type 0
WriteFailure = ℕ × Text

-- What becomes of a command: its turn's events and how it is joined, or where its time runs out; a
-- turn that is asked to stop then ends within the grace, or its task is aborted.
pub data Course (H : Type 0) : Type 0 where
  completes : List SessionEvent → Joined H → Course H
  cut_in_dispatch : Course H
  cut_in_turn : (ends_in_grace : Bool) → List SessionEvent → Course H

pub record Moment (H Blob Encoding : Type 0) : Type 0 where
  pub host : Host H Blob Encoding
  -- The session's deadline passes before a line is read.
  pub is_late : Bool
  pub course : Course H
  -- The writer's failure on the result.
  pub write_failure : Option WriteFailure

pub record Surroundings (H Blob Encoding : Type 0) : Type 0 where
  pub nonce : Result Text Text
  pub entry_host : Host H Blob Encoding
  pub entry_is_late : Bool
  pub ready_failure : Option WriteFailure
  pub moment : ℕ → Moment H Blob Encoding

module _ (W : Type 0) where
  -- The lines written, the bytes written of a frame that the writer fails on, the console that is
  -- dropped, whether blocking work of an aborted task may still go on, and the error, if there is one.
  pub record Served : Type 0 where
    pub out : List Text
    pub cut : List ℕ
    pub abandons : Bool
    pub world : W
    pub exit : Option ConsoleExit

  -- What came of a command in its time, or when that ran out, with whether its task was aborted.
  pub data Finished : Type 0 where
    in_time : W → Finished
    timed_out : (aborted : Bool) → W → Finished

  abbrev pub Rest : Type 0
  Rest = W → List Text → Served

abbrev pub stopped : {W : Type 0} → List Text → W → ConsoleExit → Served W
stopped out w e = record { out = out; cut = []; abandons = false; world = w; exit = some e }

-- The lines of a frame go out with `writeln!` and `flush`, or the writer fails, with a part of their
-- bytes, or all before the flush, written.
unfoldable pub put :
    {W : Type 0}
    → Option WriteFailure
    → List Text
    → W
    → List Text
    → (List Text → Served W)
    → Served W
put (some (n, e)) frame w out k = record (stopped out w (terminal (unwritten e))) {
  cut = take n (as_bytes (printed frame));
}
put none frame w out k = k (out ++ frame)

abbrev pub session_late : ConsoleExit
session_late = structured (codes "session deadline exceeded")

unfoldable pub status_of : Option ShellEntry → Text
unfolding codes
status_of none = codes "error"
status_of (some e) = elim e.exit_code [ some zero ↦ codes "ok" | _ ↦ codes "error" ]

unfoldable pub message_of : Option ShellEntry → Option Notice → Text
unfolding codes
message_of (some e) notice = e.output
message_of none (some n) = n.text
message_of none none = codes "command refused"

-- The loop of `complete` over the turn's events.
unfoldable pub drain : {Assets : Type 0} → List SessionEvent → App Assets → App Assets
drain [] app = app
drain (shell_finished entry ∷ events) app = drain events (finish_shell entry app)
drain (_ ∷ events) app = drain events app

module _ {H Blob Encoding : Type 0} where
  -- `cancel_turn` on the console's variables: the turn is asked to stop, and forgotten when its handle
  -- is joined. Aborting the task does not stop its blocking work, which `Finished` records.
  unfoldable pub cancel : Option (Job H) → World H Blob Encoding → World H Blob Encoding
  cancel none w = w
  cancel (some job) w = record w { running = none; stop = reset (request w.stop) }

  unfoldable pub cancel_turn : World H Blob Encoding → World H Blob Encoding
  unfolding cancel
  cancel_turn w = cancel w.running w

  -- `complete`, the task's join, and `settle_turn`, when there is a turn.
  unfoldable pub completed :
      Host H Blob Encoding
      → List SessionEvent
      → Joined H
      → Option (Job H)
      → World H Blob Encoding
      → World H Blob Encoding
  completed h events joined none w = w
  completed h events joined (some job) w =
      settle_turn h (is_shell job) joined (record w { app = drain events w.app; running = none })

  unfoldable pub follow :
      Host H Blob Encoding
      → Course H
      → World H Blob Encoding
      → World H Blob Encoding
      → Finished (World H Blob Encoding)
  unfolding completed cancel_turn
  follow h (completes events joined) before w = in_time (completed h events joined w.running w)
  follow h cut_in_dispatch before w = timed_out false (cancel_turn before)
  follow h (cut_in_turn ends_in_grace events) before w =
      timed_out (is_some w.running && not ends_in_grace)
        (cancel_turn (record w { app = drain events w.app }))

  module _ (nonce : Text) where
    -- The end of a pass of the loop, on the number of entries before the command.
    unfoldable pub reply :
        Moment H Blob Encoding
        → ℕ
        → List Text
        → Rest (World H Blob Encoding)
        → Finished (World H Blob Encoding)
        → Served (World H Blob Encoding)
    unfolding put status_of message_of
    reply m before out k (in_time w) =
        let entry = get_elem? w.app.shell_history before in
        put m.write_failure (write_result nonce (status_of entry) (message_of entry w.app.notice)) w
          out (k w)
    reply m before out k (timed_out aborted w) =
        record (put m.write_failure
          (write_result nonce (codes "timeout")
            (codes "outcome unknown: the command timed out and may have run"))
          w out
          (λ out'. stopped out' w (
            structured (
              codes "command deadline exceeded; outcome uncertain; remaining commands refused")))) {
                abandons = aborted;
              }

    -- A command.
    unfoldable pub command :
        Moment H Blob Encoding
        → Text
        → World H Blob Encoding
        → List Text
        → Rest (World H Blob Encoding)
        → Served (World H Blob Encoding)
    unfolding reply follow
    command m line w out k =
        let before = length w.app.shell_history in
        let ready = record w { app = record w.app { notice = none } } in
        reply m before out k
          (follow m.host m.course ready (dispatch m.host (Keys.run_shell line) ready))

    -- What a read gives: an error, the end, or a command.
    unfoldable pub on_read :
        Moment H Blob Encoding
        → World H Blob Encoding
        → List Text
        → Rest (World H Blob Encoding)
        → Result ReadError (Option Text)
        → Served (World H Blob Encoding)
    unfolding command
    on_read m w out k (err e) = stopped out w (terminal (unread e))
    on_read m w out k (ok none) = record {
      out = out;
      cut = [];
      abandons = false;
      world = w;
      exit = none;
    }
    on_read m w out k (ok (some line)) = command m line w out k

    -- The read after the last command.
    unfoldable pub on_last_read :
        Moment H Blob Encoding
        → World H Blob Encoding
        → List Text
        → Result ReadError (Option Text)
        → Served (World H Blob Encoding)
    unfolding put
    on_last_read m w out (err e) = stopped out w (terminal (unread e))
    on_last_read m w out (ok none) = record {
      out = out;
      cut = [];
      abandons = false;
      world = w;
      exit = none;
    }
    on_last_read m w out (ok (some line)) =
        put m.write_failure
          (write_result nonce (codes "error") (codes "command limit exceeded; command not run")) w
          out (λ out'. stopped out' w (structured (codes "session command limit exceeded")))

    -- The loop, with the commands left and the number of the next, and the read after it.
    unfoldable pub serve :
        (ℕ → Moment H Blob Encoding)
        → ℕ
        → ℕ
        → Input
        → World H Blob Encoding
        → List Text
        → Served (World H Blob Encoding)
    unfolding on_read on_last_read
    serve moment zero i input w out =
        if (moment i).is_late
        then stopped out w session_late
        else on_last_read (moment i) w out (read_line input).0
    serve moment (suc left) i input w out =
        let (result, rest) = read_line input in
        let more : Rest (World H Blob Encoding) = serve moment left (suc i) rest in
        if (moment i).is_late
        then stopped out w session_late
        else on_read (moment i) w out more result

  unfoldable pub initial :
      Host H Blob Encoding
      → App (Store Blob Encoding)
      → ConsoleOptions
      → SmokeIdentity
      → World H Blob Encoding
  initial h app options identity = record {
    app = app;
    options = options;
    running = none;
    history = h.new_history;
    stop = unset;
    identity = identity;
    panic = none;
  }

  -- After the entry.
  unfoldable pub entered :
      Surroundings H Blob Encoding
      → Text
      → Input
      → Option AgentSession
      → World H Blob Encoding
      → Served (World H Blob Encoding)
  unfolding put serve
  entered env nonce input none w = stopped [] w (structured (codes "agent entry refused"))
  entered env nonce input (some session) w =
      put env.ready_failure ((codes "READY " ++ nonce) ∷ []) w []
        (serve nonce env.moment max_commands 0 input w)

  unfoldable pub begun :
      Surroundings H Blob Encoding
      → Input
      → World H Blob Encoding
      → Result Text Text
      → Served (World H Blob Encoding)
  unfolding entered
  begun env input w (err e) = stopped [] w (terminal (no_nonce e))
  begun env input w (ok nonce) =
      let after = dispatch env.entry_host Keys.enter_agent w in
      if env.entry_is_late
      then stopped [] w (structured (codes "agent entry deadline exceeded"))
      else entered env nonce input after.app.session after

  -- `run_with_limits`.
  unfoldable pub run_with_limits :
      Surroundings H Blob Encoding
      → App (Store Blob Encoding)
      → ConsoleOptions
      → SmokeIdentity
      → Input
      → Served (World H Blob Encoding)
  unfolding begun initial
  run_with_limits env app options identity input =
      begun env input (initial env.entry_host app options identity) env.nonce
