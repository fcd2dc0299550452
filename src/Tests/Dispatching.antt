-- ===== src/Tests/Dispatching.antt =====
-- The console, its keys and its dispatch at concrete inputs.
use dekopon_console.Base.{
  All, ℕ, ◌≡◌, refl, true, false, List, [], ◌∷◌, ◌++◌, none, some, Text, codes, length, is_some,
  ◌⊎◌, trim, is_whitespace,
}
use dekopon_console.App.{Agent, App, new, say, calls, cursor_call, call_at, reveal_next}
use dekopon_console.App.Flow.{submit_turn, start_shell}
use dekopon_console.App.Reveal.{IsUncovered, reveal_next-one}
use dekopon_console.App.Select.{cursor_call-call_at}
use dekopon_console.App.Turns.{IsSubmitted, IsUnready, submit_turn_cases}
use dekopon_console.Assets.{Store, ok, empty}
use dekopon_console.Dispatch.{Host, World, opened}
use dekopon_console.Dispatch.Enter.{enter_agent}
use dekopon_console.Dispatch.Entered.{IsHop, enter_agent_cases}
use dekopon_console.Dispatch.Joined.{IsClosed, IsOnlyLast, settle_turn-Ends}
use dekopon_console.Dispatch.Loop.{drive, Event, key, resize, other, told, Pass, run}
use dekopon_console.Dispatch.Loop
use dekopon_console.Dispatch.Loop.Closes.{Returns, drive-closed}
use dekopon_console.Dispatch.Loop.Ends.{Holds, of_output, run-Holds}
use dekopon_console.Dispatch.Turns.{returned, settle_turn}
use dekopon_console.Keys.{KeyCode, enter, KeyEvent, on_key, is_interrupt, on_composing_key}
use dekopon_console.Keys
use dekopon_console.Keys.Actions.{Allows, on_key-Allows}
use dekopon_console.Record.{CapabilityCall, shell_finished, succeeded}
use dekopon_console.Redact.Value.{string, object, end, field, Render}
use dekopon_console.Report.{ErrorReport, from_message}
use dekopon_console.Session.{AgentSession, ConsoleOptions, OperatorProfile, new_options, unset}
use dekopon_console.Transcript.Exchange.{opened as opened_turn}
use dekopon_console.View.{Pane, ShellEntry, RevealedField, composing, refusal}

abbrev pub mail : Agent
mail = record { name = codes "mail"; description = []; enabled = true; instructions = none }

abbrev pub desk : Agent
desk = record { name = codes "desk"; description = []; enabled = true; instructions = none }

abbrev pub Inventory : Type 0
Inventory = Store Text ℕ

abbrev pub fresh : App Inventory
fresh = new (mail ∷ desk ∷ []) (codes "ada") (codes "/run/broker") (codes "/auth")

abbrev pub session : AgentSession
session = record {
  agent = codes "mail";
  effective = codes "mail.read" ∷ [];
  command_words = [];
  trace = codes "t1";
}

-- In the shell of an open session, with a line typed.
abbrev pub typing : App Inventory
typing = record fresh {
  session = some session;
  assets = some empty;
  pane = Pane.shell;
  mode = composing;
  composer = codes "ls ";
}

abbrev press_enter : KeyEvent
press_enter = record {
  code = enter;
  modifiers = record { control = false; shift = false; more = false };
}

-- Every line takes one row.
abbrev rows : List Text → ℕ → ℕ
rows ls width = length ls

enter_runs : (on_key rows press_enter typing unset).0 ≡ some (Keys.run_shell (codes "ls"))
unfolding on_key new is_interrupt on_composing_key trim codes is_whitespace
enter_runs = refl

on_key-Allows_example : Allows typing (Keys.run_shell (codes "ls"))
on_key-Allows_example =
    on_key-Allows rows press_enter typing unset (Keys.run_shell (codes "ls")) enter_runs

submit_turn_cases_example :
    ((prompt : Text) × ((submit_turn typing).0 ≡ some prompt)
      × IsSubmitted typing prompt (submit_turn typing).1)
    ⊎ (IsUnready typing
        × ((submit_turn typing).0 ≡ none)
        × ((why : Text) × ((submit_turn typing).1 ≡ say (refusal why) typing)))
submit_turn_cases_example = submit_turn_cases typing

abbrev answered : ShellEntry
answered = record {
  input = codes "ls";
  output = codes "inbox";
  exit_code = some 0;
  truncated = false;
}

abbrev closed : ErrorReport
closed = from_message (codes "run shell command") (codes "closed")

-- A turn whose script made one call, with a password in its input.
abbrev login_call : CapabilityCall
login_call = record {
  sequence = 0;
  capability = codes "mail.login";
  input = object (field (codes "password") (string (codes "hunter2")) end);
  outcome = succeeded;
  elapsed = 3;
}

abbrev called : App Inventory
called = record typing {
  transcript = record {
    turns =
        record (opened_turn 1 (codes "hi")) {
          scripts =
              record {
                sequence = 0;
                script = codes "login";
                calls = login_call ∷ [];
                outcome = none;
              }
              ∷ [];
        }
        ∷ [];
  };
}

cursor_found : cursor_call called ≡ some (0, 0, 0)
unfolding cursor_call new calls
cursor_found = refl

cursor_call-call_at_example : is_some (call_at (0, 0, 0) called) ≡ true
cursor_call-call_at_example = cursor_call-call_at called (0, 0, 0) cursor_found

abbrev render_plainly : Render
render_plainly = record {
  marker = λ n. codes "<hidden>";
  print = λ v. [];
  index = λ n. n ∷ [];
  lowercase = λ c. c ∷ [];
}

reveal_next-one_example :
    ((reveal_next render_plainly called).revealed ≡ called.revealed)
    ⊎ ((f : RevealedField) × IsUncovered render_plainly called f
          (reveal_next render_plainly called))
reveal_next-one_example = reveal_next-one render_plainly called

abbrev pub profile : OperatorProfile
profile = record {
  name = codes "work";
  agent = codes "mail";
  subject = codes "ada@work";
  model = none;
  max_steps = none;
  max_capability_calls = none;
}

abbrev pub options : ConsoleOptions
options = record (new_options (codes "ada") (codes "m")) {
  profiles = profile ∷ [];
  fixed_profile = some (codes "work");
}

-- A broker that grants one capability to every subject; the history is a count of turns.
abbrev pub host : Host ℕ Text ℕ
host = record {
  parse_agent = some;
  scope_json = λ s. s.transport;
  unauthenticated = codes "unauthenticated";
  open_agent = λ subject agent scope. opened (record {
    effective = codes "mail.read" ∷ [];
    command_words = [];
    session_trace = codes "t2";
  });
  build_model = λ o. none;
  deliver = λ subject agent delivery text.
      ok (record { outcome = codes "Succeeded"; is_success = true; error = none });
  new_handle = 7;
  blob_len = length;
  intake = record {
    decode = λ s. ok s;
    from_bytes = λ b. ok b;
    identity = 0;
    describe = λ e. codes "full";
  };
  new_history = 0;
  history_len = λ n. n;
}

abbrev pub in_world : App Inventory → World ℕ Text ℕ
in_world app = record {
  app = app;
  options = options;
  running = none;
  history = 2;
  stop = unset;
  identity = record { boot_nonce = codes "n"; next = 1 };
  panic = none;
}

enter_agent_cases_example : IsHop host (in_world fresh) (enter_agent host (in_world fresh))
enter_agent_cases_example = enter_agent_cases host (in_world fresh)

abbrev echoed : World ℕ Text ℕ
echoed = in_world (start_shell (codes "ls") typing)

echoed_only : IsOnlyLast echoed.app.shell_history
unfolding start_shell new
echoed_only = tt

settle_turn-Ends_example :
    All IsClosed (settle_turn host true (returned 3) echoed).app.shell_history
    × ((settle_turn host true (returned 3) echoed).app.busy ≡ false)
    × ((settle_turn host true (returned 3) echoed).stop.requested ≡ false)
    × ((settle_turn host true (returned 3) echoed).stop.broker ≡ none)
settle_turn-Ends_example = settle_turn-Ends host (returned 3) echoed echoed_only

abbrev begun : World ℕ Text ℕ
begun = in_world fresh

abbrev met : Event ℕ Text ℕ → Pass ℕ Text ℕ
met event = record { size = some (80, 24); draw_failure = none; event = event }

-- Enter opens the agent, the terminal is resized, a line's output comes, and the input closes.
abbrev passes : List (Pass ℕ Text ℕ)
passes =
    met (key host rows press_enter)
    ∷ met (resize 80 24)
    ∷ met (told (shell_finished answered))
    ∷ met Loop.closed
    ∷ met other
    ∷ []

run-Holds_example : Holds (
    run none host passes
      (new (mail ∷ desk ∷ []) (codes "ada") (codes "/run/broker") (codes "/auth"))
      options
      (record { boot_nonce = codes "n"; next = 1 }))
run-Holds_example =
    run-Holds none host passes (mail ∷ desk ∷ []) (codes "ada") (codes "/run/broker")
      (codes "/auth") options (record { boot_nonce = codes "n"; next = 1 })
      (tt, (tt, (of_output answered, (tt, (tt, tt)))))

drive-closed_example :
    Returns (drive (met (key host rows press_enter) ∷ met Loop.closed ∷ met other ∷ []) begun)
drive-closed_example =
    drive-closed (met (key host rows press_enter) ∷ []) [] (met Loop.closed) (met other) begun refl

-- An escape sequence in a line's output, and the operator's own subject and credential.
abbrev hostile_output : ShellEntry
hostile_output = record {
  input = codes "cat";
  output = 27 ∷ codes "[2J" ++ 0x202e ∷ [];
  exit_code = some 0;
  truncated = true;
}

abbrev drawn : App Inventory
drawn = record typing { shell_history = hostile_output ∷ [] }
