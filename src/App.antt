-- ===== src/App.antt =====
-- crates/dekopon-tui/src/app.rs: the console's state and its methods. `Assets` is the inventory
-- behind the `Arc`; `parse_agent` stands for `str::parse::<AgentId>`.
pub mod Select
pub mod Reveal
pub mod Errors
pub mod Flow
pub mod Turns
pub mod Pages
use dekopon_console.Base.{
  ℕ, suc, ◌+◌, ◌-◌, Bool, true, false, ◌&&◌, ◌||◌, not, List, [], ◌∷◌, ◌++◌, Option, none, some,
  Text, codes, same, trim, decimal, length, get_elem?, get_last?, find, any, map, min, ltb, ◌==◌,
  if◌then◌else◌, is_some, is_none,
}
use dekopon_console.Record.{CapabilityCall, SessionEvent, finished}
use dekopon_console.Redact.Value.{Render, Value, Redaction, redact}
use dekopon_console.Report.{ErrorReport}
use dekopon_console.Session.{AgentSession, ModelSource, default}
use dekopon_console.Transcript
use dekopon_console.Transcript.{Transcript}
use dekopon_console.Transcript.Exchange.{Turn, ScriptNode}
use dekopon_console.View.{
  Pane, Mode, browsing, ShellEntry, Notice, info, refusal, Payload, input, CallTarget,
  RevealedField, describe, is_same_payload,
}

-- `Agent` of the protocol, with what the console reads.
pub record Agent : Type 0 where
  pub name : Text
  pub description : Text
  pub enabled : Bool
  pub instructions : Option Text

pub record App (Assets : Type 0) : Type 0 where
  pub agents : List Agent
  pub selected_agent : ℕ
  pub session : Option AgentSession
  pub transcript : Transcript
  pub shell_history : List ShellEntry
  pub shell_top : Option ℕ
  pub shell_viewport : ℕ × ℕ
  pub composer : Text
  pub pane : Pane
  pub mode : Mode
  pub notice : Option Notice
  pub busy : Bool
  pub should_quit : Bool
  pub expanded_call : Option CallTarget
  pub selected_call : ℕ
  pub revealed : List RevealedField
  pub credential_path : Text
  pub socket_path : Text
  pub subject : Text
  pub profile : Option Text
  pub scope_label : Text
  pub model : Text
  pub model_source : ModelSource
  pub broker_trace : Option Text
  pub assets : Option Assets
  pub last_error : Option ErrorReport
  pub error_scroll : ℕ

abbrev pub subject_only : Text
subject_only = codes "subject-only"

-- `isize`: a step forward by `n`, or back by `n + 1`.
pub data ℤ : Type 0 where
  pos : ℕ → ℤ
  negsuc : ℕ → ℤ

-- `(selected as isize + delta).clamp(0, last)`.
clamped : ℕ → ℕ → ℤ → ℕ
clamped last selected (pos n) = min (selected + n) last
clamped last selected (negsuc n) = min (selected - suc n) last

-- The indices of the calls of one script, of one turn, of all turns, in the order drawn.
call_targets : ℕ → ℕ → ℕ → List CapabilityCall → List CallTarget
call_targets turn script i [] = []
call_targets turn script i (c ∷ cs) = (turn, script, i) ∷ call_targets turn script (suc i) cs

script_targets : ℕ → ℕ → List ScriptNode → List CallTarget
script_targets turn i [] = []
script_targets turn i (s ∷ ss) = call_targets turn i 0 s.calls ++ script_targets turn (suc i) ss

turn_targets : ℕ → List Turn → List CallTarget
turn_targets i [] = []
turn_targets i (t ∷ ts) = script_targets i 0 t.scripts ++ turn_targets (suc i) ts

unfoldable pub same_target : CallTarget → CallTarget → Bool
same_target (a, b, c) (x, y, z) = a == x && b == y && c == z

toggled : Option CallTarget → CallTarget → Option CallTarget
toggled none target = some target
toggled (some open_call) target = if same_target open_call target then none else some target

-- `payloads` of record.rs, each with its redactions, as the candidates of `reveal_next`.
candidates : Render → CallTarget → CapabilityCall → List RevealedField
candidates r target c =
    map (λ d. record { call = target; payload = input; path = d.path })
      (redact r c.input).redactions

unfoldable pub is_field : RevealedField → RevealedField → Bool
is_field f g =
    same_target g.call f.call && is_same_payload g.payload f.payload && same g.path f.path

-- A write to the last entry, if it has no exit code yet.
unfoldable pub update_pending : (ShellEntry → ShellEntry) → List ShellEntry → List ShellEntry
update_pending f [] = []
update_pending f (e ∷ []) = if is_none e.exit_code then f e ∷ [] else e ∷ []
update_pending f (e ∷ d ∷ es) = e ∷ update_pending f (d ∷ es)

module _ {Assets : Type 0} where
  -- `App::new`.
  unfoldable pub new : List Agent → Text → Text → Text → App Assets
  new agents subject socket_path credential_path = record {
    agents = agents;
    selected_agent = 0;
    session = none;
    transcript = Transcript.new;
    shell_history = [];
    shell_top = none;
    shell_viewport = (0, 0);
    composer = [];
    pane = Pane.agents;
    mode = browsing;
    notice = none;
    busy = false;
    should_quit = false;
    expanded_call = none;
    selected_call = 0;
    revealed = [];
    credential_path = credential_path;
    socket_path = socket_path;
    subject = subject;
    profile = none;
    scope_label = subject_only;
    model = [];
    model_source = default;
    broker_trace = none;
    assets = none;
    last_error = none;
    error_scroll = 0;
  }

  abbrev pub say : Notice → App Assets → App Assets
  say n app = record app { notice = some n }

  unfoldable pub highlighted : App Assets → Option Agent
  highlighted app = get_elem? app.agents app.selected_agent

  unfoldable pub highlighted_id : (Text → Option Text) → App Assets → Option Text
  unfolding highlighted
  highlighted_id parse_agent app = elim (highlighted app) [
    | none ↦ none
    | some agent ↦ parse_agent agent.name
  ]

  unfoldable pub move_selection : ℤ → App Assets → App Assets
  unfolding clamped
  move_selection delta app = elim app.agents [
    | [] ↦ app
    | a ∷ rest ↦ record app { selected_agent = clamped (length rest) app.selected_agent delta }
  ]

  unfoldable pub calls : App Assets → List CallTarget
  unfolding turn_targets script_targets call_targets
  calls app = turn_targets 0 app.transcript.turns

  unfoldable pub cursor_call : App Assets → Option CallTarget
  cursor_call app = get_elem? (calls app) app.selected_call

  unfoldable pub call_at : CallTarget → App Assets → Option CapabilityCall
  call_at (turn, script, call) app = elim (get_elem? app.transcript.turns turn) [
    | none ↦ none
    | some t ↦ elim (get_elem? t.scripts script) [ none ↦ none | some s ↦ get_elem? s.calls call ]
  ]

  unfoldable pub toggle_call : CallTarget → App Assets → App Assets
  unfolding toggled
  toggle_call target app = record app { expanded_call = toggled app.expanded_call target }

  unfoldable pub toggle_cursor_call : App Assets → App Assets
  toggle_cursor_call app = elim (cursor_call app) [
    | none ↦ say (refusal (codes "no capability call to expand yet")) app
    | some target ↦ toggle_call target app
  ]

  unfoldable pub is_revealed : RevealedField → App Assets → Bool
  is_revealed f app = any (is_field f) app.revealed

  unfoldable pub reveal : RevealedField → App Assets → App Assets
  reveal f app = if is_revealed f app then app else record app {
    notice =
        some (info (codes "revealed " ++ describe f ++ codes "; it is in your scrollback now"));
    revealed = app.revealed ++ f ∷ [];
  }

  -- `reveal_next`: the first redacted field of the call under the cursor that is still hidden.
  unfoldable pub reveal_next : Render → App Assets → App Assets
  unfolding candidates
  reveal_next r app = elim (cursor_call app) [
    | none ↦ say (refusal (codes "no capability call is selected")) app
    | some target ↦ elim (call_at target app) [
      | none ↦ app
      | some c ↦ elim (find (λ f. not (is_revealed f app)) (candidates r target c)) [
        | none ↦ say (info (codes "nothing left to reveal in this call")) app
        | some f ↦ reveal f app
      ]
    ]
  ]
