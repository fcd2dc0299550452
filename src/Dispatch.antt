-- ===== src/Dispatch.antt =====
-- crates/dekopon-tui/src/run.rs below the key handling: what the console does for an action, and how
-- a joined turn settles. `World` is what `dispatch` is lent mutably; `Host` is what lies outside: the
-- broker's answers, the libraries' limits and texts.
pub mod Enter
pub mod Lines
pub mod Turns
pub mod Hops
pub mod Entered
pub mod Settled
pub mod Joined
pub mod Reach
pub mod Loop
use dekopon_console.Base.{
  ℕ, Bool, true, false, List, [], ◌∷◌, ◌++◌, Option, none, some, Text, codes, same, if◌then◌else◌,
}
use dekopon_console.App.{Agent, App}
use dekopon_console.App.Errors.{report, raise, or_default}
use dekopon_console.App.Flow.{on_session_event}
use dekopon_console.Assets.{Intake, Result, Store}
use dekopon_console.Record.{SessionEvent, finished, err}
use dekopon_console.Report.{
  Failure, ErrorReport, from_error, from_message, with_note, fact, display,
}
use dekopon_console.Session.{
  AgentSession, ChatScopeClaim, ConsoleOptions, SmokeIdentity, StopFlag, request,
}
use dekopon_console.Transcript
use dekopon_console.View.{browsing}

-- What the console reads of a `BrokerLeg`.
pub record Leg : Type 0 where
  pub effective : List Text
  pub command_words : List Text
  pub session_trace : Text

-- What opening a leg gives: `Result<BrokerLeg, SessionError>`.
pub data Opening : Type 0 where
  opened : Leg → Opening
  refused : Failure → Opening

-- The result of a delivered turn: the outcome's debug text, whether it is `Succeeded`, the error.
pub record Delivered : Type 0 where
  pub outcome : Text
  pub is_success : Bool
  pub error : Option Text

pub record Host (H Blob Encoding : Type 0) : Type 0 where
  -- `str::parse::<AgentId>` and `serde_json::to_string` of a scope.
  pub parse_agent : Text → Option Text
  pub scope_json : ChatScopeClaim → Text
  -- `ERROR_UNAUTHENTICATED`.
  pub unauthenticated : Text
  -- `open_agent_with_assets` on a subject, an agent and a scope.
  pub open_agent : Text → Text → Option ChatScopeClaim → Opening
  -- The failure of `build_model`, if it fails.
  pub build_model : ConsoleOptions → Option Failure
  -- `record_delivered_turn` on the subject, the agent, the delivery and its text.
  pub deliver : Text → Text → Text × ℕ → Text → Result Text Delivered
  -- The handle of the new `CancelSignal::pair`.
  pub new_handle : ℕ
  pub blob_len : Blob → ℕ
  pub intake : Intake Blob Encoding
  -- `History::new` on the options' limits, and `History::len`.
  pub new_history : H
  pub history_len : H → ℕ

-- The task spawned for a turn or for a line. The agent of a turn is that of the catalog.
pub data Job (H : Type 0) : Type 0 where
  model_turn : Leg → Text → Option Text → Agent → ConsoleOptions → H → Job H
  script : Leg → Text → H → Job H

-- `RunningTurn::shell`.
unfoldable pub is_shell : {H : Type 0} → Job H → Bool
is_shell (model_turn leg prompt instructions agent options history) = false
is_shell (script leg line history) = true

pub record World (H Blob Encoding : Type 0) : Type 0 where
  pub app : App (Store Blob Encoding)
  pub options : ConsoleOptions
  pub running : Option (Job H)
  pub history : H
  pub stop : StopFlag
  -- The process's `IDENTITY` of `smoke_record`.
  pub identity : SmokeIdentity
  -- The message of the panic that has ended the program, if one has; what the model says of the
  -- program after it does not happen.
  pub panic : Option Text

-- `effective_capabilities().is_empty()`.
unfoldable pub grants_nothing : Leg → Bool
grants_nothing leg = elim leg.effective [ [] ↦ true | c ∷ cs ↦ false ]

-- `AgentSession::new`.
unfoldable pub session_of : Text → Leg → AgentSession
session_of agent leg = record {
  agent = agent;
  effective = leg.effective;
  command_words = leg.command_words;
  trace = leg.session_trace;
}

unfoldable pub refusal_note : ErrorReport → Text
unfolding codes
refusal_note r =
    codes
      "brokerd keeps the refusal reason off the wire so a refused caller cannot probe the subject directory or agent grants. It logs it: a WARN with event=broker_capabilities_refused, subject="
    ++ or_default [] (fact (codes "subject") r)
    ++ codes ", agent="
    ++ or_default [] (fact (codes "agent") r)
    ++ codes
        ", a reason (attestation-denied, unmapped-subject, agent-denied or policy-error) and the determining policy_ids"

unfoldable pub surface_note : ErrorReport → Text
unfolding codes
surface_note r =
    codes
      "the broker accepted the attestation and permitted agent.prompt, but Cedar authorizes no provider capability for this subject's principal with context.agent == \""
    ++ or_default [] (fact (codes "agent") r)
    ++ codes "\" in scope "
    ++ or_default [] (fact (codes "scope") r)
    ++ codes
        ". Check the permit policies for that agent, including any context.transport or context.conversation condition"

module _ {H Blob Encoding : Type 0} (h : Host H Blob Encoding) where
  unfoldable pub is_unauthenticated : ErrorReport → Bool
  is_unauthenticated r = elim r.refusal [
    | none ↦ false
    | some (code, message) ↦ same code h.unauthenticated
  ]

  unfoldable pub session_refusal : App (Store Blob Encoding) → Text → Failure → ErrorReport
  unfolding is_unauthenticated
  session_refusal app operation f =
      let r = report h.parse_agent app (from_error operation f) in
      if is_unauthenticated r then with_note (refusal_note r) r else r

  unfoldable pub empty_surface : App (Store Blob Encoding) → Text → ErrorReport
  empty_surface app operation =
      let r = report h.parse_agent app (
        from_message operation (
          codes
            "broker grants no capabilities for this context; no model call or command will be sent")) in
      with_note (surface_note r) r

  unfoldable pub clear_agent_context : World H Blob Encoding → World H Blob Encoding
  clear_agent_context w = record w {
    app = record w.app {
      session = none;
      assets = none;
      broker_trace = none;
      transcript = Transcript.new;
      shell_history = [];
      shell_top = none;
      composer = [];
      mode = browsing;
    };
    history = h.new_history;
  }

module _ {H Blob Encoding : Type 0} where
  -- `stop_running`: the task is joined, which the model's `none` is.
  unfoldable pub stop_job : Option (Job H) → World H Blob Encoding → World H Blob Encoding
  stop_job none w = w
  stop_job (some job) w = record w { running = none; stop = request w.stop }

  unfoldable pub stop_running : World H Blob Encoding → World H Blob Encoding
  unfolding stop_job
  stop_running w = stop_job w.running w

-- `refuse_turn`.
unfoldable pub refuse_turn : {Assets : Type 0} → ErrorReport → App Assets → App Assets
refuse_turn r app = raise r (on_session_event (finished (err (display r))) app)
