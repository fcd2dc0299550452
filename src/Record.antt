-- ===== src/Record.antt =====
-- crates/dekopon-tui/src/record.rs: what the console learns while a session runs. Times are numbers
-- that the clock gives; `PromptOutcome` and `ModelUsage` carry the fields that the console reads.
pub mod Seam
pub mod Recorder
pub mod Transparent
use dekopon_console.Base.{ℕ, Bool, Option, Text, codes}
use dekopon_console.Redact.Value.{Value}
use dekopon_console.View.{ShellEntry}

pub data CallOutcome : Type 0 where
  succeeded : CallOutcome
  succeeded_with_stderr : Text → CallOutcome
  exited : ℕ → Text → CallOutcome
  denied failed : Text → CallOutcome
  not_found : CallOutcome

-- `CallOutcome::label`.
unfoldable pub label : CallOutcome → Text
unfolding codes
label succeeded = codes "succeeded"
label (succeeded_with_stderr e) = codes "succeeded"
label (exited status e) = codes "exited"
label (denied reason) = codes "denied"
label (failed e) = codes "failed"
label not_found = codes "not-found"

-- `CapabilityCallResult` of the library. `Detail` is what a failure carries beside its text.
pub data CallResult (Detail : Type 0) : Type 0 where
  succeeded : CallResult Detail
  succeeded_with_stderr : Text → CallResult Detail
  exited : ℕ → Text → CallResult Detail
  denied : Text → CallResult Detail
  failed : Text → Detail → CallResult Detail
  not_found : CallResult Detail

-- `impl From<&CapabilityCallResult> for CallOutcome`.
unfoldable pub of_result : {Detail : Type 0} → CallResult Detail → CallOutcome
of_result CallResult.succeeded = CallOutcome.succeeded
of_result (CallResult.succeeded_with_stderr e) = CallOutcome.succeeded_with_stderr e
of_result (CallResult.exited status e) = CallOutcome.exited status e
of_result (CallResult.denied reason) = CallOutcome.denied reason
of_result (CallResult.failed e detail) = CallOutcome.failed e
of_result CallResult.not_found = CallOutcome.not_found

pub record CapabilityCall : Type 0 where
  pub sequence : ℕ
  pub capability : Text
  pub input : Value
  pub outcome : CallOutcome
  pub elapsed : ℕ

pub record ScriptRun : Type 0 where
  pub sequence : ℕ
  pub script : Text
  pub output : Text
  pub exit_code : ℕ
  pub truncated : Bool
  pub capability_calls : ℕ
  pub steps : ℕ
  pub elapsed : ℕ

pub record ModelUsage : Type 0 where
  pub input_tokens : Option ℕ
  pub output_tokens : Option ℕ

pub data ReplyDisposition : Type 0 where
  send suppress : ReplyDisposition

pub record PromptOutcome : Type 0 where
  pub answer : Text
  pub disposition : ReplyDisposition

pub data SessionResult : Type 0 where
  ok : PromptOutcome → SessionResult
  err : Text → SessionResult

pub data SessionEvent : Type 0 where
  script_started : ℕ → Text → SessionEvent
  capability : CapabilityCall → SessionEvent
  script_finished : ScriptRun → SessionEvent
  model_usage : Option ModelUsage → SessionEvent
  progress : Text → SessionEvent
  shell_finished : ShellEntry → SessionEvent
  finished : SessionResult → SessionEvent
