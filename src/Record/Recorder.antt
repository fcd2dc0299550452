-- ===== src/Record/Recorder.antt =====
-- The decorators of crates/dekopon-tui/src/record.rs: what is sent to the console, and when. The
-- channel and the counter are shared by all of them; the receiver may be closed at any time.
use dekopon_console.Base.{
  ℕ, ◌+◌, ◌%◌, Bool, List, [], ◌∷◌, ◌++◌, Option, none, some, Text, codes, decimal, if◌then◌else◌,
}
use dekopon_console.Record.{
  CallResult, of_result, ScriptRun, ModelUsage, SessionEvent, capability, script_started,
  script_finished, model_usage, progress,
}
use dekopon_console.Record.Seam.{Lib, Proposal, Invoker}

-- The events sent, in order, and whether the receiver still listens.
pub record Channel : Type 0 where
  pub sent : List SessionEvent
  pub is_open : Bool

-- `emit`.
unfoldable pub emit : SessionEvent → Channel → Channel
emit e ch = if ch.is_open then record ch { sent = ch.sent ++ e ∷ [] } else ch

pub record Recorder : Type 0 where
  pub channel : Channel
  pub sequence : ℕ

abbrev pub sequence_end : ℕ
sequence_end = 18446744073709551616

-- `Sequence::next`; `fetch_add` wraps.
unfoldable pub take_sequence : Recorder → ℕ × Recorder
take_sequence r = (r.sequence, record r { sequence = (r.sequence + 1) % sequence_end })

abbrev pub report : SessionEvent → Recorder → Recorder
report e r = record r { channel = emit e r.channel }

module _ (L : Lib) {S : Type 0} where
  -- `RecordingInvoker::invoke`; `elapsed` is the clock, between two states.
  unfoldable pub record_invoke :
      (S → S → ℕ)
      → Invoker L S
      → Proposal L
      → L.Streams
      → S × Recorder
      → CallResult L.Detail × (S × Recorder)
  record_invoke elapsed inner p streams (s, r) =
      let (sequence, ready) = take_sequence r in
      let (result, after) = inner.invoke p streams s in
      (
        result,
        (
          after,
          report
              (capability (record {
                sequence = sequence;
                capability = p.capability;
                input = p.input;
                outcome = of_result result;
                elapsed = elapsed s after;
              }))
              ready,
        ),
      )

  -- `impl CapabilityInvoker for RecordingInvoker`.
  unfoldable pub recording : (S → S → ℕ) → Invoker L S → Invoker L (S × Recorder)
  recording elapsed inner = record {
    cancelled = λ w. inner.cancelled w.0;
    script_started = λ timeout w. (inner.script_started timeout w.0, w.1);
    job_control = λ w. inner.job_control w.0;
    granted = λ w. inner.granted w.0;
    is_granted = λ c w. inner.is_granted c w.0;
    command_words = λ w. inner.command_words w.0;
    command_word_help = λ w. inner.command_word_help w.0;
    has_command_word = λ word w. inner.has_command_word word w.0;
    note = λ text eta w. (inner.note text eta w.0, w.1);
    describe = λ c w. inner.describe c w.0;
    run_command = λ word argv stdin w.
        (let (r, s') = inner.run_command word argv stdin w.0 in (r, (s', w.1)));
    script_finished = λ w. (inner.script_finished w.0, w.1);
    invoke = record_invoke elapsed inner;
  }

-- `ScriptOutcome`.
pub record ScriptOutcome : Type 0 where
  pub output : Text
  pub exit_code : ℕ
  pub truncated : Bool
  pub capability_calls : ℕ
  pub steps : ℕ

-- The library's trait `ScriptRuntime`.
pub record Runtime (W : Type 0) : Type 0 where
  pub capability_calls_used : W → ℕ
  pub run_script : Text → W → ScriptOutcome × W
  pub command_words : W → List Text
  pub command_word_help : W → List (Text × Text)

unfoldable pub run_of : ℕ → Text → ScriptOutcome → ℕ → ScriptRun
run_of sequence script o elapsed = record {
  sequence = sequence;
  script = script;
  output = o.output;
  exit_code = o.exit_code;
  truncated = o.truncated;
  capability_calls = o.capability_calls;
  steps = o.steps;
  elapsed = elapsed;
}

module _ {S : Type 0} where
  -- `RecordingRuntime::run_script`. The runtime inside reports its calls to the same recorder.
  unfoldable pub record_script :
      (S → S → ℕ) → Runtime (S × Recorder) → Text → S × Recorder → ScriptOutcome × (S × Recorder)
  record_script elapsed inner script (s, r) =
      let (sequence, ready) = take_sequence r in
      let (outcome, (after, told)) =
        inner.run_script script (s, report (script_started sequence script) ready) in
      (
        outcome,
        (after, report (script_finished (run_of sequence script outcome (elapsed s after))) told),
      )

  -- `impl ScriptRuntime for RecordingRuntime`.
  unfoldable pub recording_runtime : (S → S → ℕ) → Runtime (S × Recorder) → Runtime (S × Recorder)
  recording_runtime elapsed inner = record {
    capability_calls_used = inner.capability_calls_used;
    run_script = record_script elapsed inner;
    command_words = inner.command_words;
    command_word_help = inner.command_word_help;
  }

-- `RecordingUsage::observe`.
unfoldable pub observe : Option ModelUsage → Recorder → Recorder
observe usage r = report (model_usage usage) r

-- `ProgressEvent` of the library, with what the console reads; an outcome or a class is its debug text.
pub data ProgressEvent : Type 0 where
  model_turn : ℕ → ℕ → ProgressEvent
  tool_started : Text → ℕ → ℕ → ProgressEvent
  tool_finished : Text → Text → ProgressEvent
  note : Text → ProgressEvent
  cancelled : ProgressEvent
  failed : Text → ProgressEvent
  finished : Text → ℕ → ℕ → ProgressEvent
  started steered answered text_delta attachment keep_alive : ProgressEvent

-- The `match` of `RecordingProgress::emit`.
unfoldable pub message : ProgressEvent → Option Text
unfolding codes
message (model_turn turn of) = some (codes "model turn " ++ decimal turn ++ codes "/" ++ decimal of)
message (tool_started word used max) =
    some (word ++ codes " started · calls " ++ decimal used ++ codes "/" ++ decimal max)
message (tool_finished word outcome) = some (word ++ codes ": " ++ outcome)
message (note text) = some text
message cancelled = some (codes "stopped; sent effects are not rolled back")
message (failed class) = some (codes "turn failed: " ++ class)
message (finished outcome turns tools) = some (
    outcome
    ++ codes " · "
    ++ decimal turns
    ++ codes " model turns · "
    ++ decimal tools
    ++ codes " tools")
message _ = none

abbrev pub reported : Option Text → Recorder → Recorder
reported none r = r
reported (some text) r = report (progress text) r

-- `RecordingProgress::emit`.
unfoldable pub emit_progress : ProgressEvent → Recorder → Recorder
emit_progress e r = reported (message e) r
