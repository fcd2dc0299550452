-- ===== src/Record/Seam.antt =====
-- The library's trait `CapabilityInvoker` as an interface, and the two implementations of session.rs
-- that only forward or refuse: `LegHandle` and `NoDirect`. `S` is the state behind an invoker; what a
-- command's job control, streams, tree, description and run are is the library's (`Lib`).
use dekopon_console.Base.{ℕ, Bool, false, List, [], ◌∷◌, Option, none, Text, if◌then◌else◌}
use dekopon_console.Record.{CallResult}
use dekopon_console.Redact.Value.{Value}

pub record Lib : Type 1 where
  pub Job : Type 0
  pub Streams : Type 0
  pub Description : Type 0
  pub Run : Type 0
  pub Detail : Type 0
  -- What a proposal carries beside the capability and its input: secret intent and report.
  pub Intent : Type 0

module _ (L : Lib) where
  open L use {Job, Streams, Description, Run, Detail, Intent}

  -- `CommandProposal`.
  pub record Proposal : Type 0 where
    pub capability : Text
    pub input : Value
    pub intent : Intent

  -- The methods of an invoker. Times are numbers.
  pub record Invoker (S : Type 0) : Type 0 where
    pub cancelled : S → Bool
    pub script_started : ℕ → S → S
    pub job_control : S → Option Job
    pub granted : S → List Text
    pub is_granted : Text → S → Bool
    pub command_words : S → List Text
    pub command_word_help : S → List (Text × Text)
    pub has_command_word : Text → S → Bool
    pub note : Text → Option ℕ → S → S
    pub describe : Text → S → Option Description
    pub run_command : Text → List Text → Bool → S → Option Run × S
    pub script_finished : S → S
    pub invoke : Proposal → Streams → S → CallResult Detail × S

  -- `impl CapabilityInvoker for LegHandle`.
  unfoldable pub leg_handle : {S : Type 0} → Invoker S → Invoker S
  leg_handle leg = record {
    cancelled = leg.cancelled;
    script_started = leg.script_started;
    job_control = leg.job_control;
    granted = leg.granted;
    is_granted = leg.is_granted;
    command_words = leg.command_words;
    command_word_help = leg.command_word_help;
    has_command_word = leg.has_command_word;
    note = leg.note;
    describe = leg.describe;
    run_command = leg.run_command;
    script_finished = leg.script_finished;
    invoke = leg.invoke;
  }

  -- A call of a method, and its answer.
  pub data Request : Type 0 where
    cancelled job_control granted command_words command_word_help script_finished : Request
    script_started : ℕ → Request
    is_granted has_command_word describe : Text → Request
    note : Text → Option ℕ → Request
    run_command : Text → List Text → Bool → Request
    invoke : Proposal → Streams → Request

  pub data Answer : Type 0 where
    done : Answer
    flag : Bool → Answer
    names : List Text → Answer
    pages : List (Text × Text) → Answer
    job : Option Job → Answer
    described : Option Description → Answer
    ran : Option Run → Answer
    result : CallResult Detail → Answer

  unfoldable pub ask : {S : Type 0} → Invoker S → Request → S → Answer × S
  ask i Request.cancelled s = (flag (i.cancelled s), s)
  ask i Request.job_control s = (job (i.job_control s), s)
  ask i Request.granted s = (names (i.granted s), s)
  ask i Request.command_words s = (names (i.command_words s), s)
  ask i Request.command_word_help s = (pages (i.command_word_help s), s)
  ask i Request.script_finished s = (done, i.script_finished s)
  ask i (Request.script_started timeout) s = (done, i.script_started timeout s)
  ask i (Request.is_granted c) s = (flag (i.is_granted c s), s)
  ask i (Request.has_command_word w) s = (flag (i.has_command_word w s), s)
  ask i (Request.describe c) s = (described (i.describe c s), s)
  ask i (Request.note text eta) s = (done, i.note text eta s)
  ask i (Request.run_command word argv stdin) s =
      let (r, s') = i.run_command word argv stdin s in (ran r, s')
  ask i (Request.invoke p streams) s = let (r, s') = i.invoke p streams s in (result r, s')

  unfoldable pub ask_all : {S : Type 0} → Invoker S → List Request → S → List Answer × S
  ask_all i [] s = ([], s)
  ask_all i (q ∷ qs) s =
      let (a, s') = ask i q s in let (rest, end) = ask_all i qs s' in (a ∷ rest, end)

  -- `impl CapabilityInvoker for NoDirect`; `defaults` holds the methods that the trait provides.
  unfoldable pub no_direct :
      {S : Type 0} → Invoker S → (Intent → Bool) → CallResult Detail → Invoker S
  no_direct defaults uses_secret unsupported = record defaults {
    granted = λ s. [];
    is_granted = λ c s. false;
    command_words = λ s. [];
    has_command_word = λ w s. false;
    describe = λ c s. none;
    invoke = λ p streams s. (if uses_secret p.intent then unsupported else CallResult.not_found, s);
  }
