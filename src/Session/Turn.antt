-- ===== src/Session/Turn.antt =====
-- `run_turn` of crates/dekopon-tui/src/session.rs: one bounded turn on its blocking task. The prompt
-- loop, the interpreter and the invoker that joins the two legs are the libraries': `Play` says what
-- they do. `S` is the state behind the broker's leg, `H` the model's history. The agent's model class,
-- which is only handed on, is left out.
pub mod Nodes
pub mod Asked
pub mod Rebuilt
use dekopon_console.Base.{ℕ, Bool, true, false, List, [], ◌∷◌, ◌++◌, Option, none, some, Text, map}
use dekopon_console.App.{Agent}
use dekopon_console.Record.{
  CallResult, ModelUsage, PromptOutcome, SessionResult, SessionEvent, finished,
}
use dekopon_console.Record
use dekopon_console.Record.Recorder.{
  Channel, emit, Recorder, recording, ScriptOutcome, Runtime, recording_runtime, observe,
  ProgressEvent, emit_progress,
}
use dekopon_console.Record.Seam.{Lib, Invoker, Request, leg_handle, no_direct, ask_all}
use dekopon_console.Report.{Failure, chain}
use dekopon_console.Session.{ConsoleOptions}

-- What the prompt loop does with its runtime, its usage observer and its progress sink.
pub data Act : Type 0 where
  runs : Text → Act
  uses : Option ModelUsage → Act
  tells : ProgressEvent → Act

pub record Skill : Type 0 where
  pub name : Text
  pub description : Text
  pub resources : List Text

-- `AgentConfigView`.
pub record AgentConfig : Type 0 where
  pub name : Text
  pub description : Text
  pub system : Option Text
  pub max_steps : ℕ
  pub max_capability_calls : ℕ
  pub effective : List Text
  pub skills : List Skill

-- `SessionInputs`, with the values that it borrows.
pub record Inputs : Type 0 where
  pub prompt : Text
  pub max_steps : ℕ
  pub max_capability_calls : ℕ
  pub system : Option Text
  pub skills : List Skill
  pub config : AgentConfig

unfoldable pub config_of :
    Agent → Option Text → ConsoleOptions → List Text → List Skill → AgentConfig
config_of agent system options effective skills = record {
  name = agent.name;
  description = agent.description;
  system = system;
  max_steps = options.max_steps;
  max_capability_calls = options.max_capability_calls;
  effective = effective;
  skills = skills;
}

unfoldable pub inputs_of :
    Text → Option Text → Agent → ConsoleOptions → List Text → List Skill → Inputs
unfolding config_of
inputs_of prompt system agent options effective skills = record {
  prompt = prompt;
  max_steps = options.max_steps;
  max_capability_calls = options.max_capability_calls;
  system = system;
  skills = skills;
  config = config_of agent system options effective skills;
}

-- The end of the prompt loop.
pub data Ending : Type 0 where
  outcome : PromptOutcome → Ending
  failure : Failure → Ending

unfoldable pub result_of : Ending → SessionResult
result_of (outcome o) = Record.ok o
result_of (failure f) = Record.err (chain f)

module _ (L : Lib) (S H : Type 0) where
  pub record Play : Type 0 where
    -- What the interpreter asks of its invoker for a script, and what it answers.
    pub requests : Text → S → List (Request L)
    pub script_outcome : Text → S → ScriptOutcome
    pub used : S → ℕ
    -- What the prompt loop does, how it ends, and the history after it.
    pub acts : Inputs → H → S → List Act
    pub ending : Inputs → H → S → Ending
    pub history_after : Inputs → H → S → H
    -- `SessionInvoker` on the direct leg and the broker's, and the defaults of the trait.
    pub session_invoker : Invoker L S → Invoker L S → Invoker L S
    pub defaults : Invoker L S
    pub uses_secret : L.Intent → Bool
    pub unsupported : CallResult L.Detail
    -- `effective_capabilities` of the leg.
    pub effective : S → List Text
    -- The clock, between two states.
    pub elapsed : S → S → ℕ
    -- `str::parse::<AgentId>`, and the skills that the options hold for an agent.
    pub parse_agent : Text → Option Text
    pub skills_of : Text → List Skill

module _ (L : Lib) {S H : Type 0} (play : Play L S H) where
  -- The invoker of the turn, without the recording.
  unfoldable pub session_invoker : Invoker L S → Invoker L S
  session_invoker leg =
      play.session_invoker (no_direct L play.defaults play.uses_secret play.unsupported)
        (leg_handle L leg)

  -- `ShellRuntime` over the recording invoker.
  unfoldable pub shell_runtime : Invoker L S → Runtime (S × Recorder)
  shell_runtime i = record {
    capability_calls_used = λ w. play.used w.0;
    run_script = λ script w. (
      play.script_outcome script w.0,
      (ask_all L (recording L play.elapsed i) (play.requests script w.0) w).1,
    );
    command_words = λ w. i.command_words w.0;
    command_word_help = λ w. i.command_word_help w.0;
  }

  unfoldable pub act : Invoker L S → Act → S × Recorder → S × Recorder
  unfolding shell_runtime
  act i (runs script) w = ((recording_runtime play.elapsed (shell_runtime i)).run_script script w).1
  act i (uses usage) (s, r) = (s, observe usage r)
  act i (tells e) (s, r) = (s, emit_progress e r)

  unfoldable pub act_all : Invoker L S → List Act → S × Recorder → S × Recorder
  act_all i [] w = w
  act_all i (a ∷ rest) w = act_all i rest (act i a w)

  -- What the task sends, once the agent's name has been read.
  unfoldable pub played : Invoker L S → Inputs → H → S → Channel → Option H × (S × Channel)
  unfolding act_all result_of
  played i inputs history s ch =
      let start : Recorder = record { channel = ch; sequence = 0 } in
      let (after, r) = act_all i (play.acts inputs history s) (s, start) in
      (
        some (play.history_after inputs history s),
        (after, emit (finished (result_of (play.ending inputs history s))) r.channel),
      )

  skills_for : Option Text → Option (List Skill)
  skills_for none = none
  skills_for (some id) = some (play.skills_of id)

  on_skills :
      Invoker L S
      → Text
      → Option Text
      → Agent
      → ConsoleOptions
      → H
      → Option (List Skill)
      → S
      → Channel
      → Option H × (S × Channel)
  unfolding played inputs_of
  on_skills leg prompt system agent options history none s ch = (none, (s, ch))
  on_skills leg prompt system agent options history (some skills) s ch =
      played (session_invoker leg) (inputs_of prompt system agent options (play.effective s) skills)
        history s ch

  -- `run_turn`: the history, or `none` for the task's panic, which is `SessionError::Task`.
  unfoldable pub run_turn :
      Invoker L S
      → Text
      → Option Text
      → Agent
      → ConsoleOptions
      → H
      → S
      → Channel
      → Option H × (S × Channel)
  unfolding on_skills skills_for
  run_turn leg prompt system agent options history s ch =
      on_skills leg prompt system agent options history (skills_for (play.parse_agent agent.name)) s
        ch
