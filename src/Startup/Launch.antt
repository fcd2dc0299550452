-- ===== src/Startup/Launch.antt =====
-- `execute` of crates/dekopon-console/src/main.rs up to the call that runs the console. `Machine` is
-- what lies outside: files, the catalog, the terminal, the credential's path and the broker.
use dekopon_console.Base.{
  ℕ, suc, Bool, ◌&&◌, List, [], ◌∷◌, Option, none, some, Text, same, if◌then◌else◌, is_some,
  is_none,
}
use dekopon_console.App.{Agent, App, new, subject_only}
use dekopon_console.Assets.{Result, ok, err}
use dekopon_console.Report.{Failure}
use dekopon_console.Session.{
  OperatorProfile, ChatScopeClaim, ConsoleOptions, new_options, selected_model, smoke_claim,
  chat_gpt_subscription, open_ai_compatible, ModelChoice, resolve_console_credential,
}
use dekopon_console.Startup.{
  Cli, ConsoleError, session, config, unknown_agent, no_subject, structured_agent, no_credential,
  ProfilesDocument, ◌>>=◌, refuse_if, validate_terminal, read_profiles,
}
use dekopon_console.Startup.Selection.{or_else, unwrap_or, field_of, selection}

-- A loaded catalog: its agents, and its lookup by id.
pub record Catalog : Type 0 where
  pub agents : List Agent
  pub has_agent : Text → Bool

pub record Machine : Type 0 where
  -- Reading and parsing a profile file.
  pub load : Text → Result Text ProfilesDocument
  -- `load_discovered`.
  pub load_catalog : Option Text → Result Failure Catalog
  pub stdin_tty : Bool
  pub stdout_tty : Bool
  -- `resolve_auth_path_named`, and the names of the console's credential and of the shared one.
  pub resolve_auth_path : Option Text → Text → Result Text Text
  pub console_credential : Text
  pub shared_name : Text
  -- `connect`: the path of the socket that a broker answers on.
  pub connect : ConsoleOptions → Result Failure Text
  pub scope_json : ChatScopeClaim → Text

abbrev pub from_result {ℓ} : {E F A : Type ℓ} → (E → F) → Result E A → Result F A
from_result f (ok a) = ok a
from_result f (err e) = err (f e)

unfoldable pub document_of : Machine → Option Text → Result ConsoleError ProfilesDocument
document_of machine none = ok (record { default_profile = none; profiles = [] })
document_of machine (some path) = read_profiles machine.load path

unfoldable pub missing_agent : Catalog → Option Text → Option Text
missing_agent catalog none = none
missing_agent catalog (some agent) = if catalog.has_agent agent then none else some agent

unfoldable pub missing_profile_agent : Catalog → List OperatorProfile → Option Text
missing_profile_agent catalog [] = none
missing_profile_agent catalog (p ∷ ps) =
    let rest = missing_profile_agent catalog ps in
    if catalog.has_agent p.agent then rest else some p.agent

abbrev pub refuse_agent {ℓ} :
    {A : Type ℓ} → Option Text → Result ConsoleError A → Result ConsoleError A
refuse_agent none rest = rest
refuse_agent (some agent) rest = err (unknown_agent agent)

abbrev pub refuse_some {ℓ} :
    {A : Type ℓ} → Option ConsoleError → Result ConsoleError A → Result ConsoleError A
refuse_some none rest = rest
refuse_some (some e) rest = err e

unfoldable pub subject_of : Cli → Option OperatorProfile → Option Text
subject_of cli (some p) = some p.subject
subject_of cli none = cli.subject

unfoldable pub choice_of : Cli → ModelChoice
choice_of cli = elim cli.endpoint [
  | some endpoint ↦ open_ai_compatible endpoint cli.api_key_env
  | none ↦ chat_gpt_subscription cli.auth_file
]

-- The options.
unfoldable pub options_of : Cli → ProfilesDocument → Option OperatorProfile → Text → ConsoleOptions
unfolding selected_model new_options choice_of
options_of cli d initial subject =
    let (model, source) =
      selected_model cli.model (field_of (λ (p : OperatorProfile). p.model) initial) in
    record (new_options subject model) {
      model_source = source;
      scope = if cli.smoke_conversation then some smoke_claim else none;
      smoke_conversation = cli.smoke_conversation;
      profiles = d.profiles;
      fixed_profile = cli.profile;
      initial_agent = or_else cli.agent (
          if is_some cli.profile
          then field_of (λ (p : OperatorProfile). some p.agent) initial
          else none);
      model_override = cli.model;
      catalog = cli.config;
      socket = cli.socket;
      server_uid = cli.server_uid;
      max_steps =
          unwrap_or
            (or_else cli.max_steps (field_of (λ (p : OperatorProfile). p.max_steps) initial)) 8;
      max_capability_calls =
          unwrap_or
            (or_else cli.max_capability_calls
              (field_of (λ (p : OperatorProfile). p.max_capability_calls) initial))
            16;
      steps_override = cli.max_steps;
      calls_override = cli.max_capability_calls;
      model_choice = choice_of cli;
    }

unfoldable pub credential_of : Machine → ModelChoice → Result ConsoleError Text
credential_of machine (chat_gpt_subscription auth_file) =
    elim (resolve_console_credential machine.resolve_auth_path machine.console_credential
      machine.shared_name auth_file) [ ok path ↦ ok path | err e ↦ err (no_credential e) ]
credential_of machine (open_ai_compatible endpoint api_key_env) = ok endpoint

unfoldable pub position : Text → List Agent → Option ℕ
position name [] = none
position name (a ∷ rest) =
    if same a.name name
    then some 0
    else elim (position name rest) [ none ↦ none | some i ↦ some (suc i) ]

-- The index of the initial agent; `none` is the panic of `expect("validated catalog agent")`.
unfoldable pub selected_index : Option Text → List Agent → Option ℕ
unfolding position
selected_index none agents = some 0
selected_index (some name) agents = position name agents

-- What the console is run with, and whether as a structured one.
pub record Launch (Assets : Type 0) : Type 0 where
  pub app : App Assets
  pub options : ConsoleOptions
  pub is_structured : Bool

scope_label_of : Machine → Option ChatScopeClaim → Text
scope_label_of machine none = subject_only
scope_label_of machine (some s) = machine.scope_json s

module _ {Assets : Type 0} where
  unfoldable pub app_of :
      Machine
      → List Agent
      → Text
      → Text
      → Text
      → ConsoleOptions
      → Option OperatorProfile
      → ℕ
      → App Assets
  unfolding new scope_label_of
  app_of machine agents subject socket credential options initial index =
      record (new agents subject socket credential) {
        selected_agent = index;
        profile = field_of (λ (p : OperatorProfile). some p.name) initial;
        scope_label = scope_label_of machine options.scope;
        model = options.model;
        model_source = options.model_source;
      }

  unfoldable pub opened :
      Machine
      → Cli
      → List Agent
      → ConsoleOptions
      → Option OperatorProfile
      → Text
      → Text
      → Option ℕ
      → Option (Launch Assets)
  unfolding app_of
  opened machine cli agents options initial credential socket none = none
  opened machine cli agents options initial credential socket (some index) = some (record {
    app = app_of machine agents options.subject socket credential options initial index;
    options = options;
    is_structured = cli.structured;
  })

  -- From the loaded catalog on.
  unfoldable pub launch :
      Machine
      → Cli
      → ProfilesDocument
      → Option OperatorProfile
      → Catalog
      → Result ConsoleError (Option (Launch Assets))
  unfolding missing_agent missing_profile_agent subject_of options_of credential_of selected_index
      opened
  launch machine cli d initial catalog = refuse_agent (missing_agent catalog cli.agent) (
      refuse_agent (missing_profile_agent catalog d.profiles) (elim (subject_of cli initial) [
        | none ↦ err no_subject
        | some subject ↦ refuse_some (validate_terminal cli machine.stdin_tty machine.stdout_tty) (
            refuse_if (cli.structured && is_none cli.agent && is_none cli.profile) structured_agent
              (do
                let options = options_of cli d initial subject
                credential ← credential_of machine options.model_choice
                socket ← from_result session (machine.connect options)
                ok (
                    opened machine cli catalog.agents options initial credential socket
                      (selected_index options.initial_agent catalog.agents))))
      ]))

  -- `execute`, up to running what it opens; `none` in a result is a panic.
  unfoldable pub execute : Machine → Cli → Result ConsoleError (Option (Launch Assets))
  unfolding document_of selection launch
  execute machine cli = do
    d ← document_of machine cli.profiles
    initial ← selection cli d
    catalog ← from_result config (machine.load_catalog cli.config)
    launch machine cli d initial catalog
