-- ===== src/Tests/Startup.antt =====
-- The command line and the telemetry at concrete inputs.
use dekopon_console.Base.{
  ◌≡◌, ◌⊎◌, refl, true, false, [], ◌∷◌, Option, none, some, Text, codes, is_some, same,
  is_ascii_alphanumeric,
}
use dekopon_console.Assets.{ok, err}
use dekopon_console.Session.{OperatorProfile, is_same_path, resolve_console_credential}
use dekopon_console.Startup.{Cli, ConsoleError, ProfilesDocument, checked, read_profiles}
use dekopon_console.Startup
use dekopon_console.Startup.Agreed.{execute-Agrees}
use dekopon_console.Startup.Entry.{Agrees}
use dekopon_console.Startup.Launch.{Machine, Launch, execute}
use dekopon_console.Startup.Selection.{field_of}
use dekopon_console.Startup.Profiles.{IsDocument, checked-cases}
use dekopon_console.Startup.Started.{IsAt}
use dekopon_console.Telemetry.{Backend, Install, initialize}
use dekopon_console.Telemetry.Ends.{initialize-Quiet}
use dekopon_console.Tests.Dispatching.{mail, desk, profile, Inventory}

abbrev document : ProfilesDocument
document = record { default_profile = some (codes "work"); profiles = profile ∷ [] }

checked-cases_example :
    ((checked document ≡ ok document) × IsDocument document)
    ⊎ ((m : Text) × (checked document ≡ err (Startup.profile m)) × ((IsDocument document) → ⊥))
checked-cases_example = checked-cases document

abbrev machine : Machine
machine = record {
  load = λ path. ok document;
  load_catalog = λ path. ok (record { agents = desk ∷ mail ∷ []; has_agent = λ name. true });
  stdin_tty = false;
  stdout_tty = false;
  resolve_auth_path = λ explicit name. ok name;
  console_credential = codes "chatgpt-auth.console.json";
  shared_name = codes "chatgpt-auth.json";
  connect = λ options. ok (codes "/run/broker");
  scope_json = λ s. s.transport;
}

-- dekopon-console --profiles p.yaml --profile work --structured
abbrev cli : Cli
cli = record {
  config = none;
  socket = none;
  server_uid = none;
  subject = none;
  agent = none;
  smoke_conversation = false;
  profiles = some (codes "p.yaml");
  profile = some (codes "work");
  model = none;
  auth_file = none;
  endpoint = none;
  api_key_env = none;
  max_steps = none;
  max_capability_calls = none;
  structured = true;
}

-- What `execute` opens.
opens :
    (l : Launch Inventory) × (execute machine cli ≡ ok (some l))
    × (l.options.initial_agent ≡ some (codes "mail"))
unfolding execute read_profiles is_ascii_alphanumeric same Startup.validate_terminal
    resolve_console_credential is_same_path
opens = (_, refl, refl)

execute-Agrees_example :
    (initial : Option OperatorProfile) × Agrees initial opens.0.options (codes "mail")
    × (opens.0.app.profile ≡ field_of (λ (p : OperatorProfile). some p.name) initial)
    × IsAt (codes "mail") opens.0.app.agents opens.0.app.selected_agent
    × (opens.0.app.subject ≡ opens.0.options.subject)
execute-Agrees_example = execute-Agrees machine cli opens.0 (codes "mail") opens.1 opens.2

abbrev backend : Backend
backend = record {
  read_to_string = λ path. some (codes "endpoint: http://127.0.0.1:4317");
  from_str = λ text. some (record {
    endpoint = codes "http://127.0.0.1:4317";
    transport = none;
    service_name = none;
    export_timeout_ms = none;
  });
  accepts = λ endpoint transport service timeout. true;
  tracer_provider = some 1;
  logger_provider = some 2;
  local_provider = 0;
  installs = λ i. true;
  stderr_is_terminal = true;
}

abbrev installed : Install
installed = record {
  console = record { ansi = true; target = false; filter = codes "off" };
  logs = some (2, 5000);
  traces = 1;
}

installs : (initialize backend (some (codes "otlp.yaml")) 0 false).0 ≡ ok installed
unfolding initialize
installs = refl

initialize-Quiet_example :
    (backend.stderr_is_terminal ≡ true → installed.console.filter ≡ codes "off")
    × (is_some installed.logs ≡ true)
initialize-Quiet_example =
    initialize-Quiet backend (some (codes "otlp.yaml")) 0 false installed installs

-- A console that failed.
abbrev failed_run : Option Text
failed_run = some (codes "refused")
