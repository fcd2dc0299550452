-- ===== src/Session.antt =====
-- crates/dekopon-tui/src/session.rs: what a console run is configured with, the choice of model and
-- credential, Stop, the synthetic delivery identity and an opened agent session. Subjects, agent
-- ids and paths are texts; `ChatScopeClaim` carries what `smoke_claim` puts into it.
pub mod Stop
pub mod Choice
pub mod Turn
use dekopon_console.Base.{
  ℕ, suc, ◌+◌, ◌%◌, Bool, true, false, ◌&&◌, not, List, [], ◌∷◌, ◌++◌, Option, none, some, Text,
  codes, same, decimal, length, if◌then◌else◌, ◌||◌, is_some, split, starts_with,
}
use dekopon_console.Assets.{Result, ok, err}

pub data ModelSource : Type 0 where
  cli_override profile default : ModelSource

pub data ModelChoice : Type 0 where
  chat_gpt_subscription : Option Text → ModelChoice
  open_ai_compatible : Text → Option Text → ModelChoice

-- `DEFAULT_MODEL`.
default_model : Text
unfolding codes
default_model = codes "gpt-5.6-luna"

unfoldable pub selected_model : Option Text → Option Text → Text × ModelSource
unfolding default_model
selected_model (some model) _ = (model, cli_override)
selected_model none (some model) = (model, profile)
selected_model none none = (default_model, default)

pub record ChatScopeClaim : Type 0 where
  pub transport : Text
  pub conversation : Text

unfoldable pub smoke_claim : ChatScopeClaim
unfolding codes
smoke_claim = record { transport = codes "console-smoke"; conversation = codes "console-smoke" }

-- `OperatorProfile` of profile.rs.
pub record OperatorProfile : Type 0 where
  pub name : Text
  pub agent : Text
  pub subject : Text
  pub model : Option Text
  pub max_steps : Option ℕ
  pub max_capability_calls : Option ℕ

-- `ConsoleOptions`, without the limits and the deadline that only the libraries read and without
-- the skills.
pub record ConsoleOptions : Type 0 where
  pub catalog : Option Text
  pub socket : Option Text
  pub server_uid : Option ℕ
  pub subject : Text
  pub scope : Option ChatScopeClaim
  pub smoke_conversation : Bool
  pub profiles : List OperatorProfile
  pub fixed_profile : Option Text
  pub initial_agent : Option Text
  pub model_override : Option Text
  pub steps_override : Option ℕ
  pub calls_override : Option ℕ
  pub model : Text
  pub model_source : ModelSource
  pub model_choice : ModelChoice
  pub max_steps : ℕ
  pub max_capability_calls : ℕ

-- `ConsoleOptions::new`.
unfoldable pub new_options : Text → Text → ConsoleOptions
new_options subject model = record {
  catalog = none;
  socket = none;
  server_uid = none;
  subject = subject;
  scope = none;
  smoke_conversation = false;
  profiles = [];
  fixed_profile = none;
  initial_agent = none;
  model_override = none;
  steps_override = none;
  calls_override = none;
  model = model;
  model_source = default;
  model_choice = chat_gpt_subscription none;
  max_steps = 8;
  max_capability_calls = 16;
}

-- `SessionError`, as far as a credential's path gives it: `ChatGpt`, with its text, and
-- `SharedCredential`.
pub data CredentialError : Type 0 where
  chat_gpt shared_credential : Text → CredentialError

-- `Path::components`: repeated and trailing slashes do not count, nor does a `.` that is not first.
unfoldable pub kept : List Text → List Text
unfolding codes
kept [] = []
kept (part ∷ parts) =
    let rest = kept parts in if same part [] || same part (codes ".") then rest else part ∷ rest

unfoldable pub from_here : List Text → List Text
unfolding kept codes
from_here [] = []
from_here (part ∷ parts) = if same part (codes ".") then part ∷ kept parts else kept (part ∷ parts)

unfoldable pub components : Text → List Text
unfolding from_here codes starts_with split
components path =
    if starts_with (codes "/") path
    then codes "/" ∷ kept (split b'/' path)
    else from_here (split b'/' path)

unfoldable pub are_same : List Text → List Text → Bool
are_same [] [] = true
are_same [] (q ∷ qs) = false
are_same (p ∷ ps) [] = false
are_same (p ∷ ps) (q ∷ qs) = same p q && are_same ps qs

-- `PathBuf::eq`.
unfoldable pub is_same_path : Text → Text → Bool
unfolding components are_same
is_same_path p q = are_same (components p) (components q)

-- `guard_shared_credential`.
unfoldable pub guard_shared_credential : Text → Text → Bool → Result CredentialError Text
guard_shared_credential resolved shared explicit =
    if not explicit && is_same_path resolved shared
    then err (shared_credential resolved)
    else ok resolved

-- `resolve_console_credential`; `resolve` stands for `chatgpt::resolve_auth_path_named`, which may
-- fail to name a path.
unfoldable pub resolve_console_credential :
    (Option Text → Text → Result Text Text)
    → Text
    → Text
    → Option Text
    → Result CredentialError Text
unfolding guard_shared_credential
resolve_console_credential resolve console_name shared_name explicit =
    elim (resolve explicit console_name) [
      | err e ↦ err (chat_gpt e)
      | ok resolved ↦ elim (resolve none shared_name) [
        | err e ↦ err (chat_gpt e)
        | ok shared ↦ guard_shared_credential resolved shared (is_some explicit)
      ]
    ]

-- `AgentSession`: the agent, the capabilities granted, the command words and the leg's trace.
pub record AgentSession : Type 0 where
  pub agent : Text
  pub effective : List Text
  pub command_words : List Text
  pub trace : Text

unfoldable pub is_empty : AgentSession → Bool
is_empty s = elim s.effective [ [] ↦ true | c ∷ cs ↦ false ]

-- `StopFlag`: the flag, the handle bound to the leg in flight, and the handles cancelled so far.
pub record StopFlag : Type 0 where
  pub requested : Bool
  pub broker : Option ℕ
  pub cancelled : List ℕ

unfoldable pub unset : StopFlag
unset = record { requested = false; broker = none; cancelled = [] }

cancel : Option ℕ → List ℕ → List ℕ
cancel none done = done
cancel (some handle) done = handle ∷ done

-- `StopFlag::request`, `reset` and `bind_broker`.
unfoldable pub request : StopFlag → StopFlag
unfolding cancel
request s = record s { requested = true; cancelled = cancel s.broker s.cancelled }

unfoldable pub reset : StopFlag → StopFlag
reset s = record s { requested = false; broker = none }

unfoldable pub bind_broker : ℕ → StopFlag → StopFlag
bind_broker handle s = record s { broker = some handle }

-- `SmokeIdentity`: the nonce of the process and the counter of its turns.
pub record SmokeIdentity : Type 0 where
  pub boot_nonce : Text
  pub next : ℕ

-- `SmokeIdentity::turn`: the delivery's id and its sequence number.
unfoldable pub smoke_turn : SmokeIdentity → (Text × ℕ) × SmokeIdentity
smoke_turn i = (
  (codes "console-smoke-" ++ i.boot_nonce ++ codes "-" ++ decimal i.next, i.next),
  record i { next = (i.next + 1) % 18446744073709551616 },
)
