-- ===== src/Startup.antt =====
-- crates/dekopon-console/src/main.rs: the command line, the authored profiles, and what a console is
-- opened with. The parser of the command line and its rules on flags, the profile file's reader and
-- parser, the catalog, the credential's path and the connection are the libraries'.
pub mod Profiles
pub mod Selection
pub mod Launch
pub mod Choosing
pub mod Entry
pub mod Started
pub mod Agreed
use dekopon_console.Base.{
  ℕ, Bool, true, false, ◌&&◌, ◌||◌, not, List, [], ◌∷◌, ◌++◌, Option, none, some, Text, codes, same,
  trim, all, any, find, leb, ltb, length, is_ascii_alphanumeric, ◌==◌, if◌then◌else◌, is_some,
  is_none,
}
use dekopon_console.Assets.{Result, ok, err}
use dekopon_console.Report.{Failure}
use dekopon_console.Session.{CredentialError, OperatorProfile}

-- `Cli`, without the flags that only `main` and the telemetry read.
pub record Cli : Type 0 where
  pub config : Option Text
  pub socket : Option Text
  pub server_uid : Option ℕ
  pub subject : Option Text
  pub agent : Option Text
  pub smoke_conversation : Bool
  pub profiles : Option Text
  pub profile : Option Text
  pub model : Option Text
  pub auth_file : Option Text
  pub endpoint : Option Text
  pub api_key_env : Option Text
  pub max_steps : Option ℕ
  pub max_capability_calls : Option ℕ
  pub structured : Bool

-- `ConsoleError`, as far as `execute` gives it.
pub data ConsoleError : Type 0 where
  config : Failure → ConsoleError
  session : Failure → ConsoleError
  profile : Text → ConsoleError
  unknown_agent : Text → ConsoleError
  no_credential : CredentialError → ConsoleError
  no_subject no_terminal structured_terminal structured_agent : ConsoleError

pub record ProfilesDocument : Type 0 where
  pub default_profile : Option Text
  pub profiles : List OperatorProfile

-- `?` on a result, for `do`, and a test that refuses.
infixl 5 ◌>>=◌
abbrev pub ◌>>=◌ {ℓ} : {E A B : Type ℓ} → Result E A → (A → Result E B) → Result E B
ok a >>= f = f a
err e >>= f = err e

abbrev pub refuse_if {ℓ} : {E A : Type ℓ} → Bool → E → Result E A → Result E A
refuse_if b e rest = if b then err e else rest

unfoldable pub validate_terminal : Cli → Bool → Bool → Option ConsoleError
validate_terminal cli stdin_tty stdout_tty =
    if cli.structured
    then (if stdin_tty || stdout_tty then some structured_terminal else none)
    else if not stdin_tty || not stdout_tty
    then some no_terminal
    else none

-- The tests of `read_profiles` on a profile's name, model and bounds.
unfoldable pub is_name_byte : ℕ → Bool
is_name_byte b = is_ascii_alphanumeric b || b == b'-' || b == b'_'

unfoldable pub is_blank : Option Text → Bool
is_blank none = false
is_blank (some model) = elim (trim model) [ [] ↦ true | c ∷ cs ↦ false ]

unfoldable pub is_outside : ℕ → Option ℕ → Bool
is_outside most none = false
is_outside most (some n) = not (leb 1 n && leb n most)

unfoldable pub is_misnamed : List Text → Text → Bool
unfolding is_name_byte
is_misnamed names [] = true
is_misnamed names name = not (all is_name_byte name) || any (same name) names

unfoldable pub is_misbound : OperatorProfile → Bool
unfolding is_blank is_outside
is_misbound p =
    is_blank p.model || is_outside 64 p.max_steps || is_outside 256 p.max_capability_calls

-- The loop of `read_profiles` over the profiles: the names.
unfoldable pub names_of : List Text → List OperatorProfile → Result ConsoleError (List Text)
unfolding is_misnamed is_misbound
names_of names [] = ok names
names_of names (p ∷ ps) =
    let rest = names_of (p.name ∷ names) ps in
    refuse_if (is_misnamed names p.name)
      (profile (codes "invalid or duplicate profile name: " ++ p.name))
      (refuse_if (is_misbound p) (profile (codes "invalid model or bounds in profile " ++ p.name))
        rest)

unfoldable pub has_default : Option Text → List Text → Option Text
has_default none names = none
has_default (some d) names = if any (same d) names then none else some d

unfoldable pub refuse_default :
    Option Text → ProfilesDocument → Result ConsoleError ProfilesDocument
refuse_default none d = ok d
refuse_default (some name) d =
    err (profile (codes "defaultProfile " ++ name ++ codes " has no matching profile"))

-- `read_profiles`, once the file has been read and parsed.
unfoldable pub checked : ProfilesDocument → Result ConsoleError ProfilesDocument
unfolding names_of has_default refuse_default
checked d = do
  names ← names_of [] d.profiles
  refuse_default (has_default d.default_profile names) d

-- `read_profiles`; `load` reads the file at a path and parses it.
unfoldable pub read_profiles :
    (Text → Result Text ProfilesDocument) → Text → Result ConsoleError ProfilesDocument
unfolding checked
read_profiles load path = elim (load path) [
  | ok d ↦ checked d
  | err message ↦ err (profile (path ++ codes ": " ++ message))
]
