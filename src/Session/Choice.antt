-- ===== src/Session/Choice.antt =====
-- The choice of a credential.
use dekopon_console.Base.{◌≡◌, false, Option, none, some, Text, arith}
use dekopon_console.Assets.{Result, ok}
use dekopon_console.Session.{resolve_console_credential, is_same_path}

-- Without an explicit path the console never uses the file that the other surfaces resolve to: a
-- path that it resolves to has other components.
resolve_console_credential-guards :
    (resolve : Option Text → Text → Result Text Text) (console_name shared_name shared path : Text)
    → resolve none shared_name ≡ ok shared
    → resolve_console_credential resolve console_name shared_name none ≡ ok path
    → is_same_path path shared ≡ false
unfolding resolve_console_credential
resolve_console_credential-guards resolve console_name shared_name shared path h e = ground arith

-- An explicit path is used whatever it resolves to, the shared file included.
resolve_console_credential_explicit :
    (resolve : Option Text → Text → Result Text Text)
    (console_name shared_name shared path p : Text)
    → resolve none shared_name ≡ ok shared
    → resolve (some p) console_name ≡ ok path
    → resolve_console_credential resolve console_name shared_name (some p) ≡ ok path
unfolding resolve_console_credential
resolve_console_credential_explicit resolve console_name shared_name shared path p h e =
    ground arith
