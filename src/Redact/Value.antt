-- ===== src/Redact/Value.antt =====
-- `redact` and `walk` of redact.rs over JSON values.
-- `marker` stands for `dekopon_core::redaction_marker`, `print` for serde_json's rendering of a value
-- and `lowercase` for Unicode's lower-case mapping beyond ASCII. An object is its fields in the map's
-- order of iteration, which `walk` keeps; the path is passed down, since each call truncates it back.
pub mod Hidden
pub mod Faithful
use dekopon_console.Base.{
  ℕ, suc, ◌+◌, ◌≡◌, Bool, true, false, ◌&&◌, ◌||◌, not, List, [], ◌∷◌, ◌++◌, Option, none, some,
  Text, codes, same, any, length, ltb, if◌then◌else◌, to_ascii_lower, ◌==◌, filter, is_ascii,
}
use dekopon_console.Redact.Runs.{redact_text}

mutual
  pub data Value : Type 0 where
    null : Value
    boolean : Bool → Value
    number : Text → Value
    string : Text → Value
    array : Items → Value
    object : Fields → Value

  pub data Items : Type 0 where
    nil : Items
    cons : Value → Items → Items

  pub data Fields : Type 0 where
    end : Fields
    field : Text → Value → Fields → Fields

pub data RedactionReason : Type 0 where
  key shape : RedactionReason

pub record Redaction : Type 0 where
  pub path : Text
  pub reason : RedactionReason

pub record Redacted : Type 0 where
  pub value : Value
  pub redactions : List Redaction

secret_keys : List Text
unfolding codes
secret_keys =
    codes "apikey"
    ∷ codes "authorization"
    ∷ codes "cookie"
    ∷ codes "credential"
    ∷ codes "credentials"
    ∷ codes "password"
    ∷ codes "privatekey"
    ∷ codes "secret"
    ∷ codes "session"
    ∷ codes "sessiontoken"
    ∷ codes "token"
    ∷ []

-- `path.push('.')` if there is a path, then the key or the index.
unfoldable pub child_path : Text → Text → Text
child_path [] name = name
child_path (c ∷ path) name = (c ∷ path) ++ b'.' ∷ name

-- The texts of the outside that the walk uses.
pub record Render : Type 0 where
  pub marker : ℕ → Text
  pub print : Value → Text
  pub index : ℕ → Text
  pub lowercase : ℕ → Text

-- `char::to_lowercase`.
to_lowercase : (ℕ → Text) → ℕ → Text
to_lowercase lowercase c = if is_ascii c then to_ascii_lower c ∷ [] else lowercase c

fold_key : (ℕ → Text) → Text → Text
unfolding to_lowercase
fold_key lowercase [] = []
fold_key lowercase (c ∷ k) =
    let rest = fold_key lowercase k in
    if c == b'-' || c == b'_' then rest else to_lowercase lowercase c ++ rest

-- `key_is_secret`.
unfoldable pub key_is_secret : (ℕ → Text) → Text → Bool
unfolding secret_keys fold_key same
key_is_secret lowercase k = any (same (fold_key lowercase k)) secret_keys

-- What `found.push` adds.
unfoldable pub note : Text → RedactionReason → List Redaction
note path reason = record { path = path; reason = reason } ∷ []

module _ (r : Render) where
  -- The first arm of the `match`.
  unfoldable pub walk_string : Text → Bool → Text → Value × List Redaction
  unfolding redact_text note
  walk_string text true path = (string (r.marker (length text)), note path key)
  walk_string text false path = elim (redact_text r.marker text) [
    | none ↦ (string text, [])
    | some redacted ↦ (string redacted, note path shape)
  ]

  -- The second arm: a secret key hides any other value but null.
  unfoldable pub hide : Value → Text → Value × List Redaction
  unfolding note
  hide value path = (string (r.marker (length (r.print value))), note path key)

-- `walk`, with the redactions that it adds to `found` as a result.
unfoldable mutual
  pub walk : Render → Value → Bool → Text → Value × List Redaction
  walk r (string text) secret path = walk_string r text secret path
  walk r null secret path = (null, [])
  walk r (boolean b) secret path = if secret then hide r (boolean b) path else (boolean b, [])
  walk r (number n) secret path = if secret then hide r (number n) path else (number n, [])
  walk r (array items) secret path =
      let (mapped, found) = walk_items r items 0 path in
      if secret then hide r (array items) path else (array mapped, found)
  walk r (object fields) secret path =
      let (mapped, found) = walk_fields r fields path in
      if secret then hide r (object fields) path else (object mapped, found)

  pub walk_items : Render → Items → ℕ → Text → Items × List Redaction
  walk_items r nil i path = (nil, [])
  walk_items r (cons v items) i path =
      let (mapped, found) = walk r v false (child_path path (r.index i)) in
      let (rest, later) = walk_items r items (suc i) path in (cons mapped rest, found ++ later)

  pub walk_fields : Render → Fields → Text → Fields × List Redaction
  walk_fields r end path = (end, [])
  walk_fields r (field k v fields) path =
      let (mapped, found) = walk r v (key_is_secret r.lowercase k) (child_path path k) in
      let (rest, later) = walk_fields r fields path in (field k mapped rest, found ++ later)

unfoldable pub redact : Render → Value → Redacted
unfolding walk
redact r value = let (v, found) = walk r value false [] in record { value = v; redactions = found }

-- `Redacted::is_clean`.
unfoldable pub is_clean : Redacted → Bool
is_clean d = elim d.redactions [ [] ↦ true | x ∷ xs ↦ false ]
