-- ===== src/View.antt =====
-- The plain data of crates/dekopon-tui/src/app.rs: panes, modes, shell entries, notices and the
-- identity of a revealed field. The model's texts are lists of code points.
use dekopon_console.Base.{ℕ, Bool, true, false, Option, [], ◌∷◌, ◌++◌, Text, codes, ◌≡◌, refl}

pub data Pane : Type 0 where
  agents detail shell : Pane

pub Pane-discrete : Discrete Pane
Pane-discrete = hlevel

-- `Pane::next` and `Pane::previous`.
unfoldable pub next : Pane → Pane
next agents = shell
next shell = detail
next detail = agents

unfoldable pub previous : Pane → Pane
previous agents = detail
previous shell = agents
previous detail = shell

pub data Mode : Type 0 where
  browsing composing help error : Mode

pub record ShellEntry : Type 0 where
  pub input : Text
  pub output : Text
  pub exit_code : Option ℕ
  pub truncated : Bool

pub record Notice : Type 0 where
  pub text : Text
  pub is_refusal : Bool

unfoldable pub info : Text → Notice
info text = record { text = text; is_refusal = false }

unfoldable pub refusal : Text → Notice
refusal text = record { text = text; is_refusal = true }

pub data Payload : Type 0 where
  input output : Payload

unfoldable pub is_same_payload : Payload → Payload → Bool
is_same_payload input input = true
is_same_payload output output = true
is_same_payload input output = false
is_same_payload output input = false

-- `Payload::label`.
label : Payload → Text
unfolding codes
label input = codes "input"
label output = codes "output"

-- A call as (turn, script, call).
abbrev pub CallTarget : Type 0
CallTarget = ℕ × ℕ × ℕ

pub record RevealedField : Type 0 where
  pub call : CallTarget
  pub payload : Payload
  pub path : Text

-- `RevealedField::describe`.
describe_path : Payload → Text → Text
describe_path p [] = label p
describe_path p (c ∷ path) = label p ++ codes "." ++ c ∷ path

unfoldable pub describe : RevealedField → Text
unfolding describe_path label
describe f = describe_path f.payload f.path

-- Going to the next pane and back, or back and on, ends where it began.
pub previous-next : (p : Pane) → (previous (next p) ≡ p) × (next (previous p) ≡ p)
unfolding next previous
previous-next agents = (refl, refl)
previous-next detail = (refl, refl)
previous-next shell = (refl, refl)
