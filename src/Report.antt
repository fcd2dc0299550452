-- ===== src/Report.antt =====
-- crates/dekopon-tui/src/report.rs: what the console says of a failure. An error value is the list
-- of its links, from itself down its `source()` chain: the text of each, and the broker's refusal
-- if the link holds one (the two downcasts of `broker_refusal`).
pub mod Chain
use dekopon_console.Base.{
  ℕ, Bool, true, false, List, [], ◌∷◌, ◌++◌, Option, none, some, Text, codes, same, find, ends_with,
  if◌then◌else◌,
}

pub record Link : Type 0 where
  pub text : Text
  pub remote : Option (Text × Text)

-- An error and its sources.
pub record Failure : Type 0 where
  pub top : Link
  pub sources : List Link

-- The loop of `chain`.
chain_from : Text → List Link → Text
unfolding codes
chain_from text [] = text
chain_from text (cause ∷ causes) =
    chain_from (if ends_with cause.text text then text else text ++ codes ": " ++ cause.text) causes

unfoldable pub chain : Failure → Text
unfolding chain_from
chain f = chain_from f.top.text f.sources

first_remote : List Link → Option (Text × Text)
first_remote [] = none
first_remote (l ∷ ls) = elim l.remote [ none ↦ first_remote ls | some r ↦ some r ]

unfoldable pub broker_refusal : Failure → Option (Text × Text)
unfolding first_remote
broker_refusal f = first_remote (f.top ∷ f.sources)

pub record ErrorReport : Type 0 where
  pub operation : Text
  pub context : List (Text × Text)
  pub error : Text
  pub refusal : Option (Text × Text)
  pub note : Option Text

unfoldable pub from_error : Text → Failure → ErrorReport
from_error operation f = record {
  operation = operation;
  context = [];
  error = chain f;
  refusal = broker_refusal f;
  note = none;
}

unfoldable pub from_message : Text → Text → ErrorReport
from_message operation message = record {
  operation = operation;
  context = [];
  error = message;
  refusal = none;
  note = none;
}

-- `ErrorReport::with`.
unfoldable pub add_fact : Text → Text → ErrorReport → ErrorReport
add_fact label value r = record r { context = r.context ++ (label, value) ∷ [] }

unfoldable pub with_note : Text → ErrorReport → ErrorReport
with_note note r = record r { note = some note }

summary_of : Option (Text × Text) → Text → Text → Text
unfolding codes
summary_of (some (code, message)) operation error =
    codes "[e: full error] "
    ++ operation
    ++ codes " refused by broker: "
    ++ code
    ++ codes ": "
    ++ message
summary_of none operation error =
    codes "[e: full error] " ++ operation ++ codes " failed: " ++ error

unfoldable pub summary : ErrorReport → Text
unfolding summary_of
summary r = summary_of r.refusal r.operation r.error

unfoldable pub lookup : Text → List (Text × Text) → Option Text
lookup label [] = none
lookup label ((k, v) ∷ facts) = if same k label then some v else lookup label facts

unfoldable pub fact : Text → ErrorReport → Option Text
unfolding lookup
fact label r = lookup label r.context

-- `fmt::Display`.
show_facts : List (Text × Text) → Text
unfolding codes
show_facts [] = []
show_facts ((k, v) ∷ facts) = k ++ codes ": " ++ v ++ codes "\n" ++ show_facts facts

show_refusal : Option (Text × Text) → Text
unfolding codes
show_refusal none = []
show_refusal (some (code, message)) =
    codes "\nbroker refusal code: " ++ code ++ codes "\nbroker refusal message: " ++ message

show_note : Option Text → Text
unfolding codes
show_note none = []
show_note (some note) = codes "\nnote: " ++ note

unfoldable pub display : ErrorReport → Text
unfolding show_facts show_refusal show_note codes
display r =
    codes "dekopon-console: "
    ++ r.operation
    ++ codes " failed\n"
    ++ show_facts r.context
    ++ codes "error: "
    ++ r.error
    ++ show_refusal r.refusal
    ++ show_note r.note
