-- ===== src/Transcript/Exchange.antt =====
-- One exchange: `ScriptNode`, `TurnTokens` and `Turn` of transcript.rs.
use dekopon_console.Base.{
  ℕ, ◌+◌, Bool, true, false, List, [], ◌∷◌, ◌++◌, Option, none, some, Text, ◌==◌, any, length,
  if◌then◌else◌, saturating_add, u64_max, u32_max, filter, is_none,
}
use dekopon_console.Record.{
  CallOutcome, CapabilityCall, ScriptRun, ModelUsage, SessionResult, SessionEvent, script_started,
  capability, script_finished, model_usage, progress, shell_finished, finished, ReplyDisposition,
  send, suppress, PromptOutcome,
}
use dekopon_console.Record

pub data TurnStatus : Type 0 where
  running : TurnStatus
  answered : Text → TurnStatus
  suppressed : TurnStatus
  failed : Text → TurnStatus

abbrev pub is_open : TurnStatus → Bool
is_open running = true
is_open _ = false

pub record ScriptNode : Type 0 where
  pub sequence : ℕ
  pub script : Text
  pub calls : List CapabilityCall
  pub outcome : Option ScriptRun

-- `ScriptNode::is_running`.
abbrev pub is_script_running : ScriptNode → Bool
is_script_running n = is_none n.outcome

pub record TurnTokens : Type 0 where
  pub input : Option ℕ
  pub output : Option ℕ
  pub unreported : ℕ

abbrev or_zero : Option ℕ → ℕ
or_zero none = 0
or_zero (some n) = n

-- `if let Some(n) = reported { sum = Some(sum.unwrap_or_default().saturating_add(n)) }`.
unfoldable pub add_reported : Option ℕ → Option ℕ → Option ℕ
add_reported sum none = sum
add_reported sum (some n) = some (saturating_add u64_max (or_zero sum) n)

unfoldable pub unreported_one : TurnTokens → TurnTokens
unreported_one t = record t { unreported = saturating_add u32_max t.unreported 1 }

-- `TurnTokens::absorb`.
unfoldable pub absorb_usage : Option ModelUsage → TurnTokens → TurnTokens
unfolding add_reported unreported_one
absorb_usage none t = unreported_one t
absorb_usage (some u) t =
    let added = record t {
      input = add_reported t.input u.input_tokens;
      output = add_reported t.output u.output_tokens;
    } in
    if is_none u.input_tokens
    then (if is_none u.output_tokens then unreported_one added else added)
    else added

pub record Turn : Type 0 where
  pub ordinal : ℕ
  pub prompt : Text
  pub scripts : List ScriptNode
  pub tokens : TurnTokens
  pub status : TurnStatus
  pub stop_requested : Bool
  pub elapsed : Option ℕ
  pub in_replay_window : Bool

-- `turn.status.is_running()`.
abbrev pub is_running : Turn → Bool
is_running t = is_open t.status

unfoldable pub opened : ℕ → Text → Turn
opened ordinal prompt = record {
  ordinal = ordinal;
  prompt = prompt;
  scripts = [];
  tokens = record { input = none; output = none; unreported = 0 };
  status = running;
  stop_requested = false;
  elapsed = none;
  in_replay_window = true;
}

-- A write to what `iter_mut().rev().find(p)` finds.
unfoldable pub update_last {ℓ} : {A : Type ℓ} → (A → Bool) → (A → A) → List A → List A
update_last p f [] = []
update_last p f (x ∷ xs) =
    let rest = update_last p f xs in if any p xs then x ∷ rest else if p x then f x ∷ xs else x ∷ xs

-- A write to what `iter_mut().find(p)` finds.
unfoldable pub update_first {ℓ} : {A : Type ℓ} → (A → Bool) → (A → A) → List A → List A
update_first p f [] = []
update_first p f (x ∷ xs) = let rest = update_first p f xs in if p x then f x ∷ xs else x ∷ rest

unfoldable pub push_call : CapabilityCall → ScriptNode → ScriptNode
push_call c n = record n { calls = n.calls ++ c ∷ [] }

-- The arm for `SessionEvent::Capability`.
unfoldable pub absorb_call : CapabilityCall → List ScriptNode → List ScriptNode
unfolding push_call update_last
absorb_call c scripts =
    if any is_script_running scripts
    then update_last is_script_running (push_call c) scripts
    else scripts
      ++ record { sequence = c.sequence; script = []; calls = c ∷ []; outcome = none } ∷ []

-- The arm for `SessionEvent::ScriptFinished`.
unfoldable pub absorb_run : ScriptRun → List ScriptNode → List ScriptNode
unfolding update_first
absorb_run run scripts =
    if any (λ n. n.sequence == run.sequence) scripts
    then update_first (λ n. n.sequence == run.sequence) (λ n. record n { outcome = some run })
        scripts
    else scripts
      ++ record { sequence = run.sequence; script = run.script; calls = []; outcome = some run }
        ∷ []

unfoldable pub final_status : SessionResult → TurnStatus
final_status (Record.ok o) = elim o.disposition [ send ↦ answered o.answer | suppress ↦ suppressed ]
final_status (Record.err e) = failed e

-- `Turn::absorb`.
unfoldable pub absorb : SessionEvent → Turn → Turn
unfolding absorb_call absorb_run absorb_usage final_status
absorb (script_started sequence script) t = record t {
  scripts =
      t.scripts ++ record { sequence = sequence; script = script; calls = []; outcome = none } ∷ [];
}
absorb (capability c) t = record t { scripts = absorb_call c t.scripts }
absorb (script_finished run) t = record t { scripts = absorb_run run t.scripts }
absorb (model_usage usage) t = record t { tokens = absorb_usage usage t.tokens }
absorb (progress _) t = t
absorb (shell_finished _) t = t
absorb (finished outcome) t = record t { status = final_status outcome }

-- Every call under every script of the turn, in the order drawn.
unfoldable pub all_calls : List ScriptNode → List CapabilityCall
all_calls [] = []
all_calls (n ∷ ns) = n.calls ++ all_calls ns

unfoldable pub sum_calls : List ScriptNode → ℕ
sum_calls [] = 0
sum_calls (n ∷ ns) = length n.calls + sum_calls ns

-- `Turn::capability_calls`.
unfoldable pub capability_calls : Turn → ℕ
unfolding sum_calls
capability_calls t = sum_calls t.scripts

abbrev pub is_denied : CallOutcome → Bool
is_denied (Record.CallOutcome.denied _) = true
is_denied _ = false

-- `Turn::denied_calls`.
unfoldable pub denied_calls : Turn → ℕ
unfolding all_calls
denied_calls t = length (filter (λ c. is_denied c.outcome) (all_calls t.scripts))
