-- ===== src/App/Select.antt =====
-- The cursors of the console: the highlighted agent and the call under the cursor.
use dekopon_console.Base.{
  ℕ, zero, suc, ◌+◌, ◌≤◌, ◌<◌, ◌≡◌, refl, sym, subst, true, List, [], ◌∷◌, Option, none, some,
  length, get_elem?, is_some, All, All-append, arith,
}
use mathlib.Core.Option.{some-injective}
use native.Mathlib.Nat.{zero-add}
use dekopon_console.App.{
  App, Agent, ℤ, pos, negsuc, clamped, move_selection, calls, cursor_call, call_at, turn_targets,
  script_targets, call_targets, highlighted,
}
use dekopon_console.Record.{CapabilityCall}
use dekopon_console.Transcript.Exchange.{Turn, ScriptNode}
use dekopon_console.View.{CallTarget}

get_elem?_lt {ℓ} :
    {A : Type ℓ} (xs : List A) (i : ℕ) → i < length xs → is_some (get_elem? xs i) ≡ true
get_elem?_lt [] i h = elim h [ ]
get_elem?_lt (x ∷ xs) zero h = refl
get_elem?_lt (x ∷ xs) (suc i) h = get_elem?_lt xs i (omega arith)

clamped-le : (last selected : ℕ) (delta : ℤ) → clamped last selected delta ≤ last
unfolding clamped
clamped-le last selected (pos n) = omega arith
clamped-le last selected (negsuc n) = omega arith

-- Wherever the cursor was moved from, if the catalog has an agent then one is highlighted after.
pub highlighted-move_selection :
    {Assets : Type 0} (delta : ℤ) (app : App Assets) (a : Agent) (rest : List Agent)
    → app.agents ≡ a ∷ rest
    → is_some (highlighted (move_selection delta app)) ≡ true
unfolding highlighted move_selection
highlighted-move_selection delta app a rest h =
    let bound = clamped-le (length rest) app.selected_agent delta in
    let next = clamped (length rest) app.selected_agent delta in
    rw (h, move_selection) (rw h (get_elem?_lt (a ∷ rest) next (omega arith)))

All-map {ℓ κ μ} :
    {A : Type ℓ} (P : A → Type κ) (Q : A → Type μ) (xs : List A)
    → ((a : A) → P a → Q a)
    → All P xs
    → All Q xs
All-map P Q [] f h = tt
All-map P Q (x ∷ xs) f h = (f x h.0, All-map P Q xs f h.1)

abbrev script_call : List ScriptNode → ℕ → ℕ → Option CapabilityCall
script_call [] s c = none
script_call (n ∷ ns) zero c = get_elem? n.calls c
script_call (n ∷ ns) (suc s) c = script_call ns s c

abbrev turn_call : List Turn → ℕ → ℕ → ℕ → Option CapabilityCall
turn_call [] t s c = none
turn_call (u ∷ us) zero s c = script_call u.scripts s c
turn_call (u ∷ us) (suc t) s c = turn_call us t s c

-- The target names a call of this script, turn or conversation, whose indices begin at `i`.
abbrev InScript : ℕ → ℕ → ℕ → List CapabilityCall → CallTarget → Type 0
InScript turn script i cs target =
    (target.0 ≡ turn)
    × (target.1 ≡ script)
    × ((k : ℕ) × (target.2 ≡ i + k) × (is_some (get_elem? cs k) ≡ true))

abbrev InTurn : ℕ → ℕ → List ScriptNode → CallTarget → Type 0
InTurn turn i ns target =
    (target.0 ≡ turn)
    × ((k : ℕ) × (target.1 ≡ i + k) × (is_some (script_call ns k target.2) ≡ true))

abbrev InTurns : ℕ → List Turn → CallTarget → Type 0
InTurns i ts target =
    (k : ℕ) × (target.0 ≡ i + k) × (is_some (turn_call ts k target.1 target.2) ≡ true)

call_targets-InScript :
    (turn script i : ℕ) (cs : List CapabilityCall)
    → All (InScript turn script i cs) (call_targets turn script i cs)
unfolding call_targets
call_targets-InScript turn script i [] = tt
call_targets-InScript turn script i (c ∷ cs) = (
  (refl, refl, (0, omega arith, refl)),
  All-map _ _ (call_targets turn script (suc i) cs)
      (λ t h. (h.0, h.1, (suc h.2.0, omega arith, h.2.2)))
      (call_targets-InScript turn script (suc i) cs),
)

script_targets-InTurn :
    (turn i : ℕ) (ns : List ScriptNode) → All (InTurn turn i ns) (script_targets turn i ns)
unfolding script_targets
script_targets-InTurn turn i [] = tt
script_targets-InTurn turn i (n ∷ ns) =
    All-append (InTurn turn i (n ∷ ns)) (call_targets turn i 0 n.calls)
      (script_targets turn (suc i) ns)
      (All-map _ _ (call_targets turn i 0 n.calls)
        (λ t h. (h.0, (0, omega arith, rw (h.2.1, zero-add) h.2.2)))
        (call_targets-InScript turn i 0 n.calls))
      (All-map _ _ (script_targets turn (suc i) ns) (λ t h. (h.0, (suc h.1.0, omega arith, h.1.2)))
        (script_targets-InTurn turn (suc i) ns))

turn_targets-InTurns : (i : ℕ) (ts : List Turn) → All (InTurns i ts) (turn_targets i ts)
unfolding turn_targets
turn_targets-InTurns i [] = tt
turn_targets-InTurns i (t ∷ ts) =
    All-append (InTurns i (t ∷ ts)) (script_targets i 0 t.scripts) (turn_targets (suc i) ts)
      (All-map _ _ (script_targets i 0 t.scripts)
        (λ t h. (0, omega arith, rw (h.1.1, zero-add) h.1.2)) (script_targets-InTurn i 0 t.scripts))
      (All-map _ _ (turn_targets (suc i) ts) (λ t h. (suc h.0, omega arith, h.2))
        (turn_targets-InTurns (suc i) ts))

script_call_lem :
    (ns : List ScriptNode) (s c : ℕ)
    → script_call ns s c ≡ elim (get_elem? ns s) [ none ↦ none | some n ↦ get_elem? n.calls c ]
script_call_lem [] s c = refl
script_call_lem (n ∷ ns) zero c = refl
script_call_lem (n ∷ ns) (suc s) c = script_call_lem ns s c

turn_call_lem :
    (ts : List Turn) (t s c : ℕ)
    → turn_call ts t s c
      ≡ elim (get_elem? ts t) [ none ↦ none | some u ↦ script_call u.scripts s c ]
turn_call_lem [] t s c = refl
turn_call_lem (u ∷ us) zero s c = refl
turn_call_lem (u ∷ us) (suc t) s c = turn_call_lem us t s c

module _ {Assets : Type 0} (app : App Assets) where
  call_at-turn_call :
      (target : CallTarget)
      → call_at target app ≡ turn_call app.transcript.turns target.0 target.1 target.2
  unfolding call_at
  call_at-turn_call (t, s, c) =
      rw (turn_call_lem app.transcript.turns t s c) (found (get_elem? app.transcript.turns t))
    where
      found :
          (o : Option Turn)
          → elim o as (λ x. Option CapabilityCall) [
            | none ↦ none
            | some u ↦ elim (get_elem? u.scripts s) [ none ↦ none | some n ↦ get_elem? n.calls c ]
          ]
            ≡ elim o as (λ x. Option CapabilityCall) [
              | none ↦ none
              | some u ↦ script_call u.scripts s c
            ]
      found none = refl
      found (some u) = sym (script_call_lem u.scripts s c)

  -- Every call that the cursor can stand on is in the transcript.
  pub calls-call_at : All (λ target. is_some (call_at target app) ≡ true) (calls app)
  unfolding calls
  calls-call_at =
      All-map _ _ (turn_targets 0 app.transcript.turns)
        (λ t h. rw (call_at-turn_call t, h.1, zero-add) h.2)
        (turn_targets-InTurns 0 app.transcript.turns)

get_elem?-All {ℓ κ} :
    {A : Type ℓ} (P : A → Type κ) (xs : List A) (i : ℕ) (a : A)
    → All P xs
    → get_elem? xs i ≡ some a
    → P a
get_elem?-All P [] i a h e = cc
get_elem?-All P (x ∷ xs) zero a h e = subst P (some-injective x a e) h.0
get_elem?-All P (x ∷ xs) (suc i) a h e = get_elem?-All P xs i a h.1 e

-- The call under the cursor is always found: what `calls` lists, `call_at` looks up.
pub cursor_call-call_at :
    {Assets : Type 0} (app : App Assets) (target : CallTarget)
    → cursor_call app ≡ some target
    → is_some (call_at target app) ≡ true
unfolding cursor_call
cursor_call-call_at app target h =
    get_elem?-All _ (calls app) app.selected_call target (calls-call_at app) h
