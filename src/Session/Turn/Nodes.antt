-- ===== src/Session/Turn/Nodes.antt =====
-- The writes of `Turn::absorb` to the last of the scripts.
use dekopon_console.Base.{
  ℕ, ◌≡◌, refl, Bool, true, false, List, [], ◌∷◌, ◌++◌, none, some, Text, any, All, ◌==◌, ◌<◌,
  arith, sym, subst,
}
use dekopon_console.Record.{
  CapabilityCall, ScriptRun, SessionEvent, script_started, capability, script_finished, model_usage,
  progress, shell_finished, finished,
}
use dekopon_console.Transcript.Exchange.{
  ScriptNode, Turn, is_script_running, update_last, update_first, push_call, absorb_call,
  absorb_run, absorb,
}

module _ {A : Type 0} (p : A → Bool) where
  any_snoc : (xs : List A) (x : A) → p x ≡ true → any p (xs ++ x ∷ []) ≡ true
  any_snoc [] x h = ground (arith, h)
  any_snoc (y ∷ ys) x h = ground (arith, any_snoc ys x h)

  update_last_snoc :
      (f : A → A) (xs : List A) (x : A)
      → p x ≡ true
      → update_last p f (xs ++ x ∷ []) ≡ xs ++ f x ∷ []
  unfolding update_last
  update_last_snoc f [] x h = ground (arith, h)
  update_last_snoc f (y ∷ ys) x h = ground (arith, update_last_snoc f ys x h, any_snoc ys x h)

  update_first_snoc :
      (f : A → A) (xs : List A) (x : A)
      → any p xs ≡ false
      → p x ≡ true
      → update_first p f (xs ++ x ∷ []) ≡ xs ++ f x ∷ []
  unfolding update_first
  update_first_snoc f [] x n h = ground (arith, h)
  update_first_snoc f (y ∷ ys) x n h = ground (arith, update_first_snoc f ys x)

-- A script that has not finished.
abbrev pub open_node : ℕ → Text → List CapabilityCall → ScriptNode
open_node sequence script calls = record {
  sequence = sequence;
  script = script;
  calls = calls;
  outcome = none;
}

-- What an event makes of the scripts of a turn.
abbrev pub scripts_after : SessionEvent → List ScriptNode → List ScriptNode
scripts_after (script_started sequence script) ns = ns ++ open_node sequence script [] ∷ []
scripts_after (capability c) ns = absorb_call c ns
scripts_after (script_finished run) ns = absorb_run run ns
scripts_after (model_usage usage) ns = ns
scripts_after (progress _) ns = ns
scripts_after (shell_finished _) ns = ns
scripts_after (finished _) ns = ns

pub absorb-scripts :
    (e : SessionEvent) (t : Turn) → (absorb e t).scripts ≡ scripts_after e t.scripts
unfolding absorb
absorb-scripts (script_started _ _) t = refl
absorb-scripts (capability _) t = refl
absorb-scripts (script_finished _) t = refl
absorb-scripts (model_usage _) t = refl
absorb-scripts (progress _) t = refl
absorb-scripts (shell_finished _) t = refl
absorb-scripts (finished _) t = refl

-- A call goes to the script that has not finished, at the end.
pub absorb_call_open :
    (c : CapabilityCall) (ns : List ScriptNode) (k : ℕ) (script : Text) (cs : List CapabilityCall)
    → absorb_call c (ns ++ open_node k script cs ∷ [])
      ≡ ns ++ open_node k script (cs ++ c ∷ []) ∷ []
unfolding absorb_call push_call
absorb_call_open c ns k script cs =
    rw (any_snoc is_script_running ns (open_node k script cs) refl)
      (update_last_snoc is_script_running (push_call c) ns (open_node k script cs) refl)

-- No script has the number of a new one.
abbrev pub Below : ℕ → ScriptNode → Type 0
Below k n = n.sequence < k

pub Below-any :
    (k : ℕ) (ns : List ScriptNode) → All (Below k) ns → any (λ n. n.sequence == k) ns ≡ false
Below-any k [] h = refl
Below-any k (n ∷ ns) h = ground (arith, Below-any k ns h.1)

-- A script's end is noted at that script.
pub absorb_run_open :
    (run : ScriptRun) (ns : List ScriptNode) (k : ℕ) (script : Text) (cs : List CapabilityCall)
    → run.sequence ≡ k
    → All (Below k) ns
    → absorb_run run (ns ++ open_node k script cs ∷ [])
      ≡ ns ++ record (open_node k script cs) { outcome = some run } ∷ []
unfolding absorb_run
absorb_run_open run ns k script cs e below =
    let p : ScriptNode → Bool = λ n. n.sequence == run.sequence in
    let fresh : any p ns ≡ false =
      subst (λ j. any (λ (n : ScriptNode). n.sequence == j) ns ≡ false) (sym e)
        (Below-any k ns below) in
    let here : p (open_node k script cs) ≡ true = ground (arith, e) in
    rw (any_snoc p ns (open_node k script cs) here) (
      update_first_snoc p (λ n. record n { outcome = some run }) ns (open_node k script cs) fresh
        here)
