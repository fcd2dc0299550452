-- ===== src/Transcript/Calls.antt =====
-- No call that a session reports is lost, altered or invented by `Turn::absorb`.
use mathlib.Core.List.{Perm, perm_middle, perm_append_singleton}
use mathlib.Core.List.Perm
use dekopon_console.Base.{
  ◌≤◌, ◌≡◌, refl, sym, ap, ◌∙◌, Bool, true, List, [], ◌∷◌, ◌++◌, some, append_assoc, append-nil,
  length, length-append, any, filter, Bool-cases, inl, inr, arith, ◌==◌,
}
use dekopon_console.Record.{
  CapabilityCall, ScriptRun, SessionEvent, script_started, capability, script_finished, model_usage,
  progress, shell_finished, finished,
}
use dekopon_console.Transcript.Exchange.{
  ScriptNode, is_script_running, Turn, absorb_call, absorb_run, absorb, all_calls, push_call,
  update_last, update_first, capability_calls, sum_calls, denied_calls, is_denied,
}

all_calls-append : (xs ys : List ScriptNode) → all_calls (xs ++ ys) ≡ all_calls xs ++ all_calls ys
unfolding all_calls
all_calls-append [] ys = refl
all_calls-append (x ∷ xs) ys =
    ap (λ l. x.calls ++ l) (all_calls-append xs ys)
    ∙ sym (append_assoc x.calls (all_calls xs) (all_calls ys))

-- The calls that an event brings.
abbrev pub reported : SessionEvent → List CapabilityCall
reported (capability c) = c ∷ []
reported _ = []

-- One call more, in some place.
push_call-perm :
    (c : CapabilityCall) (ns : List ScriptNode)
    → any is_script_running ns ≡ true
    → Perm (all_calls (update_last is_script_running (push_call c) ns)) (c ∷ all_calls ns)
unfolding all_calls update_last push_call
push_call-perm c [] h = cc
push_call-perm c (n ∷ ns) h = elim (Bool-cases (any is_script_running ns)) [
  | inl later ↦
      let rest = Perm.append_left n.calls (push_call-perm c ns later) in
      rw later (Perm.trans rest (perm_middle n.calls (all_calls ns)))
  | inr last ↦
      let now : is_script_running n ≡ true = ground arith in
      rw (last, now)
        (rw (append_assoc n.calls (c ∷ []) (all_calls ns)) (perm_middle n.calls (all_calls ns)))
]

update_first-all_calls :
    (run : ScriptRun) (ns : List ScriptNode)
    → all_calls
        (update_first (λ n. n.sequence == run.sequence) (λ n. record n { outcome = some run }) ns)
      ≡ all_calls ns
unfolding all_calls update_first
update_first-all_calls run [] = refl
update_first-all_calls run (n ∷ ns) = ground (arith, update_first-all_calls run ns)

absorb_run-all_calls :
    (run : ScriptRun) (ns : List ScriptNode) → all_calls (absorb_run run ns) ≡ all_calls ns
unfolding absorb_run all_calls
absorb_run-all_calls run ns = elim (Bool-cases (any (λ n. n.sequence == run.sequence) ns)) [
  | inl h ↦ rw h (update_first-all_calls run ns)
  | inr h ↦ rw h (all_calls-append ns _ ∙ append-nil (all_calls ns))
]

absorb_call-perm :
    (c : CapabilityCall) (ns : List ScriptNode)
    → Perm (all_calls (absorb_call c ns)) (c ∷ all_calls ns)
unfolding absorb_call all_calls
absorb_call-perm c ns = elim (Bool-cases (any is_script_running ns)) [
  | inl h ↦ rw h (push_call-perm c ns h)
  | inr h ↦ rw (h, all_calls-append ns) (perm_append_singleton c (all_calls ns))
]

-- After any event the turn's scripts hold the calls that they held, and the call that the event
-- reports if it reports one, in whatever script: none is lost, doubled or altered.
pub absorb-perm :
    (e : SessionEvent) (t : Turn)
    → Perm (all_calls (absorb e t).scripts) (reported e ++ all_calls t.scripts)
unfolding absorb all_calls
absorb-perm (script_started n s) t =
    rw (all_calls-append t.scripts) (rw (append-nil (all_calls t.scripts)) Perm.rfl)
absorb-perm (capability c) t = absorb_call-perm c t.scripts
absorb-perm (script_finished run) t = rw (absorb_run-all_calls run t.scripts) Perm.rfl
absorb-perm (model_usage u) t = Perm.rfl
absorb-perm (progress s) t = Perm.rfl
absorb-perm (shell_finished s) t = Perm.rfl
absorb-perm (finished r) t = Perm.rfl

sum_calls-length : (ns : List ScriptNode) → sum_calls ns ≡ length (all_calls ns)
unfolding sum_calls all_calls
sum_calls-length [] = refl
sum_calls-length (n ∷ ns) = omega (arith, sum_calls-length ns, length-append n.calls (all_calls ns))

length-filter-le {ℓ} : {A : Type ℓ} (p : A → Bool) (xs : List A) → length (filter p xs) ≤ length xs
length-filter-le p [] = omega arith
length-filter-le p (x ∷ xs) = ground (arith, length-filter-le p xs)

-- The refused calls are among the calls counted.
pub denied_calls-le : (t : Turn) → denied_calls t ≤ capability_calls t
unfolding denied_calls capability_calls
denied_calls-le t =
    rw (sum_calls-length t.scripts)
      (length-filter-le (λ c. is_denied c.outcome) (all_calls t.scripts))
