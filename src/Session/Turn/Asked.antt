-- ===== src/Session/Turn/Asked.antt =====
-- What the recorder holds while a script runs: the calls that its invoker was asked for.
use dekopon_console.Base.{
  ℕ, suc, ◌+◌, ◌<◌, ◌≡◌, refl, ap, ◌∙◌, true, List, [], ◌∷◌, ◌++◌, Text, map, arith, append_assoc,
  append-nil,
}
use dekopon_console.Record.{CallOutcome, of_result, CapabilityCall, SessionEvent, capability}
use dekopon_console.Record.Recorder.{
  Channel, emit, Recorder, sequence_end, take_sequence, report, record_invoke, recording,
}
use dekopon_console.Record.Seam.{Lib, Invoker, Request, ask, ask_all}
use dekopon_console.Redact.Value.{Value}
use dekopon_console.Session.Turn.Nodes.{open_node, scripts_after, absorb-scripts, absorb_call_open}
use dekopon_console.Transcript.Exchange.{ScriptNode, Turn, absorb}

-- The turn after events.
abbrev pub absorb_all : List SessionEvent → Turn → Turn
absorb_all [] t = t
absorb_all (e ∷ es) t = absorb_all es (absorb e t)

pub absorb_all_snoc :
    (es : List SessionEvent) (e : SessionEvent) (t : Turn)
    → absorb_all (es ++ e ∷ []) t ≡ absorb e (absorb_all es t)
absorb_all_snoc [] e t = refl
absorb_all_snoc (d ∷ es) e t = absorb_all_snoc es e (absorb d t)

-- The receiver listens, the turn shows these scripts, and this is the next number.
pub record Holds (start : Turn) (r : Recorder) (ns : List ScriptNode) (k : ℕ) : Type 0 where
  pub listens : r.channel.is_open ≡ true
  pub shows : (absorb_all r.channel.sent start).scripts ≡ ns
  pub counts : r.sequence ≡ k

pub emit_open :
    (e : SessionEvent) (ch : Channel) → ch.is_open ≡ true → (emit e ch).sent ≡ ch.sent ++ e ∷ []
unfolding emit
emit_open e ch h = ground arith

pub report-Holds :
    (start : Turn) (e : SessionEvent) (r : Recorder) (ns : List ScriptNode) (k : ℕ)
    → Holds start r ns k
    → Holds start (report e r) (scripts_after e ns) k
unfolding emit
report-Holds start e r ns k h = record {
  listens = ground arith;
  shows =
      ap (λ (es : List SessionEvent). (absorb_all es start).scripts)
        (emit_open e r.channel h.listens)
      ∙ ap (λ (t : Turn). t.scripts) (absorb_all_snoc r.channel.sent e start)
      ∙ absorb-scripts e (absorb_all r.channel.sent start)
      ∙ ap (scripts_after e) h.shows;
  counts = h.counts;
}

pub take_sequence-Holds :
    (start : Turn) (r : Recorder) (ns : List ScriptNode) (k : ℕ)
    → Holds start r ns k
    → suc k < sequence_end
    → Holds start (take_sequence r).1 ns (suc k)
unfolding take_sequence
take_sequence-Holds start r ns k h low = record {
  listens = h.listens;
  shows = h.shows;
  counts = omega (arith, h.counts, low);
}

-- What the console can say of a call.
abbrev pub Seen : Type 0
Seen = Text × Value × CallOutcome

abbrev pub seen_call : CapabilityCall → Seen
seen_call c = (c.capability, c.input, c.outcome)

module _ (L : Lib) {S : Type 0} (elapsed : S → S → ℕ) (i : Invoker L S) where
  -- The calls among requests, with their results, as the invoker itself answers them.
  unfoldable pub calls_made : List (Request L) → S → List Seen
  calls_made [] s = []
  calls_made (Request.invoke p streams ∷ qs) s =
      (p.capability, p.input, of_result (i.invoke p streams s).0)
      ∷ calls_made qs (i.invoke p streams s).1
  calls_made (q ∷ qs) s = calls_made qs (ask L i q s).1

  -- How many there are.
  unfoldable pub count_calls : List (Request L) → ℕ
  count_calls [] = 0
  count_calls (Request.invoke p streams ∷ qs) = suc (count_calls qs)
  count_calls (q ∷ qs) = count_calls qs

  pub record IsAsked (start : Turn) (qs : List (Request L)) (s : S) (w : S × Recorder)
      (ns : List ScriptNode) (n : ℕ) (script : Text) (cs : List CapabilityCall) (k : ℕ)
      : Type 0 where
    pub told : List CapabilityCall
    pub holds : Holds start w.1 (ns ++ open_node n script (cs ++ told) ∷ []) k
    pub same_calls : map seen_call told ≡ calls_made qs s
    pub same_state : w.0 ≡ (ask_all L i qs s).1

  pub ask_all-IsAsked :
      (start : Turn) (qs : List (Request L)) (s : S) (r : Recorder) (ns : List ScriptNode) (n : ℕ)
      (script : Text) (cs : List CapabilityCall) (k j : ℕ)
      → Holds start r (ns ++ open_node n script cs ∷ []) k
      → k + count_calls qs ≡ j
      → j < sequence_end
      → IsAsked start qs s (ask_all L (recording L elapsed i) qs (s, r)).1 ns n script cs j
  unfolding ask_all calls_made count_calls recording record_invoke ask
  ask_all-IsAsked start [] s r ns n script cs k j h e low =
      let k≡j : k ≡ j = omega (arith, e) in
      record {
        told = [];
        holds = rw (append-nil cs, ← k≡j) h;
        same_calls = refl;
        same_state = refl;
      }
  ask_all-IsAsked start (Request.invoke p streams ∷ qs) s r ns n script cs k j h e low =
      let (result, after) = i.invoke p streams s in
      let c : CapabilityCall = record {
        sequence = (take_sequence r).0;
        capability = p.capability;
        input = p.input;
        outcome = of_result result;
        elapsed = elapsed s after;
      } in
      let ready = take_sequence-Holds start r _ k h (omega (arith, e, low)) in
      let told = report-Holds start (capability c) (take_sequence r).1 _ (suc k) ready in
      let ih =
        ask_all-IsAsked start qs after (report (capability c) (take_sequence r).1) ns n script
          (cs ++ c ∷ []) (suc k) j (rw (absorb_call_open c ns n script cs) at told)
          (omega (arith, e)) low in
      record {
        told = c ∷ ih.told;
        holds = rw (append_assoc cs (c ∷ []) ih.told) at ih.holds;
        same_calls = ap (λ l. (p.capability, p.input, of_result result) ∷ l) ih.same_calls;
        same_state = ih.same_state;
      }
  ask_all-IsAsked start (q ∷ qs) s r ns n script cs k j h e low =
      let ih = ask_all-IsAsked start qs (ask L i q s).1 r ns n script cs k j h e low in
      record {
        told = ih.told;
        holds = ih.holds;
        same_calls = ih.same_calls;
        same_state = ih.same_state;
      }
