-- ===== src/Session/Turn/Rebuilt.antt =====
-- The transcript rebuilt from a turn's events is what the turn did.
use dekopon_console.Base.{
  ℕ, suc, ◌+◌, ◌<◌, ◌≤◌, ◌≡◌, refl, sym, ap, ◌∙◌, true, List, [], ◌∷◌, ◌++◌, Option, none, some,
  Text, map, All, All-append, arith, append_assoc, append-nil, subst,
}
use dekopon_console.Record.{
  ScriptRun, SessionEvent, script_started, script_finished, model_usage, progress, finished,
}
use dekopon_console.Record.Recorder.{
  Channel, Recorder, sequence_end, take_sequence, report, ScriptOutcome, run_of, record_script,
  recording, recording_runtime, observe, ProgressEvent, message, reported, emit_progress,
}
use dekopon_console.Record.Seam.{Lib, Invoker, ask_all}
use dekopon_console.Session.Turn.{
  Act, runs, uses, tells, Play, Inputs, shell_runtime, act, act_all, played, result_of,
}
use dekopon_console.Session.Turn.Asked.{
  absorb_all, absorb_all_snoc, emit_open, Holds, report-Holds, take_sequence-Holds, Seen, seen_call,
  calls_made, count_calls, ask_all-IsAsked,
}
use dekopon_console.Session.Turn.Nodes.{open_node, Below, absorb_run_open}
use dekopon_console.Transcript.Exchange.{ScriptNode, Turn, opened, final_status, absorb}

-- A script that was run: its text, its calls with their results, and what it ended with.
abbrev pub Performed : Type 0
Performed = Text × List Seen × Option ScriptOutcome

abbrev pub outcome_of : ScriptRun → ScriptOutcome
outcome_of run = record {
  output = run.output;
  exit_code = run.exit_code;
  truncated = run.truncated;
  capability_calls = run.capability_calls;
  steps = run.steps;
}

abbrev pub outcome_shown : Option ScriptRun → Option ScriptOutcome
outcome_shown none = none
outcome_shown (some run) = some (outcome_of run)

-- What the transcript shows of a script.
abbrev pub shown : ScriptNode → Performed
shown n = (n.script, map seen_call n.calls, outcome_shown n.outcome)

module _ (L : Lib) {S H : Type 0} (play : Play L S H) (i : Invoker L S) where
  -- The state after a script, by the invoker alone.
  abbrev pub after_script : Text → S → S
  after_script script s = (ask_all L i (play.requests script s) s).1

  -- The scripts that were run, read off the invoker and the interpreter with nothing recorded.
  unfoldable pub performed : List Act → S → List Performed
  performed [] s = []
  performed (runs script ∷ rest) s =
      (
        script,
        calls_made L play.elapsed i (play.requests script s) s,
        some (play.script_outcome script s),
      )
      ∷ performed rest (after_script script s)
  performed (_ ∷ rest) s = performed rest s

  -- The scripts and the calls, counted.
  unfoldable pub ordinals : List Act → S → ℕ
  ordinals [] s = 0
  ordinals (runs script ∷ rest) s =
      suc (count_calls L play.elapsed i (play.requests script s))
      + ordinals rest (after_script script s)
  ordinals (_ ∷ rest) s = ordinals rest s

  Below-le : (k j : ℕ) (ns : List ScriptNode) → k ≤ j → All (Below k) ns → All (Below j) ns
  Below-le k j [] le h = tt
  Below-le k j (n ∷ ns) le h = (omega arith, Below-le k j ns le h.1)

  record IsRun (start : Turn) (script : Text) (s : S) (w : S × Recorder) (ns : List ScriptNode)
      (k j : ℕ) : Type 0 where
    node : ScriptNode
    holds : Holds start w.1 (ns ++ node ∷ []) j
    numbered : node.sequence ≡ k
    same_node : shown node ≡ (
      script,
      calls_made L play.elapsed i (play.requests script s) s,
      some (play.script_outcome script s),
    )
    same_state : w.0 ≡ after_script script s

  runs-IsRun :
      (start : Turn) (script : Text) (s : S) (r : Recorder) (ns : List ScriptNode) (k j : ℕ)
      → Holds start r ns k
      → All (Below k) ns
      → suc k + count_calls L play.elapsed i (play.requests script s) ≡ j
      → j < sequence_end
      → IsRun start script s (act L play i (runs script) (s, r)) ns k j
  unfolding act recording_runtime record_script shell_runtime run_of take_sequence
  runs-IsRun start script s r ns k j h below e low =
      let ready = take_sequence-Holds start r ns k h (omega (arith, e, low)) in
      let begun =
        report-Holds start (script_started (take_sequence r).0 script) (take_sequence r).1 ns
          (suc k) ready in
      let asked =
        ask_all-IsAsked L play.elapsed i start (play.requests script s) s _ ns (take_sequence r).0
          script [] (suc k) j begun e low in
      let n = (take_sequence r).0 in
      let after =
        ask_all L (recording L play.elapsed i) (play.requests script s)
          (s, report (script_started n script) (take_sequence r).1) in
      let run = run_of n script (play.script_outcome script s) (play.elapsed s after.1.0) in
      let ended = report-Holds start (script_finished run) after.1.1 _ j asked.holds in
      record {
        node = record (open_node n script ([] ++ asked.told)) { outcome = some run };
        holds =
            rw
              (absorb_run_open run ns n script ([] ++ asked.told) refl
                (subst (λ m. All (Below m) ns) (sym h.counts) below))
              at ended;
        numbered = h.counts;
        same_node = ap (λ l. (script, l, some (play.script_outcome script s))) asked.same_calls;
        same_state = asked.same_state;
      }

  record IsPlayed (start : Turn) (acts : List Act) (s : S) (w : S × Recorder) (ns : List ScriptNode)
      (j : ℕ) : Type 0 where
    nodes : List ScriptNode
    holds : Holds start w.1 (ns ++ nodes) j
    same_nodes : map shown nodes ≡ performed acts s

  reported-Holds :
      (start : Turn) (text : Option Text) (r : Recorder) (ns : List ScriptNode) (k : ℕ)
      → Holds start r ns k
      → Holds start (reported text r) ns k
  reported-Holds start none r ns k h = h
  reported-Holds start (some text) r ns k h = report-Holds start (progress text) r ns k h

  emit_progress-Holds :
      (start : Turn) (e : ProgressEvent) (r : Recorder) (ns : List ScriptNode) (k : ℕ)
      → Holds start r ns k
      → Holds start (emit_progress e r) ns k
  unfolding emit_progress
  emit_progress-Holds start e r ns k h = reported-Holds start (message e) r ns k h

  acts-IsPlayed :
      (start : Turn) (acts : List Act) (s : S) (r : Recorder) (ns : List ScriptNode) (k j : ℕ)
      → Holds start r ns k
      → All (Below k) ns
      → k + ordinals acts s ≡ j
      → j < sequence_end
      → IsPlayed start acts s (act_all L play i acts (s, r)) ns j
  unfolding act_all act performed ordinals observe
  acts-IsPlayed start [] s r ns k j h below e low =
      let k≡j : k ≡ j = omega (arith, e) in
      record { nodes = []; holds = rw (append-nil ns, ← k≡j) h; same_nodes = refl }
  acts-IsPlayed start (runs script ∷ rest) s r ns k j h below e low =
      let m = suc k + count_calls L play.elapsed i (play.requests script s) in
      let first = runs-IsRun start script s r ns k m h below refl (omega (arith, e, low)) in
      let next = act L play i (runs script) (s, r) in
      let grown : All (Below m) (ns ++ first.node ∷ []) =
        All-append (Below m) ns (first.node ∷ []) (Below-le k m ns (omega arith) below)
          (omega (arith, first.numbered), tt) in
      let ih =
        acts-IsPlayed start rest next.0 next.1 (ns ++ first.node ∷ []) m j first.holds grown
          (omega (arith, e, ap (ordinals rest) first.same_state)) low in
      record {
        nodes = first.node ∷ ih.nodes;
        holds = rw (append_assoc ns (first.node ∷ []) ih.nodes) at ih.holds;
        same_nodes =
            ap (λ l. shown first.node ∷ l) (ih.same_nodes ∙ ap (performed rest) first.same_state)
            ∙ ap (λ (x : Performed). x ∷ performed rest (after_script script s)) first.same_node;
      }
  acts-IsPlayed start (uses usage ∷ rest) s r ns k j h below e low =
      let ih =
        acts-IsPlayed start rest s (observe usage r) ns k j
          (report-Holds start (model_usage usage) r ns k h) below e low in
      record { nodes = ih.nodes; holds = ih.holds; same_nodes = ih.same_nodes }
  acts-IsPlayed start (tells event ∷ rest) s r ns k j h below e low =
      let ih =
        acts-IsPlayed start rest s (emit_progress event r) ns k j
          (emit_progress-Holds start event r ns k h) below e low in
      record { nodes = ih.nodes; holds = ih.holds; same_nodes = ih.same_nodes }

  -- When the receiver listens and there are fewer scripts and calls than the counter has values, a
  -- turn that is opened when the task starts and absorbs every event that the task sends shows
  -- exactly the scripts that were run, in order, each with its own calls, their results and its
  -- outcome, as the interpreter and the invoker give them with nothing recorded; and its status is
  -- the one of the turn's result.
  pub played-absorb :
      (inputs : Inputs) (history : H) (s : S) (ch : Channel) (ordinal : ℕ) (prompt : Text)
      → ch.is_open ≡ true
      → ch.sent ≡ []
      → ordinals (play.acts inputs history s) s < sequence_end
      → (map shown
            (absorb_all
              (played L play i inputs history s ch).1.1.sent
              (opened ordinal prompt)).scripts
          ≡ performed (play.acts inputs history s) s)
        × ((absorb_all
              (played L play i inputs history s ch).1.1.sent
              (opened ordinal prompt)).status
            ≡ final_status (result_of (play.ending inputs history s)))
  unfolding played absorb opened
  played-absorb inputs history s ch ordinal prompt listening empty low =
      let start : Holds (opened ordinal prompt) (record { channel = ch; sequence = 0 }) [] 0 =
        record { listens = listening; shows = rw empty refl; counts = refl } in
      let all =
        acts-IsPlayed (opened ordinal prompt) (play.acts inputs history s) s
          (record { channel = ch; sequence = 0 }) [] 0 (ordinals (play.acts inputs history s) s)
          start tt (omega arith) low in
      let last = finished (result_of (play.ending inputs history s)) in
      let after =
        act_all L play i (play.acts inputs history s) (s, record { channel = ch; sequence = 0 }) in
      let ended = report-Holds (opened ordinal prompt) last after.1 _ _ all.holds in
      (
        ap (map shown) ended.shows ∙ all.same_nodes,
        ap (λ (es : List SessionEvent). (absorb_all es (opened ordinal prompt)).status)
              (emit_open last after.1.channel all.holds.listens)
            ∙ ap (λ (t : Turn). t.status)
                (absorb_all_snoc after.1.channel.sent last (opened ordinal prompt)),
      )
