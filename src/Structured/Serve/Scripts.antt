-- ===== src/Structured/Serve/Scripts.antt =====
-- The answer to a line that a script task runs.
use dekopon_console.Base.{
  ℕ, zero, suc, ◌≡◌, refl, ap, ◌∙◌, false, List, [], ◌∷◌, ◌++◌, none, some, Text, codes, length,
  get_elem?, arith, is_none, ◌==◌, if◌then◌else◌,
}
use dekopon_console.App.{App}
use dekopon_console.App.Flow.{finish_shell, start_shell}
use dekopon_console.App.Turns.{finish_shell-start_shell}
use dekopon_console.Assets.{Store}
use dekopon_console.Dispatch.{Host, World, Leg, opened, grants_nothing, is_shell, script}
use dekopon_console.Dispatch.Lines.{
  read_line, plain, run_shell, shell_in, run_line, run_started, run_opened,
}
use dekopon_console.Dispatch.Turns.{
  returned, dispatch, settle_turn, take_back, close_entry, is_pending, settled_app,
}
use dekopon_console.Record.{shell_finished}
use dekopon_console.Session.{AgentSession, bind_broker, reset}
use dekopon_console.Structured.Serve.{completed, drain, status_of, message_of}
use dekopon_console.Structured.Serve.Replies.{Prompt, answered, answer}
use dekopon_console.View.{ShellEntry}

get_elem?-snoc : {A : Type 0} (xs : List A) (x : A) → get_elem? (xs ++ x ∷ []) (length xs) ≡ some x
get_elem?-snoc [] x = refl
get_elem?-snoc (y ∷ xs) x = get_elem?-snoc xs x

is_pending-snoc :
    (xs : List ShellEntry) (x : ShellEntry) → is_pending (xs ++ x ∷ []) ≡ is_none x.exit_code
unfolding is_pending
is_pending-snoc [] x = refl
is_pending-snoc (y ∷ []) x = refl
is_pending-snoc (y ∷ z ∷ xs) x = is_pending-snoc (z ∷ xs) x

status_lem :
    (entry : ShellEntry) (code : ℕ)
    → entry.exit_code ≡ some code
    → status_of (some entry) ≡ (if code == 0 then codes "ok" else codes "error")
unfolding status_of
status_lem entry zero c = rw c refl
status_lem entry (suc code) c = rw c (ground arith)

module _ {H Blob Encoding : Type 0} where
  answer_lem :
      (p : Prompt H Blob Encoding) (line : Text) (w : World H Blob Encoding) (entry : ShellEntry)
      (code : ℕ)
      → (answered p line w).app.shell_history ≡ w.app.shell_history ++ entry ∷ []
      → entry.exit_code ≡ some code
      → answer p line w ≡ (if code == 0 then codes "ok" else codes "error", entry.output)
  unfolding answer message_of
  answer_lem p line w entry code h c =
      let notice = (answered p line w).app.notice in
      let found : get_elem? (answered p line w).app.shell_history (length w.app.shell_history)
          ≡ some entry =
        ap (λ es. get_elem? es (length w.app.shell_history)) h
        ∙ get_elem?-snoc w.app.shell_history entry in
      ap (λ o. (status_of o, message_of o notice)) found
      ∙ ap (λ s. (s, entry.output)) (status_lem entry code c)

  -- The console while a script task runs.
  abbrev started : Host H Blob Encoding → Leg → Text → World H Blob Encoding → World H Blob Encoding
  started h leg line w = record w {
    app = record (start_shell line w.app) { broker_trace = some leg.session_trace };
    stop = bind_broker h.new_handle (reset w.stop);
    running = some (script leg line w.history);
    history = h.new_history;
  }

  run_shell-script :
      (h : Host H Blob Encoding) (line : Text) (w : World H Blob Encoding) (a : AgentSession)
      (assets : Store Blob Encoding) (leg : Leg)
      → w.app.session ≡ some a
      → w.app.assets ≡ some assets
      → w.app.busy ≡ false
      → read_line line ≡ plain
      → h.open_agent w.options.subject a.agent w.options.scope ≡ opened leg
      → grants_nothing leg ≡ false
      → run_shell h line w ≡ started h leg line w
  unfolding run_shell shell_in run_line run_started run_opened start_shell
  run_shell-script h line w a assets leg e i b l o g = rw (e, b, l, i, o, g) refl

  close_entry-closed :
      (h : Host H Blob Encoding) (app : App (Store Blob Encoding))
      → is_pending app.shell_history ≡ false
      → close_entry h app ≡ app
  unfolding close_entry
  close_entry-closed h app e = rw e refl

  settled :
      (h : Host H Blob Encoding) (history : H) (entry : ShellEntry) (code : ℕ) (leg : Leg)
      (line : Text) (w : World H Blob Encoding)
      → entry.exit_code ≡ some code
      → let after =
          completed h
            (shell_finished entry ∷ [])
            (returned history)
            (some (script leg line w.history))
            (started h leg line w) in
        (after.app.shell_history ≡ w.app.shell_history ++ entry ∷ [])
        × (after.app.busy ≡ false)
        × (after.running ≡ none)
  unfolding completed settle_turn take_back settled_app is_shell drain finish_shell start_shell
  settled h history entry code leg line w c =
      let app = finish_shell entry (started h leg line w).app in
      let shown : app.shell_history ≡ w.app.shell_history ++ entry ∷ [] =
        finish_shell-start_shell line entry w.app in
      let closed =
        close_entry-closed h app
          (ap is_pending shown ∙ is_pending-snoc w.app.shell_history entry ∙ ap is_none c) in
      (ap (λ (a : App (Store Blob Encoding)). a.shell_history) closed ∙ shown, refl, refl)

  -- In an idle session, a line for the interpreter, on a leg that grants something, whose task reports
  -- one result with an exit code and gives its history back, is answered with the output of that
  -- result, "ok" just at exit code 0; the result is added to the shell's entries, nothing runs, and
  -- the console is not busy.
  pub answer-script :
      (p : Prompt H Blob Encoding) (line : Text) (w : World H Blob Encoding) (a : AgentSession)
      (assets : Store Blob Encoding) (leg : Leg) (entry : ShellEntry) (code : ℕ) (history : H)
      → w.app.session ≡ some a
      → w.app.assets ≡ some assets
      → w.app.busy ≡ false
      → read_line line ≡ plain
      → p.host.open_agent w.options.subject a.agent w.options.scope ≡ opened leg
      → grants_nothing leg ≡ false
      → p.events ≡ shell_finished entry ∷ []
      → p.joined ≡ returned history
      → entry.exit_code ≡ some code
      → (answer p line w ≡ (if code == 0 then codes "ok" else codes "error", entry.output))
        × ((answered p line w).app.shell_history ≡ w.app.shell_history ++ entry ∷ [])
        × ((answered p line w).app.busy ≡ false)
        × ((answered p line w).running ≡ none)
  unfolding answered dispatch
  answer-script p line w a assets leg entry code history e i b l o g ev j c =
      let ready = record w { app = record w.app { notice = none } } in
      let ran = run_shell-script p.host line ready a assets leg e i b l o g in
      let after = settled p.host history entry code leg line ready c in
      let same : answered p line w
          ≡ completed p.host (shell_finished entry ∷ []) (returned history)
              (some (script leg line w.history)) (started p.host leg line ready) =
        rw (ran, ev, j) refl in
      let shown = ap (λ (v : World H Blob Encoding). v.app.shell_history) same ∙ after.0 in
      (
        answer_lem p line w entry code shown c,
        shown,
        ap (λ (v : World H Blob Encoding). v.app.busy) same ∙ after.1,
        ap (λ (v : World H Blob Encoding). v.running) same ∙ after.2,
      )
