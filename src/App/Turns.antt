-- ===== src/App/Turns.antt =====
-- What submitting a turn, and running a shell line, do to the console.
use dekopon_console.Base.{
  ◌≡◌, ◌≢◌, refl, true, false, List, [], ◌∷◌, ◌++◌, Option, none, some, Text, codes, trim, arith,
  ◌⊎◌, inl, inr, Option-cases, Bool-cases, ap,
}
use dekopon_console.App.{App, say, update_pending}
use dekopon_console.App.Errors.{fail_shell, report, record_error}
use dekopon_console.App.Flow.{submit_turn, turn_refusal, start_shell, finish_shell}
use dekopon_console.Report.{ErrorReport, display}
use dekopon_console.Session.{AgentSession, is_empty}
use dekopon_console.Transcript.{open_turn}
use dekopon_console.View.{ShellEntry, refusal}

blank_of :
    (text : Text) {why : Text}
    → (elim text [ [] ↦ some (codes "nothing to send") | c ∷ cs ↦ none ]) ≡ some why
    → text ≡ []
blank_of [] h = refl
blank_of (c ∷ cs) h = cc

module _ {Assets : Type 0} where
  -- What a submitted prompt needs, and what it leaves.
  pub record IsSubmitted (app : App Assets) (prompt : Text) (after : App Assets) : Type 0 where
    pub hopped :
        (session : AgentSession) × (app.session ≡ some session) × (is_empty session ≡ false)
    pub idle : app.busy ≡ false
    pub typed : prompt ≡ trim app.composer
    pub not_blank : prompt ≢ []
    pub runs : after.busy ≡ true
    pub cleared : after.composer ≡ []
    pub opens : after.transcript ≡ (open_turn prompt app.transcript).0

  turn_refusal_lem :
      (app : App Assets)
      → turn_refusal app ≡ none
      → ((session : AgentSession) × (app.session ≡ some session) × (is_empty session ≡ false))
        × (app.busy ≡ false)
        × (trim app.composer ≢ [])
  unfolding turn_refusal
  turn_refusal_lem app h = elim (Option-cases app.session) [
    | inl e ↦ absurd (ground (arith))
    | inr (session, e) ↦ ((session, e, ground arith), ground arith, ground arith)
  ]

  -- What keeps a prompt from being sent: no agent, an agent without capabilities, a turn or a command
  -- that runs, or nothing typed but white space.
  abbrev pub IsUnready : App Assets → Type 0
  IsUnready app =
      (app.session ≡ none)
      ⊎ (((session : AgentSession) × (app.session ≡ some session) × (is_empty session ≡ true))
          ⊎ ((app.busy ≡ true) ⊎ (trim app.composer ≡ [])))

  turn_refusal-IsUnready :
      (app : App Assets) (why : Text) → turn_refusal app ≡ some why → IsUnready app
  unfolding turn_refusal
  turn_refusal-IsUnready app why h = elim (Option-cases app.session) [
    | inl e ↦ inl e
    | inr (session, e) ↦ elim (Bool-cases (is_empty session)) [
      | inl nothing ↦ inr (inl (session, e, nothing))
      | inr something ↦ elim (Bool-cases app.busy) [
        | inl runs ↦ inr (inr (inl runs))
        | inr idle ↦ inr (inr (inr (blank_of (trim app.composer) (rw (e, something, idle) at h))))
      ]
    ]
  ]

  -- Either an agent that was granted something is open, nothing runs and something is typed, and then
  -- the prompt is what is typed without the white space around it, and one turn is opened for it; or
  -- one of these fails, no prompt is sent, and nothing changes but the notice, which is a refusal.
  pub submit_turn_cases :
      (app : App Assets)
      → ((prompt : Text) × ((submit_turn app).0 ≡ some prompt)
          × IsSubmitted app prompt (submit_turn app).1)
        ⊎ (IsUnready app
            × ((submit_turn app).0 ≡ none)
            × ((why : Text) × ((submit_turn app).1 ≡ say (refusal why) app)))
  unfolding submit_turn
  submit_turn_cases app = elim (Option-cases (turn_refusal app)) [
    | inr (why, e) ↦
        let unready = turn_refusal-IsUnready app why e in
        rw (e, submit_turn) (inr (unready, refl, (why, refl)))
    | inl e ↦
        let (hopped, idle, typed) = turn_refusal_lem app e in
        rw (e, submit_turn)
          (inl (
            trim app.composer,
            refl,
            record {
              hopped = hopped;
              idle = idle;
              typed = refl;
              not_blank = typed;
              runs = refl;
              cleared = refl;
              opens = refl;
            },
          ))
  ]

update_pending-append :
    (f : ShellEntry → ShellEntry) (es : List ShellEntry) (e : ShellEntry)
    → e.exit_code ≡ none
    → update_pending f (es ++ e ∷ []) ≡ es ++ f e ∷ []
unfolding update_pending
update_pending-append f [] e h = rw h
update_pending-append f (d ∷ []) e h = rw h
update_pending-append f (d ∷ c ∷ es) e h = ap (λ l. d ∷ l) (update_pending-append f (c ∷ es) e h)

-- A line that was echoed gets its result in the place of the echo: one entry for each command.
pub finish_shell-start_shell :
    {Assets : Type 0} (line : Text) (entry : ShellEntry) (app : App Assets)
    → (finish_shell entry (start_shell line app)).shell_history ≡ app.shell_history ++ entry ∷ []
unfolding finish_shell start_shell
finish_shell-start_shell line entry app =
    update_pending-append (λ e. entry) app.shell_history _ refl

-- A line whose gate or task failed shows the full report in the place of the echo, with exit code 1,
-- and the same report is kept as the last error.
pub fail_shell-start_shell :
    {Assets : Type 0} (parse_agent : Text → Option Text) (line : Text) (r : ErrorReport)
    (app : App Assets)
    → let failed = fail_shell parse_agent r (start_shell line app) in
      (full : ErrorReport) × (failed.last_error ≡ some full)
      × (failed.shell_history
          ≡ app.shell_history
            ++ record { input = line; output = display full; exit_code = some 1; truncated = false }
              ∷ [])
unfolding fail_shell start_shell record_error
fail_shell-start_shell parse_agent line r app = (
  report parse_agent (start_shell line app) r,
  refl,
  update_pending-append _ app.shell_history _ refl,
)
