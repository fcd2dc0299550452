-- ===== src/Dispatch/Entered.antt =====
-- Where `Action::Enter` leaves the console: as it was, with no agent, or with the one the broker granted.
use dekopon_console.Base.{
  ◌≡◌, refl, false, [], Option, none, some, Text, codes, if_lem, ◌⊎◌, inl, inr, Bool-cases, same,
}
use dekopon_console.App.{App, highlighted_id, say}
use dekopon_console.App.Errors.{add_trace, report, raise, record_error, show_error}
use dekopon_console.App.Flow.{enter}
use dekopon_console.Assets
use dekopon_console.Assets.{Store}
use dekopon_console.Dispatch.{
  is_unauthenticated, session_refusal, empty_surface, Host, World, Leg, Opening, opened, refused,
  grants_nothing, session_of, clear_agent_context,
}
use dekopon_console.Dispatch.Enter.{
  Choice, turned_away, unbound, bound, choose, adopt, prepared, hopped, open_under, chosen,
  on_agent, enter_agent,
}
use dekopon_console.Session.{ConsoleOptions}
use dekopon_console.Transcript
use dekopon_console.View.{Notice, refusal, error, composing}
use dekopon_console.Report.{
  ErrorReport, Failure, add_fact, fact, from_error, from_message, lookup, with_note,
}

module _ {H Blob Encoding : Type 0} (h : Host H Blob Encoding) where
  -- Nothing is left of what an agent said or was told.
  abbrev pub IsBlank : World H Blob Encoding → Type 0
  IsBlank w =
      (w.app.transcript ≡ Transcript.new)
      × (w.app.shell_history ≡ [])
      × (w.app.shell_top ≡ none)
      × (w.app.composer ≡ [])
      × (w.history ≡ h.new_history)
      × (w.app.subject ≡ w.options.subject)

  -- No agent is open and no trace is kept, and there is an error to show, which is shown and names no
  -- trace.
  abbrev pub IsRefused : World H Blob Encoding → Type 0
  IsRefused w =
      IsBlank w
      × (w.app.session ≡ none)
      × (w.app.assets ≡ none)
      × (w.app.broker_trace ≡ none)
      × (w.app.mode ≡ error)
      × (r : ErrorReport) × (w.app.last_error ≡ some r)
      × (fact (codes "broker trace") r ≡ none)

  -- The session is what the broker granted to the current subject, agent and scope, which is
  -- something; the trace is its own, and the operator types into a shell of its own.
  abbrev pub IsEntered : Text → World H Blob Encoding → Type 0
  IsEntered agent w =
      (leg : Leg) × IsBlank w
      × (h.open_agent w.options.subject agent w.options.scope ≡ opened leg)
      × (grants_nothing leg ≡ false)
      × (w.app.session ≡ some (session_of agent leg))
      × (w.app.assets ≡ some Assets.empty)
      × (w.app.broker_trace ≡ some leg.session_trace)
      × (w.app.mode ≡ composing)
      × (w.app.revealed ≡ [])

  -- What `clear_agent_context` leaves.
  abbrev IsCleared : World H Blob Encoding → Type 0
  IsCleared w =
      IsBlank w × (w.app.session ≡ none) × (w.app.assets ≡ none) × (w.app.broker_trace ≡ none)

  report-untraced :
      (app : App (Store Blob Encoding)) (r : ErrorReport)
      → r.context ≡ []
      → app.broker_trace ≡ none
      → fact (codes "broker trace") (report h.parse_agent app r) ≡ none
  unfolding report add_trace add_fact fact lookup codes same
  report-untraced app r c e = rw (c, e) refl

  refusal-untraced :
      (operation : Text) (f : Failure) (app : App (Store Blob Encoding))
      → app.broker_trace ≡ none
      → fact (codes "broker trace") (session_refusal h app operation f) ≡ none
  unfolding session_refusal with_note fact from_error
  refusal-untraced operation f app e =
      let r = report h.parse_agent app (from_error operation f) in
      let plain = report-untraced app (from_error operation f) refl e in
      if_lem (λ (q : ErrorReport). fact (codes "broker trace") q ≡ none) (is_unauthenticated h r)
        plain plain

  surface-untraced :
      (operation : Text) (app : App (Store Blob Encoding))
      → app.broker_trace ≡ none
      → fact (codes "broker trace") (empty_surface h app operation) ≡ none
  unfolding empty_surface with_note fact from_message
  surface-untraced operation app e = report-untraced app _ refl e

  hopped_cases :
      (agent : Text) (o : Opening) (w : World H Blob Encoding)
      → h.open_agent w.options.subject agent w.options.scope ≡ o
      → IsCleared w
      → IsRefused (hopped h agent o w) ⊎ IsEntered agent (hopped h agent o w)
  unfolding hopped raise record_error show_error enter session_of
  hopped_cases agent (refused f) w e (blank, s, a, t) =
      inl (blank, s, a, t, refl, _, refl, refusal-untraced (codes "open broker session") f w.app t)
  hopped_cases agent (opened leg) w e (blank, s, a, t) = elim (Bool-cases (grants_nothing leg)) [
    | inl nothing ↦ rw nothing (
        inl (blank, s, a, t, refl, _, refl, surface-untraced (codes "open broker session") w.app t))
    | inr something ↦ rw something (
        inr (
          leg,
          (refl, refl, refl, refl, blank.4, blank.5),
          e,
          something,
          refl,
          refl,
          refl,
          refl,
          refl,
        ))
  ]

  open_under_cases :
      (agent : Text) (o : ConsoleOptions) (w : World H Blob Encoding)
      → IsRefused (open_under h agent o w) ⊎ IsEntered agent (open_under h agent o w)
  unfolding open_under prepared clear_agent_context
  open_under_cases agent o w =
      hopped_cases agent _ (prepared h o w) refl
        ((refl, refl, refl, refl, refl, refl), refl, refl, refl)

  -- The console as it was, but for a notice.
  abbrev pub IsKept : World H Blob Encoding → World H Blob Encoding → Type 0
  IsKept w after = (n : Notice) × (after ≡ record w { app = say n w.app })

  abbrev pub IsHop : World H Blob Encoding → World H Blob Encoding → Type 0
  IsHop w after =
      IsKept w after
      ⊎ ((agent : Text) × (highlighted_id h.parse_agent w.app ≡ some agent)
          × (IsRefused after ⊎ IsEntered agent after))

  chosen_cases :
      (agent : Text) (c : Choice) (w : World H Blob Encoding)
      → highlighted_id h.parse_agent w.app ≡ some agent
      → IsHop w (chosen h agent c w)
  unfolding chosen
  chosen_cases agent (turned_away why) w e = inl (refusal why, refl)
  chosen_cases agent unbound w e = inr (agent, e, open_under_cases agent w.options w)
  chosen_cases agent (bound p) w e = inr (
    agent,
    e,
    open_under_cases agent (adopt p w.options)
        (record w { app = record w.app { profile = some p.name } }),
  )

  on_agent_cases :
      (o : Option Text) (w : World H Blob Encoding)
      → highlighted_id h.parse_agent w.app ≡ o
      → IsHop w (on_agent h o w)
  unfolding on_agent
  on_agent_cases none w e = inl (refusal (codes "the catalog contains no agents"), refl)
  on_agent_cases (some agent) w e = chosen_cases agent (choose w.options agent) w e

  -- Entering an agent changes nothing but the notice; or it opens the highlighted agent, and then the
  -- transcript, the shell with what is typed and its place, the history, the session, its inventory
  -- and its trace of the agent before are gone. Either no agent is open, and an error is shown that
  -- names no trace; or the session is what the broker granted to the new subject for the highlighted
  -- agent, which is not nothing, with its own trace, an empty inventory and nothing revealed.
  pub enter_agent_cases : (w : World H Blob Encoding) → IsHop w (enter_agent h w)
  unfolding enter_agent
  enter_agent_cases w =
      if_lem (IsHop w) w.app.busy
        (inl (refusal (codes "stop the current turn before switching agents"), refl))
        (on_agent_cases (highlighted_id h.parse_agent w.app) w refl)
