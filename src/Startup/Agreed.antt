-- ===== src/Startup/Agreed.antt =====
-- What holds of a console that `execute` opens: how it is entered, and on which terminal.
use dekopon_console.Base.{
  ◌≡◌, sym, ap, ◌∙◌, subst, true, false, Option, some, Text, if◌then◌else◌, is_some,
}
use dekopon_console.App.{App}
use dekopon_console.Assets.{ok}
use dekopon_console.Session.{OperatorProfile, ConsoleOptions}
use dekopon_console.Startup.{Cli}
use dekopon_console.Startup.Launch.{Machine, Launch, options_of, selected_index, app_of, execute}
use dekopon_console.Startup.Selection.{field_of}
use dekopon_console.Startup.Entry.{Agrees, selection-Agrees}
use dekopon_console.Startup.Started.{IsAt, position_lem, Opened, execute-Opened}

module _ {Assets : Type 0} where
  Opened-Agrees :
      (machine : Machine) (cli : Cli) (l : Launch Assets) (agent : Text) (o : Opened machine cli l)
      → l.options.initial_agent ≡ some agent
      → Agrees o.initial l.options agent
        × (l.app.profile ≡ field_of (λ (p : OperatorProfile). some p.name) o.initial)
        × IsAt agent l.app.agents l.app.selected_agent
        × (l.app.subject ≡ l.options.subject)
  unfolding app_of selected_index options_of
  Opened-Agrees machine cli l agent o start =
      let options = options_of cli o.document o.initial o.subject in
      let started : options.initial_agent ≡ some agent =
        ap (λ (x : ConsoleOptions). x.initial_agent) (sym o.same_options) ∙ start in
      let same =
        selection-Agrees cli o.document o.initial o.subject agent o.are_profiles o.chosen
          o.has_subject started in
      (
        subst (λ x. Agrees o.initial x agent) (sym o.same_options) same,
        ap (λ (a : App Assets). a.profile) o.same_app,
        subst (λ (a : App Assets). IsAt agent a.agents a.selected_agent) (sym o.same_app)
            (position_lem agent o.catalog.agents o.index
              (ap (λ n. selected_index n o.catalog.agents) (sym started) ∙ o.at_index)),
        ap (λ (a : App Assets). a.subject) o.same_app
            ∙ ap (λ (x : ConsoleOptions). x.subject) (sym o.same_options),
      )

  -- If a console is opened and it starts at an agent, then that agent is the highlighted one, and
  -- entering it is not turned away: it takes the profile that the console was started with, which the
  -- console shows and which changes none of the options, or, where no profiles were authored, none.
  pub execute-Agrees :
      (machine : Machine) (cli : Cli) (l : Launch Assets) (agent : Text)
      → execute machine cli ≡ ok (some l)
      → l.options.initial_agent ≡ some agent
      → (initial : Option OperatorProfile) × Agrees initial l.options agent
        × (l.app.profile ≡ field_of (λ (p : OperatorProfile). some p.name) initial)
        × IsAt agent l.app.agents l.app.selected_agent
        × (l.app.subject ≡ l.options.subject)
  execute-Agrees machine cli l agent h start =
      let o = execute-Opened machine cli l h in
      let same = Opened-Agrees machine cli l agent o start in
      (o.initial, same.0, same.1, same.2, same.3)

  abbrev pub Fits : Machine → Cli → Launch Assets → Type 0
  Fits machine cli l =
      if cli.structured
      then (machine.stdin_tty ≡ false)
        × ((machine.stdout_tty ≡ false) × (is_some l.options.initial_agent ≡ true))
      else (machine.stdin_tty ≡ true) × (machine.stdout_tty ≡ true)
