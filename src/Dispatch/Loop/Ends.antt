-- ===== src/Dispatch/Loop/Ends.antt =====
-- The console while its loop waits, and when it has returned.
use dekopon_console.Base.{
  ℕ, ◌≡◌, refl, List, [], ◌∷◌, Option, none, some, Text, if_cases, is_some, All,
}
use dekopon_console.App.{Agent, new}
use dekopon_console.App.Flow.{finish_shell}
use dekopon_console.Dispatch.{Host, World, Job, stop_job, stop_running}
use dekopon_console.Dispatch.Joined.{enter_agent-IsSettled, finish_turn-IsSettled}
use dekopon_console.Dispatch.Loop.{
  Event, key, resize, other, closed, failed, told, over, Pass, Looped, waiting, returned, sized,
  measured, heard, received, selected, passed, pass, go_on, drive, initial_world, started, run,
}
use dekopon_console.Dispatch.Reach.{press, Step-IsSettled}
use dekopon_console.Dispatch.Settled.{IsPaired, IsSettled}
use dekopon_console.Dispatch.Turns.{dispatch}
use dekopon_console.Record.{SessionEvent, progress, shell_finished}
use dekopon_console.Session.{ConsoleOptions, SmokeIdentity}

-- The events of a task that runs a line.
pub data IsOfShell : SessionEvent → Type 0 where
  of_progress : (message : Text) → IsOfShell (progress message)
  of_output : (entry : _) → IsOfShell (shell_finished entry)

abbrev pub TellsShell : {H Blob Encoding : Type 0} → Event H Blob Encoding → Type 0
TellsShell (told event) = IsOfShell event
TellsShell (key h line_count k) = Unit
TellsShell (resize width height) = Unit
TellsShell other = Unit
TellsShell closed = Unit
TellsShell (failed e) = Unit
TellsShell (over h joined) = Unit

module _ {H Blob Encoding : Type 0} where
  -- A waiting console is settled; one that has returned runs nothing, and was told to stop what ran.
  abbrev pub Holds : Looped (World H Blob Encoding) → Type 0
  Holds (waiting w) = IsSettled w
  Holds (returned e w) = (w.running ≡ none) × IsPaired w

  running-stop_job :
      (o : Option (Job H)) (w : World H Blob Encoding)
      → w.running ≡ o
      → (stop_job o w).running ≡ none
  unfolding stop_job
  running-stop_job none w e = e
  running-stop_job (some job) w e = refl

  pub running-stop_running : (w : World H Blob Encoding) → (stop_running w).running ≡ none
  unfolding stop_running
  running-stop_running w = running-stop_job w.running w refl

  stop_job-IsPaired :
      (o : Option (Job H)) (w : World H Blob Encoding) → IsPaired w → IsPaired (stop_job o w)
  unfolding stop_job
  stop_job-IsPaired none w p = p
  stop_job-IsPaired (some job) w p = p

  stop_running-IsPaired :
      (w : World H Blob Encoding)
      → IsPaired w
      → ((stop_running w).running ≡ none) × IsPaired (stop_running w)
  unfolding stop_running
  stop_running-IsPaired w p = (running-stop_running w, stop_job-IsPaired w.running w p)

  measured-IsSettled :
      (size : Option (ℕ × ℕ)) (w : World H Blob Encoding)
      → IsSettled w
      → IsSettled (measured size w)
  unfolding measured sized
  measured-IsSettled none w s = s
  measured-IsSettled (some (width, height)) w s = s

  received-IsSettled :
      (event : SessionEvent) (o : Option (Job H)) (w : World H Blob Encoding)
      → IsOfShell event
      → IsSettled w
      → IsSettled (received event o w)
  unfolding received heard finish_shell
  received-IsSettled event none w shell s = s
  received-IsSettled _ (some job) w (of_progress message) s = s
  received-IsSettled _ (some job) w (of_output entry) s = s

  selected-Holds :
      (event : Event H Blob Encoding) (w : World H Blob Encoding)
      → TellsShell event
      → IsSettled w
      → Holds (selected event w)
  unfolding selected sized
  selected-Holds (key h line_count k) w shell s = Step-IsSettled _ _ (press h line_count k w) s
  selected-Holds (resize width height) w shell s = s
  selected-Holds other w shell s = s
  selected-Holds closed w shell s = s
  selected-Holds (failed e) w shell s = stop_running-IsPaired w s.0
  selected-Holds (told event) w shell s = received-IsSettled event w.running w shell s
  selected-Holds (over h joined) w shell s = finish_turn-IsSettled h joined w s

  passed-Holds :
      (failure : Option Text) (event : Event H Blob Encoding) (w : World H Blob Encoding)
      → TellsShell event
      → IsSettled w
      → Holds (passed failure event w)
  unfolding passed
  passed-Holds (some e) event w shell s = stop_running-IsPaired w s.0
  passed-Holds none event w shell s =
      if_cases Holds w.app.should_quit (λ _. stop_running-IsPaired w s.0)
        (λ _. selected-Holds event w shell s)

  go_on-Holds :
      (more : World H Blob Encoding → Looped (World H Blob Encoding))
      (r : Looped (World H Blob Encoding))
      → ((w : World H Blob Encoding) → IsSettled w → Holds (more w))
      → Holds r
      → Holds (go_on more r)
  unfolding go_on
  go_on-Holds more (waiting w) keeps s = keeps w s
  go_on-Holds more (returned e w) keeps s = s

  pub drive-Holds :
      (ps : List (Pass H Blob Encoding)) (w : World H Blob Encoding)
      → All (λ p. TellsShell p.event) ps
      → IsSettled w
      → Holds (drive ps w)
  unfolding drive pass
  drive-Holds [] w shell s = s
  drive-Holds (p ∷ ps) w (shell, more) s =
      go_on-Holds (drive ps) (pass p w) (λ v. drive-Holds ps v more)
        (passed-Holds p.draw_failure p.event (measured p.size w) shell
          (measured-IsSettled p.size w s))

  started-IsSettled :
      (h : Host H Blob Encoding) (w : World H Blob Encoding) → IsSettled w → IsSettled (started h w)
  unfolding started dispatch
  started-IsSettled h w s =
      if_cases IsSettled (is_some w.options.initial_agent) (λ _. enter_agent-IsSettled h w s)
        (λ _. s)

  -- However the terminal and the broker answer, as long as the tasks that run are lines of the shell:
  -- a console that starts with no session and nothing running is busy exactly while a task runs,
  -- with an inventory exactly while it has a session, whenever the loop waits; and when `run` returns,
  -- no task is left running, whichever way it ends.
  pub run-Holds :
      (terminal : Option Text) (h : Host H Blob Encoding) (ps : List (Pass H Blob Encoding))
      (agents : List Agent) (subject socket path : Text) (options : ConsoleOptions)
      (identity : SmokeIdentity)
      → All (λ p. TellsShell p.event) ps
      → Holds (run terminal h ps (new agents subject socket path) options identity)
  unfolding run initial_world new
  run-Holds (some e) h ps agents subject socket path options identity shell = (refl, refl)
  run-Holds none h ps agents subject socket path options identity shell = drive-Holds ps _ shell (
      started-IsSettled h
        (initial_world h.new_history (new agents subject socket path) options identity)
        (refl, refl))
