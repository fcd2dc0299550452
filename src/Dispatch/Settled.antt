-- ===== src/Dispatch/Settled.antt =====
-- The console is busy exactly while a task runs, and has an inventory exactly while it has a session.
use dekopon_console.Base.{
  ℕ, ◌≡◌, refl, sym, ap, ◌∙◌, true, false, Option, none, some, Text, if_lem, if_cases, is_some,
}
use dekopon_console.App.Errors.{raise, record_error, show_error, fail_shell}
use dekopon_console.App.Flow.{start_shell, finish_shell, on_session_event, is_finished}
use dekopon_console.Assets.{Store}
use dekopon_console.Dispatch.{
  Host, World, Leg, Opening, opened, refused, grants_nothing, refuse_turn,
}
use dekopon_console.Dispatch.Lines.{
  Line, smoke, unknown_smoke, asset, unknown_asset, plain, local_entry, record_smoke, attach_asset,
  run_opened, run_started, run_line, shell_in, run_shell, failed_line, unquoted, read_line,
}
use dekopon_console.Dispatch.Turns.{
  catalog_agent, run_turn, spawned, turn_in, turn_opened, start_turn, refused_turn,
}
use dekopon_console.App.{Agent}
use dekopon_console.Session.{AgentSession}
use dekopon_console.Report.{Failure, ErrorReport}

module _ {H Blob Encoding : Type 0} where
  -- A session comes with its inventory.
  abbrev pub IsPaired : World H Blob Encoding → Type 0
  IsPaired w = is_some w.app.session ≡ is_some w.app.assets

  abbrev pub IsSettled : World H Blob Encoding → Type 0
  IsSettled w = IsPaired w × (w.app.busy ≡ is_some w.running)

  local_entry-IsSettled :
      (input output : Text) (code : ℕ) (w : World H Blob Encoding)
      → IsPaired w
      → is_some w.running ≡ false
      → IsSettled (local_entry input output code w)
  unfolding local_entry start_shell finish_shell
  local_entry-IsSettled input output code w p r = (p, sym r)

module _ {H Blob Encoding : Type 0} (h : Host H Blob Encoding) where
  failed_line-IsSettled :
      (r : ErrorReport) (w : World H Blob Encoding)
      → IsPaired w
      → is_some w.running ≡ false
      → IsSettled (failed_line h r w)
  unfolding failed_line fail_shell record_error
  failed_line-IsSettled r w p n = (p, sym n)

  record_smoke-IsSettled :
      (line agent : Text) (o : Option Text) (w : World H Blob Encoding)
      → IsSettled w
      → is_some w.running ≡ false
      → IsSettled (record_smoke h line agent o w)
  unfolding record_smoke
  record_smoke-IsSettled line agent none w s n = s
  record_smoke-IsSettled line agent (some text) w s n = local_entry-IsSettled _ _ _ _ s.0 n

  attach_asset-IsSettled :
      (command : Text) (o : Option (Store Blob Encoding)) (w : World H Blob Encoding)
      → w.app.assets ≡ o
      → IsSettled w
      → is_some w.running ≡ false
      → IsSettled (attach_asset h command o w)
  unfolding attach_asset
  attach_asset-IsSettled command none w e s n = s
  attach_asset-IsSettled command (some t) w e s n =
      local_entry-IsSettled _ _ _ _ (s.0 ∙ ap is_some e) n

  run_opened-IsSettled :
      (line : Text) (o : Opening) (w : World H Blob Encoding)
      → IsPaired w
      → w.app.busy ≡ true
      → is_some w.running ≡ false
      → IsSettled (run_opened h line o w)
  unfolding run_opened
  run_opened-IsSettled line (refused f) w p b n = failed_line-IsSettled _ w p n
  run_opened-IsSettled line (opened leg) w p b n =
      if_lem IsSettled (grants_nothing leg) (failed_line-IsSettled _ w p n) (p, b)

  run_started-IsSettled :
      (line agent : Text) (o : Option (Store Blob Encoding)) (w : World H Blob Encoding)
      → IsPaired w
      → w.app.busy ≡ true
      → is_some w.running ≡ false
      → is_some o ≡ true
      → IsSettled (run_started h line agent o w)
  unfolding run_started
  run_started-IsSettled line agent none w p b n i = cc
  run_started-IsSettled line agent (some assets) w p b n i = run_opened-IsSettled line _ w p b n

  run_line-IsSettled :
      (line agent : Text) (l : Line) (w : World H Blob Encoding)
      → IsSettled w
      → is_some w.app.session ≡ true
      → is_some w.running ≡ false
      → IsSettled (run_line h line agent l w)
  unfolding run_line start_shell
  run_line-IsSettled line agent (smoke text) w s i n =
      if_lem IsSettled w.options.smoke_conversation
        (record_smoke-IsSettled line agent (unquoted text) w s n) s
  run_line-IsSettled line agent unknown_smoke w s i n = s
  run_line-IsSettled line agent (asset command) w s i n =
      attach_asset-IsSettled command w.app.assets w refl s n
  run_line-IsSettled line agent unknown_asset w s i n = s
  run_line-IsSettled line agent plain w s i n =
      run_started-IsSettled line agent _ _ s.0 refl n (sym s.0 ∙ i)

  shell_in-IsSettled :
      (line : Text) (o : Option AgentSession) (w : World H Blob Encoding)
      → w.app.session ≡ o
      → IsSettled w
      → IsSettled (shell_in h line o w)
  unfolding shell_in
  shell_in-IsSettled line none w e s = s
  shell_in-IsSettled line (some session) w e s =
      if_cases IsSettled w.app.busy (λ busy. s)
        (λ idle.
          run_line-IsSettled line session.agent (read_line line) w s (ap is_some e)
            (sym s.1 ∙ idle))

  -- A line leaves the console settled.
  pub run_shell-IsSettled :
      (line : Text) (w : World H Blob Encoding) → IsSettled w → IsSettled (run_shell h line w)
  unfolding run_shell
  run_shell-IsSettled line w s = shell_in-IsSettled line w.app.session w refl s

  -- The session's agent stands in the catalog.
  abbrev pub IsCatalogued : Option AgentSession → World H Blob Encoding → Type 0
  IsCatalogued none w = Unit
  IsCatalogued (some session) w = is_some (catalog_agent session.agent w.app) ≡ true

  spawned-IsSettled :
      (prompt : Text) (leg : Leg) (instructed : Option Text) (o : Option Agent)
      (w : World H Blob Encoding)
      → is_some o ≡ true
      → IsPaired w
      → w.app.busy ≡ true
      → IsSettled (spawned h prompt leg instructed o w)
  unfolding spawned
  spawned-IsSettled prompt leg instructed none w c p b = cc
  spawned-IsSettled prompt leg instructed (some agent) w c p b = (p, b)

  start_turn-IsSettled :
      (prompt : Text) (session : AgentSession) (leg : Leg) (o : Option Failure)
      (w : World H Blob Encoding)
      → is_some (catalog_agent session.agent w.app) ≡ true
      → IsPaired w
      → w.app.busy ≡ true
      → is_some w.running ≡ false
      → IsSettled (start_turn h prompt session leg o w)
  unfolding start_turn refused_turn refuse_turn on_session_event is_finished raise record_error
      show_error
  start_turn-IsSettled prompt session leg (some f) w c p b n = (p, sym n)
  start_turn-IsSettled prompt session leg none w c p b n =
      spawned-IsSettled prompt leg _ (catalog_agent session.agent w.app) _ c p b

  turn_opened-IsSettled :
      (prompt : Text) (session : AgentSession) (o : Opening) (w : World H Blob Encoding)
      → is_some (catalog_agent session.agent w.app) ≡ true
      → IsPaired w
      → w.app.busy ≡ true
      → is_some w.running ≡ false
      → IsSettled (turn_opened h prompt session o w)
  unfolding turn_opened refused_turn refuse_turn on_session_event is_finished raise record_error
      show_error catalog_agent
  turn_opened-IsSettled prompt session (refused f) w c p b n = (p, sym n)
  turn_opened-IsSettled prompt session (opened leg) w c p b n =
      if_lem IsSettled (grants_nothing leg) (p, sym n)
        (start_turn-IsSettled prompt session leg (h.build_model w.options)
          (record w { app = record w.app { broker_trace = some leg.session_trace } }) c p b n)

  turn_in-IsSettled :
      (prompt : Text) (o : Option AgentSession) (a : Option (Store Blob Encoding))
      (w : World H Blob Encoding)
      → IsCatalogued o w
      → IsPaired w
      → is_some o ≡ true
      → is_some o ≡ is_some a
      → w.app.busy ≡ true
      → is_some w.running ≡ false
      → IsSettled (turn_in h prompt o a w)
  unfolding turn_in
  turn_in-IsSettled prompt none a w c p i e b n = cc
  turn_in-IsSettled prompt (some session) none w c p i e b n = cc
  turn_in-IsSettled prompt (some session) (some assets) w c p i e b n =
      turn_opened-IsSettled prompt session _ w c p b n

  -- A prompt taken by `submit_turn`, which makes the console busy with nothing running yet, leaves
  -- it settled, if the session's agent is in the catalog: either its task runs, or the refusal has
  -- made the console idle again.
  run_turn-IsSettled :
      (prompt : Text) (w : World H Blob Encoding)
      → IsCatalogued w.app.session w
      → IsPaired w
      → is_some w.app.session ≡ true
      → w.app.busy ≡ true
      → is_some w.running ≡ false
      → IsSettled (run_turn h prompt w)
  unfolding run_turn
  run_turn-IsSettled prompt w c p i b n =
      turn_in-IsSettled prompt w.app.session w.app.assets w c p i p b n
