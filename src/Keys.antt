-- ===== src/Keys.antt =====
-- `on_key` and `on_composing_key` of crates/dekopon-tui/src/run.rs: one key press as a change of the
-- console and of Stop, and possibly an action. `line_count` is as in App/Pages.antt. A modifier set is
-- whether Control, Shift or any other modifier is held.
pub mod Actions
pub mod Frame
use dekopon_console.Base.{
  ℕ, suc, ◌+◌, ◌-◌, Bool, true, false, ◌&&◌, ◌||◌, not, List, [], ◌∷◌, ◌++◌, Option, none, some,
  Text, codes, trim, min, max, ◌==◌, if◌then◌else◌, saturating_add, u16_max, is_some,
}
use dekopon_console.App.{App, ℤ, pos, negsuc, say, move_selection}
use dekopon_console.App.Errors.{show_error}
use dekopon_console.App.Flow.{request_stop}
use dekopon_console.App.Pages.{page, home, error_max_scroll}
use dekopon_console.Session.{StopFlag, request}
use dekopon_console.View.{
  Pane, agents, detail, shell, next, previous, Mode, browsing, composing, help, error, refusal,
}

pub data KeyCode : Type 0 where
  char : ℕ → KeyCode
  enter esc tab back_tab backspace up down page_up page_down home_key end_key other : KeyCode

pub record Modifiers : Type 0 where
  pub control : Bool
  pub shift : Bool
  pub more : Bool

pub record KeyEvent : Type 0 where
  pub code : KeyCode
  pub modifiers : Modifiers

-- `Action`.
pub data Action : Type 0 where
  enter_agent : Action
  run_turn : Text → Action
  run_shell : Text → Action

-- `modifiers.contains(CONTROL) && code == Char('c')`.
unfoldable pub is_interrupt : KeyEvent → Bool
is_interrupt k = elim k.code [ char c ↦ k.modifiers.control && c == b'c' | _ ↦ false ]

-- `modifiers.is_empty() || modifiers == SHIFT`.
is_typing : Modifiers → Bool
is_typing m = not m.control && not m.more

-- `String::pop`.
pop : Text → Text
pop [] = []
pop (c ∷ []) = []
pop (c ∷ d ∷ s) = c ∷ pop (d ∷ s)

-- What a key press returns.
abbrev pub Pressed : Type 0 → Type 0
Pressed Assets = Option Action × App Assets × StopFlag

module _ {Assets : Type 0} where
  -- `KeyCode::Esc if app.request_stop() => stop.request()`, and the arm after it.
  stop_or : (App Assets → App Assets) → App Assets → StopFlag → Pressed Assets
  stop_or otherwise app stop =
      let (stopping, after) = request_stop app in
      if stopping then (none, after, request stop) else (none, otherwise after, stop)

  -- The `Enter` arm of the composer.
  submit_line : App Assets → StopFlag → Pressed Assets
  submit_line app stop = elim app.pane [
    | shell ↦
        (if app.busy
          then (
            none,
            say (refusal (codes "another command is running; press Esc to stop it")) app,
            stop,
          )
          else elim app.session [
            | none ↦ (none, say (refusal (codes "hop into an agent first")) app, stop)
            | some session ↦ elim (trim app.composer) [
              | [] ↦ (none, app, stop)
              | c ∷ line ↦ (
                some (run_shell (c ∷ line)),
                record app { composer = []; shell_top = none },
                stop,
              )
            ]
          ])
    | _ ↦ (none, app, stop)
  ]

  typed : KeyCode → Modifiers → App Assets → StopFlag → Pressed Assets
  unfolding pop is_typing
  typed esc m app stop = stop_or (λ a. record a { mode = browsing; composer = [] }) app stop
  typed tab m app stop = (none, record app { mode = browsing; pane = next app.pane }, stop)
  typed back_tab m app stop = (none, record app { mode = browsing; pane = previous app.pane }, stop)
  typed backspace m app stop = (none, record app { composer = pop app.composer }, stop)
  typed (char c) m app stop =
      (none, (if is_typing m then record app { composer = app.composer ++ c ∷ [] } else app), stop)
  typed enter m app stop = submit_line app stop
  typed _ m app stop = (none, app, stop)

  -- `on_composing_key`.
  unfoldable pub on_composing_key : KeyEvent → App Assets → StopFlag → Pressed Assets
  unfolding typed stop_or submit_line
  on_composing_key k app stop = typed k.code k.modifiers app stop

  -- The letters of the browsing mode.
  letter : ℕ → App Assets → App Assets
  letter c app =
      if c == b'q'
      then record app { should_quit = true }
      else if c == b'?'
      then record app { mode = help }
      else if c == b'e'
      then show_error app
      else if c == b'j'
      then move_selection (pos 1) app
      else if c == b'k'
      then move_selection (negsuc 0) app
      else if c == b'i'
      then elim app.pane [ shell ↦ record app { mode = composing } | _ ↦ app ]
      else app

  browsed : KeyCode → App Assets → StopFlag → Pressed Assets
  browsed (char c) app stop = (none, letter c app, stop)
  browsed tab app stop = (none, record app { pane = next app.pane }, stop)
  browsed back_tab app stop = (none, record app { pane = previous app.pane }, stop)
  browsed down app stop = (none, move_selection (pos 1) app, stop)
  browsed up app stop = (none, move_selection (negsuc 0) app, stop)
  browsed enter app stop = (elim app.pane [ agents ↦ some enter_agent | _ ↦ none ], app, stop)
  browsed esc app stop = stop_or (λ a. a) app stop
  browsed _ app stop = (none, app, stop)

  -- The keys of the browsing mode, the last `match` of `on_key`.
  unfoldable pub on_browsing_key : KeyEvent → App Assets → StopFlag → Pressed Assets
  unfolding browsed letter stop_or
  on_browsing_key k app stop = browsed k.code app stop

module _ {Assets : Type 0} (line_count : List Text → ℕ → ℕ) where
  scroll_to : ℕ → App Assets → App Assets
  scroll_to n app = record app { error_scroll = min n (error_max_scroll line_count app) }

  close : App Assets → App Assets
  close app = record app { mode = browsing }

  -- The keys of the error report.
  unfoldable pub on_error_key : KeyCode → App Assets → App Assets
  unfolding scroll_to close
  on_error_key (char c) app =
      if c == b'j'
      then scroll_to (saturating_add u16_max app.error_scroll 1) app
      else if c == b'k'
      then scroll_to (app.error_scroll - 1) app
      else if c == b'q' || c == b'e'
      then close app
      else app
  on_error_key down app = scroll_to (saturating_add u16_max app.error_scroll 1) app
  on_error_key up app = scroll_to (app.error_scroll - 1) app
  on_error_key page_down app =
      scroll_to (saturating_add u16_max app.error_scroll (max app.shell_viewport.1 1)) app
  on_error_key page_up app = scroll_to (app.error_scroll - max app.shell_viewport.1 1) app
  on_error_key home_key app = scroll_to 0 app
  on_error_key esc app = close app
  on_error_key enter app = close app
  on_error_key _ app = app

  -- The keys that page the shell, in any mode below it.
  paging : KeyCode → Pane → App Assets → Option (App Assets)
  paging page_up shell app = some (page line_count true app)
  paging page_down shell app = some (page line_count false app)
  paging home_key shell app = some (home app)
  paging end_key shell app = some (record app { shell_top = none })
  paging _ _ app = none

  -- What the mode makes of a key that pages nothing.
  unpaged : Mode → KeyEvent → App Assets → StopFlag → Pressed Assets
  unpaged composing k app stop = on_composing_key k app stop
  unpaged _ k app stop = on_browsing_key k app stop

  or_paged : Option (App Assets) → KeyEvent → App Assets → StopFlag → Pressed Assets
  unfolding unpaged
  or_paged (some paged) k app stop = (none, paged, stop)
  or_paged none k app stop = unpaged app.mode k app stop

  by_mode : Mode → KeyEvent → App Assets → StopFlag → Pressed Assets
  unfolding paging or_paged
  by_mode help k app stop = (none, record app { mode = browsing }, stop)
  by_mode error k app stop = (none, on_error_key k.code app, stop)
  by_mode _ k app stop = or_paged (paging k.code app.pane app) k app stop

  -- `on_key`.
  unfoldable pub on_key : KeyEvent → App Assets → StopFlag → Pressed Assets
  unfolding by_mode
  on_key k app stop =
      if is_interrupt k
      then (none, record app { should_quit = true }, stop)
      else by_mode app.mode k app stop
