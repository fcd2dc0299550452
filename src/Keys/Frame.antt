-- ===== src/Keys/Frame.antt =====
-- What no key press touches.
use dekopon_console.Base.{ℕ, ◌≡◌, refl, List, [], Option, none, some, Text, if_lem, arith}
use dekopon_console.App.{App, ℤ, pos, negsuc, move_selection}
use dekopon_console.App.Errors.{show_error}
use dekopon_console.App.Flow.{request_stop}
use dekopon_console.App.Pages.{page, home}
use dekopon_console.Keys.{
  KeyCode, char, enter, esc, up, down, page_up, page_down, home_key, end_key, KeyEvent, Modifiers,
  Pressed, is_interrupt, on_key, on_composing_key, on_browsing_key, on_error_key, typed, browsed,
  unpaged, or_paged, by_mode, submit_line, stop_or, paging, letter, scroll_to, close,
}
use dekopon_console.Session.{StopFlag}
use dekopon_console.View.{Mode, browsing, composing, help, error, Pane, shell}

-- The session, its inventory and whether the console is busy.
abbrev pub Keeps : {Assets : Type 0} → App Assets → App Assets → Type 0
Keeps app after =
    (after.session ≡ app.session) × (after.assets ≡ app.assets) × (after.busy ≡ app.busy)

module _ {Assets : Type 0} (app : App Assets) where
  move_selection-Keeps : (d : ℤ) → Keeps app (move_selection d app)
  unfolding move_selection
  move_selection-Keeps d = ground arith

  show_error-Keeps : Keeps app (show_error app)
  unfolding show_error
  show_error-Keeps = ground arith

  letter-Keeps : (c : ℕ) → Keeps app (letter c app)
  unfolding letter
  letter-Keeps c =
      ground
        (arith, show_error-Keeps, move_selection-Keeps (pos 1), move_selection-Keeps (negsuc 0))

module _ {Assets : Type 0} (app : App Assets) (stop : StopFlag) where
  stop_or-Keeps :
      (f : App Assets → App Assets) → Keeps app (f app) → Keeps app (stop_or f app stop).1
  unfolding stop_or request_stop
  stop_or-Keeps f h = ground arith

  submit_line-Keeps : Keeps app (submit_line app stop).1
  unfolding submit_line
  submit_line-Keeps = ground arith

  typed-Keeps : (c : KeyCode) (m : Modifiers) → Keeps app (typed c m app stop).1
  unfolding typed
  typed-Keeps enter m = submit_line-Keeps
  typed-Keeps esc m =
      stop_or-Keeps (λ x. record x { mode = browsing; composer = [] }) (refl, refl, refl)
  typed-Keeps (char c) m = ground arith
  typed-Keeps _ m = (refl, refl, refl)

  browsed-Keeps : (c : KeyCode) → Keeps app (browsed c app stop).1
  unfolding browsed
  browsed-Keeps (char c) = letter-Keeps app c
  browsed-Keeps down = move_selection-Keeps app _
  browsed-Keeps up = move_selection-Keeps app _
  browsed-Keeps esc = stop_or-Keeps (λ x. x) (refl, refl, refl)
  browsed-Keeps _ = (refl, refl, refl)

module _ {Assets : Type 0} (line_count : List Text → ℕ → ℕ) where
  on_error_key-Keeps : (c : KeyCode) (app : App Assets) → Keeps app (on_error_key line_count c app)
  unfolding on_error_key scroll_to close
  on_error_key-Keeps (char c) app = ground arith
  on_error_key-Keeps _ app = (refl, refl, refl)

  paging-Keeps :
      (c : KeyCode) (p : Pane) (app after : App Assets)
      → paging line_count c p app ≡ some after
      → Keeps app after
  unfolding paging page home
  paging-Keeps page_up shell app after e = ground arith
  paging-Keeps page_down shell app after e = ground arith
  paging-Keeps home_key shell app after e = ground arith
  paging-Keeps end_key shell app after e = ground arith
  paging-Keeps _ _ app after e = ground arith

  unpaged-Keeps :
      (m : Mode) (k : KeyEvent) (app : App Assets) (stop : StopFlag)
      → Keeps app (unpaged line_count m k app stop).1
  unfolding unpaged on_composing_key on_browsing_key
  unpaged-Keeps composing k app stop = typed-Keeps app stop k.code k.modifiers
  unpaged-Keeps browsing k app stop = browsed-Keeps app stop k.code
  unpaged-Keeps help k app stop = browsed-Keeps app stop k.code
  unpaged-Keeps error k app stop = browsed-Keeps app stop k.code

  or_paged-Keeps :
      (o : Option (App Assets)) (k : KeyEvent) (app : App Assets) (stop : StopFlag)
      → paging line_count k.code app.pane app ≡ o
      → Keeps app (or_paged line_count o k app stop).1
  unfolding or_paged unpaged on_composing_key on_browsing_key
  or_paged-Keeps (some after) k app stop e = paging-Keeps k.code app.pane app after e
  or_paged-Keeps none k app stop e = unpaged-Keeps app.mode k app stop

  by_mode-Keeps :
      (m : Mode) (k : KeyEvent) (app : App Assets) (stop : StopFlag)
      → Keeps app (by_mode line_count m k app stop).1
  unfolding by_mode
  by_mode-Keeps help k app stop = (refl, refl, refl)
  by_mode-Keeps error k app stop = on_error_key-Keeps k.code app
  by_mode-Keeps browsing k app stop = or_paged-Keeps _ k app stop refl
  by_mode-Keeps composing k app stop = or_paged-Keeps _ k app stop refl

  -- No key press opens or closes a session, changes its inventory or makes the console busy or idle:
  -- only the action that it returns can.
  pub on_key-Keeps :
      (k : KeyEvent) (app : App Assets) (stop : StopFlag)
      → Keeps app (on_key line_count k app stop).1
  unfolding on_key
  on_key-Keeps k app stop =
      if_lem (λ (r : Pressed Assets). Keeps app r.1) (is_interrupt k) (refl, refl, refl)
        (by_mode-Keeps app.mode k app stop)
