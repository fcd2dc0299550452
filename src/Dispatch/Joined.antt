-- ===== src/Dispatch/Joined.antt =====
-- What a hop, and the end of a task, leave settled.
use dekopon_console.Base.{
  ◌≡◌, refl, sym, ap, ◌∙◌, Bool, true, false, List, [], ◌∷◌, Option, none, some, Text, if_lem,
  if_cases, is_some, is_none, get_last?, All,
}
use dekopon_console.App.{App, highlighted_id, update_pending}
use dekopon_console.App.Errors.{raise, record_error, show_error, fail_shell, fail_entry}
use dekopon_console.App.Flow.{enter, on_session_complete}
use dekopon_console.Assets.{Store}
use dekopon_console.Dispatch.{
  Host, World, Opening, opened, refused, grants_nothing, Job, is_shell, clear_agent_context,
}
use dekopon_console.Dispatch.Enter.{
  Choice, turned_away, unbound, bound, choose, adopt, prepared, hopped, open_under, chosen,
  on_agent, enter_agent,
}
use dekopon_console.Dispatch.Settled.{IsPaired, IsSettled}
use dekopon_console.Dispatch.Turns.{
  Joined, returned, failed, died, settle_turn, finish_turn, finish_job, take_back, settled_app,
  close_entry, is_pending,
}
use dekopon_console.Session.{ConsoleOptions, reset}
use dekopon_console.View.{ShellEntry}

module _ {H Blob Encoding : Type 0} (h : Host H Blob Encoding) where
  hopped-IsSettled :
      (agent : Text) (o : Opening) (w : World H Blob Encoding)
      → IsSettled w
      → IsSettled (hopped h agent o w)
  unfolding hopped raise record_error show_error enter
  hopped-IsSettled agent (refused f) w s = s
  hopped-IsSettled agent (opened leg) w s = if_lem IsSettled (grants_nothing leg) s (refl, s.1)

  open_under-IsSettled :
      (agent : Text) (o : ConsoleOptions) (w : World H Blob Encoding)
      → w.app.busy ≡ is_some w.running
      → IsSettled (open_under h agent o w)
  unfolding open_under prepared clear_agent_context
  open_under-IsSettled agent o w b = hopped-IsSettled agent _ (prepared h o w) (refl, b)

  chosen-IsSettled :
      (agent : Text) (c : Choice) (w : World H Blob Encoding)
      → IsSettled w
      → IsSettled (chosen h agent c w)
  unfolding chosen
  chosen-IsSettled agent (turned_away why) w s = s
  chosen-IsSettled agent unbound w s = open_under-IsSettled agent w.options w s.1
  chosen-IsSettled agent (bound p) w s =
      open_under-IsSettled agent (adopt p w.options)
        (record w { app = record w.app { profile = some p.name } }) s.1

  on_agent-IsSettled :
      (o : Option Text) (w : World H Blob Encoding) → IsSettled w → IsSettled (on_agent h o w)
  unfolding on_agent
  on_agent-IsSettled none w s = s
  on_agent-IsSettled (some agent) w s = chosen-IsSettled agent (choose w.options agent) w s

  -- Entering an agent leaves the console settled.
  pub enter_agent-IsSettled :
      (w : World H Blob Encoding) → IsSettled w → IsSettled (enter_agent h w)
  unfolding enter_agent
  enter_agent-IsSettled w s =
      if_lem IsSettled w.app.busy s (on_agent-IsSettled (highlighted_id h.parse_agent w.app) w s)

  take_back-app :
      (b : Bool) (j : Joined H) (w : World H Blob Encoding)
      → (is_some (take_back h b j w).app.session ≡ is_some w.app.session)
        × (is_some (take_back h b j w).app.assets ≡ is_some w.app.assets)
        × ((take_back h b j w).running ≡ w.running)
  unfolding take_back fail_shell record_error raise show_error
  take_back-app b (returned history) w = (refl, refl, refl)
  take_back-app true (failed f) w = (refl, refl, refl)
  take_back-app true (died f) w = (refl, refl, refl)
  take_back-app false (failed f) w = (refl, refl, refl)
  take_back-app false (died f) w = (refl, refl, refl)

  settled_app-keeps :
      (b : Bool) (history : H) (app : App (Store Blob Encoding))
      → (is_some (settled_app h b history app).session ≡ is_some app.session)
        × (is_some (settled_app h b history app).assets ≡ is_some app.assets)
        × ((settled_app h b history app).busy ≡ false)
  unfolding settled_app close_entry fail_shell record_error on_session_complete
  settled_app-keeps true history app =
      let P : App (Store Blob Encoding) → Type 0 =
        λ a. (is_some a.session ≡ is_some app.session) × (is_some a.assets ≡ is_some app.assets) in
      let kept = if_lem P (is_pending app.shell_history) (refl, refl) (refl, refl) in
      (kept.0, kept.1, refl)
  settled_app-keeps false history app = (refl, refl, refl)

  settle_turn-IsSettled :
      (b : Bool) (j : Joined H) (w : World H Blob Encoding)
      → IsPaired w
      → is_some w.running ≡ false
      → IsSettled (settle_turn h b j w)
  unfolding settle_turn
  settle_turn-IsSettled b j w p n =
      let taken = take_back-app b j w in
      let kept = settled_app-keeps b (take_back h b j w).history (take_back h b j w).app in
      (kept.0 ∙ taken.0 ∙ p ∙ sym taken.1 ∙ sym kept.1, kept.2 ∙ sym n ∙ sym (ap is_some taken.2))

  finish_job-IsSettled :
      (o : Option (Job H)) (j : Joined H) (w : World H Blob Encoding)
      → w.running ≡ o
      → IsSettled w
      → IsSettled (finish_job h o j w)
  unfolding finish_job
  finish_job-IsSettled none j w e s = s
  finish_job-IsSettled (some job) j w e s =
      settle_turn-IsSettled (is_shell job) j (record w { running = none }) s.0 refl

  -- The end of a task leaves the console settled.
  pub finish_turn-IsSettled :
      (j : Joined H) (w : World H Blob Encoding) → IsSettled w → IsSettled (finish_turn h j w)
  unfolding finish_turn
  finish_turn-IsSettled j w s = finish_job-IsSettled w.running j w refl s

last_cons :
    (f : ShellEntry → ShellEntry) (e d : ShellEntry) (es : List ShellEntry)
    → get_last? (e ∷ update_pending f (d ∷ es)) ≡ get_last? (update_pending f (d ∷ es))
unfolding update_pending
last_cons f e d [] =
    if_lem (λ ys. get_last? (e ∷ ys) ≡ get_last? ys) (is_none d.exit_code) refl refl
last_cons f e d (c ∷ es) = refl

pending_last : Option ShellEntry → Bool
pending_last o = elim o [ none ↦ false | some e ↦ is_none e.exit_code ]

-- After `fail_shell` no entry waits for an outcome.
fail_pending :
    (f : ShellEntry → ShellEntry) (es : List ShellEntry)
    → ((e : ShellEntry) → is_none (f e).exit_code ≡ false)
    → is_pending (update_pending f es) ≡ false
unfolding is_pending update_pending pending_last
fail_pending f [] h = refl
fail_pending f (e ∷ []) h =
    if_cases (λ es. is_pending es ≡ false) (is_none e.exit_code) (λ _. h e) (λ n. n)
fail_pending f (e ∷ d ∷ es) h = ap pending_last (last_cons f e d es) ∙ fail_pending f (d ∷ es) h

abbrev pub IsClosed : ShellEntry → Type 0
IsClosed e = is_none e.exit_code ≡ false

-- No entry but the last waits for an outcome.
abbrev pub IsOnlyLast : List ShellEntry → Type 0
IsOnlyLast [] = Unit
IsOnlyLast (e ∷ []) = Unit
IsOnlyLast (e ∷ d ∷ es) = IsClosed e × IsOnlyLast (d ∷ es)

update_pending-IsOnlyLast :
    (f : ShellEntry → ShellEntry) (es : List ShellEntry)
    → IsOnlyLast es
    → IsOnlyLast (update_pending f es)
unfolding update_pending
update_pending-IsOnlyLast f [] h = tt
update_pending-IsOnlyLast f (e ∷ []) h = if_lem IsOnlyLast (is_none e.exit_code) tt tt
update_pending-IsOnlyLast f (e ∷ d ∷ []) h =
    if_lem (λ es. IsOnlyLast (e ∷ es)) (is_none d.exit_code) (h.0, tt) (h.0, tt)
update_pending-IsOnlyLast f (e ∷ d ∷ c ∷ es) h = (h.0, update_pending-IsOnlyLast f (d ∷ c ∷ es) h.1)

all-IsClosed : (es : List ShellEntry) → IsOnlyLast es → is_pending es ≡ false → All IsClosed es
unfolding is_pending
all-IsClosed [] h p = tt
all-IsClosed (e ∷ []) h p = (p, tt)
all-IsClosed (e ∷ d ∷ es) h p = (h.0, all-IsClosed (d ∷ es) h.1 p)

module _ {H Blob Encoding : Type 0} (h : Host H Blob Encoding) where
  take_back-IsOnlyLast :
      (j : Joined H) (w : World H Blob Encoding)
      → IsOnlyLast w.app.shell_history
      → IsOnlyLast (take_back h true j w).app.shell_history
  unfolding take_back fail_shell record_error
  take_back-IsOnlyLast (returned history) w o = o
  take_back-IsOnlyLast (failed f) w o = update_pending-IsOnlyLast _ w.app.shell_history o
  take_back-IsOnlyLast (died f) w o = update_pending-IsOnlyLast _ w.app.shell_history o

  close_entry-IsOnlyLast :
      (app : App (Store Blob Encoding))
      → IsOnlyLast app.shell_history
      → IsOnlyLast (close_entry h app).shell_history
  unfolding close_entry fail_shell record_error
  close_entry-IsOnlyLast app o =
      if_lem (λ (a : App (Store Blob Encoding)). IsOnlyLast a.shell_history)
        (is_pending app.shell_history) (update_pending-IsOnlyLast _ app.shell_history o) o

  not_pending :
      (j : Joined H) (w : World H Blob Encoding)
      → is_pending (close_entry h (take_back h true j w).app).shell_history ≡ false
  unfolding close_entry fail_shell record_error fail_entry
  not_pending j w =
      if_cases (λ (a : App (Store Blob Encoding)). is_pending a.shell_history ≡ false)
        (is_pending (take_back h true j w).app.shell_history)
        (λ _. fail_pending _ (take_back h true j w).app.shell_history (λ e. refl)) (λ n. n)

  -- When a line's task ends, however it ends, and no entry of the shell but the last waited for an
  -- outcome, none waits for one; nothing is busy, and Stop is unset and bound to no leg.
  pub settle_turn-Ends :
      (j : Joined H) (w : World H Blob Encoding)
      → IsOnlyLast w.app.shell_history
      → All IsClosed (settle_turn h true j w).app.shell_history
        × ((settle_turn h true j w).app.busy ≡ false)
        × ((settle_turn h true j w).stop.requested ≡ false)
        × ((settle_turn h true j w).stop.broker ≡ none)
  unfolding settle_turn settled_app reset
  settle_turn-Ends j w o = (
    all-IsClosed _ (close_entry-IsOnlyLast _ (take_back-IsOnlyLast j w o)) (not_pending j w),
    refl,
    refl,
    refl,
  )
