-- ===== src/Structured/Serve/Idle.antt =====
-- What can outlive a structured session.
use dekopon_console.Base.{
  ℕ, zero, suc, ◌≡◌, refl, Bool, true, false, List, [], ◌++◌, Option, none, some, Text, if_lem, ◌⊎◌,
  inl, inr, is_some, arith,
}
use dekopon_console.App.{App}
use dekopon_console.Assets.{Result, ok, err, Store}
use dekopon_console.Dispatch.{
  Host, World, Job, Opening, opened, refused, grants_nothing, is_shell, clear_agent_context,
}
use dekopon_console.Dispatch.Enter.{
  adopt, Choice, turned_away, unbound, bound, chosen, open_under, hopped, on_agent, enter_agent,
  prepared,
}
use dekopon_console.Dispatch.Turns.{
  Joined, returned, failed, died, dispatch, settle_turn, take_back,
}
use dekopon_console.Record.{SessionEvent}
use dekopon_console.Session.{ConsoleOptions, SmokeIdentity, AgentSession}
use dekopon_console.Structured.Reader.{ReadError, Input, read_line}
use dekopon_console.Structured.Serve.{
  max_commands, Moment, Surroundings, Course, completes, cut_in_dispatch, cut_in_turn, Served,
  Finished, in_time, timed_out, Rest, put, cancel, cancel_turn, completed, follow, reply, command,
  WriteFailure, ConsoleExit, stopped, on_read, on_last_read, serve, initial, begun, entered,
  run_with_limits,
}

-- This turn is asked to stop when its time runs out, and does not end within the grace.
abbrev pub IsStubborn : {H : Type 0} → Course H → Type 0
IsStubborn c = (events : List SessionEvent) × (c ≡ cut_in_turn false events)

module _ {H Blob Encoding : Type 0} where
  abbrev IsIdle : World H Blob Encoding → Type 0
  IsIdle w = w.running ≡ none

  hopped-IsIdle :
      (h : Host H Blob Encoding) (agent : Text) (o : Opening) (w : World H Blob Encoding)
      → IsIdle w
      → IsIdle (hopped h agent o w)
  unfolding hopped
  hopped-IsIdle h agent (refused f) w i = i
  hopped-IsIdle h agent (opened leg) w i = if_lem IsIdle (grants_nothing leg) i i

  open_under-IsIdle :
      (h : Host H Blob Encoding) (agent : Text) (o : ConsoleOptions) (w : World H Blob Encoding)
      → IsIdle w
      → IsIdle (open_under h agent o w)
  unfolding open_under prepared clear_agent_context
  open_under-IsIdle h agent o w i =
      hopped-IsIdle h agent
        (h.open_agent (prepared h o w).options.subject agent (prepared h o w).options.scope)
        (prepared h o w) i

  chosen-IsIdle :
      (h : Host H Blob Encoding) (agent : Text) (c : Choice) (w : World H Blob Encoding)
      → IsIdle w
      → IsIdle (chosen h agent c w)
  unfolding chosen
  chosen-IsIdle h agent (turned_away why) w i = i
  chosen-IsIdle h agent unbound w i = open_under-IsIdle h agent w.options w i
  chosen-IsIdle h agent (bound p) w i =
      open_under-IsIdle h agent (adopt p w.options)
        (record w { app = record w.app { profile = some p.name } }) i

  on_agent-IsIdle :
      (h : Host H Blob Encoding) (o : Option Text) (w : World H Blob Encoding)
      → IsIdle w
      → IsIdle (on_agent h o w)
  unfolding on_agent
  on_agent-IsIdle h none w i = i
  on_agent-IsIdle h (some agent) w i = chosen-IsIdle h agent _ w i

  enter_agent-IsIdle :
      (h : Host H Blob Encoding) (w : World H Blob Encoding) → IsIdle w → IsIdle (enter_agent h w)
  unfolding enter_agent
  enter_agent-IsIdle h w i = if_lem IsIdle w.app.busy i (on_agent-IsIdle h _ w i)

  settle_turn-IsIdle :
      (h : Host H Blob Encoding) (shell : Bool) (j : Joined H) (w : World H Blob Encoding)
      → IsIdle w
      → IsIdle (settle_turn h shell j w)
  unfolding settle_turn take_back
  settle_turn-IsIdle h shell (returned history) w i = i
  settle_turn-IsIdle h true (failed f) w i = i
  settle_turn-IsIdle h false (failed f) w i = i
  settle_turn-IsIdle h true (died f) w i = i
  settle_turn-IsIdle h false (died f) w i = i

  completed-IsIdle :
      (h : Host H Blob Encoding) (events : List SessionEvent) (j : Joined H) (o : Option (Job H))
      (w : World H Blob Encoding)
      → w.running ≡ o
      → IsIdle (completed h events j o w)
  unfolding completed
  completed-IsIdle h events j none w e = e
  completed-IsIdle h events j (some job) w e = settle_turn-IsIdle h (is_shell job) j _ refl

  cancel-IsIdle :
      (o : Option (Job H)) (w : World H Blob Encoding) → w.running ≡ o → IsIdle (cancel o w)
  unfolding cancel
  cancel-IsIdle none w e = e
  cancel-IsIdle (some job) w e = refl

  abbrev IsIdleFinished : Finished (World H Blob Encoding) → Type 0
  IsIdleFinished (in_time w) = IsIdle w
  IsIdleFinished (timed_out aborted w) = IsIdle w

  abbrev Blames : Course H → Finished (World H Blob Encoding) → Type 0
  Blames c (in_time w) = Unit
  Blames c (timed_out aborted w) = (aborted ≡ false) ⊎ IsStubborn c

  follow-Blames :
      (h : Host H Blob Encoding) (c : Course H) (before w : World H Blob Encoding)
      → Blames c (follow h c before w)
  unfolding follow
  follow-Blames h (completes events j) before w = tt
  follow-Blames h cut_in_dispatch before w = inl refl
  follow-Blames h (cut_in_turn true events) before w = inl (ground arith)
  follow-Blames h (cut_in_turn false events) before w = inr (events, refl)

  follow-IsIdle :
      (h : Host H Blob Encoding) (c : Course H) (before w : World H Blob Encoding)
      → IsIdle before
      → IsIdleFinished (follow h c before w)
  unfolding follow cancel_turn
  follow-IsIdle h (completes events j) before w i = completed-IsIdle h events j w.running w refl
  follow-IsIdle h cut_in_dispatch before w i = cancel-IsIdle before.running before refl
  follow-IsIdle h (cut_in_turn ends_in_grace events) before w i = cancel-IsIdle w.running _ refl

  -- No turn of the session is left to it, and work of a turn can go on only where a command ran out of
  -- its time and its turn out of the grace, with which the session fails.
  abbrev pub EndsIdle : (ℕ → Moment H Blob Encoding) → Served (World H Blob Encoding) → Type 0
  EndsIdle moment s =
      IsIdle s.world
      × ((s.abandons ≡ false)
          ⊎ (((i : ℕ) × IsStubborn (moment i).course) × (is_some s.exit ≡ true)))

  put_end :
      (moment : ℕ → Moment H Blob Encoding) (failure : Option WriteFailure) (frame : List Text)
      (w : World H Blob Encoding) (out : List Text) (k : List Text → Served (World H Blob Encoding))
      → IsIdle w
      → ((out' : List Text) → EndsIdle moment (k out'))
      → EndsIdle moment (put failure frame w out k)
  unfolding put
  put_end moment (some e) frame w out k i h = (i, inl refl)
  put_end moment none frame w out k i h = h (out ++ frame)

  put_stop :
      (failure : Option WriteFailure) (frame : List Text) (w : World H Blob Encoding)
      (out : List Text) (e : ConsoleExit)
      → IsIdle w
      → IsIdle (put failure frame w out (λ out'. stopped out' w e)).world
        × (is_some (put failure frame w out (λ out'. stopped out' w e)).exit ≡ true)
  unfolding put
  put_stop (some f) frame w out e i = (i, refl)
  put_stop none frame w out e i = (i, refl)

  module _ (nonce : Text) (moment : ℕ → Moment H Blob Encoding) where
    reply-EndsIdle :
        (i before : ℕ) (out : List Text) (k : Rest (World H Blob Encoding))
        (f : Finished (World H Blob Encoding))
        → IsIdleFinished f
        → Blames (moment i).course f
        → ((w : World H Blob Encoding) (out' : List Text) → IsIdle w → EndsIdle moment (k w out'))
        → EndsIdle moment (reply nonce (moment i) before out k f)
    unfolding reply
    reply-EndsIdle i before out k (in_time w) idle b h =
        put_end moment _ _ w out (k w) idle (λ out'. h w out' idle)
    reply-EndsIdle i before out k (timed_out aborted w) idle (inl e) h =
        ((put_stop (moment i).write_failure _ w out _ idle).0, inl e)
    reply-EndsIdle i before out k (timed_out aborted w) idle (inr c) h =
        let stop = put_stop (moment i).write_failure _ w out _ idle in
        (stop.0, inr ((i, c), stop.1))

    on_read-EndsIdle :
        (i : ℕ) (w : World H Blob Encoding) (out : List Text) (k : Rest (World H Blob Encoding))
        (r : Result ReadError (Option Text))
        → IsIdle w
        → ((w' : World H Blob Encoding) (out' : List Text)
            → IsIdle w'
            → EndsIdle moment (k w' out'))
        → EndsIdle moment (on_read nonce (moment i) w out k r)
    unfolding on_read command
    on_read-EndsIdle i w out k (err e) idle h = (idle, inl refl)
    on_read-EndsIdle i w out k (ok none) idle h = (idle, inl refl)
    on_read-EndsIdle i w out k (ok (some line)) idle h =
        reply-EndsIdle i _ out k _ (follow-IsIdle (moment i).host (moment i).course _ _ idle)
          (follow-Blames (moment i).host (moment i).course _ _) h

    on_last_read-EndsIdle :
        (i : ℕ) (w : World H Blob Encoding) (out : List Text) (r : Result ReadError (Option Text))
        → IsIdle w
        → EndsIdle moment (on_last_read nonce (moment i) w out r)
    unfolding on_last_read
    on_last_read-EndsIdle i w out (err e) idle = (idle, inl refl)
    on_last_read-EndsIdle i w out (ok none) idle = (idle, inl refl)
    on_last_read-EndsIdle i w out (ok (some line)) idle =
        put_end moment _ _ w out _ idle (λ out'. (idle, inl refl))

    serve-EndsIdle :
        (left i : ℕ) (input : Input) (w : World H Blob Encoding) (out : List Text)
        → IsIdle w
        → EndsIdle moment (serve nonce moment left i input w out)
    unfolding serve
    serve-EndsIdle zero i input w out idle =
        if_lem (EndsIdle moment) (moment i).is_late (idle, inl refl)
          (on_last_read-EndsIdle i w out _ idle)
    serve-EndsIdle (suc left) i input w out idle =
        if_lem (EndsIdle moment) (moment i).is_late (idle, inl refl)
          (on_read-EndsIdle i w out _ _ idle (serve-EndsIdle left (suc i) (read_line input).1))

  entered-EndsIdle :
      (env : Surroundings H Blob Encoding) (nonce : Text) (input : Input) (o : Option AgentSession)
      (w : World H Blob Encoding)
      → IsIdle w
      → EndsIdle env.moment (entered env nonce input o w)
  unfolding entered
  entered-EndsIdle env nonce input none w i = (i, inl refl)
  entered-EndsIdle env nonce input (some session) w i =
      put_end env.moment env.ready_failure _ w [] _ i
        (λ out. serve-EndsIdle nonce env.moment max_commands 0 input w out i)

  begun-EndsIdle :
      (env : Surroundings H Blob Encoding) (input : Input) (w : World H Blob Encoding)
      (r : Result Text Text)
      → IsIdle w
      → EndsIdle env.moment (begun env input w r)
  unfolding begun dispatch
  begun-EndsIdle env input w (err e) i = (i, inl refl)
  begun-EndsIdle env input w (ok nonce) i =
      if_lem (EndsIdle env.moment) env.entry_is_late (i, inl refl)
        (entered-EndsIdle env nonce input _ _ (enter_agent-IsIdle env.entry_host w i))

  -- However a structured session ends, the console that it drops holds no running turn. Blocking work
  -- of a turn may outlive it only if some command ran out of its time, its turn did not end within the
  -- grace after it was asked to stop, and so its task was aborted; the session then fails.
  pub run_with_limits-EndsIdle :
      (env : Surroundings H Blob Encoding) (app : App (Store Blob Encoding))
      (options : ConsoleOptions) (identity : SmokeIdentity) (input : Input)
      → EndsIdle env.moment (run_with_limits env app options identity input)
  unfolding run_with_limits initial
  run_with_limits-EndsIdle env app options identity input =
      begun-EndsIdle env input _ env.nonce refl
