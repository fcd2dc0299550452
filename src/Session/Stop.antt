-- ===== src/Session/Stop.antt =====
-- Stop over any sequence of its calls.
use dekopon_console.Base.{ℕ, ◌≡◌, refl, Bool, true, false, List, [], ◌∷◌, Option, none, some, arith}
use dekopon_console.Session.{StopFlag, unset, request, reset, bind_broker}

pub data StopCall : Type 0 where
  requests : StopCall
  resets : StopCall
  binds : ℕ → StopCall

unfoldable pub stop_step : StopCall → StopFlag → StopFlag
stop_step requests s = request s
stop_step resets s = reset s
stop_step (binds handle) s = bind_broker handle s

unfoldable pub stop_run : List StopCall → StopFlag → StopFlag
stop_run [] s = s
stop_run (c ∷ cs) s = stop_run cs (stop_step c s)

-- The last call that decides the flag, read from the newest call back.
abbrev pub asked : Bool → List StopCall → Bool
asked b [] = b
asked b (requests ∷ cs) = asked true cs
asked b (resets ∷ cs) = asked false cs
asked b (binds h ∷ cs) = asked b cs

-- The handles that were bound when a stop was requested, latest first.
abbrev pub stopped : Option ℕ → List ℕ → List StopCall → List ℕ
stopped bound done [] = done
stopped none done (requests ∷ cs) = stopped none done cs
stopped (some h) done (requests ∷ cs) = stopped (some h) (h ∷ done) cs
stopped bound done (resets ∷ cs) = stopped none done cs
stopped bound done (binds h ∷ cs) = stopped (some h) done cs

stop_run-from :
    (cs : List StopCall) (s : StopFlag)
    → ((stop_run cs s).requested ≡ asked s.requested cs)
      × ((stop_run cs s).cancelled ≡ stopped s.broker s.cancelled cs)
unfolding stop_run stop_step request reset bind_broker
stop_run-from [] s = (refl, refl)
stop_run-from (requests ∷ cs) s = ground (arith, stop_run-from cs (request s))
stop_run-from (resets ∷ cs) s = stop_run-from cs (reset s)
stop_run-from (binds h ∷ cs) s = stop_run-from cs (bind_broker h s)

-- A stop asked for before a leg is bound to it, or after it was reset, cancels no leg; one asked for
-- while a leg is bound cancels that leg and no other.
pub stop_run-cancels :
    (cs : List StopCall)
    → ((stop_run cs unset).requested ≡ asked false cs)
      × ((stop_run cs unset).cancelled ≡ stopped none [] cs)
unfolding unset
stop_run-cancels cs = stop_run-from cs unset
