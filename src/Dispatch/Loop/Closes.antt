-- ===== src/Dispatch/Loop/Closes.antt =====
-- How the event loop of crates/dekopon-tui/src/run.rs comes to its end.
use dekopon_console.Base.{
  ℕ, ◌≡◌, refl, ◌∙◌, true, List, [], ◌∷◌, ◌++◌, Option, none, some, Text, if_cases,
}
use dekopon_console.Dispatch.{World}
use dekopon_console.Dispatch.Loop.{
  Event, key, resize, other, closed, failed, told, over, Pass, Looped, waiting, returned, sized,
  measured, selected, passed, pass, go_on, drive,
}
use dekopon_console.Dispatch.Loop.Ends.{running-stop_running}

module _ {H Blob Encoding : Type 0} where
  -- The loop has returned, and nothing runs.
  abbrev pub Returns : Looped (World H Blob Encoding) → Type 0
  Returns (waiting w) = ⊥
  Returns (returned e w) = w.running ≡ none

  -- If the loop has returned, nothing runs.
  abbrev Stops : Looped (World H Blob Encoding) → Type 0
  Stops (waiting w) = Unit
  Stops (returned e w) = w.running ≡ none

  selected-Stops :
      (event : Event H Blob Encoding) (w : World H Blob Encoding) → Stops (selected event w)
  unfolding selected
  selected-Stops (key h line_count k) w = tt
  selected-Stops (resize width height) w = tt
  selected-Stops other w = tt
  selected-Stops closed w = tt
  selected-Stops (failed e) w = running-stop_running w
  selected-Stops (told event) w = tt
  selected-Stops (over h joined) w = tt

  passed-Stops :
      (failure : Option Text) (event : Event H Blob Encoding) (w : World H Blob Encoding)
      → Stops (passed failure event w)
  unfolding passed
  passed-Stops (some e) event w = running-stop_running w
  passed-Stops none event w =
      if_cases Stops w.app.should_quit (λ _. running-stop_running w) (λ _. selected-Stops event w)

  go_on-Returns :
      (more : World H Blob Encoding → Looped (World H Blob Encoding))
      (r : Looped (World H Blob Encoding))
      → ((w : World H Blob Encoding) → Returns (more w))
      → Stops r
      → Returns (go_on more r)
  unfolding go_on
  go_on-Returns more (waiting w) ends s = ends w
  go_on-Returns more (returned e w) ends s = s

  keep_returned :
      (more : World H Blob Encoding → Looped (World H Blob Encoding))
      (r : Looped (World H Blob Encoding))
      → Returns r
      → Returns (go_on more r)
  unfolding go_on
  keep_returned more (waiting w) s = absurd s
  keep_returned more (returned e w) s = s

  should_quit-measured :
      (size : Option (ℕ × ℕ)) (w : World H Blob Encoding)
      → (measured size w).app.should_quit ≡ w.app.should_quit
  unfolding measured sized
  should_quit-measured none w = refl
  should_quit-measured (some (width, height)) w = refl

  passed-Returns :
      (failure : Option Text) (event : Event H Blob Encoding) (w : World H Blob Encoding)
      → w.app.should_quit ≡ true
      → Returns (passed failure event w)
  unfolding passed
  passed-Returns (some e) event w quits = running-stop_running w
  passed-Returns none event w quits = simp quits (running-stop_running w)

  -- The pass after the one that asks to quit.
  pass-Returns :
      (p : Pass H Blob Encoding) (w : World H Blob Encoding)
      → w.app.should_quit ≡ true
      → Returns (pass p w)
  unfolding pass
  pass-Returns p w quits =
      passed-Returns p.draw_failure p.event (measured p.size w)
        (should_quit-measured p.size w ∙ quits)

  passed-closed :
      (more : World H Blob Encoding → Looped (World H Blob Encoding)) (failure : Option Text)
      (w : World H Blob Encoding)
      → ((v : World H Blob Encoding) → v.app.should_quit ≡ true → Returns (more v))
      → Returns (go_on more (passed failure closed w))
  unfolding go_on passed selected
  passed-closed more (some e) w ends = running-stop_running w
  passed-closed more none w ends =
      if_cases (λ r. Returns (go_on more r)) w.app.should_quit (λ _. running-stop_running w)
        (λ _. ends _ refl)

  closes :
      (p q : Pass H Blob Encoding) (rest : List (Pass H Blob Encoding)) (w : World H Blob Encoding)
      → p.event ≡ closed
      → Returns (drive (p ∷ q ∷ rest) w)
  unfolding drive pass
  closes p q rest w e = rw e (
      passed-closed (drive (q ∷ rest)) p.draw_failure (measured p.size w)
        (λ v quits. keep_returned (drive rest) (pass q v) (pass-Returns q v quits)))

  -- Whatever the passes before it met, once the terminal's input is closed the loop returns at the
  -- next pass at the latest, and no task is left running.
  pub drive-closed :
      (before rest : List (Pass H Blob Encoding)) (p q : Pass H Blob Encoding)
      (w : World H Blob Encoding)
      → p.event ≡ closed
      → Returns (drive (before ++ p ∷ q ∷ rest) w)
  unfolding drive pass
  drive-closed [] rest p q w e = closes p q rest w e
  drive-closed (a ∷ before) rest p q w e =
      go_on-Returns (drive (before ++ p ∷ q ∷ rest)) (pass a w)
        (λ v. drive-closed before rest p q v e)
        (passed-Stops a.draw_failure a.event (measured a.size w))
