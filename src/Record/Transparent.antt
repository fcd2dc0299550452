-- ===== src/Record/Transparent.antt =====
-- The recording invoker answers as the invoker inside it.
use dekopon_console.Base.{ℕ, ◌≡◌, refl, ap, List, [], ◌∷◌}
use dekopon_console.Record.Recorder.{Recorder, record_invoke, recording}
use dekopon_console.Record.Seam.{Lib, Invoker, Request, ask, ask_all}

module _ (L : Lib) {S : Type 0} (elapsed : S → S → ℕ) (inner : Invoker L S) where
  ask-recording :
      (q : Request L) (s : S) (r : Recorder)
      → (r' : Recorder) × (ask L (recording L elapsed inner) q (s, r)
          ≡ ((ask L inner q s).0, ((ask L inner q s).1, r')))
  unfolding ask recording record_invoke
  ask-recording (Request.invoke p streams) s r = (_, refl)
  ask-recording _ s r = (r, refl)

  -- Whatever is asked of a recording invoker, in whatever order, the answers are those of the invoker
  -- inside it, and that one is left in the same state.
  pub ask_all-recording :
      (qs : List (Request L)) (s : S) (r : Recorder)
      → ((ask_all L (recording L elapsed inner) qs (s, r)).0 ≡ (ask_all L inner qs s).0)
        × ((ask_all L (recording L elapsed inner) qs (s, r)).1.0 ≡ (ask_all L inner qs s).1)
  unfolding ask_all
  ask_all-recording [] s r = (refl, refl)
  ask_all-recording (q ∷ qs) s r =
      let (r', e) = ask-recording q s r in
      let ih = ask_all-recording qs (ask L inner q s).1 r' in
      rw e (ap (λ l. (ask L inner q s).0 ∷ l) ih.0, ih.1)
