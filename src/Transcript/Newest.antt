-- ===== src/Transcript/Newest.antt =====
-- Which turn of a conversation `absorb` of transcript.rs reaches.
use dekopon_console.Base.{
  ◌≡◌, refl, ap, ◌∙◌, subst, true, false, List, [], ◌∷◌, ◌++◌, any, arith, ◌⊎◌, inl, inr,
  Bool-cases,
}
use dekopon_console.Record.{SessionEvent}
use dekopon_console.Transcript.{Transcript, absorb, update_running}
use dekopon_console.Transcript.Exchange.{Turn, is_running, update_last, absorb as absorb_turn}
use dekopon_console.Transcript.Turns.{IsOrderly, Settled, absorb_dropped, absorb-IsOrderly}

any-snoc : (ts : List Turn) (u : Turn) → is_running u ≡ true → any is_running (ts ++ u ∷ []) ≡ true
any-snoc [] u e = ground (arith, e)
any-snoc (t ∷ ts) u e = ground (arith, any-snoc ts u e)

update_last-snoc :
    (f : Turn → Turn) (ts : List Turn) (u : Turn)
    → is_running u ≡ true
    → update_last is_running f (ts ++ u ∷ []) ≡ ts ++ f u ∷ []
unfolding update_last
update_last-snoc f [] u e = rw e refl
update_last-snoc f (t ∷ ts) u e =
    rw (any-snoc ts u e) (ap (λ us. t ∷ us) (update_last-snoc f ts u e))

none_runs :
    (ts : List Turn) (u : Turn)
    → Settled (ts ++ u ∷ [])
    → is_running u ≡ false
    → any is_running (ts ++ u ∷ []) ≡ false
none_runs [] u h e = ground (arith, e)
none_runs (t ∷ []) u h e = ground (arith, h.0, e)
none_runs (t ∷ v ∷ ts) u h e = ground (arith, h.0, none_runs (v ∷ ts) u h.1 e)

absorb-last :
    (e : SessionEvent) (t : Transcript) (ts : List Turn) (u : Turn)
    → t.turns ≡ ts ++ u ∷ []
    → is_running u ≡ true
    → (absorb e t).turns ≡ ts ++ absorb_turn e u ∷ []
unfolding absorb update_running
absorb-last e t ts u same r =
    ap (update_last is_running (absorb_turn e)) same ∙ update_last-snoc (absorb_turn e) ts u r

-- In a conversation whose turns are numbered from one and of which only the newest can run, an event
-- goes to the newest turn alone while that runs, and is dropped when it does not; and the conversation
-- stays such a one.
pub absorb-newest :
    (e : SessionEvent) (t : Transcript) (ts : List Turn) (u : Turn)
    → IsOrderly t
    → t.turns ≡ ts ++ u ∷ []
    → IsOrderly (absorb e t)
      × (((is_running u ≡ true) × ((absorb e t).turns ≡ ts ++ absorb_turn e u ∷ []))
          ⊎ ((is_running u ≡ false) × (absorb e t ≡ t)))
absorb-newest e t ts u h same = elim (Bool-cases (is_running u)) [
  | inl runs ↦ (absorb-IsOrderly e t h, inl (runs, absorb-last e t ts u same runs))
  | inr over ↦
      let idle : any is_running t.turns ≡ false =
        ap (any is_running) same ∙ none_runs ts u (subst Settled same h.settled) over in
      (absorb-IsOrderly e t h, inr (over, absorb_dropped e t idle))
]
