-- ===== src/Transcript/Turns.antt =====
-- A whole conversation under `open`, `absorb` and `mark_replay_window`.
use dekopon_console.Base.{
  ℕ, zero, suc, ◌+◌, ◌-◌, ◌<◌, ◌≡◌, refl, ◌∙◌, Bool, false, List, [], ◌∷◌, ◌++◌, Option, none, some,
  Text, length, length-append, any, get_elem?, arith, leb,
}
use dekopon_console.Record.{SessionEvent}
use dekopon_console.Transcript.Exchange.{
  Turn, is_running, opened, update_last, absorb as absorb_turn,
}
use dekopon_console.Transcript.{
  Transcript, new, open_turn, update_running, absorb, mark_from, mark_replay_window,
}

-- The turns are numbered from `n` on.
abbrev Numbered : ℕ → List Turn → Type 0
Numbered n [] = Unit {0}
Numbered n (t ∷ ts) = (t.ordinal ≡ n) × Numbered (suc n) ts

-- No turn but the last is running.
abbrev pub Settled : List Turn → Type 0
Settled [] = Unit {0}
Settled (t ∷ []) = Unit {0}
Settled (t ∷ u ∷ ts) = (is_running t ≡ false) × Settled (u ∷ ts)

-- The turns are numbered from one, and only the newest can be running.
pub record IsOrderly (t : Transcript) : Type 0 where
  pub numbered : Numbered 1 t.turns
  pub settled : Settled t.turns

pub new-IsOrderly : IsOrderly new
unfolding new
new-IsOrderly = record { numbered = tt; settled = tt }

-- Changes of one turn that keep its number.
update_last-Numbered :
    (f : Turn → Turn) (ts : List Turn) (n : ℕ)
    → ((t : Turn) → (f t).ordinal ≡ t.ordinal)
    → Numbered n ts
    → Numbered n (update_last is_running f ts)
unfolding update_last
update_last-Numbered f [] n keep h = tt
update_last-Numbered f (t ∷ ts) n keep h =
    ground (arith, keep t, update_last-Numbered f ts (suc n) keep h.1)

update_last-Settled :
    (f : Turn → Turn) (ts : List Turn) → Settled ts → Settled (update_last is_running f ts)
unfolding update_last
update_last-Settled f [] h = tt
update_last-Settled f (t ∷ []) h = ground arith
update_last-Settled f (t ∷ u ∷ ts) h = ground (arith, update_last-Settled f (u ∷ ts) h.1)

absorb_turn-ordinal : (e : SessionEvent) (t : Turn) → (absorb_turn e t).ordinal ≡ t.ordinal
unfolding absorb_turn
absorb_turn-ordinal e t = ground arith

pub update_running-IsOrderly :
    (f : Turn → Turn) (t : Transcript)
    → ((u : Turn) → (f u).ordinal ≡ u.ordinal)
    → IsOrderly t
    → IsOrderly (update_running f t)
unfolding update_running
update_running-IsOrderly f t keep h = record {
  numbered = update_last-Numbered f t.turns 1 keep h.numbered;
  settled = update_last-Settled f t.turns h.settled;
}

-- An event keeps the turns numbered from one, and only the newest can be running.
pub absorb-IsOrderly : (e : SessionEvent) (t : Transcript) → IsOrderly t → IsOrderly (absorb e t)
unfolding absorb
absorb-IsOrderly e t h = update_running-IsOrderly (absorb_turn e) t (absorb_turn-ordinal e) h

Numbered-append :
    (ts : List Turn) (n : ℕ) (u : Turn)
    → Numbered n ts
    → u.ordinal ≡ n + length ts
    → Numbered n (ts ++ u ∷ [])
Numbered-append [] n u h e = (omega arith, tt)
Numbered-append (t ∷ ts) n u h e = (h.0, Numbered-append ts (suc n) u h.1 (omega arith))

Settled-append :
    (ts : List Turn) (u : Turn) → any is_running ts ≡ false → Settled ts → Settled (ts ++ u ∷ [])
Settled-append [] u e h = tt
Settled-append (t ∷ []) u e h = ground arith
Settled-append (t ∷ v ∷ ts) u e h = (h.0, Settled-append (v ∷ ts) u (ground arith) h.1)

get_elem?-append {ℓ} :
    {A : Type ℓ} (xs : List A) (x : A) → get_elem? (xs ++ x ∷ []) (length xs) ≡ some x
get_elem?-append [] x = refl
get_elem?-append (y ∷ xs) x = get_elem?-append xs x

-- If no turn is running, then opening one keeps the order, and the index returned is that of the
-- new turn, which is running and has the prompt typed.
pub open_turn-IsOrderly :
    (prompt : Text) (t : Transcript)
    → IsOrderly t
    → any is_running t.turns ≡ false
    → IsOrderly (open_turn prompt t).0
      × (get_elem? (open_turn prompt t).0.turns (open_turn prompt t).1
          ≡ some (opened (length t.turns + 1) prompt))
unfolding open_turn
open_turn-IsOrderly prompt t h e =
    let new_turn = opened (length t.turns + 1) prompt in
    let size = length-append t.turns (new_turn ∷ []) in
    let index : length (t.turns ++ new_turn ∷ []) - 1 ≡ length t.turns = omega (arith, size) in
    (
      record {
        numbered = Numbered-append t.turns 1 new_turn h.numbered (unfold opened in omega arith);
        settled = Settled-append t.turns new_turn e h.settled;
      },
      rw index (get_elem?-append t.turns new_turn),
    )

update_last_none :
    (f : Turn → Turn) (ts : List Turn)
    → any is_running ts ≡ false
    → update_last is_running f ts ≡ ts
unfolding update_last
update_last_none f [] h = refl
update_last_none f (t ∷ ts) h = ground (arith, update_last_none f ts)

-- With no turn running, an event changes nothing: no turn is invented for it.
pub absorb_dropped :
    (e : SessionEvent) (t : Transcript) → any is_running t.turns ≡ false → absorb e t ≡ t
unfolding absorb update_running
absorb_dropped e t h = ground (arith, update_last_none (absorb_turn e) t.turns h)

-- The turn at an index is in the window exactly if fewer turns than `remembered` follow it.
abbrev pub in_window : Option Turn → Option Bool
in_window none = none
in_window (some t) = some t.in_replay_window

mark_from-get_elem? :
    (boundary start : ℕ) (ts : List Turn) (i : ℕ)
    → i < length ts
    → in_window (get_elem? (mark_from boundary start ts) i) ≡ some (leb boundary (start + i))
unfolding mark_from
mark_from-get_elem? boundary start [] i h = absurd (omega arith)
mark_from-get_elem? boundary start (t ∷ ts) zero h = ground arith
mark_from-get_elem? boundary start (t ∷ ts) (suc i) h =
    ground (arith, mark_from-get_elem? boundary (suc start) ts i)

-- Exactly the last `remembered` turns are marked as inside the model's window.
pub mark_replay_window-suffix :
    (remembered : ℕ) (t : Transcript) (i : ℕ)
    → i < length t.turns
    → in_window (get_elem? (mark_replay_window remembered t).turns i)
      ≡ some (leb (length t.turns) (i + remembered))
unfolding mark_replay_window
mark_replay_window-suffix remembered t i h =
    mark_from-get_elem? (length t.turns - remembered) 0 t.turns i h ∙ ground arith
