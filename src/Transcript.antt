-- ===== src/Transcript.antt =====
-- crates/dekopon-tui/src/transcript.rs: the operator's record of a conversation.
pub mod Exchange
pub mod Calls
pub mod Newest
pub mod Turns
pub mod Tokens
use dekopon_console.Base.{
  ℕ, suc, ◌+◌, ◌-◌, Bool, true, false, List, [], ◌∷◌, ◌++◌, Option, none, some, Text, leb, length,
  if◌then◌else◌, get_last?,
}
use dekopon_console.Record.{SessionEvent}
use Exchange.{Turn, opened, is_running, absorb as absorb_turn, update_last}

pub record Transcript : Type 0 where
  pub turns : List Turn

unfoldable pub new : Transcript
new = record { turns = [] }

-- `Transcript::open`: the transcript and the index of the new turn.
unfoldable pub open_turn : Text → Transcript → Transcript × ℕ
unfolding opened
open_turn prompt t =
    let turns = t.turns ++ opened (length t.turns + 1) prompt ∷ [] in
    (record { turns = turns }, length turns - 1)

-- A write through `running_mut`: the newest running turn, if there is one.
unfoldable pub update_running : (Turn → Turn) → Transcript → Transcript
unfolding update_last
update_running f t = record { turns = update_last is_running f t.turns }

-- `Transcript::absorb`.
unfoldable pub absorb : SessionEvent → Transcript → Transcript
unfolding update_running
absorb e t = update_running (absorb_turn e) t

-- The loop of `mark_replay_window`, at an index.
mark_from : ℕ → ℕ → List Turn → List Turn
mark_from boundary i [] = []
mark_from boundary i (t ∷ ts) =
    record t { in_replay_window = leb boundary i } ∷ mark_from boundary (suc i) ts

-- `mark_replay_window`; `-` stops at 0, as `saturating_sub` does.
unfoldable pub mark_replay_window : ℕ → Transcript → Transcript
unfolding mark_from
mark_replay_window remembered t = record {
  turns = mark_from (length t.turns - remembered) 0 t.turns;
}
