-- ===== src/Tests/Console.antt =====
-- The transcript, the inventory, reports and the session's options at concrete inputs.
use mathlib.Core.List.{Perm}
use dekopon_console.Base.{
  ℕ, ◌≡◌, ◌+◌, refl, true, false, ◌⊎◌, List, [], ◌∷◌, ◌++◌, Option, none, some, Text, codes, any,
  length, get_elem?, min, u32_max, leb, arith, if◌then◌else◌, ◌==◌,
}
use dekopon_console.Assets.{Store, Intake, ok, empty, insert, fetch, is_full}
use dekopon_console.Assets.History.{Call, attaches, removes, run, Ascending, run-Ascending}
use dekopon_console.Assets.Inventory.{IsConsistent, empty-IsConsistent, insert-IsConsistent}
use dekopon_console.Assets.Lookup.{fetch-insert}
use dekopon_console.Record.{
  CapabilityCall, ModelUsage, SessionEvent, capability, script_started, SessionResult, succeeded,
}
use dekopon_console.Record
use dekopon_console.Redact.Value.{null}
use dekopon_console.Transcript.{Transcript, new, absorb, open_turn, mark_replay_window}
use dekopon_console.Transcript.Calls.{absorb-perm, reported}
use dekopon_console.Transcript.Exchange.{absorb as absorb_turn, Turn, opened, is_running, all_calls}
use dekopon_console.Transcript.Exchange
use dekopon_console.Transcript.Tokens.{
  absorb_usages, absorb_usages-exact, capped, total, input_of, output_of, silent,
}
use dekopon_console.Transcript.Newest.{absorb-newest}
use dekopon_console.Transcript.Turns.{
  IsOrderly, new-IsOrderly, open_turn-IsOrderly, mark_replay_window-suffix, in_window,
}

abbrev read_call : CapabilityCall
read_call = record {
  sequence = 0;
  capability = codes "mail.read";
  input = null;
  outcome = succeeded;
  elapsed = 3;
}

absorb-perm_example :
    Perm
      (all_calls (Exchange.absorb (capability read_call) (opened 1 (codes "hi"))).scripts)
      (reported (capability read_call) ++ all_calls (opened 1 (codes "hi")).scripts)
absorb-perm_example = absorb-perm (capability read_call) (opened 1 (codes "hi"))

no_turn : any is_running new.turns ≡ false
unfolding new
no_turn = refl

abbrev one_turn : Transcript
one_turn = (open_turn (codes "hi") new).0

one_turn-IsOrderly : IsOrderly one_turn
one_turn-IsOrderly = (open_turn-IsOrderly (codes "hi") new new-IsOrderly no_turn).0

one_turn-turns : one_turn.turns ≡ [] ++ opened 1 (codes "hi") ∷ []
unfolding open_turn new
one_turn-turns = refl

absorb-newest_example :
    IsOrderly (absorb (capability read_call) one_turn)
    × (((is_running (opened 1 (codes "hi")) ≡ true)
          × ((absorb (capability read_call) one_turn).turns
              ≡ [] ++ absorb_turn (capability read_call) (opened 1 (codes "hi")) ∷ []))
        ⊎ ((is_running (opened 1 (codes "hi")) ≡ false)
            × (absorb (capability read_call) one_turn ≡ one_turn)))
absorb-newest_example =
    absorb-newest (capability read_call) one_turn [] (opened 1 (codes "hi")) one_turn-IsOrderly
      one_turn-turns

abbrev two_turns : Transcript
two_turns = record { turns = opened 1 (codes "a") ∷ opened 2 (codes "b") ∷ [] }

mark_replay_window-suffix_example :
    in_window (get_elem? (mark_replay_window 1 two_turns).turns 1)
    ≡ some (leb (length two_turns.turns) (1 + 1))
mark_replay_window-suffix_example = mark_replay_window-suffix 1 two_turns 1 (omega arith)

abbrev usages : List (Option ModelUsage)
usages = some (record { input_tokens = some 7; output_tokens = none }) ∷ none ∷ []

absorb_usages-exact_example :
    let t = absorb_usages usages (opened 1 (codes "hi")).tokens in
    (t.input ≡ capped (total input_of usages))
    × (t.output ≡ capped (total output_of usages))
    × (t.unreported ≡ min (silent usages) u32_max)
absorb_usages-exact_example = absorb_usages-exact usages 1 (codes "hi")

-- Blobs are their bytes.
abbrev intake : Intake Text ℕ
intake = record {
  decode = λ s. ok s;
  from_bytes = λ b. ok b;
  identity = 0;
  describe = λ e. codes "full";
}

abbrev history : List (Call Text ℕ)
history =
    attaches (codes "text/plain") (codes "AAAA")
    ∷ removes false 1
    ∷ attaches (codes "text/plain") (codes "BB")
    ∷ []

run-Ascending_example :
    Ascending length intake 0 (run length intake history empty).0
    × IsConsistent length (run length intake history empty).1
run-Ascending_example = run-Ascending length intake history

insert_first :
    (insert {Encoding = ℕ} length (codes "hi") (codes "text/plain") 0 (codes "console") empty).0
    ≡ ok 1
unfolding insert empty is_full codes
insert_first = refl

fetch-insert_example :
    fetch {Blob = Text} {Encoding = ℕ} 1
      (insert length (codes "hi") (codes "text/plain") 0 (codes "console") empty).1
    ≡ (if 1 == 1
        then some (codes "text/plain", codes "hi")
        else fetch 1 (empty {Blob = Text} {Encoding = ℕ}))
fetch-insert_example =
    fetch-insert length (codes "hi") (codes "text/plain") 0 (codes "console") empty 1 1
      (empty-IsConsistent length) insert_first

abbrev one_item : Store Text ℕ
one_item = (insert length (codes "hi") (codes "text/plain") 0 (codes "console") empty).1

one_item-IsConsistent : IsConsistent length one_item
one_item-IsConsistent =
    insert-IsConsistent length (codes "hi") (codes "text/plain") 0 (codes "console") empty
      (empty-IsConsistent length)
