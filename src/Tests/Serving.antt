-- ===== src/Tests/Serving.antt =====
-- A structured session at concrete inputs.
use dekopon_console.Base.{
  ℕ, zero, suc, ◌≡◌, ◌≢◌, ◌⊎◌, refl, arith, Bool, true, false, List, [], ◌∷◌, ◌++◌, none, some,
  Text, codes, length, ◌==◌, if◌then◌else◌, append-nil, append_assoc, ap, sym, ◌∙◌, All, same,
  strip_prefix, starts_with,
}
use dekopon_console.App.{new, highlighted_id}
use dekopon_console.App.Flow.{enter}
use dekopon_console.Assets.{empty}
use dekopon_console.Assets
use dekopon_console.Dispatch.{Leg, grants_nothing, session_of}
use dekopon_console.Dispatch.Enter.{enter_agent}
use dekopon_console.Dispatch.Lines.{read_line, plain}
use dekopon_console.Dispatch.Turns.{returned, dispatch}
use dekopon_console.Record.{shell_finished}
use dekopon_console.Session.{AgentSession, SmokeIdentity}
use dekopon_console.Structured.{write_result}
use dekopon_console.Structured.Reader.{Input, ends_with_byte}
use dekopon_console.Structured.Reader
use dekopon_console.Structured.Reader.Chunks.{IsChunk, concat, read_whole, read_line-whole}
use dekopon_console.Structured.Reader.Sent.{IsLine, sent, read_line-sent, IsRest}
use dekopon_console.Structured.Serve.{structured, Surroundings, initial, run_with_limits}
use dekopon_console.Structured.Serve.Framed.{
  IsUnready, Session, frames, ready_line, run_with_limits-Session,
}
use dekopon_console.Structured.Serve.Idle.{EndsIdle, run_with_limits-EndsIdle}
use dekopon_console.Structured.Serve.Replies.{Prompt, typed, AreLines, answered, answer, answers}
use dekopon_console.Structured.Serve.Sessions.{
  entry, run_with_limits-answers, run_with_limits-refuses, surroundings,
}
use dekopon_console.Structured.Serve.Sessions
use dekopon_console.Structured.Serve.Scripts.{answer-script}
use dekopon_console.Structured.Utf8.{is_scalar, as_bytes}
use dekopon_console.Tests.Dispatching.{host, fresh, typing, in_world, session, options}
use dekopon_console.View.{ShellEntry}

abbrev ls : Text
ls = codes "ls"

ls-IsLine : IsLine ls
unfolding codes is_scalar ends_with_byte as_bytes
ls-IsLine = record {
  scalars = (refl, (refl, tt));
  one_line = refl;
  no_return = refl;
  fits = omega arith;
}

-- "ls", a carriage return and a line feed, in two pieces, and the start of the next line.
abbrev in_pieces : Input
in_pieces = record {
  chunks = (b'l' ∷ []) ∷ (b's' ∷ b'\r' ∷ b'\n' ∷ b'p' ∷ []) ∷ [];
  failure = none;
}

in_pieces-IsChunk : All IsChunk in_pieces.chunks
in_pieces-IsChunk = ((λ e. ground (arith, e)), ((λ e. ground (arith, e)), tt))

read_line-whole_example : (Reader.read_line in_pieces).0 ≡ read_whole none (concat in_pieces.chunks)
read_line-whole_example = read_line-whole in_pieces in_pieces-IsChunk

in_pieces-sent : concat in_pieces.chunks ≡ sent true ls ++ b'p' ∷ []
unfolding sent codes as_bytes
in_pieces-sent = refl

read_line-sent_example :
    ((Reader.read_line in_pieces).0 ≡ Assets.ok (some ls))
    × IsRest (b'p' ∷ []) (Reader.read_line in_pieces).1.chunks
read_line-sent_example =
    read_line-sent true ls (b'p' ∷ []) in_pieces ls-IsLine in_pieces-IsChunk in_pieces-sent

abbrev inbox : ShellEntry
inbox = record { input = ls; output = codes "inbox"; exit_code = some 0; truncated = false }

-- Every command lists the inbox.
abbrev prompt : Prompt ℕ Text ℕ
prompt = record { host = host; events = shell_finished inbox ∷ []; joined = returned 3 }

abbrev leg : Leg
leg = record { effective = codes "mail.read" ∷ []; command_words = []; session_trace = codes "t2" }

ls_plain : read_line ls ≡ plain
unfolding read_line codes strip_prefix starts_with
ls_plain = refl

grants : grants_nothing leg ≡ false
unfolding grants_nothing
grants = refl

idle : typing.busy ≡ false
unfolding new
idle = refl

answer-script_example :
    (answer prompt ls (in_world typing)
      ≡ (if 0 == 0 then codes "ok" else codes "error", codes "inbox"))
    × ((answered prompt ls (in_world typing)).app.shell_history
        ≡ typing.shell_history ++ inbox ∷ [])
    × ((answered prompt ls (in_world typing)).app.busy ≡ false)
    × ((answered prompt ls (in_world typing)).running ≡ none)
answer-script_example =
    answer-script prompt ls (in_world typing) session empty leg inbox 0 3 refl refl idle ls_plain
      refl grants refl refl refl

abbrev nonce : Text
nonce = codes "4f2a"

abbrev boot : SmokeIdentity
boot = record { boot_nonce = codes "n"; next = 1 }

abbrev around : Surroundings ℕ Text ℕ
around = surroundings nonce host (λ i. prompt)

run_with_limits-Session_example :
    IsUnready nonce (run_with_limits around fresh options boot in_pieces)
    ⊎ Session nonce (run_with_limits around fresh options boot in_pieces)
run_with_limits-Session_example =
    run_with_limits-Session around fresh options boot in_pieces nonce refl

run_with_limits-EndsIdle_example :
    EndsIdle (around).moment (run_with_limits around fresh options boot in_pieces)
run_with_limits-EndsIdle_example = run_with_limits-EndsIdle around fresh options boot in_pieces

-- The session of the agent that is highlighted.
abbrev entered : AgentSession
entered = record {
  agent = codes "mail";
  effective = codes "mail.read" ∷ [];
  command_words = [];
  trace = codes "t2";
}

enters : (entry host fresh options boot).app.session ≡ some entered
unfolding dispatch enter_agent initial new highlighted_id same codes grants_nothing enter session_of
enters = refl

abbrev one_line : Input
one_line = record { chunks = (b'l' ∷ b's' ∷ []) ∷ (b'\n' ∷ []) ∷ []; failure = none }

one_line-typed : concat one_line.chunks ≡ typed ((false, ls) ∷ [])
unfolding sent codes as_bytes
one_line-typed = refl

one_line-IsChunk : All IsChunk one_line.chunks
one_line-IsChunk = ((λ e. ground (arith, e)), ((λ e. ground (arith, e)), tt))

run_with_limits-answers_example :
    ((Sessions.session nonce host (λ i. prompt) fresh options boot one_line).out
      ≡ ready_line nonce
        ∷ frames nonce (answers (λ i. prompt) 0 ((false, ls) ∷ []) (entry host fresh options boot)))
    × ((Sessions.session nonce host (λ i. prompt) fresh options boot one_line).exit ≡ none)
    × ((Sessions.session nonce host (λ i. prompt) fresh options boot one_line).cut ≡ [])
run_with_limits-answers_example =
    run_with_limits-answers nonce host (λ i. prompt) fresh options boot one_line ((false, ls) ∷ [])
      enters (ls-IsLine, tt) (omega arith) one_line-IsChunk one_line-typed refl

abbrev many : ℕ → List (Bool × Text)
many zero = []
many (suc n) = (true, ls) ∷ many n

many-AreLines : (n : ℕ) → AreLines (many n)
many-AreLines zero = tt
many-AreLines (suc n) = (ls-IsLine, many-AreLines n)

length-many : (n : ℕ) → length (many n) ≡ n
length-many zero = refl
length-many (suc n) = ap suc (length-many n)

sent_ls : (bytes : List ℕ) → (sent true ls ++ bytes) ≢ []
unfolding sent codes as_bytes
sent_ls bytes e = ground (arith, e)

abbrev too_many : Input
too_many = record { chunks = (typed (many 64) ++ (sent false ls ++ [])) ∷ []; failure = none }

too_many-IsChunk : All IsChunk too_many.chunks
too_many-IsChunk = (
  (λ e. sent_ls _ (sym (append_assoc (sent true ls) (typed (many 63)) (sent false ls ++ [])) ∙ e)),
  tt,
)

run_with_limits-refuses_example :
    ((Sessions.session nonce host (λ i. prompt) fresh options boot too_many).out
      ≡ ready_line nonce
          ∷ frames nonce (answers (λ i. prompt) 0 (many 64) (entry host fresh options boot))
        ++ write_result nonce (codes "error") (codes "command limit exceeded; command not run"))
    × ((Sessions.session nonce host (λ i. prompt) fresh options boot too_many).exit
        ≡ some (structured (codes "session command limit exceeded")))
    × ((Sessions.session nonce host (λ i. prompt) fresh options boot too_many).cut ≡ [])
run_with_limits-refuses_example =
    run_with_limits-refuses nonce host (λ i. prompt) fresh options boot too_many (many 64) false ls
      [] enters (many-AreLines 64) ls-IsLine (length-many 64) too_many-IsChunk (append-nil _) refl
