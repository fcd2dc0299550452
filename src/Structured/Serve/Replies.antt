-- ===== src/Structured/Serve/Replies.antt =====
-- What a structured session answers when nothing runs out of time and the writer writes.
use dekopon_console.Base.{
  ℕ, zero, suc, ◌+◌, ◌≡◌, refl, ap, ◌∙◌, Bool, false, List, [], ◌∷◌, ◌++◌, none, some, Text, codes,
  length, get_elem?, All, append_assoc, append-nil, arith,
}
use dekopon_console.Assets.{ok}
use dekopon_console.Dispatch.{Host, World}
use dekopon_console.Dispatch.Turns.{Joined, dispatch}
use dekopon_console.Keys
use dekopon_console.Record.{SessionEvent}
use dekopon_console.Structured.{write_result}
use dekopon_console.Structured.Reader.{ReadError, Input}
use dekopon_console.Structured.Reader
use dekopon_console.Structured.Reader.Chunks.{concat, IsChunk, read_whole, read_line-whole}
use dekopon_console.Structured.Reader.Sent.{IsLine, sent, read_line-sent}
use dekopon_console.Structured.Serve.{
  Moment, completes, Served, put, completed, follow, status_of, message_of, reply, command, on_read,
  on_last_read, serve, structured,
}
use dekopon_console.Structured.Serve.Framed.{frames}

-- What the broker answers to a command, what its turn tells, and how it is joined.
pub record Prompt (H Blob Encoding : Type 0) : Type 0 where
  pub host : Host H Blob Encoding
  pub events : List SessionEvent
  pub joined : Joined H

-- The bytes of commands, each with its own line end.
abbrev pub typed : List (Bool × Text) → List ℕ
typed [] = []
typed ((returns, line) ∷ lines) = sent returns line ++ typed lines

abbrev pub AreLines : List (Bool × Text) → Type 0
AreLines lines = All (λ l. IsLine l.1) lines

-- What is left to be read.
abbrev pub Remains : Input → List ℕ → Type 0
Remains input after =
    All IsChunk input.chunks × (concat input.chunks ≡ after) × (input.failure ≡ none)

failure_kept : (input : Input) → (Reader.read_line input).1.failure ≡ input.failure
unfolding Reader.read_line
failure_kept input = refl

ended : (input : Input) → Remains input [] → (Reader.read_line input).0 ≡ ok none
unfolding read_whole
ended input r = read_line-whole input r.0 ∙ ap (read_whole input.failure) r.1 ∙ rw r.2 refl

module _ {H Blob Encoding : Type 0} where
  abbrev pub moment_of : Prompt H Blob Encoding → Moment H Blob Encoding
  moment_of p = record {
    host = p.host;
    is_late = false;
    course = completes p.events p.joined;
    write_failure = none;
  }

  -- The console after a command, and the frame for it.
  unfoldable pub answered :
      Prompt H Blob Encoding → Text → World H Blob Encoding → World H Blob Encoding
  answered p line w =
      let after =
        dispatch p.host (Keys.run_shell line) (record w { app = record w.app { notice = none } }) in
      completed p.host p.events p.joined after.running after

  unfoldable pub answer : Prompt H Blob Encoding → Text → World H Blob Encoding → Text × Text
  unfolding answered
  answer p line w =
      let after = answered p line w in
      let entry = get_elem? after.app.shell_history (length w.app.shell_history) in
      (status_of entry, message_of entry after.app.notice)

  -- The commands one after the other.
  unfoldable pub answers :
      (ℕ → Prompt H Blob Encoding)
      → ℕ
      → List (Bool × Text)
      → World H Blob Encoding
      → List (Text × Text)
  unfolding answer
  answers prompt i [] w = []
  answers prompt i (l ∷ lines) w =
      answer (prompt i) l.1 w ∷ answers prompt (suc i) lines (answered (prompt i) l.1 w)

  unfoldable pub answered_all :
      (ℕ → Prompt H Blob Encoding)
      → ℕ
      → List (Bool × Text)
      → World H Blob Encoding
      → World H Blob Encoding
  unfolding answered
  answered_all prompt i [] w = w
  answered_all prompt i (l ∷ lines) w =
      answered_all prompt (suc i) lines (answered (prompt i) l.1 w)

  module _ (nonce : Text) (prompt : ℕ → Prompt H Blob Encoding) where
    abbrev pub serve_prompt :
        ℕ → ℕ → Input → World H Blob Encoding → List Text → Served (World H Blob Encoding)
    serve_prompt = serve nonce (λ i. moment_of (prompt i))

    command_lem :
        (p : Prompt H Blob Encoding) (line : Text) (w : World H Blob Encoding) (out : List Text)
        (k : _)
        → command nonce (moment_of p) line w out k
          ≡ k
              (answered p line w)
              (out ++ write_result nonce (answer p line w).0 (answer p line w).1)
    unfolding command reply follow put answer answered
    command_lem p line w out k = refl

    serve_more :
        (left i : ℕ) (input rest : Input) (s : Text) (w : World H Blob Encoding) (out : List Text)
        → (Reader.read_line input).0 ≡ ok (some s)
        → (Reader.read_line input).1 ≡ rest
        → serve_prompt (suc left) i input w out
          ≡ serve_prompt left
              (suc i)
              rest
              (answered (prompt i) s w)
              (out ++ write_result nonce (answer (prompt i) s w).0 (answer (prompt i) s w).1)
    unfolding serve on_read
    serve_more left i input rest s w out e r =
        rw (e, r) (command_lem (prompt i) s w out (serve_prompt left (suc i) rest))

    -- The commands are answered one by one, and what follows them is left.
    pub serve_typed :
        (lines : List (Bool × Text)) (after : List ℕ) (left more i : ℕ) (input : Input)
        (w : World H Blob Encoding) (out : List Text)
        → AreLines lines
        → Remains input (typed lines ++ after)
        → length lines + more ≡ left
        → (rest : Input) × Remains rest after
          × (serve_prompt left i input w out
              ≡ serve_prompt more
                  (length lines + i)
                  rest
                  (answered_all prompt i lines w)
                  (out ++ frames nonce (answers prompt i lines w)))
    unfolding answers answered_all
    serve_typed [] after left more i input w out h r e =
        let left≡more : left ≡ more = omega (arith, e) in
        let same_index : 0 + i ≡ i = omega arith in
        (
          input,
          r,
          rw (append-nil out, same_index) (ap (λ l. serve_prompt l i input w out) left≡more),
        )
    serve_typed ((returns, s) ∷ lines) after zero more i input w out h r e = ground (arith, e)
    serve_typed ((returns, s) ∷ lines) after (suc left) more i input w out h r e =
        let rest = (Reader.read_line input).1 in
        let read =
          read_line-sent returns s (typed lines ++ after) input h.0 r.0
            (r.1 ∙ append_assoc (sent returns s) (typed lines) after) in
        let next = answered (prompt i) s w in
        let frame = write_result nonce (answer (prompt i) s w).0 (answer (prompt i) s w).1 in
        let (end, left_over, same) =
          serve_typed lines after left more (suc i) rest next (out ++ frame) h.1
            (read.1.0, read.1.1, failure_kept input ∙ r.2) (omega (arith, e)) in
        let same_index : length lines + suc i ≡ suc (length lines) + i = omega arith in
        (
          end,
          left_over,
          serve_more left i input rest s w out read.0 refl
              ∙ same
              ∙ rw
                  (
                    same_index,
                    append_assoc out frame (frames nonce (answers prompt (suc i) lines next)),
                  )
                  refl,
        )

    -- The input ends.
    pub serve_end :
        (left i : ℕ) (input : Input) (w : World H Blob Encoding) (out : List Text)
        → Remains input []
        → ((serve_prompt left i input w out).out ≡ out)
          × ((serve_prompt left i input w out).exit ≡ none)
          × ((serve_prompt left i input w out).cut ≡ [])
    unfolding serve on_read on_last_read
    serve_end zero i input w out r = rw (ended input r) (refl, refl, refl)
    serve_end (suc left) i input w out r = rw (ended input r) (refl, refl, refl)

    unfoldable pub refusal_frame : List Text
    refusal_frame =
        write_result nonce (codes "error") (codes "command limit exceeded; command not run")

    -- A line too many.
    pub serve_last :
        (i : ℕ) (input : Input) (w : World H Blob Encoding) (out : List Text) (s : Text)
        → (Reader.read_line input).0 ≡ ok (some s)
        → ((serve_prompt 0 i input w out).out ≡ out ++ refusal_frame)
          × ((serve_prompt 0 i input w out).exit
              ≡ some (structured (codes "session command limit exceeded")))
          × ((serve_prompt 0 i input w out).cut ≡ [])
    unfolding serve on_last_read put refusal_frame
    serve_last i input w out s e = rw e (refl, refl, refl)
