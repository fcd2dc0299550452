-- ===== src/Structured/Serve/Sessions.antt =====
-- What a structured session that is entered answers to all its commands.
use dekopon_console.Base.{
  ℕ, ◌-◌, ◌≤◌, ◌≡◌, refl, sym, ap, ◌∙◌, Bool, false, List, [], ◌∷◌, ◌++◌, none, some, Text, codes,
  length, All, append-nil, arith,
}
use dekopon_console.App.{App}
use dekopon_console.Assets.{ok, Store}
use dekopon_console.Dispatch.{Host, World}
use dekopon_console.Dispatch.Turns.{dispatch}
use dekopon_console.Keys
use dekopon_console.Session.{AgentSession, ConsoleOptions, SmokeIdentity}
use dekopon_console.Structured.{write_result}
use dekopon_console.Structured.Reader.{Input}
use dekopon_console.Structured.Reader.Chunks.{concat, IsChunk}
use dekopon_console.Structured.Reader.Sent.{IsLine, sent, read_line-sent}
use dekopon_console.Structured.Serve.{
  Served, put, serve, Surroundings, structured, initial, begun, entered, run_with_limits,
}
use dekopon_console.Structured.Serve.Framed.{frames, ready_line}
use dekopon_console.Structured.Serve.Replies.{
  Prompt, typed, AreLines, moment_of, answers, refusal_frame, serve_typed, serve_end, serve_last,
}

module _ {H Blob Encoding : Type 0} where
  -- A session that is entered, in which nothing runs out of time and the writer writes.
  abbrev pub surroundings :
      Text → Host H Blob Encoding → (ℕ → Prompt H Blob Encoding) → Surroundings H Blob Encoding
  surroundings nonce h prompt = record {
    nonce = ok nonce;
    entry_host = h;
    entry_is_late = false;
    ready_failure = none;
    moment = λ i. moment_of (prompt i);
  }

  abbrev pub entry :
      Host H Blob Encoding
      → App (Store Blob Encoding)
      → ConsoleOptions
      → SmokeIdentity
      → World H Blob Encoding
  entry h app options identity = dispatch h Keys.enter_agent (initial h app options identity)

  module _ (nonce : Text) (h : Host H Blob Encoding) (prompt : ℕ → Prompt H Blob Encoding)
      (app : App (Store Blob Encoding)) (options : ConsoleOptions) (identity : SmokeIdentity)
      (input : Input) where
    abbrev pub session : Served (World H Blob Encoding)
    session = run_with_limits (surroundings nonce h prompt) app options identity input

    session_lem :
        {a : AgentSession}
        → (entry h app options identity).app.session ≡ some a
        → session
          ≡ serve nonce
              (λ i. moment_of (prompt i))
              64
              0
              input
              (entry h app options identity)
              (ready_line nonce ∷ [])
    unfolding run_with_limits begun entered put
    session_lem e = rw e refl

    -- In a session that is entered, with nothing out of time and a writer that writes, up to 64
    -- commands, in whatever pieces their bytes come and with either line end, are each run on the
    -- console as the one before left it and answered by one frame, in their order, and at the end of
    -- the input the session succeeds, with nothing else written.
    pub run_with_limits-answers :
        {a : AgentSession} (lines : List (Bool × Text))
        → (entry h app options identity).app.session ≡ some a
        → AreLines lines
        → length lines ≤ 64
        → All IsChunk input.chunks
        → concat input.chunks ≡ typed lines
        → input.failure ≡ none
        → (session.out
            ≡ ready_line nonce
              ∷ frames nonce (answers prompt 0 lines (entry h app options identity)))
          × (session.exit ≡ none)
          × (session.cut ≡ [])
    run_with_limits-answers lines e valid few pieces bytes sound =
        let (rest, left_over, same) =
          serve_typed nonce prompt lines [] 64 (64 - length lines) 0 input
            (entry h app options identity) (ready_line nonce ∷ []) valid
            (pieces, bytes ∙ sym (append-nil (typed lines)), sound) (omega (arith, few)) in
        let end = serve_end nonce prompt _ _ rest _ _ left_over in
        (
          ap (λ (s : Served (World H Blob Encoding)). s.out) (session_lem e ∙ same) ∙ end.0,
          ap (λ (s : Served (World H Blob Encoding)). s.exit) (session_lem e ∙ same) ∙ end.1,
          ap (λ (s : Served (World H Blob Encoding)). s.cut) (session_lem e ∙ same) ∙ end.2,
        )

    -- With more than 64 commands, in the same session, the first 64 are answered as if they were all;
    -- the next gets a frame that says that it was not run, nothing after it is read, and the session
    -- fails with the command limit, with nothing else written.
    pub run_with_limits-refuses :
        {a : AgentSession} (lines : List (Bool × Text)) (returns : Bool) (extra : Text)
        (after : List ℕ)
        → (entry h app options identity).app.session ≡ some a
        → AreLines lines
        → IsLine extra
        → length lines ≡ 64
        → All IsChunk input.chunks
        → concat input.chunks ≡ typed lines ++ (sent returns extra ++ after)
        → input.failure ≡ none
        → (session.out
            ≡ ready_line nonce
                ∷ frames nonce (answers prompt 0 lines (entry h app options identity))
              ++ write_result nonce
                  (codes "error")
                  (codes "command limit exceeded; command not run"))
          × (session.exit ≡ some (structured (codes "session command limit exceeded")))
          × (session.cut ≡ [])
    unfolding refusal_frame
    run_with_limits-refuses lines returns extra after e valid line full pieces bytes sound =
        let (rest, left_over, same) =
          serve_typed nonce prompt lines (sent returns extra ++ after) 64 0 0 input
            (entry h app options identity) (ready_line nonce ∷ []) valid (pieces, bytes, sound)
            (omega (arith, full)) in
        let last = read_line-sent returns extra after rest line left_over.0 left_over.1 in
        let end = serve_last nonce prompt _ rest _ _ extra last.0 in
        (
          ap (λ (s : Served (World H Blob Encoding)). s.out) (session_lem e ∙ same) ∙ end.0,
          ap (λ (s : Served (World H Blob Encoding)). s.exit) (session_lem e ∙ same) ∙ end.1,
          ap (λ (s : Served (World H Blob Encoding)). s.cut) (session_lem e ∙ same) ∙ end.2,
        )
