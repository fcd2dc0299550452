-- ===== src/Structured/Serve/Framed.antt =====
-- What a structured session writes, whatever its input, its commands and the clock do.
use dekopon_console.Base.{
  ℕ, zero, suc, ◌≤◌, ◌≡◌, refl, sym, ap, ◌∙◌, subst, true, List, [], ◌∷◌, ◌++◌, Option, none, some,
  Text, codes, length, filter, starts_with, All, append_assoc, append-nil, if_lem, if_map, ◌⊎◌, inl,
  inr, arith, take,
}
use dekopon_console.App.{App}
use dekopon_console.Assets.{Result, ok, err, Store}
use dekopon_console.Dispatch.{World}
use dekopon_console.Session.{ConsoleOptions, SmokeIdentity, AgentSession}
use dekopon_console.Structured.{write_result, inner, is_marker, prefixes, printed}
use dekopon_console.Structured.Frame.{IsQuiet, inner-IsQuiet}
use dekopon_console.Structured.Reader.{ReadError, Input, read_line}
use dekopon_console.Structured.Utf8.{as_bytes}
use dekopon_console.Structured.Serve.{
  max_commands, Moment, Surroundings, Served, Finished, in_time, timed_out, Rest, put, reply,
  WriteFailure, stopped, session_late, terminal, unwritten, command, on_read, on_last_read, serve,
  initial, begun, entered, run_with_limits,
}

-- Frames one after the other, each of a status and a text.
abbrev pub frames : Text → List (Text × Text) → List Text
frames nonce [] = []
frames nonce ((status, text) ∷ rs) = write_result nonce status text ++ frames nonce rs

no_frames :
    (nonce : Text) (n : ℕ) (out : List Text)
    → (rs : List (Text × Text)) × (out ≡ out ++ frames nonce rs) × (length rs ≤ n)
no_frames nonce n out = ([], sym (append-nil out), omega arith)

-- The first bytes of some lines, when the writer fails on them.
abbrev pub IsBroken : {W : Type 0} → List Text → Served W → Type 0
IsBroken lines s =
    (n : ℕ) × (s.cut ≡ take n (as_bytes (printed lines)))
    × (e : Text) × (s.exit ≡ some (terminal (unwritten e)))

module _ {W : Type 0} (nonce : Text) where
  -- Nothing after the whole lines, or the first bytes of one more frame.
  abbrev pub IsCut : Served W → Type 0
  IsCut s =
      (s.cut ≡ []) ⊎ ((status : Text) × (text : Text) × IsBroken (write_result nonce status text) s)

  -- After these lines come frames, at most so many, and perhaps the start of one more.
  abbrev pub IsFramed : ℕ → List Text → Served W → Type 0
  IsFramed n out s =
      (rs : List (Text × Text)) × (s.out ≡ out ++ frames nonce rs) × (length rs ≤ n) × IsCut s

  done-IsFramed :
      (n : ℕ) (out : List Text) (s : Served W) → s.out ≡ out → s.cut ≡ [] → IsFramed n out s
  done-IsFramed n out s e c =
      let (rs, same, few) = no_frames nonce n out in (rs, e ∙ same, few, inl c)

  put-IsFramed :
      (n : ℕ) (failure : Option WriteFailure) (status text : Text) (w : W) (out : List Text)
      (k : List Text → Served W)
      → ((out' : List Text) → IsFramed n out' (k out'))
      → IsFramed (suc n) out (put failure (write_result nonce status text) w out k)
  unfolding put
  put-IsFramed n (some (taken, e)) status text w out k h =
      let (rs, same, few) = no_frames nonce (suc n) out in
      (rs, same, few, inr (status, text, (taken, refl, e, refl)))
  put-IsFramed n none status text w out k h =
      let (rs, e, few, c) = h (out ++ write_result nonce status text) in
      (
        (status, text) ∷ rs,
        e ∙ append_assoc out (write_result nonce status text) (frames nonce rs),
        omega (arith, few),
        c,
      )

module _ {H Blob Encoding : Type 0} (nonce : Text) where
  reply-IsFramed :
      (n : ℕ) (m : Moment H Blob Encoding) (before : ℕ) (out : List Text)
      (k : Rest (World H Blob Encoding)) (f : Finished (World H Blob Encoding))
      → ((w : World H Blob Encoding) (out' : List Text) → IsFramed nonce n out' (k w out'))
      → IsFramed nonce (suc n) out (reply nonce m before out k f)
  unfolding reply
  reply-IsFramed n m before out k (in_time w) h =
      put-IsFramed nonce n m.write_failure _ _ w out (k w) (h w)
  reply-IsFramed n m before out k (timed_out aborted w) h =
      put-IsFramed nonce n m.write_failure _ _ w out _
        (λ out'. done-IsFramed nonce n out' (stopped out' w _) refl refl)

  on_read-IsFramed :
      (n : ℕ) (m : Moment H Blob Encoding) (w : World H Blob Encoding) (out : List Text)
      (k : Rest (World H Blob Encoding)) (r : Result ReadError (Option Text))
      → ((w : World H Blob Encoding) (out' : List Text) → IsFramed nonce n out' (k w out'))
      → IsFramed nonce (suc n) out (on_read nonce m w out k r)
  unfolding on_read command
  on_read-IsFramed n m w out k (err e) h =
      (let (rs, e, few) = no_frames nonce (suc n) out in (rs, e, few, inl refl))
  on_read-IsFramed n m w out k (ok none) h =
      (let (rs, e, few) = no_frames nonce (suc n) out in (rs, e, few, inl refl))
  on_read-IsFramed n m w out k (ok (some line)) h = reply-IsFramed n m _ out k _ h

  on_last_read-IsFramed :
      (m : Moment H Blob Encoding) (w : World H Blob Encoding) (out : List Text)
      (r : Result ReadError (Option Text))
      → IsFramed nonce 1 out (on_last_read nonce m w out r)
  unfolding on_last_read
  on_last_read-IsFramed m w out (err e) =
      (let (rs, e, few) = no_frames nonce 1 out in (rs, e, few, inl refl))
  on_last_read-IsFramed m w out (ok none) =
      (let (rs, e, few) = no_frames nonce 1 out in (rs, e, few, inl refl))
  on_last_read-IsFramed m w out (ok (some line)) =
      put-IsFramed nonce 0 m.write_failure _ _ w out _
        (λ out'. done-IsFramed nonce 0 out' (stopped out' w _) refl refl)

  serve-IsFramed :
      (moment : ℕ → Moment H Blob Encoding) (left i : ℕ) (input : Input) (w : World H Blob Encoding)
      (out : List Text)
      → IsFramed nonce (suc left) out (serve nonce moment left i input w out)
  unfolding serve
  serve-IsFramed moment zero i input w out =
      if_lem (IsFramed nonce 1 out) (moment i).is_late
        (done-IsFramed nonce 1 out (stopped out w session_late) refl refl)
        (on_last_read-IsFramed (moment i) w out _)
  serve-IsFramed moment (suc left) i input w out =
      if_lem (IsFramed nonce (suc (suc left)) out) (moment i).is_late
        (done-IsFramed nonce (suc (suc left)) out (stopped out w session_late) refl refl)
        (on_read-IsFramed (suc left) (moment i) w out _ _
          (serve-IsFramed moment left (suc i) (read_line input).1))

-- The lines that start with a marker.
abbrev pub markers : Text → List Text → List Text
markers nonce lines = filter (is_marker nonce) lines

abbrev pub ready_line : Text → Text
ready_line nonce = codes "READY " ++ nonce

-- The first line and the last of each frame.
abbrev pub bounds : Text → List (Text × Text) → List Text
bounds nonce [] = []
bounds nonce ((status, text) ∷ rs) =
    (codes "RESULT " ++ nonce ++ codes " " ++ status) ∷ (codes "END " ++ nonce) ∷ bounds nonce rs

markers_append :
    (nonce : Text) (xs ys : List Text)
    → markers nonce (xs ++ ys) ≡ markers nonce xs ++ markers nonce ys
markers_append nonce [] ys = refl
markers_append nonce (x ∷ xs) ys = rw (markers_append nonce xs ys) (
    sym (
      if_map (λ (l : List Text). l ++ markers nonce ys) (is_marker nonce x) (x ∷ markers nonce xs)
        (markers nonce xs)))

markers_quiet : (nonce : Text) (xs : List Text) → All (IsQuiet nonce) xs → markers nonce xs ≡ []
markers_quiet nonce [] h = refl
markers_quiet nonce (x ∷ xs) h = rw (h.0, markers_quiet nonce xs h.1) refl

starts_lem : (p s : Text) → starts_with p (p ++ s) ≡ true
unfolding starts_with
starts_lem [] s = refl
starts_lem (c ∷ p) s = ground (arith, starts_lem p s)

starts_self : (s : Text) → starts_with s s ≡ true
starts_self s = subst (λ t. starts_with s t ≡ true) (append-nil s) (starts_lem s [])

ready_marker : (nonce : Text) → is_marker nonce (ready_line nonce) ≡ true
unfolding prefixes codes starts_with
ready_marker nonce = rw (starts_self nonce) refl

result_marker :
    (nonce status : Text) → is_marker nonce (codes "RESULT " ++ nonce ++ codes " " ++ status) ≡ true
unfolding prefixes codes starts_with
result_marker nonce status =
    rw (append_assoc nonce (b' ' ∷ []) status, starts_lem nonce (b' ' ∷ status)) refl

end_marker : (nonce : Text) → is_marker nonce (codes "END " ++ nonce) ≡ true
unfolding prefixes codes starts_with
end_marker nonce = rw (starts_self nonce) refl

-- In a frame, its first line and its last are the only ones that start with a marker.
marked :
    (nonce status text : Text)
    → markers nonce (write_result nonce status text) ≡ bounds nonce ((status, text) ∷ [])
unfolding write_result
marked nonce status text =
    rw
      (
        result_marker nonce status,
        markers_append nonce (inner nonce text) ((codes "END " ++ nonce) ∷ []),
        markers_quiet nonce (inner nonce text) (inner-IsQuiet nonce text),
        end_marker nonce,
      )
      refl

markers-frames :
    (nonce : Text) (rs : List (Text × Text)) → markers nonce (frames nonce rs) ≡ bounds nonce rs
markers-frames nonce [] = refl
markers-frames nonce ((status, text) ∷ rs) =
    rw
      (
        markers_append nonce (write_result nonce status text) (frames nonce rs),
        marked nonce status text,
        markers-frames nonce rs,
      )
      refl

-- The ready line and whole frames, and after them nothing or the first bytes of one more frame.
abbrev pub Session : {W : Type 0} → Text → Served W → Type 0
Session nonce s =
    (rs : List (Text × Text)) × (s.out ≡ ready_line nonce ∷ frames nonce rs)
    × (length rs ≤ 65)
    × (markers nonce s.out ≡ ready_line nonce ∷ bounds nonce rs)
    × IsCut nonce s

-- Nothing, or the first bytes of the ready line.
abbrev pub IsUnready : {W : Type 0} → Text → Served W → Type 0
IsUnready nonce s = (s.out ≡ []) × ((s.cut ≡ []) ⊎ IsBroken (ready_line nonce ∷ []) s)

module _ {H Blob Encoding : Type 0} where
  abbrev IsSession : Text → Served (World H Blob Encoding) → Type 0
  IsSession nonce s = IsUnready nonce s ⊎ Session nonce s

  entered-IsSession :
      (env : Surroundings H Blob Encoding) (nonce : Text) (input : Input) (o : Option AgentSession)
      (w : World H Blob Encoding)
      → IsSession nonce (entered env nonce input o w)
  unfolding entered put
  entered-IsSession env nonce input none w = inl (refl, inl refl)
  entered-IsSession env nonce input (some session) w =
      elim env.ready_failure
        as (λ f.
          IsSession nonce
            (put f (ready_line nonce ∷ []) w [] (serve nonce env.moment max_commands 0 input w))) [
              | some (n, e) ↦ inl (refl, inr (n, refl, e, refl))
              | none ↦
                  let (rs, e, few, c) =
                    serve-IsFramed nonce env.moment max_commands 0 input w
                      (ready_line nonce ∷ []) in
                  inr (
                    rs,
                    e,
                    few,
                    ap (markers nonce) e ∙ rw (ready_marker nonce, markers-frames nonce rs) refl,
                    c,
                  )
            ]

  begun-IsSession :
      (env : Surroundings H Blob Encoding) (nonce : Text) (input : Input)
      (w : World H Blob Encoding)
      → IsSession nonce (begun env input w (ok nonce))
  unfolding begun
  begun-IsSession env nonce input w =
      if_lem (IsSession nonce) env.entry_is_late (inl (refl, inl refl))
        (entered-IsSession env nonce input _ _)

  -- Whatever the input is, whatever the commands print and however the session ends, the whole lines
  -- that are written are none, or the ready line and then at most 65 whole frames, one for each
  -- command and one for a line after the last; and no other lines than the ready line and the first
  -- and the last line of each frame start with a marker of the session's nonce. After them nothing is
  -- written, or the session fails on the writer, with the first bytes of the ready line or of one more
  -- frame of the session's nonce written.
  pub run_with_limits-Session :
      (env : Surroundings H Blob Encoding) (app : App (Store Blob Encoding))
      (options : ConsoleOptions) (identity : SmokeIdentity) (input : Input) (nonce : Text)
      → env.nonce ≡ ok nonce
      → IsUnready nonce (run_with_limits env app options identity input)
        ⊎ Session nonce (run_with_limits env app options identity input)
  unfolding run_with_limits
  run_with_limits-Session env app options identity input nonce e =
      subst (λ n. IsSession nonce (begun env input (initial env.entry_host app options identity) n))
        (sym e) (begun-IsSession env nonce input _)
