-- ===== src/Assets/History.antt =====
-- What holds of the inventory of one agent entry after any sequence of calls.
use dekopon_console.Base.{
  ℕ, suc, ◌<◌, ◌≡◌, refl, Bool, List, [], ◌∷◌, Option, none, some, Text, arith, codes, Bool-cases,
  inl, inr, ltb, leb, u64_max,
}
use dekopon_console.Assets.{
  Store, Result, ok, err, BlobError, Intake, empty, insert, remove, register, attach_base64,
  is_full, max_bytes,
}
use dekopon_console.Assets.Attach.{issued, attach_cases}
use dekopon_console.Assets.Inventory.{
  IsConsistent, empty-IsConsistent, remove-IsConsistent, register-IsConsistent,
  attach_base64-IsConsistent,
}

-- A call, with what the outside answers to it: the blob read from the descriptor, and whether the
-- blob is pinned. `fetch_for_capability`, `rows` and `send` change nothing.
pub data Call (Blob Encoding : Type 0) : Type 0 where
  attaches : Text → Text → Call Blob Encoding
  registers : Result BlobError Blob → ℕ → Text → Encoding → Call Blob Encoding
  removes : Bool → ℕ → Call Blob Encoding

abbrev push : Option ℕ → List ℕ → List ℕ
push none ids = ids
push (some id) ids = id ∷ ids

module _ {Blob Encoding : Type 0} (blob_len : Blob → ℕ) (intake : Intake Blob Encoding) where
  unfoldable pub step : Call Blob Encoding → Store Blob Encoding → Option ℕ × Store Blob Encoding
  step (attaches mime encoded) s =
      let (r, s') = attach_base64 blob_len intake mime encoded s in (issued r, s')
  step (registers read size content_type encoding) s =
      let (r, s') = register blob_len (λ n. read) size content_type encoding s in (issued r, s')
  step (removes pinned id) s = (none, (remove blob_len (λ b. pinned) id s).1)

  -- The ids issued, in order, and the inventory at the end.
  unfoldable pub run :
      List (Call Blob Encoding) → Store Blob Encoding → List ℕ × Store Blob Encoding
  run [] s = ([], s)
  run (c ∷ cs) s = let (id, s') = step c s in let (ids, end) = run cs s' in (push id ids, end)

  -- A call issues no id and leaves `next_id`, or it issues the next one.
  abbrev Issues : Store Blob Encoding → Option ℕ × Store Blob Encoding → Type 0
  Issues s (none, s') = s'.next_id ≡ s.next_id
  Issues s (some n, s') = (n ≡ suc s.next_id) × (s'.next_id ≡ n)

  insert-Issues :
      (blob : Blob) (content_type : Text) (encoding : Encoding) (origin : Text)
      (s : Store Blob Encoding)
      → let (r, s') = insert blob_len blob content_type encoding origin s in Issues s (issued r, s')
  unfolding insert
  insert-Issues blob content_type encoding origin s =
      elim (Bool-cases (is_full blob_len (blob_len blob) s)) [
        | inl full ↦ rw full refl
        | inr room ↦ elim (Bool-cases (leb u64_max s.next_id)) [
          | inl last ↦ rw (room, last) refl
          | inr low ↦ rw (room, low) (refl, refl)
        ]
      ]

  register-Issues :
      (read : Result BlobError Blob) (size : ℕ) (content_type : Text) (encoding : Encoding)
      (s : Store Blob Encoding)
      → Issues s (step (registers read size content_type encoding) s)
  unfolding step register
  register-Issues (err e) size content_type encoding s = elim (Bool-cases (ltb max_bytes size)) [
    | inl big ↦ rw big refl
    | inr fits ↦ rw fits refl
  ]
  register-Issues (ok blob) size content_type encoding s = elim (Bool-cases (ltb max_bytes size)) [
    | inl big ↦ rw big refl
    | inr fits ↦ rw fits (insert-Issues blob content_type encoding _ s)
  ]

  remove-next_id :
      (is_pinned : Blob → Bool) (id : ℕ) (s : Store Blob Encoding)
      → (remove blob_len is_pinned id s).1.next_id ≡ s.next_id
  unfolding remove
  remove-next_id is_pinned id s = ground arith

  step-Issues : (c : Call Blob Encoding) (s : Store Blob Encoding) → Issues s (step c s)
  unfolding step
  step-Issues (attaches mime encoded) s =
      attach_cases blob_len (Issues s) intake mime s refl
        (λ blob. insert-Issues blob mime intake.identity (codes "console") s) encoded
  step-Issues (registers read size content_type encoding) s =
      register-Issues read size content_type encoding s
  step-Issues (removes pinned id) s = remove-next_id (λ b. pinned) id s

  step-IsConsistent :
      (c : Call Blob Encoding) (s : Store Blob Encoding)
      → IsConsistent blob_len s
      → IsConsistent blob_len (step c s).1
  unfolding step
  step-IsConsistent (attaches mime encoded) s h =
      attach_base64-IsConsistent blob_len intake mime encoded s h
  step-IsConsistent (registers read size content_type encoding) s h =
      register-IsConsistent blob_len (λ n. read) size content_type encoding s h
  step-IsConsistent (removes pinned id) s h = remove-IsConsistent blob_len (λ b. pinned) id s h

  -- Each id is above those before it.
  abbrev pub Ascending : ℕ → List ℕ → Type 0
  Ascending low [] = Unit {0}
  Ascending low (n ∷ ns) = (low < n) × Ascending n ns

  push-Ascending :
      (s s' : Store Blob Encoding) (id : Option ℕ) (ids : List ℕ)
      → Issues s (id, s')
      → Ascending s'.next_id ids
      → Ascending s.next_id (push id ids)
  push-Ascending s s' none ids h a = rw (← h) a
  push-Ascending s s' (some n) ids h a = (omega arith, rw (← h.1) a)

  run_from-Ascending :
      (cs : List (Call Blob Encoding)) (s : Store Blob Encoding)
      → IsConsistent blob_len s
      → Ascending s.next_id (run cs s).0 × IsConsistent blob_len (run cs s).1
  unfolding run
  run_from-Ascending [] s h = (tt, h)
  run_from-Ascending (c ∷ cs) s h =
      let (ids, end) = run_from-Ascending cs (step c s).1 (step-IsConsistent c s h) in
      (
        push-Ascending s (step c s).1 (step c s).0 (run cs (step c s).1).0 (step-Issues c s) ids,
        end,
      )

  -- After any calls on a new inventory the invariant holds, and the ids issued strictly ascend: an
  -- id is never issued twice, not even when its item was removed.
  pub run-Ascending :
      (cs : List (Call Blob Encoding))
      → Ascending 0 (run cs empty).0 × IsConsistent blob_len (run cs empty).1
  run-Ascending cs =
      let (ids, end) = run_from-Ascending cs empty (empty-IsConsistent blob_len) in
      (unfold empty in ids, end)
