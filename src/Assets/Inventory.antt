-- ===== src/Assets/Inventory.antt =====
-- The invariant of the inventory, and that every method keeps it.
use dekopon_console.Base.{
  ℕ, suc, ◌+◌, ◌-◌, ◌≤◌, ◌<◌, ◌≡◌, refl, Bool, false, List, [], ◌∷◌, ◌++◌, some, Text, codes,
  length, length-append, ltb, leb, u64_max, arith, Bool-cases, Option-cases, inl, inr,
}
use dekopon_console.Assets.Attach.{attach_cases}
use dekopon_console.Assets.{
  Item, Store, Result, ok, err, BlobError, Intake, max_bytes, max_items, empty, insert_item, get,
  delete, new_item, insert, remove, register, attach_base64, is_full,
}

module _ {Blob Encoding : Type 0} (blob_len : Blob → ℕ) where
  -- Keys rise from above `low` up to `high`; each row carries its key and its blob's length.
  abbrev pub Rising : ℕ → ℕ → List (Item Blob Encoding) → Type 0
  Rising low high [] = low ≤ high
  Rising low high (x ∷ xs) =
      (low < x.id)
      × (x.row.id ≡ x.id)
      × (x.row.bytes ≡ some (blob_len x.blob))
      × Rising x.id high xs

  abbrev pub total_len : List (Item Blob Encoding) → ℕ
  total_len [] = 0
  total_len (x ∷ xs) = blob_len x.blob + total_len xs

  -- The count of bytes is that of the blobs, within 64 MiB and 16 items; keys are distinct, in
  -- order and at most `next_id`, which fits a `u64`.
  pub record IsConsistent (s : Store Blob Encoding) : Type 0 where
    pub counted : s.bytes ≡ total_len s.items
    pub within_bytes : s.bytes ≤ max_bytes
    pub within_items : length s.items ≤ max_items
    pub rising : Rising 0 s.next_id s.items
    pub fits : s.next_id ≤ u64_max

  pub empty-IsConsistent : IsConsistent empty
  unfolding empty
  empty-IsConsistent = record {
    counted = refl;
    within_bytes = omega arith;
    within_items = omega arith;
    rising = omega arith;
    fits = omega arith;
  }

  pub Rising-le : (low high : ℕ) (xs : List (Item Blob Encoding)) → Rising low high xs → low ≤ high
  Rising-le low high [] h = h
  Rising-le low high (x ∷ xs) h = omega (arith, Rising-le x.id high xs h.3)

  -- A key above all others goes to the end.
  pub insert_item_last :
      (x : Item Blob Encoding) (low high : ℕ) (xs : List (Item Blob Encoding))
      → Rising low high xs
      → high < x.id
      → insert_item x xs ≡ xs ++ x ∷ []
  unfolding insert_item
  insert_item_last x low high [] r h = refl
  insert_item_last x low high (y ∷ ys) r h =
      ground (arith, insert_item_last x y.id high ys r.3, Rising-le y.id high ys r.3)

  Rising-append :
      (x : Item Blob Encoding) (low high : ℕ) (xs : List (Item Blob Encoding))
      → Rising low high xs
      → high < x.id
      → x.row.id ≡ x.id
      → x.row.bytes ≡ some (blob_len x.blob)
      → Rising low x.id (xs ++ x ∷ [])
  Rising-append x low high [] r h e b = (omega arith, e, b, omega arith)
  Rising-append x low high (y ∷ ys) r h e b =
      (r.0, r.1, r.2, Rising-append x y.id high ys r.3 h e b)

  total_len-append :
      (xs : List (Item Blob Encoding)) (x : Item Blob Encoding)
      → total_len (xs ++ x ∷ []) ≡ total_len xs + blob_len x.blob
  total_len-append [] x = omega arith
  total_len-append (y ∷ ys) x = omega (arith, total_len-append ys x)

  Rising-lower :
      (low low' high : ℕ) (xs : List (Item Blob Encoding))
      → low ≤ low'
      → Rising low' high xs
      → Rising low high xs
  Rising-lower low low' high [] h r = omega arith
  Rising-lower low low' high (x ∷ xs) h r = (omega arith, r.1, r.2, r.3)

  delete-Rising :
      (id low high : ℕ) (xs : List (Item Blob Encoding))
      → Rising low high xs
      → Rising low high (delete id xs)
  unfolding delete
  delete-Rising id low high [] r = r
  delete-Rising id low high (x ∷ xs) r =
      ground (arith, delete-Rising id x.id high xs r.3, Rising-lower low x.id high xs)

  delete_counts :
      (id : ℕ) (xs : List (Item Blob Encoding)) (x : Item Blob Encoding)
      → get id xs ≡ some x
      → (total_len xs ≡ blob_len x.blob + total_len (delete id xs))
        × (length xs ≡ suc (length (delete id xs)))
  unfolding get delete
  delete_counts id [] x h = ground arith
  delete_counts id (y ∷ ys) x h = ground (arith, delete_counts id ys x)

  is_full_lem :
      (len : ℕ) (s : Store Blob Encoding)
      → is_full blob_len len s ≡ false
      → (length s.items < max_items) × (s.bytes + len ≤ max_bytes)
  unfolding is_full
  is_full_lem len s h = ground arith

  added-IsConsistent :
      (x : Item Blob Encoding) (len : ℕ) (s : Store Blob Encoding)
      → IsConsistent s
      → x.id ≡ suc s.next_id
      → x.row.id ≡ x.id
      → x.row.bytes ≡ some (blob_len x.blob)
      → blob_len x.blob ≡ len
      → is_full blob_len len s ≡ false
      → leb u64_max s.next_id ≡ false
      → IsConsistent
          (record { next_id = suc s.next_id; bytes = s.bytes + len; items = insert_item x s.items })
  added-IsConsistent x len s h e e' b size full low =
      let (few, small) = is_full_lem len s full in
      rw (insert_item_last x 0 s.next_id s.items h.rising (omega arith)) (record {
        counted = omega (arith, h.counted, total_len-append s.items x, size);
        within_bytes = omega (arith, small);
        within_items = omega (arith, length-append s.items (x ∷ []));
        rising = rw (← e) (Rising-append x 0 s.next_id s.items h.rising (omega arith) e' b);
        fits = ground arith;
      })

  pub new_item_lem :
      (id : ℕ) (blob : Blob) (content_type : Text) (encoding : Encoding) (origin : Text)
      → let x = new_item blob_len id blob content_type encoding origin in
        (x.id ≡ id)
        × (x.row.id ≡ x.id)
        × (x.row.bytes ≡ some (blob_len x.blob))
        × (blob_len x.blob ≡ blob_len blob)
  unfolding new_item
  new_item_lem id blob content_type encoding origin = (refl, refl, refl, refl)

  pub insert-IsConsistent :
      (blob : Blob) (content_type : Text) (encoding : Encoding) (origin : Text)
      (s : Store Blob Encoding)
      → IsConsistent s
      → IsConsistent (insert blob_len blob content_type encoding origin s).1
  unfolding insert
  insert-IsConsistent blob content_type encoding origin s h =
      let x = new_item blob_len (suc s.next_id) blob content_type encoding origin in
      let (key, row, size, len) = new_item_lem (suc s.next_id) blob content_type encoding origin in
      let added = added-IsConsistent x (blob_len blob) s h key row size len in
      elim (Bool-cases (is_full blob_len (blob_len blob) s)) [
        | inl full ↦ rw full h
        | inr room ↦ elim (Bool-cases (leb u64_max s.next_id)) [
          | inl last ↦ rw (room, last) h
          | inr low ↦ rw (room, low) (added room low)
        ]
      ]

  deleted-IsConsistent :
      (id : ℕ) (x : Item Blob Encoding) (s : Store Blob Encoding)
      → IsConsistent s
      → get id s.items ≡ some x
      → IsConsistent (record s { bytes = s.bytes - blob_len x.blob; items = delete id s.items })
  deleted-IsConsistent id x s h e =
      let (bytes, count) = delete_counts id s.items x e in
      record {
        counted = omega (arith, h.counted, bytes);
        within_bytes = omega (arith, h.within_bytes);
        within_items = omega (arith, h.within_items, count);
        rising = delete-Rising id 0 s.next_id s.items h.rising;
        fits = h.fits;
      }

  pub remove-IsConsistent :
      (is_pinned : Blob → Bool) (id : ℕ) (s : Store Blob Encoding)
      → IsConsistent s
      → IsConsistent (remove blob_len is_pinned id s).1
  unfolding remove
  remove-IsConsistent is_pinned id s h = elim (Option-cases (get id s.items)) [
    | inl e ↦ rw (e, remove) h
    | inr (x, e) ↦
        rw (e, remove)
          (elim (Bool-cases (is_pinned x.blob)) [
            | inl pinned ↦ rw pinned h
            | inr free ↦ rw free (deleted-IsConsistent id x s h e)
          ])
  ]

  pub register-IsConsistent :
      (from_descriptor : ℕ → Result BlobError Blob) (size : ℕ) (content_type : Text)
      (encoding : Encoding) (s : Store Blob Encoding)
      → IsConsistent s
      → IsConsistent (register blob_len from_descriptor size content_type encoding s).1
  unfolding register
  register-IsConsistent from_descriptor size content_type encoding s h =
      elim (Bool-cases (ltb max_bytes size)) [
        | inl big ↦ rw big h
        | inr fits ↦ rw fits (read (from_descriptor size))
      ]
    where
      read :
          (r : Result BlobError Blob)
          → IsConsistent
              (elim r as (λ q. Result BlobError ℕ × Store Blob Encoding) [
                | err e ↦ (err e, s)
                | ok blob ↦ insert blob_len blob content_type encoding (codes "provider") s
              ]).1
      read (err e) = h
      read (ok blob) = insert-IsConsistent blob content_type encoding _ s h

  pub attach_base64-IsConsistent :
      (i : Intake Blob Encoding) (mime encoded : Text) (s : Store Blob Encoding)
      → IsConsistent s
      → IsConsistent (attach_base64 blob_len i mime encoded s).1
  attach_base64-IsConsistent i mime encoded s h =
      attach_cases blob_len (λ o. IsConsistent o.1) i mime s h kept encoded
    where
      kept :
          (blob : Blob) → IsConsistent (insert blob_len blob mime i.identity (codes "console") s).1
      kept blob = insert-IsConsistent blob mime i.identity _ s h
