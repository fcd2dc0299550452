-- ===== src/Assets/Lookup.antt =====
-- What `fetch_for_capability` finds after a change of the inventory.
use dekopon_console.Base.{
  ℕ, suc, ◌≤◌, ◌<◌, ◌≡◌, refl, Bool, List, [], ◌∷◌, ◌++◌, none, some, Text, if◌then◌else◌, ◌==◌,
  arith,
}
use dekopon_console.Assets.{Item, Store, ok, get, delete, new_item, shown, insert, remove, fetch}
use dekopon_console.Assets.Inventory.{
  Rising, Rising-le, IsConsistent, insert_item_last, new_item_lem,
}

module _ {Blob Encoding : Type 0} (blob_len : Blob → ℕ) where
  get_above :
      (xs : List (Item Blob Encoding)) (low high j : ℕ)
      → Rising blob_len low high xs
      → high < j
      → get j xs ≡ none
  unfolding get
  get_above [] low high j r h = refl
  get_above (x ∷ xs) low high j r h =
      ground (arith, get_above xs x.id high j r.3 h, Rising-le blob_len x.id high xs r.3)

  get_below :
      (xs : List (Item Blob Encoding)) (low high j : ℕ)
      → Rising blob_len low high xs
      → j ≤ low
      → get j xs ≡ none
  unfolding get
  get_below [] low high j r h = refl
  get_below (x ∷ xs) low high j r h = ground (arith, get_below xs x.id high j r.3)

  get-append :
      (xs : List (Item Blob Encoding)) (x : Item Blob Encoding) (low high j : ℕ)
      → Rising blob_len low high xs
      → high < x.id
      → get j (xs ++ x ∷ []) ≡ (if x.id == j then some x else get j xs)
  unfolding get
  get-append [] x low high j r h = refl
  get-append (y ∷ ys) x low high j r h =
      ground (arith, get-append ys x y.id high j r.3 h, Rising-le blob_len y.id high ys r.3)

  get-delete :
      (xs : List (Item Blob Encoding)) (low high id j : ℕ)
      → Rising blob_len low high xs
      → get j (delete id xs) ≡ (if id == j then none else get j xs)
  unfolding get delete
  get-delete [] low high id j r = ground arith
  get-delete (x ∷ xs) low high id j r =
      ground (arith, get-delete xs x.id high id j r.3, get_below xs x.id high j r.3)

  -- What a successful `insert` returns and leaves.
  pub insert_ok :
      (blob : Blob) (content_type : Text) (encoding : Encoding) (origin : Text)
      (s : Store Blob Encoding) (id : ℕ)
      → IsConsistent blob_len s
      → (insert blob_len blob content_type encoding origin s).0 ≡ ok id
      → let s' = (insert blob_len blob content_type encoding origin s).1 in
        (id ≡ suc s.next_id)
        × (s'.next_id ≡ id)
        × (s'.items ≡ s.items ++ new_item blob_len id blob content_type encoding origin ∷ [])
  unfolding insert
  insert_ok blob content_type encoding origin s id h e =
      let x = new_item blob_len (suc s.next_id) blob content_type encoding origin in
      let key = (new_item_lem blob_len (suc s.next_id) blob content_type encoding origin).0 in
      let last = insert_item_last blob_len x 0 s.next_id s.items h.rising (omega (arith, key)) in
      ground (arith, last)

  new_item_shows :
      (id : ℕ) (blob : Blob) (content_type : Text) (encoding : Encoding) (origin : Text)
      → shown (some (new_item blob_len id blob content_type encoding origin))
        ≡ some (content_type, blob)
  unfolding new_item
  new_item_shows id blob content_type encoding origin = refl

  -- A blob stored under a new id is fetched by it, with its type, and every other id answers as
  -- before.
  pub fetch-insert :
      (blob : Blob) (content_type : Text) (encoding : Encoding) (origin : Text)
      (s : Store Blob Encoding) (id j : ℕ)
      → IsConsistent blob_len s
      → (insert blob_len blob content_type encoding origin s).0 ≡ ok id
      → fetch j (insert blob_len blob content_type encoding origin s).1
        ≡ (if id == j then some (content_type, blob) else fetch j s)
  unfolding fetch
  fetch-insert blob content_type encoding origin s id j h e =
      let x = new_item blob_len id blob content_type encoding origin in
      let (fresh, _, items) = insert_ok blob content_type encoding origin s id h e in
      let key = (new_item_lem blob_len id blob content_type encoding origin).0 in
      let found = get-append s.items x 0 s.next_id j h.rising (omega (arith, key, fresh)) in
      ground (arith, items, found, key, new_item_shows id blob content_type encoding origin)

  -- A removed id is unknown from then on, and every other id answers as before.
  pub fetch-remove :
      (is_pinned : Blob → Bool) (id j : ℕ) (s : Store Blob Encoding)
      → IsConsistent blob_len s
      → (remove blob_len is_pinned id s).0 ≡ ok tt
      → fetch j (remove blob_len is_pinned id s).1 ≡ (if id == j then none else fetch j s)
  unfolding remove fetch
  fetch-remove is_pinned id j s h e = ground (arith, get-delete s.items 0 s.next_id id j h.rising)
