-- ===== src/Assets.antt =====
-- crates/dekopon-tui/src/session/assets.rs: the volatile inventory of one agent entry. The mutex
-- makes each method one step from an inventory to the next. `Blob` stands for
-- `dekopon_model::asset::DiskBlob` and `Encoding` for the protocol's `AssetEncoding`; what a method
-- asks of them, and the base64 decoder, are its arguments.
mod Attach
pub mod Inventory
pub mod Lookup
pub mod History
use dekopon_console.Base.{
  ℕ, suc, ◌+◌, ◌-◌, Bool, true, false, ◌&&◌, ◌||◌, not, List, [], ◌∷◌, ◌++◌, Option, none, some,
  Text, codes, byte_len, is_ascii, all, length, map, ltb, leb, ◌==◌, if◌then◌else◌,
  is_ascii_alphanumeric, u64_max,
}

-- `MAX_BYTES`, `MAX_ITEMS`, `MAX_ENCODED`, `MAX_DECODED`.
abbrev pub max_bytes : ℕ
max_bytes = 67108864

abbrev pub max_items : ℕ
max_items = 16

abbrev pub max_encoded : ℕ
max_encoded = 1048576

abbrev pub max_decoded : ℕ
max_decoded = 524288

pub record AssetRow (Encoding : Type 0) : Type 0 where
  pub id : ℕ
  pub content_type : Text
  pub encoding : Encoding
  pub bytes : Option ℕ
  pub origin : Text
  pub sent : Bool

pub data BlobError : Type 0 where
  capacity too_large unknown disabled : BlobError
  storage : Text → BlobError

pub data Result {ℓ κ} (E : Type ℓ) (A : Type κ) : Type (ℓ ⊔ κ) where
  ok : A → Result E A
  err : E → Result E A

-- An item of the map, with its key.
pub record Item (Blob Encoding : Type 0) : Type 0 where
  pub id : ℕ
  pub row : AssetRow Encoding
  pub blob : Blob

-- `Inventory`; the `BTreeMap` is its items in the order of the keys.
pub record Store (Blob Encoding : Type 0) : Type 0 where
  pub next_id : ℕ
  pub bytes : ℕ
  pub items : List (Item Blob Encoding)

-- `char.is_ascii_alphanumeric() || matches!(b, …)` of `attach_base64`.
is_mime_byte : ℕ → Bool
is_mime_byte b =
    is_ascii_alphanumeric b
    || b == b'!'
    || b == b'#'
    || b == b'$'
    || b == b'&'
    || b == b'^'
    || b == b'_'
    || b == b'.'
    || b == b'+'
    || b == b'-'

-- `split_once(c)`.
unfoldable pub split_once : ℕ → Text → Option (Text × Text)
split_once sep [] = none
split_once sep (c ∷ s) = elim (c == sep) [
  | true ↦ some ([], s)
  | false ↦ elim (split_once sep s) [ none ↦ none | some (a, b) ↦ some (c ∷ a, b) ]
]

is_empty : Text → Bool
is_empty [] = true
is_empty (c ∷ s) = false

-- `valid_mime`.
unfoldable pub is_valid_mime : Text → Bool
unfolding is_mime_byte split_once is_empty is_ascii_alphanumeric
is_valid_mime mime =
    leb (byte_len mime) 127
    && not (is_empty mime)
    && all is_ascii mime
    && elim (split_once b'/' mime) [
      | none ↦ false
      | some (kind, subtype) ↦
          not (is_empty kind)
          && not (is_empty subtype)
          && all is_mime_byte kind
          && all is_mime_byte subtype
    ]

module _ {Blob Encoding : Type 0} where
  -- `ConsoleAssets::default()`.
  unfoldable pub empty : Store Blob Encoding
  empty = record { next_id = 0; bytes = 0; items = [] }

  -- `BTreeMap::insert`.
  unfoldable pub insert_item :
      Item Blob Encoding → List (Item Blob Encoding) → List (Item Blob Encoding)
  insert_item x [] = x ∷ []
  insert_item x (y ∷ ys) =
      let rest = insert_item x ys in
      if ltb x.id y.id then x ∷ y ∷ ys else if x.id == y.id then x ∷ ys else y ∷ rest

  -- `BTreeMap::get`.
  unfoldable pub get : ℕ → List (Item Blob Encoding) → Option (Item Blob Encoding)
  get id [] = none
  get id (x ∷ xs) = if x.id == id then some x else get id xs

  -- `BTreeMap::remove`.
  unfoldable pub delete : ℕ → List (Item Blob Encoding) → List (Item Blob Encoding)
  delete id [] = []
  delete id (x ∷ xs) = if x.id == id then xs else x ∷ delete id xs

  abbrev pub shown : Option (Item Blob Encoding) → Option (Text × Blob)
  shown none = none
  shown (some x) = some (x.row.content_type, x.blob)

  -- `ChatAssetSource::fetch_for_capability`; `none` is `UnknownAsset`.
  unfoldable pub fetch : ℕ → Store Blob Encoding → Option (Text × Blob)
  fetch id s = shown (get id s.items)

  -- `ChatAssetSource::rows`.
  unfoldable pub rows : Store Blob Encoding → List (AssetRow Encoding)
  rows s = map (λ x. x.row) s.items

-- What `attach_base64` uses: the decoder, the blob store, the plain encoding, the error's text.
pub record Intake (Blob Encoding : Type 0) : Type 0 where
  pub decode : Text → Result Text Text
  pub from_bytes : Text → Result BlobError Blob
  pub identity : Encoding
  pub describe : BlobError → Text

module _ {Blob Encoding : Type 0} (blob_len : Blob → ℕ) where
  -- `len > MAX_BYTES || inventory.bytes > MAX_BYTES - len`, with the count of items.
  unfoldable pub is_full : ℕ → Store Blob Encoding → Bool
  is_full len s =
      leb max_items (length s.items) || ltb max_bytes len || ltb (max_bytes - len) s.bytes

  -- The row and the blob that `insert` stores.
  unfoldable pub new_item : ℕ → Blob → Text → Encoding → Text → Item Blob Encoding
  new_item id blob content_type encoding origin = record {
    id = id;
    row = record {
      id = id;
      content_type = content_type;
      encoding = encoding;
      bytes = some (blob_len blob);
      origin = origin;
      sent = false;
    };
    blob = blob;
  }

  -- `ConsoleAssets::insert`; the second test is `checked_add`'s.
  unfoldable pub insert :
      Blob → Text → Encoding → Text → Store Blob Encoding → Result BlobError ℕ × Store Blob Encoding
  insert blob content_type encoding origin s =
      let len = blob_len blob in
      let id = suc s.next_id in
      if is_full len s
      then (err capacity, s)
      else if leb u64_max s.next_id
      then (err capacity, s)
      else (
        ok id,
        record {
          next_id = id;
          bytes = s.bytes + len;
          items = insert_item (new_item id blob content_type encoding origin) s.items;
        },
      )

  -- `GeneratedAssetStore::remove`; `is_pinned` is what the blob says at the call.
  unfoldable pub remove :
      (Blob → Bool) → ℕ → Store Blob Encoding → Result BlobError (Unit {0}) × Store Blob Encoding
  remove is_pinned id s = elim (get id s.items) [
    | none ↦ (err unknown, s)
    | some x ↦
        (if is_pinned x.blob
          then (err capacity, s)
          else (ok tt, record s { bytes = s.bytes - blob_len x.blob; items = delete id s.items }))
  ]

  -- `GeneratedAssetStore::register`: `size` is `metadata.bytes`, and `from_descriptor` reads the
  -- descriptor into a blob.
  unfoldable pub register :
      (ℕ → Result BlobError Blob)
      → ℕ
      → Text
      → Encoding
      → Store Blob Encoding
      → Result BlobError ℕ × Store Blob Encoding
  register from_descriptor size content_type encoding s =
      if ltb max_bytes size then (err too_large, s) else elim (from_descriptor size) [
        | err e ↦ (err e, s)
        | ok blob ↦ insert blob content_type encoding (codes "provider") s
      ]

  stored :
      Intake Blob Encoding
      → Result BlobError ℕ × Store Blob Encoding
      → Result Text ℕ × Store Blob Encoding
  stored i (ok id, s) = (ok id, s)
  stored i (err e, s) = (err (i.describe e), s)

  keep_blob :
      Intake Blob Encoding
      → Text
      → Store Blob Encoding
      → Result BlobError Blob
      → Result Text ℕ × Store Blob Encoding
  unfolding stored
  keep_blob i mime s (err e) = (err (i.describe e), s)
  keep_blob i mime s (ok blob) = stored i (insert blob mime i.identity (codes "console") s)

  keep_bytes :
      Intake Blob Encoding
      → Text
      → Store Blob Encoding
      → Result Text Text
      → Result Text ℕ × Store Blob Encoding
  unfolding keep_blob
  keep_bytes i mime s (err e) = (err (codes "invalid standard base64: " ++ e), s)
  keep_bytes i mime s (ok bytes) =
      if ltb max_decoded (length bytes)
      then (err (codes "decoded asset exceeds 512 KiB"), s)
      else keep_blob i mime s (i.from_bytes bytes)

  -- `ConsoleAssets::attach_base64`.
  unfoldable pub attach_base64 :
      Intake Blob Encoding → Text → Text → Store Blob Encoding → Result Text ℕ × Store Blob Encoding
  unfolding keep_bytes
  attach_base64 i mime encoded s =
      if not (is_valid_mime mime)
      then (err (codes "invalid MIME type"), s)
      else if ltb max_encoded (byte_len encoded)
      then (err (codes "encoded asset exceeds 1 MiB"), s)
      else keep_bytes i mime s (i.decode encoded)
