-- ===== src/Assets/Attach.antt =====
-- The ways in which `attach_base64` of assets.rs can end.
use dekopon_console.Base.{
  ℕ, Option, none, some, Text, codes, byte_len, length, ltb, Bool-cases, inl, inr,
}
use dekopon_console.Assets.{
  Store, Result, ok, err, BlobError, Intake, max_encoded, max_decoded, is_valid_mime, insert,
  stored, keep_blob, keep_bytes, attach_base64,
}

-- The id that a call issues.
abbrev pub issued {ℓ} : {E : Type ℓ} → Result E ℕ → Option ℕ
issued (ok id) = some id
issued (err e) = none

module _ {ℓ} {Blob Encoding : Type 0} (blob_len : Blob → ℕ)
    (P : Option ℕ × Store Blob Encoding → Type ℓ) where
  stored_cases :
      (i : Intake Blob Encoding) (r : Result BlobError ℕ × Store Blob Encoding)
      → P (issued r.0, r.1)
      → P (issued (stored blob_len i r).0, (stored blob_len i r).1)
  unfolding stored
  stored_cases i (ok id, s) h = h
  stored_cases i (err e, s) h = h

  module _ (i : Intake Blob Encoding) (mime : Text) (s : Store Blob Encoding) (kept : P (none, s))
      (stores : (blob : Blob)
        → let (r, s') = insert blob_len blob mime i.identity (codes "console") s in
          P (issued r, s')) where
    keep_blob_cases :
        (r : Result BlobError Blob)
        → let (q, s') = keep_blob blob_len i mime s r in P (issued q, s')
    unfolding keep_blob
    keep_blob_cases (err e) = kept
    keep_blob_cases (ok blob) = stored_cases i _ (stores blob)

    keep_bytes_cases :
        (r : Result Text Text) → let (q, s') = keep_bytes blob_len i mime s r in P (issued q, s')
    unfolding keep_bytes
    keep_bytes_cases (err e) = kept
    keep_bytes_cases (ok bytes) = elim (Bool-cases (ltb max_decoded (length bytes))) [
      | inl long ↦ rw long kept
      | inr short ↦ rw short (keep_blob_cases (i.from_bytes bytes))
    ]

    -- Either nothing is stored, or one blob is, through `insert`.
    pub attach_cases :
        (encoded : Text) → let (q, s') = attach_base64 blob_len i mime encoded s in P (issued q, s')
    unfolding attach_base64
    attach_cases encoded = elim (Bool-cases (is_valid_mime mime)) [
      | inr bad ↦ rw bad kept
      | inl good ↦ elim (Bool-cases (ltb max_encoded (byte_len encoded))) [
        | inl long ↦ rw (good, long) kept
        | inr short ↦ rw (good, short) (keep_bytes_cases (i.decode encoded))
      ]
    ]
