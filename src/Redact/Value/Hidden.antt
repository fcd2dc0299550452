-- ===== src/Redact/Value/Hidden.antt =====
-- What a redacted value shows under a secret key.
use dekopon_console.Base.{
  ℕ, ◌≡◌, refl, Bool, true, false, [], Text, ◌⊎◌, inl, inr, Option-cases, Bool-cases,
}
use dekopon_console.Redact.Runs.{redact_text}
use dekopon_console.Redact.Value.{
  Value, Items, Fields, null, boolean, number, string, array, object, nil, cons, end, field, Render,
  key_is_secret, walk_string, hide, walk, walk_items, walk_fields, redact,
}

-- Null, or one marker in place of all that stood there.
abbrev pub IsMarker : Render → Value → Type 0
IsMarker r v = (v ≡ null) ⊎ ((n : ℕ) × (v ≡ string (r.marker n)))

-- Under every secret key, at any depth, stands null or a marker.
unfoldable mutual
  pub Hides : Render → Value → Type 0
  Hides r null = Unit
  Hides r (boolean b) = Unit
  Hides r (number n) = Unit
  Hides r (string s) = Unit
  Hides r (array items) = HidesItems r items
  Hides r (object fields) = HidesFields r fields

  HidesItems : Render → Items → Type 0
  HidesItems r nil = Unit
  HidesItems r (cons v items) = Hides r v × HidesItems r items

  HidesFields : Render → Fields → Type 0
  HidesFields r end = Unit
  HidesFields r (field k v fields) =
      ((key_is_secret r.lowercase k ≡ false) ⊎ IsMarker r v) × Hides r v × HidesFields r fields

walk-IsMarker :
    (r : Render) (v : Value) (secret : Bool) (path : Text)
    → secret ≡ true
    → IsMarker r (walk r v secret path).0
unfolding walk walk_string hide
walk-IsMarker r null secret path e = inl refl
walk-IsMarker r (boolean b) secret path e = rw e (inr (_, refl))
walk-IsMarker r (number n) secret path e = rw e (inr (_, refl))
walk-IsMarker r (string s) secret path e = rw e (inr (_, refl))
walk-IsMarker r (array items) secret path e = rw e (inr (_, refl))
walk-IsMarker r (object fields) secret path e = rw e (inr (_, refl))

walk_key :
    (r : Render) (k : Text) (v : Value) (path : Text)
    → (key_is_secret r.lowercase k ≡ false)
      ⊎ IsMarker r (walk r v (key_is_secret r.lowercase k) path).0
walk_key r k v path = elim (Bool-cases (key_is_secret r.lowercase k)) [
  | inl e ↦ inr (walk-IsMarker r v (key_is_secret r.lowercase k) path e)
  | inr e ↦ inl e
]

walk_string-Hides :
    (r : Render) (s : Text) (secret : Bool) (path : Text) → Hides r (walk_string r s secret path).0
unfolding walk_string Hides
walk_string-Hides r s true path = tt
walk_string-Hides r s false path = elim (Option-cases (redact_text r.marker s)) [
  | inl e ↦ rw (e, walk_string) tt
  | inr (out, e) ↦ rw (e, walk_string) tt
]

mutual
  unfolding walk Hides hide

  walk-Hides :
      (r : Render) (v : Value) (secret : Bool) (path : Text) → Hides r (walk r v secret path).0
  walk-Hides r null secret path = tt
  walk-Hides r (boolean b) true path = tt
  walk-Hides r (boolean b) false path = tt
  walk-Hides r (number n) true path = tt
  walk-Hides r (number n) false path = tt
  walk-Hides r (string s) secret path = walk_string-Hides r s secret path
  walk-Hides r (array items) true path = tt
  walk-Hides r (array items) false path = walk_items-Hides r items 0 path
  walk-Hides r (object fields) true path = tt
  walk-Hides r (object fields) false path = walk_fields-Hides r fields path

  walk_items-Hides :
      (r : Render) (items : Items) (i : ℕ) (path : Text)
      → HidesItems r (walk_items r items i path).0
  walk_items-Hides r nil i path = tt
  walk_items-Hides r (cons v items) i path =
      (walk-Hides r v false _, walk_items-Hides r items _ path)

  walk_fields-Hides :
      (r : Render) (fields : Fields) (path : Text) → HidesFields r (walk_fields r fields path).0
  walk_fields-Hides r end path = tt
  walk_fields-Hides r (field k v fields) path =
      (walk_key r k v _, walk-Hides r v _ _, walk_fields-Hides r fields path)

-- Whatever the value, in the redacted one every field whose key names a secret, at any depth, holds
-- null or a marker: not the value, nor any part of it.
pub redact-Hides : (r : Render) (v : Value) → Hides r (redact r v).value
unfolding redact
redact-Hides r v = walk-Hides r v false []
