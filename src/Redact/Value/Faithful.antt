-- ===== src/Redact/Value/Faithful.antt =====
-- What redaction leaves as it is.
use dekopon_console.Base.{
  ℕ, suc, ◌≡◌, refl, Bool, true, false, List, [], ◌∷◌, ◌++◌, Text, arith, ap,
}
use dekopon_console.Redact.Value.{
  Value, Items, Fields, null, boolean, number, string, array, object, nil, cons, end, field, Render,
  Redaction, child_path, note, key_is_secret, hide, walk_string, walk, walk_items, walk_fields,
  redact, is_clean,
}

append_nil : (xs ys : List Redaction) → xs ++ ys ≡ [] → (xs ≡ []) × (ys ≡ [])
append_nil [] ys h = (refl, h)
append_nil (x ∷ xs) ys h = cc

-- A report with no entry means that the value was kept.
abbrev Keeps {ℓ} : {A : Type ℓ} → A → A × List Redaction → Type ℓ
Keeps v result = result.1 ≡ [] → result.0 ≡ v

hide-Keeps : (r : Render) (v : Value) (path : Text) → Keeps v (hide r v path)
unfolding hide note
hide-Keeps r v path h = cc

walk_string-Keeps :
    (r : Render) (s : Text) (secret : Bool) (path : Text)
    → Keeps (string s) (walk_string r s secret path)
unfolding walk_string note
walk_string-Keeps r s true path h = cc
walk_string-Keeps r s false path h = ground arith

mutual
  unfolding walk

  walk-Keeps :
      (r : Render) (v : Value) (secret : Bool) (path : Text) → Keeps v (walk r v secret path)
  walk-Keeps r null secret path h = refl
  walk-Keeps r (string s) secret path h = walk_string-Keeps r s secret path h
  walk-Keeps r (boolean b) true path h = hide-Keeps r (boolean b) path h
  walk-Keeps r (boolean b) false path h = refl
  walk-Keeps r (number n) true path h = hide-Keeps r (number n) path h
  walk-Keeps r (number n) false path h = refl
  walk-Keeps r (array items) true path h = hide-Keeps r (array items) path h
  walk-Keeps r (array items) false path h = ap array (walk_items-Keeps r items 0 path h)
  walk-Keeps r (object fields) true path h = hide-Keeps r (object fields) path h
  walk-Keeps r (object fields) false path h = ap object (walk_fields-Keeps r fields path h)

  walk_items-Keeps :
      (r : Render) (items : Items) (i : ℕ) (path : Text) → Keeps items (walk_items r items i path)
  walk_items-Keeps r nil i path h = refl
  walk_items-Keeps r (cons v items) i path h =
      let found = (walk r v false (child_path path (r.index i))).1 in
      let (first, rest) = append_nil found (walk_items r items (suc i) path).1 h in
      cc (
        walk-Keeps r v false (child_path path (r.index i)) first,
        walk_items-Keeps r items (suc i) path rest,
      )

  walk_fields-Keeps :
      (r : Render) (fields : Fields) (path : Text) → Keeps fields (walk_fields r fields path)
  walk_fields-Keeps r end path h = refl
  walk_fields-Keeps r (field k v fields) path h =
      let secret = key_is_secret r.lowercase k in
      let found = (walk r v secret (child_path path k)).1 in
      let (first, rest) = append_nil found (walk_fields r fields path).1 h in
      cc (walk-Keeps r v secret (child_path path k) first, walk_fields-Keeps r fields path rest)

-- When nothing is reported as hidden, the value drawn is the value given.
pub redact-clean : (r : Render) (v : Value) → is_clean (redact r v) ≡ true → (redact r v).value ≡ v
unfolding redact is_clean
redact-clean r v h = walk-Keeps r v false [] (ground arith)
