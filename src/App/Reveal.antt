-- ===== src/App/Reveal.antt =====
-- What `reveal_next` uncovers.
use dekopon_console.Base.{
  ◌≡◌, refl, sym, ap, subst, Bool, true, false, not, List, [], ◌∷◌, ◌++◌, some, any, find, map,
  arith, ◌⊎◌, inl, inr, Bool-cases, Option-cases, same_refl, ◌&&◌, ◌||◌, ◌∙◌, Text,
}
use mathlib.Core.Option.{some-injective}
use dekopon_console.App.{
  App, is_revealed, is_field, reveal, reveal_next, cursor_call, call_at, candidates, same_target,
}
use dekopon_console.Redact.Value.{Render, redact, Redaction}
use dekopon_console.Record.{CapabilityCall}
use dekopon_console.View.{RevealedField, CallTarget, is_same_payload, Payload, input, output}

find-some {ℓ} : {A : Type ℓ} (p : A → Bool) (xs : List A) (x : A) → find p xs ≡ some x → p x ≡ true
find-some p [] x h = cc
find-some p (y ∷ ys) x h = elim (Bool-cases (p y)) [
  | inl e ↦ subst (λ z. p z ≡ true) (some-injective y x (rw e at h)) e
  | inr e ↦ find-some p ys x (rw e at h)
]

-- A redaction of this list has this path.
abbrev pub IsRedacted : Text → List Redaction → Type 0
IsRedacted path [] = ⊥
IsRedacted path (d ∷ ds) = (d.path ≡ path) ⊎ IsRedacted path ds

find-candidates :
    (p : RevealedField → Bool) (target : CallTarget) (ds : List Redaction) (f : RevealedField)
    → find p (map (λ d. record { call = target; payload = input; path = d.path }) ds) ≡ some f
    → (f.call ≡ target) × (f.payload ≡ input) × IsRedacted f.path ds
find-candidates p target [] f h = cc
find-candidates p target (d ∷ ds) f h =
    elim (Bool-cases (p (record { call = target; payload = input; path = d.path }))) [
      | inl e ↦
          let same = some-injective _ f (rw e at h) in
          (
            ap (λ (g : RevealedField). g.call) (sym same),
            ap (λ (g : RevealedField). g.payload) (sym same),
            inl (ap (λ (g : RevealedField). g.path) same),
          )
      | inr e ↦ let (c, i, q) = find-candidates p target ds f (rw e at h) in (c, i, inr q)
    ]

same_payload_refl : (p : Payload) → is_same_payload p p ≡ true
unfolding is_same_payload
same_payload_refl input = refl
same_payload_refl output = refl

is_field_refl : (f : RevealedField) → is_field f f ≡ true
unfolding is_field same_target
is_field_refl f = ground (arith, same_payload_refl f.payload, same_refl f.path)

any-append {ℓ} :
    {A : Type ℓ} (p : A → Bool) (xs ys : List A) → any p (xs ++ ys) ≡ (any p xs || any p ys)
any-append p [] ys = refl
any-append p (x ∷ xs) ys = ground (arith, any-append p xs ys)

-- Revealing a field reveals that field and no other: every other one is as hidden as it was.
pub is_revealed-reveal :
    {Assets : Type 0} (f g : RevealedField) (app : App Assets)
    → (is_revealed f (reveal f app) ≡ true)
      × (is_revealed g (reveal f app)
          ≡ (is_revealed g app || (is_field g f && not (is_revealed f app))))
unfolding reveal is_revealed
is_revealed-reveal f g app = elim (Bool-cases (any (is_field f) app.revealed)) [
  | inl e ↦ rw e (e, ground arith)
  | inr e ↦ rw e (
    rw (any-append (is_field f) app.revealed) (ground (arith, is_field_refl f)),
    rw (any-append (is_field g) app.revealed) (ground arith),
  )
]

module _ {Assets : Type 0} (r : Render) (app : App Assets) where
  -- This field is uncovered: it was hidden, it is a redaction of the input of the call under the
  -- cursor, and what is revealed afterwards is what was, and what has its call, its half and its path.
  abbrev pub IsUncovered : RevealedField → App Assets → Type 0
  IsUncovered f after =
      (is_revealed f app ≡ false)
      × (is_revealed f after ≡ true)
      × (cursor_call app ≡ some f.call)
      × ((c : CapabilityCall) × (call_at f.call app ≡ some c)
          × (f.payload ≡ input)
          × IsRedacted f.path (redact r c.input).redactions)
      × ((g : RevealedField) → is_revealed g after ≡ (is_revealed g app || is_field g f))

  revealed_one :
      (target : CallTarget) (c : CapabilityCall) (f : RevealedField)
      → cursor_call app ≡ some target
      → call_at target app ≡ some c
      → find (λ f. not (is_revealed f app)) (candidates r target c) ≡ some f
      → IsUncovered f (reveal f app)
  unfolding candidates
  revealed_one target c f e at found =
      let hidden : is_revealed f app ≡ false =
        ground (arith, find-some (λ g. not (is_revealed g app)) _ f found) in
      let (call, half, path) = find-candidates _ target (redact r c.input).redactions f found in
      (
        hidden,
        (is_revealed-reveal f f app).0,
        e ∙ ap some (sym call),
        (c, ap (λ t. call_at t app) call ∙ at, half, path),
        λ g. (is_revealed-reveal f g app).1 ∙ rw hidden (ground arith),
      )

  -- One keystroke uncovers no field, and then nothing is revealed that was not; or it uncovers one
  -- redacted field of the input of the call under the cursor, and no field of another call, of
  -- another half or at another path.
  pub reveal_next-one :
      ((reveal_next r app).revealed ≡ app.revealed)
      ⊎ ((f : RevealedField) × IsUncovered f (reveal_next r app))
  unfolding reveal_next
  reveal_next-one = elim (Option-cases (cursor_call app)) [
    | inl e ↦ rw (e, reveal_next) (inl refl)
    | inr (target, e) ↦ elim (Option-cases (call_at target app)) [
      | inl e' ↦ rw (e, e', reveal_next) (inl refl)
      | inr (c, e') ↦
          elim (Option-cases (find (λ f. not (is_revealed f app)) (candidates r target c))) [
            | inl none_left ↦ rw (e, e', none_left, reveal_next) (inl refl)
            | inr (f, found) ↦
                let steps : reveal_next r app ≡ reveal f app =
                  rw (e, e', found, reveal_next) refl in
                inr (f, subst (IsUncovered f) (sym steps) (revealed_one target c f e e' found))
          ]
    ]
  ]
