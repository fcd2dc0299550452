-- ===== src/Startup/Profiles.antt =====
-- Which profile documents `read_profiles` accepts.
use dekopon_console.Base.{
  ℕ, ◌≤◌, ◌≡◌, ◌≢◌, ◌↔◌, refl, sym, ◌∙◌, Bool, true, false, ◌||◌, List, [], ◌∷◌, ◌++◌, Option, none,
  some, Text, codes, same, same_iff, trim, all, any, All, Bool-cases, ◌⊎◌, inl, inr, arith,
}
use dekopon_console.Assets.{ok, err}
use dekopon_console.Session.{OperatorProfile}
use dekopon_console.Startup.{
  profile, ProfilesDocument, is_name_byte, is_blank, is_outside, is_misnamed, is_misbound, names_of,
  has_default, refuse_default, checked,
}

abbrev pub IsName : Text → Type 0
IsName name = (name ≢ []) × All (λ b. is_name_byte b ≡ true) name

abbrev pub HasText : Option Text → Type 0
HasText none = Unit
HasText (some model) = trim model ≢ []

abbrev pub Within : ℕ → Option ℕ → Type 0
Within most none = Unit
Within most (some n) = (1 ≤ n) × (n ≤ most)

abbrev pub IsBounded : OperatorProfile → Type 0
IsBounded p = HasText p.model × Within 64 p.max_steps × Within 256 p.max_capability_calls

-- Each profile is well formed, and its name is none of the names before it.
abbrev pub AreProfiles : List Text → List OperatorProfile → Type 0
AreProfiles names [] = Unit
AreProfiles names (p ∷ ps) =
    IsName p.name × All (λ n. n ≢ p.name) names × IsBounded p × AreProfiles (p.name ∷ names) ps

abbrev pub NamesOne : Option Text → List OperatorProfile → Type 0
NamesOne none ps = Unit
NamesOne (some d) ps = any (λ (p : OperatorProfile). same d p.name) ps ≡ true

abbrev pub IsDocument : ProfilesDocument → Type 0
IsDocument d = AreProfiles [] d.profiles × NamesOne d.default_profile d.profiles

all_iff : (p : ℕ → Bool) (xs : List ℕ) → (all p xs ≡ true) ↔ All (λ x. p x ≡ true) xs
all_iff p [] = ((λ _. tt), λ _. refl)
all_iff p (x ∷ xs) = ground (arith, all_iff p xs)

pub fresh_iff :
    (name : Text) (names : List Text) → (any (same name) names ≡ false) ↔ All (λ n. n ≢ name) names
fresh_iff name [] = ((λ _. tt), λ _. refl)
fresh_iff name (n ∷ names) = grind (arith, same_iff name n, fresh_iff name names)

is_misnamed_iff :
    (names : List Text) (name : Text)
    → (is_misnamed names name ≡ false) ↔ (IsName name × All (λ n. n ≢ name) names)
unfolding is_misnamed
is_misnamed_iff names [] = ground arith
is_misnamed_iff names (c ∷ name) =
    grind (arith, all_iff is_name_byte (c ∷ name), fresh_iff (c ∷ name) names)

is_blank_iff : (model : Option Text) → (is_blank model ≡ false) ↔ HasText model
unfolding is_blank
is_blank_iff none = ((λ _. tt), λ _. refl)
is_blank_iff (some model) = blank (trim model)
  where
    blank : (t : Text) → (elim t [ [] ↦ true | c ∷ cs ↦ false ] ≡ false) ↔ (t ≢ [])
    blank [] = ground arith
    blank (c ∷ cs) = ground arith

is_outside_iff : (most : ℕ) (n : Option ℕ) → (is_outside most n ≡ false) ↔ Within most n
unfolding is_outside
is_outside_iff most none = ((λ _. tt), λ _. refl)
is_outside_iff most (some n) = ground arith

is_misbound_iff : (p : OperatorProfile) → (is_misbound p ≡ false) ↔ IsBounded p
unfolding is_misbound
is_misbound_iff p = grind (
  arith,
  is_blank_iff p.model,
  is_outside_iff 64 p.max_steps,
  is_outside_iff 256 p.max_capability_calls,
)

abbrev Accepts : List Text → List OperatorProfile → Type 0
Accepts names ps =
    (out : List Text) × (names_of names ps ≡ ok out)
    × AreProfiles names ps
    × ((d : Text)
        → any (same d) out
          ≡ (any (same d) names || any (λ (p : OperatorProfile). same d p.name) ps))

abbrev Refuses : List Text → List OperatorProfile → Type 0
Refuses names ps = (m : Text) × (names_of names ps ≡ err (profile m)) × ((AreProfiles names ps) → ⊥)

names_of-cases :
    (names : List Text) (ps : List OperatorProfile) → Accepts names ps ⊎ Refuses names ps
unfolding names_of
names_of-cases names [] = inl (names, refl, tt, λ d. ground arith)
names_of-cases names (p ∷ ps) = elim (Bool-cases (is_misnamed names p.name)) [
  | inl misnamed ↦ inr (
    codes "invalid or duplicate profile name: " ++ p.name,
    rw misnamed refl,
    λ h. ground (arith, misnamed, (is_misnamed_iff names p.name).1 (h.0, h.1)),
  )
  | inr named ↦ elim (Bool-cases (is_misbound p)) [
    | inl misbound ↦ inr (
      codes "invalid model or bounds in profile " ++ p.name,
      rw (named, misbound) refl,
      λ h. ground (arith, misbound, (is_misbound_iff p).1 h.2),
    )
    | inr bounded ↦ elim (names_of-cases (p.name ∷ names) ps) [
      | inl (out, e, h, members) ↦
          let name = (is_misnamed_iff names p.name).0 named in
          inl (
            out,
            rw (named, bounded) e,
            (name.0, name.1, (is_misbound_iff p).0 bounded, h),
            λ d. ground (arith, members d),
          )
      | inr (m, e, no_way) ↦ inr (m, rw (named, bounded) e, λ h. no_way h.3)
    ]
  ]
]

default_lem :
    (o : Option Text) (names : List Text) (ps : List OperatorProfile) (d : ProfilesDocument)
    → ((t : Text) → any (same t) names ≡ any (λ (p : OperatorProfile). same t p.name) ps)
    → ((refuse_default (has_default o names) d ≡ ok d) × NamesOne o ps)
      ⊎ ((m : Text) × (refuse_default (has_default o names) d ≡ err (profile m))
          × ((NamesOne o ps) → ⊥))
unfolding has_default refuse_default
default_lem none names ps d h = inl (refl, tt)
default_lem (some t) names ps d h = elim (Bool-cases (any (same t) names)) [
  | inl there ↦ inl (rw there refl, sym (h t) ∙ there)
  | inr missing ↦ inr (
    codes "defaultProfile " ++ t ++ codes " has no matching profile",
    rw missing refl,
    λ is_there. ground (arith, missing, is_there, h t),
  )
]

-- A parsed document is taken as it is, if it is one in which every profile has a name of the
-- permitted characters that no profile before it has, a model that is not blank and bounds within
-- 1 to 64 and 1 to 256, where it has them, and whose default profile, if it has one, is among them;
-- any other document is refused as a profile configuration.
pub checked-cases :
    (d : ProfilesDocument)
    → ((checked d ≡ ok d) × IsDocument d)
      ⊎ ((m : Text) × (checked d ≡ err (profile m)) × ((IsDocument d) → ⊥))
unfolding checked
checked-cases d = elim (names_of-cases [] d.profiles) [
  | inl (names, e, h, members) ↦ elim (default_lem d.default_profile names d.profiles d members) [
    | inl (same_document, one) ↦ inl (rw e same_document, (h, one))
    | inr (m, refused, no_one) ↦ inr (m, rw e refused, λ document. no_one document.1)
  ]
  | inr (m, e, no_way) ↦ inr (m, rw e refl, λ document. no_way document.0)
]
