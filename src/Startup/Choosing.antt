-- ===== src/Startup/Choosing.antt =====
-- What `choose` gives among profiles whose names are not repeated.
use dekopon_console.Base.{
  ◌≡◌, refl, ap, ◌∙◌, Bool, true, false, ◌&&◌, not, List, [], ◌∷◌, none, some, Text, same, same_iff,
  same_refl, any, find, filter, ltb, length, Bool-cases, inl, inr, arith,
}
use dekopon_console.Dispatch.Enter.{
  unbound, bound, named, for_agent, fixed_elsewhere, or_first, preferred, settled_on, choose,
}
use dekopon_console.Session.{OperatorProfile, ConsoleOptions}
use dekopon_console.Startup.Selection.{unwrap_or, first}
use dekopon_console.Startup.Profiles.{fresh_iff, AreProfiles}

-- No two profiles of a document have one name: the profile of a name is for its agent only.
other_names :
    (name agent : Text) (names : List Text) (ps : List OperatorProfile)
    → AreProfiles names ps
    → any (same name) names ≡ true
    → any (λ p. named name p && not (for_agent agent p)) ps ≡ false
other_names name agent names [] h there = refl
other_names name agent names (p ∷ ps) h there = elim (Bool-cases (same p.name name)) [
  | inl is_named ↦
      let equal = (same_iff p.name name).0 is_named in
      ground (arith, there, ap (λ t. any (same t) names) equal, (fresh_iff p.name names).1 h.1)
  | inr not_named ↦
      rw (not_named, other_names name agent (p.name ∷ names) ps h.3 (ground (arith, there))) refl
]

one_name :
    (name : Text) (names : List Text) (ps : List OperatorProfile) (p : OperatorProfile)
    → AreProfiles names ps
    → find (named name) ps ≡ some p
    → any (λ q. named name q && not (for_agent p.agent q)) ps ≡ false
one_name name names [] p h e = refl
one_name name names (q ∷ ps) p h e = elim (Bool-cases (same q.name name)) [
  | inl is_named ↦
      let found : q ≡ p = ap (λ o. unwrap_or o q) (rw is_named at e) in
      let same_agent : same q.agent p.agent ≡ true = rw found (same_refl p.agent) in
      let here : same name q.name ≡ true =
        rw ((same_iff q.name name).0 is_named) (same_refl name) in
      rw (is_named, same_agent, other_names name p.agent (q.name ∷ names) ps h.3 (rw here refl))
        refl
  | inr not_named ↦ rw (not_named, one_name name (q.name ∷ names) ps p h.3 (rw not_named at e)) refl
]

module _ {A : Type 0} where
  find_filter :
      (f g : A → Bool) (xs : List A) (x : A)
      → find f xs ≡ some x
      → g x ≡ true
      → find f (filter g xs) ≡ some x
  find_filter f g [] x e h = e
  find_filter f g (y ∷ ys) x e h = elim (Bool-cases (f y)) [
    | inl fy ↦
        let found : y ≡ x = ap (λ o. unwrap_or o y) (rw fy at e) in
        let gy : g y ≡ true = ap g found ∙ h in rw (gy, fy) (ap some found)
    | inr fy ↦ elim (Bool-cases (g y)) [
      | inl gy ↦ rw (gy, fy) (find_filter f g ys x (rw fy at e) h)
      | inr gy ↦ rw gy (find_filter f g ys x (rw fy at e) h)
    ]
  ]

pub choose-named :
    (o : ConsoleOptions) (name : Text) (p : OperatorProfile)
    → o.fixed_profile ≡ some name
    → AreProfiles [] o.profiles
    → find (named name) o.profiles ≡ some p
    → choose o p.agent ≡ bound p
unfolding choose fixed_elsewhere preferred or_first settled_on
choose-named o name p fixed h e =
    let one = one_name name [] o.profiles p h e in
    let found = find_filter (named name) (for_agent p.agent) o.profiles p e (same_refl p.agent) in
    rw (fixed, one, found) (ground arith)

or_first_lem : (ps : List OperatorProfile) → or_first none ps ≡ first ps
unfolding or_first
or_first_lem [] = refl
or_first_lem (p ∷ ps) = refl

pub choose-only :
    (o : ConsoleOptions) (agent : Text) (p : OperatorProfile)
    → o.fixed_profile ≡ none
    → ltb 1 (length (filter (for_agent agent) o.profiles)) ≡ false
    → first (filter (for_agent agent) o.profiles) ≡ some p
    → choose o agent ≡ bound p
unfolding choose fixed_elsewhere preferred or_first settled_on
choose-only o agent p fixed few e =
    rw (fixed, few, or_first_lem (filter (for_agent agent) o.profiles), e) refl

pub choose-unbound :
    (o : ConsoleOptions) (agent : Text)
    → o.fixed_profile ≡ none
    → o.profiles ≡ []
    → choose o agent ≡ unbound
unfolding choose fixed_elsewhere preferred or_first settled_on
choose-unbound o agent fixed e = rw (fixed, e) refl
