-- ===== src/Dispatch/Hops.antt =====
-- Which profile an agent is entered with, and what is left of the agent before.
use mathlib.Core.List.{Mem, mem-cons_self, mem-cons_of_mem}
use dekopon_console.Base.{
  ◌≡◌, ap, subst, Bool, true, false, ◌&&◌, not, List, [], ◌∷◌, Option, none, some, Text, any,
  filter, find, length, arith, inl, inr, Bool-cases, Option-cases, is_some, is_none, ltb, same_iff,
}
use dekopon_console.Dispatch.Enter.{
  bound, named, for_agent, fixed_elsewhere, or_first, preferred, settled_on, choose,
}
use dekopon_console.Session.{ConsoleOptions, OperatorProfile}

module _ {A : Type 0} where
  -- The first of the elements that pass two tests passes both, and is one of them.
  find-filter :
      (p q : A → Bool) (xs : List A) (x : A)
      → find p (filter q xs) ≡ some x
      → Mem x xs × (p x ≡ true) × (q x ≡ true)
  find-filter p q [] x e = ground arith
  find-filter p q (y ∷ ys) x e = elim (Bool-cases (q y)) [
    | inl qy ↦ elim (Bool-cases (p y)) [
      | inl py ↦
          let y≡x : y ≡ x = ground (arith, e, qy, py) in
          (
            subst (λ z. Mem z (y ∷ ys)) y≡x mem-cons_self,
            subst (λ z. p z ≡ true) y≡x py,
            subst (λ z. q z ≡ true) y≡x qy,
          )
      | inr py ↦
          let rest = find-filter p q ys x (ground (arith, e, qy, py)) in
          (mem-cons_of_mem y rest.0, rest.1, rest.2)
    ]
    | inr qy ↦
        let rest = find-filter p q ys x (ground (arith, e, qy)) in
        (mem-cons_of_mem y rest.0, rest.1, rest.2)
  ]

  find-settled :
      (p q : A → Bool) (xs : List A)
      → any p xs ≡ true
      → any (λ x. p x && not (q x)) xs ≡ false
      → is_some (find p (filter q xs)) ≡ true
  find-settled p q [] h k = ground arith
  find-settled p q (y ∷ ys) h k = ground (arith, find-settled p q ys)

first-filter :
    (q : OperatorProfile → Bool) (xs : List OperatorProfile) (x : OperatorProfile)
    → or_first none (filter q xs) ≡ some x
    → Mem x xs × (q x ≡ true)
unfolding or_first
first-filter q [] x e = ground arith
first-filter q (y ∷ ys) x e = elim (Bool-cases (q y)) [
  | inl qy ↦
      let y≡x : y ≡ x = ground (arith, e, qy) in
      (subst (λ z. Mem z (y ∷ ys)) y≡x mem-cons_self, subst (λ z. q z ≡ true) y≡x qy)
  | inr qy ↦
      let rest = first-filter q ys x (ground (arith, e, qy)) in (mem-cons_of_mem y rest.0, rest.1)
]

preferred-filter :
    (fixed : Option Text) (q : OperatorProfile → Bool) (xs : List OperatorProfile)
    (x : OperatorProfile)
    → preferred fixed (filter q xs) ≡ some x
    → Mem x xs × (q x ≡ true)
unfolding preferred or_first
preferred-filter none q xs x e = first-filter q xs x e
preferred-filter (some name) q xs x e = elim (Option-cases (find (named name) (filter q xs))) [
  | inl absent ↦ first-filter q xs x (rw absent at e)
  | inr (y, found) ↦
      let both = find-filter (named name) q xs x (ground (arith, found, e)) in (both.0, both.2)
]

bound_inj : (p q : OperatorProfile) → bound p ≡ bound q → p ≡ q
bound_inj p q e = ground arith

settled_on-bound :
    (agent : Text) (o : Option OperatorProfile) (ps : List OperatorProfile) (p : OperatorProfile)
    → settled_on agent o ps ≡ bound p
    → o ≡ some p
unfolding settled_on
settled_on-bound agent (some q) ps p e = ap some (bound_inj q p e)
settled_on-bound agent none [] p e = ground arith
settled_on-bound agent none (q ∷ qs) p e = ground arith

-- What `choose` had before it when it gave a profile.
choose-bound :
    (o : ConsoleOptions) (agent : Text) (p : OperatorProfile)
    → choose o agent ≡ bound p
    → (fixed_elsewhere o.fixed_profile agent o.profiles ≡ false)
      × (preferred o.fixed_profile (filter (for_agent agent) o.profiles) ≡ some p)
unfolding choose
choose-bound o agent p e = elim (Bool-cases (fixed_elsewhere o.fixed_profile agent o.profiles)) [
  | inl away ↦ absurd (ground (arith, e, away))
  | inr here ↦
      elim (Bool-cases
        (ltb 1 (length (filter (for_agent agent) o.profiles)) && is_none o.fixed_profile)) [
          | inl several ↦ absurd (ground (arith, e, here, several))
          | inr one ↦ (
            here,
            settled_on-bound agent (preferred o.fixed_profile (filter (for_agent agent) o.profiles))
                o.profiles p (ground (arith, e, here, one)),
          )
        ]
]

-- A profile that an agent is entered with is one of the options' profiles and is bound to that agent.
pub choose-Binds :
    (o : ConsoleOptions) (agent : Text) (p : OperatorProfile)
    → choose o agent ≡ bound p
    → Mem p o.profiles × (p.agent ≡ agent)
choose-Binds o agent p e =
    let both =
      preferred-filter o.fixed_profile (for_agent agent) o.profiles p
        (choose-bound o agent p e).1 in
    (both.0, (same_iff p.agent agent).0 both.1)

-- With `--profile`, where a profile of that name exists, it is that profile.
pub choose_fixed :
    (o : ConsoleOptions) (agent : Text) (p : OperatorProfile) (name : Text)
    → choose o agent ≡ bound p
    → o.fixed_profile ≡ some name
    → any (named name) o.profiles ≡ true
    → p.name ≡ name
unfolding fixed_elsewhere preferred or_first
choose_fixed o agent p name e fixed there =
    let both = choose-bound o agent p e in
    let found = find-settled (named name) (for_agent agent) o.profiles there (rw fixed at both.0) in
    elim (Option-cases (find (named name) (filter (for_agent agent) o.profiles))) [
      | inl absent ↦ absurd (ground (arith, found, absent))
      | inr (q, is_q) ↦
          let both_tests = find-filter (named name) (for_agent agent) o.profiles q is_q in
          let q≡p : q ≡ p = ground (arith, both.1, fixed, is_q) in
          subst (λ z. z.name ≡ name) q≡p ((same_iff q.name name).0 both_tests.1)
    ]
