-- ===== src/Report/Chain.antt =====
-- No cause is left out of an error's text, and the refusal shown is the outermost one.
use dekopon_console.Base.{
  ◌≡◌, refl, sym, ap, ◌∙◌, true, List, [], ◌∷◌, ◌++◌, Option, none, some, Text, codes, same,
  same_iff, ends_with, append_assoc, append-nil, if◌then◌else◌, Bool-cases, inl, inr, All, arith,
}
use dekopon_console.Report.{Link, Failure, ErrorReport, chain, chain_from, add_fact, fact, lookup}

-- One text stands within another.
abbrev pub Within : Text → Text → Type 0
Within t s = (before : Text) × (after : Text) × (s ≡ before ++ t ++ after)

ends_with_lem : (t s : Text) → ends_with t s ≡ true → (before : Text) × (s ≡ before ++ t)
unfolding ends_with
ends_with_lem t [] h = ([], sym ((same_iff t []).0 h))
ends_with_lem t (c ∷ s) h = elim (Bool-cases (same t (c ∷ s))) [
  | inl e ↦ ([], sym ((same_iff t (c ∷ s)).0 e))
  | inr e ↦ let (before, q) = ends_with_lem t s (ground arith) in (c ∷ before, ap (λ r. c ∷ r) q)
]

Within-append : (t s r : Text) → Within t s → Within t (s ++ r)
Within-append t s r (before, after, h) =
    (before, after ++ r, rw h (append_assoc (before ++ t) after r))

-- The text grows at its end only.
chain_from-grows : (t : Text) (ls : List Link) → (r : Text) × (chain_from t ls ≡ t ++ r)
unfolding chain_from
chain_from-grows t [] = ([], sym (append-nil t))
chain_from-grows t (l ∷ ls) = elim (Bool-cases (ends_with l.text t)) [
  | inl e ↦ rw e (chain_from-grows t ls)
  | inr e ↦
      let (r, q) = chain_from-grows (t ++ codes ": " ++ l.text) ls in
      (codes ": " ++ l.text ++ r, rw e (q ∙ simp append_assoc))
]

Within-end : (t before : Text) → Within t (before ++ t)
Within-end t before = (before, [], sym (append-nil (before ++ t)))

Within-grown : (t s : Text) (ls : List Link) → Within t s → Within t (chain_from s ls)
Within-grown t s ls h = let (r, q) = chain_from-grows s ls in rw q (Within-append t s r h)

-- After one link its text stands in what is written so far.
link-Within :
    (l : Link) (t : Text)
    → Within l.text (if ends_with l.text t then t else t ++ codes ": " ++ l.text)
link-Within l t = elim (Bool-cases (ends_with l.text t)) [
  | inl e ↦
      let (before, q) = ends_with_lem l.text t e in
      rw e (before, [], q ∙ sym (append-nil (before ++ l.text)))
  | inr e ↦ rw e (Within-end l.text (t ++ codes ": "))
]

chain_from-Within : (t : Text) (ls : List Link) → All (λ l. Within l.text (chain_from t ls)) ls
unfolding chain_from
chain_from-Within t [] = tt
chain_from-Within t (l ∷ ls) = (
  Within-grown l.text _ ls (link-Within l t),
  chain_from-Within (if ends_with l.text t then t else t ++ codes ": " ++ l.text) ls,
)

-- The text of the error and the text of each of its sources stand in the chain's text.
pub chain-Within : (f : Failure) → All (λ l. Within l.text (chain f)) (f.top ∷ f.sources)
unfolding chain
chain-Within f = (
  Within-grown f.top.text _ f.sources (Within-end f.top.text []),
  chain_from-Within f.top.text f.sources,
)

-- A fact looked up is the first one added under its label.
pub fact-add_fact :
    (label value asked : Text) (r : ErrorReport)
    → fact asked (add_fact label value r) ≡ elim (fact asked r) [
      | some v ↦ some v
      | none ↦ if same label asked then some value else none
    ]
unfolding fact add_fact
fact-add_fact label value asked r = lookup-append r.context
  where
    lookup-append :
        (facts : List (Text × Text))
        → lookup asked (facts ++ (label, value) ∷ [])
          ≡ elim (lookup asked facts) as (λ o. Option Text) [
            | some v ↦ some v
            | none ↦ if same label asked then some value else none
          ]
    lookup-append [] = refl
    lookup-append ((k, v) ∷ facts) = elim (Bool-cases (same k asked)) [
      | inl e ↦ rw e refl
      | inr e ↦ rw e (lookup-append facts)
    ]
