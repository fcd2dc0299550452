-- ===== src/Startup/Entry.antt =====
-- The console that `execute` opens enters its initial agent just as it was started.
use dekopon_console.Base.{
  ℕ, ◌≡◌, ◌⊎◌, refl, sym, ap, ◌∙◌, Bool, true, false, ◌&&◌, List, [], ◌∷◌, Option, none, some, Text,
  same, same_iff, any, find, filter, ltb, length, if◌then◌else◌, Option-cases, inl, inr, arith,
  is_some, is_none,
}
use dekopon_console.Assets.{Result, ok}
use dekopon_console.Dispatch.Enter.{unbound, bound, named, for_agent, choose, adopt, or_number}
use dekopon_console.Session.{OperatorProfile, ConsoleOptions}
use dekopon_console.Startup.{Cli, ProfilesDocument, refuse_if}
use dekopon_console.Startup.Launch.{options_of, subject_of}
use dekopon_console.Startup.Selection.{
  or_else, unwrap_or, field_of, chosen_name, is_unknown, matching, first, find_named,
  initial_profile, is_conflict, selection,
}
use dekopon_console.Startup.Profiles.{AreProfiles}
use dekopon_console.Startup.Choosing.{choose-named, choose-only, choose-unbound}

-- What a test that refuses has not refused.
pub refuse_if_ok :
    {E A : Type 0} (b : Bool) (e : E) (r : Result E A) (a : A)
    → refuse_if b e r ≡ ok a
    → (b ≡ false) × (r ≡ ok a)
refuse_if_ok true e r a h = ground (arith, h)
refuse_if_ok false e r a h = (refl, h)

-- What `execute` knows of the profile that it starts with.
record Selected (cli : Cli) (d : ProfilesDocument) (initial : Option OperatorProfile) : Type 0 where
  known : is_unknown cli.profile d.profiles ≡ false
  few :
      (is_some cli.agent && is_none cli.profile && ltb 1 (length (matching cli.agent d.profiles)))
      ≡ false
  alone : (is_some cli.subject && ltb 0 (length d.profiles)) ≡ false
  agrees : is_conflict cli.agent initial ≡ false
  is_initial : initial_profile cli d ≡ initial

selection-Selected :
    (cli : Cli) (d : ProfilesDocument) (initial : Option OperatorProfile)
    → selection cli d ≡ ok initial
    → Selected cli d initial
unfolding selection
selection-Selected cli d initial e =
    let (known, e1) = refuse_if_ok (is_unknown cli.profile d.profiles) _ _ _ e in
    let (few, e2) =
      refuse_if_ok
        (is_some cli.agent && is_none cli.profile && ltb 1 (length (matching cli.agent d.profiles)))
        _ _ _ e1 in
    let (alone, e3) = refuse_if_ok (is_some cli.subject && ltb 0 (length d.profiles)) _ _ _ e2 in
    let (agrees, e4) = refuse_if_ok (is_conflict cli.agent (initial_profile cli d)) _ _ _ e3 in
    let (some_subject, e5) =
      refuse_if_ok (is_none cli.subject && is_none (initial_profile cli d) && is_none cli.agent) _ _
        _ e4 in
    let is_initial : initial_profile cli d ≡ initial = ground (arith, e5) in
    record {
      known = known;
      few = few;
      alone = alone;
      agrees = ap (is_conflict cli.agent) (sym is_initial) ∙ agrees;
      is_initial = is_initial;
    }

-- The options under the profile that they were made with are the same options.
adopt-options_of :
    (cli : Cli) (d : ProfilesDocument) (p : OperatorProfile)
    → adopt p (options_of cli d (some p) p.subject) ≡ options_of cli d (some p) p.subject
unfolding adopt options_of or_number
adopt-options_of cli d p =
    rw
      (
        or_number_lem cli.max_steps p.max_steps 8,
        or_number_lem cli.max_capability_calls p.max_capability_calls 16,
      )
      refl
  where
    or_number_lem : (a b : Option ℕ) (n : ℕ) → or_number a b n ≡ unwrap_or (or_else a b) n
    or_number_lem (some a) b n = refl
    or_number_lem none (some b) n = refl
    or_number_lem none none n = refl

-- How the initial agent is entered: with the profile that the console was started with and no change
-- of the options, or without one, when there are no profiles.
abbrev pub Agrees : Option OperatorProfile → ConsoleOptions → Text → Type 0
Agrees initial o agent =
    ((p : OperatorProfile) × (initial ≡ some p) × (choose o agent ≡ bound p) × (adopt p o ≡ o))
    ⊎ ((initial ≡ none) × (o.profiles ≡ []) × (choose o agent ≡ unbound))

bound-Agrees :
    (cli : Cli) (d : ProfilesDocument) (initial : Option OperatorProfile) (subject agent : Text)
    (p : OperatorProfile)
    → initial ≡ some p
    → subject_of cli initial ≡ some subject
    → choose (options_of cli d (some p) p.subject) agent ≡ bound p
    → Agrees initial (options_of cli d initial subject) agent
unfolding subject_of
bound-Agrees cli d initial subject agent p is_p e c =
    let same_subject : p.subject ≡ subject = ap (λ o. unwrap_or o p.subject) (rw is_p at e) in
    rw (is_p, ← same_subject) (inl (p, refl, c, adopt-options_of cli d p))

none_found :
    (f : OperatorProfile → Bool) (ps : List OperatorProfile) → find f ps ≡ none → any f ps ≡ false
none_found f [] e = refl
none_found f (p ∷ ps) e = ground (arith, e, none_found f ps)

-- With `--profile`, it is the profile of that name.
initial_fixed :
    (cli : Cli) (d : ProfilesDocument) (initial : Option OperatorProfile) (name : Text)
    → Selected cli d initial
    → cli.profile ≡ some name
    → (p : OperatorProfile) × (find (named name) d.profiles ≡ some p) × (initial ≡ some p)
unfolding initial_profile chosen_name find_named is_unknown
initial_fixed cli d initial name s fixed = elim (Option-cases (find (named name) d.profiles)) [
  | inl absent ↦
      absurd (ground (arith, rw fixed at s.known, none_found (named name) d.profiles absent))
  | inr (p, found) ↦ (p, found, sym s.is_initial ∙ rw (fixed, found) refl)
]

pub selection-named :
    (cli : Cli) (d : ProfilesDocument) (initial : Option OperatorProfile) (name : Text)
    → selection cli d ≡ ok initial
    → cli.profile ≡ some name
    → (p : OperatorProfile) × (initial ≡ some p)
selection-named cli d initial name e fixed =
    let found = initial_fixed cli d initial name (selection-Selected cli d initial e) fixed in
    (found.0, found.2)

find_named-Agrees :
    (cli : Cli) (d : ProfilesDocument) (initial : Option OperatorProfile)
    (subject agent name : Text)
    → AreProfiles [] d.profiles
    → Selected cli d initial
    → subject_of cli initial ≡ some subject
    → cli.profile ≡ some name
    → or_else cli.agent (
        if is_some cli.profile
        then field_of (λ (p : OperatorProfile). some p.agent) initial
        else none)
      ≡ some agent
    → Agrees initial (options_of cli d initial subject) agent
unfolding is_conflict options_of
find_named-Agrees cli d initial subject agent name h s e fixed start =
    let (p, found, is_p) = initial_fixed cli d initial name s fixed in
    let same_agent : p.agent ≡ agent =
      agent_lem p cli.agent (rw (fixed, is_p) at start) (rw is_p at s.agrees) in
    bound-Agrees cli d initial subject agent p is_p e (
      ap (choose (options_of cli d (some p) p.subject)) (sym same_agent)
      ∙ choose-named (options_of cli d (some p) p.subject) name p fixed h found)
  where
    agent_lem :
        (p : OperatorProfile) (o : Option Text)
        → or_else o (some p.agent) ≡ some agent
        → is_conflict o (some p) ≡ false
        → p.agent ≡ agent
    agent_lem p none e1 e2 = ap (λ o. unwrap_or o p.agent) e1
    agent_lem p (some a) e1 e2 =
        let same_name : same a p.agent ≡ true = ground (arith, e2) in
        sym ((same_iff a p.agent).0 same_name) ∙ ap (λ o. unwrap_or o a) e1

matching-Agrees :
    (cli : Cli) (d : ProfilesDocument) (initial : Option OperatorProfile) (subject agent : Text)
    → Selected cli d initial
    → subject_of cli initial ≡ some subject
    → cli.profile ≡ none
    → cli.agent ≡ some agent
    → Agrees initial (options_of cli d initial subject) agent
unfolding initial_profile chosen_name find_named matching options_of subject_of
matching-Agrees cli d initial subject agent s e fixed only =
    let is_first : initial ≡ first (filter (for_agent agent) d.profiles) =
      sym s.is_initial ∙ rw (fixed, only) refl in
    let few : ltb 1 (length (filter (for_agent agent) d.profiles)) ≡ false =
      rw (fixed, only) at s.few in
    elim (Option-cases (first (filter (for_agent agent) d.profiles))) [
      | inl absent ↦
          let is_none : initial ≡ none = is_first ∙ absent in
          let no_profiles : d.profiles ≡ [] =
            no_profiles_lem cli.subject d.profiles (rw is_none at e) s.alone in
          inr (
            is_none,
            no_profiles,
            choose-unbound (options_of cli d initial subject) agent fixed no_profiles,
          )
      | inr (p, found) ↦
          bound-Agrees cli d initial subject agent p (is_first ∙ found) e
            (choose-only (options_of cli d (some p) p.subject) agent p fixed few found)
    ]
  where
    no_profiles_lem :
        (o : Option Text) (ps : List OperatorProfile)
        → o ≡ some subject
        → (is_some o && ltb 0 (length ps)) ≡ false
        → ps ≡ []
    no_profiles_lem o [] h k = refl
    no_profiles_lem none (p ∷ ps) h k = ground (arith, h)
    no_profiles_lem (some x) (p ∷ ps) h k = ground (arith, k)

or_else-none : (o : Option Text) → or_else o none ≡ o
or_else-none none = refl
or_else-none (some t) = refl

pub selection-Agrees :
    (cli : Cli) (d : ProfilesDocument) (initial : Option OperatorProfile) (subject agent : Text)
    → AreProfiles [] d.profiles
    → selection cli d ≡ ok initial
    → subject_of cli initial ≡ some subject
    → (options_of cli d initial subject).initial_agent ≡ some agent
    → Agrees initial (options_of cli d initial subject) agent
unfolding options_of
selection-Agrees cli d initial subject agent h chosen e start =
    let s = selection-Selected cli d initial chosen in
    elim (Option-cases cli.profile) [
      | inl fixed ↦
          matching-Agrees cli d initial subject agent s e fixed
            (sym (or_else-none cli.agent) ∙ (rw fixed at start))
      | inr (name, fixed) ↦ find_named-Agrees cli d initial subject agent name h s e fixed start
    ]
