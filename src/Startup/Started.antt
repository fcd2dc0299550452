-- ===== src/Startup/Started.antt =====
-- What holds of a console that `execute` opens.
use dekopon_console.Base.{
  ℕ, suc, ◌≡◌, refl, sym, ap, subst, false, ◌&&◌, List, [], ◌∷◌, ◌++◌, Option, none, some, Text,
  codes, same, same_iff, get_elem?, Bool-cases, Option-cases, inl, inr, arith, is_none,
}
use dekopon_console.App.{Agent}
use dekopon_console.Assets.{Result, ok, err}
use dekopon_console.Session.{OperatorProfile, ConsoleOptions}
use dekopon_console.Startup.{
  Cli, ConsoleError, config, session, profile, structured_agent, ProfilesDocument, ◌>>=◌,
  validate_terminal, read_profiles, checked,
}
use dekopon_console.Startup.Launch.{
  Catalog, Machine, Launch, from_result, document_of, missing_agent, missing_profile_agent,
  refuse_agent, refuse_some, subject_of, options_of, credential_of, position, selected_index,
  app_of, opened, launch, execute,
}
use dekopon_console.Startup.Selection.{selection}
use dekopon_console.Startup.Entry.{refuse_if_ok}
use dekopon_console.Startup.Profiles.{AreProfiles, checked-cases}

module _ {E A B : Type 0} where
  bind_ok :
      (r : Result E A) (f : A → Result E B) (b : B)
      → (r >>= f) ≡ ok b
      → (a : A) × (r ≡ ok a) × (f a ≡ ok b)
  bind_ok (ok a) f b h = (a, refl, h)
  bind_ok (err e) f b h = ground (arith, h)

from_result_ok :
    {E F A : Type 0} (f : E → F) (r : Result E A) (a : A) → from_result f r ≡ ok a → r ≡ ok a
from_result_ok f (ok b) a h = ground (arith, h)
from_result_ok f (err e) a h = ground (arith, h)

refuse_agent_ok :
    {A : Type 0} (o : Option Text) (r : Result ConsoleError A) (a : A)
    → refuse_agent o r ≡ ok a
    → (o ≡ none) × (r ≡ ok a)
refuse_agent_ok none r a h = (refl, h)
refuse_agent_ok (some t) r a h = ground (arith, h)

refuse_some_ok :
    {A : Type 0} (o : Option ConsoleError) (r : Result ConsoleError A) (a : A)
    → refuse_some o r ≡ ok a
    → (o ≡ none) × (r ≡ ok a)
refuse_some_ok none r a h = (refl, h)
refuse_some_ok (some t) r a h = ground (arith, h)

checked_ok : (d e : ProfilesDocument) → checked d ≡ ok e → AreProfiles [] e.profiles
checked_ok d e h = elim (checked-cases d) [
  | inl (same_document, document) ↦
      let d≡e : d ≡ e = ground (arith, h, same_document) in
      subst (λ (x : ProfilesDocument). AreProfiles [] x.profiles) d≡e document.0
  | inr (m, refused, no_document) ↦ ground (arith, h, refused)
]

loaded-AreProfiles :
    (path : Text) (r : Result Text ProfilesDocument) (d : ProfilesDocument)
    → (elim r [ ok e ↦ checked e | err message ↦ err (profile (path ++ codes ": " ++ message)) ])
      ≡ ok d
    → AreProfiles [] d.profiles
loaded-AreProfiles path (ok e) d h = checked_ok e d h
loaded-AreProfiles path (err message) d h = ground (arith, h)

document_of-AreProfiles :
    (machine : Machine) (path : Option Text) (d : ProfilesDocument)
    → document_of machine path ≡ ok d
    → AreProfiles [] d.profiles
unfolding document_of read_profiles
document_of-AreProfiles machine none d h =
    let empty : [] ≡ d.profiles =
      ap (λ (r : Result ConsoleError ProfilesDocument). elim r [ ok e ↦ e.profiles | err e ↦ [] ])
        h in
    subst (AreProfiles []) empty tt
document_of-AreProfiles machine (some path) d h = loaded-AreProfiles path (machine.load path) d h

-- Where an agent stands in a catalog.
abbrev pub IsAt : Text → List Agent → ℕ → Type 0
IsAt name agents i = (a : Agent) × (get_elem? agents i ≡ some a) × (a.name ≡ name)

pub position_lem :
    (name : Text) (agents : List Agent) (i : ℕ) → position name agents ≡ some i → IsAt name agents i
unfolding position
position_lem name [] i h = ground (arith, h)
position_lem name (a ∷ rest) i h = elim (Bool-cases (same a.name name)) [
  | inl here ↦
      let zero≡i : 0 ≡ i = ground (arith, rw here at h) in
      subst (IsAt name (a ∷ rest)) zero≡i (a, refl, (same_iff a.name name).0 here)
  | inr away ↦ elim (Option-cases (position name rest)) [
    | inl absent ↦ absurd (ground (arith, rw (away, absent) at h))
    | inr (j, found) ↦
        let suc≡i : suc j ≡ i = ground (arith, rw (away, found) at h) in
        subst (IsAt name (a ∷ rest)) suc≡i (position_lem name rest j found)
  ]
]

ok_inj : {E A : Type 0} (a b : A) → ◌≡◌ {A = Result E A} (ok a) (ok b) → a ≡ b
ok_inj a b h = ap (λ r. elim r [ ok x ↦ x | err e ↦ a ]) h

module _ {Assets : Type 0} where
  opened-some :
      (machine : Machine) (cli : Cli) (agents : List Agent) (options : ConsoleOptions)
      (initial : Option OperatorProfile) (credential socket : Text) (o : Option ℕ)
      (l : Launch Assets)
      → opened machine cli agents options initial credential socket o ≡ some l
      → (index : ℕ) × (o ≡ some index)
        × (l.options ≡ options)
        × (l.app ≡ app_of machine agents options.subject socket credential options initial index)
  unfolding opened
  opened-some machine cli agents options initial credential socket none l h = ground (arith, h)
  opened-some machine cli agents options initial credential socket (some index) l h =
      let same : l ≡ record {
        app = app_of machine agents options.subject socket credential options initial index;
        options = options;
        is_structured = cli.structured;
      } =
        sym (ap (λ o. elim o [ some x ↦ x | none ↦ l ]) h) in
      (
        index,
        refl,
        ap (λ (m : Launch Assets). m.options) same,
        ap (λ (m : Launch Assets). m.app) same,
      )

  pub record Opened (machine : Machine) (cli : Cli) (l : Launch Assets) : Type 0 where
    pub document : ProfilesDocument
    pub initial : Option OperatorProfile
    pub catalog : Catalog
    pub subject : Text
    pub credential : Text
    pub socket : Text
    pub index : ℕ
    pub are_profiles : AreProfiles [] document.profiles
    pub chosen : selection cli document ≡ ok initial
    pub has_subject : subject_of cli initial ≡ some subject
    pub fits_terminal : validate_terminal cli machine.stdin_tty machine.stdout_tty ≡ none
    pub has_agent : (cli.structured && is_none cli.agent && is_none cli.profile) ≡ false
    pub same_options : l.options ≡ options_of cli document initial subject
    pub at_index :
        selected_index (options_of cli document initial subject).initial_agent catalog.agents
        ≡ some index
    pub same_app :
        l.app
        ≡ app_of machine catalog.agents subject socket credential
            (options_of cli document initial subject)
            initial
            index

  launch-Opened :
      (machine : Machine) (cli : Cli) (d : ProfilesDocument) (initial : Option OperatorProfile)
      (catalog : Catalog) (l : Launch Assets)
      → AreProfiles [] d.profiles
      → selection cli d ≡ ok initial
      → launch machine cli d initial catalog ≡ ok (some l)
      → Opened machine cli l
  unfolding launch options_of
  launch-Opened machine cli d initial catalog l profiles chosen h =
      let (known, h1) = refuse_agent_ok (missing_agent catalog cli.agent) _ _ h in
      let (known_too, h2) = refuse_agent_ok (missing_profile_agent catalog d.profiles) _ _ h1 in
      elim (Option-cases (subject_of cli initial)) [
        | inl absent ↦ absurd (ground (arith, rw absent at h2))
        | inr (subject, e) ↦
            let (fits, h3) =
              refuse_some_ok (validate_terminal cli machine.stdin_tty machine.stdout_tty) _ _
                (rw e at h2) in
            let (has_agent, h4) =
              refuse_if_ok (cli.structured && is_none cli.agent && is_none cli.profile)
                structured_agent _ _ h3 in
            let options = options_of cli d initial subject in
            let (credential, e5, h5) =
              bind_ok (credential_of machine options.model_choice) _ _ h4 in
            let (socket, e6, h6) = bind_ok (from_result session (machine.connect options)) _ _ h5 in
            let (index, at_index, same_options, same_app) =
              opened-some machine cli catalog.agents options initial credential socket
                (selected_index options.initial_agent catalog.agents) l (ok_inj _ _ h6) in
            record {
              document = d;
              initial = initial;
              catalog = catalog;
              subject = subject;
              credential = credential;
              socket = socket;
              index = index;
              are_profiles = profiles;
              chosen = chosen;
              has_subject = e;
              fits_terminal = fits;
              has_agent = has_agent;
              same_options = same_options;
              at_index = at_index;
              same_app = same_app;
            }
      ]

  pub execute-Opened :
      (machine : Machine) (cli : Cli) (l : Launch Assets)
      → execute machine cli ≡ ok (some l)
      → Opened machine cli l
  unfolding execute
  execute-Opened machine cli l h =
      let (d, e1, h1) = bind_ok (document_of machine cli.profiles) _ _ h in
      let (initial, e2, h2) = bind_ok (selection cli d) _ _ h1 in
      let (catalog, e3, h3) =
        bind_ok (from_result config (machine.load_catalog cli.config)) _ _ h2 in
      launch-Opened machine cli d initial catalog l
        (document_of-AreProfiles machine cli.profiles d e1) e2 h3
