-- ===== src/Startup/Selection.antt =====
-- The first half of `execute` of crates/dekopon-console/src/main.rs: the profile that the console
-- starts with, and the refusals before the catalog is loaded.
use dekopon_console.Base.{
  Bool, false, ◌&&◌, not, List, [], ◌∷◌, ◌++◌, Option, none, some, Text, codes, same, any, find,
  filter, ltb, length, if◌then◌else◌, is_some, is_none,
}
use dekopon_console.Assets.{Result, ok}
use dekopon_console.Dispatch.Enter.{named, for_agent}
use dekopon_console.Session.{OperatorProfile}
use dekopon_console.Startup.{Cli, ConsoleError, profile, no_subject, ProfilesDocument, refuse_if}

-- `or_else` and `unwrap_or`.
abbrev pub or_else {ℓ} : {A : Type ℓ} → Option A → Option A → Option A
or_else (some a) o = some a
or_else none o = o

abbrev pub unwrap_or {ℓ} : {A : Type ℓ} → Option A → A → A
unwrap_or (some a) d = a
unwrap_or none d = d

abbrev pub field_of {ℓ} : {A B : Type ℓ} → (A → Option B) → Option A → Option B
field_of f none = none
field_of f (some a) = f a

unfoldable pub chosen_name : Cli → ProfilesDocument → Option Text
chosen_name cli d = or_else cli.profile (if is_none cli.agent then d.default_profile else none)

unfoldable pub is_unknown : Option Text → List OperatorProfile → Bool
is_unknown none ps = false
is_unknown (some name) ps = not (any (named name) ps)

unfoldable pub matching : Option Text → List OperatorProfile → List OperatorProfile
matching none ps = []
matching (some agent) ps = filter (for_agent agent) ps

abbrev pub first : List OperatorProfile → Option OperatorProfile
first [] = none
first (p ∷ ps) = some p

unfoldable pub find_named : Option Text → List OperatorProfile → Option OperatorProfile
find_named none ps = none
find_named (some name) ps = find (named name) ps

-- `initial`.
unfoldable pub initial_profile : Cli → ProfilesDocument → Option OperatorProfile
unfolding chosen_name find_named matching
initial_profile cli d =
    or_else (find_named (chosen_name cli d) d.profiles)
      (if is_none cli.profile then first (matching cli.agent d.profiles) else none)

unfoldable pub is_conflict : Option Text → Option OperatorProfile → Bool
is_conflict (some agent) (some p) = not (same agent p.agent)
is_conflict _ _ = false

conflict_message : Option Text → Option OperatorProfile → Text
unfolding codes
conflict_message (some agent) (some p) =
    codes "--agent "
    ++ agent
    ++ codes " conflicts with profile "
    ++ p.name
    ++ codes " bound to "
    ++ p.agent
conflict_message _ _ = []

-- The refusals before the catalog is loaded.
unfoldable pub selection : Cli → ProfilesDocument → Result ConsoleError (Option OperatorProfile)
unfolding initial_profile is_unknown is_conflict conflict_message codes
selection cli d =
    let initial = initial_profile cli d in
    refuse_if (is_unknown cli.profile d.profiles)
      (profile (codes "unknown profile " ++ unwrap_or cli.profile []))
      (refuse_if
        (is_some cli.agent && is_none cli.profile && ltb 1 (length (matching cli.agent d.profiles)))
        (profile (codes "multiple profiles for --agent; select --profile"))
        (refuse_if (is_some cli.subject && ltb 0 (length d.profiles))
          (profile (
            codes
              "--subject cannot be combined with authored --profiles; remove --subject or --profiles before opening the picker"))
          (refuse_if (is_conflict cli.agent initial) (profile (conflict_message cli.agent initial))
            (refuse_if (is_none cli.subject && is_none initial && is_none cli.agent) no_subject
              (ok initial)))))
