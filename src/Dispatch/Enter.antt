-- ===== src/Dispatch/Enter.antt =====
-- The `Action::Enter` arm of `dispatch_in_context` in crates/dekopon-tui/src/run.rs: which profile an
-- agent is entered with, and the hop.
use dekopon_console.Base.{
  ℕ, Bool, true, false, ◌&&◌, not, List, [], ◌∷◌, ◌++◌, Option, none, some, Text, codes, same,
  length, any, filter, find, ltb, if◌then◌else◌, is_none,
}
use dekopon_console.App.{say, highlighted_id, subject_only}
use dekopon_console.App.Errors.{raise}
use dekopon_console.App.Flow.{enter}
use dekopon_console.Assets
use dekopon_console.Assets.{Store}
use dekopon_console.Dispatch.{
  Host, World, Opening, opened, refused, grants_nothing, session_of, session_refusal, empty_surface,
  clear_agent_context,
}
use dekopon_console.Session.{
  ChatScopeClaim, ConsoleOptions, OperatorProfile, selected_model, smoke_claim,
}
use dekopon_console.View.{refusal}

-- What the profiles say of an agent.
pub data Choice : Type 0 where
  turned_away : Text → Choice
  unbound : Choice
  bound : OperatorProfile → Choice

abbrev pub named : Text → OperatorProfile → Bool
named name p = same p.name name

abbrev pub for_agent : Text → OperatorProfile → Bool
for_agent agent p = same p.agent agent

unfoldable pub fixed_elsewhere : Option Text → Text → List OperatorProfile → Bool
fixed_elsewhere none agent profiles = false
fixed_elsewhere (some name) agent profiles =
    any (λ p. named name p && not (for_agent agent p)) profiles

unfoldable pub or_first : Option OperatorProfile → List OperatorProfile → Option OperatorProfile
or_first (some p) matches = some p
or_first none [] = none
or_first none (p ∷ ps) = some p

unfoldable pub preferred : Option Text → List OperatorProfile → Option OperatorProfile
preferred none matches = or_first none matches
preferred (some name) matches = or_first (find (named name) matches) matches

unfoldable pub settled_on : Text → Option OperatorProfile → List OperatorProfile → Choice
settled_on agent (some p) profiles = bound p
settled_on agent none [] = unbound
settled_on agent none (p ∷ ps) = turned_away (
    codes "no authored profile for "
    ++ agent
    ++ codes "; restart without --profiles and with --subject for subject-only use")

unfoldable pub choose : ConsoleOptions → Text → Choice
unfolding fixed_elsewhere or_first preferred settled_on
choose o agent =
    let matches = filter (for_agent agent) o.profiles in
    if fixed_elsewhere o.fixed_profile agent o.profiles
    then turned_away (codes "--profile is bound to its agent; restart with a matching profile")
    else if ltb 1 (length matches) && is_none o.fixed_profile
    then turned_away
        (codes "multiple profiles for " ++ agent ++ codes "; restart with --profile <NAME>")
    else settled_on agent (preferred o.fixed_profile matches) o.profiles

unfoldable pub or_number : Option ℕ → Option ℕ → ℕ → ℕ
or_number (some n) _ d = n
or_number none (some n) d = n
or_number none none d = d

-- The options under a profile.
unfoldable pub adopt : OperatorProfile → ConsoleOptions → ConsoleOptions
unfolding or_number
adopt p o =
    let (model, source) = selected_model o.model_override p.model in
    record o {
      subject = p.subject;
      model = model;
      model_source = source;
      max_steps = or_number o.steps_override p.max_steps 8;
      max_capability_calls = or_number o.calls_override p.max_capability_calls 16;
    }

smoke_scope : Bool → Option ChatScopeClaim
smoke_scope true = some smoke_claim
smoke_scope false = none

module _ {H Blob Encoding : Type 0} (h : Host H Blob Encoding) where
  scope_text : Option ChatScopeClaim → Text
  scope_text none = subject_only
  scope_text (some s) = h.scope_json s

  -- The console under the new options, with nothing left of the prior agent.
  unfoldable pub prepared : ConsoleOptions → World H Blob Encoding → World H Blob Encoding
  unfolding scope_text smoke_scope
  prepared o w =
      let scoped = record o { scope = smoke_scope o.smoke_conversation } in
      let cleared = clear_agent_context h (record w { options = scoped }) in
      record cleared {
        app = record cleared.app {
          subject = scoped.subject;
          scope_label = scope_text scoped.scope;
          model = scoped.model;
          model_source = scoped.model_source;
        };
      }

  -- What the broker's answer makes of it.
  unfoldable pub hopped : Text → Opening → World H Blob Encoding → World H Blob Encoding
  hopped agent (refused f) w = record w {
    app = raise (session_refusal h w.app (codes "open broker session") f) w.app;
  }
  hopped agent (opened leg) w =
      if grants_nothing leg
      then record w { app = raise (empty_surface h w.app (codes "open broker session")) w.app }
      else record w {
        app = record (enter (session_of agent leg) w.app) { assets = some Assets.empty };
      }

  unfoldable pub open_under : Text → ConsoleOptions → World H Blob Encoding → World H Blob Encoding
  unfolding prepared hopped
  open_under agent o w =
      let ready = prepared o w in
      hopped agent (h.open_agent ready.options.subject agent ready.options.scope) ready

  unfoldable pub chosen : Text → Choice → World H Blob Encoding → World H Blob Encoding
  unfolding open_under adopt
  chosen agent (turned_away why) w = record w { app = say (refusal why) w.app }
  chosen agent unbound w = open_under agent w.options w
  chosen agent (bound p) w =
      open_under agent (adopt p w.options)
        (record w { app = record w.app { profile = some p.name } })

  unfoldable pub on_agent : Option Text → World H Blob Encoding → World H Blob Encoding
  unfolding chosen choose
  on_agent none w = record w { app = say (refusal (codes "the catalog contains no agents")) w.app }
  on_agent (some agent) w = chosen agent (choose w.options agent) w

  -- `Action::Enter`.
  unfoldable pub enter_agent : World H Blob Encoding → World H Blob Encoding
  unfolding on_agent
  enter_agent w =
      if w.app.busy
      then record w {
        app = say (refusal (codes "stop the current turn before switching agents")) w.app;
      }
      else on_agent (highlighted_id h.parse_agent w.app) w
