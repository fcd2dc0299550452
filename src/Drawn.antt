-- ===== src/Drawn.antt =====
-- The texts that crates/dekopon-tui/src/ui.rs draws while the shell pane is open: the header, the tabs,
-- the status lines and the overlays of ui/chrome.rs, and the pane of ui/shell.rs. Each is what is handed
-- to ratatui; layout, styles, scrolling and wrapping are left out.
pub mod Plain
use dekopon_console.Base.{
  ℕ, ◌-◌, Bool, List, [], ◌∷◌, ◌++◌, Option, none, some, Text, codes, decimal, split, map, length,
  replicate, if◌then◌else◌,
}
use dekopon_console.App.{App}
use dekopon_console.App.Pages.{lines, error_lines}
use dekopon_console.Redact.Sanitize.{sanitize_line}
use dekopon_console.Session.{AgentSession, ModelSource, cli_override, profile, default}
use dekopon_console.View.{
  Mode, browsing, composing, help, error, Notice, Pane, agents, detail, shell,
}

-- `ModelSource::label`.
unfoldable pub source_label : ModelSource → Text
unfolding codes
source_label cli_override = codes "CLI override"
source_label profile = codes "profile"
source_label default = codes "default"

-- `Pane::title`.
unfoldable pub title : Pane → Text
unfolding codes
title agents = codes "agents"
title detail = codes "capabilities"
title shell = codes "shell"

unfoldable pub agent_or_picker : Option AgentSession → Text
unfolding codes
agent_or_picker none = codes "picker"
agent_or_picker (some session) = session.agent

unfoldable pub profile_or_subject : Option Text → Text
unfolding codes
profile_or_subject none = codes "subject-only"
profile_or_subject (some name) = name

-- `draw_header`; `uid` is the effective user.
unfoldable pub header_labels : {Assets : Type 0} → ℕ → App Assets → List Text
unfolding codes source_label agent_or_picker profile_or_subject
header_labels uid app =
    codes "LIVE PROVIDERS — effects are real"
    ∷ (codes "model (" ++ source_label app.model_source ++ codes "): " ++ app.model)
    ∷ (codes "agent: "
        ++ agent_or_picker app.session
        ++ codes " · profile: "
        ++ profile_or_subject app.profile)
    ∷ (codes "subject: "
        ++ app.subject
        ++ codes " · console: dekopon-console (uid "
        ++ decimal uid
        ++ codes ")")
    ∷ (codes "session: " ++ app.scope_label)
    ∷ []

unfoldable pub header : {Assets : Type 0} → ℕ → App Assets → List Text
unfolding header_labels
header uid app = map sanitize_line (header_labels uid app)

-- `draw_tabs`, on `Pane::ORDER`.
unfoldable pub tab : Pane → List Text
unfolding codes title
tab pane = (codes " " ++ title pane ++ codes " ") ∷ codes " " ∷ []

unfoldable pub tabs : {Assets : Type 0} → App Assets → List Text
unfolding codes tab
tabs app =
    tab agents ++ tab shell ++ tab detail ++ (if app.busy then codes "· running" ∷ [] else [])

-- `draw_status`.
unfoldable pub notice_line : Option Notice → Text
unfolding codes
notice_line none = codes "? for keys"
notice_line (some notice) = sanitize_line notice.text

unfoldable pub last_part : Text → List Text → Text
last_part whole [] = whole
last_part whole (part ∷ parts) = last_part part parts

unfoldable pub credential_label : Text → Text
unfolding last_part
credential_label path = last_part path (split b'/' path)

unfoldable pub status : {Assets : Type 0} → App Assets → List Text
unfolding codes notice_line credential_label
status app =
    notice_line app.notice
    ∷ (app.subject ++ codes " · " ++ credential_label app.credential_path)
    ∷ []

-- `draw` of ui/shell.rs.
unfoldable pub shell_title : Option AgentSession → Text
unfolding codes
shell_title none = codes " shell · hop into an agent first "
shell_title (some session) =
    codes " shell as "
    ++ session.agent
    ++ codes " · each line is its own script; variables do not carry over "

unfoldable pub hint : Mode → Text
unfolding codes
hint composing = codes " type · Enter runs · Tab switches · Esc leaves input "
hint mode = codes " i to type · ? for keys "

unfoldable pub shell_pane : {Assets : Type 0} → App Assets → List Text
unfolding shell_title hint
shell_pane app = lines app ++ sanitize_line (shell_title app.session) ∷ hint app.mode ∷ []

-- `{key:>18}`.
unfoldable pub pad_left : ℕ → Text → Text
pad_left n s = replicate (n - length s) b' ' ++ s

unfoldable pub help_line : Text → Text → List Text
unfolding codes pad_left
help_line key meaning = (pad_left 18 key ++ codes "  ") ∷ meaning ∷ []

-- `draw_help`.
unfoldable pub help_lines : List Text
unfolding codes help_line
help_lines =
    help_line (codes "tab / shift-tab") (codes "next / previous pane")
    ++ help_line (codes "j k  ↑ ↓") (codes "move agent selection")
    ++ help_line (codes "enter") (codes "hop into agent; shell opens ready to type")
    ++ help_line (codes "i") (codes "resume typing in shell")
    ++ help_line (codes "enter (typing)") (codes "run one script")
    ++ help_line (codes "esc") (codes "request stop if busy, else leave input")
    ++ help_line (codes "page up / down") (codes "page wrapped shell rows (also while typing)")
    ++ help_line (codes "home / end") (codes "shell start / follow bottom (Fn arrows on Mac)")
    ++ help_line (codes "e") (codes "show the last error in full")
    ++ help_line (codes "?") (codes "this")
    ++ help_line (codes "q") (codes "quit")
    ++ []
      ∷ codes "  terminals may intercept Fn/Command keys"
      ∷ codes "  stop is cooperative: calls already sent still complete"
      ∷ codes "  errors open in full; the last one is printed again on quit"
      ∷ codes " keys "
      ∷ []

-- `draw_error`.
unfoldable pub error_pane : {Assets : Type 0} → App Assets → List Text
unfolding codes
error_pane app =
    error_lines app.last_error
    ++ codes " error · select to copy · also on stderr and printed again on quit "
      ∷ codes " j/k ↑↓ PgUp/PgDn scroll · Esc/Enter/q close · e reopens "
      ∷ []

unfoldable pub overlay : {Assets : Type 0} → Mode → App Assets → List Text
unfolding help_lines error_pane
overlay help app = help_lines
overlay error app = error_pane app
overlay mode app = []

-- `draw` of ui.rs, with the shell pane open.
unfoldable pub frame_texts : {Assets : Type 0} → ℕ → App Assets → List Text
unfolding header tabs shell_pane status overlay
frame_texts uid app =
    header uid app ++ tabs app ++ shell_pane app ++ status app ++ overlay app.mode app
