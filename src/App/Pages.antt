-- ===== src/App/Pages.antt =====
-- crates/dekopon-tui/src/ui/shell.rs: the rows of the shell pane and its paging; and the scroll bound
-- of the error pane of ui/chrome.rs. `line_count` stands for ratatui's count of the rows that lines
-- take once wrapped at a width. Styles and drawing are left out.
use dekopon_console.Base.{
  ℕ, ◌+◌, ◌-◌, ◌≡◌, refl, Bool, true, false, List, [], ◌∷◌, ◌++◌, Option, none, some, Text, codes,
  split, decimal, map, min, max, ◌==◌, if◌then◌else◌, saturating_add, u16_max, arith,
}
use dekopon_console.App.{App}
use dekopon_console.Redact.Sanitize.{sanitize_line}
use dekopon_console.Report.{ErrorReport, display}
use dekopon_console.View.{ShellEntry}

unfoldable pub output_lines : Text → List Text
output_lines [] = []
output_lines (c ∷ text) = map sanitize_line (split b'\n' (c ∷ text))

unfoldable pub exit_lines : Bool → Option ℕ → List Text
unfolding codes
exit_lines truncated none = codes "[running · Esc requests stop]" ∷ []
exit_lines truncated (some exit) =
    (codes "[exit code: " ++ decimal exit ++ codes "]")
    ∷ (if truncated then codes "[output truncated by interpreter limits]" ∷ [] else [])

unfoldable pub outcome_lines : ShellEntry → List Text
unfolding exit_lines
outcome_lines e = exit_lines e.truncated e.exit_code

unfoldable pub prompt_line : Text → Text
unfolding codes
prompt_line text = codes "> " ++ sanitize_line text

unfoldable pub entry_lines : List ShellEntry → List Text
unfolding output_lines outcome_lines prompt_line
entry_lines [] = []
entry_lines (e ∷ es) =
    prompt_line e.input ∷ (output_lines e.output ++ outcome_lines e ++ entry_lines es)

-- `lines` of ui/shell.rs.
unfoldable pub lines : {Assets : Type 0} → App Assets → List Text
unfolding entry_lines prompt_line
lines app = entry_lines app.shell_history ++ prompt_line app.composer ∷ []

top_or : ℕ → Option ℕ → ℕ
top_or end none = end
top_or end (some top) = top

module _ {Assets : Type 0} (line_count : List Text → ℕ → ℕ) where
  -- `max_top`; `-` stops at 0, as `saturating_sub` does.
  unfoldable pub max_top : App Assets → ℕ
  max_top app = line_count (lines app) (max app.shell_viewport.0 1) - app.shell_viewport.1

  -- `page`: `true` pages up.
  unfoldable pub page : Bool → App Assets → App Assets
  unfolding top_or
  page up app =
      let end = max_top app in
      let top = min (top_or end app.shell_top) end in
      let distance = max app.shell_viewport.1 1 in
      let next = if up then top - distance else min (top + distance) end in
      record app { shell_top = if next == end then none else some next }

  -- The first row that `draw` shows.
  unfoldable pub first_row : App Assets → ℕ
  unfolding top_or
  first_row app = min (top_or (max_top app) app.shell_top) (max_top app)

  max_top-page : (up : Bool) (app : App Assets) → max_top (page up app) ≡ max_top app
  unfolding max_top lines page
  max_top-page up app = refl

  -- Paging moves the first row by one viewport, or to the end that is nearer, and never past either
  -- end.
  pub first_row-page :
      (app : App Assets)
      → (first_row (page true app) ≡ first_row app - max app.shell_viewport.1 1)
        × (first_row (page false app)
            ≡ min (first_row app + max app.shell_viewport.1 1) (max_top app))
  unfolding first_row page
  first_row-page app = ground (arith, max_top-page true app, max_top-page false app)

-- `home`.
unfoldable pub home : {Assets : Type 0} → App Assets → App Assets
home app = record app { shell_top = some 0 }

-- `error_max_scroll` of ui/chrome.rs.
unfoldable pub error_lines : Option ErrorReport → List Text
error_lines none = map sanitize_line (split b'\n' [])
error_lines (some r) = map sanitize_line (split b'\n' (display r))

unfoldable pub error_max_scroll : {Assets : Type 0} → (List Text → ℕ → ℕ) → App Assets → ℕ
unfolding error_lines
error_max_scroll line_count app =
    let rows =
      line_count (error_lines app.last_error)
        (max (saturating_add u16_max app.shell_viewport.0 2) 1) in
    min (rows - saturating_add u16_max app.shell_viewport.1 9) u16_max
