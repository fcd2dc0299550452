-- ===== src/Drawn/Plain.antt =====
-- What the frame of ui.rs holds, character by character.
use dekopon_console.Base.{Bool, true, not, ◌&&◌, List, [], ◌∷◌, Text, All, is_control}
use dekopon_console.App.{App}
use dekopon_console.Redact.Sanitize.{IsPlain, is_bidi_override}

abbrev pub IsLegible : List Text → Type 0
IsLegible = All (All IsPlain)

is_plain_text : Text → Bool
is_plain_text [] = true
is_plain_text (c ∷ s) = (not (is_control c) && not (is_bidi_override c)) && is_plain_text s

is_legible : List Text → Bool
is_legible [] = true
is_legible (s ∷ texts) = is_plain_text s && is_legible texts
