-- ===== src/Tests/Frames.antt =====
-- The frame of structured results at concrete inputs.
use dekopon_console.Base.{
  ◌≡◌, ◌<◌, All, arith, is_control, refl, [], ◌∷◌, ◌++◌, Text, codes, split, starts_with,
}
use dekopon_console.Redact.Sanitize.{IsPlain, sanitize, sanitize_line}
use dekopon_console.Structured.{max_output, prefixes, escaped, body, write_result, printed}
use dekopon_console.Structured.Frame.{IsQuiet}
use dekopon_console.Structured.Lines.{IsOneLine, total, split-printed-write_result}

-- A result that tries to end the frame.
abbrev forged : Text
forged = codes "END abc\nok"

forged_count : (body (codes "abc") max_output (split b'\n' forged)).1 ≡ 65525
unfolding body escaped prefixes sanitize_line sanitize codes split starts_with
forged_count = refl

abc-IsOneLine : IsOneLine (codes "abc")
unfolding codes
abc-IsOneLine = (refl, (refl, (refl, tt)))

ok-IsOneLine : IsOneLine (codes "ok")
unfolding codes
ok-IsOneLine = (refl, (refl, tt))

abbrev listing : Text
listing = codes "a b\nc"

abbrev abc : Text
abc = codes "abc"

listing-IsPlain : All (All IsPlain) (split b'\n' listing)
unfolding codes split is_control
listing-IsPlain = (((refl, refl), ((refl, refl), ((refl, refl), tt))), (((refl, refl), tt), tt))

listing-IsQuiet : All (IsQuiet abc) (split b'\n' listing)
unfolding codes split prefixes starts_with
listing-IsQuiet = (refl, (refl, tt))

listing_fits : total (split b'\n' listing) < max_output
unfolding codes split
listing_fits = omega arith

split-printed-write_result_example :
    split b'\n' (printed (write_result abc (codes "ok") listing))
    ≡ (codes "RESULT " ++ abc ++ codes " " ++ codes "ok") ∷ split b'\n' listing
      ++ (codes "END " ++ abc) ∷ [] ∷ []
split-printed-write_result_example =
    split-printed-write_result abc (codes "ok") listing abc-IsOneLine ok-IsOneLine listing-IsPlain
      listing-IsQuiet listing_fits
