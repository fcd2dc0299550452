-- ===== src/Transcript/Tokens.antt =====
-- The token sums of a turn over all its model responses.
use dekopon_console.Base.{
  ℕ, suc, ◌+◌, ◌≤◌, ◌≡◌, Bool, true, false, List, [], ◌∷◌, Option, none, some, min, if◌then◌else◌,
  u64_max, u32_max, is_none, Text, arith,
}
use dekopon_console.Record.{ModelUsage}
use dekopon_console.Transcript.Exchange.{
  TurnTokens, opened, absorb_usage, add_reported, unreported_one,
}

-- The events of one turn, in order.
unfoldable pub absorb_usages : List (Option ModelUsage) → TurnTokens → TurnTokens
absorb_usages [] t = t
absorb_usages (u ∷ us) t = absorb_usages us (absorb_usage u t)

-- What is known of a sum: nothing while nothing was reported, and then the total.
abbrev pub plus : Option ℕ → Option ℕ → Option ℕ
plus none n = n
plus (some m) none = some m
plus (some m) (some n) = some (m + n)

abbrev pub input_of : Option ModelUsage → Option ℕ
input_of none = none
input_of (some u) = u.input_tokens

abbrev pub output_of : Option ModelUsage → Option ℕ
output_of none = none
output_of (some u) = u.output_tokens

abbrev pub total : (Option ModelUsage → Option ℕ) → List (Option ModelUsage) → Option ℕ
total part [] = none
total part (u ∷ us) = plus (part u) (total part us)

abbrev pub capped : Option ℕ → Option ℕ
capped none = none
capped (some n) = some (min n u64_max)

abbrev is_silent : Option ModelUsage → Bool
is_silent none = true
is_silent (some u) = if is_none u.input_tokens then is_none u.output_tokens else false

abbrev pub silent : List (Option ModelUsage) → ℕ
silent [] = 0
silent (u ∷ us) = let rest = silent us in if is_silent u then suc rest else rest

absorb_usage-parts :
    (u : Option ModelUsage) (t : TurnTokens)
    → ((absorb_usage u t).input ≡ add_reported t.input (input_of u))
      × ((absorb_usage u t).output ≡ add_reported t.output (output_of u))
      × ((absorb_usage u t).unreported
          ≡ (if is_silent u then min (t.unreported + 1) u32_max else t.unreported))
unfolding absorb_usage add_reported unreported_one
absorb_usage-parts none t = ground arith
absorb_usage-parts (some u) t = ground arith

-- The sums lie within their types.
abbrev pub IsCapped : TurnTokens → Type 0
IsCapped t = (capped t.input ≡ t.input) × (capped t.output ≡ t.output) × (t.unreported ≤ u32_max)

-- Saturating at each step gives what saturating the sum gives.
add_reported-capped :
    (m n k : Option ℕ) → capped (plus (add_reported m n) k) ≡ capped (plus m (plus n k))
unfolding add_reported
add_reported-capped m n k = ground arith

add_reported_fits : (m n : Option ℕ) → capped m ≡ m → capped (add_reported m n) ≡ add_reported m n
unfolding add_reported
add_reported_fits m n h = ground arith

absorb_usage-IsCapped :
    (u : Option ModelUsage) (t : TurnTokens) → IsCapped t → IsCapped (absorb_usage u t)
absorb_usage-IsCapped u t h = ground (
  arith,
  absorb_usage-parts u t,
  add_reported_fits t.input (input_of u),
  add_reported_fits t.output (output_of u),
)

absorb_usages-total :
    (us : List (Option ModelUsage)) (t : TurnTokens)
    → IsCapped t
    → ((absorb_usages us t).input ≡ capped (plus t.input (total input_of us)))
      × ((absorb_usages us t).output ≡ capped (plus t.output (total output_of us)))
      × ((absorb_usages us t).unreported ≡ min (t.unreported + silent us) u32_max)
unfolding absorb_usages
absorb_usages-total [] t h = ground arith
absorb_usages-total (u ∷ us) t h = ground (
  arith,
  absorb_usages-total us (absorb_usage u t) (absorb_usage-IsCapped u t h),
  absorb_usage-parts u t,
  add_reported-capped t.input (input_of u) (total input_of us),
  add_reported-capped t.output (output_of u) (total output_of us),
)

-- Over the responses of a turn, each sum is absent if no response reported it, and else the exact
-- total, capped at the largest `u64`; the responses that reported neither are counted apart.
pub absorb_usages-exact :
    (us : List (Option ModelUsage)) (ordinal : ℕ) (prompt : Text)
    → let t = absorb_usages us (opened ordinal prompt).tokens in
      (t.input ≡ capped (total input_of us))
      × (t.output ≡ capped (total output_of us))
      × (t.unreported ≡ min (silent us) u32_max)
unfolding opened
absorb_usages-exact us ordinal prompt =
    ground (arith, absorb_usages-total us (record { input = none; output = none; unreported = 0 }))
