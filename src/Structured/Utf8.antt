-- ===== src/Structured/Utf8.antt =====
-- The standard library's `String::from_utf8`, which reads a structured line, and the encoding that it
-- reads. Bytes are numbers; a text is its code points.
use dekopon_console.Base.{
  ℕ, zero, suc, ◌+◌, ◌-◌, ◌*◌, ◌/◌, ◌%◌, ◌≤◌, ◌<◌, ◌≡◌, refl, ap, Bool, true, ◌&&◌, ◌||◌, List, [],
  ◌∷◌, ◌++◌, Option, none, some, Text, ltb, leb, All, if◌then◌else◌, if_cases, arith, ◌∙◌,
}
use mathlib.Core.Option

-- A Unicode scalar value.
unfoldable pub is_scalar : ℕ → Bool
is_scalar c = ltb c 0xd800 || (leb 0xe000 c && ltb c 0x110000)

-- Between two characters, or inside one: how many bytes follow the next, the bits so far, and the
-- least value that needs so many bytes.
pub data Pending : Type 0 where
  ready : Pending
  awaits : ℕ → ℕ → ℕ → Pending

continued : ℕ → ℕ → ℕ → Option (Text × Pending)
unfolding is_scalar
continued zero value least =
    if leb least value && is_scalar value then some (value ∷ [], ready) else none
continued (suc more) value least = some ([], awaits more value least)

-- One byte: what it completes, and what is pending then.
unfoldable pub feed : Pending → ℕ → Option (Text × Pending)
unfolding continued
feed ready b =
    if ltb b 0x80
    then some (b ∷ [], ready)
    else if ltb b 0xc0
    then none
    else if ltb b 0xe0
    then some ([], awaits 0 (b - 0xc0) 0x80)
    else if ltb b 0xf0
    then some ([], awaits 1 (b - 0xe0) 0x800)
    else if ltb b 0xf8
    then some ([], awaits 2 (b - 0xf0) 0x10000)
    else none
feed (awaits more value least) b =
    if leb 0x80 b && ltb b 0xc0 then continued more (value * 64 + (b - 0x80)) least else none

unfoldable pub decode : Pending → List ℕ → Option Text
decode ready [] = some []
decode (awaits more value least) [] = none
decode p (b ∷ bs) = elim (feed p b) [
  | none ↦ none
  | some step ↦ Option.map (λ rest. step.0 ++ rest) (decode step.1 bs)
]

-- `String::from_utf8`.
unfoldable pub from_utf8 : List ℕ → Option Text
unfolding decode feed
from_utf8 bytes = decode ready bytes

-- `str::as_bytes`.
unfoldable pub char_bytes : ℕ → List ℕ
char_bytes c =
    if ltb c 0x80
    then c ∷ []
    else if ltb c 0x800
    then (0xc0 + c / 64) ∷ (0x80 + c % 64) ∷ []
    else if ltb c 0x10000
    then (0xe0 + c / 4096) ∷ (0x80 + c / 64 % 64) ∷ (0x80 + c % 64) ∷ []
    else (0xf0 + c / 262144) ∷ (0x80 + c / 4096 % 64) ∷ (0x80 + c / 64 % 64) ∷ (0x80 + c % 64) ∷ []

unfoldable pub as_bytes : Text → List ℕ
unfolding char_bytes
as_bytes [] = []
as_bytes (c ∷ s) = char_bytes c ++ as_bytes s

feed-step :
    (p : Pending) (b : ℕ) (bs : List ℕ) (out : Text) (q : Pending)
    → feed p b ≡ some (out, q)
    → decode p (b ∷ bs) ≡ Option.map (λ rest. out ++ rest) (decode q bs)
unfolding decode
feed-step ready b bs out q h = rw (decode, h) refl
feed-step (awaits more value least) b bs out q h = rw (decode, h) refl

map_nil : (o : Option Text) → Option.map (λ rest. [] ++ rest) o ≡ o
map_nil none = refl
map_nil (some s) = refl

feed_skip :
    (p : Pending) (b : ℕ) (bs : List ℕ) (q : Pending)
    → feed p b ≡ some ([], q)
    → decode p (b ∷ bs) ≡ decode q bs
feed_skip p b bs q h = feed-step p b bs [] q h ∙ map_nil (decode q bs)

feed_two : (a : ℕ) → a < 32 → feed ready (0xc0 + a) ≡ some ([], awaits 0 a 0x80)
unfolding feed
feed_two a h = ground arith

feed_three : (a : ℕ) → a < 16 → feed ready (0xe0 + a) ≡ some ([], awaits 1 a 0x800)
unfolding feed
feed_three a h = ground arith

feed_four : (a : ℕ) → a < 8 → feed ready (0xf0 + a) ≡ some ([], awaits 2 a 0x10000)
unfolding feed
feed_four a h = ground arith

feed_more :
    (more a least d c : ℕ)
    → d < 64
    → a * 64 + d ≡ c
    → feed (awaits (suc more) a least) (0x80 + d) ≡ some ([], awaits more c least)
unfolding feed continued
feed_more more a least d c h e = ground arith

feed_last :
    (a least d c : ℕ)
    → d < 64
    → a * 64 + d ≡ c
    → least ≤ c
    → is_scalar c ≡ true
    → feed (awaits 0 a least) (0x80 + d) ≡ some (c ∷ [], ready)
unfolding feed continued
feed_last a least d c h e low scalar =
    let value : a * 64 + (0x80 + d - 0x80) ≡ c = omega (arith, e) in
    let fits : leb least c ≡ true = ground (arith, low) in
    let lead : (leb 0x80 (0x80 + d) && ltb (0x80 + d) 0xc0) ≡ true = ground (arith, h) in
    rw (lead, value, fits, scalar) refl

feed_one : (c : ℕ) → ltb c 0x80 ≡ true → feed ready c ≡ some (c ∷ [], ready)
unfolding feed
feed_one c h = rw h refl

scalar_bound : (c : ℕ) → is_scalar c ≡ true → c < 0x110000
unfolding is_scalar
scalar_bound c h = ground (arith, h)

decode_char :
    (c : ℕ) (bs : List ℕ)
    → is_scalar c ≡ true
    → decode ready (char_bytes c ++ bs) ≡ Option.map (λ rest. c ∷ rest) (decode ready bs)
unfolding char_bytes
decode_char c bs h =
    if_cases Decodes (ltb c 0x80) (λ l. feed-step ready c bs (c ∷ []) ready (feed_one c l))
      (λ l.
        if_cases Decodes (ltb c 0x800)
          (λ m.
            feed_skip ready _ _ _ (feed_two (c / 64) (ground (arith, m)))
            ∙ feed-step _ _ bs (c ∷ []) ready (
                feed_last (c / 64) 0x80 (c % 64) c (omega arith) (omega arith) (ground (arith, l))
                  h))
          (λ m.
            if_cases Decodes (ltb c 0x10000)
              (λ n.
                feed_skip ready _ _ _ (feed_three (c / 4096) (ground (arith, n)))
                ∙ feed_skip _ _ _ _ (
                    feed_more 0 (c / 4096) 0x800 (c / 64 % 64) (c / 64) (omega arith) (omega arith))
                ∙ feed-step _ _ bs (c ∷ []) ready (
                    feed_last (c / 64) 0x800 (c % 64) c (omega arith) (omega arith)
                      (ground (arith, m)) h))
              (λ n.
                feed_skip ready _ _ _ (feed_four (c / 262144) (ground (arith, scalar_bound c h)))
                ∙ feed_skip _ _ _ _ (
                    feed_more 1 (c / 262144) 0x10000 (c / 4096 % 64) (c / 4096) (omega arith)
                      (omega arith))
                ∙ feed_skip _ _ _ _ (
                    feed_more 0 (c / 4096) 0x10000 (c / 64 % 64) (c / 64) (omega arith)
                      (omega arith))
                ∙ feed-step _ _ bs (c ∷ []) ready (
                    feed_last (c / 64) 0x10000 (c % 64) c (omega arith) (omega arith)
                      (ground (arith, n)) h))))
  where
    Decodes : List ℕ → Type 0
    Decodes b = decode ready (b ++ bs) ≡ Option.map (λ rest. c ∷ rest) (decode ready bs)

-- Every text of scalar values is read back from its bytes.
pub from_utf8-as_bytes :
    (s : Text) → All (λ c. is_scalar c ≡ true) s → from_utf8 (as_bytes s) ≡ some s
unfolding from_utf8 as_bytes decode
from_utf8-as_bytes [] h = refl
from_utf8-as_bytes (c ∷ s) h =
    decode_char c (as_bytes s) h.0 ∙ ap (Option.map (λ rest. c ∷ rest)) (from_utf8-as_bytes s h.1)
