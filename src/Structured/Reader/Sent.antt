-- ===== src/Structured/Reader/Sent.antt =====
-- A line that is sent is the line that is read, and what follows it is left.
use dekopon_console.Base.{
  ℕ, ◌+◌, ◌≤◌, ◌≡◌, refl, sym, ap, ◌∙◌, subst, Bool, true, false, ◌||◌, List, [], ◌∷◌, ◌++◌, Option,
  some, Text, length, any, All, leb, ltb, ◌==◌, if◌then◌else◌, if_lem, Bool-cases, inl, inr, arith,
  length-append, append_assoc, append-nil,
}
use dekopon_console.Assets.{ok}
use dekopon_console.Structured.Reader.{
  max_line, line_read, Input, count_taken, ends_with_byte, line_of, consumed, read_from, read_line,
  pop,
}
use dekopon_console.Structured.Reader.Chunks.{
  concat, IsChunk, has_end, first_line, after_line, read_whole, read_line-whole, has_end_append,
  count_open, count_end, after_open, after_end, first_all, ends_first, ends_append, first_open,
  count_all, ends_lem,
}
use dekopon_console.Structured.Utf8.{is_scalar, as_bytes, char_bytes, from_utf8-as_bytes}

-- What is left are the bytes after a line, in pieces.
abbrev pub IsRest : List ℕ → List (List ℕ) → Type 0
IsRest after chunks = All IsChunk chunks × (concat chunks ≡ after)

consumed-IsRest :
    (bytes : List ℕ) (rest : List (List ℕ))
    → All IsChunk rest
    → IsRest (bytes ++ concat rest) (consumed bytes rest)
unfolding consumed
consumed-IsRest [] rest h = (h, refl)
consumed-IsRest (b ∷ bytes) rest h = ((λ e. ground (arith, e), h), refl)

read_from-IsRest :
    (bytes : List ℕ) (failure : Option Text) (chunks : List (List ℕ))
    → has_end bytes ≡ false
    → All IsChunk chunks
    → has_end (concat chunks) ≡ true
    → length bytes + count_taken (concat chunks) ≤ max_line
    → IsRest (after_line (concat chunks)) (read_from bytes failure chunks).1
unfolding read_from
read_from-IsRest bytes failure [] unended h ended fits = ground (arith, ended)
read_from-IsRest bytes failure ([] ∷ rest) unended h ended fits = absurd (h.0 refl)
read_from-IsRest bytes failure ((b ∷ bs) ∷ rest) unended h ended fits =
    elim (Bool-cases (has_end (b ∷ bs))) [
      | inl end ↦
          let small : leb (length bytes + count_taken (b ∷ bs)) max_line ≡ true =
            ground (arith, fits, count_end (b ∷ bs) (concat rest) end) in
          rw (small, ends_first bytes (b ∷ bs) end, after_end (b ∷ bs) (concat rest) end)
            (consumed-IsRest (after_line (b ∷ bs)) rest h.1)
      | inr more ↦
          let all = count_all (b ∷ bs) more in
          let beyond = count_open (b ∷ bs) (concat rest) more in
          let small : leb (length bytes + count_taken (b ∷ bs)) max_line ≡ true =
            ground (arith, fits, all, beyond) in
          let none_yet = has_end_append bytes (b ∷ bs) unended ∙ more in
          let ih =
            read_from-IsRest (bytes ++ b ∷ bs) failure rest none_yet h.1
              (sym (has_end_append (b ∷ bs) (concat rest) more) ∙ ended)
              (omega (arith, length-append bytes (b ∷ bs), fits, beyond)) in
          rw
            (
              small,
              first_all (b ∷ bs) more,
              ends_lem (bytes ++ b ∷ bs) none_yet,
              after_open (b ∷ bs) (concat rest) more,
            )
            ih
    ]

-- The bytes of a text have a line feed where the text has one, and end with a carriage return where it does.
has_end-char : (c : ℕ) → has_end (char_bytes c) ≡ (c == b'\n')
unfolding char_bytes
has_end-char c = ground arith

any_append : (p : ℕ → Bool) (xs ys : List ℕ) → any p (xs ++ ys) ≡ (any p xs || any p ys)
any_append p [] ys = refl
any_append p (x ∷ xs) ys = ground (arith, any_append p xs ys)

has_end-as_bytes : (s : Text) → has_end (as_bytes s) ≡ has_end s
unfolding as_bytes
has_end-as_bytes [] = refl
has_end-as_bytes (c ∷ s) =
    any_append (λ b. b == b'\n') (char_bytes c) (as_bytes s)
    ∙ rw (has_end-char c, has_end-as_bytes s) refl

ends-char :
    (c b : ℕ) (bs : List ℕ)
    → ends_with_byte b'\r' (char_bytes c ++ b ∷ bs) ≡ ends_with_byte b'\r' (b ∷ bs)
ends-char c b bs = ends_append b'\r' (char_bytes c) b bs

ends_char : (c : ℕ) → ends_with_byte b'\r' (char_bytes c) ≡ (c == b'\r')
unfolding char_bytes ends_with_byte
ends_char c = ground arith

abbrev IsCons : List ℕ → Type 0
IsCons l = (b : ℕ) × (bs : List ℕ) × (l ≡ b ∷ bs)

char_bytes-IsCons : (c : ℕ) → IsCons (char_bytes c)
unfolding char_bytes
char_bytes-IsCons c =
    if_lem IsCons (ltb c 0x80) (_, _, refl)
      (if_lem IsCons (ltb c 0x800) (_, _, refl)
        (if_lem IsCons (ltb c 0x10000) (_, _, refl) (_, _, refl)))

as_bytes-IsCons : (c : ℕ) (s : Text) → IsCons (as_bytes (c ∷ s))
unfolding as_bytes
as_bytes-IsCons c s =
    let (b, bs, e) = char_bytes-IsCons c in (b, bs ++ as_bytes s, ap (λ l. l ++ as_bytes s) e)

ends-as_bytes : (s : Text) → ends_with_byte b'\r' (as_bytes s) ≡ ends_with_byte b'\r' s
unfolding as_bytes ends_with_byte
ends-as_bytes [] = refl
ends-as_bytes (c ∷ []) = ap (ends_with_byte b'\r') (append-nil (char_bytes c)) ∙ ends_char c
ends-as_bytes (c ∷ d ∷ s) =
    let (b, bs, e) = as_bytes-IsCons d s in
    ap (λ l. ends_with_byte b'\r' (char_bytes c ++ l)) e
    ∙ ends-char c b bs
    ∙ sym (ap (ends_with_byte b'\r') e)
    ∙ ends-as_bytes (d ∷ s)

pop_snoc : (xs : List ℕ) (b : ℕ) → pop (xs ++ b ∷ []) ≡ xs
pop_snoc [] b = refl
pop_snoc (x ∷ []) b = refl
pop_snoc (x ∷ y ∷ xs) b = ap (λ l. x ∷ l) (pop_snoc (y ∷ xs) b)

-- A line that can be sent, and its bytes with one of the two line ends.
pub record IsLine (s : Text) : Type 0 where
  pub scalars : All (λ c. is_scalar c ≡ true) s
  pub one_line : has_end s ≡ false
  pub no_return : ends_with_byte b'\r' s ≡ false
  pub fits : length (as_bytes s) + 2 ≤ max_line

unfoldable pub sent : Bool → Text → List ℕ
unfolding as_bytes
sent returns s = as_bytes s ++ (if returns then b'\r' ∷ b'\n' ∷ [] else b'\n' ∷ [])

-- The first line of bytes with a line feed.
first_lem :
    (line after : List ℕ)
    → has_end line ≡ false
    → first_line (line ++ b'\n' ∷ after) ≡ line ++ b'\n' ∷ []
unfolding count_taken
first_lem line after h = first_open line (b'\n' ∷ after) h

after_lem :
    (line after : List ℕ) → has_end line ≡ false → after_line (line ++ b'\n' ∷ after) ≡ after
unfolding count_taken
after_lem line after h = after_open line (b'\n' ∷ after) h

count_lem :
    (line after : List ℕ)
    → has_end line ≡ false
    → count_taken (line ++ b'\n' ∷ after) ≡ length line + 1
unfolding count_taken
count_lem line after h = count_open line (b'\n' ∷ after) h

ended_lem : (line after : List ℕ) → has_end (line ++ b'\n' ∷ after) ≡ true
ended_lem line after = any_append (λ b. b == b'\n') line (b'\n' ∷ after) ∙ ground arith

ends_snoc : (b : ℕ) (line : List ℕ) (c : ℕ) → ends_with_byte b (line ++ c ∷ []) ≡ (c == b)
unfolding ends_with_byte
ends_snoc b line c = ends_append b line c []

-- The bytes before the line feed.
abbrev unended : Bool → Text → List ℕ
unended returns s = as_bytes s ++ (if returns then b'\r' ∷ [] else [])

line_of-unended :
    (returns : Bool) (s : Text) → IsLine s → line_of (unended returns s ++ b'\n' ∷ []) ≡ ok (some s)
unfolding line_of line_read
line_of-unended true s h =
    rw
      (
        pop_snoc (as_bytes s ++ b'\r' ∷ []) b'\n',
        ends_snoc b'\r' (as_bytes s) b'\r',
        pop_snoc (as_bytes s) b'\r',
        from_utf8-as_bytes s h.scalars,
      )
      refl
line_of-unended false s h =
    rw
      (
        append-nil (as_bytes s),
        pop_snoc (as_bytes s) b'\n',
        ends-as_bytes s ∙ h.no_return,
        from_utf8-as_bytes s h.scalars,
      )
      refl

sent_lem :
    (returns : Bool) (s : Text) (after : List ℕ)
    → sent returns s ++ after ≡ unended returns s ++ b'\n' ∷ after
unfolding sent
sent_lem true s after =
    rw
      (
        append_assoc (as_bytes s) (b'\r' ∷ b'\n' ∷ []) after,
        append_assoc (as_bytes s) (b'\r' ∷ []) (b'\n' ∷ after),
      )
      refl
sent_lem false s after =
    rw (append_assoc (as_bytes s) (b'\n' ∷ []) after, append-nil (as_bytes s)) refl

unended_lem : (returns : Bool) (s : Text) → IsLine s → has_end (unended returns s) ≡ false
unended_lem true s h =
    any_append (λ b. b == b'\n') (as_bytes s) (b'\r' ∷ [])
    ∙ rw (has_end-as_bytes s, h.one_line) refl
unended_lem false s h =
    any_append (λ b. b == b'\n') (as_bytes s) [] ∙ rw (has_end-as_bytes s, h.one_line) refl

unended_len : (returns : Bool) (s : Text) → IsLine s → length (unended returns s) + 1 ≤ max_line
unended_len true s h = omega (arith, h.fits, length-append (as_bytes s) (b'\r' ∷ []))
unended_len false s h = omega (arith, h.fits, length-append (as_bytes s) [])

-- A line of at most 16382 bytes, with neither line feed nor carriage return at its end, is read as
-- it was sent, with either line end and in whatever pieces its bytes come, none of them empty; and
-- just the bytes after its line end are left for the next read.
pub read_line-sent :
    (returns : Bool) (s : Text) (after : List ℕ) (input : Input)
    → IsLine s
    → All IsChunk input.chunks
    → concat input.chunks ≡ sent returns s ++ after
    → ((read_line input).0 ≡ ok (some s)) × IsRest after (read_line input).1.chunks
unfolding read_line read_whole
read_line-sent returns s after input line h e =
    let body = unended returns s in
    let bytes : concat input.chunks ≡ body ++ b'\n' ∷ after = e ∙ sent_lem returns s after in
    let no_end = unended_lem returns s line in
    let fits = unended_len returns s line in
    let small : leb (length (body ++ b'\n' ∷ [])) max_line ≡ true =
      ground (arith, fits, length-append body (b'\n' ∷ [])) in
    (
      read_line-whole input h
          ∙ ap (read_whole input.failure) bytes
          ∙ rw (first_lem body after no_end, small, ends_snoc b'\n' body b'\n')
              (line_of-unended returns s line),
      subst (λ l. IsRest l (read_line input).1.chunks)
          (ap after_line bytes ∙ after_lem body after no_end)
          (read_from-IsRest [] input.failure input.chunks refl h (rw bytes (ended_lem body after))
            (rw (bytes, count_lem body after no_end) (omega (arith, fits)))),
    )
