-- ===== src/Structured/Reader/Chunks.antt =====
-- How the bytes come in pieces does not matter to the line that is read.
use dekopon_console.Base.{
  ℕ, zero, suc, ◌+◌, ◌≤◌, ◌≡◌, ◌≢◌, refl, ap, ◌∙◌, Bool, true, false, List, [], ◌∷◌, ◌++◌, Option,
  Text, take, drop, length, any, All, leb, ◌==◌, if◌then◌else◌, if_cases, if_map, leb→le,
  Bool-cases, inl, inr, arith, length-append, length-take, append_assoc, append-nil,
}
use dekopon_console.Assets.{Result, err}
use dekopon_console.Structured.Reader.{
  max_line, ReadError, too_long, Input, count_taken, ends_with_byte, line_of, at_end, consumed,
  read_from, read_line,
}

abbrev pub concat : List (List ℕ) → List ℕ
concat [] = []
concat (c ∷ cs) = c ++ concat cs

abbrev pub IsChunk : List ℕ → Type 0
IsChunk c = c ≢ []

abbrev pub has_end : List ℕ → Bool
has_end bytes = any (λ b. b == b'\n') bytes

-- The bytes to the first line feed, and the bytes after it.
abbrev pub first_line : List ℕ → List ℕ
first_line bytes = take (count_taken bytes) bytes

abbrev pub after_line : List ℕ → List ℕ
after_line bytes = drop (count_taken bytes) bytes

-- A line read off the whole stream.
unfoldable pub read_whole : Option Text → List ℕ → Result ReadError (Option Text)
unfolding count_taken ends_with_byte line_of at_end
read_whole failure bytes =
    let line = first_line bytes in
    if leb (length line) max_line
    then (if ends_with_byte b'\n' line then line_of line else at_end line failure)
    else err too_long

pub count_open :
    (xs ys : List ℕ) → has_end xs ≡ false → count_taken (xs ++ ys) ≡ length xs + count_taken ys
unfolding count_taken
count_open [] ys h = omega arith
count_open (x ∷ xs) ys h = ground (arith, count_open xs ys)

pub count_end : (xs ys : List ℕ) → has_end xs ≡ true → count_taken (xs ++ ys) ≡ count_taken xs
unfolding count_taken
count_end [] ys h = ground (arith, h)
count_end (x ∷ xs) ys h = ground (arith, count_end xs ys)

count_le : (xs : List ℕ) → count_taken xs ≤ length xs
unfolding count_taken
count_le [] = omega arith
count_le (x ∷ xs) = ground (arith, count_le xs)

pub count_all : (xs : List ℕ) → has_end xs ≡ false → count_taken xs ≡ length xs
unfolding count_taken
count_all [] h = refl
count_all (x ∷ xs) h = ground (arith, count_all xs)

count_more : (xs ys : List ℕ) → count_taken xs ≤ count_taken (xs ++ ys)
unfolding count_taken
count_more [] ys = omega arith
count_more (x ∷ xs) ys = ground (arith, count_more xs ys)

module _ {A : Type 0} where
  take_append : (n j : ℕ) (xs ys : List A) → length xs + n ≡ j → take j (xs ++ ys) ≡ xs ++ take n ys
  take_append n j [] ys e = ap (λ m. take m ys) (omega (arith, e))
  take_append n zero (x ∷ xs) ys e = ground (arith, e)
  take_append n (suc j) (x ∷ xs) ys e = ap (λ l. x ∷ l) (take_append n j xs ys (omega (arith, e)))

  take_left : (n : ℕ) (xs ys : List A) → n ≤ length xs → take n (xs ++ ys) ≡ take n xs
  take_left zero xs ys h = refl
  take_left (suc n) [] ys h = ground (arith, h)
  take_left (suc n) (x ∷ xs) ys h = ap (λ l. x ∷ l) (take_left n xs ys (omega (arith, h)))

  drop_append : (n j : ℕ) (xs ys : List A) → length xs + n ≡ j → drop j (xs ++ ys) ≡ drop n ys
  drop_append n j [] ys e = ap (λ m. drop m ys) (omega (arith, e))
  drop_append n zero (x ∷ xs) ys e = ground (arith, e)
  drop_append n (suc j) (x ∷ xs) ys e = drop_append n j xs ys (omega (arith, e))

  drop_left : (n : ℕ) (xs ys : List A) → n ≤ length xs → drop n (xs ++ ys) ≡ drop n xs ++ ys
  drop_left zero xs ys h = refl
  drop_left (suc n) [] ys h = ground (arith, h)
  drop_left (suc n) (x ∷ xs) ys h = drop_left n xs ys (omega (arith, h))

  take_all : (xs : List A) → take (length xs) xs ≡ xs
  take_all [] = refl
  take_all (x ∷ xs) = ap (λ l. x ∷ l) (take_all xs)

pub ends_lem : (xs : List ℕ) → has_end xs ≡ false → ends_with_byte b'\n' xs ≡ false
unfolding ends_with_byte
ends_lem [] h = refl
ends_lem (x ∷ []) h = ground (arith, h)
ends_lem (x ∷ y ∷ xs) h = ground (arith, ends_lem (y ∷ xs))

pub ends_append :
    (b : ℕ) (zs : List ℕ) (y : ℕ) (ys : List ℕ)
    → ends_with_byte b (zs ++ y ∷ ys) ≡ ends_with_byte b (y ∷ ys)
unfolding ends_with_byte
ends_append b [] y ys = refl
ends_append b (z ∷ []) y ys = refl
ends_append b (z ∷ w ∷ zs) y ys = ends_append b (w ∷ zs) y ys

pub ends_first :
    (zs xs : List ℕ) → has_end xs ≡ true → ends_with_byte b'\n' (zs ++ first_line xs) ≡ true
unfolding count_taken ends_with_byte
ends_first zs [] h = ground (arith, h)
ends_first zs (x ∷ xs) h =
    if_cases (λ n. ends_with_byte b'\n' (zs ++ take n (x ∷ xs)) ≡ true) (x == b'\n')
      (λ l. ends_append b'\n' zs x [] ∙ l)
      (λ l.
        rw (append_assoc zs (x ∷ []) (first_line xs)) at
          (ends_first (zs ++ x ∷ []) xs (ground (arith, h, l))))

pub has_end_append : (xs ys : List ℕ) → has_end xs ≡ false → has_end (xs ++ ys) ≡ has_end ys
has_end_append [] ys h = refl
has_end_append (x ∷ xs) ys h = ground (arith, h, has_end_append xs ys)

pub length_first : (xs : List ℕ) → length (first_line xs) ≡ count_taken xs
length_first xs = omega (arith, length-take (count_taken xs) xs, count_le xs)

-- The first line, when the bytes before this piece have no end.
pub first_open : (xs ys : List ℕ) → has_end xs ≡ false → first_line (xs ++ ys) ≡ xs ++ first_line ys
first_open xs ys h =
    rw (count_open xs ys h) (take_append (count_taken ys) (length xs + count_taken ys) xs ys refl)

pub first_end : (xs ys : List ℕ) → has_end xs ≡ true → first_line (xs ++ ys) ≡ first_line xs
first_end xs ys h = rw (count_end xs ys h) (take_left (count_taken xs) xs ys (count_le xs))

pub after_open : (xs ys : List ℕ) → has_end xs ≡ false → after_line (xs ++ ys) ≡ after_line ys
after_open xs ys h =
    rw (count_open xs ys h) (drop_append (count_taken ys) (length xs + count_taken ys) xs ys refl)

pub after_end : (xs ys : List ℕ) → has_end xs ≡ true → after_line (xs ++ ys) ≡ after_line xs ++ ys
after_end xs ys h = rw (count_end xs ys h) (drop_left (count_taken xs) xs ys (count_le xs))

pub first_all : (xs : List ℕ) → has_end xs ≡ false → first_line xs ≡ xs
first_all xs h = rw (count_all xs h) (take_all xs)

module _ (bytes available tail : List ℕ) (failure : Option Text) (rest : List (List ℕ)) where
  abbrev Outcome : Type 0
  Outcome = Result ReadError (Option Text) × List (List ℕ)

  passed : Outcome → Outcome
  passed later =
      if leb (length bytes + count_taken available) max_line
      then (if ends_with_byte b'\n' (bytes ++ first_line available)
          then (line_of (bytes ++ first_line available), consumed (after_line available) rest)
          else later)
      else (err too_long, available ∷ rest)

  passed_end :
      (later : Outcome)
      → has_end bytes ≡ false
      → has_end available ≡ true
      → (passed later).0 ≡ read_whole failure (bytes ++ (available ++ tail))
  unfolding read_whole passed
  passed_end later unended end =
      let line : first_line (bytes ++ (available ++ tail)) ≡ bytes ++ first_line available =
        first_open bytes (available ++ tail) unended
        ∙ ap (λ l. bytes ++ l) (first_end available tail end) in
      let size : length (bytes ++ first_line available) ≡ length bytes + count_taken available =
        length-append bytes (first_line available)
        ∙ ap (λ n. length bytes + n) (length_first available) in
      rw (line, size, ends_first bytes available end)
        (if_map (λ (o : Outcome). o.0) (leb (length bytes + count_taken available) max_line) _ _)

  passed_open :
      (later : Outcome)
      → has_end bytes ≡ false
      → has_end available ≡ false
      → (length (bytes ++ available) ≤ max_line
          → later.0 ≡ read_whole failure ((bytes ++ available) ++ tail))
      → (passed later).0 ≡ read_whole failure (bytes ++ (available ++ tail))
  unfolding read_whole passed
  passed_open later unended more ih =
      let all = first_all available more in
      let size : length (bytes ++ available) ≡ length bytes + count_taken available =
        omega (arith, length-append bytes available, count_all available more) in
      let longer : length bytes + count_taken available
          ≤ length (first_line (bytes ++ (available ++ tail))) =
        omega (
          arith,
          length_first (bytes ++ (available ++ tail)),
          count_open bytes (available ++ tail) unended,
          count_more available tail,
        ) in
      let unread = ends_lem (bytes ++ available) (has_end_append bytes available unended ∙ more) in
      elim (Bool-cases (leb (length bytes + count_taken available) max_line)) [
        | inl fits ↦
            rw (fits, all, unread)
              (rw (append_assoc bytes available tail) at
                (ih (omega (arith, size, leb→le _ _ fits))))
        | inr big ↦
            let beyond : leb (length (first_line (bytes ++ (available ++ tail)))) max_line ≡ false =
              ground (arith, longer, big) in
            rw (big, beyond) refl
      ]

-- The line is that of the whole stream, on the bytes before it.
read_from-whole :
    (bytes : List ℕ) (failure : Option Text) (chunks : List (List ℕ))
    → has_end bytes ≡ false
    → length bytes ≤ max_line
    → All IsChunk chunks
    → (read_from bytes failure chunks).0 ≡ read_whole failure (bytes ++ concat chunks)
unfolding read_from passed read_whole
read_from-whole bytes failure [] unended small h =
    let fits : leb (length bytes) max_line ≡ true = ground (arith, small) in
    rw (append-nil bytes, first_all bytes unended, fits, ends_lem bytes unended) refl
read_from-whole bytes failure ([] ∷ rest) unended small h = absurd (h.0 refl)
read_from-whole bytes failure ((b ∷ bs) ∷ rest) unended small h =
    elim (Bool-cases (has_end (b ∷ bs))) [
      | inl end ↦ passed_end bytes (b ∷ bs) (concat rest) failure rest _ unended end
      | inr more ↦ passed_open bytes (b ∷ bs) (concat rest) failure rest _ unended more (λ fits.
          rw (first_all (b ∷ bs) more) (
            read_from-whole (bytes ++ b ∷ bs) failure rest
              (has_end_append bytes (b ∷ bs) unended ∙ more) fits h.1))
    ]

-- Whatever the pieces in which the bytes come, none of them empty, what a read gives is what the
-- whole stream gives: the bytes to the first line feed, decoded without their line end; an error for
-- a line of more than 16 KiB, for bytes without a line end, for what is not UTF-8, and for a failure
-- of the stream before a line end; nothing at its end.
pub read_line-whole :
    (input : Input)
    → All IsChunk input.chunks
    → (read_line input).0 ≡ read_whole input.failure (concat input.chunks)
unfolding read_line
read_line-whole input h = read_from-whole [] input.failure input.chunks refl (omega arith) h
