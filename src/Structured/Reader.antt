-- ===== src/Structured/Reader.antt =====
-- `read_line` of crates/dekopon-tui/src/structured.rs. The reader is the list of what `fill_buf` still
-- gives, one list of bytes for each time, and what it gives after them: nothing, or a failure.
pub mod Chunks
pub mod Sent
use dekopon_console.Base.{
  ℕ, suc, ◌+◌, Bool, true, false, List, [], ◌∷◌, ◌++◌, Option, none, some, Text, take, drop, length,
  get_last?, leb, ◌==◌, if◌then◌else◌, is_none,
}
use dekopon_console.Assets.{Result, ok, err}
use dekopon_console.Structured.Utf8.{from_utf8}

abbrev pub max_line : ℕ
max_line = 16384

-- The errors of the reader: its own two texts, the standard library's for the encoding, the stream's.
pub data ReadError : Type 0 where
  unterminated too_long invalid : ReadError
  failed : Text → ReadError

pub record Input : Type 0 where
  pub chunks : List (List ℕ)
  pub failure : Option Text

-- How many bytes of `available` are taken: to its first line feed, or all.
unfoldable pub count_taken : List ℕ → ℕ
count_taken [] = 0
count_taken (b ∷ bs) = let more = count_taken bs in if b == b'\n' then 1 else suc more

unfoldable pub ends_with_byte : ℕ → List ℕ → Bool
ends_with_byte b bytes = elim (get_last? bytes) [ none ↦ false | some c ↦ c == b ]

-- `Vec::pop`.
abbrev pub pop : List ℕ → List ℕ
pop [] = []
pop (b ∷ []) = []
pop (b ∷ c ∷ bs) = b ∷ pop (c ∷ bs)

line_read : Option Text → Result ReadError (Option Text)
line_read none = err invalid
line_read (some line) = ok (some line)

-- What a line gives, its line feed taken off and a carriage return before it.
unfoldable pub line_of : List ℕ → Result ReadError (Option Text)
unfolding ends_with_byte line_read
line_of bytes =
    let line = pop bytes in
    line_read (from_utf8 (if ends_with_byte b'\r' line then pop line else line))

-- The end of the stream.
unfoldable pub at_end : List ℕ → Option Text → Result ReadError (Option Text)
at_end bytes (some e) = err (failed e)
at_end [] none = ok none
at_end (b ∷ bytes) none = err unterminated

-- `BufReader::consume`: what is left of what was available comes first.
unfoldable pub consumed : List ℕ → List (List ℕ) → List (List ℕ)
consumed [] rest = rest
consumed (b ∷ bytes) rest = (b ∷ bytes) ∷ rest

-- The loop, on the bytes so far.
unfoldable pub read_from :
    List ℕ → Option Text → List (List ℕ) → Result ReadError (Option Text) × List (List ℕ)
unfolding count_taken ends_with_byte line_of at_end consumed
read_from bytes failure [] = (at_end bytes failure, [])
read_from bytes failure ([] ∷ rest) = (at_end bytes none, rest)
read_from bytes failure (available ∷ rest) =
    let count = count_taken available in
    let more = bytes ++ take count available in
    let later = read_from more failure rest in
    if leb (length bytes + count) max_line
    then (if ends_with_byte b'\n' more
        then (line_of more, consumed (drop count available) rest)
        else later)
    else (err too_long, available ∷ rest)

-- `read_line`.
unfoldable pub read_line : Input → Result ReadError (Option Text) × Input
unfolding read_from
read_line input =
    let (result, chunks) = read_from [] input.failure input.chunks in
    (result, record input { chunks = chunks })
