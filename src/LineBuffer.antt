-- ===== src/LineBuffer.antt =====
-- chapter_59/read_line_mod.c: readLineBuf(), which reads lines through a buffer. Its readLine() is
-- that of chapter_59/read_line.c, which ReadLine has. A chunk is what a read() returns, at most
-- BUF_SIZE bytes.
pub mod Lines
mod Examples
use tlpi_solutions.Common.{
  ℕ, ◌+◌, ◌-◌, ◌%◌, ◌^◌, Bool, true, false, Option, none, some, List, [], ◌∷◌, ◌++◌, ◌==◌, ltb,
  length, take, not, if◌then◌else◌,
}
use tlpi_solutions.Stream.{Event, chunk, interrupted, failed}

abbrev pub newline : ℕ
newline = 10

-- A size_t; the return value -1 is `size_mod - 1`.
abbrev pub size_mod : ℕ
size_mod = 2 ^ 64

-- What a call leaves: its return value, what it has stored into the caller's buffer, from its start,
-- whether a NUL follows, the bytes in the buffer from `next` to `end_of_valid_data`, `none` where
-- `next` is NULL, and the events left.
pub record BufResult : Type 0 where
  pub ret : ℕ
  pub placed : List ℕ
  pub nul : Bool
  pub next : Option (List ℕ)
  pub rest : List Event

-- memchr() for a newline: the bytes up to it, and those behind it
unfoldable pub split_line : List ℕ → Option (List ℕ × List ℕ)
split_line [] = none
split_line (c ∷ cs) =
    let rest = split_line cs in
    if c == newline
    then some (c ∷ [], cs)
    else elim rest [ none ↦ none | some (line, after) ↦ some (c ∷ line, after) ]

-- The end of readLineBuf() behind its loop.
unfoldable pub filled : List ℕ → Option (List ℕ) → List Event → BufResult
filled out next es = record {
  ret = (length out + (size_mod - 1)) % size_mod;
  placed = out;
  nul = true;
  next = next;
  rest = es;
}

-- The end of the file.
unfoldable pub ended : List ℕ → List Event → BufResult
ended out es = record {
  ret = length out;
  placed = out;
  nul = ltb 0 (length out);
  next = none;
  rest = es;
}

-- A round of the loop with bytes in the buffer: a line ends in them, or the loop goes on.
unfoldable pub found : Option (List ℕ × List ℕ) → List ℕ → List Event → BufResult → BufResult
found none out es more = more
found (some (line, after)) out es more = record {
  ret = length (out ++ line);
  placed = out ++ line;
  nul = true;
  next = some after;
  rest = es;
}

-- The loop from where the buffer is empty; `limit` is n - 1.
unfoldable pub buf_loop : List Event → ℕ → List ℕ → BufResult
unfolding filled ended found split_line
buf_loop [] limit out = if ltb (length out) limit then ended out [] else filled out none []
buf_loop (interrupted ∷ es) limit out =
    if ltb (length out) limit
    then (record { ret = size_mod - 1; placed = out; nul = false; next = none; rest = es })
    else filled out none (interrupted ∷ es)
buf_loop (failed ∷ es) limit out =
    if ltb (length out) limit
    then (record { ret = size_mod - 1; placed = out; nul = false; next = none; rest = es })
    else filled out none (failed ∷ es)
buf_loop (chunk bs ∷ es) limit out =
    let more = buf_loop es limit (out ++ take (limit - length out) bs) in
    if not (ltb (length out) limit)
    then filled out none (chunk bs ∷ es)
    else if length bs == 0
    then ended out es
    else found (split_line bs) out es more

-- readLineBuf() with the bytes in the buffer and a caller's buffer of `n` bytes
unfoldable pub read_line_buf : List Event → Option (List ℕ) → ℕ → BufResult
unfolding buf_loop
read_line_buf es none n = buf_loop es ((n + (size_mod - 1)) % size_mod) []
read_line_buf es (some avail) n =
    let limit = (n + (size_mod - 1)) % size_mod in
    if ltb 0 limit
    then found (split_line avail) [] es (buf_loop es limit (take limit avail))
    else filled [] (some avail) es
