-- ===== src/LineBuffer/Examples.antt =====
-- Runs of chapter_59/read_line_mod.c.
use tlpi_solutions.Common.{ℕ, ◌≡◌, refl, none, some, List, [], ◌∷◌, ◌++◌, arith}
use tlpi_solutions.Stream.{Event, chunk}
use tlpi_solutions.LineBuffer.{newline, filled, found, split_line, buf_loop, read_line_buf}
use tlpi_solutions.LineBuffer.Lines.{Returns, IsLine, read_line_buf-Returns}

abbrev word : List ℕ
word = 104 ∷ 101 ∷ 121 ∷ []

-- Half of the line is in the buffer, and the next line follows in the stream.
abbrev stream : List Event
stream = chunk (101 ∷ []) ∷ chunk (121 ∷ newline ∷ 98 ∷ []) ∷ chunk (99 ∷ []) ∷ []

word-IsLine : IsLine word
word-IsLine = (omega arith, (omega arith, (omega arith, tt)))

read_line_buf-Returns_example :
    Returns (word ++ newline ∷ []) (98 ∷ 99 ∷ []) (read_line_buf stream (some (104 ∷ [])) 10)
read_line_buf-Returns_example =
    read_line_buf-Returns stream (some (104 ∷ [])) 10 word (98 ∷ 99 ∷ [])
      (omega arith, (omega arith, (omega arith, tt))) word-IsLine refl (omega arith) (omega arith)

-- A full buffer: three bytes are stored, and the return value is 2.
count_short : (read_line_buf (chunk word ∷ []) none 4).ret ≡ 2
unfolding read_line_buf buf_loop found split_line filled
count_short = refl
