-- ===== src/ReadLine/Lines.antt =====
-- What readLine() of chapter_59/read_line.c reads of a stream that carries a line.
use native.Mathlib.Decide.{dec_lt}
use mathlib.Core.List.{append_assoc, append-nil}
use tlpi_solutions.Common.{
  ℕ, zero, suc, ◌+◌, ◌-◌, ◌<◌, ◌≤◌, ◌≡◌, ◌≢◌, refl, sym, ap, ◌∙◌, false, some, List, [], ◌∷◌, ◌++◌,
  ◌==◌, ltb, arith, length, take, length-append, if◌then◌else◌,
}
use tlpi_solutions.ReadLine.{
  ByteEvent, byte, signal, failure, newline, finish, read_line_loop, read_line,
}

-- The events carry the bytes of a line, in front of its newline, between interruptions.
abbrev pub Carries : List ByteEvent → List ℕ → Type 0
Carries [] [] = Unit {0}
Carries [] (c ∷ line) = ⊥
Carries (signal ∷ es) line = Carries es line
Carries (failure ∷ es) line = ⊥
Carries (byte ch ∷ es) [] = ⊥
Carries (byte ch ∷ es) (c ∷ line) = (ch ≡ c) × (c ≢ newline) × Carries es line

-- What is put into the buffer for the byte `c`.
put : ℕ → List ℕ → ℕ → List ℕ
put n placed c = if ltb (length placed) (n - 1) then placed ++ c ∷ [] else placed

put-room :
    (n : ℕ) (placed : List ℕ) (c : ℕ) → length placed < n - 1 → put n placed c ≡ placed ++ c ∷ []
unfolding put
put-room n placed c h = ground arith

put-full : (n : ℕ) (placed : List ℕ) (c : ℕ) → n - 1 ≤ length placed → put n placed c ≡ placed
unfolding put
put-full n placed c h = ground arith

take-step : (m : ℕ) (line : List ℕ) (c : ℕ) → 0 < m → take m (c ∷ line) ≡ c ∷ take (m - 1) line
take-step zero line c h = absurd (omega arith)
take-step (suc m) line c h = let e : suc m - 1 ≡ m = omega arith in rw e refl

take-nil : (m : ℕ) → take {A = ℕ} m [] ≡ []
take-nil zero = refl
take-nil (suc m) = refl

put-take :
    (n : ℕ) (placed line : List ℕ) (c : ℕ)
    → length placed ≤ n - 1
    → (length (put n placed c) ≤ n - 1)
      × (put n placed c ++ take (n - 1 - length (put n placed c)) line
          ≡ placed ++ take (n - 1 - length placed) (c ∷ line))
put-take n placed line c h = elim (dec_lt (length placed) (n - 1)) [
  | yes room ↦
      let left : n - 1 - (length placed + 1) ≡ n - 1 - length placed - 1 = omega arith in
      let len : length (placed ++ c ∷ []) ≡ length placed + 1 = length-append placed (c ∷ []) in
      rw (put-room n placed c room, len)
        (
          omega arith,
          rw (left, take-step (n - 1 - length placed) line c (omega arith))
              (append_assoc placed (c ∷ []) (take (n - 1 - length placed - 1) line)),
        )
  | no full ↦
      let none_left : n - 1 - length placed ≡ 0 = omega arith in
      rw (put-full n placed c (omega arith), none_left) (h, refl)
]

loop-line :
    (es : List ByteEvent) (line : List ℕ) (rest : List ByteEvent) (n : ℕ) (placed : List ℕ)
    → Carries es line
    → length placed ≤ n - 1
    → read_line_loop (es ++ byte newline ∷ rest) n placed
      ≡ finish (placed ++ take (n - 1 - length placed) (line ++ newline ∷ [])) rest
unfolding read_line_loop finish put
loop-line [] [] rest n placed w h =
    let (fits, e) = put-take n placed [] newline h in
    ap (λ l. finish l rest)
      (sym (append-nil (put n placed newline))
        ∙ ap (λ l. put n placed newline ++ l)
            (sym (take-nil (n - 1 - length (put n placed newline))))
        ∙ e)
loop-line [] (c ∷ line) rest n placed w h = absurd w
loop-line (signal ∷ es) line rest n placed w h = loop-line es line rest n placed w h
loop-line (failure ∷ es) line rest n placed w h = absurd w
loop-line (byte ch ∷ es) [] rest n placed w h = absurd w
loop-line (byte ch ∷ es) (c ∷ line) rest n placed w h =
    let (fits, e) = put-take n placed (line ++ newline ∷ []) ch h in
    let same : c ≡ ch = sym w.0 in
    let inside : (ch == newline) ≡ false = ground arith in
    rw (inside, same)
      (loop-line es line rest n (put n placed ch) w.2 fits ∙ ap (λ l. finish l rest) e)

-- On a stream of a line, with interruptions in it and a newline at its end, readLine() with a
-- buffer of `n` bytes, `n` above 0, puts the first `n - 1` bytes of the line with its newline into
-- the buffer, and a NUL; it returns their number, and leaves what follows the line.
pub read_line_line :
    (es : List ByteEvent) (line : List ℕ) (rest : List ByteEvent) (n : ℕ)
    → Carries es line
    → 0 < n
    → read_line (es ++ byte newline ∷ rest) n ≡ record {
      ret = some (length (take (n - 1) (line ++ newline ∷ [])));
      string = some (take (n - 1) (line ++ newline ∷ []));
      rest = rest;
    }
unfolding read_line finish
read_line_line es line rest n w pos = ground (arith, loop-line es line rest n [] w (omega arith))

loop-bound :
    (es : List ByteEvent) (n : ℕ) (placed line : List ℕ)
    → length placed ≤ n - 1
    → (read_line_loop es n placed).string ≡ some line
    → length line ≤ n - 1
unfolding read_line_loop finish put
loop-bound [] n placed line h e = ground arith
loop-bound (signal ∷ es) n placed line h e = loop-bound es n placed line h e
loop-bound (failure ∷ es) n placed line h e = cc
loop-bound (byte ch ∷ es) n placed line h e =
    let (fits, eq) = put-take n placed [] ch h in
    ground (arith, fits, loop-bound es n (put n placed ch) line fits)

-- Whatever read() meets, the string that readLine() puts into a buffer of `n` bytes has fewer than
-- `n`, so that it fits with its NUL.
pub read_line_bound :
    (es : List ByteEvent) (n : ℕ) (line : List ℕ)
    → (read_line es n).string ≡ some line
    → length line < n
unfolding read_line
read_line_bound es n line e = elim (dec_lt 0 n) [
  | yes pos ↦
      let bound : (read_line_loop es n []).string ≡ some line → length line ≤ n - 1 =
        loop-bound es n [] line (omega arith) in
      ground (arith, bound)
  | no zero_size ↦ ground arith
]
