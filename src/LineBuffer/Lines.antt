-- ===== src/LineBuffer/Lines.antt =====
-- Lines that readLineBuf() of chapter_59/read_line_mod.c returns.
use mathlib.Core.Path.{ap₂}
use mathlib.Core.List.{append_assoc}
use tlpi_solutions.Common.{
  ℕ, ◌+◌, ◌-◌, ◌%◌, ◌≤◌, ◌<◌, ◌≡◌, ◌≢◌, ◌⊎◌, inl, inr, refl, sym, ap, ◌∙◌, true, false, Option,
  none, some, List, [], ◌∷◌, ◌++◌, ◌==◌, ltb, arith, length, take, length-append, take-ge,
}
use tlpi_solutions.Stream.{Event, chunk, interrupted, failed, bytes, IsClean}
use tlpi_solutions.LineBuffer.{
  newline, size_mod, BufResult, split_line, found, buf_loop, read_line_buf,
}

-- The bytes of a line in front of its newline.
abbrev pub IsLine : List ℕ → Type 0
IsLine [] = Unit {0}
IsLine (c ∷ cs) = (c ≢ newline) × IsLine cs

pub split_line-line :
    (line after : List ℕ)
    → IsLine line
    → split_line (line ++ newline ∷ after) ≡ some (line ++ newline ∷ [], after)
unfolding split_line
split_line-line [] after w = refl
split_line-line (c ∷ cs) after w =
    let inside : (c == newline) ≡ false = ground (arith, w.0) in
    rw (inside, split_line, split_line-line cs after w.1) refl

-- The bytes `bs` that are read at the start of a line end it, or are part of it.
split_line_cases :
    (bs xs line after : List ℕ)
    → IsLine line
    → bs ++ xs ≡ line ++ newline ∷ after
    → ((q : List ℕ) × (split_line bs ≡ some (line ++ newline ∷ [], q)) × (q ++ xs ≡ after))
      ⊎ ((tail : List ℕ) × (split_line bs ≡ none)
          × (line ≡ bs ++ tail)
          × IsLine tail
          × (xs ≡ tail ++ newline ∷ after))
unfolding split_line
split_line_cases [] xs line after w e = inr (line, refl, refl, w, e)
split_line_cases (b ∷ bs) xs [] after w e =
    let head : b ≡ newline = cc in let tail : bs ++ xs ≡ after = cc in inl (bs, rw head refl, tail)
split_line_cases (b ∷ bs) xs (c ∷ cs) after w e =
    let head : b ≡ c = cc in
    let tail : bs ++ xs ≡ cs ++ newline ∷ after = cc in
    let inside : (b == newline) ≡ false = ground (arith, w.0, head) in
    elim (split_line_cases bs xs cs after w.1 tail) [
      | inl (q, at, rest) ↦ inl (q, rw (inside, split_line, at, head) refl, rest)
      | inr (left, none_at, same, lw, rest) ↦ inr (
        left,
        rw (inside, split_line, none_at) refl,
        ap₂ (λ x l. x ∷ l) (sym head) same,
        lw,
        rest,
      )
    ]

-- What a call that returns a whole line leaves.
abbrev pub Returns : List ℕ → List ℕ → BufResult → Type 0
Returns line after r =
    (r.ret ≡ length line)
    × (r.placed ≡ line)
    × (r.nul ≡ true)
    × ((q : List ℕ) × (r.next ≡ some q) × (q ++ bytes r.rest ≡ after))
    × IsClean r.rest

-- The bytes `bs` come behind `out`.
round-Returns :
    (bs out line after : List ℕ) (es : List Event) (more : BufResult)
    → IsLine line
    → IsClean es
    → bs ++ bytes es ≡ line ++ newline ∷ after
    → ((tail : List ℕ)
        → line ≡ bs ++ tail
        → IsLine tail
        → bytes es ≡ tail ++ newline ∷ after
        → Returns (out ++ (line ++ newline ∷ [])) after more)
    → Returns (out ++ (line ++ newline ∷ [])) after (found (split_line bs) out es more)
unfolding found
round-Returns bs out line after es more w c e goes_on =
    elim (split_line_cases bs (bytes es) line after w e) [
      | inl (q, at, rest) ↦ rw at (refl, refl, refl, (q, refl, rest), c)
      | inr (tail, at, same, lw, rest) ↦ rw at (goes_on tail same lw rest)
    ]

loop-Returns :
    (es : List Event) (limit : ℕ) (out line after : List ℕ)
    → IsLine line
    → IsClean es
    → bytes es ≡ line ++ newline ∷ after
    → length out + length line < limit
    → Returns (out ++ (line ++ newline ∷ [])) after (buf_loop es limit out)
unfolding buf_loop
loop-Returns [] limit out [] after w c e fits = absurd (cc)
loop-Returns [] limit out (x ∷ line) after w c e fits = absurd (cc)
loop-Returns (interrupted ∷ es) limit out line after w c e fits = absurd c
loop-Returns (failed ∷ es) limit out line after w c e fits = absurd c
loop-Returns (chunk bs ∷ es) limit out line after w c e fits =
    let room : ltb (length out) limit ≡ true = ground arith in
    let arrived : (length bs == 0) ≡ false = ground (arith, c.0) in
    rw (room, buf_loop, arrived)
      (round-Returns bs out line after es (buf_loop es limit (out ++ take (limit - length out) bs))
        w c.1 e
        (λ tail same lw rest.
          (let len : length line ≡ length bs + length tail = rw same (length-append bs tail) in
            let whole : take (limit - length out) bs ≡ bs =
              take-ge (limit - length out) bs (omega (arith, len, fits)) in
            let long : length (out ++ bs) + length tail < limit =
              omega (arith, length-append out bs, len, fits) in
            let parts : out ++ (line ++ newline ∷ []) ≡ (out ++ bs) ++ (tail ++ newline ∷ []) =
              rw same (
                ap (λ l. out ++ l) (append_assoc bs tail (newline ∷ []))
                ∙ sym (append_assoc out bs (tail ++ newline ∷ []))) in
            rw (whole, parts) (loop-Returns es limit (out ++ bs) tail after lw c.1 rest long))))

abbrev pub buffered : Option (List ℕ) → List ℕ
buffered none = []
buffered (some avail) = avail

limit_lem : (n : ℕ) → 0 < n → n < size_mod → (n + (size_mod - 1)) % size_mod ≡ n - 1
limit_lem n pos small = omega arith

-- Where the buffer and then the stream, which has neither errors nor interruptions, carry a line and
-- its newline, and it fits a buffer of `n` bytes with its NUL: readLineBuf() stores the line with its
-- newline and a NUL, returns its length, and leaves what follows in the buffer and in the stream.
pub read_line_buf-Returns :
    (es : List Event) (next : Option (List ℕ)) (n : ℕ) (line after : List ℕ)
    → IsClean es
    → IsLine line
    → buffered next ++ bytes es ≡ line ++ newline ∷ after
    → length line + 2 ≤ n
    → n < size_mod
    → Returns (line ++ newline ∷ []) after (read_line_buf es next n)
unfolding read_line_buf
read_line_buf-Returns es none n line after c w e fits small =
    rw (limit_lem n (omega (arith, fits)) small)
      (loop-Returns es (n - 1) [] line after w c e (omega (arith, fits)))
read_line_buf-Returns es (some avail) n line after c w e fits small =
    let room : ltb 0 (n - 1) ≡ true = ground arith in
    rw (limit_lem n (omega (arith, fits)) small, room)
      (round-Returns avail [] line after es (buf_loop es (n - 1) (take (n - 1) avail)) w c e
        (λ tail same lw rest.
          (let len : length line ≡ length avail + length tail =
              rw same (length-append avail tail) in
            let whole : take (n - 1) avail ≡ avail =
              take-ge (n - 1) avail (omega (arith, len, fits)) in
            rw (whole, same, append_assoc avail tail (newline ∷ []))
              (loop-Returns es (n - 1) avail tail after lw c rest (omega (arith, len, fits))))))

-- A line that is in the buffer with its newline is stored as a whole, whatever the size `n` of the
-- caller's buffer, above 1: where `n` is less than the length of the line and 2, more than `n`
-- bytes are stored with the NUL.
pub buffered_line_overflows :
    (es : List Event) (n : ℕ) (line after : List ℕ)
    → IsLine line
    → 1 < n
    → n < size_mod
    → n < length line + 2
    → let r = read_line_buf es (some (line ++ newline ∷ after)) n in
      (r.placed ≡ line ++ newline ∷ []) × (r.nul ≡ true) × (n < length r.placed + 1)
unfolding read_line_buf found
buffered_line_overflows es n line after w big small over =
    let room : ltb 0 (n - 1) ≡ true = ground arith in
    rw (limit_lem n (omega arith) small, room, split_line-line line after w)
      (refl, refl, omega (arith, length-append line (newline ∷ []), over))
