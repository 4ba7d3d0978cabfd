-- ===== src/RdWrN/ReadN.antt =====
-- readn() of chapter_61/rdwrn.c on streams that are cut into pieces and interrupted.
use native.Mathlib.Decide.{dec_le}
use tlpi_solutions.Common.{
  ℕ, zero, suc, ◌+◌, ◌-◌, ◌<◌, ◌≤◌, ◌≡◌, refl, sym, ap, ◌∙◌, none, some, List, [], ◌∷◌, ◌++◌, arith,
  length, take, drop, min, length-append, length-drop, drop-append_ge, drop-append_le,
}
use tlpi_solutions.Stream.{
  Event, chunk, interrupted, failed, bytes, IsUnbroken, write_at, write_at-append, buf_whole,
  buf_part,
}
use tlpi_solutions.RdWrN.{ReadResult, readn_loop, readn}

-- What readn() does when `m` more bytes come before its end: behind the prefix `pre`.
abbrev Reads : List Event → ℕ → ℕ → List ℕ → List ℕ → Type 0
Reads es n m pre junk =
    (es' : List Event) × (readn_loop es (pre ++ junk) n (length pre) ≡ record {
      ret = some (length pre + m);
      buf = pre ++ (take m (bytes es) ++ drop m junk);
      rest = es';
    })
    × (bytes es' ≡ drop m (bytes es))
    × IsUnbroken es'

loop_done :
    (es : List Event) (buf : List ℕ) (n : ℕ)
    → readn_loop es buf n n ≡ record { ret = some n; buf = buf; rest = es }
unfolding readn_loop
loop_done [] buf n = refl
loop_done (interrupted ∷ es) buf n = ground arith
loop_done (failed ∷ es) buf n = ground arith
loop_done (chunk bs ∷ es) buf n = ground arith

loop_end :
    (buf : List ℕ) (n tot : ℕ)
    → readn_loop [] buf n tot ≡ record { ret = some tot; buf = buf; rest = [] }
unfolding readn_loop
loop_end buf n tot = refl

loop_interrupted :
    (es : List Event) (buf : List ℕ) (n tot : ℕ)
    → tot < n
    → readn_loop (interrupted ∷ es) buf n tot ≡ readn_loop es buf n tot
unfolding readn_loop
loop_interrupted es buf n tot more = ground arith

loop_failed :
    (es : List Event) (buf : List ℕ) (n tot : ℕ)
    → tot < n
    → readn_loop (failed ∷ es) buf n tot ≡ record { ret = none; buf = buf; rest = es }
unfolding readn_loop
loop_failed es buf n tot more = ground arith

loop_whole :
    (es : List Event) (bs buf : List ℕ) (n tot : ℕ)
    → 0 < length bs
    → length bs ≤ n - tot
    → readn_loop (chunk bs ∷ es) buf n tot ≡ readn_loop es (write_at buf tot bs) n (tot + length bs)
unfolding readn_loop
loop_whole es bs buf n tot pos fits = ground arith

loop_part :
    (es : List Event) (bs buf : List ℕ) (n tot : ℕ)
    → 0 < n - tot
    → n - tot < length bs
    → readn_loop (chunk bs ∷ es) buf n tot ≡ record {
      ret = some n;
      buf = write_at buf tot (take (n - tot) bs);
      rest = chunk (drop (n - tot) bs) ∷ es;
    }
unfolding readn_loop
loop_part es bs buf n tot pos big = ground arith

after_whole :
    (es : List Event) (bs : List ℕ) (n m : ℕ) (pre junk : List ℕ)
    → 0 < length bs
    → length bs ≤ n - length pre
    → length bs ≤ m
    → Reads es n (m - length bs) (pre ++ bs) (drop (length bs) junk)
    → Reads (chunk bs ∷ es) n m pre junk
after_whole es bs n m pre junk pos fits more (es', ran, left, c) =
    let total : length (pre ++ bs) + (m - length bs) ≡ length pre + m =
      omega (arith, length-append pre bs) in
    let step : readn_loop (chunk bs ∷ es) (pre ++ junk) n (length pre)
        ≡ readn_loop es (pre ++ bs ++ drop (length bs) junk) n (length (pre ++ bs)) =
      rw (← write_at-append pre junk bs, length-append pre bs)
        (loop_whole es bs (pre ++ junk) n (length pre) pos fits) in
    let ends : ReadResult = record {
      ret = some (length pre + m);
      buf = pre ++ (take m (bs ++ bytes es) ++ drop m junk);
      rest = es';
    } in
    let same : readn_loop es (pre ++ bs ++ drop (length bs) junk) n (length (pre ++ bs)) ≡ ends =
      rw (← total, ← buf_whole pre bs (bytes es) junk m more) ran in
    (es', step ∙ same, left ∙ sym (drop-append_ge m bs (bytes es) more), c)

after_part :
    (es : List Event) (bs : List ℕ) (n m : ℕ) (pre junk : List ℕ)
    → IsUnbroken es
    → length pre + m ≡ n
    → 0 < m
    → m < length bs
    → Reads (chunk bs ∷ es) n m pre junk
after_part es bs n m pre junk c e pos big =
    let want : n - length pre ≡ m = omega arith in
    rw e (
      chunk (drop m bs) ∷ es,
      loop_part es bs (pre ++ junk) n (length pre) (omega arith) (omega arith)
          ∙ rw want (
              ap (λ x. record { ret = some n; buf = x; rest = chunk (drop m bs) ∷ es })
                (buf_part pre bs (bytes es) junk m (omega arith))),
      sym (drop-append_le m bs (bytes es) (omega arith)),
      (omega (arith, length-drop m bs), c),
    )

-- `k` bytes are wanted, and `m` of them come.
loop_unbroken :
    (es : List Event) (n k m : ℕ) (pre junk : List ℕ)
    → IsUnbroken es
    → length pre + k ≡ n
    → m ≡ min k (length (bytes es))
    → Reads es n m pre junk
loop_unbroken es n zero m pre junk c e h =
    let none_left : m ≡ 0 = omega arith in
    let full : length pre ≡ n = omega arith in
    let total : length pre + 0 ≡ n = omega arith in
    rw none_left (es, rw (total, full) (loop_done es (pre ++ junk) n), refl, c)
loop_unbroken [] n (suc k) m pre junk c e h =
    let none_left : m ≡ 0 = omega arith in
    let total : length pre + 0 ≡ length pre = omega arith in
    rw none_left ([], rw total (loop_end (pre ++ junk) n (length pre)), refl, c)
loop_unbroken (interrupted ∷ es) n (suc k) m pre junk c e h =
    let (es', ran, left, c') = loop_unbroken es n (suc k) m pre junk c e h in
    (es', loop_interrupted es (pre ++ junk) n (length pre) (omega arith) ∙ ran, left, c')
loop_unbroken (failed ∷ es) n (suc k) m pre junk c e h = absurd c
loop_unbroken (chunk bs ∷ es) n (suc k) m pre junk c e h = elim (dec_le (length bs) (suc k)) [
  | yes whole ↦
      after_whole es bs n m pre junk c.0 (omega arith) (omega (arith, length-append bs (bytes es)))
        (loop_unbroken es n (suc k - length bs) (m - length bs) (pre ++ bs) (drop (length bs) junk)
          c.1 (omega (arith, length-append pre bs)) (omega (arith, length-append bs (bytes es))))
  | no part ↦
      let all : m ≡ suc k = omega (arith, length-append bs (bytes es)) in
      rw all (after_part es bs n (suc k) pre junk c.1 e (omega arith) (omega arith))
]

-- On a stream of arrivals and interruptions readn() returns the smaller of `n` and the number of
-- bytes that the stream carries; the memory begins with that many bytes of the stream and is
-- unchanged behind them; and the other bytes are left in the stream.
pub readn_complete :
    (es : List Event) (buf : List ℕ) (n m : ℕ)
    → IsUnbroken es
    → m ≡ min n (length (bytes es))
    → (es' : List Event) × (readn es buf n
        ≡ record { ret = some m; buf = take m (bytes es) ++ drop m buf; rest = es' })
      × (bytes es' ≡ drop m (bytes es))
      × IsUnbroken es'
unfolding readn
readn_complete es buf n m c e =
    let total : 0 + m ≡ m = omega arith in
    rw total at (loop_unbroken es n n m [] buf c (omega arith) e)

loop_failure :
    (es : List Event) (rest : List Event) (buf : List ℕ) (n tot : ℕ)
    → IsUnbroken es
    → tot + length (bytes es) < n
    → (readn_loop (es ++ failed ∷ rest) buf n tot).ret ≡ none
loop_failure [] rest buf n tot c h = rw (loop_failed rest buf n tot (omega arith)) refl
loop_failure (interrupted ∷ es) rest buf n tot c h =
    rw (loop_interrupted (es ++ failed ∷ rest) buf n tot (omega arith))
      (loop_failure es rest buf n tot c h)
loop_failure (failed ∷ es) rest buf n tot c h = absurd c
loop_failure (chunk bs ∷ es) rest buf n tot c h =
    let len : length (bs ++ bytes es) ≡ length bs + length (bytes es) =
      length-append bs (bytes es) in
    rw (loop_whole (es ++ failed ∷ rest) bs buf n tot c.0 (omega arith))
      (loop_failure es rest (write_at buf tot bs) n (tot + length bs) c.1 (omega arith))

-- When an error other than EINTR comes before the stream has carried `n` bytes, readn() returns -1.
pub readn_failure :
    (es rest : List Event) (buf : List ℕ) (n : ℕ)
    → IsUnbroken es
    → length (bytes es) < n
    → (readn (es ++ failed ∷ rest) buf n).ret ≡ none
unfolding readn
readn_failure es rest buf n c h = loop_failure es rest buf n 0 c (omega arith)
