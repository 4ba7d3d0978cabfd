-- ===== src/KvServer/ReadExact.antt =====
-- read_exact() of chapter_59/kv_server.c on a stream without errors, and after an error.
use tlpi_solutions.Common.{
  ℕ, zero, suc, ◌+◌, ◌-◌, ◌%◌, ◌<◌, ◌≤◌, ◌≡◌, refl, sym, ap, ◌∙◌, List, [], ◌∷◌, ◌++◌, arith,
  length, take, drop, ltb, true, length-append, length-drop, drop-append_ge, drop-append_le,
}
use native.Mathlib.Decide.{dec_le}
use tlpi_solutions.Stream.{
  write_at-append, buf_whole, buf_part, Event, chunk, interrupted, failed, bytes, IsClean, write_at,
}
use tlpi_solutions.KvServer.{read_exact_loop, read_exact, size_mod, size_max}

-- The state of a clean read: `m` bytes are still wanted behind the prefix `pre`.
abbrev Reads : List Event → ℕ → ℕ → List ℕ → List ℕ → Type 0
Reads es n m pre junk =
    (es' : List Event) × (read_exact_loop es (pre ++ junk) n (length pre)
      ≡ record { ret = n; buf = pre ++ (take m (bytes es) ++ drop m junk); rest = es' })
    × (bytes es' ≡ drop m (bytes es))
    × IsClean es'

loop_stops :
    (es : List Event) (n : ℕ) (buf : List ℕ)
    → IsClean es
    → read_exact_loop es buf n n ≡ record { ret = n; buf = buf; rest = es }
unfolding read_exact_loop
loop_stops [] n buf c = ground arith
loop_stops (chunk bs ∷ es) n buf c = ground arith
loop_stops (interrupted ∷ es) n buf c = absurd c
loop_stops (failed ∷ es) n buf c = absurd c

loop_whole :
    (es : List Event) (bs buf : List ℕ) (n total : ℕ)
    → 0 < length bs
    → length bs ≤ n - total
    → n < size_mod
    → read_exact_loop (chunk bs ∷ es) buf n total
      ≡ read_exact_loop es (write_at buf total bs) n (total + length bs)
unfolding read_exact_loop
loop_whole es bs buf n total pos fits small =
    let wraps : (total + length bs) % size_mod ≡ total + length bs = omega arith in ground arith

loop_part :
    (es : List Event) (bs buf : List ℕ) (n total : ℕ)
    → 0 < n - total
    → n - total < length bs
    → read_exact_loop (chunk bs ∷ es) buf n total ≡ record {
      ret = n;
      buf = write_at buf total (take (n - total) bs);
      rest = chunk (drop (n - total) bs) ∷ es;
    }
unfolding read_exact_loop
loop_part es bs buf n total pos big = ground arith

loop_clean :
    (es : List Event) (n m : ℕ) (pre junk : List ℕ)
    → IsClean es
    → length pre + m ≡ n
    → m ≤ length (bytes es)
    → m ≤ length junk
    → n < size_mod
    → Reads es n m pre junk
loop_clean es n zero pre junk c e h room small =
    let full : length pre ≡ n = omega arith in
    (es, rw full (loop_stops es n (pre ++ junk) c), refl, c)
loop_clean [] n (suc m) pre junk c e h room small = absurd (omega arith)
loop_clean (interrupted ∷ es) n (suc m) pre junk c e h room small = absurd c
loop_clean (failed ∷ es) n (suc m) pre junk c e h room small = absurd c
loop_clean (chunk bs ∷ es) n (suc m) pre junk c e h room small = elim (dec_le (length bs) (suc m)) [
  | yes whole ↦
      let (es', ran, left, c') =
        loop_clean es n (suc m - length bs) (pre ++ bs) (drop (length bs) junk) c.1
          (omega (arith, length-append pre bs)) (omega (arith, length-append bs (bytes es)))
          (omega (arith, length-drop (length bs) junk)) small in
      (
        es',
        loop_whole es bs (pre ++ junk) n (length pre) c.0 (omega arith) small
            ∙ rw (write_at-append pre junk bs, ← length-append pre bs)
                (ran
                  ∙ ap (λ x. record { ret = n; buf = x; rest = es' })
                      (buf_whole pre bs (bytes es) junk (suc m) whole)),
        left ∙ sym (drop-append_ge (suc m) bs (bytes es) whole),
        c',
      )
  | no part ↦
      let want : n - length pre ≡ suc m = omega arith in
      (
        chunk (drop (suc m) bs) ∷ es,
        loop_part es bs (pre ++ junk) n (length pre) (omega arith) (omega arith)
            ∙ rw want (
                ap (λ x. record { ret = n; buf = x; rest = chunk (drop (suc m) bs) ∷ es })
                  (buf_part pre bs (bytes es) junk (suc m) (omega arith))),
        sym (drop-append_le (suc m) bs (bytes es) (omega arith)),
        (omega (arith, length-drop (suc m) bs), c.1),
      )
]

-- On a clean stream that carries `n` bytes or more, into memory of `n` bytes or more: read_exact()
-- returns `n`, the memory begins with the first `n` bytes of the stream and is unchanged behind
-- them, and a clean stream is left with the other bytes.
pub read_exact_full :
    (es : List Event) (buf : List ℕ) (n : ℕ)
    → IsClean es
    → n ≤ length (bytes es)
    → n ≤ length buf
    → n < size_mod
    → (es' : List Event) × (read_exact es buf n
        ≡ record { ret = n; buf = take n (bytes es) ++ drop n buf; rest = es' })
      × (bytes es' ≡ drop n (bytes es))
      × IsClean es'
unfolding read_exact
read_exact_full es buf n c h room small = loop_clean es n n [] buf c (omega arith) h room small

loop_eof :
    (es : List Event) (buf : List ℕ) (n total : ℕ)
    → IsClean es
    → total + length (bytes es) < n
    → n < size_mod
    → ((read_exact_loop es buf n total).ret ≡ 0)
unfolding read_exact_loop
loop_eof [] buf n total c h small = ground arith
loop_eof (interrupted ∷ es) buf n total c h small = absurd c
loop_eof (failed ∷ es) buf n total c h small = absurd c
loop_eof (chunk bs ∷ es) buf n total c h small =
    let len : length (bs ++ bytes es) ≡ length bs + length (bytes es) =
      length-append bs (bytes es) in
    rw (loop_whole es bs buf n total c.0 (omega arith) small)
      (loop_eof es (write_at buf total bs) n (total + length bs) c.1 (omega arith) small)

-- On a clean stream that ends before `n` bytes, read_exact() returns 0.
pub read_exact_eof :
    (es : List Event) (buf : List ℕ) (n : ℕ)
    → IsClean es
    → length (bytes es) < n
    → n < size_mod
    → (read_exact es buf n).ret ≡ 0
unfolding read_exact
read_exact_eof es buf n c h small = loop_eof es buf n 0 c (omega arith) small

loop_failed :
    (es : List Event) (buf : List ℕ) (n total total' : ℕ)
    → total < n
    → (total + size_max) % size_mod ≡ total'
    → read_exact_loop (failed ∷ es) buf n total ≡ read_exact_loop es buf n total'
unfolding read_exact_loop
loop_failed es buf n total total' more e =
    let test : ltb total n ≡ true = ground arith in ground arith

-- When read() fails after a first piece of `bs` bytes, fewer than `n`, read_exact() does not return
-- the error: it goes on one byte before the end of the piece.
pub read_exact_ignores_failure :
    (bs : List ℕ) (es : List Event) (buf : List ℕ) (n : ℕ)
    → 0 < length bs
    → length bs < n
    → n < size_mod
    → read_exact (chunk bs ∷ failed ∷ es) buf n
      ≡ read_exact_loop es (write_at buf 0 bs) n (length bs - 1)
unfolding read_exact
read_exact_ignores_failure bs es buf n pos part small =
    loop_whole (failed ∷ es) bs buf n 0 pos (omega arith) small
    ∙ loop_failed es (write_at buf 0 bs) n (0 + length bs) (length bs - 1) (omega arith)
        (omega arith)
