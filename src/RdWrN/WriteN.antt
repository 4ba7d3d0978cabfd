-- ===== src/RdWrN/WriteN.antt =====
-- writen() of chapter_61/rdwrn.c, and what readn() makes of the bytes that it transfers.
use mathlib.Core.List.{append_assoc, append-nil}
use tlpi_solutions.Common.{
  ℕ, ◌<◌, ◌≡◌, ◌⊎◌, inl, inr, refl, subst, sym, ap, ◌∙◌, none, some, List, [], ◌∷◌, ◌++◌, arith,
  take, drop, ◌==◌, true, false, Bool-cases, take-append-drop,
}
use tlpi_solutions.RdWrN.{WriteEvent, takes, signalled, refused, WriteResult, writen_loop, writen}

-- No call of write() fails or takes nothing.
abbrev pub Accepts : List WriteEvent → Type 0
Accepts [] = Unit {0}
Accepts (takes k ∷ es) = (0 < k) × Accepts es
Accepts (signalled ∷ es) = Accepts es
Accepts (refused ∷ es) = ⊥

-- All of the bytes were transferred, or the call fails after a prefix of them.
abbrev Outcome : WriteResult → List ℕ → ℕ → Type 0
Outcome r buf n =
    ((r.ret ≡ some n) × (r.sent ≡ buf))
    ⊎ ((r.ret ≡ none) × ((rest : List ℕ) × (buf ≡ r.sent ++ rest)))

loop_takes :
    (es : List WriteEvent) (k b : ℕ) (buf : List ℕ) (n : ℕ) (sent : List ℕ)
    → (k == 0) ≡ false
    → writen_loop (takes k ∷ es) (b ∷ buf) n sent
      ≡ writen_loop es (drop k (b ∷ buf)) n (sent ++ take k (b ∷ buf))
unfolding writen_loop
loop_takes es k b buf n sent e = ground arith

loop_nothing :
    (es : List WriteEvent) (k b : ℕ) (buf : List ℕ) (n : ℕ) (sent : List ℕ)
    → (k == 0) ≡ true
    → writen_loop (takes k ∷ es) (b ∷ buf) n sent ≡ record { ret = none; sent = sent }
unfolding writen_loop
loop_nothing es k b buf n sent e = ground arith

taken : (k : ℕ) (sent buf : List ℕ) → (sent ++ take k buf) ++ drop k buf ≡ sent ++ buf
taken k sent buf =
    append_assoc sent (take k buf) (drop k buf) ∙ ap (λ l. sent ++ l) (take-append-drop k buf)

loop-Outcome :
    (es : List WriteEvent) (buf : List ℕ) (n : ℕ) (sent : List ℕ)
    → Outcome (writen_loop es buf n sent) (sent ++ buf) n
unfolding writen_loop
loop-Outcome [] [] n sent = inl (refl, sym (append-nil sent))
loop-Outcome (e ∷ es) [] n sent = inl (refl, sym (append-nil sent))
loop-Outcome [] (b ∷ buf) n sent = inl (refl, refl)
loop-Outcome (signalled ∷ es) (b ∷ buf) n sent = loop-Outcome es (b ∷ buf) n sent
loop-Outcome (refused ∷ es) (b ∷ buf) n sent = inr (refl, (b ∷ buf, refl))
loop-Outcome (takes k ∷ es) (b ∷ buf) n sent = elim (Bool-cases (k == 0)) [
  | inl e ↦ rw (loop_nothing es k b buf n sent e) (inr (refl, (b ∷ buf, refl)))
  | inr e ↦ rw (loop_takes es k b buf n sent e) (
      subst (λ l. Outcome (writen_loop es (drop k (b ∷ buf)) n (sent ++ take k (b ∷ buf))) l n)
        (taken k sent (b ∷ buf)) (loop-Outcome es (drop k (b ∷ buf)) n (sent ++ take k (b ∷ buf))))
]

loop_all :
    (es : List WriteEvent) (buf : List ℕ) (n : ℕ) (sent : List ℕ)
    → Accepts es
    → writen_loop es buf n sent ≡ record { ret = some n; sent = sent ++ buf }
unfolding writen_loop
loop_all [] [] n sent a = ap (λ l. record { ret = some n; sent = l }) (sym (append-nil sent))
loop_all (e ∷ es) [] n sent a = ap (λ l. record { ret = some n; sent = l }) (sym (append-nil sent))
loop_all [] (b ∷ buf) n sent a = refl
loop_all (signalled ∷ es) (b ∷ buf) n sent a = loop_all es (b ∷ buf) n sent a
loop_all (refused ∷ es) (b ∷ buf) n sent a = absurd a
loop_all (takes k ∷ es) (b ∷ buf) n sent a =
    loop_takes es k b buf n sent (ground arith)
    ∙ loop_all es (drop k (b ∷ buf)) n (sent ++ take k (b ∷ buf)) a.1
    ∙ ap (λ l. record { ret = some n; sent = l }) (taken k sent (b ∷ buf))

-- Whatever write() does, writen() returns `n` after a transfer of the first `n` bytes of its
-- buffer, or -1 after a transfer of a prefix of them.
pub writen_cases :
    (es : List WriteEvent) (buffer : List ℕ) (n : ℕ)
    → (((writen es buffer n).ret ≡ some n) × ((writen es buffer n).sent ≡ take n buffer))
      ⊎ (((writen es buffer n).ret ≡ none)
          × ((rest : List ℕ) × (take n buffer ≡ (writen es buffer n).sent ++ rest)))
unfolding writen
writen_cases es buffer n = loop-Outcome es (take n buffer) n []

-- When every call of write() takes at least one byte or is interrupted, writen() returns `n`, and
-- the first `n` bytes of its buffer are transferred.
pub writen_all :
    (es : List WriteEvent) (buffer : List ℕ) (n : ℕ)
    → Accepts es
    → writen es buffer n ≡ record { ret = some n; sent = take n buffer }
unfolding writen
writen_all es buffer n a = loop_all es (take n buffer) n [] a
