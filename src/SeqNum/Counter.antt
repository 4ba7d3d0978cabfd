-- ===== src/SeqNum/Counter.antt =====
-- What the clients of chapter_44/fifo_seqnum_server_mod3.c are promised: a counter.
use tlpi_solutions.Common.{
  ℕ, ◌+◌, ◌%◌, ◌≤◌, ◌<◌, ◌≡◌, refl, sym, subst, List, [], ◌∷◌, ◌++◌, leb, ltb, ◌&&◌, if◌then◌else◌,
  arith, Bool-cases, inl, inr,
}
use tlpi_solutions.SeqNum.{word, half_word, Range}

-- The ranges start at `a`, each where the one before it ends, and end at `b`.
abbrev pub Follows : ℕ → List Range → ℕ → Type 0
Follows a [] b = a ≡ b
Follows a (r ∷ rs) b = (r.seq_num ≡ a) × Follows ((a + r.seq_len) % word) rs b

pub Follows-append :
    (a b c : ℕ) (rs qs : List Range) → Follows a rs b → Follows b qs c → Follows a (rs ++ qs) c
Follows-append a b c [] qs f g = subst (λ x. Follows x qs c) (sym f) g
Follows-append a b c (r ∷ rs) qs f g =
    (f.0, Follows-append ((a + r.seq_len) % word) b c rs qs f.1 g)

-- How many numbers the ranges have.
abbrev pub total : List Range → ℕ
total [] = 0
total (r ∷ rs) = r.seq_len + total rs

-- How many of the ranges have the number `x`.
unfoldable pub owners : ℕ → List Range → ℕ
owners x [] = 0
owners x (r ∷ rs) =
    (if leb r.seq_num x && ltb x (r.seq_num + r.seq_len) then 1 else 0) + owners x rs

owners_below :
    (x a b : ℕ) (rs : List Range)
    → Follows a rs b
    → a + total rs < half_word
    → x < a
    → owners x rs ≡ 0
unfolding owners
owners_below x a b [] f fits low = refl
owners_below x a b (r ∷ rs) f fits low =
    let next : (a + r.seq_len) % word ≡ a + r.seq_len = omega (arith, fits) in
    let rest : owners x rs ≡ 0 =
      owners_below x (a + r.seq_len) b rs (subst (λ y. Follows y rs b) next f.1)
        (omega (arith, fits)) (omega (arith, low)) in
    ground (arith, rest, f.0, low)

-- No number belongs to two of the ranges.
pub owners_unique :
    (x a b : ℕ) (rs : List Range) → Follows a rs b → a + total rs < half_word → owners x rs ≤ 1
unfolding owners
owners_unique x a b [] f fits = omega arith
owners_unique x a b (r ∷ rs) f fits =
    let next : (a + r.seq_len) % word ≡ a + r.seq_len = omega (arith, fits) in
    let follows : Follows (a + r.seq_len) rs b = subst (λ y. Follows y rs b) next f.1 in
    let rest : owners x rs ≤ 1 =
      owners_unique x (a + r.seq_len) b rs follows (omega (arith, fits)) in
    elim (Bool-cases (ltb x (r.seq_num + r.seq_len))) [
      | inl inside ↦
          let none_left : owners x rs ≡ 0 =
            owners_below x (a + r.seq_len) b rs follows (omega (arith, fits))
              (ground (arith, inside, f.0)) in
          ground (arith, none_left)
      | inr outside ↦ ground (arith, outside, rest)
    ]
