-- ===== src/SeqNum/Persist.antt =====
-- The file of chapter_44/fifo_seqnum_server_mod3.c: what save_seq() writes and read_seq() reads.
use tlpi_solutions.Common.{
  ℕ, ◌-◌, ◌%◌, ◌<◌, ◌≡◌, refl, sym, ap, ◌∙◌, true, Option, none, some, List, [], ◌∷◌, ◌==◌, ltb,
  arith, scan, is_digit, print_number, scan-print_number, print_number_first, skip_spaces,
  Bool-cases, inl, inr,
}
use tlpi_solutions.SeqNum.{
  word, half_word, newline, scan_digits, negate, scan_signed, print_int, or_zero, read_seq,
}

scan_end : (n : ℕ) → scan (newline ∷ []) n ≡ n
unfolding scan
scan_end n = refl

-- The digits of a number, and the text that they start.
scan_digits-print_number :
    (n : ℕ)
    → n < 100000000000000000000
    → scan_digits (print_number n (newline ∷ [])) ≡ some (n % word)
unfolding scan_digits
scan_digits-print_number n small =
    let (d, rest, e, digit) = print_number_first n (newline ∷ []) in
    let number : scan (d ∷ rest) 0 ≡ n =
      ap (λ l. scan l 0) (sym e) ∙ scan-print_number n (newline ∷ []) small ∙ scan_end n in
    ap scan_digits e ∙ rw (digit, number) refl

-- A digit is neither a space nor a sign.
digit-plain :
    (d : ℕ) (rest : List ℕ)
    → is_digit d ≡ true
    → scan_signed (skip_spaces (d ∷ rest)) ≡ scan_digits (d ∷ rest)
unfolding scan_signed skip_spaces
digit-plain d rest digit = ground (arith, digit)

plain_number :
    (n : ℕ)
    → n < 100000000000000000000
    → scan_signed (skip_spaces (print_number n (newline ∷ []))) ≡ some (n % word)
plain_number n small =
    let (d, rest, e, digit) = print_number_first n (newline ∷ []) in
    ap (λ l. scan_signed (skip_spaces l)) e
    ∙ digit-plain d rest digit
    ∙ ap scan_digits (sym e)
    ∙ scan_digits-print_number n small

minus-negate : (text : List ℕ) → scan_signed (skip_spaces (b'-' ∷ text)) ≡ negate (scan_digits text)
unfolding scan_signed skip_spaces
minus-negate text = refl

-- read_seq() reads every int that save_seq() writes.
pub read_seq-print_int : (n : ℕ) → n < word → read_seq (some (print_int n)) ≡ n
unfolding read_seq print_int
read_seq-print_int n small = elim (Bool-cases (ltb n half_word)) [
  | inl positive ↦
      let same : n % word ≡ n = omega (arith, small) in
      rw (positive, print_int) (ap or_zero (plain_number n (omega (arith, small)) ∙ ap some same))
  | inr negative ↦
      let back : (word - (word - n) % word) % word ≡ n = ground (arith, small, negative) in
      rw (negative, print_int)
        (ap or_zero (
          minus-negate (print_number (word - n) (newline ∷ []))
          ∙ ap negate (scan_digits-print_number (word - n) (omega (arith, small)))
          ∙ ap some back))
]

scan_digits-bounded : (text : List ℕ) → or_zero (scan_digits text) < word
unfolding scan_digits
scan_digits-bounded [] = omega arith
scan_digits-bounded (c ∷ cs) = elim (Bool-cases (is_digit c)) [
  | inl e ↦ rw e (omega arith)
  | inr e ↦ rw e (omega arith)
]

negate-bounded : (o : Option ℕ) → or_zero (negate o) < word
negate-bounded none = omega arith
negate-bounded (some n) = omega arith

scan_signed-bounded : (text : List ℕ) → or_zero (scan_signed text) < word
unfolding scan_signed
scan_signed-bounded [] = omega arith
scan_signed-bounded (c ∷ cs) = elim (Bool-cases (c == b'-')) [
  | inl e ↦ rw e (negate-bounded (scan_digits cs))
  | inr e ↦ elim (Bool-cases (c == b'+')) [
    | inl x ↦ rw (e, x) (scan_digits-bounded cs)
    | inr x ↦ rw (e, x) (scan_digits-bounded (c ∷ cs))
  ]
]

-- What read_seq() reads is an int.
pub read_seq-bounded : (seqfile : Option (List ℕ)) → read_seq seqfile < word
unfolding read_seq
read_seq-bounded none = omega arith
read_seq-bounded (some text) = scan_signed-bounded (skip_spaces text)
