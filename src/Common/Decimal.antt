-- ===== src/Common/Decimal.antt =====
-- Decimal numbers as C prints and reads them.
use Prim.Native.Nat.{ℕ, zero, suc, ◌+◌, ◌-◌, ◌*◌, ◌/◌, ◌%◌, ◌<◌, ◌≤◌}
use mathlib.Core.Path.{◌≡◌, refl, ◌∙◌}
use mathlib.Core.Logic.{inl, inr}
use mathlib.Core.Bool.{Bool, true, ◌&&◌, ◌||◌}
use mathlib.Core.List.{List, [], ◌∷◌, ◌++◌}
use native.Mathlib.Omega.{arith}
use tlpi_solutions.Common.Bytes.{IsString}
use tlpi_solutions.Common.Lists.{length}
use tlpi_solutions.Common.Tests.{◌==◌, ltb, leb, if◌then◌else◌, Bool-cases}

abbrev pub is_digit : ℕ → Bool
is_digit c = leb b'0' c && leb c b'9'

-- isspace()
abbrev pub is_space : ℕ → Bool
is_space c = c == 32 || (ltb 8 c && ltb c 14)

unfoldable pub skip_spaces : List ℕ → List ℕ
skip_spaces [] = []
skip_spaces (c ∷ cs) = let rest = skip_spaces cs in if is_space c then rest else c ∷ cs

-- The last `places` digits of `n`, without leading zeros, in front of `out`.
unfoldable pub digits : (places : ℕ) → ℕ → List ℕ → List ℕ
digits zero n out = out
digits (suc places) n out =
    let more = digits places (n / 10) ((b'0' + n % 10) ∷ out) in
    if ltb n 10 then (b'0' + n % 10) ∷ out else more

-- %ld and %d of a number that is not negative, which has at most 20 digits
unfoldable pub print_number : ℕ → List ℕ → List ℕ
unfolding digits
print_number n out = digits 20 n out

-- The digits at the front of a text, behind those of `n`.
unfoldable pub scan : List ℕ → ℕ → ℕ
scan [] n = n
scan (c ∷ cs) n = let more = scan cs (n * 10 + (c - b'0')) in if is_digit c then more else n

abbrev power_of_ten : ℕ → ℕ
power_of_ten zero = 1
power_of_ten (suc places) = 10 * power_of_ten places

scan_digit :
    (n : ℕ) (out : List ℕ) (m : ℕ) → scan ((b'0' + n % 10) ∷ out) m ≡ scan out (m * 10 + n % 10)
unfolding scan
scan_digit n out m = ground arith

scan-digits :
    (places n : ℕ) (out : List ℕ)
    → n < power_of_ten (suc places)
    → scan (digits (suc places) n out) 0 ≡ scan out n
unfolding digits
scan-digits zero n out small = ground (arith, scan_digit n out 0)
scan-digits (suc places) n out small = elim (Bool-cases (ltb n 10)) [
  | inl one ↦ ground (arith, scan_digit n out 0)
  | inr more ↦
      let back : n / 10 * 10 + n % 10 ≡ n = omega arith in
      rw more (
        scan-digits places (n / 10) ((b'0' + n % 10) ∷ out) (omega (arith, small))
        ∙ scan_digit n out (n / 10)
        ∙ rw back refl)
]

-- A number that is printed in front of a text is read back up to it.
pub scan-print_number :
    (n : ℕ) (out : List ℕ) → n < 100000000000000000000 → scan (print_number n out) 0 ≡ scan out n
unfolding print_number
scan-print_number n out small = scan-digits 19 n out small

digits-IsString : (places n : ℕ) (out : List ℕ) → IsString out → IsString (digits places n out)
unfolding digits
digits-IsString zero n out w = w
digits-IsString (suc places) n out w =
    let rest =
      digits-IsString places (n / 10) ((b'0' + n % 10) ∷ out) ((λ e. omega (arith, e)), w) in
    elim (Bool-cases (ltb n 10)) [
      | inl one ↦ rw one ((λ e. omega (arith, e)), w)
      | inr more ↦ rw more rest
    ]

pub print_number-IsString : (n : ℕ) (out : List ℕ) → IsString out → IsString (print_number n out)
unfolding print_number
print_number-IsString n out w = digits-IsString 20 n out w

digits_first :
    (places n : ℕ) (out : List ℕ)
    → (d : ℕ) × (rest : List ℕ) × (digits (suc places) n out ≡ d ∷ rest) × (is_digit d ≡ true)
unfolding digits
digits_first zero n out = (b'0' + n % 10, out, ground arith, ground arith)
digits_first (suc places) n out =
    let (d, rest, e, digit) = digits_first places (n / 10) ((b'0' + n % 10) ∷ out) in
    elim (Bool-cases (ltb n 10)) [
      | inl one ↦ (b'0' + n % 10, out, rw one refl, ground arith)
      | inr more ↦ (d, rest, rw more e, digit)
    ]

-- A number starts with a digit.
pub print_number_first :
    (n : ℕ) (out : List ℕ)
    → (d : ℕ) × (rest : List ℕ) × (print_number n out ≡ d ∷ rest) × (is_digit d ≡ true)
unfolding print_number
print_number_first n out = digits_first 19 n out

digits-append :
    (places n : ℕ) (out more : List ℕ) → digits places n out ++ more ≡ digits places n (out ++ more)
unfolding digits
digits-append zero n out more = refl
digits-append (suc places) n out more = elim (Bool-cases (ltb n 10)) [
  | inl one ↦ rw one refl
  | inr longer ↦ rw longer (digits-append places (n / 10) ((b'0' + n % 10) ∷ out) more)
]

pub print_number-append :
    (n : ℕ) (out more : List ℕ) → print_number n out ++ more ≡ print_number n (out ++ more)
unfolding print_number
print_number-append n out more = digits-append 20 n out more

length-digits : (places n : ℕ) (out : List ℕ) → length (digits places n out) ≤ places + length out
unfolding digits
length-digits zero n out = omega arith
length-digits (suc places) n out =
    let rest = length-digits places (n / 10) ((b'0' + n % 10) ∷ out) in
    elim (Bool-cases (ltb n 10)) [
      | inl one ↦ rw one (omega arith)
      | inr longer ↦ rw longer (omega (arith, rest))
    ]

pub length-print_number : (n : ℕ) (out : List ℕ) → length (print_number n out) ≤ 20 + length out
unfolding print_number
length-print_number n out = length-digits 20 n out
