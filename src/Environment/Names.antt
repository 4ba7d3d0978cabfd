-- ===== src/Environment/Names.antt =====
-- The names of entries in chapter_06/myenv.c.
use tlpi_solutions.Common.{
  ℕ, suc, ◌+◌, ◌≡◌, refl, true, false, List, [], ◌∷◌, ◌++◌, length, drop, arith, bytes_eq,
}
use tlpi_solutions.Environment.{equals, has_equals, starts_with, char_at, defines}

-- An entry that is made of a name without '=' defines that name and no other one without '='.
pub defines-entry :
    (other name value : List ℕ)
    → has_equals other ≡ false
    → has_equals name ≡ false
    → defines other (name ++ equals ∷ value) ≡ bytes_eq other name
unfolding defines starts_with char_at has_equals
defines-entry [] [] value a b = refl
defines-entry [] (d ∷ ds) value a b = ground arith
defines-entry (c ∷ cs) [] value a b = ground arith
defines-entry (c ∷ cs) (d ∷ ds) value a b = ground (arith, defines-entry cs ds value)

pub value-entry : (name value : List ℕ) → drop (length name + 1) (name ++ equals ∷ value) ≡ value
value-entry [] value = refl
value-entry (c ∷ cs) value =
    let e : suc (length cs) + 1 ≡ suc (length cs + 1) = omega arith in rw e (value-entry cs value)

-- One entry defines one name without '='.
pub defines-same :
    (a b entry : List ℕ)
    → has_equals a ≡ false
    → has_equals b ≡ false
    → defines a entry ≡ true
    → defines b entry ≡ true
    → a ≡ b
unfolding defines starts_with char_at has_equals
defines-same [] [] entry x y p q = refl
defines-same [] (d ∷ ds) [] x y p q = ground arith
defines-same [] (d ∷ ds) (e ∷ es) x y p q = ground arith
defines-same (c ∷ cs) [] [] x y p q = ground arith
defines-same (c ∷ cs) [] (e ∷ es) x y p q = ground arith
defines-same (c ∷ cs) (d ∷ ds) [] x y p q = ground arith
defines-same (c ∷ cs) (d ∷ ds) (e ∷ es) x y p q = ground (arith, defines-same cs ds es)
