-- ===== src/Environment/Lookup.antt =====
-- What getenv() finds after mysetenv() of chapter_06/myenv.c.
use tlpi_solutions.Common.{
  ℕ, ◌≡◌, refl, Bool, true, false, some, List, [], ◌∷◌, ◌++◌, ◌&&◌, ◌||◌, leb, ◌<◌, ◌%◌, ◌^◌,
  if◌then◌else◌, arith, length, ◌+◌, bytes_eq, bytes_eq_refl, bytes_eq_sound, Bool-cases, inl, inr,
}
use tlpi_solutions.Environment.{
  equals, has_equals, bad_name, defines, getenv, putenv, is_none, done, Outcome, store,
  envstrlen_mod, is_negative, block_size, stores_outside, mysetenv,
}
use tlpi_solutions.Environment.Names.{defines-entry, value-entry, defines-same}

-- What the name is found to be in the environment that putenv() leaves.
pub getenv-putenv :
    (other name value : List ℕ) (env : List (List ℕ))
    → has_equals other ≡ false
    → has_equals name ≡ false
    → getenv other (putenv name (name ++ equals ∷ value) env)
      ≡ (if bytes_eq other name then some value else getenv other env)
unfolding getenv putenv
getenv-putenv other name value [] a b =
    rw (getenv, defines-entry other name value a b)
      (elim (Bool-cases (bytes_eq other name)) [
        | inl e ↦ rw (e, bytes_eq_sound other name e, value-entry name value) refl
        | inr e ↦ rw e refl
      ])
getenv-putenv other name value (e ∷ env) a b = elim (Bool-cases (defines name e)) [
  | inl hit ↦ elim (Bool-cases (bytes_eq other name)) [
    | inl s ↦
        rw
          (
            hit,
            putenv,
            getenv,
            defines-entry other name value a b,
            s,
            bytes_eq_sound other name s,
            value-entry name value,
          )
          refl
    | inr s ↦
        let miss : defines other e ≡ false = (elim (Bool-cases (defines other e)) [
          | inr x ↦ x
          | inl x ↦
              let same : other ≡ name = defines-same other name e a b x hit in
              let s' : bytes_eq other name ≡ true = rw same (bytes_eq_refl name) in absurd (cc)
        ]) in
        rw (hit, putenv, getenv, defines-entry other name value a b, s, miss) refl
  ]
  | inr miss ↦ elim (Bool-cases (defines other e)) [
    | inl x ↦
        let s : bytes_eq other name ≡ false = (elim (Bool-cases (bytes_eq other name)) [
          | inr y ↦ y
          | inl y ↦
              let same : other ≡ name = bytes_eq_sound other name y in
              let x' : defines name e ≡ true = rw (← same) x in absurd (cc)
        ]) in
        rw (miss, putenv, getenv, x, s) refl
    | inr x ↦ rw (miss, putenv, getenv, x) (getenv-putenv other name value env a b)
  ]
]

-- The name is not NULL or "", and has no '='.
abbrev pub IsName : List ℕ → Type 0
IsName name = bad_name (some name) ≡ false

pub IsName-has_equals : (name : List ℕ) → IsName name → has_equals name ≡ false
unfolding bad_name
IsName-has_equals [] e = absurd (ground arith)
IsName-has_equals (c ∷ cs) e = e

one_outside : (n : ℕ) → n < 2 ^ 31 → stores_outside n ≡ 1
unfolding stores_outside block_size is_negative
one_outside n short =
    let same : n % envstrlen_mod ≡ n = omega (arith, short) in
    let positive : leb (2 ^ 31) n ≡ false = ground (arith, short) in
    rw (same, positive) (ground arith)

-- With memory, mysetenv() of a name, which is not empty and has no '=', and of a value, whose entry
-- with its NUL is shorter than 2^31 bytes, returns 0. Where it
-- overwrites, or the name had no value, getenv() then finds the new value for the name, and one
-- byte has been stored outside the block that was allocated; for every other name, and where
-- nothing is overwritten, getenv() finds what it found before.
pub getenv-mysetenv :
    (name value other : List ℕ) (overwrite : Bool) (env : List (List ℕ))
    → IsName name
    → IsName other
    → length name + length value + 2 < 2 ^ 31
    → let adds = overwrite || is_none (getenv name env) in
      (o : Outcome) × (mysetenv true true (some name) value overwrite env ≡ some o)
      × (o.ret ≡ done)
      × (o.outside ≡ (if adds then 1 else 0))
      × (getenv other o.environ
          ≡ (if adds && bytes_eq other name then some value else getenv other env))
unfolding mysetenv store
getenv-mysetenv name value other overwrite env n m short =
    elim (Bool-cases (overwrite || is_none (getenv name env))) [
      | inr keeps ↦ (
        record { ret = done; environ = env; outside = 0 },
        rw (n, mysetenv, keeps) refl,
        refl,
        rw keeps refl,
        rw keeps refl,
      )
      | inl adds ↦
          let size = length name + length value + 2 in
          let past : stores_outside size ≡ 1 = one_outside size short in
          (
            record { ret = done; environ = putenv name (name ++ equals ∷ value) env; outside = 1 },
            rw (n, mysetenv, adds, past) refl,
            refl,
            rw adds refl,
            (rw adds (
                getenv-putenv other name value env (IsName-has_equals other m)
                  (IsName-has_equals name n))),
          )
    ]
