-- ===== src/Environment.antt =====
-- chapter_06/myenv.c: mysetenv() and myunsetenv() on the environment, a list of strings. A string is
-- its bytes before the NUL.
pub mod Names
pub mod Lookup
pub mod Removal
mod Examples
use tlpi_solutions.Common.{
  ℕ, zero, suc, ◌+◌, ◌-◌, ◌%◌, ◌^◌, Bool, true, false, Option, none, some, List, [], ◌∷◌, ◌++◌,
  ◌==◌, ltb, leb, ◌&&◌, ◌||◌, not, if◌then◌else◌, length, get_elem?, set, take, drop,
}

abbrev pub equals : ℕ
equals = b'='

-- strchr(name, '=') != NULL
unfoldable pub has_equals : List ℕ → Bool
has_equals [] = false
has_equals (c ∷ cs) = c == equals || has_equals cs

-- `name` is NULL, "" or has a '='.
unfoldable pub bad_name : Option (List ℕ) → Bool
unfolding has_equals
bad_name none = true
bad_name (some []) = true
bad_name (some (c ∷ cs)) = has_equals (c ∷ cs)

-- strncmp(entry, name, strlen(name)) == 0
unfoldable pub starts_with : List ℕ → List ℕ → Bool
starts_with entry [] = true
starts_with [] (c ∷ cs) = false
starts_with (d ∷ ds) (c ∷ cs) = d == c && starts_with ds cs

-- entry[i], with the NUL behind the string
unfoldable pub char_at : List ℕ → ℕ → ℕ
char_at [] i = 0
char_at (c ∷ cs) zero = c
char_at (c ∷ cs) (suc i) = char_at cs i

-- The entry is one of the name.
unfoldable pub defines : List ℕ → List ℕ → Bool
unfolding starts_with char_at
defines name entry = starts_with entry name && char_at entry (length name) == equals

unfoldable pub getenv : List ℕ → List (List ℕ) → Option (List ℕ)
unfolding defines
getenv name [] = none
getenv name (entry ∷ env) =
    if defines name entry then some (drop (length name + 1) entry) else getenv name env

-- putenv() of an entry of the name
unfoldable pub putenv : List ℕ → List ℕ → List (List ℕ) → List (List ℕ)
unfolding defines
putenv name entry [] = entry ∷ []
putenv name entry (e ∷ env) = if defines name e then entry ∷ env else e ∷ putenv name entry env

abbrev pub is_none {ℓ} : {A : Type ℓ} → Option A → Bool
is_none none = true
is_none (some a) = false

-- 0, -1 with EINVAL, and -1 from putenv()
pub data Ret : Type 0 where
  done invalid refused : Ret

-- The result of a call, and how many of its stores are outside the block that it allocates.
pub record Outcome : Type 0 where
  pub ret : Ret
  pub environ : List (List ℕ)
  pub outside : ℕ

-- `n` as an int: whether it is negative, and what malloc() gets, a size_t.
abbrev pub envstrlen_mod : ℕ
envstrlen_mod = 2 ^ 32

unfoldable pub is_negative : ℕ → Bool
is_negative n = leb (2 ^ 31) (n % envstrlen_mod)

unfoldable pub block_size : ℕ → ℕ
unfolding is_negative
block_size n =
    if is_negative n then 2 ^ 64 - (envstrlen_mod - n % envstrlen_mod) else n % envstrlen_mod

-- How many of the stores of an entry of `n - 1` bytes are outside its block, which has as many bytes
-- as the int envstrlen says: those of the string and its NUL, and the one at envstrlen.
unfoldable pub stores_outside : (n : ℕ) → ℕ
unfolding is_negative block_size
stores_outside n =
    n
    - block_size n
    + (if is_negative n then 1 else if ltb (n % envstrlen_mod) (block_size n) then 0 else 1)

-- The entry is made and stored, where `memory` says whether malloc() succeeds, and `room` whether
-- putenv() does; `none` is a write through a NULL pointer.
unfoldable pub store : (memory room : Bool) → List ℕ → List ℕ → List (List ℕ) → Option Outcome
unfolding putenv stores_outside
store memory room name value env =
    let entry = name ++ equals ∷ value in
    let envstrlen = length name + length value + 2 in
    let outside = stores_outside envstrlen in
    if not memory
    then none
    else if room
    then some (record { ret = done; environ = putenv name entry env; outside = outside })
    else some (record { ret = refused; environ = env; outside = outside })

unfoldable pub mysetenv :
    (memory room : Bool) → Option (List ℕ) → List ℕ → Bool → List (List ℕ) → Option Outcome
unfolding store getenv bad_name
mysetenv memory room none value overwrite env =
    some (record { ret = invalid; environ = env; outside = 0 })
mysetenv memory room (some name) value overwrite env =
    if bad_name (some name)
    then some (record { ret = invalid; environ = env; outside = 0 })
    else if overwrite || is_none (getenv name env)
    then store memory room name value env
    else some (record { ret = done; environ = env; outside = 0 })

-- The loop of myunsetenv() over the `left` entries from `current` on: the array of the entries, and
-- how many are kept.
unfoldable pub unset_loop :
    (left : ℕ) → List ℕ → List (List ℕ) → (envcnt current : ℕ) → List (List ℕ) × ℕ
unfolding defines
unset_loop zero name environ envcnt current = (environ, envcnt)
unset_loop (suc left) name environ envcnt current = elim (get_elem? environ current) [
  | none ↦ (environ, envcnt)
  | some entry ↦
      if defines name entry
      then unset_loop left name environ envcnt (current + 1)
      else unset_loop left name (set environ envcnt entry) (envcnt + 1) (current + 1)
]

-- myunsetenv(): the array ends before the NULL that is stored at `envcnt`.
unfoldable pub myunsetenv : Option (List ℕ) → List (List ℕ) → Ret × List (List ℕ)
unfolding unset_loop bad_name
myunsetenv none env = (invalid, env)
myunsetenv (some name) env =
    if bad_name (some name)
    then (invalid, env)
    else (let (kept, envcnt) = unset_loop (length env) name env 0 0 in (done, take envcnt kept))
