-- ===== src/DirService/Table.antt =====
-- The entries of chapter_48/dir_service/dir_service.c as a map from names to values.
use native.Mathlib.Decide.{dec_lt}
use tlpi_solutions.Common.{
  ℕ, ◌<◌, ◌≡◌, refl, sym, ◌∙◌, inl, inr, true, false, none, some, List, [], ◌∷◌, ◌++◌, arith,
  length, bytes_eq, bytes_eq_sound, bytes_eq_refl, ◌&&◌, get_elem?, Bool-cases, length-append,
}
use tlpi_solutions.DirService.{
  Entry, Directory, holds, pad, copy_string, find_entry, name_len, value_len, strncmp_eq,
}
use tlpi_solutions.DirService.Strings.{
  IsString, copy_string-eq, strncmp_eq-pad, strncmp_eq-injective, strncmp_eq-long, length-pad,
  get_elem?-end,
}

-- A name that an entry can store whole.
pub record IsName (k : List ℕ) : Type 0 where
  pub text : IsString k
  pub short : length k < name_len

-- The arrays have their sizes, and a name ends with a NUL.
pub record IsEntry (e : Entry) : Type 0 where
  pub name_size : length e.name ≡ name_len
  pub name_end : get_elem? e.name 31 ≡ some 0
  pub value_size : length e.value ≡ value_len

abbrev pub IsTable : Directory → Type 0
IsTable [] = Unit {0}
IsTable (e ∷ es) = IsEntry e × IsTable es

-- No name is held by two entries.
abbrev pub IsUnique : Directory → Type 0
IsUnique [] = Unit {0}
IsUnique (e ∷ es) =
    ((k : List ℕ) → IsString k → holds k e ≡ true → find_entry k es ≡ none) × IsUnique es

-- The array of a value after it is stored.
abbrev pub stored : List ℕ → List ℕ
stored v = pad 127 v ++ 0 ∷ []

-- An entry that holds the name `k` holds no other string.
pub holds-eq :
    (e : Entry) (k j : List ℕ)
    → IsEntry e
    → IsName k
    → IsString j
    → holds k e ≡ true
    → holds j e ≡ bytes_eq j k
unfolding holds
holds-eq e k j w n sj h = elim (Bool-cases (bytes_eq j k)) [
  | inl same ↦ rw same (rw (bytes_eq_sound j k same) h)
  | inr other ↦ rw other (elim (dec_lt (length j) name_len) [
    | yes fits ↦ elim (Bool-cases (e.in_use && strncmp_eq name_len e.name j)) [
      | inr no_match ↦ no_match
      | inl match ↦
          let same : j ≡ k =
            strncmp_eq-injective name_len e.name j k fits n.short sj n.text (ground arith)
              (ground arith) in
          let again : bytes_eq j k ≡ true = rw same (bytes_eq_refl k) in cc
    ]
    | no long ↦
        let no_match : strncmp_eq name_len e.name j ≡ false =
          strncmp_eq-long 31 e.name j w.name_end (omega arith) sj in
        ground arith
  ])
]

-- A new entry for `k`.
abbrev pub filled : Entry → List ℕ → List ℕ → Entry
filled e k v = record {
  name = copy_string e.name k name_len;
  value = copy_string e.value v value_len;
  in_use = true;
}

pub holds-filled :
    (e : Entry) (k j v : List ℕ)
    → IsEntry e
    → IsName k
    → IsString j
    → holds j (filled e k v) ≡ bytes_eq k j
unfolding holds
holds-filled e k j v w n sj =
    let array : copy_string e.name k name_len ≡ pad 31 k ++ 0 ∷ [] =
      copy_string-eq e.name k 31 w.name_size in
    rw array (strncmp_eq-pad 31 k j (omega (arith, n.short)) n.text sj)

pub copied-IsEntry : (e : Entry) (k v : List ℕ) → IsEntry e → IsEntry (filled e k v)
copied-IsEntry e k v w =
    let name : copy_string e.name k name_len ≡ pad 31 k ++ 0 ∷ [] =
      copy_string-eq e.name k 31 w.name_size in
    let value : copy_string e.value v value_len ≡ pad 127 v ++ 0 ∷ [] =
      copy_string-eq e.value v 127 w.value_size in
    record {
      name_size = rw name (omega (arith, length-append (pad 31 k) (0 ∷ []), length-pad 31 k));
      name_end = rw name (get_elem?-end 31 (pad 31 k) (length-pad 31 k));
      value_size = rw value (omega (arith, length-append (pad 127 v) (0 ∷ []), length-pad 127 v));
    }

pub bytes_eq_comm : (j k : List ℕ) → bytes_eq j k ≡ bytes_eq k j
bytes_eq_comm j k = elim (Bool-cases (bytes_eq j k)) [
  | inl same ↦ rw (bytes_eq_sound j k same) refl
  | inr other ↦ elim (Bool-cases (bytes_eq k j)) [
    | inl same ↦ rw (bytes_eq_sound k j same) refl
    | inr other' ↦ other ∙ sym other'
  ]
]

-- A name that `e` does not hold, where `e` holds `j`.
pub differ :
    (e : Entry) (j k : List ℕ) → holds j e ≡ true → holds k e ≡ false → bytes_eq j k ≡ false
differ e j k hj hk = elim (Bool-cases (bytes_eq j k)) [
  | inr other ↦ other
  | inl same ↦ let h : holds k e ≡ true = rw (← bytes_eq_sound j k same) hj in cc
]
