-- ===== src/DirService/Calls.antt =====
-- dir_set(), dir_get() and dir_delete() of chapter_48/dir_service/dir_service.c.
use tlpi_solutions.Common.{
  ℕ, ◌≡◌, ◌≢◌, ◌⊎◌, refl, sym, ap, ◌∙◌, inl, inr, Bool, true, false, Option, none, some, List, [],
  ◌∷◌, ◌++◌, arith, bytes_eq, bytes_eq_sound, Bool-cases, Option-cases, if◌then◌else◌, take,
}
use tlpi_solutions.DirService.{
  Directory, Service, Ipc, Ret, ret_error, ret_0, ret_1, update_entry, create_entry, find_entry,
  delete_entry, pad, c_str, value_len, dir_set, dir_get, dir_delete, dir_init, max_entries,
}
use tlpi_solutions.DirService.Strings.{IsString, c_str-pad}
use tlpi_solutions.DirService.Table.{IsName, stored}
use tlpi_solutions.DirService.Laws.{find-update, find-create, find-delete}
use tlpi_solutions.DirService.Invariant.{
  IsValid, update-IsValid, create-IsValid, delete-IsValid, blanks-IsValid,
}

-- All calls of the kernel succeed.
abbrev pub up : Ipc
up = record { attaches = true; has_semaphore = true; locks = true; unlocks = true; detaches = true }

-- What dir_get() returns and writes for the value array that it finds.
abbrev pub answer : Option (List ℕ) → Ret × Option (List ℕ)
answer none = (ret_error, none)
answer (some a) = (ret_0, some (pad value_len (c_str a) ++ 0 ∷ []))

pub get-answer : (s : Service) (j : List ℕ) → (dir_get up s j).0 ≡ answer (find_entry j s.dir)
unfolding dir_get
get-answer s j = elim (Option-cases (find_entry j s.dir)) [
  | inl e ↦ ground arith
  | inr (a, e) ↦ ground arith
]

-- How a call of dir_set() can end.
pub set_cases :
    (s : Service) (k v : List ℕ)
    → ((es : Directory) × (update_entry k v s.dir ≡ some es)
        × ((dir_set up s k v).0 ≡ ret_0)
        × ((dir_set up s k v).1.dir ≡ es))
      ⊎ (((es : Directory) × (update_entry k v s.dir ≡ none)
            × (create_entry k v s.dir ≡ some es)
            × ((dir_set up s k v).0 ≡ ret_1)
            × ((dir_set up s k v).1.dir ≡ es))
          ⊎ ((update_entry k v s.dir ≡ none)
              × (create_entry k v s.dir ≡ none)
              × ((dir_set up s k v).0 ≡ ret_error)
              × ((dir_set up s k v).1.dir ≡ s.dir)))
unfolding dir_set
set_cases s k v = elim (Option-cases (update_entry k v s.dir)) [
  | inr (es, u) ↦ inl (es, u, ground arith, ground arith)
  | inl u ↦ elim (Option-cases (create_entry k v s.dir)) [
    | inr (es, c) ↦ inr (inl (es, u, c, ground arith, ground arith))
    | inl c ↦ inr (inr (u, c, ground arith, ground arith))
  ]
]

delete_cases :
    (s : Service) (k : List ℕ)
    → ((es : Directory) × (delete_entry k s.dir ≡ some es)
        × ((dir_delete up s k).0 ≡ ret_0)
        × ((dir_delete up s k).1.dir ≡ es))
      ⊎ ((delete_entry k s.dir ≡ none)
          × ((dir_delete up s k).0 ≡ ret_error)
          × ((dir_delete up s k).1.dir ≡ s.dir))
unfolding dir_delete
delete_cases s k = elim (Option-cases (delete_entry k s.dir)) [
  | inr (es, d) ↦ inl (es, d, ground arith, ground arith)
  | inl d ↦ inr (d, ground arith, ground arith)
]

-- A directory whose names fit stays so after a set of a name that fits.
pub dir_set-IsValid :
    (s : Service) (k v : List ℕ) → IsName k → IsValid s.dir → IsValid (dir_set up s k v).1.dir
dir_set-IsValid s k v n w = elim (set_cases s k v) [
  | inl (es, u, r, e) ↦
      let (t, q) = update-IsValid k v n s.dir w.table w.unique u in
      rw e (record { table = t; unique = q })
  | inr (inl (es, u, c, r, e)) ↦
      let (t, q) = create-IsValid k v n s.dir w.table w.unique u c in
      rw e (record { table = t; unique = q })
  | inr (inr (u, c, r, e)) ↦ rw e w
]

pub dir_delete-IsValid :
    (s : Service) (k : List ℕ) → IsName k → IsValid s.dir → IsValid (dir_delete up s k).1.dir
dir_delete-IsValid s k n w = elim (delete_cases s k) [
  | inl (es, d, r, e) ↦
      let (t, q) = delete-IsValid k [] n s.dir w.table w.unique d in
      rw e (record { table = t; unique = q })
  | inr (d, r, e) ↦ rw e w
]

pub dir_init-IsValid : IsValid dir_init.dir
unfolding dir_init
dir_init-IsValid = let (t, q) = blanks-IsValid max_entries in record { table = t; unique = q }

-- What dir_get() gives for a name after a set of the value `v`: its first 127 bytes.
abbrev pub shown : List ℕ → Ret × Option (List ℕ)
shown v = (ret_0, some (pad value_len (take 127 v) ++ 0 ∷ []))

answer-if :
    (b : Bool) (v : List ℕ) (o : Option (List ℕ))
    → IsString v
    → answer (if b then some (stored v) else o) ≡ (if b then shown v else answer o)
answer-if true v o s = rw (c_str-pad 127 v [] s)
answer-if false v o s = refl

-- In a valid directory, with no failure of the kernel: after a set of a name that fits that does
-- not fail, a get of the same name gives the first 127 bytes of the value, and a get of any other
-- string gives what it gave before.
pub get-set :
    (s : Service) (k v j : List ℕ)
    → IsValid s.dir
    → IsName k
    → IsString v
    → IsString j
    → (dir_set up s k v).0 ≢ ret_error
    → (dir_get up (dir_set up s k v).1 j).0 ≡ (if bytes_eq j k then shown v else (dir_get up s j).0)
get-set s k v j w n sv sj ok =
    get-answer (dir_set up s k v).1 j
    ∙ ap answer found
    ∙ answer-if (bytes_eq j k) v (find_entry j s.dir) sv
    ∙ ap (λ x. if bytes_eq j k then shown v else x) (sym (get-answer s j))
  where
    found :
        find_entry j (dir_set up s k v).1.dir
        ≡ (if bytes_eq j k then some (stored v) else find_entry j s.dir)
    found = elim (set_cases s k v) [
      | inl (es, u, r, e) ↦ rw e (find-update k v j n sj s.dir w.table u)
      | inr (inl (es, u, c, r, e)) ↦ rw e (find-create k v j n sj s.dir w.table u c)
      | inr (inr (u, c, r, e)) ↦ absurd (ok r)
    ]

delete-none-find : (k : List ℕ) (es : Directory) → delete_entry k es ≡ none → find_entry k es ≡ none
unfolding delete_entry find_entry
delete-none-find k [] d = refl
delete-none-find k (e ∷ es) d = ground (arith, delete-none-find k es)

-- In a valid directory, with no failure of the kernel: after a delete of a name that fits, a get
-- of the same name fails, and a get of any other string gives what it gave before.
pub get-delete :
    (s : Service) (k j : List ℕ)
    → IsValid s.dir
    → IsName k
    → IsString j
    → (dir_get up (dir_delete up s k).1 j).0
      ≡ (if bytes_eq j k then (ret_error, none) else (dir_get up s j).0)
get-delete s k j w n sj = get-answer (dir_delete up s k).1 j ∙ elim (delete_cases s k) [
  | inl (es, d, r, e) ↦
      rw (e, find-delete k [] j n sj s.dir w.table w.unique d)
        (elim (Bool-cases (bytes_eq j k)) [
          | inl same ↦ rw same
          | inr other ↦ rw other (sym (get-answer s j))
        ])
  | inr (d, r, e) ↦ rw e (elim (Bool-cases (bytes_eq j k)) [
    | inl same ↦ rw same (rw (bytes_eq_sound j k same) (ap answer (delete-none-find k s.dir d)))
    | inr other ↦ rw other (sym (get-answer s j))
  ])
]
