-- ===== src/DirService/Loops.antt =====
-- The loops of chapter_48/dir_service/dir_service.c, entry by entry.
use tlpi_solutions.Common.{ℕ, ◌≡◌, true, false, none, some, List, ◌∷◌, arith}
use tlpi_solutions.DirService.{
  Entry, Directory, holds, update_entry, create_entry, find_entry, delete_entry, copy_string,
  value_len,
}
use tlpi_solutions.DirService.Table.{filled}

module _ (j : List ℕ) (e : Entry) (es : Directory) where
  pub find-hit : holds j e ≡ true → find_entry j (e ∷ es) ≡ some e.value
  unfolding find_entry
  find-hit h = rw (h, find_entry)

  pub find-miss : holds j e ≡ false → find_entry j (e ∷ es) ≡ find_entry j es
  unfolding find_entry
  find-miss h = rw (h, find_entry)

module _ (k v : List ℕ) (e : Entry) (es : Directory) where
  pub update-hit :
      holds k e ≡ true
      → update_entry k v (e ∷ es) ≡ some (record e { value = copy_string e.value v value_len } ∷ es)
  unfolding update_entry
  update-hit h = rw (h, update_entry)

  -- An update below the first entry.
  pub update-below :
      {es' : Directory}
      → holds k e ≡ false
      → update_entry k v (e ∷ es) ≡ some es'
      → (r : Directory) × (update_entry k v es ≡ some r) × (es' ≡ e ∷ r)
  unfolding update_entry
  update-below h u = ground arith

  pub update-none :
      update_entry k v (e ∷ es) ≡ none → (holds k e ≡ false) × (update_entry k v es ≡ none)
  unfolding update_entry
  update-none u = ground arith

  pub create-here : e.in_use ≡ false → create_entry k v (e ∷ es) ≡ some (filled e k v ∷ es)
  unfolding create_entry
  create-here h = rw h

  pub create-below :
      {es' : Directory}
      → e.in_use ≡ true
      → create_entry k v (e ∷ es) ≡ some es'
      → (r : Directory) × (create_entry k v es ≡ some r) × (es' ≡ e ∷ r)
  unfolding create_entry
  create-below h u = ground arith

module _ (k : List ℕ) (e : Entry) (es : Directory) where
  pub delete-hit :
      holds k e ≡ true → delete_entry k (e ∷ es) ≡ some (record e { in_use = false } ∷ es)
  unfolding delete_entry
  delete-hit h = rw (h, delete_entry)

  pub delete-below :
      {es' : Directory}
      → holds k e ≡ false
      → delete_entry k (e ∷ es) ≡ some es'
      → (r : Directory) × (delete_entry k es ≡ some r) × (es' ≡ e ∷ r)
  unfolding delete_entry
  delete-below h u = ground arith
