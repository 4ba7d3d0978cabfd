-- ===== src/DirService/Laws.antt =====
-- The map laws of the loops of chapter_48/dir_service/dir_service.c.
use tlpi_solutions.Common.{
  ℕ, ◌≡◌, refl, sym, ap, ◌∙◌, inl, inr, Bool, true, false, none, some, List, [], ◌∷◌, arith,
  bytes_eq, bytes_eq_sound, Bool-cases, if◌then◌else◌,
}
use tlpi_solutions.DirService.{
  Entry, Directory, holds, update_entry, create_entry, find_entry, delete_entry, copy_string,
  value_len,
}
use tlpi_solutions.DirService.Strings.{IsString, copy_string-eq}
use tlpi_solutions.DirService.Table.{
  IsName, IsTable, IsUnique, stored, filled, holds-eq, holds-filled, differ, bytes_eq_comm,
}
use tlpi_solutions.DirService.Loops.{
  find-hit, find-miss, update-hit, update-below, update-none, create-here, create-below, delete-hit,
  delete-below,
}

-- After an entry, other than that of `j`, two lists show the same under `j` if their tails do.
find-cons :
    (j : List ℕ) (e : Entry) (es es' : Directory) (b : Bool) (x : List ℕ)
    → (holds j e ≡ true → b ≡ false)
    → find_entry j es' ≡ (if b then some x else find_entry j es)
    → find_entry j (e ∷ es') ≡ (if b then some x else find_entry j (e ∷ es))
find-cons j e es es' b x other ih = elim (Bool-cases (holds j e)) [
  | inl h ↦ rw (other h) (find-hit j e es' h ∙ sym (find-hit j e es h))
  | inr h ↦ rw (find-miss j e es' h, find-miss j e es h) ih
]

-- After an entry that holds `k` alone is put before a list.
find-new :
    (k j x : List ℕ) (e' : Entry) (es old : Directory)
    → holds j e' ≡ bytes_eq j k
    → e'.value ≡ x
    → (bytes_eq j k ≡ false → find_entry j es ≡ find_entry j old)
    → find_entry j (e' ∷ es) ≡ (if bytes_eq j k then some x else find_entry j old)
find-new k j x e' es old h value rest = elim (Bool-cases (bytes_eq j k)) [
  | inl same ↦ rw same (find-hit j e' es (h ∙ same) ∙ ap some value)
  | inr other ↦ rw other (find-miss j e' es (h ∙ other) ∙ rest other)
]

pub holds-value :
    (j : List ℕ) (e : Entry) (x : List ℕ) → holds j (record e { value = x }) ≡ holds j e
unfolding holds
holds-value j e x = refl

pub holds-unused : (j : List ℕ) (e : Entry) → e.in_use ≡ false → holds j e ≡ false
unfolding holds
holds-unused j e h = ground arith

module _ (k v j : List ℕ) (n : IsName k) (sj : IsString j) where
  -- The update changes what its own name shows, and nothing else.
  pub find-update :
      (es : Directory) {es' : Directory}
      → IsTable es
      → update_entry k v es ≡ some es'
      → find_entry j es' ≡ (if bytes_eq j k then some (stored v) else find_entry j es)
  unfolding update_entry
  find-update [] w u = cc
  find-update (e ∷ es) {es'} w u = elim (Bool-cases (holds k e)) [
    | inl h ↦
        let e' : Entry = record e { value = copy_string e.value v value_len } in
        let there : es' ≡ e' ∷ es = cc (update-hit k v e es h) in
        rw there (
          find-new k j (stored v) e' es (e ∷ es)
            (holds-value j e (copy_string e.value v value_len) ∙ holds-eq e k j w.0 n sj h)
            (copy_string-eq e.value v 127 w.0.value_size)
            (λ other. sym (find-miss j e es (holds-eq e k j w.0 n sj h ∙ other))))
    | inr h ↦
        let (r, u', there) = update-below k v e es h u in
        rw there (
          find-cons j e es r (bytes_eq j k) (stored v) (λ hj. differ e j k hj h)
            (find-update es w.1 u'))
  ]

  -- So does the creation, where no entry had the name.
  pub find-create :
      (es : Directory) {es' : Directory}
      → IsTable es
      → update_entry k v es ≡ none
      → create_entry k v es ≡ some es'
      → find_entry j es' ≡ (if bytes_eq j k then some (stored v) else find_entry j es)
  unfolding create_entry
  find-create [] w u c = cc
  find-create (e ∷ es) {es'} w u c = elim (Bool-cases e.in_use) [
    | inr unused ↦
        let there : es' ≡ filled e k v ∷ es = cc (create-here k v e es unused) in
        rw there (
          find-new k j (stored v) (filled e k v) es (e ∷ es)
            (holds-filled e k j v w.0 n sj ∙ bytes_eq_comm k j)
            (copy_string-eq e.value v 127 w.0.value_size)
            (λ other. sym (find-miss j e es (holds-unused j e unused))))
    | inl used ↦
        let (r, c', there) = create-below k v e es used c in
        let (h, u') = update-none k v e es u in
        rw there (
          find-cons j e es r (bytes_eq j k) (stored v) (λ hj. differ e j k hj h)
            (find-create es w.1 u' c'))
  ]

  -- The deletion takes the name away, and nothing else.
  pub find-delete :
      (es : Directory) {es' : Directory}
      → IsTable es
      → IsUnique es
      → delete_entry k es ≡ some es'
      → find_entry j es' ≡ (if bytes_eq j k then none else find_entry j es)
  unfolding delete_entry
  find-delete [] w q c = cc
  find-delete (e ∷ es) {es'} w q c = elim (Bool-cases (holds k e)) [
    | inl h ↦
        let e' : Entry = record e { in_use = false } in
        let there : es' ≡ e' ∷ es = cc (delete-hit k e es h) in
        rw there (
          find-miss j e' es (holds-unused j e' refl) ∙ elim (Bool-cases (bytes_eq j k)) [
            | inl same ↦ rw same (rw (bytes_eq_sound j k same) (q.0 k n.text h))
            | inr other ↦ rw other (sym (find-miss j e es (holds-eq e k j w.0 n sj h ∙ other)))
          ])
    | inr h ↦
        let (r, c', there) = delete-below k e es h c in
        rw there (elim (Bool-cases (holds j e)) [
          | inl hj ↦ rw (differ e j k hj h) (find-hit j e r hj ∙ sym (find-hit j e es hj))
          | inr hj ↦ rw (find-miss j e r hj, find-miss j e es hj) (find-delete es w.1 q.1 c')
        ])
  ]
