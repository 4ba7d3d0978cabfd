-- ===== src/DirService/Invariant.antt =====
-- The arrays of chapter_48/dir_service/dir_service.c keep their sizes, and no name is held twice,
-- as long as the names that are set fit.
use tlpi_solutions.Common.{
  ℕ, ◌≡◌, refl, sym, ◌∙◌, inl, inr, false, none, some, List, [], ◌∷◌, bytes_eq_sound, Bool-cases,
  zero, suc, replicate, length-replicate,
}
use tlpi_solutions.DirService.{
  Entry, Directory, holds, update_entry, create_entry, find_entry, delete_entry, copy_string,
  name_len, value_len,
}
use tlpi_solutions.DirService.Table.{
  IsName, IsEntry, IsTable, IsUnique, filled, copied-IsEntry, holds-filled, differ,
}
use tlpi_solutions.DirService.Loops.{
  find-miss, update-hit, update-below, update-none, create-here, create-below, delete-hit,
  delete-below,
}
use tlpi_solutions.DirService.Laws.{
  find-update, find-create, find-delete, holds-value, holds-unused,
}

-- The search of dir_set() finds no entry exactly where that of dir_get() finds none.
pub update-none-find :
    (k v : List ℕ) (es : Directory) → update_entry k v es ≡ none → find_entry k es ≡ none
unfolding find_entry
update-none-find k v [] u = refl
update-none-find k v (e ∷ es) u =
    let (h, u') = update-none k v e es u in find-miss k e es h ∙ update-none-find k v es u'

pub record IsValid (es : Directory) : Type 0 where
  pub table : IsTable es
  pub unique : IsUnique es

module _ (k v : List ℕ) (n : IsName k) where
  value-IsEntry :
      (e : Entry) → IsEntry e → IsEntry (record e { value = copy_string e.value v value_len })
  value-IsEntry e w = record {
    name_size = w.name_size;
    name_end = w.name_end;
    value_size = (copied-IsEntry e k v w).value_size;
  }

  pub update-IsValid :
      (es : Directory) {es' : Directory}
      → IsTable es
      → IsUnique es
      → update_entry k v es ≡ some es'
      → IsTable es' × IsUnique es'
  unfolding update_entry
  update-IsValid [] w q u = cc
  update-IsValid (e ∷ es) {es'} w q u = elim (Bool-cases (holds k e)) [
    | inl h ↦
        let e' : Entry = record e { value = copy_string e.value v value_len } in
        let there : es' ≡ e' ∷ es = cc (update-hit k v e es h) in
        rw there (
          (value-IsEntry e w.0, w.1),
          (λ j sj hj. q.0 j sj (sym (holds-value j e e'.value) ∙ hj), q.1),
        )
    | inr h ↦
        let (r, u', there) = update-below k v e es h u in
        let (wr, qr) = update-IsValid es w.1 q.1 u' in
        rw there (
          (w.0, wr),
          (
            λ j sj hj. (find-update k v j n sj es w.1 u' ∙ rw (differ e j k hj h) (q.0 j sj hj)),
            qr,
          ),
        )
  ]

  pub create-IsValid :
      (es : Directory) {es' : Directory}
      → IsTable es
      → IsUnique es
      → update_entry k v es ≡ none
      → create_entry k v es ≡ some es'
      → IsTable es' × IsUnique es'
  unfolding create_entry
  create-IsValid [] w q u c = cc
  create-IsValid (e ∷ es) {es'} w q u c =
      let (h, u') = update-none k v e es u in
      elim (Bool-cases e.in_use) [
        | inr unused ↦
            let there : es' ≡ filled e k v ∷ es = cc (create-here k v e es unused) in
            rw there (
              (copied-IsEntry e k v w.0, w.1),
              (
                λ j sj hj.
                    (let same : k ≡ j =
                        bytes_eq_sound k j (sym (holds-filled e k j v w.0 n sj) ∙ hj) in
                      rw (← same) (update-none-find k v es u')),
                q.1,
              ),
            )
        | inl used ↦
            let (r, c', there) = create-below k v e es used c in
            let (wr, qr) = create-IsValid es w.1 q.1 u' c' in
            rw there (
              (w.0, wr),
              (
                λ j sj hj.
                    (find-create k v j n sj es w.1 u' c' ∙ rw (differ e j k hj h) (q.0 j sj hj)),
                qr,
              ),
            )
      ]

  pub delete-IsValid :
      (es : Directory) {es' : Directory}
      → IsTable es
      → IsUnique es
      → delete_entry k es ≡ some es'
      → IsTable es' × IsUnique es'
  unfolding delete_entry
  delete-IsValid [] w q c = cc
  delete-IsValid (e ∷ es) {es'} w q c = elim (Bool-cases (holds k e)) [
    | inl h ↦
        let e' : Entry = record e { in_use = false } in
        let there : es' ≡ e' ∷ es = cc (delete-hit k e es h) in
        rw there (
          (
            record {
              name_size = w.0.name_size;
              name_end = w.0.name_end;
              value_size = w.0.value_size;
            },
            w.1,
          ),
          (λ j sj hj. (let no : holds j e' ≡ false = holds-unused j e' refl in absurd (cc)), q.1),
        )
    | inr h ↦
        let (r, c', there) = delete-below k e es h c in
        let (wr, qr) = delete-IsValid es w.1 q.1 c' in
        rw there (
          (w.0, wr),
          (
            λ j sj hj.
                (find-delete k v j n sj es w.1 q.1 c' ∙ rw (differ e j k hj h) (q.0 j sj hj)),
            qr,
          ),
        )
  ]

-- An entry that dir_init() makes.
abbrev pub blank : Entry
blank = record { name = replicate name_len 0; value = replicate value_len 0; in_use = false }

pub blanks-IsValid : (m : ℕ) → IsTable (replicate m blank) × IsUnique (replicate m blank)
blanks-IsValid zero = (tt, tt)
blanks-IsValid (suc m) =
    let (w, q) = blanks-IsValid m in
    (
      (
        record {
          name_size = length-replicate {A = ℕ} name_len 0;
          name_end = refl;
          value_size = length-replicate {A = ℕ} value_len 0;
        },
        w,
      ),
      (λ k s h. (let no : holds k blank ≡ false = holds-unused k blank refl in absurd (cc)), q),
    )
