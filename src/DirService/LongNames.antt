-- ===== src/DirService/LongNames.antt =====
-- Names of 32 bytes and more in chapter_48/dir_service/dir_service.c.
use tlpi_solutions.Common.{
  ℕ, ◌<◌, ◌≡◌, ◌≢◌, refl, ap, ◌∙◌, inl, inr, false, none, some, List, [], ◌∷◌, arith, length,
  Bool-cases,
}
use tlpi_solutions.DirService.{
  Entry, Directory, Service, holds, update_entry, create_entry, find_entry, strncmp_eq, name_len,
  ret_error, ret_0, dir_set, dir_get,
}
use tlpi_solutions.DirService.Strings.{IsString, strncmp_eq-long}
use tlpi_solutions.DirService.Table.{IsEntry, IsTable, filled, copied-IsEntry}
use tlpi_solutions.DirService.Loops.{find-miss, create-here, create-below}
use tlpi_solutions.DirService.Calls.{up, answer, get-answer, set_cases}

module _ (k : List ℕ) (text : IsString k) (long : 31 < length k) where
  holds-long : (e : Entry) → IsEntry e → holds k e ≡ false
  unfolding holds
  holds-long e w =
      let no_match : strncmp_eq name_len e.name k ≡ false =
        strncmp_eq-long 31 e.name k w.name_end long text in
      ground arith

  find-long : (es : Directory) → IsTable es → find_entry k es ≡ none
  unfolding find_entry
  find-long [] w = refl
  find-long (e ∷ es) w = find-miss k e es (holds-long e w.0) ∙ find-long es w.1

  update-long : (v : List ℕ) (es : Directory) → IsTable es → update_entry k v es ≡ none
  unfolding update_entry
  update-long v [] w = refl
  update-long v (e ∷ es) w =
      let miss : holds k e ≡ false = holds-long e w.0 in
      let below : update_entry k v es ≡ none = update-long v es w.1 in
      rw (miss, update_entry, below) refl

  create-IsTable :
      (v : List ℕ) (es : Directory) {es' : Directory}
      → IsTable es
      → create_entry k v es ≡ some es'
      → IsTable es'
  unfolding create_entry
  create-IsTable v [] w c = cc
  create-IsTable v (e ∷ es) {es'} w c = elim (Bool-cases e.in_use) [
    | inr unused ↦
        let there : es' ≡ filled e k v ∷ es = cc (create-here k v e es unused) in
        rw there (copied-IsEntry e k v w.0, w.1)
    | inl used ↦
        let (r, c', there) = create-below k v e es used c in
        rw there (w.0, create-IsTable v es w.1 c')
  ]

-- With no failure of the kernel, where the arrays have their sizes and names end with a NUL: a set
-- of a name of 32 bytes or more never reports an update, and no get finds the name after it.
pub long_name_lost :
    (s : Service) (k v : List ℕ)
    → IsTable s.dir
    → IsString k
    → 31 < length k
    → ((dir_set up s k v).0 ≢ ret_0) × ((dir_get up (dir_set up s k v).1 k).0 ≡ (ret_error, none))
long_name_lost s k v w text long = elim (set_cases s k v) [
  | inl (es, u, r, e) ↦ absurd (cc (update-long k text long v s.dir w))
  | inr (inl (es, u, c, r, e)) ↦ (
    (λ x. absurd (cc)),
    lost (rw e (find-long k text long es (create-IsTable k text long v s.dir w c))),
  )
  | inr (inr (u, c, r, e)) ↦ ((λ x. absurd (cc)), lost (rw e (find-long k text long s.dir w)))
]
  where
    lost :
        find_entry k (dir_set up s k v).1.dir ≡ none
        → (dir_get up (dir_set up s k v).1 k).0 ≡ (ret_error, none)
    lost h = get-answer (dir_set up s k v).1 k ∙ ap answer h
