-- ===== src/Malloc/Reuse.antt =====
-- A chunk of chapter_07/mymalloc.c that is freed is the next that is given out.
use tlpi_solutions.Common.{
  ℕ, suc, ◌+◌, ◌-◌, ◌%◌, ◌≤◌, ◌<◌, ◌≡◌, ◌≢◌, inl, inr, refl, sym, ap, ◌∙◌, Bool, true, false, some,
  ◌==◌, ltb, leb, not, ◌&&◌, if◌then◌else◌, arith, Bool-cases,
}
use tlpi_solutions.Malloc.{
  size_mod, align_8, Heap, write, prev_of, next_of, chunk_size, set_free, set_allocated, find_from,
  find_free_chunk, remove_from_free_list, add_to_free_list, split_chunk, get_prev_chunk,
  malloc_found, malloc_from, mymalloc, myfree,
}
use tlpi_solutions.Malloc.Freed.{
  if_false, IsLone, freed, freed-words, no_link, nearest, freed-c, freed-heap_base, myfree-freed,
}

-- The list without its first chunk.
unfoldable without : Heap → ℕ → Heap
unfolding write
without g next =
    let g1 = record g { free_list_head = next } in
    if next == 0 then g1 else write g1 (prev_of next) 0

remove-without :
    (g : Heap) (c : ℕ)
    → g.words (prev_of c) ≡ 0
    → remove_from_free_list g c ≡ without g (g.words (next_of c))
unfolding remove_from_free_list without write
remove-without g c e = rw (e, remove_from_free_list) (ground (arith, e))

module _ (h : Heap) (c s : ℕ) (w : IsLone h c s) where
  freed-size : chunk_size (freed h c s w) c ≡ s
  unfolding chunk_size
  freed-size = rw (freed-c h c s w) (omega (arith, w.even))

  freed-head : (freed h c s w).free_list_head ≡ c
  unfolding add_to_free_list
  freed-head = refl

  -- The first chunk of the list is big enough.
  finds : (fuel size : ℕ) → size ≤ s → find_free_chunk (suc fuel) (freed h c s w) size ≡ some c
  unfolding find_free_chunk find_from add_to_free_list
  finds fuel size le =
      let there : (c == 0) ≡ false = ground (arith, w.positive) in
      let enough : leb size (chunk_size (freed h c s w) c) ≡ true = rw freed-size (ground arith) in
      if_false _ _ there ∙ rw enough refl

  freed-prev : (freed h c s w).words (prev_of c) ≡ 0
  freed-prev =
      let e8 : (prev_of c == prev_of c) ≡ true = ground arith in
      (freed-words h c s w) (prev_of c) ∙ rw e8 refl

  freed-next : (freed h c s w).words (next_of c) ≡ h.free_list_head
  freed-next =
      let (low, le, x) = (nearest h c s w) in
      let link = (no_link h c s w) low (next_of c) x (omega (arith, le)) (omega arith) in
      let e8 : (next_of c == prev_of c) ≡ false = ground arith in
      let e16 : (next_of c == next_of c) ≡ true = ground arith in
      (freed-words h c s w) (next_of c) ∙ rw (e8, link, e16) refl

  abbrev again : Heap
  again = remove_from_free_list (freed h c s w) c

  again_lem : again ≡ without (freed h c s w) h.free_list_head
  again_lem =
      remove-without (freed h c s w) c freed-prev ∙ ap (λ n. without (freed h c s w) n) freed-next

  again-words :
      (a : ℕ)
      → again.words a ≡ (
          if not (h.free_list_head == 0) && a == prev_of h.free_list_head
          then 0
          else (freed h c s w).words a)
  unfolding without write
  again-words a = ap (λ g. g.words a) again_lem ∙ ground arith

  again-head : again.free_list_head ≡ h.free_list_head
  unfolding without write
  again-head = ap (λ g. g.free_list_head) again_lem ∙ ground arith

  again-brk : again.brk ≡ h.brk
  unfolding without write add_to_free_list set_free
  again-brk = ap (λ g. g.brk) again_lem ∙ ground arith

  again-c : again.words c ≡ s + 1
  again-c =
      let (low, le, x) = (nearest h c s w) in
      let link = (no_link h c s w) low c x le (omega arith) in
      again-words c ∙ rw link (freed-c h c s w)

  -- The rest of the chunk is too small for a chunk of its own.
  unsplit : (size : ℕ) → s < size + 48 → split_chunk again c size ≡ again
  unfolding split_chunk chunk_size
  unsplit size small =
      let whole : chunk_size again c ≡ s = rw again-c (omega (arith, w.even)) in
      let no_room : leb (size + 16 + 32) (chunk_size again c) ≡ false = rw whole (ground arith) in
      if_false _ _ no_room

  -- The chunk is given out again.
  abbrev taken : Heap
  taken = set_allocated again c

  malloc_taken : (size : ℕ) → s < size + 48 → malloc_found (freed h c s w) c size ≡ (c + 8, taken)
  unfolding malloc_found
  malloc_taken size small = ap (λ g. (c + 8, set_allocated g c)) (unsplit size small)

  mymalloc-taken :
      (fuel n : ℕ) (grows : Bool)
      → align_8 n ≤ s
      → s < align_8 n + 48
      → mymalloc (suc fuel) grows (freed h c s w) n ≡ some (c + 8, taken)
  unfolding mymalloc malloc_from
  mymalloc-taken fuel n grows fits tight =
      let there : (c == 0) ≡ false = ground (arith, w.positive) in
      ap (λ r. malloc_from grows (freed h c s w) (align_8 n) r) (finds fuel (align_8 n) fits)
      ∙ if_false _ _ there
      ∙ ap some (malloc_taken (align_8 n) tight)

  taken-words :
      (a : ℕ)
      → taken.words a ≡ (
          if not (h.free_list_head == 0) && a == prev_of h.free_list_head
          then 0
          else if a == prev_of c
          then 0
          else if a == next_of c
          then h.free_list_head
          else h.words a)
  unfolding set_allocated write
  taken-words a = elim (Bool-cases (a == c)) [
    | inl e ↦
        let at : a ≡ c = ground (arith, e) in
        let (low, le, x) = (nearest h c s w) in
        let link = (no_link h c s w) low c x le (omega arith) in
        let self : (c == c) ≡ true = ground arith in
        let e8 : (c == prev_of c) ≡ false = ground arith in
        let e16 : (c == next_of c) ≡ false = ground arith in
        rw (at, self, again-c, link, e8, e16, w.size) (omega (arith, w.even))
    | inr e ↦
        let inner : (freed h c s w).words a ≡ (
            if a == prev_of c
            then 0
            else if not (h.free_list_head == 0) && a == prev_of h.free_list_head
            then c
            else if a == next_of c
            then h.free_list_head
            else h.words a) =
          rw (← (if_false (s + 1) (h.words a) e)) ((freed-words h c s w) a) in
        if_false _ _ e
        ∙ again-words a
        ∙ ap (λ v. if not (h.free_list_head == 0) && a == prev_of h.free_list_head then 0 else v)
            inner
        ∙ ground arith
  ]

-- ALIGN_8 of a size from 1 on rounds up to a multiple of 8.
pub align_8_bounds :
    (x : ℕ) → 0 < x → x + 8 ≤ size_mod → (x ≤ align_8 x) × (align_8 x < x + 8) × (align_8 x % 8 ≡ 0)
unfolding align_8
align_8_bounds x pos small = (omega arith, omega arith, omega arith)

-- An allocated chunk of `s` bytes at `c`, where `s` is even and 16 at least, so that the payload has
-- room for both links: it has no free
-- neighbour, and the links of the first free chunk are outside it and the chunk below. After
-- myfree(), mymalloc() of a size that ALIGN_8 takes to at most `s` bytes, and to more than `s -
-- 48`, finds it with any fuel above 0 and gives the same pointer, with the break and the start of
-- the free list as before. No word has changed but the first two of the payload, which are 0 and
-- the start of the free list, and the link back of the first free chunk.
pub free-malloc :
    (h : Heap) (c s n : ℕ) (fuel : ℕ) (grows : Bool)
    → IsLone h c s
    → 16 ≤ s
    → align_8 n ≤ s
    → s < align_8 n + 48
    → (h' : Heap) × (mymalloc (suc fuel) grows (myfree h (c + 8)) n ≡ some (c + 8, h'))
      × (h'.brk ≡ h.brk)
      × (h'.free_list_head ≡ h.free_list_head)
      × ((a : ℕ)
          → h'.words a ≡ (
              if not (h.free_list_head == 0) && a == prev_of h.free_list_head
              then 0
              else if a == prev_of c
              then 0
              else if a == next_of c
              then h.free_list_head
              else h.words a))
unfolding set_allocated write
free-malloc h c s n fuel grows w links fits tight = (
  taken h c s w,
  rw (myfree-freed h c s w) (mymalloc-taken h c s w fuel n grows fits tight),
  again-brk h c s w,
  again-head h c s w,
  taken-words h c s w,
)

-- Where such a chunk has 8 bytes and is in the heap, and the free list starts at an even address
-- below 2^64 - 15 other than 8, or is empty: after myfree() the chunk above, which finds the one
-- below it by the size in front of it, does not find this one.
pub free_small_chunk :
    (h : Heap) (c : ℕ)
    → IsLone h c 8
    → h.heap_base ≤ c
    → h.free_list_head % 2 ≡ 0
    → h.free_list_head + 16 ≤ size_mod
    → h.free_list_head ≢ 8
    → get_prev_chunk (myfree h (c + 8)) (c + 24) ≢ c
unfolding get_prev_chunk chunk_size
free_small_chunk h c w base even small other e =
    let front : c + 24 - 8 ≡ next_of c = omega arith in
    let inside : ltb (next_of c) (freed h c 8 w).heap_base ≡ false =
      rw (freed-heap_base h c 8 w) (ground (arith, base)) in
    let size : chunk_size (freed h c 8 w) (next_of c) ≡ h.free_list_head =
      rw (freed-next h c 8 w) (omega (arith, even)) in
    let place : get_prev_chunk (freed h c 8 w) (c + 24)
        ≡ (c + 24 + size_mod - (h.free_list_head + 16)) % size_mod =
      rw (front, get_prev_chunk, inside, size) refl in
    let e' : (c + 24 + size_mod - (h.free_list_head + 16)) % size_mod ≡ c =
      sym place ∙ ap (λ g. get_prev_chunk g (c + 24)) (sym (myfree-freed h c 8 w)) ∙ e in
    other (omega (arith, e', small, w.small))
