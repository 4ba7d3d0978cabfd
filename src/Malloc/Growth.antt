-- ===== src/Malloc/Growth.antt =====
-- The search, the growth of the heap and the merges of chapter_07/mymalloc.c.
use tlpi_solutions.Common.{
  ℕ, zero, suc, ◌+◌, ◌-◌, ◌%◌, ◌≤◌, ◌<◌, ◌≡◌, ◌≢◌, refl, ap, ◌∙◌, true, false, some, List, [], ◌∷◌,
  length, ◌^◌, ◌==◌, leb, not, ◌&&◌, if◌then◌else◌, arith, Bool-cases, inl, inr,
}
use tlpi_solutions.Malloc.{
  size_mod, align_8, Heap, write, next_of, chunk_size, is_free, set_allocated,
  set_chunk_size_headers, find_from, find_free_chunk, expand_heap, remove_from_free_list,
  get_prev_chunk, coalesce_next, coalesce_prev, malloc_new, malloc_from, mymalloc,
}
use tlpi_solutions.Malloc.Reuse.{align_8_bounds}

-- The chunks that the list has from an address on.
abbrev pub IsChain : Heap → ℕ → List ℕ → Type 0
IsChain h current [] = current ≡ 0
IsChain h current (c ∷ cs) = (current ≡ c) × (c ≢ 0) × IsChain h (h.words (next_of c)) cs

-- The first chunk that is big enough, and 0 where there is none.
abbrev pub first_fit : Heap → ℕ → List ℕ → ℕ
first_fit h size [] = 0
first_fit h size (c ∷ cs) = if leb size (chunk_size h c) then c else first_fit h size cs

find_from-first_fit :
    (h : Heap) (size current : ℕ) (cs : List ℕ) (fuel : ℕ)
    → IsChain h current cs
    → length cs < fuel
    → find_from fuel h current size ≡ some (first_fit h size cs)
unfolding find_from
find_from-first_fit h size current cs zero w enough = absurd (omega arith)
find_from-first_fit h size current [] (suc fuel) w enough = rw w refl
find_from-first_fit h size current (c ∷ cs) (suc fuel) w enough =
    let there : (c == 0) ≡ false = ground (arith, w.1) in
    let rest =
      find_from-first_fit h size (h.words (next_of c)) cs fuel w.2 (omega (arith, enough)) in
    rw (w.0, there)
      (elim (Bool-cases (leb size (chunk_size h c))) [
        | inl big ↦ rw big refl
        | inr tight ↦ rw tight rest
      ])

-- Where the free list has the chunks `cs` and ends, fuel above their number is enough:
-- find_free_chunk() gives the first of them that is big enough, or NULL where there is none.
pub find_free_chunk-first_fit :
    (h : Heap) (size : ℕ) (cs : List ℕ) (fuel : ℕ)
    → IsChain h h.free_list_head cs
    → length cs < fuel
    → find_free_chunk fuel h size ≡ some (first_fit h size cs)
unfolding find_free_chunk
find_free_chunk-first_fit h size cs fuel w enough =
    find_from-first_fit h size h.free_list_head cs fuel w enough

module _ (h : Heap) (size : ℕ) (small : h.brk + size + 16 < size_mod) where
  abbrev grown : Heap
  grown = (expand_heap true h size).1

  grown-words :
      (a : ℕ)
      → grown.words a
        ≡ (if a == h.brk + size + 8 then size else if a == h.brk then size else h.words a)
  unfolding expand_heap set_chunk_size_headers write
  grown-words a = refl

  grown-brk : grown.brk ≡ h.brk + size + 16
  unfolding expand_heap set_chunk_size_headers write
  grown-brk = omega (arith, small)

  grown-head : grown.free_list_head ≡ h.free_list_head
  unfolding expand_heap set_chunk_size_headers write
  grown-head = refl

  abbrev taken : Heap
  taken = set_allocated grown h.brk

  taken-words :
      (a : ℕ)
      → size % 2 ≡ 0
      → taken.words a
        ≡ (if a == h.brk + size + 8 then size else if a == h.brk then size else h.words a)
  unfolding expand_heap set_chunk_size_headers set_allocated write
  taken-words a even = ground (arith, even)

  malloc_new-grown : h.brk ≢ 0 → malloc_new true h size ≡ (h.brk + 8, taken)
  unfolding malloc_new expand_heap
  malloc_new-grown nonzero =
      let there : (h.brk == 0) ≡ false = ground (arith, nonzero) in rw there refl

-- Where find_free_chunk() finds nothing, sbrk() moves the break, and the break was not 0:
-- mymalloc() of a size from 1 on, with which the break stays 32 bytes or more below 2^63, gives 8
-- bytes behind the old break; the new break is behind a payload of at least that size, with the rounded size in front of it and behind it; every
-- other word, and the start of the free list, are as before.
pub mymalloc_grows :
    (h : Heap) (n fuel : ℕ)
    → find_free_chunk fuel h (align_8 n) ≡ some 0
    → 0 < n
    → h.brk + n + 32 ≤ 2 ^ 63
    → h.brk ≢ 0
    → (h' : Heap) × (mymalloc fuel true h n ≡ some (h.brk + 8, h'))
      × (n ≤ align_8 n)
      × (h'.brk ≡ h.brk + align_8 n + 16)
      × (h'.free_list_head ≡ h.free_list_head)
      × ((a : ℕ)
          → h'.words a ≡ (
              if a == h.brk + align_8 n + 8
              then align_8 n
              else if a == h.brk
              then align_8 n
              else h.words a))
unfolding mymalloc malloc_from set_allocated write
mymalloc_grows h n fuel nothing pos small nonzero =
    let (lower, upper, multiple) = align_8_bounds n pos (omega (arith, small)) in
    let size = align_8 n in
    let fits : h.brk + size + 16 < size_mod = omega (arith, upper, small) in
    (
      taken h size fits,
      ap (λ r. malloc_from true h size r) nothing ∙ ap some (malloc_new-grown h size fits nonzero),
      lower,
      grown-brk h size fits,
      grown-head h size fits,
      λ a. taken-words h size fits a (omega (arith, multiple)),
    )

-- The header that set_chunk_size_headers() writes.
headers-is_free :
    (h : Heap) (c size : ℕ) → size % 2 ≡ 0 → is_free (set_chunk_size_headers h c size) c ≡ false
unfolding set_chunk_size_headers write is_free
headers-is_free h c size even =
    let self : (c == c) ≡ true = ground arith in
    let apart : (c == c + size + 8) ≡ false = ground arith in rw (apart, self, even) refl

sum_even : (x y : ℕ) → (x - x % 2 + 16 + (y - y % 2)) % 2 ≡ 0
sum_even x y = omega arith

-- coalesce() marks a chunk that it merges with the next one, or with the one before, as allocated:
-- it clears the flag of the merged chunk, and leaves that of a chunk that it does not merge.
pub coalesce-is_free :
    (h : Heap) (c : ℕ)
    → (is_free (coalesce_next h c) c
        ≡ (if is_free h (c + chunk_size h c + 16) then false else is_free h c))
      × (is_free (coalesce_prev h c) (get_prev_chunk h c) ≡ (
          if not (get_prev_chunk h c == 0) && is_free h (get_prev_chunk h c)
          then false
          else is_free h (get_prev_chunk h c)))
unfolding coalesce_next coalesce_prev chunk_size
coalesce-is_free h c = (
  elim (Bool-cases (is_free h (c + chunk_size h c + 16))) [
    | inl merged ↦
        let g = remove_from_free_list h (c + chunk_size h c + 16) in
        rw merged (headers-is_free g c _ (sum_even (g.words c) (g.words (c + chunk_size h c + 16))))
    | inr alone ↦ rw alone refl
  ],
  elim (Bool-cases (not (get_prev_chunk h c == 0) && is_free h (get_prev_chunk h c))) [
    | inl merged ↦
        let g = remove_from_free_list h c in
        rw merged (
          headers-is_free g (get_prev_chunk h c) _
            (sum_even (g.words (get_prev_chunk h c)) (g.words c)))
    | inr alone ↦ rw alone refl
  ],
)
