-- ===== src/Malloc/Examples.antt =====
-- Runs of chapter_07/mymalloc.c.
use tlpi_solutions.Common.{
  ℕ, ◌+◌, ◌≤◌, ◌≡◌, inl, refl, true, none, some, [], ◌∷◌, ◌==◌, not, ◌&&◌, if◌then◌else◌, arith,
}
use tlpi_solutions.Malloc.{
  align_8, Heap, write, prev_of, next_of, chunk_size, is_free, set_free, set_allocated,
  set_chunk_size_headers, find_from, find_free_chunk, remove_from_free_list, add_to_free_list,
  split_chunk, get_prev_chunk, coalesce_next, coalesce_prev, coalesce, malloc_found, malloc_from,
  mymalloc, myfree,
}
use tlpi_solutions.Malloc.Freed.{IsLone}
use tlpi_solutions.Malloc.Reuse.{free-malloc}
use tlpi_solutions.Malloc.Growth.{first_fit, find_free_chunk-first_fit, mymalloc_grows}

-- A heap of two chunks of 104 and 8 bytes, at 4096 and 4216, that are allocated.
abbrev two : Heap
two = record {
  words = λ a.
      if a == 4096
      then 104
      else if a == 4208
      then 104
      else if a == 4216
      then 8
      else if a == 4232
      then 8
      else 0;
  brk = 4240;
  heap_base = 4096;
  free_list_head = 0;
}

first-IsLone : IsLone two 4096 104
unfolding is_free
first-IsLone = record {
  size = refl;
  even = refl;
  room = omega arith;
  positive = omega arith;
  small = omega arith;
  above = refl;
  below = inl (refl, inl refl);
}

free-malloc_example :
    (h' : Heap) × (mymalloc 1 true (myfree two (4096 + 8)) 100 ≡ some (4096 + 8, h'))
    × (h'.brk ≡ 4240)
    × (h'.free_list_head ≡ 0)
    × ((a : ℕ)
        → h'.words a ≡ (
            if not (two.free_list_head == 0) && a == prev_of two.free_list_head
            then 0
            else if a == prev_of 4096
            then 0
            else if a == next_of 4096
            then 0
            else two.words a))
unfolding align_8
free-malloc_example =
    free-malloc two 4096 104 100 0 true first-IsLone (omega arith) (omega arith) (omega arith)

-- A heap of a chunk of 8 bytes.
abbrev one : Heap
one = record {
  words = λ a. if a == 4096 then 8 else if a == 4112 then 8 else 0;
  brk = 4120;
  heap_base = 4096;
  free_list_head = 0;
}

small-IsLone : IsLone one 4096 8
unfolding is_free
small-IsLone = record {
  size = refl;
  even = refl;
  room = omega arith;
  positive = omega arith;
  small = omega arith;
  above = refl;
  below = inl (refl, inl refl);
}

-- The first chunk of `two` is free.
abbrev first_free : Heap
first_free = record {
  words = λ a. if a == 4096 then 105 else two.words a;
  brk = 4240;
  heap_base = 4096;
  free_list_head = 4096;
}

find_free_chunk-first_fit_example :
    find_free_chunk 2 first_free 104 ≡ some (first_fit first_free 104 (4096 ∷ []))
find_free_chunk-first_fit_example =
    find_free_chunk-first_fit first_free 104 (4096 ∷ []) 2 (refl, (λ e. omega (arith, e)), refl)
      (omega arith)

nothing_fits : find_free_chunk 2 first_free (align_8 200) ≡ some 0
unfolding find_free_chunk find_from chunk_size align_8
nothing_fits = refl

mymalloc_grows_example :
    (h' : Heap) × (mymalloc 2 true first_free 200 ≡ some (4240 + 8, h'))
    × (200 ≤ align_8 200)
    × (h'.brk ≡ 4240 + align_8 200 + 16)
    × (h'.free_list_head ≡ 4096)
    × ((a : ℕ)
        → h'.words a ≡ (
            if a == 4240 + align_8 200 + 8
            then align_8 200
            else if a == 4240
            then align_8 200
            else first_free.words a))
mymalloc_grows_example =
    mymalloc_grows first_free 200 2 nothing_fits (omega arith) (omega arith) (λ e. omega (arith, e))

-- The first chunk is freed, and 24 bytes are taken from it: the rest of 64 bytes is free.
splits :
    elim (mymalloc 2 true (myfree two 4104) 24) as (λ r. ℕ × ℕ) [
      | none ↦ (0, 0)
      | some (p, h) ↦ (p, chunk_size h h.free_list_head)
    ]
    ≡ (4104, 64)
unfolding mymalloc align_8 find_free_chunk find_from malloc_from malloc_found split_chunk myfree
    coalesce coalesce_next coalesce_prev get_prev_chunk set_free set_allocated add_to_free_list
    remove_from_free_list set_chunk_size_headers chunk_size is_free write
splits = refl
