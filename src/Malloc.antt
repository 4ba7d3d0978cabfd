-- ===== src/Malloc.antt =====
-- chapter_07/mymalloc.c: malloc() and free() on a heap of words of 8 bytes. A chunk is its size with
-- the flag in bit 0, its payload, and its size again; a free one has the links of the free list in
-- its payload. An address is a number of bytes, and 0 is NULL. What is behind the break reads as
-- `words` says.
pub mod Freed
pub mod Reuse
pub mod Growth
mod Examples
use tlpi_solutions.Common.{
  ℕ, zero, suc, ◌+◌, ◌-◌, ◌*◌, ◌/◌, ◌%◌, ◌^◌, Bool, true, false, Option, none, some, ◌==◌, ltb, leb,
  not, ◌&&◌, if◌then◌else◌,
}

abbrev pub size_mod : ℕ
size_mod = 2 ^ 64

abbrev pub size_header_size : ℕ
size_header_size = 8

abbrev pub chunk_overhead : ℕ
chunk_overhead = 16

abbrev pub min_free_chunk_size : ℕ
min_free_chunk_size = 32

abbrev pub free_flag : ℕ
free_flag = 1

-- ALIGN_8, where `x - 1` is a size_t
unfoldable pub align_8 : ℕ → ℕ
align_8 x = ((x + (size_mod - 1)) % size_mod / 8 * 8 + 8) % size_mod

-- The memory, the break, and the two variables of the program.
pub record Heap : Type 0 where
  pub words : ℕ → ℕ
  pub brk : ℕ
  pub heap_base : ℕ
  pub free_list_head : ℕ

unfoldable pub write : Heap → ℕ → ℕ → Heap
write h a v = record h { words = λ b. if b == a then v else h.words b }

-- The fields of struct chunk_header.
abbrev pub prev_of : ℕ → ℕ
prev_of chunk = chunk + 8

abbrev pub next_of : ℕ → ℕ
next_of chunk = chunk + 16

-- CHUNK_SIZE
unfoldable pub chunk_size : Heap → ℕ → ℕ
chunk_size h chunk = h.words chunk - h.words chunk % 2

unfoldable pub is_free : Heap → ℕ → Bool
is_free h chunk = h.words chunk % 2 == free_flag

unfoldable pub set_free : Heap → ℕ → Heap
unfolding write
set_free h chunk = write h chunk (h.words chunk - h.words chunk % 2 + free_flag)

unfoldable pub set_allocated : Heap → ℕ → Heap
unfolding write
set_allocated h chunk = write h chunk (h.words chunk - h.words chunk % 2)

unfoldable pub set_chunk_size_headers : Heap → ℕ → ℕ → Heap
unfolding write
set_chunk_size_headers h chunk size =
    write (write h chunk size) (chunk + size + size_header_size) size

-- find_free_chunk() from a chunk on; `none` is a list that is longer than the fuel.
unfoldable pub find_from : (fuel : ℕ) → Heap → ℕ → ℕ → Option ℕ
unfolding chunk_size
find_from zero h current size = none
find_from (suc fuel) h current size =
    let rest = find_from fuel h (h.words (next_of current)) size in
    if current == 0 then some 0 else if leb size (chunk_size h current) then some current else rest

unfoldable pub find_free_chunk : (fuel : ℕ) → Heap → ℕ → Option ℕ
unfolding find_from
find_free_chunk fuel h size = find_from fuel h h.free_list_head size

-- expand_heap(), where `grows` says whether sbrk() moves the break. sbrk() takes an intptr_t: 2 ^ 64 - x
-- moves the break down by x.
unfoldable pub expand_heap : (grows : Bool) → Heap → ℕ → ℕ × Heap
unfolding set_chunk_size_headers
expand_heap grows h size =
    let based = record h { heap_base = if h.heap_base == 0 then h.brk else h.heap_base } in
    let total_size = (size + chunk_overhead) % size_mod in
    let chunk = h.brk in
    if not grows then (0, based) else (
      chunk,
      set_chunk_size_headers (record based { brk = (h.brk + total_size) % size_mod }) chunk size,
    )

unfoldable pub remove_from_free_list : Heap → ℕ → Heap
unfolding write
remove_from_free_list h chunk =
    let prev = h.words (prev_of chunk) in
    let next = h.words (next_of chunk) in
    let h1 =
      if prev == 0 then (record h { free_list_head = next }) else write h (next_of prev) next in
    let next1 = h1.words (next_of chunk) in
    if next1 == 0 then h1 else write h1 (prev_of next1) (h1.words (prev_of chunk))

unfoldable pub add_to_free_list : Heap → ℕ → Heap
unfolding write
add_to_free_list h chunk =
    let h1 = write h (next_of chunk) h.free_list_head in
    let h2 = if h.free_list_head == 0 then h1 else write h1 (prev_of h.free_list_head) chunk in
    write (record h2 { free_list_head = chunk }) (prev_of chunk) 0

unfoldable pub split_chunk : Heap → ℕ → ℕ → Heap
unfolding chunk_size set_chunk_size_headers set_free add_to_free_list
split_chunk h chunk size =
    let chunk_size_with_headers = size + chunk_overhead in
    let remaining_size = chunk_size h chunk - chunk_size_with_headers in
    let new_chunk = chunk + chunk_size_with_headers in
    if leb (chunk_size_with_headers + min_free_chunk_size) (chunk_size h chunk)
    then set_chunk_size_headers
        (add_to_free_list (set_free (set_chunk_size_headers h new_chunk remaining_size) new_chunk)
          new_chunk)
        chunk size
    else h

unfoldable pub get_prev_chunk : Heap → ℕ → ℕ
unfolding chunk_size
get_prev_chunk h chunk =
    let prev_chunk_footer = chunk - 8 in
    if ltb prev_chunk_footer h.heap_base
    then 0
    else (chunk + size_mod - (chunk_size h prev_chunk_footer + chunk_overhead)) % size_mod

-- The two halves of coalesce().
unfoldable pub coalesce_next : Heap → ℕ → Heap
unfolding chunk_size is_free remove_from_free_list set_chunk_size_headers
coalesce_next h chunk =
    let next_chunk = chunk + chunk_size h chunk + chunk_overhead in
    let h1 = remove_from_free_list h next_chunk in
    if is_free h next_chunk
    then set_chunk_size_headers h1 chunk
        (chunk_size h1 chunk + chunk_overhead + chunk_size h1 next_chunk)
    else h

unfoldable pub coalesce_prev : Heap → ℕ → Heap
unfolding chunk_size is_free remove_from_free_list set_chunk_size_headers get_prev_chunk
coalesce_prev h chunk =
    let prev_chunk = get_prev_chunk h chunk in
    let h1 = remove_from_free_list h chunk in
    if not (prev_chunk == 0) && is_free h prev_chunk
    then set_chunk_size_headers h1 prev_chunk
        (chunk_size h1 prev_chunk + chunk_overhead + chunk_size h1 chunk)
    else h

unfoldable pub coalesce : Heap → ℕ → Heap
unfolding coalesce_next coalesce_prev
coalesce h chunk = coalesce_prev (coalesce_next h chunk) chunk

-- mymalloc() where the free list has no chunk that is big enough
unfoldable pub malloc_new : (grows : Bool) → Heap → ℕ → ℕ × Heap
unfolding expand_heap set_allocated
malloc_new grows h size =
    let (chunk, h1) = expand_heap grows h size in
    if chunk == 0 then (0, h1) else (chunk + size_header_size, set_allocated h1 chunk)

unfoldable pub malloc_found : Heap → ℕ → ℕ → ℕ × Heap
unfolding remove_from_free_list split_chunk set_allocated
malloc_found h chunk size = (
  chunk + size_header_size,
  set_allocated (split_chunk (remove_from_free_list h chunk) chunk size) chunk,
)

-- mymalloc() behind find_free_chunk()
unfoldable pub malloc_from : (grows : Bool) → Heap → ℕ → Option ℕ → Option (ℕ × Heap)
unfolding malloc_new malloc_found
malloc_from grows h aligned_size none = none
malloc_from grows h aligned_size (some chunk) =
    if chunk == 0
    then some (malloc_new grows h aligned_size)
    else some (malloc_found h chunk aligned_size)

-- mymalloc(): the pointer and the heap, `none` where the fuel is not enough for the free list.
unfoldable pub mymalloc : (fuel : ℕ) (grows : Bool) → Heap → ℕ → Option (ℕ × Heap)
unfolding align_8 find_free_chunk malloc_from
mymalloc fuel grows h size =
    malloc_from grows h (align_8 size) (find_free_chunk fuel h (align_8 size))

unfoldable pub myfree : Heap → ℕ → Heap
unfolding set_free add_to_free_list coalesce
myfree h ptr =
    let chunk = ptr - size_header_size in
    if ptr == 0 then h else coalesce (add_to_free_list (set_free h chunk) chunk) chunk
