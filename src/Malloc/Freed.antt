-- ===== src/Malloc/Freed.antt =====
-- What myfree() of chapter_07/mymalloc.c does to a chunk with no free neighbour.
use tlpi_solutions.Common.{
  ℕ, ◌+◌, ◌-◌, ◌%◌, ◌≤◌, ◌<◌, ◌≡◌, ◌≢◌, ◌⊎◌, inl, inr, refl, ap, ◌∙◌, Bool, true, false, ◌==◌, ltb,
  not, ◌&&◌, if◌then◌else◌, arith,
}
use tlpi_solutions.Malloc.{
  size_mod, Heap, write, prev_of, next_of, chunk_size, is_free, set_free, add_to_free_list,
  get_prev_chunk, coalesce_next, coalesce_prev, coalesce, myfree,
}

pub if_false : {A : Type 0} {b : Bool} (x y : A) → b ≡ false → (if b then x else y) ≡ y
if_false x y e = rw e refl

and_false : (b : Bool) → (b && false) ≡ false
and_false true = refl
and_false false = refl

-- The links of the first free chunk are not between `low` and the end of the chunk.
abbrev pub IsApart : Heap → (low c s : ℕ) → Type 0
IsApart h low c s =
    (h.free_list_head ≡ 0)
    ⊎ ((prev_of h.free_list_head < low) ⊎ (c + s + 16 < prev_of h.free_list_head))

-- The chunk is the first of the heap, or the one below it, of `ps` bytes, is not free.
abbrev pub IsAboveUsed : Heap → (c s : ℕ) → Type 0
IsAboveUsed h c s =
    ((c ≡ h.heap_base) × IsApart h c c s)
    ⊎ ((ps : ℕ) × (h.heap_base + ps + 16 ≤ c)
        × (chunk_size h (c - 8) ≡ ps)
        × (is_free h (c - (ps + 16)) ≡ false)
        × IsApart h (c - (ps + 16)) c s)

-- The chunk at `c` of `s` bytes is allocated, and neither of its neighbours is free.
pub record IsLone (h : Heap) (c s : ℕ) : Type 0 where
  pub size : h.words c ≡ s
  pub even : s % 2 ≡ 0
  pub room : 8 ≤ s
  pub positive : 8 ≤ c
  pub small : c < size_mod
  pub above : is_free h (c + s + 16) ≡ false
  pub below : IsAboveUsed h c s

-- The heap after the chunk is put in front of the free list.
module _ (h : Heap) (c s : ℕ) (w : IsLone h c s) where
  abbrev pub freed : Heap
  freed = add_to_free_list (set_free h c) c

  pub freed-words :
      (a : ℕ)
      → freed.words a ≡ (
          if a == prev_of c
          then 0
          else if not (h.free_list_head == 0) && a == prev_of h.free_list_head
          then c
          else if a == next_of c
          then h.free_list_head
          else if a == c
          then s + 1
          else h.words a)
  unfolding add_to_free_list set_free write
  freed-words a = ground (arith, w.size, w.even)

  -- The link of the first free chunk that changes is not between `low` and the end.
  pub no_link :
      (low a : ℕ)
      → IsApart h low c s
      → low ≤ a
      → a ≤ c + s + 16
      → (not (h.free_list_head == 0) && a == prev_of h.free_list_head) ≡ false
  no_link low a (inl e) le ge = rw e refl
  no_link low a (inr (inl x)) le ge = ground (arith, x, le)
  no_link low a (inr (inr x)) le ge = ground (arith, x, ge)

  -- There is such a `low`, not above the chunk.
  pub nearest : (low : ℕ) × (low ≤ c) × IsApart h low c s
  nearest = elim w.below [
    | inl (e, x) ↦ (c, omega arith, x)
    | inr (ps, fits, size, used, x) ↦ (c - (ps + 16), omega arith, x)
  ]

  pub freed-other :
      (low a : ℕ)
      → IsApart h low c s
      → low ≤ a
      → a ≤ c + s + 16
      → a ≢ c
      → a ≢ prev_of c
      → a ≢ next_of c
      → freed.words a ≡ h.words a
  freed-other low a x le ge n0 n8 n16 =
      let link = no_link low a x le ge in
      let e0 : (a == c) ≡ false = ground (arith, n0) in
      let e8 : (a == prev_of c) ≡ false = ground (arith, n8) in
      let e16 : (a == next_of c) ≡ false = ground (arith, n16) in
      freed-words a ∙ rw (e8, link, e16, e0) refl

  pub freed-c : freed.words c ≡ s + 1
  freed-c =
      let (low, le, x) = nearest in
      let link = no_link low c x le (omega arith) in
      let e0 : (c == c) ≡ true = ground arith in
      let e8 : (c == prev_of c) ≡ false = ground arith in
      let e16 : (c == next_of c) ≡ false = ground arith in
      freed-words c ∙ rw (e8, link, e16, e0) refl

  pub freed-above : is_free freed (c + s + 16) ≡ false
  unfolding is_free
  freed-above =
      let (low, le, x) = nearest in
      let same =
        freed-other low (c + s + 16) x (omega (arith, le)) (omega arith) (λ e. omega (arith, e))
          (λ e. omega (arith, e)) (λ e. omega (arith, e, w.room)) in
      rw same w.above

  next_kept : coalesce_next freed c ≡ freed
  unfolding coalesce_next chunk_size
  next_kept =
      let size : chunk_size freed c ≡ s = rw freed-c (omega (arith, w.even)) in
      let above : is_free freed (c + chunk_size freed c + 16) ≡ false = rw size freed-above in
      if_false _ _ above

  pub freed-heap_base : freed.heap_base ≡ h.heap_base
  unfolding add_to_free_list set_free write
  freed-heap_base = ground arith

  -- The chunk below is not there, or is not free.
  freed-below :
      (not (get_prev_chunk freed c == 0) && is_free freed (get_prev_chunk freed c)) ≡ false
  unfolding get_prev_chunk chunk_size is_free
  freed-below = elim w.below [
    | inl (e, x) ↦
        let first : ltb (c - 8) freed.heap_base ≡ true =
          rw freed-heap_base (ground (arith, e, w.positive)) in
        let nothing : get_prev_chunk freed c ≡ 0 = rw (first, get_prev_chunk) refl in
        rw nothing refl
    | inr (ps, fits, size, used, x) ↦
        let low = c - (ps + 16) in
        let inside : ltb (c - 8) freed.heap_base ≡ false =
          rw freed-heap_base (ground (arith, fits)) in
        let footer : freed.words (c - 8) ≡ h.words (c - 8) =
          freed-other low (c - 8) x (omega (arith, fits)) (omega arith)
            (λ e. omega (arith, e, w.positive)) (λ e. omega (arith, e, w.positive))
            (λ e. omega (arith, e, w.positive)) in
        let size' : chunk_size freed (c - 8) ≡ ps = rw footer size in
        let place : (c + size_mod - (ps + 16)) % size_mod ≡ low = omega (arith, fits, w.small) in
        let there : get_prev_chunk freed c ≡ low = rw (inside, get_prev_chunk, size') place in
        let header : freed.words low ≡ h.words low =
          freed-other low low x (omega arith) (omega arith) (λ e. omega (arith, e, fits))
            (λ e. omega (arith, e, fits)) (λ e. omega (arith, e, fits)) in
        let used' : is_free freed low ≡ false = rw header used in
        rw (there, used') (and_false (not (low == 0)))
  ]

  prev_kept : coalesce_prev freed c ≡ freed
  unfolding coalesce_prev
  prev_kept = if_false _ _ freed-below

  kept : coalesce freed c ≡ freed
  unfolding coalesce
  kept = ap (λ g. coalesce_prev g c) next_kept ∙ prev_kept

  -- myfree() only puts the chunk in front of the free list.
  pub myfree-freed : myfree h (c + 8) ≡ freed
  unfolding myfree
  myfree-freed =
      let there : c + 8 - 8 ≡ c = omega arith in
      let pointer : (c + 8 == 0) ≡ false = ground arith in
      if_false _ _ pointer ∙ ap (λ x. coalesce (add_to_free_list (set_free h x) x) x) there ∙ kept
