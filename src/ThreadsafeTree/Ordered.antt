-- ===== src/ThreadsafeTree/Ordered.antt =====
-- add() of chapter_30/threadsafe_tree.c keeps the order of the tree.
use tlpi_solutions.Common.{ℕ, ◌≡◌, Option, none, some, List, inl, inr}
use tlpi_solutions.ThreadsafeTree.{
  Tree, leaf, node, Sign, less, greater, strcmp, descend, add_loop, add,
}
use tlpi_solutions.ThreadsafeTree.Strcmp.{Sign-cases}
use tlpi_solutions.ThreadsafeTree.Remove.{All, IsOrdered}

module _ (key : List ℕ) (value fresh : ℕ) where
  abbrev new : Tree
  new = node fresh key value leaf leaf

  -- What add() makes of the subtree `t` below the node `p`.
  abbrev added : Tree → ℕ → Option ℕ → Tree
  added t p parent = (descend t (add_loop t (some p) key value fresh) p parent new fresh).0

  loop-All :
      (s : Sign) (k : List ℕ) (q : ℕ) (k' : List ℕ) (v : ℕ) (l r : Tree) (parent : Option ℕ)
      → All s k (node q k' v l r)
      → All s k (added l q parent)
      → All s k (added r q parent)
      → All s k (add_loop (node q k' v l r) parent key value fresh).0
  unfolding add_loop
  loop-All s k q k' v l r parent w wl wr = elim (Sign-cases (strcmp key k')) [
    | inl c ↦ rw (c, add_loop) (w.0, w.1, w.2)
    | inr (inl c) ↦ rw (c, add_loop) (w.0, wl, w.2)
    | inr (inr c) ↦ rw (c, add_loop) (w.0, w.1, wr)
  ]

  added-All :
      (s : Sign) (k : List ℕ) (t : Tree) (p : ℕ) (parent : Option ℕ)
      → strcmp key k ≡ s
      → All s k t
      → All s k (added t p parent)
  unfolding descend
  added-All s k leaf p parent c w = (c, tt, tt)
  added-All s k (node q k' v l r) p parent c w =
      loop-All s k q k' v l r (some p) w (added-All s k l q (some p) c w.1)
        (added-All s k r q (some p) c w.2)

  loop-IsOrdered :
      (q : ℕ) (k : List ℕ) (v : ℕ) (l r : Tree) (parent : Option ℕ)
      → IsOrdered (node q k v l r)
      → IsOrdered (added l q parent)
      → IsOrdered (added r q parent)
      → IsOrdered (add_loop (node q k v l r) parent key value fresh).0
  unfolding add_loop
  loop-IsOrdered q k v l r parent w wl wr = elim (Sign-cases (strcmp key k)) [
    | inl c ↦ rw (c, add_loop) (w.0, w.1, w.2, w.3)
    | inr (inl c) ↦ rw (c, add_loop) (added-All less k l q parent c w.0, w.1, wl, w.3)
    | inr (inr c) ↦ rw (c, add_loop) (w.0, added-All greater k r q parent c w.1, w.2, wr)
  ]

  added-IsOrdered :
      (t : Tree) (p : ℕ) (parent : Option ℕ) → IsOrdered t → IsOrdered (added t p parent)
  unfolding descend
  added-IsOrdered leaf p parent w = (tt, tt, tt, tt)
  added-IsOrdered (node q k v l r) p parent w =
      loop-IsOrdered q k v l r (some p) w (added-IsOrdered l q (some p) w.2)
        (added-IsOrdered r q (some p) w.3)

-- The keys of an ordered tree are in order after an add.
pub add-IsOrdered :
    (root : ℕ) (t : Tree) (key : List ℕ) (value fresh : ℕ)
    → IsOrdered t
    → IsOrdered (add root t key value fresh).0
unfolding add
add-IsOrdered root leaf key value fresh w = (tt, tt, tt, tt)
add-IsOrdered root (node p k v l r) key value fresh w =
    loop-IsOrdered key value fresh p k v l r none w (added-IsOrdered key value fresh l p none w.2)
      (added-IsOrdered key value fresh r p none w.3)
