-- ===== src/ThreadsafeTree/Examples.antt =====
-- The theorems about chapter_30/threadsafe_tree.c at concrete trees.
use tlpi_solutions.Common.{
  ℕ, ◌≡◌, refl, none, some, List, [], ◌∷◌, arith, bytes_eq, if◌then◌else◌, false,
}
use tlpi_solutions.ThreadsafeTree.{
  Tree, leaf, node, greater, strcmp, strncmp, sign, lookup, add, delete,
}
use tlpi_solutions.ThreadsafeTree.Map.{lookup-add}
use tlpi_solutions.ThreadsafeTree.Locks.{Held, run_locks}
use tlpi_solutions.ThreadsafeTree.DeleteLocks.{has_two, has_two_below, delete-release}
use tlpi_solutions.ThreadsafeTree.Remove.{IsOrdered, lookup-delete}
use tlpi_solutions.ThreadsafeTree.Ordered.{add-IsOrdered}
use tlpi_solutions.ThreadsafeTree.Successor.{delete_loses_subtree}

abbrev key_a : List ℕ
key_a = b'a' ∷ []

abbrev key_b : List ℕ
key_b = b'b' ∷ []

abbrev key_c : List ℕ
key_c = b'c' ∷ []

abbrev key_d : List ℕ
key_d = b'd' ∷ b'd' ∷ []

abbrev left_child : Tree
left_child = node 2 key_a 20 leaf leaf

abbrev last : Tree
last = node 4 key_d 40 leaf leaf

-- A root with one child.
abbrev single : Tree
single = node 1 key_b 10 left_child leaf

single-IsOrdered : IsOrdered single
unfolding strcmp sign
single-IsOrdered = ((refl, tt, tt), tt, (tt, tt, tt, tt), tt)

-- The root of `single` with a second child, which has a right child.
abbrev full : Tree
full = node 1 key_b 10 left_child (node 3 key_c 30 leaf last)

nothing : Held
nothing x = 0

lookup-add_example :
    (lookup 1 (add 1 single key_c 30 3).0 key_b).0
    ≡ (if bytes_eq key_b key_c then some 30 else (lookup 1 single key_b).0)
lookup-add_example = lookup-add 1 single key_c 30 3 key_b

one_child : has_two single key_b ≡ false
unfolding has_two strncmp sign
one_child = refl

lookup-delete_example :
    (lookup 1 (delete 1 single key_b).0 key_a).0
    ≡ (if bytes_eq key_a key_b then none else (lookup 1 single key_a).0)
lookup-delete_example = lookup-delete 1 single key_b key_a single-IsOrdered (omega arith) one_child

at_root : has_two_below full key_b ≡ false
unfolding has_two_below strncmp sign
at_root = refl

delete-release_example : run_locks (delete 1 full key_b).1 nothing ≡ some nothing
delete-release_example = delete-release 1 full key_b nothing at_root

add-IsOrdered_example : IsOrdered (add 1 single key_c 30 3).0
add-IsOrdered_example = add-IsOrdered 1 single key_c 30 3 single-IsOrdered

beyond_root : strcmp key_d key_b ≡ greater
unfolding strcmp sign
beyond_root = refl

beyond_child : strcmp key_d key_c ≡ greater
unfolding strcmp sign
beyond_child = refl

delete_loses_subtree_example :
    ((lookup 1 full key_d).0 ≡ (lookup 1 last key_d).0)
    × ((lookup 1 (delete 1 full key_b).0 key_d).0 ≡ none)
delete_loses_subtree_example =
    delete_loses_subtree 1 1 key_b 10 2 3 key_a key_c 20 30 leaf leaf last key_d beyond_root
      beyond_child
