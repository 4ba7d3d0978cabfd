-- ===== src/ThreadsafeTree/Successor.antt =====
-- delete() of chapter_30/threadsafe_tree.c where the successor has a right child.
use tlpi_solutions.Common.{ℕ, ◌≡◌, refl, ◌∙◌, none, List}
use tlpi_solutions.ThreadsafeTree.{
  Tree, leaf, node, greater, strcmp, max_key_len, lookup, delete_root, successor, unlink, delete,
}
use tlpi_solutions.ThreadsafeTree.Strcmp.{strncmp_refl}
use tlpi_solutions.ThreadsafeTree.Map.{find, lookup-find}

-- A root with two children, the right one of which has no left child: a key that is greater than
-- the root's and the right child's was looked up in the subtree to the right of both, and after a
-- delete of the root's key it is not found, whatever that subtree holds.
pub delete_loses_subtree :
    (root p : ℕ) (key : List ℕ) (v a b : ℕ) (ka kb : List ℕ) (va vb : ℕ) (la ra rb : Tree)
    (j : List ℕ)
    → strcmp j key ≡ greater
    → strcmp j kb ≡ greater
    → (let t : Tree = node p key v (node a ka va la ra) (node b kb vb leaf rb) in
        ((lookup root t j).0 ≡ (lookup root rb j).0)
        × ((lookup root (delete root t key).0 j).0 ≡ none))
unfolding delete delete_root successor unlink find
delete_loses_subtree root p key v a b ka kb va vb la ra rb j above beyond =
    let t : Tree = node p key v (node a ka va la ra) (node b kb vb leaf rb) in
    let t' : Tree = node p kb vb (node a ka va la ra) leaf in
    (
      rw (lookup-find root t j, lookup-find root rb j, above, find, beyond, find) refl,
      rw (strncmp_refl max_key_len key, delete) (lookup-find root t' j ∙ rw (beyond, find) refl),
    )
