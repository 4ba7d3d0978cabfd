-- ===== src/ThreadsafeTree.antt =====
-- chapter_30/threadsafe_tree.c: a binary tree of strings in which each node has a mutex. A function
-- gives the tree that it leaves and the list of the mutexes that it locks and unlocks, in order. A
-- node carries its address, which names its mutex; `leaf` is NULL, and at the root it is the node
-- whose key is NULL.
pub mod Strcmp
pub mod Locks
pub mod Map
pub mod DeleteLocks
pub mod Remove
pub mod Ordered
pub mod Successor
mod Examples
use tlpi_solutions.Common.{
  ℕ, zero, suc, Option, none, some, List, [], ◌∷◌, ◌++◌, ◌==◌, ltb, if◌then◌else◌,
}

pub data Tree : Type 0 where
  leaf : Tree
  node : (address : ℕ) (key : List ℕ) (value : ℕ) (left right : Tree) → Tree

pub data LockOp : Type 0 where
  acquire release : (address : ℕ) → LockOp

-- The sign of strcmp().
pub data Sign : Type 0 where
  less same greater : Sign

pub sign : ℕ → ℕ → Sign → Sign
sign x y otherwise = if x == y then otherwise else if ltb x y then less else greater

-- strcmp(a, b), where the end of a list stands for the NUL
pub strcmp : List ℕ → List ℕ → Sign
unfolding sign
strcmp [] [] = same
strcmp [] (y ∷ ys) = less
strcmp (x ∷ xs) [] = greater
strcmp (x ∷ xs) (y ∷ ys) = sign x y (strcmp xs ys)

-- strncmp(a, b, n)
pub strncmp : ℕ → List ℕ → List ℕ → Sign
unfolding sign
strncmp zero a b = same
strncmp (suc n) [] [] = same
strncmp (suc n) [] (y ∷ ys) = less
strncmp (suc n) (x ∷ xs) [] = greater
strncmp (suc n) (x ∷ xs) (y ∷ ys) = sign x y (strncmp n xs ys)

abbrev pub max_key_len : ℕ
max_key_len = 1024

-- if (parent) pthread_mutex_unlock(&parent->mtx);
pub release_any : Option ℕ → List LockOp
release_any none = []
release_any (some p) = release p ∷ []

-- if (next) pthread_mutex_lock(&next->mtx);
pub acquire_any : Tree → List LockOp
acquire_any leaf = []
acquire_any (node p k v l r) = acquire p ∷ []

-- The loop of lookup(), from `curr` under `parent`: the value it finds, and the mutexes.
pub lookup_loop : Tree → Option ℕ → List ℕ → Option ℕ × List LockOp
unfolding release_any acquire_any
lookup_loop leaf parent key = (none, release_any parent)
lookup_loop (node p k v l r) parent key = elim (strcmp key k) [
  | same ↦ (some v, release p ∷ release_any parent)
  | less ↦
      let (found, ops) = lookup_loop l (some p) key in
      (found, acquire_any l ++ (release_any parent ++ ops))
  | greater ↦
      let (found, ops) = lookup_loop r (some p) key in
      (found, acquire_any r ++ (release_any parent ++ ops))
]

-- lookup(): `root` is the address of the root.
pub lookup : ℕ → Tree → List ℕ → Option ℕ × List LockOp
unfolding lookup_loop
lookup root leaf key = (none, acquire root ∷ release root ∷ [])
lookup root (node p k v l r) key =
    let (found, ops) = lookup_loop (node p k v l r) none key in (found, acquire p ∷ ops)

-- The end of a round of add(), at the child `next` of the node `p`: a new node at the address
-- `fresh` where there is none, or what the rest of the loop gives.
pub descend : Tree → Tree × List LockOp → ℕ → Option ℕ → Tree → ℕ → Tree × List LockOp
unfolding release_any
descend leaf rest p parent new fresh =
    (new, acquire fresh ∷ release fresh ∷ release p ∷ release_any parent)
descend (node q k v l r) rest p parent new fresh =
    (rest.0, acquire q ∷ (release_any parent ++ rest.1))

-- The loop of add(), from `curr` under `parent`.
pub add_loop : Tree → Option ℕ → List ℕ → ℕ → ℕ → Tree × List LockOp
unfolding descend release_any
add_loop leaf parent key value fresh = (leaf, release_any parent)
add_loop (node p k v l r) parent key value fresh =
    let new : Tree = node fresh key value leaf leaf in
    let below_left = descend l (add_loop l (some p) key value fresh) p parent new fresh in
    let below_right = descend r (add_loop r (some p) key value fresh) p parent new fresh in
    elim (strcmp key k) [
      | same ↦ (node p k value l r, release p ∷ release_any parent)
      | less ↦ (node p k v below_left.0 r, below_left.1)
      | greater ↦ (node p k v l below_right.0, below_right.1)
    ]

pub add : ℕ → Tree → List ℕ → ℕ → ℕ → Tree × List LockOp
unfolding add_loop
add root leaf key value fresh = (node root key value leaf leaf, acquire root ∷ release root ∷ [])
add root (node p k v l r) key value fresh =
    let (t, ops) = add_loop (node p k v l r) none key value fresh in (t, acquire p ∷ ops)

-- The key and the value of the successor: the leftmost node.
pub successor : Tree → List ℕ × ℕ → List ℕ × ℕ
successor leaf last = last
successor (node p k v l r) last = successor l (k, v)

-- The tree in which the pointer to the leftmost node is NULL.
pub unlink : Tree → Tree
unlink leaf = leaf
unlink (node p k v l r) = elim l [ leaf ↦ leaf | node _ _ _ _ _ ↦ node p k v (unlink l) r ]

-- The search for the successor of the root from `next`, and its removal.
pub root_search : Tree → Option ℕ → Option ℕ → List LockOp
unfolding release_any
root_search leaf successor_parent successor = release_any successor ++ release_any successor_parent
root_search (node q k v l r) successor_parent successor =
    acquire q ∷ (release_any successor_parent ++ root_search l successor (some q))

-- delete() of the root `p`.
pub delete_root : ℕ → Tree → Tree → Tree × List LockOp
unfolding successor unlink root_search
delete_root p leaf leaf = (leaf, release p ∷ [])
delete_root p leaf (node q k v l r) = (node p k v l r, acquire q ∷ release q ∷ release p ∷ [])
delete_root p (node q k v l r) leaf = (node p k v l r, acquire q ∷ release q ∷ release p ∷ [])
delete_root p (node a k v l r) (node b k' v' l' r') =
    let next : Tree = node b k' v' l' r' in
    let (key, value) = successor next (k', v') in
    (node p key value (node a k v l r) (unlink next), root_search next none none ++ release p ∷ [])

-- The search for the successor of another node, from the left child of `successor`.
pub node_search : Tree → ℕ → ℕ → List LockOp
node_search leaf successor_parent successor = release successor ∷ release successor_parent ∷ []
node_search (node q k v l r) successor_parent successor =
    acquire q ∷ release successor_parent ∷ node_search l successor q

-- delete() of the node `p` under `parent`.
pub delete_found : ℕ → ℕ → Tree → Tree → Tree × List LockOp
unfolding successor unlink node_search
delete_found p parent leaf leaf = (leaf, release p ∷ release parent ∷ [])
delete_found p parent leaf (node q k v l r) = (node q k v l r, release p ∷ release parent ∷ [])
delete_found p parent (node q k v l r) leaf = (node q k v l r, release p ∷ release parent ∷ [])
delete_found p parent (node a k v l r) (node b k' v' l' r') =
    let next : Tree = node b k' v' l' r' in
    let (key, value) = successor next (k', v') in
    (
      node p key value (node a k v l r) (unlink next),
      acquire b ∷ (node_search l' p b ++ release p ∷ release parent ∷ []),
    )

-- The loop of delete() below the root.
pub delete_loop : Tree → ℕ → Option ℕ → List ℕ → Tree × List LockOp
unfolding delete_found release_any
delete_loop leaf parent grand_parent key = (leaf, release_any grand_parent ++ release parent ∷ [])
delete_loop (node p k v l r) parent grand_parent key =
    let (l', left_ops) = delete_loop l p (some parent) key in
    let (r', right_ops) = delete_loop r p (some parent) key in
    let (here, here_ops) = delete_found p parent l r in
    let start = acquire p ∷ release_any grand_parent in
    elim (strncmp max_key_len key k) [
      | same ↦ (here, start ++ here_ops)
      | less ↦ (node p k v l' r, start ++ left_ops)
      | greater ↦ (node p k v l r', start ++ right_ops)
    ]

pub delete : ℕ → Tree → List ℕ → Tree × List LockOp
unfolding delete_root delete_loop
delete root leaf key = (leaf, acquire root ∷ release root ∷ [])
delete root (node p k v l r) key =
    let (l', left_ops) = delete_loop l p none key in
    let (r', right_ops) = delete_loop r p none key in
    let (here, here_ops) = delete_root p l r in
    elim (strncmp max_key_len key k) [
      | same ↦ (here, acquire p ∷ here_ops)
      | less ↦ (node p k v l' r, acquire p ∷ left_ops)
      | greater ↦ (node p k v l r', acquire p ∷ right_ops)
    ]
