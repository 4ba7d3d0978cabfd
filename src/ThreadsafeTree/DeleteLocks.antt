-- ===== src/ThreadsafeTree/DeleteLocks.antt =====
-- The mutexes of delete() in chapter_30/threadsafe_tree.c.
use tlpi_solutions.Common.{
  ℕ, ◌≡◌, ◌≢◌, refl, ◌∙◌, Bool, true, false, Option, none, some, List, [], ◌∷◌, ◌++◌, arith, inl,
  inr,
}
use tlpi_solutions.ThreadsafeTree.{
  Tree, leaf, node, LockOp, acquire, release, same, less, greater, strncmp, max_key_len,
  release_any, root_search, delete_root, node_search, delete_found, delete_loop, delete,
}
use tlpi_solutions.ThreadsafeTree.Strcmp.{Sign-cases, strncmp_refl}
use tlpi_solutions.ThreadsafeTree.Locks.{
  Held, plus, run_locks, release-first, release-second, release-third, held_any,
}

abbrev pub both : Tree → Tree → Bool
both (node a k v l r) (node b k' v' l' r') = true
both _ _ = false

-- The search comes to a node with two children.
unfoldable pub has_two : Tree → List ℕ → Bool
has_two leaf key = false
has_two (node p k v l r) key = elim (strncmp max_key_len key k) [
  | same ↦ both l r
  | less ↦ has_two l key
  | greater ↦ has_two r key
]

-- The search below the root comes to a node with two children.
unfoldable pub has_two_below : Tree → List ℕ → Bool
unfolding has_two
has_two_below leaf key = false
has_two_below (node p k v l r) key = elim (strncmp max_key_len key k) [
  | same ↦ false
  | less ↦ has_two l key
  | greater ↦ has_two r key
]

module _ (held : Held) where
  search-release :
      (t : Tree) (successor_parent successor : Option ℕ) (p : ℕ)
      → run_locks
          (root_search t successor_parent successor ++ release p ∷ [])
          (held_any successor (held_any successor_parent (plus p held)))
        ≡ some held
  unfolding root_search release_any run_locks
  search-release leaf none none p = release-first p [] held
  search-release leaf none (some s) p =
      release-first s (release p ∷ []) (plus p held) ∙ release-first p [] held
  search-release leaf (some g) none p =
      release-first g (release p ∷ []) (plus p held) ∙ release-first p [] held
  search-release leaf (some g) (some s) p =
      release-first s (release g ∷ release p ∷ []) (plus g (plus p held))
      ∙ release-first g (release p ∷ []) (plus p held)
      ∙ release-first p [] held
  search-release (node q k v l r) none s p = search-release l s (some q) p
  search-release (node q k v l r) (some g) none p =
      release-second g q (root_search l none (some q) ++ release p ∷ []) (plus p held)
      ∙ search-release l none (some q) p
  search-release (node q k v l r) (some g) (some s) p =
      release-third g q s (root_search l (some s) (some q) ++ release p ∷ []) (plus p held)
      ∙ search-release l (some s) (some q) p

  root-release : (p : ℕ) (l r : Tree) → run_locks (delete_root p l r).1 (plus p held) ≡ some held
  unfolding delete_root run_locks
  root-release p leaf leaf = release-first p [] held
  root-release p leaf (node q k v l r) =
      release-first q (release p ∷ []) (plus p held) ∙ release-first p [] held
  root-release p (node q k v l r) leaf =
      release-first q (release p ∷ []) (plus p held) ∙ release-first p [] held
  root-release p (node a k v l r) (node b k' v' l' r') =
      search-release (node b k' v' l' r') none none p

  found-release :
      (p parent : ℕ) (l r : Tree)
      → both l r ≡ false
      → run_locks (delete_found p parent l r).1 (plus p (plus parent held)) ≡ some held
  unfolding delete_found run_locks
  found-release p parent leaf leaf h =
      release-first p (release parent ∷ []) (plus parent held) ∙ release-first parent [] held
  found-release p parent leaf (node q k v l r) h =
      release-first p (release parent ∷ []) (plus parent held) ∙ release-first parent [] held
  found-release p parent (node q k v l r) leaf h =
      release-first p (release parent ∷ []) (plus parent held) ∙ release-first parent [] held
  found-release p parent (node a k v l r) (node b k' v' l' r') h = absurd (cc)

  -- A round of delete() takes the next node and releases the parent's parent.
  enter :
      (p parent : ℕ) (grand_parent : Option ℕ) (ops : List LockOp)
      → run_locks
          ((acquire p ∷ release_any grand_parent) ++ ops)
          (plus parent (held_any grand_parent held))
        ≡ run_locks ops (plus p (plus parent held))
  unfolding release_any run_locks
  enter p parent none ops = refl
  enter p parent (some g) ops = release-third g p parent ops held

  delete_loop-release :
      (t : Tree) (parent : ℕ) (grand_parent : Option ℕ) (key : List ℕ)
      → has_two t key ≡ false
      → run_locks
          (delete_loop t parent grand_parent key).1
          (plus parent (held_any grand_parent held))
        ≡ some held
  unfolding delete_loop has_two run_locks release_any
  delete_loop-release leaf parent none key h = release-first parent [] held
  delete_loop-release leaf parent (some g) key h =
      release-second g parent (release parent ∷ []) held ∙ release-first parent [] held
  delete_loop-release (node p k v l r) parent grand_parent key h =
      elim (Sign-cases (strncmp max_key_len key k)) [
        | inl c ↦
            rw (c, delete_loop)
              (enter p parent grand_parent (delete_found p parent l r).1
                ∙ found-release p parent l r (rw (c, has_two) at h))
        | inr (inl c) ↦
            rw (c, delete_loop)
              (enter p parent grand_parent (delete_loop l p (some parent) key).1
                ∙ delete_loop-release l p (some parent) key (rw (c, has_two) at h))
        | inr (inr c) ↦
            rw (c, delete_loop)
              (enter p parent grand_parent (delete_loop r p (some parent) key).1
                ∙ delete_loop-release r p (some parent) key (rw (c, has_two) at h))
      ]

  node_search-release :
      (t : Tree) (successor_parent successor : ℕ) (ops : List LockOp)
      → run_locks
          (node_search t successor_parent successor ++ ops)
          (plus successor (plus successor_parent held))
        ≡ run_locks ops held
  unfolding node_search run_locks
  node_search-release leaf g s ops =
      release-first s (release g ∷ ops) (plus g held) ∙ release-first g ops held
  node_search-release (node q k v l r) g s ops =
      release-third g q s (node_search l s q ++ ops) held ∙ node_search-release l s q ops

-- Where no node below the root with two children is deleted, delete() holds afterwards the mutexes
-- that were held before, and releases none that it does not hold.
pub delete-release :
    (root : ℕ) (t : Tree) (key : List ℕ) (held : Held)
    → has_two_below t key ≡ false
    → run_locks (delete root t key).1 held ≡ some held
unfolding delete has_two_below run_locks
delete-release root leaf key held h = release-first root [] held
delete-release root (node p k v l r) key held h = elim (Sign-cases (strncmp max_key_len key k)) [
  | inl c ↦ rw (c, delete) (root-release held p l r)
  | inr (inl c) ↦
      rw (c, delete) (delete_loop-release held l p none key (rw (c, has_two_below) at h))
  | inr (inr c) ↦
      rw (c, delete) (delete_loop-release held r p none key (rw (c, has_two_below) at h))
]

not_held : (p q : ℕ) (held : Held) → p ≢ q → held p ≡ 0 → plus q held p ≡ 0
unfolding plus
not_held p q held other free = ground arith

release_none :
    (p : ℕ) (ops : List LockOp) (held : Held) → held p ≡ 0 → run_locks (release p ∷ ops) held ≡ none
unfolding run_locks
release_none p ops held e = rw (e, run_locks) refl

-- When delete() comes below the root to a node of the key with two children, the mutex of which it
-- did not hold and which is not that of its parent, it releases this mutex once more than it holds
-- it.
pub delete_unlocks_twice :
    (p parent : ℕ) (grand_parent : Option ℕ) (key : List ℕ) (v a b : ℕ) (ka kb : List ℕ) (va vb : ℕ)
    (la ra lb rb : Tree) (held : Held)
    → p ≢ parent
    → held p ≡ 0
    → run_locks
        (delete_loop
          (node p key v (node a ka va la ra) (node b kb vb lb rb))
          parent
          grand_parent
          key).1
        (plus parent (held_any grand_parent held))
      ≡ none
unfolding delete_loop delete_found run_locks
delete_unlocks_twice p parent grand_parent key v a b ka kb va vb la ra lb rb held other free =
    let found = delete_found p parent (node a ka va la ra) (node b kb vb lb rb) in
    rw (strncmp_refl max_key_len key, delete_loop)
      (enter held p parent grand_parent found.1
        ∙ node_search-release (plus parent held) lb p b (release p ∷ release parent ∷ [])
        ∙ release_none p (release parent ∷ []) (plus parent held)
            (not_held p parent held other free))
