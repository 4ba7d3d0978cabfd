-- ===== src/ThreadsafeTree/Locks.antt =====
-- The mutexes of chapter_30/threadsafe_tree.c: each is released as often as it is taken.
use mathlib.Core.Path.{fun_ext}
use tlpi_solutions.Common.{
  ℕ, ◌≡◌, refl, ap, ◌∙◌, true, false, Option, none, some, List, [], ◌∷◌, ◌++◌, ◌==◌, ◌+◌, ◌-◌,
  if◌then◌else◌, arith, inl, inr,
}
use tlpi_solutions.ThreadsafeTree.{
  Tree, leaf, node, LockOp, acquire, release, strcmp, release_any, acquire_any, lookup_loop, lookup,
  descend, add_loop, add,
}
use tlpi_solutions.ThreadsafeTree.Strcmp.{Sign-cases}

-- How often each mutex is held.
abbrev pub Held : Type 0
Held = ℕ → ℕ

unfoldable pub plus : ℕ → Held → Held
plus p held = λ x. if x == p then held x + 1 else held x

pub minus : ℕ → Held → Held
minus p held = λ x. if x == p then held x - 1 else held x

-- What a thread holds after its operations; `none` where it releases a mutex that it does not hold.
unfoldable pub run_locks : List LockOp → Held → Option Held
unfolding plus minus
run_locks [] held = some held
run_locks (acquire p ∷ ops) held = run_locks ops (plus p held)
run_locks (release p ∷ ops) held = elim (held p == 0) [
  | true ↦ none
  | false ↦ run_locks ops (minus p held)
]

abbrev pub held_any : Option ℕ → Held → Held
held_any none held = held
held_any (some p) held = plus p held

abbrev pub held_tree : Tree → Held → Held
held_tree leaf held = held
held_tree (node p k v l r) held = plus p held

minus-first : (p : ℕ) (held : Held) → minus p (plus p held) ≡ held
unfolding plus minus
minus-first p held = fun_ext (λ x. ground arith)

plus_comm : (p q : ℕ) (held : Held) → plus q (plus p held) ≡ plus p (plus q held)
unfolding plus
plus_comm p q held = fun_ext (λ x. ground arith)

holds-first : (p : ℕ) (held : Held) → (plus p held p == 0) ≡ false
unfolding plus
holds-first p held = ground arith

pub release-first :
    (p : ℕ) (ops : List LockOp) (held : Held)
    → run_locks (release p ∷ ops) (plus p held) ≡ run_locks ops held
unfolding run_locks
release-first p ops held =
    rw (holds-first p held, run_locks) (ap (run_locks ops) (minus-first p held))

pub release-second :
    (p q : ℕ) (ops : List LockOp) (held : Held)
    → run_locks (release p ∷ ops) (plus q (plus p held)) ≡ run_locks ops (plus q held)
release-second p q ops held =
    ap (run_locks (release p ∷ ops)) (plus_comm p q held) ∙ release-first p ops (plus q held)

pub release-third :
    (p q r : ℕ) (ops : List LockOp) (held : Held)
    → run_locks (release p ∷ ops) (plus q (plus r (plus p held)))
      ≡ run_locks ops (plus q (plus r held))
release-third p q r ops held =
    ap (λ h. run_locks (release p ∷ ops) (plus q h)) (plus_comm p r held)
    ∙ release-second p q ops (plus r held)

module _ (held : Held) where
  pub release_all :
      (p : ℕ) (parent : Option ℕ)
      → run_locks (release p ∷ release_any parent) (plus p (held_any parent held)) ≡ some held
  unfolding release_any run_locks
  release_all p none = release-first p [] held
  release_all p (some q) = release-first p (release q ∷ []) (plus q held) ∙ release-first q [] held

  -- One round: the next node is taken, and the parent is released.
  walk :
      (t : Tree) (p : ℕ) (parent : Option ℕ) (ops : List LockOp)
      → run_locks (acquire_any t ++ (release_any parent ++ ops)) (plus p (held_any parent held))
        ≡ run_locks ops (held_tree t (plus p held))
  unfolding release_any acquire_any run_locks
  walk leaf p none ops = refl
  walk leaf p (some q) ops = release-second q p ops held
  walk (node a k v l r) p none ops = refl
  walk (node a k v l r) p (some q) ops = release-third q a p ops held

  lookup_loop-release :
      (t : Tree) (parent : Option ℕ) (key : List ℕ)
      → run_locks (lookup_loop t parent key).1 (held_tree t (held_any parent held)) ≡ some held
  unfolding lookup_loop run_locks
  lookup_loop-release leaf none key = unfold release_any in refl
  lookup_loop-release leaf (some p) key = unfold release_any in release-first p [] held
  lookup_loop-release (node p k v l r) parent key = elim (Sign-cases (strcmp key k)) [
    | inl c ↦ rw (c, lookup_loop) (release_all p parent)
    | inr (inl c) ↦
        rw (c, lookup_loop)
          (walk l p parent (lookup_loop l (some p) key).1 ∙ lookup_loop-release l (some p) key)
    | inr (inr c) ↦
        rw (c, lookup_loop)
          (walk r p parent (lookup_loop r (some p) key).1 ∙ lookup_loop-release r (some p) key)
  ]

  loop-release :
      (p : ℕ) (k : List ℕ) (v : ℕ) (l r : Tree) (parent : Option ℕ) (key : List ℕ) (value fresh : ℕ)
      → (let new : Tree = node fresh key value leaf leaf in
          run_locks
            (descend l (add_loop l (some p) key value fresh) p parent new fresh).1
            (plus p (held_any parent held))
          ≡ some held)
      → (let new : Tree = node fresh key value leaf leaf in
          run_locks
            (descend r (add_loop r (some p) key value fresh) p parent new fresh).1
            (plus p (held_any parent held))
          ≡ some held)
      → run_locks
          (add_loop (node p k v l r) parent key value fresh).1
          (plus p (held_any parent held))
        ≡ some held
  unfolding add_loop
  loop-release p k v l r parent key value fresh sl sr = elim (Sign-cases (strcmp key k)) [
    | inl c ↦ rw (c, add_loop) (release_all p parent)
    | inr (inl c) ↦ rw (c, add_loop) sl
    | inr (inr c) ↦ rw (c, add_loop) sr
  ]

  descend-release :
      (t : Tree) (p : ℕ) (parent : Option ℕ) (key : List ℕ) (value fresh : ℕ)
      → run_locks
          (descend t
            (add_loop t (some p) key value fresh)
            p
            parent
            (node fresh key value leaf leaf)
            fresh).1
          (plus p (held_any parent held))
        ≡ some held
  unfolding descend acquire_any run_locks
  descend-release leaf p parent key value fresh =
      release-first fresh (release p ∷ release_any parent) (plus p (held_any parent held))
      ∙ release_all p parent
  descend-release (node q k v l r) p parent key value fresh =
      walk (node q k v l r) p parent (add_loop (node q k v l r) (some p) key value fresh).1
      ∙ loop-release q k v l r (some p) key value fresh
          (descend-release l q (some p) key value fresh)
          (descend-release r q (some p) key value fresh)

-- lookup() and add() hold afterwards the mutexes that were held before, and release none that they
-- do not hold.
pub operations_release :
    (root : ℕ) (t : Tree) (key : List ℕ) (value fresh : ℕ) (held : Held)
    → (run_locks (lookup root t key).1 held ≡ some held)
      × (run_locks (add root t key value fresh).1 held ≡ some held)
unfolding lookup add run_locks
operations_release root leaf key value fresh held =
    (release-first root [] held, release-first root [] held)
operations_release root (node p k v l r) key value fresh held = (
  lookup_loop-release held (node p k v l r) none key,
  loop-release held p k v l r none key value fresh (descend-release held l p none key value fresh)
      (descend-release held r p none key value fresh),
)
