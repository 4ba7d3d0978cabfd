-- ===== src/ThreadsafeTree/Map.antt =====
-- lookup() and add() of chapter_30/threadsafe_tree.c as those of a map.
use tlpi_solutions.Common.{
  ℕ, ◌≡◌, ◌≢◌, refl, sym, ap, ◌∙◌, false, Option, none, some, List, arith, bytes_eq, bytes_eq_sound,
  bytes_eq_refl, Bool-cases, inl, inr, if◌then◌else◌,
}
use tlpi_solutions.ThreadsafeTree.{
  Tree, leaf, node, less, same, greater, strcmp, lookup_loop, lookup, descend, add_loop, add,
}
use tlpi_solutions.ThreadsafeTree.Strcmp.{strcmp-same, strcmp_refl, Sign-cases}

-- The value that the path of a key leads to.
unfoldable pub find : Tree → List ℕ → Option ℕ
find leaf j = none
find (node p k v l r) j = elim (strcmp j k) [ same ↦ some v | less ↦ find l j | greater ↦ find r j ]

loop-find : (t : Tree) (parent : Option ℕ) (j : List ℕ) → (lookup_loop t parent j).0 ≡ find t j
unfolding lookup_loop find
loop-find leaf parent j = refl
loop-find (node p k v l r) parent j = ground (arith, loop-find l (some p) j, loop-find r (some p) j)

pub lookup-find : (root : ℕ) (t : Tree) (j : List ℕ) → (lookup root t j).0 ≡ find t j
unfolding lookup find
lookup-find root leaf j = refl
lookup-find root (node p k v l r) j = loop-find (node p k v l r) none j

module _ (key : List ℕ) (value fresh : ℕ) (j : List ℕ) where
  abbrev new : Tree
  new = node fresh key value leaf leaf

  -- The tree after add() shows its new value under its key, and elsewhere what it showed.
  abbrev Shows : Tree → Tree → Type 0
  Shows t t' = find t' j ≡ (if bytes_eq j key then some value else find t j)

  differ : bytes_eq j key ≡ false → strcmp j key ≢ same
  differ e q =
      let diff : bytes_eq j j ≡ false = rw (← strcmp-same j key q) at e in cc (bytes_eq_refl j)

  new-Shows : Shows leaf new
  unfolding find
  new-Shows = elim (Bool-cases (bytes_eq j key)) [
    | inl e ↦ rw e (rw (bytes_eq_sound j key e, find, strcmp_refl key) refl)
    | inr e ↦ let q : strcmp j key ≢ same = differ e in ground arith
  ]

  -- A node on the path of the key, whose subtrees show the new value.
  node-Shows :
      (p : ℕ) (k : List ℕ) (v : ℕ) (l r l' r' : Tree)
      → Shows l l'
      → Shows r r'
      → (strcmp key k ≡ same → Shows (node p k v l r) (node p k value l r))
        × (strcmp key k ≡ less → Shows (node p k v l r) (node p k v l' r))
        × (strcmp key k ≡ greater → Shows (node p k v l r) (node p k v l r'))
  unfolding find
  node-Shows p k v l r l' r' sl sr = elim (Bool-cases (bytes_eq j key)) [
    | inl e ↦
        let eq : j ≡ key = bytes_eq_sound j key e in
        (
          λ c. rw (e, eq, find, c) refl,
          λ c. rw (e, eq, find, c) (rw e at sl),
          λ c. rw (e, eq, find, c) (rw e at sr),
        )
    | inr e ↦ (
      λ c.
          (let k-key : key ≡ k = strcmp-same key k c in
            let q : strcmp j k ≢ same = rw (← k-key) (differ e) in ground arith),
      λ c. rw e (ground arith),
      λ c. rw e (ground arith),
    )
  ]

  loop-Shows :
      (p : ℕ) (k : List ℕ) (v : ℕ) (l r : Tree) (parent : Option ℕ)
      → Shows l (descend l (add_loop l (some p) key value fresh) p parent new fresh).0
      → Shows r (descend r (add_loop r (some p) key value fresh) p parent new fresh).0
      → Shows (node p k v l r) (add_loop (node p k v l r) parent key value fresh).0
  unfolding add_loop
  loop-Shows p k v l r parent sl sr =
      let (at, below, above) = node-Shows p k v l r _ _ sl sr in
      elim (Sign-cases (strcmp key k)) [
        | inl c ↦ rw (c, add_loop) (at c)
        | inr (inl c) ↦ rw (c, add_loop) (below c)
        | inr (inr c) ↦ rw (c, add_loop) (above c)
      ]

  descend-Shows :
      (t : Tree) (p : ℕ) (parent : Option ℕ)
      → Shows t (descend t (add_loop t (some p) key value fresh) p parent new fresh).0
  unfolding descend
  descend-Shows leaf p parent = new-Shows
  descend-Shows (node q k v l r) p parent =
      loop-Shows q k v l r (some p) (descend-Shows l q (some p)) (descend-Shows r q (some p))

-- After an add, a lookup of the same key finds the new value, and a lookup of any other key finds
-- what it found before.
pub lookup-add :
    (root : ℕ) (t : Tree) (key : List ℕ) (value fresh : ℕ) (j : List ℕ)
    → (lookup root (add root t key value fresh).0 j).0
      ≡ (if bytes_eq j key then some value else (lookup root t j).0)
unfolding add
lookup-add root leaf key value fresh j =
    lookup-find root (node root key value leaf leaf) j
    ∙ new-Shows key value root j
    ∙ ap (λ x. if bytes_eq j key then some value else x) (sym (lookup-find root leaf j))
lookup-add root (node p k v l r) key value fresh j =
    lookup-find root (add_loop (node p k v l r) none key value fresh).0 j
    ∙ loop-Shows key value fresh j p k v l r none (descend-Shows key value fresh j l p none)
        (descend-Shows key value fresh j r p none)
    ∙ ap (λ x. if bytes_eq j key then some value else x) (sym (lookup-find root (node p k v l r) j))
