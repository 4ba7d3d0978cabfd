-- ===== src/ThreadsafeTree/Remove.antt =====
-- delete() of chapter_30/threadsafe_tree.c as that of a map, for nodes with at most one child.
use tlpi_solutions.Common.{
  ℕ, ◌<◌, ◌≡◌, ◌≢◌, refl, sym, ap, ◌∙◌, true, false, Option, none, some, List, arith, length,
  bytes_eq, bytes_eq_sound, bytes_eq_refl, Bool-cases, inl, inr, if◌then◌else◌,
}
use tlpi_solutions.ThreadsafeTree.{
  Tree, leaf, node, Sign, less, same, greater, strcmp, strncmp, max_key_len, lookup, delete_root,
  delete_found, delete_loop, delete,
}
use tlpi_solutions.ThreadsafeTree.Strcmp.{strcmp-same, strcmp_refl, strncmp-strcmp, Sign-cases}
use tlpi_solutions.ThreadsafeTree.Map.{find, lookup-find}
use tlpi_solutions.ThreadsafeTree.DeleteLocks.{both, has_two}

-- All keys of the tree compare with `k` so.
abbrev pub All : Sign → List ℕ → Tree → Type 0
All s k leaf = Unit {0}
All s k (node p k' v l r) = (strcmp k' k ≡ s) × All s k l × All s k r

-- The keys to the left of a node are less than its key, those to the right are greater.
abbrev pub IsOrdered : Tree → Type 0
IsOrdered leaf = Unit {0}
IsOrdered (node p k v l r) = All less k l × All greater k r × IsOrdered l × IsOrdered r

find-All : (s : Sign) (k j : List ℕ) (t : Tree) → All s k t → strcmp j k ≢ s → find t j ≡ none
unfolding find
find-All s k j leaf w q = refl
find-All s k j (node p k' v l r) w q = elim (Sign-cases (strcmp j k')) [
  | inl c ↦ absurd (q (rw (strcmp-same j k' c) (w.0)))
  | inr (inl c) ↦ rw (c, find) (find-All s k j l w.1 q)
  | inr (inr c) ↦ rw (c, find) (find-All s k j r w.2 q)
]

join : Tree → Tree → Tree
join leaf r = r
join (node p k v l' r') r = node p k v l' r'

-- What a lookup of `j` finds in `t'` where the key has been taken out of `t`.
abbrev Lacks : List ℕ → List ℕ → Tree → Tree → Type 0
Lacks key j t t' = find t' j ≡ (if bytes_eq j key then none else find t j)

module _ (key j : List ℕ) where
  differ : bytes_eq j key ≡ false → strcmp j key ≢ same
  differ e q =
      let diff : bytes_eq j j ≡ false = rw (← strcmp-same j key q) at e in cc (bytes_eq_refl j)

  -- What is found beside a node is found in one tree `t` in its place.
  beside :
      (p : ℕ) (v : ℕ) (l r t : Tree)
      → (strcmp j key ≢ less → find t j ≡ find r j)
      → (strcmp j key ≢ greater → find t j ≡ find l j)
      → All less key l
      → All greater key r
      → Lacks key j (node p key v l r) t
  unfolding find
  beside p v l r t right left wl wr = elim (Sign-cases (strcmp j key)) [
    | inl c ↦
        let eq : j ≡ key = strcmp-same j key c in
        let e : bytes_eq j key ≡ true = rw eq (bytes_eq_refl key) in
        rw e (left (λ g. cc) ∙ find-All less key j l wl (λ g. cc))
    | inr (inl c) ↦ rw (other (λ g. cc), c, find) (left (λ g. cc))
    | inr (inr c) ↦ rw (other (λ g. cc), c, find) (right (λ g. cc))
  ]
    where
      other : strcmp j key ≢ same → bytes_eq j key ≡ false
      other q = elim (Bool-cases (bytes_eq j key)) [
        | inr e ↦ e
        | inl e ↦ absurd (q (rw (bytes_eq_sound j key e) (strcmp_refl key)))
      ]

  join-Lacks :
      (p : ℕ) (v : ℕ) (l r : Tree)
      → both l r ≡ false
      → All less key l
      → All greater key r
      → Lacks key j (node p key v l r) (join l r)
  unfolding join find
  join-Lacks p v leaf r h wl wr =
      beside p v leaf r r (λ q. refl) (λ q. find-All greater key j r wr q) wl wr
  join-Lacks p v (node a k v' l r) leaf h wl wr =
      let t : Tree = node a k v' l r in
      beside p v t leaf t (λ q. find-All less key j t wl q) (λ q. refl) wl wr
  join-Lacks p v (node a k v' l r) (node b k2 v2 l2 r2) h wl wr = absurd (cc)

  left-Lacks :
      (p : ℕ) (k : List ℕ) (v : ℕ) (l r t : Tree)
      → strcmp key k ≡ less
      → Lacks key j l t
      → Lacks key j (node p k v l r) (node p k v t r)
  unfolding find
  left-Lacks p k v l r t c sub = elim (Bool-cases (bytes_eq j key)) [
    | inl e ↦ let eq : j ≡ key = bytes_eq_sound j key e in rw (e, eq, find, c) (rw e at sub)
    | inr e ↦ rw e (ground arith)
  ]

  right-Lacks :
      (p : ℕ) (k : List ℕ) (v : ℕ) (l r t : Tree)
      → strcmp key k ≡ greater
      → Lacks key j r t
      → Lacks key j (node p k v l r) (node p k v l t)
  unfolding find
  right-Lacks p k v l r t c sub = elim (Bool-cases (bytes_eq j key)) [
    | inl e ↦ let eq : j ≡ key = bytes_eq_sound j key e in rw (e, eq, find, c) (rw e at sub)
    | inr e ↦ rw e (ground arith)
  ]

  found-join :
      (p parent : ℕ) (l r : Tree) → both l r ≡ false → (delete_found p parent l r).0 ≡ join l r
  unfolding delete_found join
  found-join p parent leaf leaf h = refl
  found-join p parent leaf (node q k v l r) h = refl
  found-join p parent (node q k v l r) leaf h = refl
  found-join p parent (node a k v l r) (node b k' v' l' r') h = absurd (cc)

  root-join :
      (p : ℕ) (l r : Tree) → both l r ≡ false → find (delete_root p l r).0 j ≡ find (join l r) j
  unfolding delete_root join find
  root-join p leaf leaf h = refl
  root-join p leaf (node q k v l r) h = refl
  root-join p (node q k v l r) leaf h = refl
  root-join p (node a k v l r) (node b k' v' l' r') h = absurd (cc)

  module _ (short : length key < max_key_len) where
    -- The key of a node at which the search ends.
    here :
        (p : ℕ) (k : List ℕ) (v : ℕ) (l r : Tree)
        → strncmp max_key_len key k ≡ same
        → both l r ≡ false
        → IsOrdered (node p k v l r)
        → Lacks key j (node p k v l r) (join l r)
    here p k v l r c h w =
        let eq : key ≡ k = strcmp-same key k (sym (strncmp-strcmp max_key_len key k short) ∙ c) in
        rw (← eq) (join-Lacks p v l r h (rw (eq) w.0) (rw (eq) w.1))

    full : {s : Sign} (k : List ℕ) → strncmp max_key_len key k ≡ s → strcmp key k ≡ s
    full k c = sym (strncmp-strcmp max_key_len key k short) ∙ c

    loop-Lacks :
        (t : Tree) (parent : ℕ) (grand_parent : Option ℕ)
        → IsOrdered t
        → has_two t key ≡ false
        → Lacks key j t (delete_loop t parent grand_parent key).0
    unfolding delete_loop has_two find
    loop-Lacks leaf parent grand_parent w h = ground arith
    loop-Lacks (node p k v l r) parent grand_parent w h =
        elim (Sign-cases (strncmp max_key_len key k)) [
          | inl c ↦
              let single : both l r ≡ false = rw (c, has_two) at h in
              rw (c, delete_loop, found-join p parent l r single) (here p k v l r c single w)
          | inr (inl c) ↦
              rw (c, delete_loop)
                (left-Lacks p k v l r _ (full k c)
                  (loop-Lacks l p (some parent) w.2 (rw (c, has_two) at h)))
          | inr (inr c) ↦
              rw (c, delete_loop)
                (right-Lacks p k v l r _ (full k c)
                  (loop-Lacks r p (some parent) w.3 (rw (c, has_two) at h)))
        ]

-- In an ordered tree, for a key shorter than MAX_KEY_LEN of a node that has at most one child, or
-- of none: after a delete a lookup of the key finds nothing, and a lookup of any other key finds
-- what it found before.
pub lookup-delete :
    (root : ℕ) (t : Tree) (key j : List ℕ)
    → IsOrdered t
    → length key < max_key_len
    → has_two t key ≡ false
    → (lookup root (delete root t key).0 j).0
      ≡ (if bytes_eq j key then none else (lookup root t j).0)
unfolding delete has_two find
lookup-delete root t key j w short h =
    lookup-find root (delete root t key).0 j
    ∙ lacks t w h
    ∙ ap (λ x. if bytes_eq j key then none else x) (sym (lookup-find root t j))
  where
    lacks : (t : Tree) → IsOrdered t → has_two t key ≡ false → Lacks key j t (delete root t key).0
    lacks leaf w h = ground arith
    lacks (node p k v l r) w h = elim (Sign-cases (strncmp max_key_len key k)) [
      | inl c ↦
          let single : both l r ≡ false = rw (c, has_two) at h in
          rw (c, delete) (root-join key j p l r single ∙ here key j short p k v l r c single w)
      | inr (inl c) ↦
          rw (c, delete)
            (left-Lacks key j p k v l r _ (full key j short k c)
              (loop-Lacks key j short l p none w.2 (rw (c, has_two) at h)))
      | inr (inr c) ↦
          rw (c, delete)
            (right-Lacks key j p k v l r _ (full key j short k c)
              (loop-Lacks key j short r p none w.3 (rw (c, has_two) at h)))
    ]
