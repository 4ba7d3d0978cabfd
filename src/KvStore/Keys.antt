-- ===== src/KvStore/Keys.antt =====
-- Keys of records: `same_key` of chapter_59/kv_store.c as a relation between a key and a record.
use tlpi_solutions.Common.{
  ℕ, ◌+◌, ◌≡◌, refl, sym, ◌∙◌, ap, true, ◌&&◌, List, [], ◌∷◌, ◌++◌, arith, ◌==◌, length, take,
  bytes_eq, bytes_eq_sound, bytes_eq_refl, length-take, take-length, length-append,
}
use tlpi_solutions.KvStore.{KvRecord, SockAddr, same_key, new_record}

-- The record `r` is stored under the key `k`.
abbrev pub HasKey : List ℕ → KvRecord → Type 0
HasKey k r = same_key k (length k) r ≡ true

-- The lengths of a record account for all of its bytes.
abbrev pub IsRecord : KvRecord → Type 0
IsRecord r = length r.content ≡ r.key_len + r.value_len

same_key-eq :
    (k : List ℕ) (r : KvRecord)
    → HasKey k r
    → (length k ≡ r.key_len) × (k ≡ take (length k) r.content)
unfolding same_key
same_key-eq k r h = (ground arith, sym (take-length k) ∙ bytes_eq_sound _ _ (ground arith))

-- A record has one key at most.
pub HasKey-injective : (j k : List ℕ) (r : KvRecord) → HasKey j r → HasKey k r → j ≡ k
HasKey-injective j k r hj hk =
    (same_key-eq j r hj).1
    ∙ ap (λ n. take n r.content) ((same_key-eq j r hj).0 ∙ sym (same_key-eq k r hk).0)
    ∙ sym (same_key-eq k r hk).1

-- A record that keeps its lengths has a key.
pub own_key : (r : KvRecord) → IsRecord r → HasKey (take r.key_len r.content) r
unfolding same_key
own_key r w =
    let n : length (take r.key_len r.content) ≡ r.key_len =
      omega (arith, length-take r.key_len r.content) in
    let e : take (length (take r.key_len r.content)) (take r.key_len r.content)
        ≡ take r.key_len r.content =
      take-length _ in
    rw (e, n) (ground (arith, bytes_eq_refl (take r.key_len r.content)))

bytes_eq-length : (xs ys : List ℕ) → bytes_eq xs ys ≡ true → length xs ≡ length ys
bytes_eq-length [] [] h = refl
bytes_eq-length [] (y ∷ ys) h = ground arith
bytes_eq-length (x ∷ xs) [] h = ground arith
bytes_eq-length (x ∷ xs) (y ∷ ys) h = ground (arith, bytes_eq-length xs ys)

bytes_eq-prefix :
    (j k v : List ℕ)
    → (length j == length k && bytes_eq j (take (length j) (k ++ v))) ≡ bytes_eq j k
bytes_eq-prefix [] [] v = refl
bytes_eq-prefix [] (y ∷ ys) v = ground arith
bytes_eq-prefix (x ∷ xs) [] v = ground arith
bytes_eq-prefix (x ∷ xs) (y ∷ ys) v = ground (arith, bytes_eq-prefix xs ys v)

-- The record that a set of `k` makes is stored under `k` and under no other key.
pub same_key-new_record :
    (j k v : List ℕ) (c : SockAddr)
    → same_key j (length j) (new_record k (length k) v (length v) c) ≡ bytes_eq j k
unfolding same_key new_record
same_key-new_record j k v c =
    rw (take-length j, take-length k, take-length v) (bytes_eq-prefix j k v)

pub key-new_record :
    (j k v : List ℕ) (c : SockAddr) → HasKey j (new_record k (length k) v (length v) c) → j ≡ k
key-new_record j k v c h = bytes_eq_sound j k (sym (same_key-new_record j k v c) ∙ h)

pub HasKey-new_record :
    (k v : List ℕ) (c : SockAddr) → HasKey k (new_record k (length k) v (length v) c)
HasKey-new_record k v c = same_key-new_record k k v c ∙ bytes_eq_refl k

pub new_record-IsRecord :
    (k v : List ℕ) (c : SockAddr) → IsRecord (new_record k (length k) v (length v) c)
unfolding new_record
new_record-IsRecord k v c = rw (take-length k, take-length v) (length-append k v)
