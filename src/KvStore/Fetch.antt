-- ===== src/KvStore/Fetch.antt =====
-- What a client of chapter_59/kv_store.c reads: kv_store_get() and the record behind the pointer.
use tlpi_solutions.Common.{
  ℕ, ◌<◌, ◌≡◌, ◌⊎◌, inl, inr, sym, ◌∙◌, none, some, Option, List, length, false, ◌>>=◌,
}
use tlpi_solutions.KvStore.{KvRecord, Store, deref, same_key, kv_store_get}
use tlpi_solutions.KvStore.Keys.{HasKey}
use tlpi_solutions.KvStore.Validity.{IsValid}
use tlpi_solutions.KvStore.Search.{search_cases, search_found, search_missing}
use tlpi_solutions.KvStore.Effects.{deref-inv}
use tlpi_solutions.KvStore.Sets.{IsAbsent}

-- The record that a get of `k` shows to its caller, read at once.
unfoldable pub fetch : Store → List ℕ → Option (Option KvRecord)
fetch s k = kv_store_get s k (length k) >>= λ found. elim found.1 [
  | none ↦ some none
  | some p ↦ s.heap p >>= λ r. some (some r)
]

module _ (s : Store) (v : IsValid s) (k : List ℕ) where
  pub fetch_found :
      (i : ℕ) (r : KvRecord)
      → i < s.record_cnt
      → deref s i ≡ some r
      → HasKey k r
      → fetch s k ≡ some (some r)
  unfolding fetch kv_store_get
  fetch_found i r lt d has =
      let (p, at, here) = deref-inv s i d in
      rw (search_found s v k i r lt d has, ◌>>=◌) (rw (at, ◌>>=◌) (rw here))

  pub fetch_missing : IsAbsent s k → fetch s k ≡ some none
  unfolding fetch kv_store_get
  fetch_missing absent = rw (search_missing s v k absent, ◌>>=◌)

  -- A get in a valid store shows the live record of its key, or that there is none.
  pub fetch_cases :
      ((fetch s k ≡ some none) × IsAbsent s k)
      ⊎ ((i : ℕ) × (r : KvRecord) × (i < s.record_cnt)
          × (deref s i ≡ some r)
          × HasKey k r
          × (fetch s k ≡ some (some r)))
  fetch_cases = elim (search_cases s v k) [
    | inl (e, absent) ↦ inl (fetch_missing absent, absent)
    | inr (i, r, lt, e, d, has) ↦ inr (i, r, lt, d, has, fetch_found i r lt d has)
  ]

module _ (s t : Store) (vs : IsValid s) (vt : IsValid t) (j : List ℕ) where
  -- Two stores show the same under a key if the slots that hold it correspond.
  pub fetch_same :
      ((i : ℕ) (r : KvRecord)
        → i < s.record_cnt
        → deref s i ≡ some r
        → HasKey j r
        → (m : ℕ) × (m < t.record_cnt) × (deref t m ≡ some r))
      → ((m : ℕ) (r : KvRecord)
          → m < t.record_cnt
          → deref t m ≡ some r
          → HasKey j r
          → (i : ℕ) × (i < s.record_cnt) × (deref s i ≡ some r))
      → fetch t j ≡ fetch s j
  fetch_same forth back = elim (fetch_cases s vs j) [
    | inr (i, r, lt, d, has, e) ↦
        let (m, lt', d') = forth i r lt d has in fetch_found t vt j m r lt' d' has ∙ sym e
    | inl (e, absent) ↦ elim (fetch_cases t vt j) [
      | inl (e', absent') ↦ e' ∙ sym e
      | inr (m, r, lt, d, has, e') ↦
          let (i, lt', d') = back m r lt d has in
          let no_key : same_key j (length j) r ≡ false = absent i r lt' d' in absurd (cc)
    ]
  ]
