-- ===== src/KvStore/Search.antt =====
-- What the search loop of chapter_59/kv_store.c finds.
use tlpi_solutions.Common.{
  ℕ, zero, suc, ◌+◌, ◌<◌, ◌≤◌, ◌≡◌, refl, ◌⊎◌, inl, inr, ◌∙◌, true, false, none, some, List, arith,
  length, Bool-cases, ◌>>=◌,
}
use native.Mathlib.Decide.{ℕ_discrete}
use tlpi_solutions.KvStore.{KvRecord, Store, deref, same_key, get_idx_loop, kv_store_get_idx}
use tlpi_solutions.KvStore.Keys.{HasKey}
use tlpi_solutions.KvStore.Validity.{IsValid}

-- No slot from `lo` to `hi` holds the key.
abbrev Absent : Store → List ℕ → ℕ → ℕ → ℕ → Type 0
Absent s key kl lo hi =
    (j : ℕ) (r : KvRecord) → lo ≤ j → j < hi → deref s j ≡ some r → same_key key kl r ≡ false

loop_next :
    (s : Store) (key : List ℕ) (kl n i : ℕ) (r : KvRecord)
    → deref s i ≡ some r
    → same_key key kl r ≡ false
    → get_idx_loop s key kl (suc n) i ≡ get_idx_loop s key kl n (i + 1)
unfolding get_idx_loop
loop_next s key kl n i r e other = rw (e, ◌>>=◌) (rw other)

loop_stop :
    (s : Store) (key : List ℕ) (kl n i : ℕ) (r : KvRecord)
    → deref s i ≡ some r
    → same_key key kl r ≡ true
    → get_idx_loop s key kl (suc n) i ≡ some (some i)
unfolding get_idx_loop
loop_stop s key kl n i r e same = rw (e, ◌>>=◌) (rw same)

Absent-cons :
    (s : Store) (key : List ℕ) (kl n i : ℕ) (r : KvRecord)
    → deref s i ≡ some r
    → same_key key kl r ≡ false
    → Absent s key kl (i + 1) (i + 1 + n)
    → Absent s key kl i (i + suc n)
Absent-cons s key kl n i r e other rest j q lo hi d = elim (ℕ_discrete i j) [
  | yes same ↦ cc
  | no differ ↦ rest j q (omega arith) (omega arith) d
]

loop_cases :
    (s : Store) (key : List ℕ) (kl n i : ℕ)
    → ((j : ℕ) → j < i + n → (r : KvRecord) × (deref s j ≡ some r))
    → ((get_idx_loop s key kl n i ≡ some none) × Absent s key kl i (i + n))
      ⊎ ((j : ℕ) × (r : KvRecord) × (j < i + n)
          × (get_idx_loop s key kl n i ≡ some (some j))
          × (deref s j ≡ some r)
          × (same_key key kl r ≡ true))
loop_cases s key kl zero i held =
    inl ((unfold get_idx_loop in refl), λ j r lo hi e. absurd (omega arith))
loop_cases s key kl (suc n) i held =
    let (r, e) = held i (omega arith) in
    elim (Bool-cases (same_key key kl r)) [
      | inl same ↦ inr (i, r, omega arith, loop_stop s key kl n i r e same, e, same)
      | inr other ↦ elim (loop_cases s key kl n (i + 1) (λ j lt. held j (omega arith))) [
        | inl (stop, rest) ↦
            inl (loop_next s key kl n i r e other ∙ stop, Absent-cons s key kl n i r e other rest)
        | inr (j, q, lt, stop, d, same) ↦
            inr (j, q, omega arith, loop_next s key kl n i r e other ∙ stop, d, same)
      ]
    ]

module _ (s : Store) (v : IsValid s) (k : List ℕ) where
  -- The two outcomes of the search in a valid store: no live record has the key, or one has it.
  pub search_cases :
      ((kv_store_get_idx s k (length k) ≡ some none)
        × ((j : ℕ) (r : KvRecord)
            → j < s.record_cnt
            → deref s j ≡ some r
            → same_key k (length k) r ≡ false))
      ⊎ ((j : ℕ) × (r : KvRecord) × (j < s.record_cnt)
          × (kv_store_get_idx s k (length k) ≡ some (some j))
          × (deref s j ≡ some r)
          × HasKey k r)
  unfolding kv_store_get_idx
  search_cases =
      elim (loop_cases s k (length k) s.record_cnt 0
        (λ j lt. let (r, e, w) = v.held j (omega arith) in (r, e))) [
          | inl (stop, rest) ↦ inl (stop, λ j r lt. rest j r (omega arith) (omega arith))
          | inr (j, q, lt, stop, d, same) ↦ inr (j, q, omega arith, stop, d, same)
        ]

  -- The search finds a live record that has the key.
  pub search_found :
      (i : ℕ) (r : KvRecord)
      → i < s.record_cnt
      → deref s i ≡ some r
      → HasKey k r
      → kv_store_get_idx s k (length k) ≡ some (some i)
  search_found i r lt d has = elim search_cases [
    | inl (stop, rest) ↦ let wrong : same_key k (length k) r ≡ false = rest i r lt d in absurd (cc)
    | inr (j, q, ltj, stop, dj, hasj) ↦
        let e : i ≡ j = v.unique i j r q k lt ltj d dj has hasj in rw e stop
  ]

  -- The search finds nothing where no live record has the key.
  pub search_missing :
      ((j : ℕ) (r : KvRecord)
        → j < s.record_cnt
        → deref s j ≡ some r
        → same_key k (length k) r ≡ false)
      → kv_store_get_idx s k (length k) ≡ some none
  search_missing rest = elim search_cases [
    | inl (stop, _) ↦ stop
    | inr (j, q, lt, stop, d, same) ↦
        let wrong : same_key k (length k) q ≡ false = rest j q lt d in absurd (cc)
  ]
